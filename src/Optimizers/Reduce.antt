-- ===== src/Optimizers/Reduce.antt =====
-- `_DistributedReduceOptimizer`: a parameter is combined with those of other ranks while the model
-- computes, and the result is written at `step`.
pub mod Hook
pub mod Synchronize
pub mod Round
use Prim.Native.String.{String}
use bluefog.Common.{
  ℕ, Bool, true, false, if◌then◌else◌, Option, none, some, List, [], ◌∷◌, ok, raise, type_error,
}
use bluefog.Common.Dict.{constant}
use bluefog.Common.Delays.{pos}
use bluefog.Common.Names.{Names, lookup_name, dotted}
use bluefog.Common.Stateful.{M, ◌>>=◌, ◌>>◌, return, reads, modify, throw, for_each}
use bluefog.Optimizers.Communicator.{Communicator}
use bluefog.Optimizers.Calls.{CommunicationType, Calls, communicator_of}
use bluefog.Optimizers.Modules.{Layer, Module, named_leaf_module}
use bluefog.Optimizers.State.{
  Optimizer, to_data, on_bf, communicate, count_down, settle, settled, step_with,
}

-- `parent_name + '.' + name`, which raises for a leaf without a name.
abbrev pub parameter_name : {S : Type 0} → Option String → String → M S String
parameter_name none name = throw type_error
parameter_name (some parent) name = return (dotted parent name)

-- `name_parameters` has the parameters by their names, `timeline_end_activity` is the function of
-- `bf`, and `requires_grad` is the attribute of a parameter.
module _ {S T : Type 0} (calls : Calls S T) (communication_type : CommunicationType)
    (num_steps_per_communication : ℕ) (name_parameters : Names ℕ) (requires_grad : ℕ → Bool)
    (use_timeline : Bool) (timeline_end_activity : String → M S Bool) where
  -- What is done for a parameter that the hook does not skip.
  abbrev pub pass_of : ℕ → M (Optimizer S T) (Unit {0})
  pass_of p =
      count_down p (communicate (communicator_of calls communication_type) (λ o. o.param_data p))

  abbrev pub end_activity : String → M (Optimizer S T) (Unit {0})
  end_activity name =
      if use_timeline then (do on_bf (timeline_end_activity name); return tt) else return tt

  -- A round of the inner loop of the hook.
  abbrev pub visit : Option String → Layer → String × ℕ → M (Optimizer S T) (Unit {0})
  visit parent layer (name, p) =
      if layer.training
      then (do
        full ← parameter_name parent name
        elim (lookup_name full name_parameters) [
          | none ↦ return tt
          | some q ↦ (do end_activity full; (if requires_grad p then pass_of p else return tt))
        ])
      else return tt

  abbrev pub visit_layer : Option String × Layer → M (Optimizer S T) (Unit {0})
  visit_layer (parent, layer) = for_each (visit parent layer) layer.named_parameters

  -- `_make_hook`: the hook after the forward computation of a model.
  unfoldable pub hook : Module → M (Optimizer S T) (Unit {0})
  unfolding named_leaf_module count_down
  hook model = for_each visit_layer (named_leaf_module none model)

  -- The outputs are written to the parameters.
  unfoldable pub synchronize : M (Optimizer S T) (Unit {0})
  unfolding settle
  synchronize = do
    handles ← reads (λ o. ok o.handles)
    settle calls.synchronize to_data num_steps_per_communication handles
    modify settled

  unfoldable pub step : {A : Type 0} → M (Optimizer S T) A → M (Optimizer S T) A
  unfolding step_with synchronize
  step inner_step = step_with synchronize inner_step
