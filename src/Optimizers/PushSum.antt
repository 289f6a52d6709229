-- ===== src/Optimizers/PushSum.antt =====
-- `_DistributedPushSumOptimizer`: a parameter and a weight are accumulated in the windows of the
-- neighbors, and divided by each other. A tensor is an object; what it holds is part of the library's
-- state, as it is for windows.
pub mod Keys
use Prim.Native.String.{String}
use bluefog.Common.{
  ℕ, Bool, true, false, ltb, if◌then◌else◌, Option, none, some, List, [], ◌∷◌, Result, ok, raise,
  key_error, value_error,
}
use bluefog.Common.Delays.{ℤ, pos, pred, is_zero}
use bluefog.Common.Dict.{Dict, lookup, assign}
use bluefog.Common.Names.{Names, lookup_name, assign_name, dotted}
use bluefog.Common.Stateful.{M, ◌>>=◌, ◌>>◌, return, reads, modify, throw, require, for_each}
use bluefog.Basics.Library.{Library}
use bluefog.Torch.Weights.{Floats}
use bluefog.Torch.Handles.{Tensors, Extension, Ops}
use bluefog.Torch.Windows.{
  WindowExtension, library_of, set_library, win_create, win_wait, win_accumulate_nonblocking,
  win_update_then_collect,
}
use bluefog.Optimizers.Modules.{Layer, Module, named_leaf_module}
use bluefog.Optimizers.Reduce.{parameter_name}
use bluefog.Optimizers.State.{
  Optimizer, on_bf, use_pass, keep_handle, delay_at, write_to, to_data, settled,
}

-- What torch computes: the weight 1.0 like a tensor, `cat` of a flat tensor and a weight, `mul_`, and
-- the quotient in the shape of a tensor.
pub record Vectors (L T F : Type 0) : Type 0 where
  pub one_like : T → L → T × L
  pub cat : T → T → L → T × L
  pub mul_ : T → F → L → L
  pub quotient : T → T → L → T × L

pub record PushSum (L T F : Type 0) : Type 0 where
  pub base : Optimizer (Ops L T F) T
  pub named_ps_weights : Names T
  pub named_extension_parameters : Names T

-- `names[name]`
abbrev pub named : {T : Type 0} → String → Names T → Result T
named name tensors = elim (lookup_name name tensors) [ none ↦ raise key_error | some t ↦ ok t ]

module _ {L T F : Type 0} where
  abbrev pub on_optimizer : {A : Type 0} → M (Optimizer (Ops L T F) T) A → M (PushSum L T F) A
  on_optimizer m o = let (r, base) = m o.base in (r, record o { base = base })

  -- A computation of torch.
  abbrev pub compute : {A : Type 0} → (L → A × L) → M (PushSum L T F) A
  compute f = on_optimizer (on_bf (λ s. let (a, l) = f (library_of s) in (ok a, set_library l s)))

  abbrev pub set_weights : String → T → PushSum L T F → PushSum L T F
  set_weights name t o = record o { named_ps_weights = assign_name name t o.named_ps_weights }

  abbrev pub set_extension : String → T → PushSum L T F → PushSum L T F
  set_extension name t o = record o {
    named_extension_parameters = assign_name name t o.named_extension_parameters;
  }

  module _ (vectors : Vectors L T F) (tensors : Tensors T) (ext : Extension L T F)
      (win : WindowExtension L T F) (parameter_names : Dict String) where
    -- A round of the loop of `_register_window`.
    abbrev pub register_one : ℕ → M (PushSum L T F) (Unit {0})
    register_one p = elim (lookup p parameter_names) [
      | none ↦ throw key_error
      | some name ↦ (do
        data_of ← reads (λ o. ok (o.base.param_data p))
        ps_weights ← compute (vectors.one_like data_of)
        modify (set_weights name ps_weights)
        extended_parameter ← compute (vectors.cat data_of ps_weights)
        modify (set_extension name extended_parameter)
        created ← on_optimizer (on_bf (win_create tensors ext win extended_parameter name true))
        require created value_error)
    ]

    unfoldable pub register_window : List ℕ → M (PushSum L T F) (Unit {0})
    unfolding win_create
    register_window parameters = for_each register_one parameters

    module _ (fl : Floats F) (lib : Library L F) (num_steps_per_communication : ℕ)
        (requires_grad : ℕ → Bool) (use_timeline : Bool)
        (timeline_end_activity : String → M (Ops L T F) Bool) (self_weight : F)
        (dst_weights : Dict F) where
      -- What the hook does at the last pass of a parameter. It stores the tensor under `name`.
      abbrev pub accumulate : String → String → ℕ → M (PushSum L T F) (Unit {0})
      accumulate full_name name p = do
        ps_weights ← reads (λ o. named full_name o.named_ps_weights)
        data_of ← reads (λ o. ok (o.base.param_data p))
        extended_parameter ← compute (vectors.cat data_of ps_weights)
        modify (set_extension name extended_parameter)
        handle ← on_optimizer (
            on_bf (
              win_accumulate_nonblocking tensors ext win fl lib extended_parameter full_name none
                (some dst_weights) true))
        on_optimizer (modify (keep_handle p (some handle)))

      abbrev pub pass : String → String → ℕ → M (PushSum L T F) (Unit {0})
      pass full_name name p = do
        d ← reads (λ o. delay_at p o.base)
        on_optimizer (modify (use_pass p d))
        (if is_zero (pred d) then accumulate full_name name p else return tt)

      -- A round of the inner loop of the hook.
      abbrev pub visit : Option String → Layer → String × ℕ → M (PushSum L T F) (Unit {0})
      visit parent layer (name, p) = do
        full_name ← parameter_name parent name
        (if use_timeline
            then (do on_optimizer (on_bf (timeline_end_activity full_name)); return tt)
            else return tt)
        (if layer.training
            then (if requires_grad p then pass full_name name p else return tt)
            else return tt)

      abbrev pub visit_layer : Option String × Layer → M (PushSum L T F) (Unit {0})
      visit_layer (parent, layer) = for_each (visit parent layer) layer.named_parameters

      unfoldable pub hook : Module → M (PushSum L T F) (Unit {0})
      unfolding named_leaf_module win_accumulate_nonblocking
      hook model = for_each visit_layer (named_leaf_module none model)

      -- `self._named_extension_parameters[self._parameter_names.get(p)]`
      abbrev pub extension_of : ℕ → PushSum L T F → Result (String × T)
      extension_of p o = elim (lookup p parameter_names) [
        | none ↦ raise key_error
        | some name ↦ elim (lookup_name name o.named_extension_parameters) [
          | none ↦ raise key_error
          | some t ↦ ok (name, t)
        ]
      ]

      -- A round of the loop of `synchronize`.
      abbrev pub collect_one : ℕ × Option ℕ → M (PushSum L T F) (Unit {0})
      collect_one (p, handle) = do
        (elim handle [
          | none ↦ return tt
          | some h ↦ (do on_optimizer (on_bf (win_wait tensors ext win h)); return tt)
        ])
        on_optimizer
            (modify (λ o. record o { delay = assign p (pos num_steps_per_communication) o.delay }))
        (name, extended_parameter) ← reads (extension_of p)
        compute (λ l. (tt {0}, vectors.mul_ extended_parameter self_weight l))
        collected ← on_optimizer (on_bf (win_update_then_collect tensors ext win fl lib name true))
        shape_of ← reads (λ o. ok (o.base.param_data p))
        corrected_parameter ← compute (vectors.quotient collected shape_of)
        on_optimizer (modify (write_to to_data p corrected_parameter))

      unfoldable pub synchronize : M (PushSum L T F) (Unit {0})
      unfolding win_wait win_update_then_collect
      synchronize = do
        handles ← reads (λ o. ok o.base.handles)
        for_each collect_one handles
        on_optimizer (modify settled)
