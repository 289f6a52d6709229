-- ===== src/Optimizers/Reduce/Hook.antt =====
-- The hook after a forward computation: which parameters it passes, and what that leaves.
use Prim.Native.String.{String}
use mathlib.Core.List.{◌++◌}
use bluefog.Common.{
  ℕ, ◌≡◌, ◌∙◌, ap, refl, arith, Bool, true, false, ◌&&◌, if◌then◌else◌, Option, none, some, List,
  [], ◌∷◌, ok, raise, type_error, inl, inr, Result-cases,
}
use bluefog.Common.Names.{Names, lookup_name, dotted}
use bluefog.Common.Stateful.{M, ◌>>◌, for_each}
use bluefog.Optimizers.Communicator.{Communicator, IsCommunicator, Accepts}
use bluefog.Optimizers.Modules.{
  Layer, Module, Children, module_of, no_child, child, Leaves, named_leaf_module, all_named,
  named_leaf_module-names,
}
use bluefog.Optimizers.State.{Optimizer, communicate, count_down}
use bluefog.Optimizers.State.Count.{Inv}
use bluefog.Optimizers.State.Trace.{counters, Counted, passes_all-Counted}
use bluefog.Optimizers.Calls.{CommunicationType, Calls, communicator_of}
use bluefog.Optimizers.Reduce.{pass_of, visit, visit_layer, hook}

-- Whether a parameter of a leaf is passed: the layer is training, the parameter is listed under this
-- name, and it requires a gradient.
abbrev pub is_passed : Names ℕ → (ℕ → Bool) → String → Layer → String × ℕ → Bool
is_passed name_parameters requires_grad parent layer (name, p) =
    layer.training
    && elim (lookup_name (dotted parent name) name_parameters) [ none ↦ false | some q ↦ true ]
    && requires_grad p

abbrev pub passed_in : Names ℕ → (ℕ → Bool) → String → Layer → Names ℕ → List ℕ
passed_in name_parameters requires_grad parent layer [] = []
passed_in name_parameters requires_grad parent layer ((name, p) ∷ rest) =
    let others = passed_in name_parameters requires_grad parent layer rest in
    if is_passed name_parameters requires_grad parent layer (name, p) then p ∷ others else others

-- The parameters that are passed, in the order of the hook.
abbrev pub passed_of : Names ℕ → (ℕ → Bool) → Leaves → List ℕ
passed_of name_parameters requires_grad [] = []
passed_of name_parameters requires_grad ((none, layer) ∷ rest) =
    passed_of name_parameters requires_grad rest
passed_of name_parameters requires_grad ((some parent, layer) ∷ rest) =
    passed_in name_parameters requires_grad parent layer layer.named_parameters
    ++ passed_of name_parameters requires_grad rest

for_each-append :
    {S A : Type 0} (f : A → M S (Unit {0})) (xs ys : List A) (s : S)
    → for_each f (xs ++ ys) s ≡ (for_each f xs >> for_each f ys) s
for_each-append f [] ys s = refl
for_each-append f (x ∷ xs) ys s = elim (Result-cases (f x s).0) [
  | inl (e, failed) ↦ ground (arith, failed)
  | inr (_, ran) ↦ ground (arith, ran, for_each-append f xs ys (f x s).1)
]

module _ {S T : Type 0} (calls : Calls S T) (communication_type : CommunicationType)
    (num_steps_per_communication : ℕ) (name_parameters : Names ℕ) (requires_grad : ℕ → Bool)
    (timeline_end_activity : String → M S Bool) where
  visit_layer-passes :
      (parent : String) (layer : Layer) (ps : Names ℕ) (o : Optimizer S T)
      → for_each
          (visit calls communication_type num_steps_per_communication name_parameters requires_grad
            false timeline_end_activity
            (some parent)
            layer)
          ps
          o
        ≡ for_each
            (pass_of calls communication_type num_steps_per_communication name_parameters
              requires_grad false timeline_end_activity)
            (passed_in name_parameters requires_grad parent layer ps)
            o
  visit_layer-passes parent layer [] o = refl
  visit_layer-passes parent layer ((name, p) ∷ ps) o =
      let passes =
        pass_of calls communication_type num_steps_per_communication name_parameters requires_grad
          false timeline_end_activity p o in
      elim (Result-cases passes.0) [
        | inl (e, failed) ↦ ground (arith, failed, visit_layer-passes parent layer ps o)
        | inr (_, ran) ↦ ground (
          arith,
          ran,
          visit_layer-passes parent layer ps o,
          visit_layer-passes parent layer ps passes.1,
        )
      ]

  hook-leaves :
      (leaves : Leaves) (o : Optimizer S T)
      → all_named leaves ≡ true
      → for_each
          (visit_layer calls communication_type num_steps_per_communication name_parameters
            requires_grad false timeline_end_activity)
          leaves
          o
        ≡ for_each
            (pass_of calls communication_type num_steps_per_communication name_parameters
              requires_grad false timeline_end_activity)
            (passed_of name_parameters requires_grad leaves)
            o
  hook-leaves [] o a = refl
  hook-leaves ((none, layer) ∷ rest) o a = absurd (ground arith)
  hook-leaves ((some parent, layer) ∷ rest) o a =
      let passes = passed_in name_parameters requires_grad parent layer layer.named_parameters in
      let pass_all =
        for_each
          (pass_of calls communication_type num_steps_per_communication name_parameters
            requires_grad false timeline_end_activity)
          passes o in
      let here = visit_layer-passes parent layer layer.named_parameters o in
      let both =
        for_each-append
          (pass_of calls communication_type num_steps_per_communication name_parameters
            requires_grad false timeline_end_activity)
          passes (passed_of name_parameters requires_grad rest) o in
      elim (Result-cases pass_all.0) [
        | inl (e, failed) ↦ ground (arith, failed, here, both)
        | inr (_, ran) ↦ ground (arith, ran, here, both, hook-leaves rest pass_all.1 a)
      ]

  -- If the timeline is off, the hook after the computation of a model with children is a pass of each
  -- parameter that is passed, in the order of the leaves.
  hook-passes :
      (layer : Layer) (name : String) (m : Module) (cs : Children) (o : Optimizer S T)
      → let model = module_of layer (child name m cs) in
        hook calls communication_type num_steps_per_communication name_parameters requires_grad
          false timeline_end_activity model o
        ≡ for_each
            (pass_of calls communication_type num_steps_per_communication name_parameters
              requires_grad false timeline_end_activity)
            (passed_of name_parameters requires_grad (named_leaf_module none model))
            o
  unfolding hook
  hook-passes layer name m cs o =
      hook-leaves (named_leaf_module none (module_of layer (child name m cs))) o
        (named_leaf_module-names layer (child name m cs))

  -- The hook of a model that is itself a leaf, and trains a parameter, raises.
  pub hook-leaf :
      (layer : Layer) (name : String) (p : ℕ) (rest : Names ℕ) (o : Optimizer S T)
      → layer.training ≡ true
      → layer.named_parameters ≡ (name, p) ∷ rest
      → hook calls communication_type num_steps_per_communication name_parameters requires_grad
          false timeline_end_activity
          (module_of layer no_child)
          o
        ≡ (raise type_error, o)
  unfolding hook named_leaf_module
  hook-leaf layer name p rest o training named = ground (arith, training, named)

  module _ (c : Communicator S T) (chosen : communicator_of calls communication_type ≡ some c)
      (Sound : S → Type 0) (pending : S → ℕ → Option T) (h : IsCommunicator c Sound pending)
      (accepts : (t : T) → Accepts c Sound t) where
    -- If the timeline is off, the operation accepts all tensors and each parameter that is
    -- passed has a counter, then the hook does not raise, and each counter is lowered by the
    -- number of passes of its parameter.
    pub forward-Counted :
        (layer : Layer) (name : String) (m : Module) (cs : Children) (o : Optimizer S T)
        → let model = module_of layer (child name m cs) in
          let passed = passed_of name_parameters requires_grad (named_leaf_module none model) in
          Inv c Sound pending h o
          → counters o.delay passed ≡ true
          → let (result, after) =
              hook calls communication_type num_steps_per_communication name_parameters
                requires_grad false timeline_end_activity model o in
            (result ≡ ok tt)
            × Counted c Sound pending h accepts (λ p o. o.param_data p) passed o after
    forward-Counted layer name m cs o inv a =
        let model = module_of layer (child name m cs) in
        let passed = passed_of name_parameters requires_grad (named_leaf_module none model) in
        let chose =
          ap (λ k. for_each (λ p. count_down p (communicate k (λ o. o.param_data p))) passed o)
            chosen in
        rw (hook-passes layer name m cs o ∙ chose)
          (passes_all-Counted c Sound pending h accepts (λ p o. o.param_data p) passed o inv a)
