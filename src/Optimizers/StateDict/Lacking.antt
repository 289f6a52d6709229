-- ===== src/Optimizers/StateDict/Lacking.antt =====
-- broadcast_optimizer_state of bluefog/torch/utility.py: a parameter that has no state.
use bluefog.Optimizers.Communicator.{Communicator}
use bluefog.Common.Names.{Names}
use mathlib.Core.List.{◌++◌}
use bluefog.Common.{
  traverse, ℕ, map, suc, Result-cases, inl, inr, Result, raise, ◌||◌, ok, ◌≡◌, refl, arith, Bool,
  true, false, Option, none, some, List, [], ◌∷◌,
}
use bluefog.Optimizers.StateDict.{
  Snapshot, initialized, items_of, items_from, params_items, wrapped, wrapped_item, option_items,
  param_items, Group, Value, broadcast_optimizer_state,
}

-- Whether a parameter of a group has no state.
abbrev pub lacks : {X : Type 0} → (ℕ → Option X) → List ℕ → Bool
lacks state [] = false
lacks state (pid ∷ pids) = elim (state pid) [ none ↦ true | some _ ↦ lacks state pids ]

abbrev pub any_lacks : {X V : Type 0} → (ℕ → Option X) → List (Group V) → Bool
any_lacks state [] = false
any_lacks state (group ∷ groups) = lacks state group.params || any_lacks state groups

abbrev pub raised : {A : Type 0} → Result A → Bool
raised (ok _) = false
raised (raise _) = true

raised-traverse :
    {A B : Type 0} (f : A → Result B) (xs ys : List A)
    → raised (traverse f (xs ++ ys)) ≡ (raised (traverse f xs) || raised (traverse f ys))
raised-traverse f [] ys = refl
raised-traverse f (x ∷ xs) ys = ground (arith, raised-traverse f xs ys)

module _ {T V : Type 0} (wrap : V → Result T) (state : ℕ → Option (Names (Value T V))) where
  params_items-raised :
      (pids : List ℕ)
      → lacks state pids ≡ true
      → raised (wrapped wrap (params_items state pids)) ≡ true
  params_items-raised [] m = absurd (ground arith)
  params_items-raised (pid ∷ pids) m = ground (
    arith,
    raised-traverse (wrapped_item wrap) (param_items pid (state pid)) (params_items state pids),
    params_items-raised pids,
  )

  items_from-raised :
      (index : ℕ) (groups : List (Group V))
      → any_lacks state groups ≡ true
      → raised (wrapped wrap (items_from state index groups)) ≡ true
  items_from-raised index [] m = absurd (ground arith)
  items_from-raised index (group ∷ groups) m =
      let params = params_items state group.params in
      let others = items_from state (suc index) groups in
      ground (
        arith,
        raised-traverse (wrapped_item wrap) (map some (option_items index group.options))
            (params ++ others),
        raised-traverse (wrapped_item wrap) params others,
        params_items-raised group.params,
        items_from-raised (suc index) groups,
      )

-- An optimizer that has a state, or has one after the step that initializes it, but in which a
-- parameter of a group has none: the call raises, and nothing is broadcast.
pub broadcast_optimizer_state-lacking :
    {S T V : Type 0} (c : Communicator S T) (wrap : V → Result T) (before stepped : Snapshot T V)
    (s : S)
    → (initialized before stepped).is_empty ≡ false
    → any_lacks (initialized before stepped).state (initialized before stepped).param_groups ≡ true
    → let (result, after) = broadcast_optimizer_state c wrap false before stepped s in
      (raised result ≡ true) × (after ≡ s)
unfolding broadcast_optimizer_state
broadcast_optimizer_state-lacking c wrap before stepped s n m =
    let state_dict = initialized before stepped in
    let failed = items_from-raised wrap state_dict.state 0 state_dict.param_groups m in
    elim (Result-cases (wrapped wrap (items_of state_dict))) [
      | inl (e, refused) ↦ (ground (arith, n, refused), ground (arith, n, refused))
      | inr (items, found) ↦ absurd (ground (arith, found, failed))
    ]
