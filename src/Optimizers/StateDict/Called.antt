-- ===== src/Optimizers/StateDict/Called.antt =====
-- broadcast_optimizer_state of bluefog/torch/utility.py: the callbacks after the broadcast.
use text.Mathlib.TextEquality.{eq_iff}
use bluefog.Optimizers.Communicator.{Communicator, IsCommunicator, Accepts}
use bluefog.Optimizers.Utility.{communicate_parameters, from_list, communicate_parameters-balanced}
use bluefog.Common.{
  ℕ, Result, ok, ◌≡◌, refl, arith, Bool, true, false, if◌then◌else◌, Option, none, some, List, [],
  ◌∷◌,
}
use bluefog.Optimizers.StateDict.{
  Snapshot, initialized, items_of, Item, wrapped, broadcast_tensors, Key, same_key, Callback, Entry,
  Callbacks, lookup_key, assign_key, entries, add_callback, callbacks_of, called_for,
  broadcast_optimizer_state,
}
use bluefog.Optimizers.StateDict.Keys.{
  separate, elem_key, distinct_entries, made, distinct_entries-entries,
}

-- No element of `params` has a callback yet.
abbrev unset : {T : Type 0} → Callbacks T → List (Entry T) → Bool
unset cbs [] = true
unset cbs (e ∷ es) =
    let rest = unset cbs es in elim (lookup_key e.key cbs) [ none ↦ rest | some c ↦ false ]

module _ {T : Type 0} where
  lookup_key-assign_key :
      (j k : Key) (c : Callback T) (cbs : Callbacks T)
      → lookup_key j (assign_key k c cbs) ≡ (if same_key k j then some c else lookup_key j cbs)
  lookup_key-assign_key (a, l) (b, m) c [] = refl
  lookup_key-assign_key (a, l) (b, m) c (((g, n), d) ∷ cbs) =
      ground (arith, eq_iff b a, eq_iff g b, eq_iff g a, lookup_key-assign_key (a, l) (b, m) c cbs)

  lookup_key-add_callback :
      (j k : Key) (o : Option (Callback T)) (cbs : Callbacks T)
      → same_key k j ≡ false
      → lookup_key j (add_callback k o cbs) ≡ lookup_key j cbs
  lookup_key-add_callback j k none cbs n = refl
  lookup_key-add_callback j k (some c) cbs n = rw (lookup_key-assign_key j k c cbs, n) refl

  added_callback :
      (k : Key) (o : Option (Callback T)) (cbs : Callbacks T)
      → lookup_key k cbs ≡ none
      → lookup_key k (add_callback k o cbs) ≡ o
  added_callback k none cbs n = n
  added_callback (a, l) (some c) cbs n =
      ground (arith, eq_iff a a, lookup_key-assign_key (a, l) (a, l) c cbs)

  lookup_key-callbacks_of :
      (k : Key) (cbs : Callbacks T) (es : List (Entry T))
      → elem_key k es ≡ false
      → lookup_key k (callbacks_of cbs es) ≡ lookup_key k cbs
  lookup_key-callbacks_of k cbs [] n = refl
  lookup_key-callbacks_of k cbs (e ∷ es) n = ground (
    arith,
    lookup_key-callbacks_of k (add_callback e.key e.callback cbs) es,
    lookup_key-add_callback k e.key e.callback cbs,
  )

  unset-add_callback :
      (k : Key) (o : Option (Callback T)) (cbs : Callbacks T) (es : List (Entry T))
      → elem_key k es ≡ false
      → unset cbs es ≡ true
      → unset (add_callback k o cbs) es ≡ true
  unset-add_callback k o cbs [] n u = refl
  unset-add_callback (a, l) o cbs (e ∷ es) n u = ground (
    arith,
    eq_iff a e.key.0,
    eq_iff e.key.0 a,
    lookup_key-add_callback e.key (a, l) o cbs,
    unset-add_callback (a, l) o cbs es,
  )

  called_for_lem :
      (cbs : Callbacks T) (es : List (Entry T))
      → distinct_entries es ≡ true
      → unset cbs es ≡ true
      → called_for (callbacks_of cbs es) es ≡ made es
  called_for_lem cbs [] d u = refl
  called_for_lem cbs (e ∷ es) d u = ground (
    arith,
    lookup_key-callbacks_of e.key (add_callback e.key e.callback cbs) es,
    added_callback e.key e.callback cbs,
    unset-add_callback e.key e.callback cbs es,
    called_for_lem (add_callback e.key e.callback cbs) es,
  )

  unset_lem : (es : List (Entry T)) → unset [] es ≡ true
  unset_lem [] = refl
  unset_lem (e ∷ es) = unset_lem es

module _ {S T V : Type 0} (c : Communicator S T) (Sound : S → Type 0) (pending : S → ℕ → Option T)
    (h : IsCommunicator c Sound pending) (accepts : (t : T) → Accepts c Sound t)
    (wrap : V → Result T) where
  -- For an optimizer that has a state, or has one after the step that initializes it, in which every
  -- parameter of a group has a state and all values can be wrapped, with separate items, and a
  -- broadcast that accepts all tensors: the call returns. The elements of `params` have different
  -- keys, their tensors are broadcast and waited for, and each callback that is made is called
  -- once, in the order of `params`.
  pub broadcast_optimizer_state-made :
      (before stepped : Snapshot T V) (items : List (Item T T)) (s : S)
      → (initialized before stepped).is_empty ≡ false
      → wrapped wrap (items_of (initialized before stepped)) ≡ ok items
      → separate items ≡ true
      → Sound s
      → let (result, after) = broadcast_optimizer_state c wrap false before stepped s in
        let params = entries (λ name. 0) items in
        (result ≡ ok (some (params, made params)))
        × (distinct_entries params ≡ true)
        × (after ≡ (communicate_parameters c (from_list (broadcast_tensors params)) s).1)
        × Sound after
        × ((k : ℕ) → pending after k ≡ pending s k)
  unfolding broadcast_optimizer_state
  broadcast_optimizer_state-made before stepped items s n w sep sound =
      let params = entries (λ name. 0) items in
      let d = distinct_entries-entries (λ name. 0) items sep in
      let (ran, sound', same) =
        communicate_parameters-balanced c Sound pending h accepts
          (from_list (broadcast_tensors params)) s sound in
      let calls = called_for_lem [] params d (unset_lem params) in
      let whole : broadcast_optimizer_state c wrap false before stepped s ≡ (
        ok (some (params, made params)),
        (communicate_parameters c (from_list (broadcast_tensors params)) s).1,
      ) =
        rw (n, w, ran, calls) refl in
      rw whole (refl, d, refl, sound', same)
