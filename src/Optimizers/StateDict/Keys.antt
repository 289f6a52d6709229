-- ===== src/Optimizers/StateDict/Keys.antt =====
-- broadcast_optimizer_state of bluefog/torch/utility.py: the keys of the elements of `params`.
use Prim.Native.String.{String}
use text.Mathlib.TextEquality.{eq_iff}
use bluefog.Common.{
  ℕ, suc, ◌≡◌, refl, arith, Bool, true, false, not, ltb, ◌==◌, ◌&&◌, ◌||◌, none, some, List, [],
  ◌∷◌,
}
use bluefog.Common.Names.{same_name}
use bluefog.Optimizers.StateDict.{
  tensor, scalar, Item, option_item, state_item, Key, same_key, Callback, Entry, count_occurrence,
  entries,
}

abbrev pub is_option : {T : Type 0} → String → ℕ → List (Item T T) → Bool
is_option k m [] = false
is_option k m (option_item i key value ∷ rest) = (same_name key k && i == m) || is_option k m rest
is_option k m (state_item pid name p ∷ rest) = is_option k m rest

abbrev pub is_option_key : {T : Type 0} → String → List (Item T T) → Bool
is_option_key k [] = false
is_option_key k (option_item i key value ∷ rest) = same_name key k || is_option_key k rest
is_option_key k (state_item pid name p ∷ rest) = is_option_key k rest

abbrev pub is_state_name : {T : Type 0} → String → List (Item T T) → Bool
is_state_name k [] = false
is_state_name k (option_item i key value ∷ rest) = is_state_name k rest
is_state_name k (state_item pid name p ∷ rest) = same_name name k || is_state_name k rest

-- No option of a group stands twice, and no option has the name of an entry of the state.
abbrev pub separate : {T : Type 0} → List (Item T T) → Bool
separate [] = true
separate (option_item i key value ∷ rest) =
    not (is_option key i rest) && not (is_state_name key rest) && separate rest
separate (state_item pid name p ∷ rest) = not (is_option_key name rest) && separate rest

abbrev pub elem_key : {T : Type 0} → Key → List (Entry T) → Bool
elem_key k [] = false
elem_key k (e ∷ es) = same_key e.key k || elem_key k es

abbrev pub distinct_entries : {T : Type 0} → List (Entry T) → Bool
distinct_entries [] = true
distinct_entries (e ∷ es) = not (elem_key e.key es) && distinct_entries es

-- The callbacks that are made, in their order.
abbrev pub made : {T : Type 0} → List (Entry T) → List (Callback T)
made [] = []
made (e ∷ es) = let rest = made es in elim (e.callback) [ none ↦ rest | some c ↦ c ∷ rest ]

is_option-key :
    {T : Type 0} (k : String) (m : ℕ) (items : List (Item T T))
    → is_option_key k items ≡ false
    → is_option k m items ≡ false
is_option-key k m [] n = refl
is_option-key k m (option_item i key value ∷ rest) n = ground (arith, is_option-key k m rest)
is_option-key k m (state_item pid name p ∷ rest) n = is_option-key k m rest n

module _ {T : Type 0} where
  -- Where a key comes from.
  elem_key-entries :
      (k : String) (m : ℕ) (occurrences : String → ℕ) (items : List (Item T T))
      → is_option k m items ≡ false
      → (is_state_name k items && ltb (occurrences k) m) ≡ false
      → elem_key (k, m) (entries occurrences items) ≡ false
  elem_key-entries k m occ [] o s = refl
  elem_key-entries k m occ (option_item i key value ∷ rest) o s =
      ground (arith, elem_key-entries k m occ rest)
  elem_key-entries k m occ (state_item pid name (tensor p) ∷ rest) o s =
      ground (arith, eq_iff name k, elem_key-entries k m (count_occurrence name occ) rest)
  elem_key-entries k m occ (state_item pid name (scalar p) ∷ rest) o s =
      ground (arith, eq_iff name k, elem_key-entries k m (count_occurrence name occ) rest)

  -- Different items have different keys.
  pub distinct_entries-entries :
      (occurrences : String → ℕ) (items : List (Item T T))
      → separate items ≡ true
      → distinct_entries (entries occurrences items) ≡ true
  distinct_entries-entries occ [] d = refl
  distinct_entries-entries occ (option_item i key value ∷ rest) d =
      ground (arith, elem_key-entries key i occ rest, distinct_entries-entries occ rest)
  distinct_entries-entries occ (state_item pid name (tensor p) ∷ rest) d = ground (
    arith,
    eq_iff name name,
    is_option-key name (suc (occ name)) rest,
    elem_key-entries name (suc (occ name)) (count_occurrence name occ) rest,
    distinct_entries-entries (count_occurrence name occ) rest,
  )
  distinct_entries-entries occ (state_item pid name (scalar p) ∷ rest) d = ground (
    arith,
    eq_iff name name,
    is_option-key name (suc (occ name)) rest,
    elem_key-entries name (suc (occ name)) (count_occurrence name occ) rest,
    distinct_entries-entries (count_occurrence name occ) rest,
  )
