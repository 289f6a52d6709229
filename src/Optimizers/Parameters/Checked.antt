-- ===== src/Optimizers/Parameters/Checked.antt =====
-- What the check of the named parameters ensures.
use Prim.Native.String.{String}
use text.Mathlib.TextEquality.{eq_iff}
use bluefog.Common.{
  ℕ, ◌≡◌, ◌∙◌, refl, arith, Bool, true, false, not, ◌==◌, ◌&&◌, ◌||◌, ltb, if◌then◌else◌, Option,
  none, some, List, [], ◌∷◌, ok, raise, value_error, Bool-cases, Option-cases, inl, inr,
}
use bluefog.Common.Dict.{Dict, lookup, assign, lookup-assign}
use bluefog.Common.Names.{Names, same_name, lookup_name, assign_name, lookup_name-assign_name}
use bluefog.Common.Ranks.{elem}
use bluefog.Optimizers.Parameters.{
  elem_name, duplicates_from, find_duplicates, occurrences, names_of, is_named, all_in,
  check_named_parameters, insert_named, sorted_named, by_parameter, by_name, parameter_names,
  name_parameters, listed, once_named,
}

duplicates_from-occurrences :
    (name : String) (names seen dups : List String)
    → elem_name name (duplicates_from seen dups names) ≡ (
        elem_name name dups
        || ltb 1 (occurrences name names)
        || (elem_name name seen && ltb 0 (occurrences name names)))
duplicates_from-occurrences name [] seen dups = ground arith
duplicates_from-occurrences name (n ∷ ns) seen dups = elim (Bool-cases (elem_name n seen)) [
  | inl again ↦
      let rest = duplicates_from-occurrences name ns (n ∷ seen) (n ∷ dups) in
      ground (arith, again, rest, eq_iff n name)
  | inr new ↦
      let rest = duplicates_from-occurrences name ns (n ∷ seen) dups in
      ground (arith, new, rest, eq_iff n name)
]

-- The duplicates are the names that are listed more than once.
find_duplicates-occurrences :
    (name : String) (names : List String)
    → elem_name name (find_duplicates names) ≡ ltb 1 (occurrences name names)
find_duplicates-occurrences name names =
    ground (arith, duplicates_from-occurrences name names [] [])

elem_name-insert_named :
    (k name : String) (p : ℕ) (named : Names ℕ)
    → elem_name k (names_of (insert_named (name, p) named))
      ≡ (same_name name k || elem_name k (names_of named))
elem_name-insert_named k name p [] = refl
elem_name-insert_named k name p ((n, q) ∷ rest) =
    ground (arith, elem_name-insert_named k name p rest)

listed-insert_named :
    (k : String) (r : ℕ) (name : String) (p : ℕ) (named : Names ℕ)
    → listed k r (insert_named (name, p) named) ≡ ((same_name name k && p == r) || listed k r named)
listed-insert_named k r name p [] = refl
listed-insert_named k r name p ((n, q) ∷ rest) = ground (arith, listed-insert_named k r name p rest)

once_named-insert_named :
    (name : String) (p : ℕ) (named : Names ℕ)
    → elem_name name (names_of named) ≡ false
    → once_named named ≡ true
    → once_named (insert_named (name, p) named) ≡ true
once_named-insert_named name p [] n o = refl
once_named-insert_named name p ((m, q) ∷ rest) n o = ground (
  arith,
  once_named-insert_named name p rest,
  elem_name-insert_named m name p rest,
  eq_iff m name,
  eq_iff name m,
)

elem_name-sorted_named :
    (k : String) (named : Names ℕ)
    → elem_name k (names_of (sorted_named named)) ≡ elem_name k (names_of named)
elem_name-sorted_named k [] = refl
elem_name-sorted_named k ((name, p) ∷ rest) =
    ground
      (arith, elem_name-insert_named k name p (sorted_named rest), elem_name-sorted_named k rest)

listed-sorted_named :
    (k : String) (r : ℕ) (named : Names ℕ) → listed k r (sorted_named named) ≡ listed k r named
listed-sorted_named k r [] = refl
listed-sorted_named k r ((name, p) ∷ rest) =
    ground (arith, listed-insert_named k r name p (sorted_named rest), listed-sorted_named k r rest)

once_named-sorted_named :
    (named : Names ℕ) → once_named named ≡ true → once_named (sorted_named named) ≡ true
once_named-sorted_named [] o = refl
once_named-sorted_named ((name, p) ∷ rest) o =
    once_named-insert_named name p (sorted_named rest)
      (ground (arith, elem_name-sorted_named name rest))
      (once_named-sorted_named rest (ground arith))

lookup-by_parameter :
    (p : ℕ) (name : String) (d : Dict String) (named : Names ℕ)
    → lookup p (by_parameter d named) ≡ some name
    → (listed name p named || elim (lookup p d) [ none ↦ false | some n ↦ same_name n name ]) ≡ true
lookup-by_parameter p name d [] at = ground (arith, at, eq_iff name name)
lookup-by_parameter p name d ((n, q) ∷ rest) at =
    let found = lookup-by_parameter p name (assign q n d) rest at in
    let kept = lookup-assign p q n d in
    elim (Bool-cases (p == q)) [
      | inl same ↦ ground (arith, found, kept, same)
      | inr other ↦ ground (arith, found, kept, other)
    ]

elem_name-listed :
    (name : String) (p : ℕ) (named : Names ℕ)
    → listed name p named ≡ true
    → elem_name name (names_of named) ≡ true
elem_name-listed name p [] l = absurd (ground arith)
elem_name-listed name p ((n, q) ∷ rest) l = ground (arith, elem_name-listed name p rest)

lookup_name-by_name :
    (name : String) (p : ℕ) (d named : Names ℕ)
    → once_named named ≡ true
    → (listed name p named
        || (not (elem_name name (names_of named))
            && elim (lookup_name name d) [ none ↦ false | some q ↦ q == p ]))
      ≡ true
    → lookup_name name (by_name d named) ≡ some p
lookup_name-by_name name p d [] o l = elim (Option-cases (lookup_name name d)) [
  | inl missing ↦ absurd (ground (arith, missing))
  | inr (q, there) ↦ ground (arith, there)
]
lookup_name-by_name name p d ((n, q) ∷ rest) o l =
    let kept = lookup_name-assign_name name n q d in
    let inside = elem_name-listed name p rest in
    elim (Bool-cases (same_name n name)) [
      | inl same ↦
          let equal : n ≡ name = ground (arith, eq_iff n name) in
          lookup_name-by_name name p (assign_name n q d) rest (ground arith)
            (ground (arith, kept, same, inside, equal))
      | inr other ↦
          lookup_name-by_name name p (assign_name n q d) rest (ground arith)
            (ground (arith, kept, other))
    ]

empty_if : (ds : List String) → ((name : String) → elem_name name ds ≡ false) → ds ≡ []
empty_if [] none_in = refl
empty_if (n ∷ ns) none_in = absurd (ground (arith, none_in n, eq_iff n n))

occurrences-elem_name :
    (name : String) (ns : List String) → ltb 0 (occurrences name ns) ≡ elem_name name ns
occurrences-elem_name name [] = refl
occurrences-elem_name name (n ∷ ns) = ground (arith, occurrences-elem_name name ns)

once_named-occurrences :
    (named : Names ℕ) (name : String)
    → once_named named ≡ true
    → ltb 1 (occurrences name (names_of named)) ≡ false
once_named-occurrences [] name o = refl
once_named-occurrences ((n, p) ∷ rest) name o = ground (
  arith,
  once_named-occurrences rest name,
  occurrences-elem_name name (names_of rest),
  eq_iff n name,
)

twice_named :
    (named : Names ℕ)
    → once_named named ≡ false
    → (name : String) × (ltb 1 (occurrences name (names_of named)) ≡ true)
twice_named [] o = absurd (ground arith)
twice_named ((n, p) ∷ rest) o = elim (Bool-cases (elem_name n (names_of rest))) [
  | inl again ↦ (n, ground (arith, again, occurrences-elem_name n (names_of rest), eq_iff n n))
  | inr new ↦
      let (name, twice) = twice_named rest (ground (arith, new)) in (name, ground (arith, twice))
]

duplicates-once_named :
    (named : Names ℕ) → once_named named ≡ true → find_duplicates (names_of named) ≡ []
duplicates-once_named named o = empty_if (find_duplicates (names_of named)) (λ name.
    find_duplicates-occurrences name (names_of named) ∙ once_named-occurrences named name o)

-- The check of the named parameters passes exactly if no name stands twice and each parameter of
-- the optimizer is listed, and raises a ValueError otherwise.
pub check_named_parameters-once :
    (param_ids : List ℕ) (named : Names ℕ)
    → check_named_parameters param_ids named
      ≡ (if once_named named && all_in param_ids named then ok named else raise value_error)
unfolding check_named_parameters
check_named_parameters-once param_ids named = elim (Bool-cases (once_named named)) [
  | inl once ↦ ground (arith, once, duplicates-once_named named once)
  | inr twice ↦
      let (name, more) = twice_named named twice in
      ground (arith, twice, more, find_duplicates-occurrences name (names_of named))
]

is_named-insert_named :
    (r : ℕ) (name : String) (p : ℕ) (named : Names ℕ)
    → is_named r (insert_named (name, p) named) ≡ (p == r || is_named r named)
is_named-insert_named r name p [] = refl
is_named-insert_named r name p ((n, q) ∷ rest) = ground (arith, is_named-insert_named r name p rest)

is_named-sorted_named :
    (r : ℕ) (named : Names ℕ) → is_named r (sorted_named named) ≡ is_named r named
is_named-sorted_named r [] = refl
is_named-sorted_named r ((name, p) ∷ rest) =
    ground (arith, is_named-insert_named r name p (sorted_named rest), is_named-sorted_named r rest)

all_in-elem :
    (p : ℕ) (ids : List ℕ) (named : Names ℕ)
    → all_in ids named ≡ true
    → elem p ids ≡ true
    → is_named p named ≡ true
all_in-elem p [] named a m = absurd (ground arith)
all_in-elem p (q ∷ ids) named a m = ground (arith, all_in-elem p ids named)

abbrev has_name : Option String → Bool
has_name none = false
has_name (some name) = true

by_parameter-is_named :
    (p : ℕ) (d : Dict String) (named : Names ℕ)
    → has_name (lookup p (by_parameter d named)) ≡ (is_named p named || has_name (lookup p d))
by_parameter-is_named p d [] = refl
by_parameter-is_named p d ((n, q) ∷ rest) =
    ground (arith, by_parameter-is_named p (assign q n d) rest, lookup-assign p q n d)

-- After the check has passed, each parameter of the optimizer has a name in `_parameter_names`,
-- `_name_parameters` leads from that name back to it, and the two are listed together.
pub parameter_names-name_parameters :
    (param_ids : List ℕ) (named : Names ℕ) (p : ℕ)
    → check_named_parameters param_ids named ≡ ok named
    → elem p param_ids ≡ true
    → (name : String) × (lookup p (parameter_names named) ≡ some name)
      × (lookup_name name (name_parameters named) ≡ some p)
      × (listed name p named ≡ true)
unfolding parameter_names name_parameters
parameter_names-name_parameters ids named p checked m =
    let passed : (once_named named && all_in ids named) ≡ true =
      ground (arith, check_named_parameters-once ids named) in
    let sorted = sorted_named named in
    let known = by_parameter-is_named p [] sorted in
    let mine = all_in-elem p ids named (ground arith) m in
    elim (Option-cases (lookup p (by_parameter [] sorted))) [
      | inl missing ↦ absurd (ground (arith, missing, known, mine, is_named-sorted_named p named))
      | inr (name, at) ↦
          let found = lookup-by_parameter p name [] sorted at in
          (
            name,
            at,
            lookup_name-by_name name p [] sorted (once_named-sorted_named named (ground arith))
                (ground (arith, found)),
            ground (arith, found, listed-sorted_named name p named),
          )
    ]
