-- ===== src/Optimizers/Parameters.antt =====
-- `_find_duplicates`, `_check_named_parameters`, and the two dictionaries that the optimizers make of
-- the named parameters. A parameter is its identity.
pub mod Checked
use Prim.Native.String.{String, compare}
use Prim.Native.Nat.{lt, eq, gt}
use text.Mathlib.TextEquality.{eq_iff}
use bluefog.Common.{
  ℕ, zero, suc, ◌<◌, ◌≡◌, refl, arith, Bool, true, false, not, ◌==◌, ◌&&◌, ◌||◌, ltb, if◌then◌else◌,
  Option, none, some, List, [], ◌∷◌, Result, ok, raise, value_error, Bool-cases, Option-cases, inl,
  inr,
}
use bluefog.Common.Dict.{Dict, lookup, assign, lookup-assign}
use bluefog.Common.Names.{Names, same_name, lookup_name, assign_name, lookup_name-assign_name}
use bluefog.Common.Ranks.{elem}

-- `name in names`
abbrev pub elem_name : String → List String → Bool
elem_name name [] = false
elem_name name (n ∷ ns) = same_name n name || elem_name name ns

-- The loop of `_find_duplicates`; `seen` and `dups` are sets.
abbrev pub duplicates_from : (seen dups : List String) → List String → List String
duplicates_from seen dups [] = dups
duplicates_from seen dups (name ∷ rest) =
    duplicates_from (name ∷ seen) (if elem_name name seen then name ∷ dups else dups) rest

abbrev pub find_duplicates : List String → List String
find_duplicates names = duplicates_from [] [] names

-- How often a name is listed.
abbrev pub occurrences : String → List String → ℕ
occurrences name [] = 0
occurrences name (n ∷ ns) =
    if same_name n name then suc (occurrences name ns) else occurrences name ns

abbrev pub names_of : Names ℕ → List String
names_of [] = []
names_of ((name, p) ∷ rest) = name ∷ names_of rest

-- Whether the set `all_param_ids - named_param_ids` is empty.
abbrev pub is_named : ℕ → Names ℕ → Bool
is_named p [] = false
is_named p ((name, q) ∷ rest) = q == p || is_named p rest

abbrev pub all_in : List ℕ → Names ℕ → Bool
all_in [] named = true
all_in (p ∷ ps) named = is_named p named && all_in ps named

-- `named_parameters` are those of all models, in their order, and `param_ids` the parameters of all
-- groups of the optimizer.
unfoldable pub check_named_parameters : List ℕ → Names ℕ → Result (Names ℕ)
check_named_parameters param_ids named_parameters =
    elim (find_duplicates (names_of named_parameters)) [
      | [] ↦ if all_in param_ids named_parameters then ok named_parameters else raise value_error
      | _ ∷ _ ↦ raise value_error
    ]

-- `sorted(named_parameters)`, where no name occurs twice.
abbrev pub insert_named : String × ℕ → Names ℕ → Names ℕ
insert_named (name, p) [] = (name, p) ∷ []
insert_named (name, p) ((n, q) ∷ rest) = elim (compare n name) [
  | gt ↦ (name, p) ∷ (n, q) ∷ rest
  | _ ↦ (n, q) ∷ insert_named (name, p) rest
]

abbrev pub sorted_named : Names ℕ → Names ℕ
sorted_named [] = []
sorted_named (named ∷ rest) = insert_named named (sorted_named rest)

-- `{v: k for k, v in named}`
abbrev pub by_parameter : Dict String → Names ℕ → Dict String
by_parameter d [] = d
by_parameter d ((name, p) ∷ rest) = by_parameter (assign p name d) rest

-- `{k: v for k, v in named}`
abbrev pub by_name : Names ℕ → Names ℕ → Names ℕ
by_name d [] = d
by_name d ((name, p) ∷ rest) = by_name (assign_name name p d) rest

-- `_parameter_names` and `_name_parameters`
unfoldable pub parameter_names : Names ℕ → Dict String
parameter_names named = by_parameter [] (sorted_named named)

unfoldable pub name_parameters : Names ℕ → Names ℕ
name_parameters named = by_name [] (sorted_named named)

-- Whether a parameter is listed under a name.
abbrev pub listed : String → ℕ → Names ℕ → Bool
listed name p [] = false
listed name p ((n, q) ∷ rest) = (same_name n name && q == p) || listed name p rest

-- Each name stands once.
abbrev pub once_named : Names ℕ → Bool
once_named [] = true
once_named ((name, p) ∷ rest) = not (elem_name name (names_of rest)) && once_named rest
