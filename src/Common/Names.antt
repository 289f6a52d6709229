-- ===== src/Common/Names.antt =====
-- A Python dictionary with texts as keys.
use Prim.Native.String.{String, ◌++◌}
use text.Mathlib.Text.{◌==◌}
use text.Mathlib.TextEquality.{eq_iff}
use mathlib.Core.Bool.{Bool}
use mathlib.Core.Path.{◌≡◌, refl}
use mathlib.Core.List.{List, [], ◌∷◌}
use mathlib.Core.Option.{Option, none, some}
use native.Mathlib.Omega.{arith}
use bluefog.Common.Tests.{if◌then◌else◌}

abbrev pub same_name : String → String → Bool
same_name a b = a == b

-- `parent_name + '.' + name`
abbrev pub dotted : String → String → String
dotted parent_name name = parent_name ++ ("." ++ name)

-- `prefix + name`, where the prefix is a name and a dot, or empty.
abbrev pub prefixed : Option String → String → String
prefixed none name = name
prefixed (some window_prefix) name = dotted window_prefix name

abbrev pub Names {ℓ} : Type ℓ → Type ℓ
Names V = List (String × V)

module _ {ℓ} {V : Type ℓ} where
  abbrev pub lookup_name : String → Names V → Option V
  lookup_name k [] = none
  lookup_name k ((j, v) ∷ d) = if j == k then some v else lookup_name k d

  abbrev pub assign_name : String → V → Names V → Names V
  assign_name k v [] = (k, v) ∷ []
  assign_name k v ((j, w) ∷ d) = if j == k then (k, v) ∷ d else (j, w) ∷ assign_name k v d

  abbrev pub delete_name : String → Names V → Names V
  delete_name k [] = []
  delete_name k ((j, w) ∷ d) = let rest = delete_name k d in if j == k then rest else (j, w) ∷ rest

  pub lookup_name-assign_name :
      (j k : String) (v : V) (d : Names V)
      → lookup_name j (assign_name k v d) ≡ (if k == j then some v else lookup_name j d)
  lookup_name-assign_name j k v [] = refl
  lookup_name-assign_name j k v ((i, w) ∷ d) =
      ground (arith, eq_iff k j, eq_iff i k, eq_iff i j, lookup_name-assign_name j k v d)

  pub lookup_name-delete_name :
      (j k : String) (d : Names V)
      → lookup_name j (delete_name k d) ≡ (if k == j then none else lookup_name j d)
  lookup_name-delete_name j k [] = ground arith
  lookup_name-delete_name j k ((i, w) ∷ d) =
      ground (arith, eq_iff k j, eq_iff i k, eq_iff i j, lookup_name-delete_name j k d)
