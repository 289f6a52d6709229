-- ===== src/Common/Dict.antt =====
-- A Python dictionary with numbers as keys, as an association list in insertion order.
use Prim.Native.Nat.{ℕ}
use mathlib.Core.Bool.{false, ◌||◌}
use mathlib.Core.Path.{◌≡◌, refl}
use mathlib.Core.List.{List, [], ◌∷◌}
use mathlib.Core.Option.{Option, none, some}
use native.Mathlib.Omega.{arith}
use bluefog.Common.Ranks.{elem}
use bluefog.Common.Tests.{◌==◌, if◌then◌else◌}

abbrev pub Dict {ℓ} : Type ℓ → Type ℓ
Dict V = List (ℕ × V)

module _ {ℓ} {V : Type ℓ} where
  -- `d.get(k)`
  abbrev pub lookup : ℕ → Dict V → Option V
  lookup k [] = none
  lookup k ((j, v) ∷ d) = if j == k then some v else lookup k d

  -- `d[k] = v`
  abbrev pub assign : ℕ → V → Dict V → Dict V
  assign k v [] = (k, v) ∷ []
  assign k v ((j, w) ∷ d) = if j == k then (k, v) ∷ d else (j, w) ∷ assign k v d

  -- `del d[k]`, where the key may be missing
  abbrev pub delete : ℕ → Dict V → Dict V
  delete k [] = []
  delete k ((j, w) ∷ d) = let rest = delete k d in if j == k then rest else (j, w) ∷ rest

  -- `d.keys()`
  abbrev pub keys : Dict V → List ℕ
  keys [] = []
  keys ((k, v) ∷ d) = k ∷ keys d

  -- `d.values()`
  abbrev pub values : Dict V → List V
  values [] = []
  values ((k, v) ∷ d) = v ∷ values d

  -- `{k: v for k in ks}`
  abbrev pub constant : V → List ℕ → Dict V
  constant v [] = []
  constant v (k ∷ ks) = assign k v (constant v ks)

  pub lookup-assign :
      (j k : ℕ) (v : V) (d : Dict V)
      → lookup j (assign k v d) ≡ (if j == k then some v else lookup j d)
  lookup-assign j k v [] = ground arith
  lookup-assign j k v ((i, w) ∷ d) = ground (arith, lookup-assign j k v d)

  pub lookup-delete :
      (j k : ℕ) (d : Dict V) → lookup j (delete k d) ≡ (if j == k then none else lookup j d)
  lookup-delete j k [] = ground arith
  lookup-delete j k ((i, w) ∷ d) = ground (arith, lookup-delete j k d)

  -- A missing key.
  pub lookup-missing : (k : ℕ) (d : Dict V) → elem k (keys d) ≡ false → lookup k d ≡ none
  lookup-missing k [] h = refl
  lookup-missing k ((j, v) ∷ d) h = ground (arith, lookup-missing k d)

  pub elem-keys-assign :
      (j k : ℕ) (v : V) (d : Dict V) → elem j (keys (assign k v d)) ≡ (j == k || elem j (keys d))
  elem-keys-assign j k v [] = refl
  elem-keys-assign j k v ((i, w) ∷ d) = ground (arith, elem-keys-assign j k v d)
