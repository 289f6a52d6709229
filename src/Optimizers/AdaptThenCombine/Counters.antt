-- ===== src/Optimizers/AdaptThenCombine/Counters.antt =====
-- Tests over all counters, from what the counters of the parameters are.
use bluefog.Common.{ℕ, ◌≡◌, refl, ap, arith, true, false, if◌then◌else◌, none, some, List, [], ◌∷◌}
use bluefog.Common.Delays.{ℤ, pos, is_zero}
use bluefog.Common.Dict.{Dict, lookup, assign, keys, constant, lookup-assign, elem-keys-assign}
use bluefog.Common.Ranks.{elem, distinct}
use bluefog.Optimizers.AdaptThenCombine.{none_zero, all_zero, from_keys}

pub none_zero-lookup :
    (p : ℕ) (d : ℤ) (delay : Dict ℤ)
    → lookup p delay ≡ some d
    → is_zero d ≡ true
    → none_zero delay ≡ false
none_zero-lookup p d [] at z = absurd (ground arith)
none_zero-lookup p d ((q, e) ∷ rest) at z = ground (arith, none_zero-lookup p d rest)

pub all_zero-lookup :
    (p : ℕ) (d : ℤ) (delay : Dict ℤ)
    → lookup p delay ≡ some d
    → is_zero d ≡ false
    → all_zero delay ≡ false
all_zero-lookup p d [] at z = absurd (ground arith)
all_zero-lookup p d ((q, e) ∷ rest) at z = ground (arith, all_zero-lookup p d rest)

-- Where each key stands once.
pub all_zero-keys :
    (delay : Dict ℤ)
    → distinct (keys delay) ≡ true
    → ((p : ℕ) → elem p (keys delay) ≡ true → lookup p delay ≡ some (pos 0))
    → all_zero delay ≡ true
all_zero-keys [] once z = refl
all_zero-keys ((q, e) ∷ rest) once z =
    let first = z q (ground arith) in
    let others = all_zero-keys rest (ground arith) (λ p m. ground (arith, z p, m, once)) in
    ground (arith, first, others)

pub none_zero-keys :
    (d : ℤ) (delay : Dict ℤ)
    → is_zero d ≡ false
    → distinct (keys delay) ≡ true
    → ((p : ℕ) → elem p (keys delay) ≡ true → lookup p delay ≡ some d)
    → none_zero delay ≡ true
none_zero-keys d [] n once z = refl
none_zero-keys d ((q, e) ∷ rest) n once z =
    let first = z q (ground arith) in
    let others = none_zero-keys d rest n (ground arith) (λ p m. ground (arith, z p, m, once)) in
    ground (arith, first, others)

pub distinct-keys-assign :
    {V : Type 0} (k : ℕ) (v : V) (d : Dict V)
    → distinct (keys d) ≡ true
    → distinct (keys (assign k v d)) ≡ true
distinct-keys-assign k v [] once = refl
distinct-keys-assign k v ((j, w) ∷ d) once =
    ground (arith, distinct-keys-assign k v d, elem-keys-assign j k v d)

pub distinct-keys-constant :
    {V : Type 0} (v : V) (ks : List ℕ) → distinct (keys (constant v ks)) ≡ true
distinct-keys-constant v [] = refl
distinct-keys-constant v (k ∷ ks) =
    distinct-keys-assign k v (constant v ks) (distinct-keys-constant v ks)

pub elem-keys-constant :
    {V : Type 0} (p : ℕ) (v : V) (ks : List ℕ) → elem p (keys (constant v ks)) ≡ elem p ks
elem-keys-constant p v [] = refl
elem-keys-constant p v (k ∷ ks) =
    ground (arith, elem-keys-constant p v ks, elem-keys-assign p k v (constant v ks))

pub lookup-constant :
    {V : Type 0} (p : ℕ) (v : V) (ks : List ℕ)
    → lookup p (constant v ks) ≡ (if elem p ks then some v else none)
lookup-constant p v [] = refl
lookup-constant p v (k ∷ ks) =
    ground (arith, lookup-constant p v ks, lookup-assign p k v (constant v ks))

pub lookup-from_keys :
    (passes p : ℕ) (delay : Dict ℤ)
    → lookup p (from_keys passes delay) ≡ (if elem p (keys delay) then some (pos passes) else none)
lookup-from_keys passes p [] = refl
lookup-from_keys passes p ((q, d) ∷ rest) = ground (arith, lookup-from_keys passes p rest)

pub keys-from_keys : (passes : ℕ) (delay : Dict ℤ) → keys (from_keys passes delay) ≡ keys delay
keys-from_keys passes [] = refl
keys-from_keys passes ((q, d) ∷ rest) = ap (◌∷◌ q) (keys-from_keys passes rest)
