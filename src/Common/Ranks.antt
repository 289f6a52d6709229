-- ===== src/Common/Ranks.antt =====
-- Lists of ranks: membership, ranges, removal, and Python's `sorted` with a key.
use Prim.Native.Nat.{ℕ, zero, suc, ◌+◌, ◌<◌}
use mathlib.Core.Path.{◌≡◌, refl, ap, ◌∙◌}
use mathlib.Core.Logic.{◌≢◌, inl, inr}
use mathlib.Core.Bool.{Bool, true, false, not, ◌&&◌, ◌||◌}
use mathlib.Core.List.{List, [], ◌∷◌, ◌++◌, map}
use native.Mathlib.Omega.{arith}
use bluefog.Common.Tests.{leb, ltb, ◌==◌, if◌then◌else◌, Bool-cases}
use bluefog.Common.Lists.{length, get_or}
use bluefog.Common.Results.{Result, ok, item, traverse}

-- `rank in ranks`
abbrev pub elem : ℕ → List ℕ → Bool
elem a [] = false
elem a (x ∷ xs) = a == x || elem a xs

-- No rank occurs twice.
abbrev pub distinct : List ℕ → Bool
distinct [] = true
distinct (x ∷ xs) = not (elem x xs) && distinct xs

-- `range(start, start + n)`
abbrev pub range_from : ℕ → ℕ → List ℕ
range_from start zero = []
range_from start (suc n) = start ∷ range_from (start + 1) n

abbrev pub range : ℕ → List ℕ
range n = range_from 0 n

-- `[r for r in ranks if r != self]`
abbrev pub without : ℕ → List ℕ → List ℕ
without self [] = []
without self (r ∷ rs) = let rest = without self rs in if r == self then rest else r ∷ rest

-- The list without the first occurrence of a rank.
pub remove : ℕ → List ℕ → List ℕ
remove a [] = []
remove a (x ∷ xs) = if x == a then xs else x ∷ remove a xs

module _ (key : ℕ → ℕ) where
  unfoldable pub insert : ℕ → List ℕ → List ℕ
  insert a [] = a ∷ []
  insert a (x ∷ xs) = if leb (key a) (key x) then a ∷ x ∷ xs else x ∷ insert a xs

  -- `sorted(ranks, key=key)`, which keeps the order of equal keys.
  unfoldable pub sorted : List ℕ → List ℕ
  unfolding insert
  sorted [] = []
  sorted (x ∷ xs) = insert x (sorted xs)

  elem-insert : (b a : ℕ) (xs : List ℕ) → elem b (insert a xs) ≡ (b == a || elem b xs)
  unfolding insert
  elem-insert b a [] = refl
  elem-insert b a (x ∷ xs) = ground (arith, elem-insert b a xs)

  pub elem-sorted : (b : ℕ) (xs : List ℕ) → elem b (sorted xs) ≡ elem b xs
  unfolding sorted
  elem-sorted b [] = refl
  elem-sorted b (x ∷ xs) = ground (arith, elem-insert b x (sorted xs), elem-sorted b xs)

  length-insert : (a : ℕ) (xs : List ℕ) → length (insert a xs) ≡ suc (length xs)
  unfolding insert
  length-insert a [] = refl
  length-insert a (x ∷ xs) = ground (arith, length-insert a xs)

  pub length-sorted : (xs : List ℕ) → length (sorted xs) ≡ length xs
  unfolding sorted
  length-sorted [] = refl
  length-sorted (x ∷ xs) = ground (arith, length-insert x (sorted xs), length-sorted xs)

  insert_least : (a : ℕ) (xs : List ℕ) → key a ≡ 0 → insert a xs ≡ a ∷ xs
  unfolding insert
  insert_least a [] h = refl
  insert_least a (x ∷ xs) h = ground arith

  -- The rank whose key is zero, where no other has that key, stands first.
  pub sorted-least :
      (a : ℕ) (xs : List ℕ)
      → key a ≡ 0
      → ((x : ℕ) → elem x xs ≡ true → x ≢ a → 0 < key x)
      → elem a xs ≡ true
      → sorted xs ≡ a ∷ sorted (remove a xs)
  unfolding sorted remove
  sorted-least a [] h k m = ground arith
  sorted-least a (x ∷ xs) h k m = ground (
    arith,
    insert_least x (sorted xs),
    k x (ground arith),
    sorted-least a xs h (λ y e n. k y (ground arith) n),
  )

pub elem-remove :
    (b a : ℕ) (xs : List ℕ)
    → distinct xs ≡ true
    → elem b (remove a xs) ≡ (elem b xs && not (b == a))
unfolding remove
elem-remove b a [] h = refl
elem-remove b a (x ∷ xs) h = ground (arith, elem-remove b a xs)

pub length-remove : (a : ℕ) (xs : List ℕ) → elem a xs ≡ true → length (remove a xs) + 1 ≡ length xs
unfolding remove
length-remove a [] h = ground arith
length-remove a (x ∷ xs) h = ground (arith, length-remove a xs)

pub elem-get_or : (xs : List ℕ) (i : ℕ) → i < length xs → elem (get_or xs i 0) xs ≡ true
elem-get_or [] i h = absurd (omega arith)
elem-get_or (x ∷ xs) zero h = ground arith
elem-get_or (x ∷ xs) (suc i) h = ground (arith, elem-get_or xs i)

-- A rank of the list stands at some index.
pub position :
    (a : ℕ) (xs : List ℕ) → elem a xs ≡ true → (i : ℕ) × (i < length xs) × (get_or xs i 0 ≡ a)
position a [] h = absurd (ground arith)
position a (x ∷ xs) h = elim (Bool-cases (a == x)) [
  | inl e ↦ (0, omega arith, ground arith)
  | inr e ↦ let (i, l, p) = position a xs (ground arith) in (suc i, omega arith, p)
]

pub item-get_or : (xs : List ℕ) (i : ℕ) → i < length xs → item xs i ≡ ok (get_or xs i 0)
item-get_or [] i h = absurd (omega arith)
item-get_or (x ∷ xs) zero h = refl
item-get_or (x ∷ xs) (suc i) h = item-get_or xs i (omega arith)

pub elem-range_from :
    (a start n : ℕ) → elem a (range_from start n) ≡ (leb start a && ltb a (start + n))
elem-range_from a start zero = ground arith
elem-range_from a start (suc n) = ground (arith, elem-range_from a (start + 1) n)

pub item-map-range_from {ℓ} :
    {A : Type ℓ} (f : ℕ → A) (start n i : ℕ)
    → i < n
    → item (map f (range_from start n)) i ≡ ok (f (start + i))
item-map-range_from f start zero i h = absurd (omega arith)
item-map-range_from f start (suc n) zero h =
    let e : start ≡ start + 0 = omega arith in ap (λ k. ok (f k)) e
item-map-range_from f start (suc n) (suc i) h =
    let e : start + 1 + i ≡ start + suc i = omega arith in
    item-map-range_from f (start + 1) n i (omega arith) ∙ ap (λ k. ok (f k)) e

-- A loop whose calls all return.
pub traverse-ok {ℓ} :
    {B : Type ℓ} (f : ℕ → Result B) (g : ℕ → B) (xs : List ℕ)
    → ((x : ℕ) → elem x xs ≡ true → f x ≡ ok (g x))
    → traverse f xs ≡ ok (map g xs)
traverse-ok f g [] h = refl
traverse-ok f g (x ∷ xs) h = rw (h x (ground arith), traverse-ok f g xs (λ y e. h y (ground arith)))

pub length-range_from : (start n : ℕ) → length (range_from start n) ≡ n
length-range_from start zero = refl
length-range_from start (suc n) = ap suc (length-range_from (start + 1) n)

pub get_or-map-range_from :
    (f : ℕ → ℕ) (start n k : ℕ) → k < n → get_or (map f (range_from start n)) k 0 ≡ f (start + k)
get_or-map-range_from f start zero k h = absurd (omega arith)
get_or-map-range_from f start (suc n) zero h = let e : start ≡ start + 0 = omega arith in ap f e
get_or-map-range_from f start (suc n) (suc k) h =
    let e : start + 1 + k ≡ start + suc k = omega arith in
    get_or-map-range_from f (start + 1) n k (omega arith) ∙ ap f e

pub elem-append : (a : ℕ) (xs ys : List ℕ) → elem a (xs ++ ys) ≡ (elem a xs || elem a ys)
elem-append a [] ys = refl
elem-append a (x ∷ xs) ys = ground (arith, elem-append a xs ys)

pub elem-without :
    (b self : ℕ) (rs : List ℕ) → elem b (without self rs) ≡ (elem b rs && not (b == self))
elem-without b self [] = refl
elem-without b self (r ∷ rs) = ground (arith, elem-without b self rs)
