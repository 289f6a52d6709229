-- ===== src/Common/Sums.antt =====
-- Sums over the numbers below a bound, and how they are reindexed around a clock.
use Prim.Native.Nat.{ℕ, zero, suc, ◌+◌, ◌-◌, ◌%◌, ◌<◌}
use mathlib.Core.Path.{◌≡◌, refl, ap, ◌∙◌, sym}
use mathlib.Core.List.{List, [], ◌∷◌}
use native.Mathlib.Omega.{arith}
use native.Mathlib.Nat.{mod-eq_of_lt, mod-add-mod, mod_self}
use bluefog.Common.Lists.{length, get_or}

unfoldable pub sum_below : ℕ → (ℕ → ℕ) → ℕ
sum_below zero f = 0
sum_below (suc n) f = sum_below n f + f n

-- `x.sum()`
unfoldable pub total : List ℕ → ℕ
total [] = 0
total (x ∷ xs) = x + total xs

pub sum_congr :
    (n : ℕ) (f g : ℕ → ℕ) → ((k : ℕ) → k < n → f k ≡ g k) → sum_below n f ≡ sum_below n g
unfolding sum_below
sum_congr zero f g h = refl
sum_congr (suc n) f g h =
    omega (arith, sum_congr n f g (λ k l. h k (omega arith)), h n (omega arith))

pub sum_first : (n : ℕ) (f : ℕ → ℕ) → sum_below (suc n) f ≡ f 0 + sum_below n (λ k. f (suc k))
unfolding sum_below
sum_first zero f = omega arith
sum_first (suc n) f = omega (arith, sum_first n f)

sum_rotate : (n : ℕ) (f : ℕ → ℕ) → sum_below (suc n) (λ k. f (suc k % suc n)) ≡ sum_below (suc n) f
sum_rotate n f =
    let below =
      sum_congr n (λ k. f (suc k % suc n)) (λ k. f (suc k))
        (λ k l. ap f (mod-eq_of_lt (omega arith))) in
    let last : f (suc n % suc n) ≡ f 0 = ap f (mod_self (suc n)) in
    unfold sum_below in omega (arith, below, last, sum_first n f)

-- A sum around a clock does not depend on where it starts.
pub sum_shift : (n d : ℕ) (f : ℕ → ℕ) → sum_below n (λ k. f ((k + d) % n)) ≡ sum_below n f
sum_shift n zero f =
    sum_congr n (λ k. f ((k + 0) % n)) f
      (λ k l. let e : k + 0 ≡ k = omega arith in rw e (ap f (mod-eq_of_lt l)))
sum_shift zero (suc d) f = unfold sum_below in refl
sum_shift (suc n) (suc d) f =
    let g = λ (k : ℕ). f ((k + d) % suc n) in
    sum_congr (suc n) (λ k. f ((k + suc d) % suc n)) (λ k. g (suc k % suc n))
      (λ k l.
        let e : k + suc d ≡ suc k + d = omega arith in
        rw e (ap f (sym (mod-add-mod (suc k) (suc n) d))))
    ∙ sum_rotate n g
    ∙ sum_shift (suc n) d f

-- Nor on the direction.
pub sum_reverse : (n : ℕ) (f : ℕ → ℕ) → sum_below n (λ k. f (n - 1 - k)) ≡ sum_below n f
unfolding sum_below
sum_reverse zero f = refl
sum_reverse (suc n) f =
    let rest =
      sum_congr n (λ k. f (suc n - 1 - suc k)) (λ k. f (n - 1 - k))
        (λ k l. let e : suc n - 1 - suc k ≡ n - 1 - k = omega arith in ap f e) in
    let first : f (suc n - 1 - 0) ≡ f n = (let e : suc n - 1 - 0 ≡ n = omega arith in ap f e) in
    omega (arith, sum_first n (λ k. f (suc n - 1 - k)), rest, first, sum_reverse n f)

pub total-sum_below : (xs : List ℕ) → total xs ≡ sum_below (length xs) (λ k. get_or xs k 0)
unfolding total
total-sum_below [] = unfold sum_below in refl
total-sum_below (x ∷ xs) =
    omega (arith, sum_first (length xs) (λ k. get_or (x ∷ xs) k 0), total-sum_below xs)
