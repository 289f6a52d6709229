-- ===== src/Common/Arith.antt =====
-- Modular arithmetic on the native numbers, as Python's `%` and `//` compute it on ranks.
use Prim.Native.Nat.{ℕ, ◌+◌, ◌-◌, ◌*◌, ◌/◌, ◌%◌, ◌≤◌, ◌<◌}
use mathlib.Core.Path.{◌≡◌}
use native.Mathlib.Nat.{
  mod-eq_of_lt, mod-add-mod, mod-eq-sub-mod, add-mul-mod_self_left, div-add-mod, mod-lt,
  mul-mod_left,
}
use native.Mathlib.Omega.{arith}

-- Python's `(a - b) % n` for `0 < n`: the remainder is never negative.
unfoldable pub sub_mod : ℕ → ℕ → ℕ → ℕ
sub_mod a b n = (a + (n - b % n)) % n

pub div-add-mul : (t m n : ℕ) → t < n → (t + m * n) / n ≡ m
div-add-mul t m n h = grind arith

pub mod-add-mul : (t m n : ℕ) → t < n → (t + m * n) % n ≡ t
mod-add-mul t m n h = grind arith

pub add_mod-lt : (a b n : ℕ) → 0 < n → (a + b) % n < n
add_mod-lt a b n h = grind arith

-- Multiples of the modulus drop out of a sum.
mod-eq_of_add_mul : (a b q n : ℕ) → a < n → b ≡ a + n * q → b % n ≡ a
mod-eq_of_add_mul a b q n h e = rw (e, add-mul-mod_self_left a n q) (mod-eq_of_lt h)

pub sub_mod-add_mod : (a d n : ℕ) → a < n → sub_mod ((a + d) % n) d n ≡ a
unfolding sub_mod
sub_mod-add_mod a d n h = rw (mod-add-mod (a + d) n (n - d % n)) (
    mod-eq_of_add_mul a _ (d / n + 1) n h
      (omega (arith, div-add-mod d n, mod-lt d {m = n} (omega arith))))

pub add_mod-sub_mod : (a d n : ℕ) → a < n → (sub_mod a d n + d) % n ≡ a
unfolding sub_mod
add_mod-sub_mod a d n h = rw (mod-add-mod (a + (n - d % n)) n d) (
    mod-eq_of_add_mul a _ (d / n + 1) n h
      (omega (arith, div-add-mod d n, mod-lt d {m = n} (omega arith))))

-- On operands in range both operations are one comparison.
pub add_mod_small :
    (a d n : ℕ)
    → a < n
    → d < n
    → (a + d < n → (a + d) % n ≡ a + d) × (n ≤ a + d → (a + d) % n ≡ a + d - n)
add_mod_small a d n h k =
    (λ l. mod-eq_of_lt l, λ l. rw (mod-eq-sub-mod l) (mod-eq_of_lt (omega arith)))

pub sub_mod_small :
    (a d n : ℕ)
    → a < n
    → d < n
    → (d ≤ a → sub_mod a d n ≡ a - d) × (a < d → sub_mod a d n ≡ a + n - d)
unfolding sub_mod
sub_mod_small a d n h k = rw (mod-eq_of_lt k) (
  λ l. mod-eq_of_add_mul (a - d) _ 1 n (omega arith) (omega arith),
  λ l. mod-eq_of_add_mul (a + n - d) _ 0 n (omega arith) (omega arith),
)

pub sub_mod-lt : (a d n : ℕ) → 0 < n → sub_mod a d n < n
unfolding sub_mod
sub_mod-lt a d n h = grind arith

pub flat-lt : (r c w h : ℕ) → r < h → c < w → c + r * w < h * w
flat-lt r c w h p q = grind arith

pub div-lt : (a m n : ℕ) → a < m * n → a / n < m
div-lt a m n h = grind arith

pub mul-div : (m n : ℕ) → 0 < n → (m * n) / n ≡ m
mul-div m n h = grind arith

pub mul-mod : (m n : ℕ) → (m * n) % n ≡ 0
mul-mod m n = mul-mod_left m n

pub lt-mul : (m n : ℕ) → 1 < m → 0 < n → n < m * n
lt-mul m n h k = grind arith
