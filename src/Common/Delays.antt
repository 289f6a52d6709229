-- ===== src/Common/Delays.antt =====
-- Counters that count down from a number of passes, and below zero after it.
use Prim.Native.Nat.{ℕ, zero, suc}
use mathlib.Core.Bool.{Bool, true, false, ◌||◌}
use mathlib.Core.Path.{◌≡◌, refl}
use native.Mathlib.Omega.{arith}

-- The integers; `negsuc n` is `-(n + 1)`.
pub data ℤ : Type 0 where
  pos : ℕ → ℤ
  negsuc : ℕ → ℤ

-- `delay - 1`
abbrev pub pred : ℤ → ℤ
pred (pos zero) = negsuc 0
pred (pos (suc n)) = pos n
pred (negsuc n) = negsuc (suc n)

-- `delay <= 0`
abbrev pub is_due : ℤ → Bool
is_due (pos zero) = true
is_due (pos (suc n)) = false
is_due (negsuc n) = true

-- `delay == 0`
abbrev pub is_zero : ℤ → Bool
is_zero (pos zero) = true
is_zero (pos (suc n)) = false
is_zero (negsuc n) = false

-- A counter comes to zero once: it was not due before, and is due from then on.
pub pred-due : (d : ℤ) → is_due (pred d) ≡ (is_zero (pred d) || is_due d)
pred-due (pos zero) = refl
pred-due (pos (suc zero)) = refl
pred-due (pos (suc (suc n))) = refl
pred-due (negsuc n) = refl

pub zero-not_due : (d : ℤ) → is_zero (pred d) ≡ true → is_due d ≡ false
zero-not_due (pos zero) h = absurd (ground arith)
zero-not_due (pos (suc zero)) h = refl
zero-not_due (pos (suc (suc n))) h = refl
zero-not_due (negsuc n) h = absurd (ground arith)
