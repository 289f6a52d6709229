-- ===== src/Topology/Dynamic/Log.antt =====
-- What the generators rely on of `int(np.log2(k))`, which numpy and Python's `int` provide.
use bluefog.Common.{
  ℕ, ◌+◌, ◌-◌, ◌%◌, ◌^◌, ◌≤◌, ◌<◌, ◌≡◌, ◌==◌, if◌then◌else◌, arith, Result, ok, raise,
  overflow_error, value_error,
}
use native.Mathlib.Nat.{mod-lt, one-le-pow, pow-le-pow_right, le_trans}

-- The logarithm of zero is minus infinity, which `int` refuses; of a positive number it is rounded
-- down.
pub record IsIntLog2 (int_log2 : ℕ → Result ℕ) : Type 0 where
  pub of_zero : int_log2 0 ≡ raise overflow_error
  pub exponent : ℕ → ℕ
  pub rounds : (k : ℕ) → 0 < k → int_log2 k ≡ ok (exponent k)
  pub low : (k : ℕ) → 0 < k → 2 ^ exponent k ≤ k
  pub high : (k : ℕ) → 0 < k → k < 2 ^ (exponent k + 1)

-- `int(np.log2(k - 1))`: of minus one the logarithm is not a number, which `int` refuses as well.
abbrev pub log2_pred : (ℕ → Result ℕ) → ℕ → Result ℕ
log2_pred int_log2 k = if k == 0 then raise value_error else int_log2 (k - 1)

pub pow_pos : (e : ℕ) → 0 < 2 ^ e
pow_pos e = one-le-pow e 2 (omega arith)

-- The distances of the generators are powers of two up to the number the logarithm is taken of.
pub pow_mod-le : (i e k : ℕ) → 2 ^ e ≤ k → 2 ^ (i % (e + 1)) ≤ k
pow_mod-le i e k h =
    le_trans
      (pow-le-pow_right {n = 2} (omega arith)
        (let l = mod-lt i {m = e + 1} (omega arith) in omega (arith, l)))
      h
