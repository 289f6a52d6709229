-- ===== src/Topology/Static/Exponential/Powers.antt =====
-- The two tests for powers: by bits for two, and by a logarithm for any base.
use bluefog.Common.{
  ◌-◌, ℕ, zero, refl, suc, ◌+◌, ◌^◌, ◌≤◌, ◌<◌, ◌≡◌, ◌↔◌, ◌⊎◌, inl, inr, sym, ap, ◌∙◌, Bool-cases,
  arith, true, ltb, ok,
}
use mathlib.Core.Logic.{⊎_elim}
use bluefog.Common.Bits.{power_of_bit_and, bit_and_of_power}
use native.Mathlib.Nat.{pow-suc, pow-le-pow_right, one-le-pow, lt_of_le_of_lt as le_lt_trans}
use bluefog.Topology.Static.Exponential.{is_power_of, power_of_two_test}

-- `d` is a power of `base`.
abbrev pub IsPower : (base d : ℕ) → Type 0
IsPower base d = (e : ℕ) × (d ≡ base ^ e)

-- What is relied on of `int(math.log(x, base))`: it is exact, rounded down. Python's quotient of
-- two logarithms is not for every `x` (`int(math.log(243, 3))` is 4).
pub record ExactLog (int_log : ℕ → ℕ → ℕ) (base : ℕ) : Type 0 where
  pub low : (x : ℕ) → 0 < x → base ^ int_log x base ≤ x
  pub high : (x : ℕ) → 0 < x → x < base ^ (int_log x base + 1)

pow_suc-lt : (base e : ℕ) → 1 < base → base ^ e < base ^ suc e
pow_suc-lt base e h =
    let p = one-le-pow e base (omega arith) in rw (pow-suc base e) (grind (arith, p))

pow_reflects : (base a b : ℕ) → 1 < base → base ^ a < base ^ b → a < b
pow_reflects base a b h l = elim (Bool-cases (ltb a b)) [
  | inl less ↦ ground arith
  | inr more ↦ absurd (
      let q = pow-le-pow_right {n = base} (omega arith) {i = b} {j = a} (ground arith) in
      omega (arith, q))
]

pow_reflects_le : (base a b : ℕ) → 1 < base → base ^ a ≤ base ^ b → a ≤ b
pow_reflects_le base a b h l =
    let q = pow_reflects base a (suc b) h (le_lt_trans l (pow_suc-lt base b h)) in omega (arith, q)

-- For a base above one and a positive number, with an exact logarithm, the test finds the powers
-- of the base and nothing else.
pub is_power_of_iff :
    (int_log : ℕ → ℕ → ℕ) (x base : ℕ)
    → ExactLog int_log base
    → 1 < base
    → 0 < x
    → (is_power_of int_log x base ≡ ok true) ↔ IsPower base x
unfolding is_power_of
is_power_of_iff int_log x base log h k = (
  λ e. (int_log x base, ground arith),
  λ (e, p).
      let l = int_log x base in
      let below = pow_reflects_le base l e h (let lo = log.low x k in omega (arith, lo, p)) in
      let above = pow_reflects base e (l + 1) h (let hi = log.high x k in omega (arith, hi, p)) in
      let same : l ≡ e = omega arith in
      let power : base ^ l ≡ x = ap (λ (t : ℕ). base ^ t) same ∙ sym p in ground arith,
)

-- The test by bits finds zero and the powers of two.
pub power_of_two_test_iff : (i : ℕ) → (power_of_two_test i ≡ true) ↔ ((i ≡ 0) ⊎ IsPower 2 i)
unfolding power_of_two_test
power_of_two_test_iff zero = (λ _. inl refl, λ _. refl)
power_of_two_test_iff (suc a) =
    let e : suc a - 1 ≡ a = omega arith in
    rw e (
      λ h. inr (power_of_bit_and a a (omega arith) (ground arith)),
      ⊎_elim (λ z. absurd (omega (arith, z))) (λ (k, p). ground (arith, bit_and_of_power k a p)),
    )
