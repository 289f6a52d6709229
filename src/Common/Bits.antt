-- ===== src/Common/Bits.antt =====
-- The bitwise `&` of Python on numbers that are not negative, by its lowest bit.
use Prim.Native.Nat.{
  ℕ, zero, suc, ◌+◌, ◌*◌, ◌/◌, ◌%◌, ◌^◌, ◌≤◌, min, bit_and, bit_and-bitwise, digits,
}
use mathlib.Core.Path.{◌≡◌, refl, sym, ◌∙◌}
use mathlib.Core.Logic.{inl, inr}
use native.Mathlib.Nat.{pow-suc}
use native.Mathlib.Omega.{arith}
use bluefog.Common.Tests.{Bool-cases, ◌==◌}

-- What the native operation computes, with fuel for the bits.
abbrev low_bits_and : ℕ → ℕ → ℕ → ℕ
low_bits_and fuel a b = digits (λ _. zero) min fuel a b

one_more : (fuel a b : ℕ) → a ≤ fuel → low_bits_and (suc fuel) a b ≡ low_bits_and fuel a b
one_more zero zero b h = refl
one_more zero (suc a) b h = absurd (omega arith)
one_more (suc fuel) zero b h = refl
one_more (suc fuel) (suc a) b h = omega (arith, one_more fuel (suc a / 2) (b / 2) (omega arith))

enough : (fuel a b : ℕ) → a ≤ fuel → low_bits_and fuel a b ≡ bit_and a b
enough zero zero b h = sym (bit_and-bitwise zero b)
enough zero (suc a) b h = absurd (omega arith)
enough (suc fuel) a b h = elim (Bool-cases (a == suc fuel)) [
  | inl e ↦ let p : a ≡ suc fuel = ground arith in rw p (sym (bit_and-bitwise (suc fuel) b))
  | inr e ↦ one_more fuel a b (ground arith) ∙ enough fuel a b (ground arith)
]

-- The lowest bit, and the bits above it.
pub bit_and_halves :
    (a b : ℕ) → bit_and (suc a) b ≡ bit_and (suc a / 2) (b / 2) * 2 + min (suc a % 2) (b % 2)
bit_and_halves a b =
    omega (arith, bit_and-bitwise (suc a) b, enough a (suc a / 2) (b / 2) (omega arith))

bit_and_self_below : (n a : ℕ) → a ≤ n → bit_and a a ≡ a
bit_and_self_below n zero h = bit_and-bitwise zero zero
bit_and_self_below zero (suc a) h = absurd (omega arith)
bit_and_self_below (suc n) (suc a) h =
    omega (arith, bit_and_halves a (suc a), bit_and_self_below n (suc a / 2) (omega arith))

-- A number above one and its predecessor: of an even number the halves are compared, and an odd
-- one keeps all its bits but the lowest.
bit_and_pred_even :
    (a : ℕ)
    → suc (suc a) % 2 ≡ 0
    → bit_and (suc (suc a)) (suc a) ≡ bit_and (suc (a / 2)) (a / 2) * 2
bit_and_pred_even a h =
    let e : suc (suc a) / 2 ≡ suc (a / 2) = omega arith in
    let f : suc a / 2 ≡ a / 2 = omega arith in
    let p = bit_and_halves (suc a) (suc a) in
    let q = rw e at p in let r = rw f at q in omega (arith, r)

bit_and_pred_odd : (a : ℕ) → suc (suc a) % 2 ≡ 1 → bit_and (suc (suc a)) (suc a) ≡ suc (a / 2) * 2
bit_and_pred_odd a h =
    let e : suc (suc a) / 2 ≡ suc (a / 2) = omega arith in
    let f : suc a / 2 ≡ suc (a / 2) = omega arith in
    let p = bit_and_halves (suc a) (suc a) in
    let q = rw e at p in
    let r = rw f at q in
    omega (arith, r, bit_and_self_below (suc (a / 2)) (suc (a / 2)) (omega arith))

-- A number that shares no bit with its predecessor is a power of two, and the other way round.
pub power_of_bit_and : (n a : ℕ) → a ≤ n → bit_and (suc a) a ≡ 0 → (e : ℕ) × (suc a ≡ 2 ^ e)
power_of_bit_and n zero h p = (0, omega arith)
power_of_bit_and zero (suc a) h p = absurd (omega arith)
power_of_bit_and (suc n) (suc a) h p = elim (Bool-cases (suc (suc a) % 2 == 0)) [
  | inl even ↦
      let m : suc (suc a) % 2 ≡ 0 = ground arith in
      let (e, q) =
        power_of_bit_and n (a / 2) (omega arith) (omega (arith, bit_and_pred_even a m)) in
      (suc e, omega (arith, q, pow-suc 2 e))
  | inr odd ↦
      let m : suc (suc a) % 2 ≡ 1 = ground arith in absurd (omega (arith, bit_and_pred_odd a m))
]

pub bit_and_of_power : (e a : ℕ) → suc a ≡ 2 ^ e → bit_and (suc a) a ≡ 0
bit_and_of_power e zero p = bit_and-bitwise 1 0
bit_and_of_power zero (suc a) p = absurd (omega (arith, p))
bit_and_of_power (suc e) (suc a) p =
    let q = pow-suc 2 e in
    omega (arith, bit_and_pred_even a (omega arith), bit_and_of_power e (a / 2) (omega arith))
