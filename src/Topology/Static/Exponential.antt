-- ===== src/Topology/Static/Exponential.antt =====
-- `ExponentialTwoGraph`, `isPowerOf`, `ExponentialGraph` and `SymmetricExponentialGraph`.
pub mod Powers
pub mod Edges
use Prim.Native.Nat.{bit_and}
use bluefog.Common.{
  ℕ, ◌+◌, ◌-◌, ◌/◌, ◌^◌, Bool, ltb, leb, ◌==◌, if◌then◌else◌, List, [], ◌∷◌, map, Result, ok, ◌>>=◌,
  ◌>>◌, check, assertion_error, traverse,
}
use bluefog.Common.Ranks.{range, range_from}
use bluefog.Common.Sums.{total}
use bluefog.Topology.Static.Matrix.{WeightMatrix}
use bluefog.Topology.Static.Circulant.{circulant}

abbrev pub mark : Bool → ℕ
mark connected = if connected then 1 else 0

-- `i & (i - 1) == 0`; at zero Python computes `0 & -1`, which is zero too.
pub power_of_two_test : ℕ → Bool
power_of_two_test i = bit_and i (i - 1) == 0

-- `int_log x base` is `int(math.log(x, base))`.
pub is_power_of : (int_log : ℕ → ℕ → ℕ) (x base : ℕ) → Result Bool
is_power_of int_log x base = do
  check (ltb 1 base) assertion_error
  check (ltb 0 x) assertion_error
  ok (base ^ int_log x base == x)

-- What the loops append to `x`, for the distance that is tested.
pub entry_of : (int_log : ℕ → ℕ → ℕ) (base index : ℕ) → Result ℕ
unfolding is_power_of
entry_of int_log base index = do power ← is_power_of int_log index base; ok (mark power)

-- The distance to the nearer end.
unfoldable pub mirrored : (size i : ℕ) → ℕ
mirrored size i = if leb i (size / 2) then i else size - i

module _ (roll : List ℕ → ℕ → List ℕ) where
  unfoldable pub exponential_two_graph : (size : ℕ) → Result WeightMatrix
  unfolding power_of_two_test
  exponential_two_graph size = do
    check (ltb 0 size) assertion_error
    let x = map (λ i. mark (power_of_two_test i)) (range size)
    ok (circulant roll size x (total x))

  module _ (int_log : ℕ → ℕ → ℕ) where
    unfoldable pub exponential_graph : (size base : ℕ) → Result WeightMatrix
    unfolding entry_of
    exponential_graph size base = do
      marks ← traverse (entry_of int_log base) (range_from 1 (size - 1))
      let x = 1 ∷ marks
      ok (circulant roll size x (total x))

    unfoldable pub symmetric_exponential_graph : (size base : ℕ) → Result WeightMatrix
    unfolding entry_of mirrored
    symmetric_exponential_graph size base = do
      marks ← traverse (λ i. entry_of int_log base (mirrored size i)) (range_from 1 (size - 1))
      let x = 1 ∷ marks
      ok (circulant roll size x (total x))
