-- ===== src/Topology/Static/Matrix.antt =====
-- Square weight matrices over a common denominator, and what numpy provides.
use bluefog.Common.{ℕ, ◌<◌, ◌≡◌, List, length, get_or}
use bluefog.Common.Arith.{sub_mod}
use bluefog.Common.Sums.{sum_below}

-- The weight of the edge from `i` to `j` is `entry i j / unit`.
pub record WeightMatrix : Type 0 where
  pub size : ℕ
  pub entry : ℕ → ℕ → ℕ
  pub unit : ℕ

-- Each rank sends all of its weight, and receives as much.
pub record DoublyStochastic (topo : WeightMatrix) : Type 0 where
  pub denominator : 0 < topo.unit
  pub rows : (i : ℕ) → i < topo.size → sum_below topo.size (λ j. topo.entry i j) ≡ topo.unit
  pub columns : (j : ℕ) → j < topo.size → sum_below topo.size (λ i. topo.entry i j) ≡ topo.unit

-- `np.roll(x, shift)`: what stands at `k` moves to `k + shift`, around the end.
pub record IsRoll (roll : List ℕ → ℕ → List ℕ) : Type 0 where
  pub rolled :
      (x : List ℕ) (shift k : ℕ)
      → k < length x
      → get_or (roll x shift) k 0 ≡ get_or x (sub_mod k shift (length x)) 0
