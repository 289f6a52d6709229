-- ===== src/Topology/Static/Ring.antt =====
-- `RingGraph` and `FullyConnectedGraph`.
pub mod Match
use bluefog.Common.{
  ℕ, ◌-◌, Bool, ltb, leb, ◌==◌, if◌then◌else◌, List, [], ◌∷◌, set, length, replicate, Result, ok,
  raise, ◌>>=◌, ◌>>◌, check, assertion_error, value_error,
}
use bluefog.Topology.Static.Matrix.{WeightMatrix}
use bluefog.Topology.Static.Circulant.{circulant}

-- `nx.from_numpy_array` of a matrix with the same entry everywhere.
abbrev uniform : (size unit : ℕ) → WeightMatrix
uniform size unit = record { size = size; entry = λ i j. 1; unit = unit }

-- The assignments to `x` for each style, over the denominator of the style. The last place of `x`
-- is `x[-1]`.
unfoldable pub ring_row : (size connect_style : ℕ) → Result (List ℕ × ℕ)
ring_row size connect_style =
    let x = set (replicate size 0) 0 1 in
    if connect_style == 0
    then ok (set (set (set x 0 1) (size - 1) 1) 1 1, 3)
    else if connect_style == 1
    then ok (set x (size - 1) 1, 2)
    else if connect_style == 2
    then ok (set x 1 1, 2)
    else raise value_error

module _ (roll : List ℕ → ℕ → List ℕ) where
  -- The graph after the assertions. Of one or two ranks the matrix is written out.
  unfoldable pub ring_of_size : (size connect_style : ℕ) → Result WeightMatrix
  unfolding ring_row
  ring_of_size size connect_style =
      if size == 1
      then ok (uniform 1 1)
      else if size == 2
      then ok (uniform 2 2)
      else (do (x, unit) ← ring_row size connect_style; ok (circulant roll size x unit))

  unfoldable pub ring_graph : (size connect_style : ℕ) → Result WeightMatrix
  unfolding ring_of_size
  ring_graph size connect_style = do
    check (ltb 0 size) assertion_error
    check (leb connect_style 2) assertion_error
    ring_of_size size connect_style

  unfoldable pub fully_connected_graph : (size : ℕ) → Result WeightMatrix
  fully_connected_graph size = do
    check (ltb 0 size) assertion_error
    ok (circulant roll size (replicate size 1) size)
