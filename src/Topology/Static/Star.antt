-- ===== src/Topology/Static/Star.antt =====
-- `StarGraph`: a matrix that a loop fills entry by entry.
pub mod Match
use bluefog.Common.{
  ℕ, ◌-◌, Bool, ltb, ◌==◌, ◌&&◌, if◌then◌else◌, List, [], ◌∷◌, Result, ok, raise, ◌>>=◌, ◌>>◌,
  check, assertion_error, index_error,
}
use bluefog.Common.Ranks.{range}
use bluefog.Topology.Static.Matrix.{WeightMatrix}

-- The entries of a numpy array of two dimensions.
abbrev pub Entries : Type 0
Entries = ℕ → ℕ → ℕ

-- `topo[r, c] = v`, for indices that are not negative.
unfoldable pub write : (size : ℕ) (topo : Entries) (r c v : ℕ) → Result Entries
write size topo r c v =
    if ltb r size && ltb c size
    then ok (λ i j. if i == r && j == c then v else topo i j)
    else raise index_error

-- The loop over the ranks, over the denominator `size`.
pub star_loop : (size center_rank : ℕ) → Entries → List ℕ → Result Entries
unfolding write
star_loop size center_rank topo [] = ok topo
star_loop size center_rank topo (i ∷ rest) = do
  topo ← write size topo i i (size - 1)
  topo ← write size topo center_rank i 1
  topo ← write size topo i center_rank 1
  star_loop size center_rank topo rest

unfoldable pub star_graph : (size center_rank : ℕ) → Result WeightMatrix
unfolding star_loop
star_graph size center_rank = do
  check (ltb 0 size) assertion_error
  topo ← star_loop size center_rank (λ i j. 0) (range size)
  ok (record { size = size; entry = topo; unit = size })
