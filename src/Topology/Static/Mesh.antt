-- ===== src/Topology/Static/Mesh.antt =====
-- `MeshGrid2DGraph`: the links of a grid of ranks, and weights by the Hastings rule. A rank has four
-- links at most, so every weight is a multiple of a sixtieth.
pub mod Hastings
pub mod Links
use bluefog.Common.{
  ℕ, zero, suc, ◌+◌, ◌-◌, ◌*◌, ◌/◌, ◌%◌, Bool, ltb, leb, ◌==◌, ◌&&◌, not, if◌then◌else◌, Option,
  none, some, List, [], ◌∷◌, length, Result, ok, raise, ◌>>=◌, ◌>>◌, check, assertion_error,
  zero_division_error, modulo,
}
use bluefog.Common.Ranks.{range}
use bluefog.Common.Sums.{sum_below}
use bluefog.Topology.Static.Matrix.{WeightMatrix}
use bluefog.Topology.Static.Star.{Entries, write}

-- The loop that looks for a divisor from `i` downwards.
unfoldable pub closest_factor : (size i : ℕ) → Result ℕ
closest_factor size zero = raise zero_division_error
closest_factor size (suc k) =
    let rest = closest_factor size k in if size % suc k == 0 then ok (suc k) else rest

-- A link in both directions.
unfoldable pub link : (size : ℕ) → Entries → (a b : ℕ) → Result Entries
link size topo a b = do topo ← write size topo a b 60; write size topo b a 60

-- A round of the first loop.
unfoldable pub mesh_round : (size ncol : ℕ) → Entries → ℕ → Result Entries
unfolding link
mesh_round size ncol topo i = do
  topo ← write size topo i i 60
  column ← modulo (i + 1) ncol
  topo ← (if column == 0 then ok topo else link size topo i (i + 1))
  if ltb (i + ncol) size then link size topo i (i + ncol) else ok topo

unfoldable pub mesh_loop : (size ncol : ℕ) → Entries → List ℕ → Result Entries
unfolding mesh_round
mesh_loop size ncol topo [] = ok topo
mesh_loop size ncol topo (i ∷ rest) = do
  topo ← mesh_round size ncol topo i
  mesh_loop size ncol topo rest

-- `np.nonzero(topo[i])[0]`, out of the columns that are listed.
unfoldable pub nonzero : Entries → ℕ → List ℕ → List ℕ
nonzero topo i [] = []
nonzero topo i (j ∷ js) = let rest = nonzero topo i js in if topo i j == 0 then rest else j ∷ rest

abbrev pub put : Entries → (r c v : ℕ) → Entries
put topo r c v = λ i j. if i == r && j == c then v else topo i j

abbrev pub larger : ℕ → ℕ → ℕ
larger a b = if leb a b then b else a

-- The loop over the neighbors of `i`, where `degree` counts a rank's neighbors with itself.
unfoldable pub weight_row : (degree : ℕ → ℕ) → Entries → ℕ → List ℕ → Entries
weight_row degree topo i [] = topo
weight_row degree topo i (j ∷ js) =
    weight_row degree (if i == j then topo else put topo i j (60 / larger (degree i) (degree j))) i
      js

-- The loop over the ranks, with the neighbors found before.
unfoldable pub hastings : (size : ℕ) (neighbors : ℕ → List ℕ) → Entries → List ℕ → Entries
unfolding weight_row
hastings size neighbors topo [] = topo
hastings size neighbors topo (i ∷ rest) =
    let topo = weight_row (λ r. length (neighbors r)) topo i (neighbors i) in
    hastings size neighbors (put topo i i (120 - sum_below size (λ j. topo i j))) rest

-- `isqrt` is `int(np.sqrt(size))`.
module _ (isqrt : ℕ → ℕ) where
  unfoldable pub shape_of : ℕ → Option (ℕ × ℕ) → Result (ℕ × ℕ)
  unfolding closest_factor
  shape_of size none = do i ← closest_factor size (isqrt size); ok (i, size / i)
  shape_of size (some shape) = ok shape

  unfoldable pub mesh_grid_2d_graph : ℕ → Option (ℕ × ℕ) → Result WeightMatrix
  unfolding shape_of mesh_loop hastings nonzero
  mesh_grid_2d_graph size shape = do
    check (ltb 0 size) assertion_error
    (nrow, ncol) ← shape_of size shape
    check (size == nrow * ncol) assertion_error
    topo ← mesh_loop size ncol (λ i j. 0) (range size)
    ok (record {
      size = size;
      entry = hastings size (λ i. nonzero topo i (range size)) topo (range size);
      unit = 60;
    })
