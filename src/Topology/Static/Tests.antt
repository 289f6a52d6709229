-- ===== src/Topology/Static/Tests.antt =====
-- The static topologies at concrete sizes.
use bluefog.Common.{
  refl, ℕ, ◌+◌, ◌-◌, ◌<◌, ◌≡◌, ◌∙◌, ap, arith, if◌then◌else◌, List, map, length, get_or, ok, zero,
  suc, ◌*◌, leb, Option, none,
}
use bluefog.Common.Arith.{sub_mod}
use bluefog.Common.Ranks.{range, get_or-map-range_from}
use bluefog.Topology.Static.Matrix.{WeightMatrix, DoublyStochastic, IsRoll}
use bluefog.Topology.Static.Exponential.{exponential_two_graph}
use bluefog.Topology.Static.Exponential.Powers.{IsPower, ExactLog}
use bluefog.Topology.Static.Exponential.Edges.{Connects, exponential_two_graph-Connects}
use bluefog.Topology.Static.Ring.{ring_graph}
use bluefog.Topology.Static.Ring.Match.{beside, ring_graph_edges}
use bluefog.Topology.Static.Mesh.{closest_factor, shape_of, mesh_grid_2d_graph}
use bluefog.Topology.Static.Mesh.Links.{mesh_grid_2d_graph-weights}
use bluefog.Topology.Dynamic.Tests.{log2_suc, log2_suc-range}

roll : List ℕ → ℕ → List ℕ
roll x shift = map (λ k. get_or x (sub_mod k shift (length x)) 0) (range (length x))

roll-IsRoll : IsRoll roll
unfolding roll
roll-IsRoll = record {
  rolled = λ x shift k h.
      let e : 0 + k ≡ k = omega arith in
      get_or-map-range_from (λ j. get_or x (sub_mod j shift (length x)) 0) 0 (length x) k h
      ∙ ap (λ j. get_or x (sub_mod j shift (length x)) 0) e;
}

int_log : ℕ → ℕ → ℕ
int_log x base = log2_suc (x - 1)

int_log-ExactLog : ExactLog int_log 2
unfolding int_log
int_log-ExactLog = record {
  low = λ x h. let r = log2_suc-range (x - 1) in omega (arith, r.0);
  high = λ x h. let r = log2_suc-range (x - 1) in omega (arith, r.1);
}

abbrev twelve : ℕ
twelve = 12

exponential_two_graph-Connects_example :
    (topo : WeightMatrix) × (exponential_two_graph roll 6 ≡ ok topo) × Connects 6 (IsPower 2) topo
exponential_two_graph-Connects_example =
    exponential_two_graph-Connects roll roll-IsRoll 6 (omega arith)

ring_graph_edges_example :
    (topo : WeightMatrix) × (ring_graph roll 5 0 ≡ ok topo)
    × (topo.size ≡ 5)
    × DoublyStochastic topo
    × ((i j : ℕ) → i < 5 → j < 5 → topo.entry i j ≡ (if beside 5 0 (sub_mod j i 5) then 1 else 0))
ring_graph_edges_example = ring_graph_edges roll roll-IsRoll 5 0 (omega arith) (omega arith)

-- The square root, rounded down.
root : ℕ → ℕ
root zero = 0
root (suc n) = let r = root n in if leb ((r + 1) * (r + 1)) (suc n) then r + 1 else r

abbrev found : Option (ℕ × ℕ)
found = none

mesh_run : shape_of root 6 none ≡ ok (2, 3)
unfolding root shape_of closest_factor
mesh_run = refl

mesh_grid_2d_graph-weights_example :
    (topo : WeightMatrix) × (mesh_grid_2d_graph root 6 found ≡ ok topo)
    × (topo.size ≡ 6)
    × DoublyStochastic topo
    × ((i j : ℕ) → i < 6 → j < 6 → topo.entry i j ≡ topo.entry j i)
unfolding root
mesh_grid_2d_graph-weights_example =
    mesh_grid_2d_graph-weights root 6 found (omega arith) (omega arith) tt
