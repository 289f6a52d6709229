-- ===== src/Topology/Tests.antt =====
-- Weights and comparison at a concrete topology: three ranks in a directed ring, with self-loops.
use bluefog.Common.{
  ℕ, ◌+◌, ◌*◌, ◌<◌, ◌≡◌, ◌↔◌, refl, arith, true, ◌==◌, if◌then◌else◌, some, List, [], ◌∷◌, length,
}
use bluefog.Common.Dict.{lookup}
use bluefog.Common.Ranks.{elem}
use bluefog.Topology.Graph.{DiGraph, IsDiGraph}
use bluefog.Topology.Weights.{get_recv_weights, get_send_weights, send_weights-recv_weights}
use bluefog.Topology.Compare.{is_topology_equivalent, is_topology_equivalent_iff}

-- A rank receives from itself and from the rank before it.
abbrev pub before : ℕ → List ℕ
before r =
    if r == 0 then 0 ∷ 2 ∷ [] else if r == 1 then 0 ∷ 1 ∷ [] else if r == 2 then 1 ∷ 2 ∷ [] else []

abbrev pub after : ℕ → List ℕ
after r =
    if r == 0 then 0 ∷ 1 ∷ [] else if r == 1 then 1 ∷ 2 ∷ [] else if r == 2 then 0 ∷ 2 ∷ [] else []

abbrev pub ring_of_three : DiGraph ℕ
ring_of_three = record {
  number_of_nodes = 3;
  number_of_edges = 6;
  successors = after;
  predecessors = before;
  out_degree = λ a. length (after a);
  degree = λ a. length (after a) + length (before a);
  weight = λ i j. if elem j (after i) then 10 * i + j + 1 else 0;
}

pub ring_of_three-IsDiGraph : IsDiGraph ring_of_three
ring_of_three-IsDiGraph = record {
  successors_distinct = λ a. ground arith;
  predecessors_distinct = λ a. ground arith;
  successors_in_range = λ a b m. ground arith;
  predecessors_in_range = λ a b m. ground arith;
  counted = λ a. refl;
  both_ends = λ a b h k. ground arith;
}

recv_run : get_recv_weights 0 ring_of_three 1 ≡ (12, (0, 2) ∷ [])
unfolding get_recv_weights
recv_run = refl

send_weights-recv_weights_example :
    (lookup 0 (get_send_weights 0 ring_of_three 2).1
      ≡ lookup 2 (get_recv_weights 0 ring_of_three 0).1)
    × ((get_send_weights 0 ring_of_three 2).0 ≡ (get_recv_weights 0 ring_of_three 2).0)
send_weights-recv_weights_example =
    send_weights-recv_weights 0 ring_of_three ring_of_three-IsDiGraph 2 0 (omega arith)
      (omega arith)

is_topology_equivalent_iff_example :
    (is_topology_equivalent (λ a b. a == b) (some ring_of_three) (some ring_of_three) ≡ true) ↔ (
      (ring_of_three.number_of_nodes ≡ 3)
      × (ring_of_three.number_of_edges ≡ 6)
      × ((i j : ℕ) → i < 3 → j < 3 → (ring_of_three.weight i j == ring_of_three.weight i j) ≡ true))
is_topology_equivalent_iff_example =
    is_topology_equivalent_iff (λ a b. a == b) ring_of_three ring_of_three
