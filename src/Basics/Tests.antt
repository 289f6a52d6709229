-- ===== src/Basics/Tests.antt =====
-- `BlueFogBasics` with a library that counts the calls that change it.
use bluefog.Common.{
  ℕ, ◌+◌, ◌≡◌, ◌≢◌, ◌⊎◌, refl, Bool, true, false, ◌==◌, none, some, List, map, length, Result, ok,
}
use bluefog.Common.Ranks.{elem, sorted}
use bluefog.Topology.Graph.{DiGraph}
use bluefog.Topology.Compare.{is_topology_equivalent}
use bluefog.Topology.Weights.{get_recv_weights}
use bluefog.Topology.Tests.{ring_of_three, ring_of_three-IsDiGraph}
use bluefog.Basics.Library.{Library, Basics}
use bluefog.Basics.Queries.{in_neighbor_ranks, out_neighbor_ranks}
use bluefog.Basics.SetTopology.{graph, source_weights, set_topology}
use bluefog.Basics.SetTopology.Atomic.{Holds, set_topology_atomic}
use bluefog.Basics.SetTopology.Told.{Beside, set_topology_weighted, set_topology_neighbors}

-- Rank 1 of three ranks on one machine. The timeline refuses to start an activity.
abbrev pub counting : Library ℕ ℕ
counting = record {
  bluefog_init = λ calls. 0;
  bluefog_shutdown = λ calls. calls + 1;
  bluefog_size = λ calls. some 3;
  bluefog_local_size = λ calls. some 3;
  bluefog_rank = λ calls. some 1;
  bluefog_local_rank = λ calls. some 1;
  bluefog_is_homogeneous = λ calls. some true;
  bluefog_set_topology = λ sources destinations calls. (true, calls + 1);
  bluefog_set_topology_with_weights =
      λ sources destinations self_weight weights calls. (true, calls + 1);
  bluefog_timeline = λ starts calls. (false, calls + 1);
}

abbrev pub in_ring : Basics ℕ ℕ
in_ring = record {
  topology = some ring_of_three;
  machine_topology = none;
  is_topo_weighted = false;
  is_machine_topo_weighted = false;
  warn_timeline = false;
  library = 0;
}

abbrev without_topology : Basics ℕ ℕ
without_topology = record in_ring { topology = none }

same : ℕ → ℕ → Bool
same a b = a == b

default_graph : ℕ → Result (DiGraph ℕ)
default_graph n = ok ring_of_three

set_run :
    set_topology counting 0 same default_graph (graph ring_of_three) true without_topology
    ≡ (ok true, record in_ring { is_topo_weighted = true; library = 1 })
unfolding set_topology source_weights sorted get_recv_weights
set_run = refl

set_topology_atomic_example :
    let (result, after) =
      set_topology counting 0 same default_graph (graph ring_of_three) true without_topology in
    (result ≡ ok true
      → Holds after (some ring_of_three) true
        ⊎ (is_topology_equivalent same (some ring_of_three) none ≡ true) × Holds after none false)
    × (result ≢ ok true → Holds after none false)
set_topology_atomic_example =
    set_topology_atomic counting 0 same default_graph ring_of_three true without_topology

set_topology_weighted_example :
    let after =
      (set_topology counting 0 same default_graph (graph ring_of_three) true without_topology).1 in
    (sources : List ℕ) × (destinations : List ℕ) × Beside counting 0 same ring_of_three 1 sources
      destinations
    × (after.library
        ≡ (counting.bluefog_set_topology_with_weights sources destinations 0
            (map (λ r. ring_of_three.weight r 1) sources)
            0).1)
unfolding is_topology_equivalent
set_topology_weighted_example =
    set_topology_weighted counting 0 same default_graph ring_of_three 1 without_topology
      ring_of_three-IsDiGraph refl refl

set_topology_neighbors_example :
    let after =
      (set_topology counting 0 same default_graph (graph ring_of_three) false without_topology).1 in
    (sources : List ℕ) × (destinations : List ℕ) × (ins : List ℕ) × (outs : List ℕ) × (after.library
      ≡ (counting.bluefog_set_topology sources destinations 0).1)
    × (in_neighbor_ranks counting after ≡ ok ins)
    × (out_neighbor_ranks counting after ≡ ok outs)
    × (length sources ≡ length ins)
    × (length destinations ≡ length outs)
    × ((r : ℕ) → elem r sources ≡ elem r ins)
    × ((r : ℕ) → elem r destinations ≡ elem r outs)
unfolding set_topology is_topology_equivalent
set_topology_neighbors_example =
    set_topology_neighbors counting 0 same default_graph ring_of_three 1 without_topology refl refl
      refl refl
