-- ===== src/Basics/SetTopology/Told.antt =====
-- What the library is told about the neighbors of a rank.
use bluefog.Common.{
  true, false, Result, not, ◌==◌, ◌&&◌, if◌then◌else◌, ℕ, ◌≡◌, ap, ◌∙◌, arith, Bool, some, List,
  map, length, ok, traverse,
}
use bluefog.Common.Ranks.{elem, elem-sorted, length-sorted, without, elem-without, traverse-ok}
use bluefog.Topology.Graph.{DiGraph, IsDiGraph}
use bluefog.Topology.Weights.{get_recv_weights, get_recv_weights_entries, keys-get_recv_weights}
use bluefog.Basics.Library.{Library, Basics}
use bluefog.Topology.Compare.{is_topology_equivalent}
use bluefog.Basics.Queries.{in_neighbor_ranks, out_neighbor_ranks}
use bluefog.Basics.SetTopology.{
  tell_library, install, set_graph, set_topology, graph, ascending, at_key, sources_of,
  destinations_of, source_weights,
}

module _ {L : Type 0} {W : Type 0} (lib : Library L W) (zero_weight : W) (same : W → W → Bool) where
  -- The weights of the sources, in their order.
  source_weights_aligned :
      (topo : DiGraph W) (self : ℕ)
      → IsDiGraph topo
      → source_weights lib zero_weight same topo self
        ≡ ok (map (λ r. topo.weight r self) (sources_of topo self))
  unfolding source_weights sources_of
  source_weights_aligned topo self g =
      let neighbor_weights = (get_recv_weights zero_weight topo self).1 in
      let (_, entries) = get_recv_weights_entries zero_weight topo self in
      let order =
        ap ascending (keys-get_recv_weights zero_weight topo self (g.predecessors_distinct self)) in
      ap (traverse (at_key neighbor_weights)) order
      ∙ traverse-ok (at_key neighbor_weights) (λ r. topo.weight r self)
          (ascending (without self (topo.predecessors self)))
          (λ r m. ground (
            arith,
            entries r,
            elem-sorted (λ q. q) r (without self (topo.predecessors self)),
            elem-without r self (topo.predecessors self),
          ))

  -- The ranks besides `self` that have an edge to it, and those that it has an edge to.
  pub record Beside (topo : DiGraph W) (self : ℕ) (sources destinations : List ℕ) : Type 0 where
    pub incoming : (r : ℕ) → elem r sources ≡ (elem r (topo.predecessors self) && not (r == self))
    pub outgoing :
        (r : ℕ) → elem r destinations ≡ (elem r (topo.successors self) && not (r == self))
    pub many_sources : length sources ≡ length (without self (topo.predecessors self))
    pub many_destinations : length destinations ≡ length (without self (topo.successors self))

  sources_of-Beside :
      (topo : DiGraph W) (self : ℕ)
      → Beside topo self (sources_of topo self) (destinations_of topo self)
  unfolding sources_of destinations_of
  sources_of-Beside topo self =
      let ins = without self (topo.predecessors self) in
      let outs = without self (topo.successors self) in
      record {
        incoming = λ r.
            ground
              (arith, elem-sorted (λ q. q) r ins, elem-without r self (topo.predecessors self));
        outgoing = λ r.
            ground (arith, elem-sorted (λ q. q) r outs, elem-without r self (topo.successors self));
        many_sources = length-sorted (λ q. q) ins;
        many_destinations = length-sorted (λ q. q) outs;
      }

  module _ (exponential_graph : ℕ → Result (DiGraph W)) where
    -- For a weighted graph that is not equivalent to the topology that is set, the library is called
    -- once: with the ranks that have an edge to this rank, and those that this rank has an edge to,
    -- itself left out; with the weight of the rank's edge to itself, or the zero weight; and with
    -- one weight for each source, in the order of the sources, that of the source's edge to the rank.
    pub set_topology_weighted :
        (topo : DiGraph W) (self : ℕ) (bf : Basics L W)
        → IsDiGraph topo
        → lib.bluefog_rank bf.library ≡ some self
        → is_topology_equivalent same (some topo) bf.topology ≡ false
        → let after =
            (set_topology lib zero_weight same exponential_graph (graph topo) true bf).1 in
          let self_weight =
            if elem self (topo.predecessors self) then topo.weight self self else zero_weight in
          (sources : List ℕ) × (destinations : List ℕ) × Beside topo self sources destinations
          × (after.library
              ≡ (lib.bluefog_set_topology_with_weights sources destinations self_weight
                  (map (λ r. topo.weight r self) sources)
                  bf.library).1)
    unfolding set_topology set_graph install tell_library
    set_topology_weighted topo self bf g k new =
        let aligned = source_weights_aligned topo self g in
        let (own, _) = get_recv_weights_entries zero_weight topo self in
        (
          sources_of topo self,
          destinations_of topo self,
          sources_of-Beside topo self,
          ground (arith, aligned, own),
        )

    -- For a graph without weights that is not equivalent to the topology that is set: the library is
    -- called once, with sources and destinations. If `set_topology` then returns true, and the rank
    -- is still the same, then the methods that ask for the neighbors answer these sources and these
    -- destinations, in some order.
    pub set_topology_neighbors :
        (topo : DiGraph W) (self : ℕ) (bf : Basics L W)
        → lib.bluefog_rank bf.library ≡ some self
        → is_topology_equivalent same (some topo) bf.topology ≡ false
        → let (result, after) =
            set_topology lib zero_weight same exponential_graph (graph topo) false bf in
          result ≡ ok true
          → lib.bluefog_rank after.library ≡ some self
          → (sources : List ℕ) × (destinations : List ℕ) × (ins : List ℕ) × (outs : List ℕ)
            × (after.library ≡ (lib.bluefog_set_topology sources destinations bf.library).1)
            × (in_neighbor_ranks lib after ≡ ok ins)
            × (out_neighbor_ranks lib after ≡ ok outs)
            × (length sources ≡ length ins)
            × (length destinations ≡ length outs)
            × ((r : ℕ) → elem r sources ≡ elem r ins)
            × ((r : ℕ) → elem r destinations ≡ elem r outs)
    unfolding set_topology set_graph install tell_library in_neighbor_ranks out_neighbor_ranks
    set_topology_neighbors topo self bf k new accepted same_rank =
        let ins = without self (topo.predecessors self) in
        let outs = without self (topo.successors self) in
        let beside = sources_of-Beside topo self in
        (
          sources_of topo self,
          destinations_of topo self,
          ins,
          outs,
          ground arith,
          ground arith,
          ground arith,
          beside.many_sources,
          beside.many_destinations,
          λ r. ground (arith, beside.incoming r, elem-without r self (topo.predecessors self)),
          λ r. ground (arith, beside.outgoing r, elem-without r self (topo.successors self)),
        )
