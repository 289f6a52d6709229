-- ===== src/Basics/SetTopology/Atomic.antt =====
-- Setting a topology happens as a whole or not at all.
use bluefog.Common.{ℕ, ◌≡◌, ◌≢◌, ◌⊎◌, arith, Bool, true, Option, some, Result, ok}
use bluefog.Topology.Graph.{DiGraph}
use bluefog.Topology.Compare.{is_topology_equivalent}
use bluefog.Basics.Library.{Library, Basics}
use bluefog.Basics.SetTopology.{
  graph, tell_library, install, set_graph, set_topology, set_machine_graph, set_machine_topology,
}

-- The two attributes that hold a topology.
abbrev pub Holds : {L W : Type 0} → Basics L W → Option (DiGraph W) → Bool → Type 0
Holds bf topology weighted = (bf.topology ≡ topology) × (bf.is_topo_weighted ≡ weighted)

module _ {L : Type 0} {W : Type 0} (lib : Library L W) (zero_weight : W) (same : W → W → Bool) where
  install-Holds :
      (topo : DiGraph W) (is_weighted : Bool) (bf : Basics L W)
      → let (result, after) = install lib zero_weight same topo is_weighted bf in
        (result ≡ ok true → Holds after (some topo) is_weighted)
        × (result ≢ ok true → Holds after bf.topology bf.is_topo_weighted)
  unfolding install tell_library
  install-Holds topo is_weighted bf = ground arith

  -- A topology that is equivalent to the one that is set is not set: if the library is initialized,
  -- the call returns true and changes nothing. The argument `is_weighted` has no effect.
  pub set_graph_equivalent :
      (topo : DiGraph W) (is_weighted : Bool) (bf : Basics L W) (self : ℕ)
      → is_topology_equivalent same (some topo) bf.topology ≡ true
      → lib.bluefog_local_rank bf.library ≡ some self
      → set_graph lib zero_weight same topo is_weighted bf ≡ (ok true, bf)
  unfolding set_graph
  set_graph_equivalent topo is_weighted bf self h k = ground arith

  -- If setting a topology of the machines returns true, then the environment is homogeneous, and
  -- either the machine topology is the new graph with its flag, or an equivalent one was set before
  -- and nothing has changed. Otherwise nothing has changed. The library and the topology of the
  -- ranks stay as they are in every case.
  pub set_machine_topology_homogeneous :
      (topo : DiGraph W) (is_weighted : Bool) (bf : Basics L W)
      → let (result, after) =
          set_machine_topology lib zero_weight same (graph topo) is_weighted bf in
        (result ≡ ok true
          → (lib.bluefog_is_homogeneous bf.library ≡ some true)
            × ((after.machine_topology ≡ some topo) × (after.is_machine_topo_weighted ≡ is_weighted)
                ⊎ (is_topology_equivalent same (some topo) bf.machine_topology ≡ true)
                  × (after ≡ bf)))
        × (result ≢ ok true → after ≡ bf)
        × (after.library ≡ bf.library)
        × Holds after bf.topology bf.is_topo_weighted
  unfolding set_machine_topology set_machine_graph
  set_machine_topology_homogeneous topo is_weighted bf = ground arith

  module _ (exponential_graph : ℕ → Result (DiGraph W)) where
    -- Given a graph, `set_topology` either returns true, and then the graph is set with its flag
    -- unless an equivalent one was set before, which stays with the old flag; or it returns false
    -- or raises, and then topology and flag are what they were.
    pub set_topology_atomic :
        (topo : DiGraph W) (is_weighted : Bool) (bf : Basics L W)
        → let (result, after) =
            set_topology lib zero_weight same exponential_graph (graph topo) is_weighted bf in
          (result ≡ ok true
            → Holds after (some topo) is_weighted
              ⊎ (is_topology_equivalent same (some topo) bf.topology ≡ true)
                × Holds after bf.topology bf.is_topo_weighted)
          × (result ≢ ok true → Holds after bf.topology bf.is_topo_weighted)
    unfolding set_topology set_graph
    set_topology_atomic topo is_weighted bf = ground (arith, install-Holds topo is_weighted bf)
