-- ===== src/Basics/SetTopology.antt =====
-- `set_topology`, `set_machine_topology`, `init` and `shutdown` of `BlueFogBasics`.
pub mod Atomic
pub mod Told
use bluefog.Common.{
  ℕ, Bool, true, false, if◌then◌else◌, Option, none, some, List, map, Result, ok, raise, type_error,
  value_error, key_error, assertion_error, traverse,
}
use bluefog.Common.Stateful.{M, ◌>>=◌, ◌>>◌, continue_with, return, reads, throw, modify, require}
use bluefog.Common.Dict.{Dict, lookup, keys}
use bluefog.Common.Ranks.{sorted, without}
use bluefog.Topology.Graph.{DiGraph}
use bluefog.Topology.Compare.{is_topology_equivalent}
use bluefog.Topology.Weights.{get_recv_weights}
use bluefog.Basics.Library.{Library, Basics}
use bluefog.Basics.Queries.{size, rank, local_rank, is_homogeneous, default_topology}

-- What a caller passes for a topology: nothing, something that is no `networkx.DiGraph`, or one.
pub data TopologyArg (W : Type 0) : Type 0 where
  not_given no_graph : TopologyArg W
  graph : DiGraph W → TopologyArg W

-- `sorted(ranks)`
abbrev pub ascending : List ℕ → List ℕ
ascending = sorted (λ r. r)

-- `d[k]`
abbrev pub at_key : {V : Type 0} → Dict V → ℕ → Result V
at_key d k = elim (lookup k d) [ none ↦ raise key_error | some v ↦ ok v ]

-- `sources` and `destinations`, in the order in which the library gets them.
unfoldable pub sources_of : {W : Type 0} → DiGraph W → ℕ → List ℕ
sources_of topo self = ascending (without self (topo.predecessors self))

unfoldable pub destinations_of : {W : Type 0} → DiGraph W → ℕ → List ℕ
destinations_of topo self = ascending (without self (topo.successors self))

module _ {L : Type 0} {W : Type 0} (lib : Library L W) (zero_weight : W) (same : W → W → Bool) where
  -- `source_weights`
  unfoldable pub source_weights : DiGraph W → ℕ → Result (List W)
  source_weights topo self =
      let neighbor_weights = (get_recv_weights zero_weight topo self).1 in
      traverse (at_key neighbor_weights) (ascending (keys neighbor_weights))

  -- The call of the library with weights; its answer says whether it is 1.
  abbrev tell_weights : DiGraph W → ℕ → List W → M (Basics L W) Bool
  tell_weights topo self weights bf =
      let (accepted, library) =
        lib.bluefog_set_topology_with_weights (sources_of topo self) (destinations_of topo self)
          (get_recv_weights zero_weight topo self).0 weights bf.library in
      (ok accepted, record bf { library = library })

  -- The call without weights.
  abbrev tell_plain : DiGraph W → ℕ → M (Basics L W) Bool
  tell_plain topo self bf =
      let (accepted, library) =
        lib.bluefog_set_topology (sources_of topo self) (destinations_of topo self) bf.library in
      (ok accepted, record bf { library = library })

  unfoldable pub tell_library : DiGraph W → ℕ → Bool → M (Basics L W) Bool
  tell_library topo self is_weighted =
      if is_weighted
      then (do weights ← reads (λ _. source_weights topo self); tell_weights topo self weights)
      else tell_plain topo self

  -- The part for a topology that the library has not got yet.
  unfoldable pub install : DiGraph W → Bool → M (Basics L W) Bool
  unfolding tell_library
  install topo is_weighted = do
    self ← reads (rank lib)
    accepted ← tell_library topo self is_weighted
    if accepted
        then (do
          modify (λ bf. record bf { topology = some topo; is_topo_weighted = is_weighted })
          return true)
        else (do reads (local_rank lib); return false)

  -- The topology is the one that is set already.
  abbrev skip_setting : M (Basics L W) Bool
  skip_setting = do reads (local_rank lib); return true

  unfoldable pub set_graph : DiGraph W → Bool → M (Basics L W) Bool
  unfolding install is_topology_equivalent
  set_graph topo is_weighted bf =
      if is_topology_equivalent same (some topo) bf.topology
      then skip_setting bf
      else install topo is_weighted bf

  unfoldable pub set_machine_graph : DiGraph W → Bool → M (Basics L W) Bool
  unfolding is_topology_equivalent
  set_machine_graph topo is_weighted bf =
      if is_topology_equivalent same (some topo) bf.machine_topology then skip_setting bf else (
        ok true,
        record bf { machine_topology = some topo; is_machine_topo_weighted = is_weighted },
      )

  -- The topology that `init` sets.
  abbrev first_topology :
      (ℕ → Result (DiGraph W)) → Option (ℕ → TopologyArg W) → M (Basics L W) (TopologyArg W)
  first_topology exponential_graph none = do
    topo ← reads (default_topology lib exponential_graph)
    return (graph topo)
  first_topology exponential_graph (some topology_fn) = do
    n ← reads (size lib)
    return (topology_fn n)

  module _ (exponential_graph : ℕ → Result (DiGraph W)) where
    -- Without an argument the exponential graph over all ranks is taken.
    unfoldable pub set_topology : TopologyArg W → Bool → M (Basics L W) Bool
    unfolding set_graph
    set_topology not_given is_weighted = do
      topo ← reads (default_topology lib exponential_graph)
      reads (local_rank lib)
      set_graph topo is_weighted
    set_topology no_graph is_weighted = throw type_error
    set_topology (graph topo) is_weighted = set_graph topo is_weighted

  -- The same for the topology of the machines, which the library is not told.
  unfoldable pub set_machine_topology : TopologyArg W → Bool → M (Basics L W) Bool
  unfolding set_machine_graph
  set_machine_topology not_given is_weighted = throw value_error
  set_machine_topology no_graph is_weighted = throw type_error
  set_machine_topology (graph topo) is_weighted = do
    homogeneous ← reads (is_homogeneous lib)
    require homogeneous assertion_error
    set_machine_graph topo is_weighted

  unfoldable pub shutdown : M (Basics L W) (Unit {0})
  shutdown = modify (λ bf. record bf {
    library = lib.bluefog_shutdown bf.library;
    topology = none;
    machine_topology = none;
  })

  -- `init`, with a function from the size to the topology, or with none.
  unfoldable pub init :
      (ℕ → Result (DiGraph W)) → Option (ℕ → TopologyArg W) → Bool → M (Basics L W) Bool
  unfolding set_topology
  init exponential_graph topology_fn is_weighted = do
    modify (λ bf. record bf { library = lib.bluefog_init bf.library })
    topology ← first_topology exponential_graph topology_fn
    set_topology exponential_graph topology is_weighted
