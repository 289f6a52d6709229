-- ===== src/Basics/Queries.antt =====
-- The methods of `BlueFogBasics` that ask for ranks, sizes and neighbors.
use bluefog.Common.{
  ℕ, Bool, Option, none, some, List, [], Result, ok, raise, ◌>>=◌, ◌>>◌, check, value_error,
  assertion_error, floor_div,
}
use bluefog.Common.Ranks.{without}
use bluefog.Topology.Graph.{DiGraph}
use bluefog.Basics.Library.{Library, Basics}

-- An answer of the library, where -1 raises.
abbrev pub initialized {ℓ} : {A : Type ℓ} → Option A → Result A
initialized none = raise value_error
initialized (some a) = ok a

module _ {L : Type 0} {W : Type 0} (lib : Library L W) where
  abbrev pub size : Basics L W → Result ℕ
  size bf = initialized (lib.bluefog_size bf.library)

  abbrev pub local_size : Basics L W → Result ℕ
  local_size bf = initialized (lib.bluefog_local_size bf.library)

  abbrev pub rank : Basics L W → Result ℕ
  rank bf = initialized (lib.bluefog_rank bf.library)

  abbrev pub local_rank : Basics L W → Result ℕ
  local_rank bf = initialized (lib.bluefog_local_rank bf.library)

  abbrev pub is_homogeneous : Basics L W → Result Bool
  is_homogeneous bf = initialized (lib.bluefog_is_homogeneous bf.library)

  unfoldable pub machine_rank : Basics L W → Result ℕ
  machine_rank bf = do
    homogeneous ← is_homogeneous bf
    check homogeneous assertion_error
    r ← rank bf
    l ← local_size bf
    floor_div r l

  unfoldable pub machine_size : Basics L W → Result ℕ
  machine_size bf = do
    homogeneous ← is_homogeneous bf
    check homogeneous assertion_error
    n ← size bf
    l ← local_size bf
    floor_div n l

  -- The neighbors of a rank that is computed, in a topology that may be missing.
  abbrev pub neighbors : Result ℕ → (DiGraph W → ℕ → List ℕ) → Option (DiGraph W) → Result (List ℕ)
  neighbors self of none = ok []
  neighbors self of (some topo) = do r ← self; ok (without r (of topo r))

  unfoldable pub in_neighbor_ranks : Basics L W → Result (List ℕ)
  in_neighbor_ranks bf = neighbors (rank bf) (λ topo r. topo.predecessors r) bf.topology

  unfoldable pub out_neighbor_ranks : Basics L W → Result (List ℕ)
  out_neighbor_ranks bf = neighbors (rank bf) (λ topo r. topo.successors r) bf.topology

  unfoldable pub in_neighbor_machine_ranks : Basics L W → Result (List ℕ)
  unfolding machine_rank
  in_neighbor_machine_ranks bf =
      neighbors (machine_rank bf) (λ topo r. topo.predecessors r) bf.machine_topology

  unfoldable pub out_neighbor_machine_ranks : Basics L W → Result (List ℕ)
  unfolding machine_rank
  out_neighbor_machine_ranks bf =
      neighbors (machine_rank bf) (λ topo r. topo.successors r) bf.machine_topology

  -- `ExponentialGraph(self.size())`
  abbrev pub default_topology : (ℕ → Result (DiGraph W)) → Basics L W → Result (DiGraph W)
  default_topology exponential_graph bf = do n ← size bf; exponential_graph n
