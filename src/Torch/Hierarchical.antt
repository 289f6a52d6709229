-- ===== src/Torch/Hierarchical.antt =====
-- `hierarchical_neighbor_allreduce` and its nonblocking variant: neighbors are machines, and a
-- machine stands for its first rank.
pub mod Calls
pub mod Ranks
use bluefog.Common.{
  ℕ, ◌+◌, ◌*◌, Bool, true, false, ltb, leb, if◌then◌else◌, Option, none, some, List, [], ◌∷◌, map,
  length, Result, ok, raise, ◌>>=◌, ◌>>◌, floor_div, value_error, type_error, runtime_error,
  assertion_error,
}
use bluefog.Common.Dict.{Dict, assign, constant}
use bluefog.Topology.Graph.{DiGraph}
use bluefog.Topology.Weights.{get_recv_weights}
use bluefog.Basics.Library.{Library, Basics}
use bluefog.Basics.Queries.{
  size, local_size, machine_rank, in_neighbor_machine_ranks, out_neighbor_machine_ranks,
}
use bluefog.Torch.Weights.{Floats, Plan, needs_weights}

-- The loop that makes `neighbor_weights` out of the weights of machines.
unfoldable pub to_ranks :
    {F : Type 0} → (node_per_machine machine_size : ℕ) → Dict F → Dict F → Result (Dict F)
to_ranks node_per_machine machine_size [] neighbor_weights = ok neighbor_weights
to_ranks node_per_machine machine_size ((m, w) ∷ rest) neighbor_weights =
    let translated =
      to_ranks node_per_machine machine_size rest
        (assign (node_per_machine * m) w neighbor_weights) in
    if leb machine_size m then raise value_error else translated

module _ {F : Type 0} (fl : Floats F) {L : Type 0} (lib : Library L F) where
  -- The self weight, the weights of machines, and whether they are more than an average, in a
  -- static graph of machines.
  unfoldable pub static_weights : Basics L F → Option (DiGraph F) → Result (F × Dict F × Bool)
  static_weights bf none = raise runtime_error
  static_weights bf (some topo) =
      if bf.is_machine_topo_weighted
      then (do
        r ← machine_rank lib bf
        let weights = get_recv_weights fl.zero_weight topo r
        ok (weights.0, weights.1, true))
      else (do
        ins ← in_neighbor_machine_ranks lib bf
        let weight = fl.reciprocal (length ins + 1)
        ok (weight, constant weight ins, false))

  -- The weights and the machines to send to.
  unfoldable pub machine_plan :
      Basics L F
      → Option F
      → Option (Dict F)
      → Option (List ℕ)
      → Result (F × Dict F × Bool × List ℕ)
  unfolding static_weights
  machine_plan bf none none none = do
    (own, others, weighted) ← static_weights bf bf.machine_topology
    outs ← out_neighbor_machine_ranks lib bf
    ok (own, others, weighted, outs)
  machine_plan bf (some own) (some others) none = raise value_error
  machine_plan bf (some own) (some others) (some []) = raise value_error
  machine_plan bf (some own) (some others) (some (m ∷ ms)) =
      ok (own, others, needs_weights fl own others, m ∷ ms)
  machine_plan bf _ _ _ = raise value_error

  -- The arguments of the call of the extension.
  unfoldable pub hierarchical_plan :
      Basics L F → Option F → Option (Dict F) → Option (List ℕ) → Result (Plan F)
  unfolding machine_plan
  hierarchical_plan bf self_weight neighbor_machine_weights send_neighbor_machines = do
    (own, others, weighted, sends) ←
        machine_plan bf self_weight neighbor_machine_weights send_neighbor_machines
    n ← size lib bf
    node_per_machine ← local_size lib bf
    machine_size ← floor_div n node_per_machine
    neighbor_weights ← to_ranks node_per_machine machine_size others []
    ok (record {
      self_weight = own;
      neighbor_weights = neighbor_weights;
      send_neighbors = map (λ m. node_per_machine * m) sends;
      dynamic_neighbors_enabled = true;
      weighted_average_computation = weighted;
    })

  -- The length of the output's first dimension.
  abbrev pub machine_first_dim : Basics L F → ℕ → Option (Dict F) → Option (List ℕ) → Result ℕ
  machine_first_dim bf rows neighbor_machine_weights none = do
    ins ← in_neighbor_machine_ranks lib bf
    ok (rows * length ins)
  machine_first_dim bf rows none (some sends) = raise type_error
  machine_first_dim bf rows (some others) (some sends) = ok (rows * length others)
