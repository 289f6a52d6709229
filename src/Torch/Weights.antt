-- ===== src/Torch/Weights.antt =====
-- `neighbor_allreduce_nonblocking` and `_neighbor_allreduce_nonblocking`: what the arguments and
-- the topology make of the call of the library.
pub mod Sound
use bluefog.Common.{
  ℕ, zero, suc, ◌+◌, ◌*◌, Bool, true, false, not, ◌&&◌, ◌||◌, ◌==◌, if◌then◌else◌, Option, none,
  some, List, [], ◌∷◌, length, Result, ok, raise, ◌>>=◌, ◌>>◌, check, value_error, type_error,
  runtime_error,
}
use bluefog.Common.Dict.{Dict, keys, values, constant}
use bluefog.Common.Ranks.{elem, distinct}
use bluefog.Topology.Graph.{DiGraph}
use bluefog.Topology.Weights.{get_recv_weights}
use bluefog.Basics.Library.{Library, Basics}
use bluefog.Basics.Queries.{rank, in_neighbor_ranks}

-- The floats of the weights, as far as the code computes with them.
pub record Floats (F : Type 0) : Type 0 where
  pub zero_weight : F
  pub one_weight : F
  -- `1.0 / n`
  pub reciprocal : ℕ → F
  -- `abs(a - b) > 1e-6`
  pub far : F → F → Bool

-- `set(xs).issubset(set(ys))`
abbrev pub subset : List ℕ → List ℕ → Bool
subset [] ys = true
subset (x ∷ xs) ys = elem x ys && subset xs ys

-- What the library is called with, besides the tensors and the name.
pub record Plan (F : Type 0) : Type 0 where
  pub self_weight : F
  pub neighbor_weights : Dict F
  pub send_neighbors : List ℕ
  pub dynamic_neighbors_enabled : Bool
  pub weighted_average_computation : Bool

module _ {F : Type 0} (fl : Floats F) where
  -- Some weight is not the uniform one.
  abbrev pub any_far : F → List F → Bool
  any_far uniform [] = false
  any_far uniform (w ∷ ws) = fl.far w uniform || any_far uniform ws

  -- `weighted_average_computation` for weights that the caller gives.
  pub needs_weights : F → Dict F → Bool
  needs_weights self_weight neighbor_weights =
      let uniform = fl.reciprocal (length neighbor_weights + 1) in
      fl.far self_weight uniform || any_far uniform (values neighbor_weights)

  -- `send_neighbors` and `dynamic_neighbors_enabled`.
  pub send_plan : Option F → Option (Dict F) → Option (List ℕ) → Result (List ℕ × Bool)
  send_plan self_weight neighbor_weights none = ok ([], false)
  send_plan (some _) (some _) (some []) = raise value_error
  send_plan (some _) (some _) (some (r ∷ rs)) = do
    check (distinct (r ∷ rs)) value_error
    ok (r ∷ rs, true)
  send_plan _ _ (some rs) = raise value_error

  module _ {L : Type 0} (lib : Library L F) where
    -- The weights out of a weighted topology. Without a topology networkx raises.
    abbrev pub topology_weights : Basics L F → Option (DiGraph F) → Result (F × Dict F)
    topology_weights bf none = raise runtime_error
    topology_weights bf (some topo) = do
      r ← rank lib bf
      ok (get_recv_weights fl.zero_weight topo r)

    -- The weights of a static graph: those of the topology, or uniform ones.
    unfoldable pub static_plan : Basics L F → List ℕ → Bool → Result (Plan F)
    static_plan bf sends dynamic =
        if bf.is_topo_weighted
        then (do
          (own, others) ← topology_weights bf bf.topology
          ok (record {
            self_weight = own;
            neighbor_weights = others;
            send_neighbors = sends;
            dynamic_neighbors_enabled = dynamic;
            weighted_average_computation = true;
          }))
        else (do
          ins ← in_neighbor_ranks lib bf
          let weight = fl.reciprocal (length ins + 1)
          ok (record {
            self_weight = weight;
            neighbor_weights = constant weight ins;
            send_neighbors = sends;
            dynamic_neighbors_enabled = dynamic;
            weighted_average_computation = false;
          }))

    -- The weights that the caller gives. They are held against the in-neighbors only in a static
    -- graph.
    unfoldable pub given_plan : Basics L F → F → Dict F → List ℕ → Bool → Result (Plan F)
    unfolding needs_weights
    given_plan bf self_weight neighbor_weights sends dynamic = do
      (if dynamic then ok tt else (do
        ins ← in_neighbor_ranks lib bf
        check (subset (keys neighbor_weights) ins) value_error))
      ok (record {
        self_weight = self_weight;
        neighbor_weights = neighbor_weights;
        send_neighbors = sends;
        dynamic_neighbors_enabled = dynamic;
        weighted_average_computation = needs_weights self_weight neighbor_weights;
      })

    abbrev choose_plan : Basics L F → Option F → Option (Dict F) → List ℕ × Bool → Result (Plan F)
    choose_plan bf none none (sends, dynamic) = static_plan bf sends dynamic
    choose_plan bf (some own) (some others) (sends, dynamic) =
        given_plan bf own others sends dynamic
    choose_plan bf _ _ sends = raise value_error

    -- `_neighbor_allreduce_nonblocking`, up to the call.
    unfoldable pub plan :
        Basics L F → Option F → Option (Dict F) → Option (List ℕ) → Result (Plan F)
    unfolding send_plan
    plan bf self_weight neighbor_weights send_neighbors = do
      sends ← send_plan self_weight neighbor_weights send_neighbors
      choose_plan bf self_weight neighbor_weights sends

    -- The length of the output's first dimension.
    abbrev pub first_dim : Basics L F → ℕ → Option (Dict F) → Option (List ℕ) → Result ℕ
    first_dim bf rows neighbor_weights none = do
      ins ← in_neighbor_ranks lib bf
      ok (rows * length ins)
    first_dim bf rows none (some sends) = raise type_error
    first_dim bf rows (some others) (some sends) = ok (rows * length others)

    -- One weight is given and the other is not.
    abbrev pub given_together : Option F → Option (Dict F) → Bool
    given_together none none = true
    given_together (some _) (some _) = true
    given_together _ _ = false

    -- `neighbor_allreduce_nonblocking` for a tensor with `rows` rows, up to the call: the rows of
    -- the output, and the arguments.
    unfoldable pub neighbor_allreduce_plan :
        Basics L F → ℕ → Option F → Option (Dict F) → Option (List ℕ) → Result (ℕ × Plan F)
    unfolding plan
    neighbor_allreduce_plan bf rows self_weight neighbor_weights send_neighbors = do
      check (given_together self_weight neighbor_weights) value_error
      output_rows ← first_dim bf rows neighbor_weights send_neighbors
      p ← plan bf self_weight neighbor_weights send_neighbors
      ok (output_rows, p)

    -- The weights that the caller gives, or the weight one for each of the ranks.
    abbrev pub weights_or_one : List ℕ → Option (Dict F) → Dict F
    weights_or_one ranks none = constant fl.one_weight ranks
    weights_or_one ranks (some given) = given

    -- The weights of the ranks at the other end of a one-sided operation: all of them with the
    -- weight one, or those that the caller gives; weights of other ranks are refused.
    unfoldable pub peer_weights : Result (List ℕ) → Option (Dict F) → Result (Dict F)
    peer_weights ranks given = do
      rs ← ranks
      let weights = weights_or_one rs given
      check (subset (keys weights) rs) value_error
      ok weights

    -- The weights of `win_update`, and whether they are more than an average.
    unfoldable pub update_weights :
        Basics L F → Option F → Option (Dict F) → Result (F × Dict F × Bool)
    unfolding static_plan
    update_weights bf none none = do
      p ← static_plan bf [] false
      ok (p.self_weight, p.neighbor_weights, p.weighted_average_computation)
    update_weights bf (some own) (some others) = do
      ins ← in_neighbor_ranks lib bf
      check (subset (keys others) ins) value_error
      ok (own, others, true)
    update_weights bf _ _ = raise value_error

    -- The arguments of the call of `win_update` that `win_update_then_collect` makes.
    unfoldable pub collect_weights : Basics L F → Result (F × Dict F)
    collect_weights bf = do
      ins ← in_neighbor_ranks lib bf
      ok (fl.one_weight, constant fl.one_weight ins)
