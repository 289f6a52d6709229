-- ===== src/Torch/Handles.antt =====
-- The handles of nonblocking operations: `_handle_map`, and the calls that wait for a handle.
pub mod Lifecycle
use Prim.Native.String.{String}
use bluefog.Common.{
  ℕ, Bool, true, false, if◌then◌else◌, Option, none, some, List, length, Result, ok, raise,
  value_error, assertion_error,
}
use bluefog.Common.Stateful.{M, ◌>>=◌, ◌>>◌, return, reads, throw, modify, require}
use bluefog.Common.Dict.{Dict, lookup, assign, delete}
use bluefog.Common.Names.{Names}
use bluefog.Basics.Library.{Library, Basics}
use bluefog.Torch.Weights.{Floats, Plan, given_together, first_dim, plan}

-- The operations whose library function is looked up by the type of the tensor.
pub data Operation : Type 0 where
  allreduce_op broadcast_op allgather_op neighbor_allgather_op neighbor_allreduce_op : Operation
  pair_gossip_op win_create_op win_update_op win_put_op win_accumulate_op : Operation

-- What the module asks of tensors, which torch provides. `rows` is `shape[0]`; `fresh` makes the
-- output of an operation with so many rows.
pub record Tensors (T : Type 0) : Type 0 where
  pub tensor_type : T → String
  pub is_contiguous : T → Bool
  pub is_floating : T → Bool
  pub rows : T → ℕ
  pub fresh : T → ℕ → T
  pub clone : T → T

-- What the C++ extension `mpi_lib` provides. A nonblocking call answers a handle, or raises before it
-- has one; a wait raises where the operation has failed.
pub record Extension (L T F : Type 0) : Type 0 where
  pub has_function : Operation → String → Bool
  pub allreduce : T → T → Bool → Bool → M L ℕ
  pub broadcast : T → T → ℕ → M L ℕ
  pub allgather : T → T → M L ℕ
  pub neighbor_allgather : T → T → M L ℕ
  -- the arguments, whether to check the topology, and whether the neighbors are machines
  pub neighbor_allreduce : T → T → Plan F → Bool → Bool → M L ℕ
  pub pair_gossip : T → T → ℕ → F → F → Bool → M L ℕ
  pub poll : ℕ → L → Bool
  pub wait_and_clear : ℕ → M L (Unit {0})

-- The module's state, with the object `_basics`. `win_map` maps the names of windows to tensors.
pub record Ops (L T F : Type 0) : Type 0 where
  pub basics : Basics L F
  pub handle_map : Dict (T × T)
  pub win_handle_map : Dict String
  pub win_map : Names T

-- A call of the extension.
abbrev pub on_library : {L T F A : Type 0} → M L A → M (Ops L T F) A
on_library call s =
    let (result, library) = call s.basics.library in
    (result, record s { basics = record (s.basics) { library = library } })

module _ {L T F : Type 0} (tensors : Tensors T) (ext : Extension L T F) where
  -- `_check_function`
  unfoldable pub check_function : Operation → T → M (Ops L T F) (Unit {0})
  check_function operation tensor = do
    require (ext.has_function operation (tensors.tensor_type tensor)) value_error
    require (tensors.is_contiguous tensor) value_error

  -- The call of a function of the extension, whose answer is a handle, and the entry of the map.
  unfoldable pub start : T → T → M L ℕ → M (Ops L T F) ℕ
  start tensor output call = do
    handle ← on_library call
    modify (λ s. record s { handle_map = assign handle (tensor, output) s.handle_map })
    return handle

  unfoldable pub allreduce_start : T → T → Bool → Bool → M (Ops L T F) ℕ
  unfolding check_function start
  allreduce_start tensor output average is_hierarchical_local = do
    check_function allreduce_op tensor
    (if average then require (tensors.is_floating tensor) assertion_error else return tt)
    start tensor output (ext.allreduce tensor output average is_hierarchical_local)

  unfoldable pub allreduce_nonblocking : T → Bool → Bool → M (Ops L T F) ℕ
  unfolding allreduce_start
  allreduce_nonblocking tensor average is_hierarchical_local =
      allreduce_start tensor (tensors.fresh tensor (tensors.rows tensor)) average
        is_hierarchical_local

  -- The variant that writes into its argument.
  unfoldable pub allreduce_nonblocking_ : T → Bool → Bool → M (Ops L T F) ℕ
  unfolding allreduce_start
  allreduce_nonblocking_ tensor average is_hierarchical_local =
      allreduce_start tensor tensor average is_hierarchical_local

  unfoldable pub broadcast_start : T → T → ℕ → M (Ops L T F) ℕ
  unfolding check_function start
  broadcast_start tensor output root_rank = do
    check_function broadcast_op tensor
    start tensor output (ext.broadcast tensor output root_rank)

  unfoldable pub broadcast_nonblocking : T → ℕ → M (Ops L T F) ℕ
  unfolding broadcast_start
  broadcast_nonblocking tensor root_rank =
      broadcast_start tensor (tensors.fresh tensor (tensors.rows tensor)) root_rank

  unfoldable pub broadcast_nonblocking_ : T → ℕ → M (Ops L T F) ℕ
  unfolding broadcast_start
  broadcast_nonblocking_ tensor root_rank = broadcast_start tensor tensor root_rank

  -- The output of a gather is made empty; the extension gives it its size.
  unfoldable pub allgather_nonblocking : T → M (Ops L T F) ℕ
  unfolding check_function start
  allgather_nonblocking tensor = do
    let output = tensors.fresh tensor 0
    check_function allgather_op tensor
    start tensor output (ext.allgather tensor output)

  unfoldable pub neighbor_allgather_nonblocking : T → M (Ops L T F) ℕ
  unfolding check_function start
  neighbor_allgather_nonblocking tensor = do
    let output = tensors.fresh tensor 0
    check_function neighbor_allgather_op tensor
    start tensor output (ext.neighbor_allgather tensor output)

  -- `synchronize` and `wait`. Where the wait raises, the entry of the map stays.
  unfoldable pub synchronize : ℕ → M (Ops L T F) T
  synchronize handle s = elim (lookup handle s.handle_map) [
    | none ↦ (raise value_error, s)
    | some (tensor, output) ↦
        (do
          on_library (ext.wait_and_clear handle)
          modify (λ t. record t { handle_map = delete handle t.handle_map })
          return output)
          s
  ]

  unfoldable pub poll : ℕ → M (Ops L T F) Bool
  poll handle = reads (λ s. ok (ext.poll handle s.basics.library))

  -- The blocking variants.
  unfoldable pub allreduce : T → Bool → Bool → M (Ops L T F) T
  unfolding allreduce_nonblocking synchronize
  allreduce tensor average is_hierarchical_local = do
    handle ← allreduce_nonblocking tensor average is_hierarchical_local
    synchronize handle

  unfoldable pub allreduce_ : T → Bool → Bool → M (Ops L T F) T
  unfolding allreduce_nonblocking_ synchronize
  allreduce_ tensor average is_hierarchical_local = do
    handle ← allreduce_nonblocking_ tensor average is_hierarchical_local
    synchronize handle

  unfoldable pub broadcast_ : T → ℕ → M (Ops L T F) T
  unfolding broadcast_nonblocking_ synchronize
  broadcast_ tensor root_rank = do
    handle ← broadcast_nonblocking_ tensor root_rank
    synchronize handle

  unfoldable pub broadcast : T → ℕ → M (Ops L T F) T
  unfolding broadcast_nonblocking synchronize
  broadcast tensor root_rank = do
    handle ← broadcast_nonblocking tensor root_rank
    synchronize handle

  unfoldable pub allgather : T → M (Ops L T F) T
  unfolding allgather_nonblocking synchronize
  allgather tensor = do handle ← allgather_nonblocking tensor; synchronize handle

  unfoldable pub neighbor_allgather : T → M (Ops L T F) T
  unfolding neighbor_allgather_nonblocking synchronize
  neighbor_allgather tensor = do handle ← neighbor_allgather_nonblocking tensor; synchronize handle

  -- `pair_gossip_nonblocking`: the weights are both given or both left out. Left out they are zero,
  -- and the extension averages.
  module _ (fl : Floats F) where
    abbrev pub gossip_weights : Option F → Option F → Result (F × F × Bool)
    gossip_weights none none = ok (fl.zero_weight, fl.zero_weight, true)
    gossip_weights (some self_weight) (some pair_weight) = ok (self_weight, pair_weight, false)
    gossip_weights _ _ = raise value_error

    unfoldable pub pair_gossip_nonblocking : T → ℕ → Option F → Option F → M (Ops L T F) ℕ
    unfolding check_function start
    pair_gossip_nonblocking tensor target_rank self_weight pair_weight = do
      (own, pair, averages) ← reads (λ _. gossip_weights self_weight pair_weight)
      let output = tensors.fresh tensor (tensors.rows tensor)
      check_function pair_gossip_op tensor
      start tensor output (ext.pair_gossip tensor output target_rank own pair averages)

    unfoldable pub pair_gossip : T → ℕ → Option F → Option F → M (Ops L T F) T
    unfolding pair_gossip_nonblocking synchronize
    pair_gossip tensor target_rank self_weight pair_weight = do
      handle ← pair_gossip_nonblocking tensor target_rank self_weight pair_weight
      synchronize handle

    module _ (lib : Library L F) where
      unfoldable pub neighbor_allreduce_nonblocking :
          T → Option F → Option (Dict F) → Option (List ℕ) → Bool → M (Ops L T F) ℕ
      unfolding check_function start
      neighbor_allreduce_nonblocking tensor self_weight neighbor_weights send_neighbors topo_check =
          do
            require (given_together fl lib self_weight neighbor_weights) value_error
            output_rows ← reads (λ s.
                first_dim fl lib s.basics (tensors.rows tensor) neighbor_weights send_neighbors)
            let output = tensors.fresh tensor output_rows
            check_function neighbor_allreduce_op tensor
            p ← reads (λ s. plan fl lib s.basics self_weight neighbor_weights send_neighbors)
            start tensor output (ext.neighbor_allreduce tensor output p topo_check false)

      unfoldable pub neighbor_allreduce :
          T → Option F → Option (Dict F) → Option (List ℕ) → Bool → M (Ops L T F) T
      unfolding neighbor_allreduce_nonblocking synchronize
      neighbor_allreduce tensor self_weight neighbor_weights send_neighbors topo_check = do
        handle ←
            neighbor_allreduce_nonblocking tensor self_weight neighbor_weights send_neighbors
              topo_check
        synchronize handle
