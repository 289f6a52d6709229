-- ===== src/Topology/Dynamic/Ring.antt =====
-- `GetInnerOuterRingDynamicSendRecvRanks`: in iteration `index` one local rank of each machine
-- talks to the next machine, and the others form a ring inside their machine.
pub mod Inside
pub mod Match
use bluefog.Common.{
  ℕ, ◌+◌, ◌*◌, ◌/◌, ◌%◌, ltb, ◌==◌, if◌then◌else◌, Result, ok, raise, ◌>>=◌, ◌>>◌, check,
  assertion_error, zero_division_error, floor_div, modulo,
}
use bluefog.Common.Arith.{sub_mod}
use bluefog.Topology.Dynamic.Peers.{Yield, one_peer}

-- The branch of the local rank that goes outside.
pub go_outside : (num_machines nodes_per_machine machine_id local_rank_id : ℕ) → Result Yield
go_outside num_machines nodes_per_machine machine_id local_rank_id =
    if num_machines == 0
    then raise zero_division_error
    else let target_machine_id = (machine_id + 1) % num_machines in
      let source_machine_id = sub_mod machine_id 1 num_machines in
      ok (
        one_peer (target_machine_id * nodes_per_machine + local_rank_id)
          (source_machine_id * nodes_per_machine + local_rank_id))

-- The next local rank of the ring that leaves out the one that goes outside.
unfoldable pub inner_target : (nodes_per_machine out local_rank_id : ℕ) → ℕ
inner_target nodes_per_machine out local_rank_id =
    let target = (local_rank_id + 1) % nodes_per_machine in
    if target == out then (target + 1) % nodes_per_machine else target

-- The previous one.
unfoldable pub inner_source : (nodes_per_machine out local_rank_id : ℕ) → ℕ
inner_source nodes_per_machine out local_rank_id =
    let source = sub_mod local_rank_id 1 nodes_per_machine in
    if source == out then sub_mod source 1 nodes_per_machine else source

-- The body of the loop, at `index`.
pub ring_step : (num_machines nodes_per_machine self_rank index : ℕ) → Result Yield
unfolding go_outside inner_target inner_source
ring_step num_machines nodes_per_machine self_rank index =
    let machine_id = self_rank / nodes_per_machine in
    let local_rank_id = self_rank % nodes_per_machine in
    let out = index % nodes_per_machine in
    if out == local_rank_id
    then go_outside num_machines nodes_per_machine machine_id local_rank_id
    else ok (
        one_peer (inner_target nodes_per_machine out local_rank_id + machine_id * nodes_per_machine)
          (inner_source nodes_per_machine out local_rank_id + machine_id * nodes_per_machine))

unfoldable pub inner_outer_ring : (world_size local_size self_rank index : ℕ) → Result Yield
unfolding ring_step
inner_outer_ring world_size local_size self_rank index = do
  num_machines ← floor_div world_size local_size
  rest ← modulo world_size local_size
  check (rest == 0) assertion_error
  check (ltb 2 local_size) assertion_error
  ring_step num_machines local_size self_rank index
