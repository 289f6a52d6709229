-- ===== src/Topology/Dynamic/Expo2.antt =====
-- `GetInnerOuterExpo2DynamicSendRecvRanks`: in iteration `index` one local rank of each machine
-- talks to another machine, at a distance that is a power of two, and the others exchange inside
-- their machine at such distances, leaving that local rank out.
pub mod Inside
pub mod Match
use bluefog.Common.{
  ℕ, ◌+◌, ◌-◌, ◌*◌, ◌/◌, ◌%◌, ◌^◌, ltb, leb, ◌==◌, if◌then◌else◌, Result, ok, raise, ◌>>=◌, ◌>>◌,
  check, assertion_error, zero_division_error, floor_div, modulo,
}
use bluefog.Common.Arith.{sub_mod}
use bluefog.Topology.Dynamic.Log.{log2_pred}
use bluefog.Topology.Dynamic.Peers.{Yield, one_peer}

-- The branch of the local rank that goes outside.
pub go_outside :
    (exp_2_out_size num_machines nodes_per_machine machine_id local_rank_id index : ℕ)
    → Result Yield
go_outside exp_2_out_size num_machines nodes_per_machine machine_id local_rank_id index =
    let next_machine_dist = 2 ^ (index % (exp_2_out_size + 1)) in
    if num_machines == 0
    then raise zero_division_error
    else ok (
        one_peer
          ((machine_id + next_machine_dist) % num_machines * nodes_per_machine + local_rank_id)
          (sub_mod machine_id next_machine_dist num_machines * nodes_per_machine + local_rank_id))

-- A distance that would reach the local rank outside, or pass it, is one longer.
abbrev pub leave_out : (dist_to_out dist : ℕ) → ℕ
leave_out dist_to_out dist = if leb dist_to_out dist then dist + 1 else dist

unfoldable pub inner_target : (nodes_per_machine out dist local_rank_id : ℕ) → ℕ
inner_target nodes_per_machine out dist local_rank_id =
    let dist_to_out = sub_mod out local_rank_id nodes_per_machine in
    (local_rank_id + leave_out dist_to_out dist) % nodes_per_machine

unfoldable pub inner_source : (nodes_per_machine out dist local_rank_id : ℕ) → ℕ
inner_source nodes_per_machine out dist local_rank_id =
    let reverse_dist_to_out = sub_mod local_rank_id out nodes_per_machine in
    sub_mod local_rank_id (leave_out reverse_dist_to_out dist) nodes_per_machine

-- The body of the loop, at `index`.
pub expo2_step :
    (exp_2_out_size exp_2_in_size num_machines nodes_per_machine self_rank index : ℕ) → Result Yield
unfolding go_outside
expo2_step exp_2_out_size exp_2_in_size num_machines nodes_per_machine self_rank index =
    let machine_id = self_rank / nodes_per_machine in
    let local_rank_id = self_rank % nodes_per_machine in
    let out = index % nodes_per_machine in
    let inner_dist = 2 ^ (index % (exp_2_in_size + 1)) in
    if out == local_rank_id
    then go_outside exp_2_out_size num_machines nodes_per_machine machine_id local_rank_id index
    else ok (
        one_peer
          (inner_target nodes_per_machine out inner_dist local_rank_id
            + machine_id * nodes_per_machine)
          (inner_source nodes_per_machine out inner_dist local_rank_id
            + machine_id * nodes_per_machine))

module _ (int_log2 : ℕ → Result ℕ) where
  -- `exp_2_in_size`
  pub in_size : ℕ → Result ℕ
  in_size nodes_per_machine =
      if nodes_per_machine == 2 then ok 0 else int_log2 (nodes_per_machine - 2)

  unfoldable pub inner_outer_expo2 : (world_size local_size self_rank index : ℕ) → Result Yield
  unfolding in_size expo2_step
  inner_outer_expo2 world_size local_size self_rank index = do
    num_machines ← floor_div world_size local_size
    rest ← modulo world_size local_size
    check (rest == 0) assertion_error
    check (ltb 2 local_size) assertion_error
    exp_2_out_size ← log2_pred int_log2 num_machines
    exp_2_in_size ← in_size local_size
    expo2_step exp_2_out_size exp_2_in_size num_machines local_size self_rank index
