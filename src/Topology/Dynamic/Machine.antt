-- ===== src/Topology/Dynamic/Machine.antt =====
-- `GetExp2DynamicSendRecvMachineRanks`: whole machines exchange, at distances that run through the
-- powers of two.
pub mod Match
use bluefog.Common.{
  ℕ, ◌+◌, ◌*◌, ◌/◌, ◌%◌, ◌^◌, ltb, ◌==◌, if◌then◌else◌, Result, ok, raise, ◌>>=◌, ◌>>◌, check,
  assertion_error, zero_division_error, floor_div, modulo,
}
use bluefog.Common.Arith.{sub_mod}
use bluefog.Topology.Dynamic.Log.{log2_pred}
use bluefog.Topology.Dynamic.Peers.{Yield, one_peer}

module _ (int_log2 : ℕ → Result ℕ) where
  -- `exp_2_size`
  pub exp2_size : ℕ → Result ℕ
  exp2_size machine_size = if ltb 1 machine_size then log2_pred int_log2 machine_size else ok 0

  unfoldable pub exp2_machine_ranks :
      (world_size local_size self_rank local_rank index : ℕ) → Result Yield
  unfolding exp2_size
  exp2_machine_ranks world_size local_size self_rank local_rank index = do
    remainder ← modulo self_rank local_size
    check (remainder == local_rank) assertion_error
    rest ← modulo world_size local_size
    check (rest == 0) assertion_error
    check (ltb local_size world_size) assertion_error
    machine_id ← floor_div self_rank local_size
    machine_size ← floor_div world_size local_size
    exp_2_size ← exp2_size machine_size
    let machine_dist = 2 ^ (index % (exp_2_size + 1))
    send_machine_rank ← modulo (machine_id + machine_dist) machine_size
    recv_machine_rank ←
        (if machine_size == 0
          then raise zero_division_error
          else ok (sub_mod machine_id machine_dist machine_size))
    ok (one_peer send_machine_rank recv_machine_rank)
