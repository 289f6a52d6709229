-- ===== src/Topology/Dynamic/Machine/Match.antt =====
-- The machines that exchange name each other, and none exchanges with itself.
use bluefog.Common.{ℕ, ◌+◌, ◌-◌, ◌*◌, ◌%◌, ◌^◌, ◌<◌, ◌≡◌, ◌≢◌, arith, Result, ok}
use bluefog.Common.Arith.{
  sub_mod, add_mod-lt, sub_mod-lt, sub_mod-add_mod, add_mod-sub_mod, add_mod_small, sub_mod_small,
  div-add-mul, mod-add-mul, mul-div, mul-mod, lt-mul,
}
use bluefog.Topology.Dynamic.Log.{IsIntLog2, pow_mod-le, pow_pos}
use bluefog.Topology.Dynamic.Machine.{exp2_machine_ranks}
use bluefog.Topology.Dynamic.Peers.{one_peer, Matched}

module _ (int_log2 : ℕ → Result ℕ) (log : IsIntLog2 int_log2) where
  -- The distance of the machines in iteration `index`.
  pub machine_dist : ℕ → ℕ → ℕ
  machine_dist m index = 2 ^ (index % (log.exponent (m - 1) + 1))

  exp2_machine_ranks-yield :
      (m n M l index : ℕ)
      → 1 < m
      → l < n
      → exp2_machine_ranks int_log2 (m * n) n (l + M * n) l index
        ≡ ok (one_peer ((M + machine_dist m index) % m) (sub_mod M (machine_dist m index) m))
  unfolding exp2_machine_ranks machine_dist
  exp2_machine_ranks-yield m n M l index h k = ground (
    arith,
    mod-add-mul l M n k,
    div-add-mul l M n k,
    mul-mod m n,
    mul-div m n,
    lt-mul m n h,
    log.rounds (m - 1),
  )

  dist-range : (m index : ℕ) → 1 < m → (0 < machine_dist m index) × (machine_dist m index < m)
  unfolding machine_dist
  dist-range m index h = (
    pow_pos _,
    let l = pow_mod-le index (log.exponent (m - 1)) (m - 1) (log.low (m - 1) (omega arith)) in
        omega (arith, l),
  )

  -- Over two machines or more, and for any local rank `l`, the machines are matched in every
  -- iteration, and none is its own destination or source.
  pub exp2_machine_ranks-Matched :
      (m n l index : ℕ)
      → 1 < m
      → l < n
      → (peers : Matched m (λ M. exp2_machine_ranks int_log2 (m * n) n (l + M * n) l index))
        × ((M : ℕ) → M < m → (peers.send M ≢ M) × (peers.recv M ≢ M))
  exp2_machine_ranks-Matched m n l index h k =
      let d = machine_dist m index in
      let r = dist-range m index h in
      (
        record {
          send = λ M. (M + d) % m;
          recv = λ M. sub_mod M d m;
          yielded = λ M _. exp2_machine_ranks-yield m n M l index h k;
          send_in_range = λ M _. add_mod-lt M d m (omega arith);
          recv_in_range = λ M _. sub_mod-lt M d m (omega arith);
          agree = λ a b p q.
              (λ e. rw (← e) (sub_mod-add_mod a d m p), λ e. rw (← e) (add_mod-sub_mod b d m q));
        },
        λ M p.
            (ground (arith, add_mod_small M d m p r.1), ground (arith, sub_mod_small M d m p r.1)),
      )
