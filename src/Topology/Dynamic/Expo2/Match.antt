-- ===== src/Topology/Dynamic/Expo2/Match.antt =====
-- Both ends of every exchange of the inner and outer exponential rings name each other.
use bluefog.Common.{
  ℕ, ◌+◌, ◌-◌, ◌*◌, ◌%◌, ◌^◌, ◌≤◌, ◌<◌, ◌≡◌, arith, Result, ok, raise, overflow_error,
}
use bluefog.Common.Arith.{mul-div, mul-mod}
use native.Mathlib.Nat.{mod-lt}
use bluefog.Topology.Dynamic.Log.{IsIntLog2, pow_mod-le, pow_pos}
use bluefog.Topology.Dynamic.Grid.{Inner, grid_send, grid_recv, grid-Matched}
use bluefog.Topology.Dynamic.Peers.{one_peer, Matched, Apart}
use bluefog.Topology.Dynamic.Expo2.Inside.{
  target-lt, source-lt, target-ne-out, source-ne-out, source-target, target-source, target-ne_self,
}
use bluefog.Topology.Dynamic.Expo2.{inner_target, inner_source, inner_outer_expo2}

module _ (n out d : ℕ) (out_lt : out < n) (positive : 0 < d) (short : d + 2 ≤ n) where
  expo2-Inner : Inner n out (inner_target n out d) (inner_source n out d)
  expo2-Inner = record {
    target_lt = target-lt n out d out_lt positive short;
    source_lt = source-lt n out d out_lt positive short;
    target_ne = target-ne-out n out d out_lt positive short;
    source_ne = source-ne-out n out d out_lt positive short;
    source_of_target = source-target n out d out_lt positive short;
    target_of_source = target-source n out d out_lt positive short;
  }

module _ (int_log2 : ℕ → Result ℕ) (log : IsIntLog2 int_log2) where
  -- The distances in iteration `index`, between machines and inside one.
  outer_dist : ℕ → ℕ → ℕ
  outer_dist m index = 2 ^ (index % (log.exponent (m - 1) + 1))

  inner_dist : ℕ → ℕ → ℕ
  inner_dist n index = 2 ^ (index % (log.exponent (n - 2) + 1))

  inner_dist-short : (n index : ℕ) → 2 < n → inner_dist n index + 2 ≤ n
  unfolding inner_dist
  inner_dist-short n index h =
      let l = pow_mod-le index (log.exponent (n - 2)) (n - 2) (log.low (n - 2) (omega arith)) in
      omega (arith, l)

  outer_dist-lt : (m index : ℕ) → 1 < m → outer_dist m index < m
  unfolding outer_dist
  outer_dist-lt m index h =
      let l = pow_mod-le index (log.exponent (m - 1)) (m - 1) (log.low (m - 1) (omega arith)) in
      omega (arith, l)

  module _ (m n : ℕ) (machines : 1 < m) (large : 2 < n) (index : ℕ) where
    expo2-yield :
        (a : ℕ)
        → inner_outer_expo2 int_log2 (m * n) n a index
          ≡ ok (
              one_peer
                (grid_send m n
                  (index % n)
                  (outer_dist m index)
                  (inner_target n (index % n) (inner_dist n index))
                  (inner_source n (index % n) (inner_dist n index))
                  a)
                (grid_recv m n
                  (index % n)
                  (outer_dist m index)
                  (inner_target n (index % n) (inner_dist n index))
                  (inner_source n (index % n) (inner_dist n index))
                  a))
    unfolding inner_outer_expo2 grid_send grid_recv inner_dist outer_dist
    expo2-yield a = ground (arith, mul-mod m n, mul-div m n, log.rounds (m - 1), log.rounds (n - 2))

    -- Over two machines or more, of more than two ranks each, the ranks of the run are matched in
    -- every iteration, and none is its own destination or source.
    pub inner_outer_expo2-Matched :
        (peers : Matched (m * n) (λ a. inner_outer_expo2 int_log2 (m * n) n a index)) × Apart peers
    unfolding outer_dist inner_dist
    inner_outer_expo2-Matched =
        let out = index % n in
        let d = inner_dist n index in
        let out_lt : out < n = mod-lt index {m = n} (omega arith) in
        let short = inner_dist-short n index large in
        let (peers, apart) =
          grid-Matched m n out (outer_dist m index) (inner_target n out d) (inner_source n out d)
            (omega arith) (omega arith) (expo2-Inner n out d out_lt (pow_pos _) short)
            (λ a. inner_outer_expo2 int_log2 (m * n) n a index) (λ a _. expo2-yield a) in
        (
          peers,
          apart (pow_pos _) (outer_dist-lt m index machines)
              (target-ne_self n out d out_lt (pow_pos _) short),
        )

-- On a single machine of more than two ranks the generator raises an overflow error at its first
-- iteration.
pub inner_outer_expo2_one_machine :
    (int_log2 : ℕ → Result ℕ)
    → IsIntLog2 int_log2
    → (n a index : ℕ) → 2 < n
    → inner_outer_expo2 int_log2 n n a index ≡ raise overflow_error
unfolding inner_outer_expo2
inner_outer_expo2_one_machine int_log2 log n a index h =
    ground (arith, log.of_zero, mul-div 1 n, mul-mod 1 n)
