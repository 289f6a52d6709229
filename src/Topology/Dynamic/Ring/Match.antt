-- ===== src/Topology/Dynamic/Ring/Match.antt =====
-- Both ends of every exchange of the inner-outer ring name each other.
use bluefog.Common.{ℕ, ◌*◌, ◌%◌, ◌<◌, ◌≡◌, arith, ok}
use bluefog.Common.Arith.{mul-div, mul-mod}
use native.Mathlib.Nat.{mod-lt}
use bluefog.Topology.Dynamic.Grid.{Inner, grid_send, grid_recv, grid-Matched}
use bluefog.Topology.Dynamic.Peers.{one_peer, Matched, Apart}
use bluefog.Topology.Dynamic.Ring.Inside.{
  target-lt, source-lt, target-ne-out, source-ne-out, source-target, target-source, target-ne_self,
}
use bluefog.Topology.Dynamic.Ring.{
  inner_target, inner_source, go_outside, ring_step, inner_outer_ring,
}

module _ (n out : ℕ) (large : 2 < n) (out_lt : out < n) where
  ring-Inner : Inner n out (inner_target n out) (inner_source n out)
  ring-Inner = record {
    target_lt = target-lt n out large out_lt;
    source_lt = source-lt n out large out_lt;
    target_ne = λ l h _. target-ne-out n out large out_lt l h;
    source_ne = λ l h _. source-ne-out n out large out_lt l h;
    source_of_target = source-target n out large out_lt;
    target_of_source = target-source n out large out_lt;
  }

module _ (m n : ℕ) (machines : 0 < m) (large : 2 < n) (index : ℕ) where
  inner_outer_ring-yield :
      (a : ℕ)
      → inner_outer_ring (m * n) n a index
        ≡ ok (
            one_peer
              (grid_send m n
                (index % n)
                1
                (inner_target n (index % n))
                (inner_source n (index % n))
                a)
              (grid_recv m n
                (index % n)
                1
                (inner_target n (index % n))
                (inner_source n (index % n))
                a))
  unfolding inner_outer_ring ring_step go_outside grid_send grid_recv
  inner_outer_ring-yield a = ground (arith, mul-mod m n, mul-div m n)

  -- Over one machine or more, of more than two ranks each, the ranks of the run are matched in
  -- every iteration, and over two machines or more none is its own destination or source.
  pub inner_outer_ring-Matched :
      (peers : Matched (m * n) (λ a. inner_outer_ring (m * n) n a index)) × (1 < m → Apart peers)
  inner_outer_ring-Matched =
      let out = index % n in
      let inner = ring-Inner n out large (mod-lt index {m = n} (omega arith)) in
      let (peers, apart) =
        grid-Matched m n out 1 (inner_target n out) (inner_source n out) machines (omega arith)
          inner (λ a. inner_outer_ring (m * n) n a index) (λ a _. inner_outer_ring-yield a) in
      (
        peers,
        λ several.
            apart (omega arith) several
              (target-ne_self n out large (mod-lt index {m = n} (omega arith))),
      )
