-- ===== src/Topology/Dynamic/OnePeer/Sends.antt =====
-- What each rank sends to: the neighbors of a rank with a self-loop, without itself.
use bluefog.Common.{
  ℕ, ◌-◌, ◌%◌, ◌<◌, ◌≡◌, ◌≢◌, ◌∙◌, arith, true, not, ◌&&◌, ◌==◌, List, map, length, get_or, ok,
  traverse,
}
use bluefog.Common.Ranks.{
  position, elem, range, sorted, remove, sorted-least, elem-sorted, length-sorted, elem-remove,
  length-remove, elem-get_or, item-get_or, item-map-range_from, elem-range_from, traverse-ok,
}
use native.Mathlib.Nat.{mod-lt}
use bluefog.Topology.Graph.{DiGraph, IsDiGraph}
use bluefog.Topology.Dynamic.OnePeer.{clockwise, drop_self, sorted_ranks, send_at}

-- Every rank of the graph has a self-loop and one more successor at least.
pub record HasPeers {ℓ} {W : Type ℓ} (topo : DiGraph W) : Type ℓ where
  pub graph : IsDiGraph topo
  pub self_loop : (a : ℕ) → a < topo.number_of_nodes → elem a (topo.successors a) ≡ true
  pub not_alone : (a : ℕ) → a < topo.number_of_nodes → 1 < topo.out_degree a

clockwise_self : (size a : ℕ) → clockwise size a a ≡ 0
unfolding clockwise
clockwise_self size a = ground arith

clockwise-pos : (size a b : ℕ) → a < size → b < size → b ≢ a → 0 < clockwise size a b
unfolding clockwise
clockwise-pos size a b h k n = ground arith

module _ {ℓ} {W : Type ℓ} (topo : DiGraph W) where
  -- The destinations of a rank, in the order of the clock.
  pub peers : ℕ → List ℕ
  peers a = sorted (clockwise topo.number_of_nodes a) (remove a (topo.successors a))

  -- The destination of a rank in an iteration.
  unfoldable pub send : ℕ → ℕ → ℕ
  send index a = get_or (peers a) (index % (topo.out_degree a - 1)) 0

  module _ (h : HasPeers topo) where
    open h use {graph, self_loop, not_alone}

    sorted_ranks-peers : (a : ℕ) → a < topo.number_of_nodes → sorted_ranks topo a ≡ ok (peers a)
    unfolding sorted_ranks peers
    sorted_ranks-peers a k =
        let e =
          sorted-least (clockwise topo.number_of_nodes a) a (topo.successors a)
            (clockwise_self topo.number_of_nodes a)
            (λ x m n. clockwise-pos topo.number_of_nodes a x k (graph.successors_in_range a x m) n)
            (self_loop a k) in
        rw (e, drop_self) (ground arith)

    length-peers : (a : ℕ) → a < topo.number_of_nodes → length (peers a) ≡ topo.out_degree a - 1
    unfolding peers
    length-peers a k = omega (
      arith,
      length-sorted (clockwise topo.number_of_nodes a) (remove a (topo.successors a)),
      length-remove a (topo.successors a) (self_loop a k),
      graph.counted a,
    )

    pub elem-peers : (a b : ℕ) → elem b (peers a) ≡ (elem b (topo.successors a) && not (b == a))
    unfolding peers
    elem-peers a b =
        elem-sorted (clockwise topo.number_of_nodes a) b (remove a (topo.successors a))
        ∙ elem-remove b a (topo.successors a) (graph.successors_distinct a)

    -- `sorted_send_ranks`
    pub traverse-peers :
        traverse (sorted_ranks topo) (range topo.number_of_nodes)
        ≡ ok (map peers (range topo.number_of_nodes))
    traverse-peers =
        traverse-ok (sorted_ranks topo) peers (range topo.number_of_nodes)
          (λ x m. sorted_ranks-peers x (ground (arith, elem-range_from x 0 topo.number_of_nodes)))

    place-lt :
        (a index : ℕ)
        → a < topo.number_of_nodes
        → index % (topo.out_degree a - 1) < length (peers a)
    place-lt a index k =
        let p = not_alone a k in
        let l = mod-lt index {m = topo.out_degree a - 1} (omega arith) in
        omega (arith, l, length-peers a k)

    pub send_at-send :
        (a index : ℕ)
        → a < topo.number_of_nodes
        → send_at topo (map peers (range topo.number_of_nodes)) a index ≡ ok (send index a)
    unfolding send_at send
    send_at-send a index k = ground (
      arith,
      not_alone a k,
      item-map-range_from peers 0 topo.number_of_nodes a k,
      item-get_or (peers a) (index % (topo.out_degree a - 1)) (place-lt a index k),
    )

    -- A rank sends to one of its successors, and not to itself.
    pub send-successor :
        (a index : ℕ)
        → a < topo.number_of_nodes
        → (elem (send index a) (topo.successors a) ≡ true) × (send index a ≢ a)
    unfolding send
    send-successor a index k = ground (
      arith,
      elem-get_or (peers a) (index % (topo.out_degree a - 1)) (place-lt a index k),
      elem-peers a (get_or (peers a) (index % (topo.out_degree a - 1)) 0),
    )

    -- Each successor but the rank itself is its destination at one of the places of a round.
    pub place_of :
        (a b : ℕ)
        → a < topo.number_of_nodes
        → elem b (topo.successors a) ≡ true
        → b ≢ a
        → (i : ℕ) × (i < topo.out_degree a - 1) × (get_or (peers a) i 0 ≡ b)
    place_of a b k m n =
        let (i, l, e) = position b (peers a) (ground (arith, elem-peers a b)) in
        (i, omega (arith, length-peers a k), e)
