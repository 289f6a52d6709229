-- ===== src/Topology/Dynamic/OnePeer/Match.antt =====
-- The receive ranks of an iteration are exactly the ranks that send to this one, and a round of
-- iterations goes through all neighbors.
use bluefog.Common.{
  ℕ, ◌+◌, ◌-◌, ◌*◌, ◌%◌, ◌<◌, ◌≡◌, ◌≢◌, refl, ◌∙◌, arith, true, not, ◌&&◌, ◌==◌, ltb, if◌then◌else◌,
  List, [], ◌∷◌, map, ok,
}
use bluefog.Common.Ranks.{elem, range, elem-range_from}
use bluefog.Topology.Graph.{DiGraph}
use bluefog.Topology.Dynamic.OnePeer.{recv_ranks, dynamic_one_peer}
use bluefog.Topology.Dynamic.OnePeer.Sends.{
  HasPeers, peers, send, traverse-peers, send_at-send, send-successor, place_of,
}
use native.Mathlib.Nat.{mod-eq_of_lt, add-mul-mod_self_left}

module _ {ℓ} {W : Type ℓ} (topo : DiGraph W) where
  -- The ranks of a list that send to `self_rank`.
  pub senders : (self_rank index : ℕ) → List ℕ → List ℕ
  senders self_rank index [] = []
  senders self_rank index (x ∷ xs) =
      let rest = senders self_rank index xs in
      if x == self_rank then rest else if send topo index x == self_rank then x ∷ rest else rest

  elem-senders :
      (self_rank index b : ℕ) (xs : List ℕ)
      → elem b (senders self_rank index xs)
        ≡ (elem b xs && not (b == self_rank) && send topo index b == self_rank)
  unfolding senders
  elem-senders self_rank index b [] = refl
  elem-senders self_rank index b (x ∷ xs) = ground (arith, elem-senders self_rank index b xs)

  module _ (h : HasPeers topo) where
    recv_ranks-senders :
        (self_rank index : ℕ) (xs : List ℕ)
        → ((x : ℕ) → elem x xs ≡ true → x < topo.number_of_nodes)
        → recv_ranks topo (map (peers topo) (range topo.number_of_nodes)) self_rank index xs
          ≡ ok (senders self_rank index xs)
    unfolding recv_ranks senders
    recv_ranks-senders self_rank index [] k = refl
    recv_ranks-senders self_rank index (x ∷ xs) k = ground (
      arith,
      send_at-send topo h x index (k x (ground arith)),
      recv_ranks-senders self_rank index xs (λ y m. k y (ground arith)),
    )

    -- In a graph where every rank has a self-loop and one more successor, each rank yields in
    -- every iteration one destination, which is a successor and not itself, and as sources exactly
    -- the other ranks whose destination it is.
    pub dynamic_one_peer-agree :
        (a index : ℕ)
        → a < topo.number_of_nodes
        → (recvs : List ℕ) × (dynamic_one_peer topo a index ≡ ok (send topo index a ∷ [], recvs))
          × (elem (send topo index a) (topo.successors a) ≡ true)
          × (send topo index a ≢ a)
          × ((b : ℕ)
              → elem b recvs
                ≡ (ltb b topo.number_of_nodes && not (b == a) && send topo index b == a))
    unfolding dynamic_one_peer
    dynamic_one_peer-agree a index k =
        let n = topo.number_of_nodes in
        let recvs = senders a index (range n) in
        let e =
          recv_ranks-senders a index (range n) (λ x m. ground (arith, elem-range_from x 0 n)) in
        let (member, other) = send-successor topo h a index k in
        (
          recvs,
          ground (arith, traverse-peers topo h, send_at-send topo h a index k, e),
          member,
          other,
          λ b. ground (arith, elem-senders a index b (range n), elem-range_from b 0 n),
        )

    -- In such a graph each successor of a rank but itself is its destination in one of the first
    -- `out_degree - 1` iterations, and again in every later round of that many.
    pub dynamic_one_peer_round :
        (a b : ℕ)
        → a < topo.number_of_nodes
        → elem b (topo.successors a) ≡ true
        → b ≢ a
        → (i : ℕ) × (i < topo.out_degree a - 1)
          × ((round : ℕ)
              → (recvs : List ℕ) × (dynamic_one_peer topo a (i + (topo.out_degree a - 1) * round)
                  ≡ ok (b ∷ [], recvs)))
    unfolding send
    dynamic_one_peer_round a b k m n =
        let (i, l, e) = place_of topo h a b k m n in
        let degree = topo.out_degree a - 1 in
        (
          i,
          l,
          λ round.
              let index = i + degree * round in
              let (recvs, yielded, _, _, _) = dynamic_one_peer-agree a index k in
              let place : index % degree ≡ i =
                add-mul-mod_self_left i degree round ∙ mod-eq_of_lt l in
              (recvs, ground (arith, yielded, place, e)),
        )
