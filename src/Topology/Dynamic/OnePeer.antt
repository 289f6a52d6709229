-- ===== src/Topology/Dynamic/OnePeer.antt =====
-- `GetDynamicOnePeerSendRecvRanks`: every rank of a graph goes through its out-neighbors, sorted
-- clock-wise, one in each iteration.
pub mod Sends
pub mod Match
use bluefog.Common.{
  ℕ, ◌+◌, ◌-◌, leb, ◌==◌, if◌then◌else◌, List, [], ◌∷◌, Result, ok, raise, index_error, ◌>>=◌, item,
  traverse, modulo,
}
use bluefog.Common.Ranks.{range, sorted}
use bluefog.Topology.Dynamic.Peers.{Yield}
use bluefog.Topology.Graph.{DiGraph}

-- The distance from rank `rk` to rank `r` on the clock of all ranks.
unfoldable pub clockwise : (size rk r : ℕ) → ℕ
clockwise size rk r = if leb rk r then r - rk else r + size - rk

-- A sorted list without the self-loop that it may begin with.
pub drop_self : ℕ → List ℕ → Result (List ℕ)
drop_self rank [] = raise index_error
drop_self rank (first ∷ rest) = if first == rank then ok rest else ok (first ∷ rest)

module _ {ℓ} {W : Type ℓ} (topo : DiGraph W) where
  -- An entry of `sorted_send_ranks`.
  pub sorted_ranks : ℕ → Result (List ℕ)
  unfolding drop_self
  sorted_ranks rank =
      drop_self rank (sorted (clockwise topo.number_of_nodes rank) (topo.successors rank))

  -- `sorted_send_ranks[rank][index % degree]`. The degree is not negative: a rank without
  -- successors has made `sorted_ranks` raise.
  pub send_at : List (List ℕ) → (rank index : ℕ) → Result ℕ
  send_at sorted_send_ranks rank index = do
    ranks ← item sorted_send_ranks rank
    place ← modulo index (topo.out_degree rank - 1)
    item ranks place

  -- The loop over `other_rank`.
  pub recv_ranks : List (List ℕ) → (self_rank index : ℕ) → List ℕ → Result (List ℕ)
  recv_ranks sorted_send_ranks self_rank index [] = ok []
  recv_ranks sorted_send_ranks self_rank index (other_rank ∷ others) =
      let rest = recv_ranks sorted_send_ranks self_rank index others in
      if other_rank == self_rank then rest else do
        sent ← send_at sorted_send_ranks other_rank index
        ranks ← rest
        ok (if sent == self_rank then other_rank ∷ ranks else ranks)

  unfoldable pub dynamic_one_peer : (self_rank index : ℕ) → Result Yield
  unfolding sorted_ranks send_at recv_ranks
  dynamic_one_peer self_rank index = do
    sorted_send_ranks ← traverse sorted_ranks (range topo.number_of_nodes)
    send_rank ← send_at sorted_send_ranks self_rank index
    ranks ← recv_ranks sorted_send_ranks self_rank index (range topo.number_of_nodes)
    ok (send_rank ∷ [], ranks)
