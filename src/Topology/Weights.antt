-- ===== src/Topology/Weights.antt =====
-- `GetRecvWeights` and `GetSendWeights`: the weights that a rank gives to what it receives and to
-- what it sends, out of the weight matrix of the topology.
use bluefog.Common.{
  ℕ, ◌<◌, ◌≡◌, refl, sym, ap, ◌∙◌, Bool, true, false, ◌++◌, arith, not, ◌&&◌, ◌==◌, if◌then◌else◌,
  List, [], ◌∷◌, none, some,
}
use mathlib.Core.List.{append-nil, append_assoc}
use bluefog.Common.Dict.{Dict, lookup, assign, keys, lookup-assign}
use bluefog.Common.Ranks.{elem, distinct, without, elem-append}
use bluefog.Topology.Graph.{DiGraph, IsDiGraph}

-- `zero` is the `0.0` that the weights start from.
module _ {ℓ} {W : Type ℓ} (zero_weight : W) where
  -- The loop over the neighbors, where `weight_of` reads the entry of the matrix.
  collect : (weight_of : ℕ → W) (rank : ℕ) → List ℕ → W × Dict W → W × Dict W
  collect weight_of rank [] acc = acc
  collect weight_of rank (r ∷ rs) (self_weight, neighbor_weights) = collect weight_of rank rs (
      if r == rank
      then (weight_of r, neighbor_weights)
      else (self_weight, assign r (weight_of r) neighbor_weights))

  unfoldable pub get_recv_weights : DiGraph W → ℕ → W × Dict W
  unfolding collect
  get_recv_weights topo rank =
      collect (λ src_rank. topo.weight src_rank rank) rank (topo.predecessors rank)
        (zero_weight, [])

  unfoldable pub get_send_weights : DiGraph W → ℕ → W × Dict W
  unfolding collect
  get_send_weights topo rank =
      collect (λ recv_rank. topo.weight rank recv_rank) rank (topo.successors rank)
        (zero_weight, [])

  collect_self :
      (weight_of : ℕ → W) (rank : ℕ) (rs : List ℕ) (s : W) (d : Dict W)
      → (collect weight_of rank rs (s, d)).0 ≡ (if elem rank rs then weight_of rank else s)
  unfolding collect
  collect_self weight_of rank [] s d = refl
  collect_self weight_of rank (r ∷ rs) s d = ground (
    arith,
    collect_self weight_of rank rs (weight_of r) d,
    collect_self weight_of rank rs s (assign r (weight_of r) d),
  )

  collect-neighbor :
      (weight_of : ℕ → W) (rank r : ℕ) (rs : List ℕ) (s : W) (d : Dict W)
      → lookup r (collect weight_of rank rs (s, d)).1
        ≡ (if elem r rs && not (r == rank) then some (weight_of r) else lookup r d)
  unfolding collect
  collect-neighbor weight_of rank r [] s d = refl
  collect-neighbor weight_of rank r (x ∷ rs) s d = ground (
    arith,
    collect-neighbor weight_of rank r rs (weight_of x) d,
    collect-neighbor weight_of rank r rs s (assign x (weight_of x) d),
    lookup-assign r x (weight_of x) d,
  )

  -- The self weight is the diagonal entry of a rank with a self-loop and zero of another. The
  -- neighbor weights are the entries from each predecessor but the rank itself, and no others.
  pub get_recv_weights_entries :
      (topo : DiGraph W) (rank : ℕ)
      → ((get_recv_weights topo rank).0
          ≡ (if elem rank (topo.predecessors rank) then topo.weight rank rank else zero_weight))
        × ((r : ℕ)
            → lookup r (get_recv_weights topo rank).1 ≡ (
                if elem r (topo.predecessors rank) && not (r == rank)
                then some (topo.weight r rank)
                else none))
  unfolding get_recv_weights
  get_recv_weights_entries topo rank = (
    collect_self (λ r. topo.weight r rank) rank (topo.predecessors rank) zero_weight [],
    λ r. collect-neighbor (λ q. topo.weight q rank) rank r (topo.predecessors rank) zero_weight [],
  )

  -- The two ends of an edge read one weight: what `a` sends to `b` with is what `b` receives from
  -- `a` with, or neither lists the other; and a rank's own weight is the same both ways.
  pub send_weights-recv_weights :
      (topo : DiGraph W)
      → IsDiGraph topo
      → (a b : ℕ) → a < topo.number_of_nodes
      → b < topo.number_of_nodes
      → (lookup b (get_send_weights topo a).1 ≡ lookup a (get_recv_weights topo b).1)
        × ((get_send_weights topo a).0 ≡ (get_recv_weights topo a).0)
  unfolding get_recv_weights get_send_weights
  send_weights-recv_weights topo g a b h k =
      let edge : (elem b (topo.successors a) && not (b == a))
          ≡ (elem a (topo.predecessors b) && not (a == b)) =
        ground (arith, g.both_ends a b h k) in
      (
        collect-neighbor (λ r. topo.weight a r) a b (topo.successors a) zero_weight []
            ∙ ap (λ (t : Bool). if t then some (topo.weight a b) else none) edge
            ∙ sym
                (collect-neighbor (λ r. topo.weight r b) b a (topo.predecessors b) zero_weight []),
        collect_self (λ r. topo.weight a r) a (topo.successors a) zero_weight []
            ∙ ap (λ (t : Bool). if t then topo.weight a a else zero_weight) (g.both_ends a a h h)
            ∙ sym (collect_self (λ r. topo.weight r a) a (topo.predecessors a) zero_weight []),
      )

  keys-assign_new :
      (k : ℕ) (v : W) (d : Dict W)
      → elem k (keys d) ≡ false
      → keys (assign k v d) ≡ keys d ++ k ∷ []
  keys-assign_new k v [] h = refl
  keys-assign_new k v ((j, w) ∷ d) h = ground (arith, keys-assign_new k v d)

  keys-collect :
      (weight_of : ℕ → W) (rank : ℕ) (rs : List ℕ) (s : W) (d : Dict W)
      → distinct rs ≡ true
      → ((r : ℕ) → elem r rs ≡ true → elem r (keys d) ≡ false)
      → keys (collect weight_of rank rs (s, d)).1 ≡ keys d ++ without rank rs
  unfolding collect
  keys-collect weight_of rank [] s d h new = sym (append-nil (keys d))
  keys-collect weight_of rank (x ∷ rs) s d h new =
      let added = keys-assign_new x (weight_of x) d (new x (ground arith)) in
      let skipped =
        keys-collect weight_of rank rs (weight_of x) d (ground arith)
          (λ r m. new r (ground arith)) in
      let listed =
        keys-collect weight_of rank rs s (assign x (weight_of x) d) (ground arith) (λ r m.
          rw added (rw (elem-append r (keys d) (x ∷ [])) (ground (arith, new r (ground arith))))) in
      let joined =
        listed
        ∙ ap (λ (ks : List ℕ). ks ++ without rank rs) added
        ∙ append_assoc (keys d) (x ∷ []) (without rank rs) in
      ground (arith, skipped, joined)

  -- The neighbor weights list the predecessors but the rank itself, in their order.
  pub keys-get_recv_weights :
      (topo : DiGraph W) (rank : ℕ)
      → distinct (topo.predecessors rank) ≡ true
      → keys (get_recv_weights topo rank).1 ≡ without rank (topo.predecessors rank)
  unfolding get_recv_weights
  keys-get_recv_weights topo rank h =
      keys-collect (λ r. topo.weight r rank) rank (topo.predecessors rank) zero_weight [] h
        (λ r m. refl)
