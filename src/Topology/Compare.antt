-- ===== src/Topology/Compare.antt =====
-- `IsTopologyEquivalent` and `IsRegularGraph`.
use bluefog.Common.{
  ℕ, zero, suc, ◌+◌, ◌-◌, ◌<◌, ◌≡◌, ◌↔◌, refl, sym, ◌∙◌, suc, sym, ◌∙◌, arith, subst, Bool, true,
  false, not, ◌&&◌, ◌==◌, if◌then◌else◌, List, [], ◌∷◌, Option, some,
}
use bluefog.Common.Ranks.{elem, range, range_from, elem-range_from}
use bluefog.Topology.Graph.{DiGraph}

-- `all` of a test over a list of ranks.
unfoldable pub all : (ℕ → Bool) → List ℕ → Bool
all p [] = true
all p (x ∷ xs) = p x && all p xs

all_iff :
    (p : ℕ → Bool) (xs : List ℕ) → (all p xs ≡ true) ↔ ((x : ℕ) → elem x xs ≡ true → p x ≡ true)
unfolding all
all_iff p [] = (λ _ x m. absurd (ground arith), λ _. refl)
all_iff p (x ∷ xs) = (
  λ h y m. ground (arith, (all_iff p xs).0 (ground arith) y),
  λ h. ground (arith, h x (ground arith), (all_iff p xs).1 (λ y m. h y (ground arith))),
)

all_range :
    (p : ℕ → Bool) (start n : ℕ)
    → (all p (range_from start n) ≡ true) ↔ ((x : ℕ) → x < n → p (start + x) ≡ true)
all_range p start n = (
  λ h x k.
      (all_iff p (range_from start n)).0 h (start + x)
        (ground (arith, elem-range_from (start + x) start n)),
  λ h. (all_iff p (range_from start n)).1 (λ x m.
      let e : start + (x - start) ≡ x = ground (arith, elem-range_from x start n) in
      subst (λ y. p y ≡ true) e (h (x - start) (ground (arith, elem-range_from x start n)))),
)

all_below : (p : ℕ → Bool) (n : ℕ) → (all p (range n) ≡ true) ↔ ((x : ℕ) → x < n → p x ≡ true)
all_below p n = (
  λ h x k. (all_iff p (range n)).0 h x (ground (arith, elem-range_from x 0 n)),
  λ h. (all_iff p (range n)).1 (λ x m. h x (ground (arith, elem-range_from x 0 n))),
)

-- `same` is the equality of two entries of the weight matrices.
module _ {ℓ} {W : Type ℓ} (same : W → W → Bool) where
  -- `(A1 == A2).all()` over the two raveled matrices of `n` rows.
  unfoldable pub same_matrix : (n : ℕ) (topo1 topo2 : DiGraph W) → Bool
  same_matrix n topo1 topo2 =
      all (λ i. all (λ j. same (topo1.weight i j) (topo2.weight i j)) (range n)) (range n)

  same_matrix_iff :
      (n : ℕ) (topo1 topo2 : DiGraph W)
      → (same_matrix n topo1 topo2 ≡ true)
        ↔ ((i j : ℕ) → i < n → j < n → same (topo1.weight i j) (topo2.weight i j) ≡ true)
  unfolding same_matrix
  same_matrix_iff n topo1 topo2 =
      let row = λ (i j : ℕ). same (topo1.weight i j) (topo2.weight i j) in
      let rows = λ (i : ℕ). all (row i) (range n) in
      (
        λ h i j p q. (all_below (row i) n).0 ((all_below rows n).0 h i p) j q,
        λ h. (all_below rows n).1 (λ i p. (all_below (row i) n).1 (λ j q. h i j p q)),
      )

  unfoldable pub is_topology_equivalent : Option (DiGraph W) → Option (DiGraph W) → Bool
  is_topology_equivalent (some topo1) (some topo2) =
      if not (topo1.number_of_nodes == topo2.number_of_nodes)
      then false
      else if not (topo1.number_of_edges == topo2.number_of_edges)
      then false
      else same_matrix topo1.number_of_nodes topo1 topo2
  is_topology_equivalent _ _ = false

  -- Two topologies that are both there are equivalent exactly if they have as many nodes, as many
  -- edges, and the same weight between every two nodes.
  pub is_topology_equivalent_iff :
      (topo1 topo2 : DiGraph W)
      → (is_topology_equivalent (some topo1) (some topo2) ≡ true) ↔ (
          (topo1.number_of_nodes ≡ topo2.number_of_nodes)
          × (topo1.number_of_edges ≡ topo2.number_of_edges)
          × ((i j : ℕ)
              → i < topo1.number_of_nodes
              → j < topo1.number_of_nodes
              → same (topo1.weight i j) (topo2.weight i j) ≡ true))
  unfolding is_topology_equivalent
  is_topology_equivalent_iff topo1 topo2 = (
    λ h. (
      ground arith,
      ground arith,
      (same_matrix_iff topo1.number_of_nodes topo1 topo2).0 (ground arith),
    ),
    λ (nodes, edges, entries).
        ground (arith, nodes, edges, (same_matrix_iff topo1.number_of_nodes topo1 topo2).1 entries),
  )

-- `IsRegularGraph`. The degree of a missing node 0 is asked for in no comparison.
unfoldable pub is_regular_graph {ℓ} : {W : Type ℓ} → DiGraph W → Bool
is_regular_graph topo =
    all (λ rank. topo.degree rank == topo.degree 0) (range_from 1 (topo.number_of_nodes - 1))

as_first {ℓ} :
    {W : Type ℓ} (topo : DiGraph W)
    → is_regular_graph topo ≡ true
    → (a : ℕ) → a < topo.number_of_nodes
    → topo.degree a ≡ topo.degree 0
unfolding is_regular_graph
as_first topo h zero p = refl
as_first topo h (suc a) p =
    let e : 1 + a ≡ suc a = omega arith in
    rw (← e) (
      ground (
        arith,
        (all_range (λ rank. topo.degree rank == topo.degree 0) 1 (topo.number_of_nodes - 1)).0 h a
            (omega arith),
      ))

-- A graph is regular exactly if any two of its nodes have the same degree.
pub is_regular_graph_iff {ℓ} :
    {W : Type ℓ} (topo : DiGraph W)
    → (is_regular_graph topo ≡ true) ↔ (
        (a b : ℕ)
        → a < topo.number_of_nodes
        → b < topo.number_of_nodes
        → topo.degree a ≡ topo.degree b)
unfolding is_regular_graph
is_regular_graph_iff topo =
    let test = λ (rank : ℕ). topo.degree rank == topo.degree 0 in
    (
      λ h a b p q. as_first topo h a p ∙ sym (as_first topo h b q),
      λ h. (all_range test 1 (topo.number_of_nodes - 1)).1 (λ x k. ground (arith, h (1 + x) 0)),
    )
