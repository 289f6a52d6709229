-- ===== src/Topology/Graph.antt =====
-- A `networkx.DiGraph` whose nodes are the ranks from 0: what its methods answer. The class stands
-- outside of the repository, so the laws that hold of it are hypotheses, `IsDiGraph`.
use bluefog.Common.{ℕ, ◌<◌, ◌≡◌, true, List, length}
use bluefog.Common.Ranks.{elem, distinct}

-- `weight` is the matrix that `to_numpy_array` returns, row by row, with entries in `W`.
pub record DiGraph {ℓ} (W : Type ℓ) : Type ℓ where
  pub number_of_nodes : ℕ
  pub number_of_edges : ℕ
  pub successors : ℕ → List ℕ
  pub predecessors : ℕ → List ℕ
  pub out_degree : ℕ → ℕ
  pub degree : ℕ → ℕ
  pub weight : ℕ → ℕ → W

-- The neighbors of a node are nodes and listed once, the degree counts them, and an edge is seen
-- from both of its ends.
pub record IsDiGraph {ℓ} {W : Type ℓ} (g : DiGraph W) : Type ℓ where
  pub successors_distinct : (a : ℕ) → distinct (g.successors a) ≡ true
  pub predecessors_distinct : (a : ℕ) → distinct (g.predecessors a) ≡ true
  pub successors_in_range : (a b : ℕ) → elem b (g.successors a) ≡ true → b < g.number_of_nodes
  pub predecessors_in_range : (a b : ℕ) → elem b (g.predecessors a) ≡ true → b < g.number_of_nodes
  pub counted : (a : ℕ) → g.out_degree a ≡ length (g.successors a)
  pub both_ends :
      (a b : ℕ)
      → a < g.number_of_nodes
      → b < g.number_of_nodes
      → elem b (g.successors a) ≡ elem a (g.predecessors b)
