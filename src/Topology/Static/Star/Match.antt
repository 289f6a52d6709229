-- ===== src/Topology/Static/Star/Match.antt =====
-- The weights of the star graph.
use bluefog.Common.{
  ℕ, zero, suc, ◌+◌, ◌-◌, ◌≤◌, ◌<◌, ◌≡◌, ◌≢◌, refl, arith, ltb, ◌==◌, ◌&&◌, ◌||◌, if◌then◌else◌, ok,
  ◌∙◌, lt→ltb, Bool-cases, inl, inr,
}
use bluefog.Common.Ranks.{range_from}
use bluefog.Common.Sums.{sum_below, sum_congr}
use bluefog.Topology.Static.Matrix.{WeightMatrix, DoublyStochastic}
use bluefog.Topology.Static.Star.{Entries, star_loop, star_graph}

-- The entries after the rounds of the ranks below `k`.
abbrev pub star_entry : (size center k i j : ℕ) → ℕ
star_entry size center k i j =
    if (i == center && ltb j k) || (j == center && ltb i k)
    then 1
    else if i == j && ltb i k
    then size - 1
    else 0

star_loop_entries :
    (size center start n : ℕ) (topo : Entries)
    → center < size
    → start + n ≤ size
    → ((i j : ℕ) → topo i j ≡ star_entry size center start i j)
    → (topo' : Entries) × (star_loop size center topo (range_from start n) ≡ ok topo')
      × ((i j : ℕ) → topo' i j ≡ star_entry size center (start + n) i j)
unfolding star_loop
star_loop_entries size center start zero topo c h e = (topo, refl, λ i j. ground (arith, e i j))
star_loop_entries size center start (suc n) topo c h e =
    let one = λ (i j : ℕ). if i == start && j == start then size - 1 else topo i j in
    let two = λ (i j : ℕ). if i == center && j == start then 1 else one i j in
    let three = λ (i j : ℕ). if i == start && j == center then 1 else two i j in
    let (topo', r, e') =
      star_loop_entries size center (start + 1) n three c (omega arith)
        (λ i j. ground (arith, e i j)) in
    (
      topo',
      rw (lt→ltb center size c, lt→ltb start size (omega arith)) r,
      λ i j. ground (arith, e' i j),
    )

sum_zero : (n : ℕ) → sum_below n (λ _. 0) ≡ 0
unfolding sum_below
sum_zero zero = refl
sum_zero (suc n) = omega (arith, sum_zero n)

sum_one : (n : ℕ) → sum_below n (λ _. 1) ≡ n
unfolding sum_below
sum_one zero = refl
sum_one (suc n) = omega (arith, sum_one n)

-- A sum with one place or two places that count.
pub sum_at : (n a v : ℕ) → sum_below n (λ k. if k == a then v else 0) ≡ (if ltb a n then v else 0)
unfolding sum_below
sum_at zero a v = ground arith
sum_at (suc n) a v = ground (arith, sum_at n a v)

sum_at_two :
    (n a b v w : ℕ)
    → a ≢ b
    → sum_below n (λ k. if k == a then v else if k == b then w else 0)
      ≡ (if ltb a n then v else 0) + (if ltb b n then w else 0)
unfolding sum_below
sum_at_two zero a b v w h = ground arith
sum_at_two (suc n) a b v w h = ground (arith, sum_at_two n a b v w h)

row_sum :
    (size center i : ℕ)
    → center < size
    → i < size
    → sum_below size (λ j. star_entry size center size i j) ≡ size
row_sum size center i c h = elim (Bool-cases (i == center)) [
  | inl e ↦
      sum_congr size (λ j. star_entry size center size i j) (λ _. 1) (λ j l. ground arith)
      ∙ sum_one size
  | inr e ↦
      sum_congr size (λ j. star_entry size center size i j)
        (λ j. if j == center then 1 else if j == i then size - 1 else 0) (λ j l. ground arith)
      ∙ sum_at_two size center i 1 (size - 1) (ground arith)
      ∙ ground arith
]

-- With a center among the ranks, the star graph of any positive size gives the weight one over the
-- size to both directions between the center and every rank, also to the center itself, leaves
-- the rest of its weight to every other rank, and connects nothing else. The weights are doubly
-- stochastic.
pub star_graph_weights :
    (size center_rank : ℕ)
    → center_rank < size
    → (topo : WeightMatrix) × (star_graph size center_rank ≡ ok topo)
      × (topo.size ≡ size)
      × (topo.unit ≡ size)
      × DoublyStochastic topo
      × ((i j : ℕ)
          → i < size
          → j < size
          → topo.entry i j
            ≡ (if i == center_rank || j == center_rank then 1 else if i == j then size - 1 else 0))
unfolding star_graph
star_graph_weights size center c =
    let (entries, e, all) =
      star_loop_entries size center 0 size (λ i j. 0) c (omega arith) (λ i j. ground arith) in
    let at : (i j : ℕ) → entries i j ≡ star_entry size center size i j =
      λ i j. ground (arith, all i j) in
    (
      record { size = size; entry = entries; unit = size },
      rw (lt→ltb 0 size (omega arith), e),
      refl,
      refl,
      record {
        denominator = omega arith;
        rows = λ i h.
            sum_congr size (λ j. entries i j) (λ j. star_entry size center size i j) (λ j _. at i j)
            ∙ row_sum size center i c h;
        columns = λ j h.
            sum_congr size (λ i. entries i j) (λ i. star_entry size center size j i)
              (λ i l. ground (arith, at i j))
            ∙ row_sum size center j c h;
      },
      λ i j h k. ground (arith, at i j),
    )
