-- ===== src/Topology/Static/Ring/Match.antt =====
-- The neighbors in the ring graphs and in the fully connected graph.
use bluefog.Common.{
  ℕ, zero, suc, ◌+◌, ◌-◌, ◌*◌, ◌||◌, ◌&&◌, not, false, ◌≤◌, ◌<◌, ◌≡◌, refl, sym, ap, ◌∙◌, true,
  subst, arith, Bool, ◌==◌, if◌then◌else◌, List, [], ◌∷◌, set, length, get_or, replicate,
  length-set, length-replicate, ok, lt→ltb,
}
use bluefog.Common.Arith.{sub_mod, sub_mod-lt}
use bluefog.Common.Sums.{total}
use bluefog.Topology.Static.Matrix.{WeightMatrix, DoublyStochastic, IsRoll}
use bluefog.Topology.Static.Circulant.{circulant, circulant-DoublyStochastic}
use bluefog.Topology.Static.Ring.{ring_row, ring_graph, fully_connected_graph}

total-set :
    (xs : List ℕ) (i v : ℕ) → i < length xs → total (set xs i v) + get_or xs i 0 ≡ total xs + v
unfolding total
total-set [] i v h = absurd (omega arith)
total-set (x ∷ xs) zero v h = omega arith
total-set (x ∷ xs) (suc i) v h = omega (arith, total-set xs i v (omega arith))

get_or-set :
    (xs : List ℕ) (i k v : ℕ)
    → i < length xs
    → get_or (set xs i v) k 0 ≡ (if i == k then v else get_or xs k 0)
get_or-set [] i k v h = absurd (omega arith)
get_or-set (x ∷ xs) zero zero v h = ground arith
get_or-set (x ∷ xs) zero (suc k) v h = ground arith
get_or-set (x ∷ xs) (suc i) zero v h = ground arith
get_or-set (x ∷ xs) (suc i) (suc k) v h = ground (arith, get_or-set xs i k v)

total-replicate : (n v : ℕ) → total (replicate n v) ≡ n * v
unfolding total
total-replicate zero v = omega arith
total-replicate (suc n) v = grind (arith, total-replicate n v)

get_or-replicate : (n v k : ℕ) → k < n → get_or (replicate n v) k 0 ≡ v
get_or-replicate zero v k h = absurd (omega arith)
get_or-replicate (suc n) v zero h = refl
get_or-replicate (suc n) v (suc k) h = get_or-replicate n v k (omega arith)

-- The distances that a style connects, counted from the sender, in a ring of three or more.
abbrev pub beside : (size connect_style distance : ℕ) → Bool
beside size connect_style d =
    d == 0 || (d == 1 && not (connect_style == 1)) || (d == size - 1 && not (connect_style == 2))

-- A mark at a place that has none.
record Marked (n count : ℕ) (at : ℕ → Bool) (x : List ℕ) : Type 0 where
  sized : length x ≡ n
  summed : total x ≡ count
  marks : (d : ℕ) → d < n → get_or x d 0 ≡ (if at d then 1 else 0)

Marked-set :
    (n count place : ℕ) (at : ℕ → Bool) (x : List ℕ)
    → Marked n count at x
    → place < n
    → at place ≡ false
    → Marked n (count + 1) (λ d. d == place || at d) (set x place 1)
Marked-set n count place at x m h free = record {
  sized = length-set x place 1 ∙ m.sized;
  summed =
      let p = m.marks place h in
      let q : get_or x place 0 ≡ 0 = ground (arith, p) in
      omega (arith, m.sized, m.summed, total-set x place 1 (omega (arith, m.sized)));
  marks = λ d l. ground (arith, get_or-set x place d 1 (omega (arith, m.sized)), m.marks d l);
}

Marked-start : (n : ℕ) → 2 < n → Marked n 1 (λ d. d == 0 || false) (set (replicate n 0) 0 1)
Marked-start n h =
    let zeros : Marked n 0 (λ _. false) (replicate n 0) = record {
      sized = length-replicate n 0;
      summed = total-replicate n 0 ∙ omega arith;
      marks = λ d l. get_or-replicate n 0 d l;
    } in
    Marked-set n 0 0 (λ _. false) (replicate n 0) zeros (omega arith) refl

-- The same marks, tested in another way.
Marked-same :
    {n count count' : ℕ} {at at' : ℕ → Bool} {x : List ℕ}
    → Marked n count at x
    → count ≡ count'
    → ((d : ℕ) → d < n → at d ≡ at' d)
    → Marked n count' at' x
Marked-same m e h = record {
  sized = m.sized;
  summed = m.summed ∙ e;
  marks = λ d l. ground (arith, m.marks d l, h d l);
}

set_again : (xs : List ℕ) (i v : ℕ) → set (set xs i v) i v ≡ set xs i v
set_again [] i v = refl
set_again (x ∷ xs) zero v = refl
set_again (x ∷ xs) (suc i) v = ap (◌∷◌ x) (set_again xs i v)

-- The row of a style: its marks are at the distances, and they are as many as the denominator.
ring_row_lem :
    (n style : ℕ)
    → 2 < n
    → style ≤ 2
    → (x : List ℕ) × (unit : ℕ) × (ring_row n style ≡ ok (x, unit))
      × (0 < unit)
      × Marked n unit (beside n style) x
unfolding ring_row
ring_row_lem n zero h k =
    let first = λ (d : ℕ). d == 0 || false in
    let last = λ (d : ℕ). d == n - 1 || first d in
    let x : List ℕ = set (set (replicate n 0) 0 1) 0 1 in
    let start : Marked n 1 first x =
      subst (Marked n 1 first) (sym (set_again (replicate n 0) 0 1)) (Marked-start n h) in
    let m = Marked-set n 1 (n - 1) first x start (omega arith) (ground arith) in
    let m' = Marked-set n 2 1 last (set x (n - 1) 1) m (omega arith) (ground arith) in
    (set (set x (n - 1) 1) 1 1, 3, refl, omega arith, Marked-same m' refl (λ d l. ground arith))
ring_row_lem n (suc zero) h k =
    let first = λ (d : ℕ). d == 0 || false in
    let x : List ℕ = set (replicate n 0) 0 1 in
    let m = Marked-set n 1 (n - 1) first x (Marked-start n h) (omega arith) (ground arith) in
    (set x (n - 1) 1, 2, refl, omega arith, Marked-same m refl (λ d l. ground arith))
ring_row_lem n (suc (suc zero)) h k =
    let first = λ (d : ℕ). d == 0 || false in
    let x : List ℕ = set (replicate n 0) 0 1 in
    let m = Marked-set n 1 1 first x (Marked-start n h) (omega arith) (ground arith) in
    (set x 1 1, 2, refl, omega arith, Marked-same m refl (λ d l. ground arith))
ring_row_lem n (suc (suc (suc style))) h k = absurd (omega arith)

module _ (roll : List ℕ → ℕ → List ℕ) (h : IsRoll roll) where
  rolled-marks :
      (n unit : ℕ) (at : ℕ → Bool) (x : List ℕ)
      → Marked n unit at x
      → (i j : ℕ) → j < n
      → get_or (roll x i) j 0 ≡ (if at (sub_mod j i n) then 1 else 0)
  rolled-marks n unit at x m i j k =
      h.rolled x i j (omega (arith, m.sized))
      ∙ ap (λ t. get_or x (sub_mod j i t) 0) m.sized
      ∙ m.marks (sub_mod j i n) (sub_mod-lt j i n (omega arith))

  Marked-DoublyStochastic :
      (n unit : ℕ) (at : ℕ → Bool) (x : List ℕ)
      → Marked n unit at x
      → 0 < unit
      → DoublyStochastic (circulant roll n x unit)
  Marked-DoublyStochastic n unit at x m p =
      subst (λ t. DoublyStochastic (circulant roll t x unit)) m.sized
        (circulant-DoublyStochastic roll h x unit p m.summed)

  -- In a ring of three ranks or more every rank keeps a share and sends an equal one to the next
  -- rank, to the previous one or to both, as the style says; the weights are doubly stochastic.
  pub ring_graph_edges :
      (size connect_style : ℕ)
      → 2 < size
      → connect_style ≤ 2
      → (topo : WeightMatrix) × (ring_graph roll size connect_style ≡ ok topo)
        × (topo.size ≡ size)
        × DoublyStochastic topo
        × ((i j : ℕ)
            → i < size
            → j < size
            → topo.entry i j ≡ (if beside size connect_style (sub_mod j i size) then 1 else 0))
  unfolding ring_graph
  ring_graph_edges n style p q =
      let (x, unit, e, pos, m) = ring_row_lem n style p q in
      (
        circulant roll n x unit,
        ground (arith, e),
        refl,
        Marked-DoublyStochastic n unit (beside n style) x m pos,
        λ i j _ l. rolled-marks n unit (beside n style) x m i j l,
      )

  -- In the fully connected graph of any positive size all weights are one over the size.
  pub fully_connected_graph_edges :
      (size : ℕ)
      → 0 < size
      → (topo : WeightMatrix) × (fully_connected_graph roll size ≡ ok topo)
        × (topo.size ≡ size)
        × (topo.unit ≡ size)
        × DoublyStochastic topo
        × ((i j : ℕ) → i < size → j < size → topo.entry i j ≡ 1)
  unfolding fully_connected_graph
  fully_connected_graph_edges n p =
      let m : Marked n n (λ _. true) (replicate n 1) = record {
        sized = length-replicate n 1;
        summed = total-replicate n 1 ∙ omega arith;
        marks = λ d l. get_or-replicate n 1 d l;
      } in
      (
        circulant roll n (replicate n 1) n,
        rw (lt→ltb 0 n p),
        refl,
        refl,
        Marked-DoublyStochastic n n (λ _. true) (replicate n 1) m p,
        λ i j _ l. rolled-marks n n (λ _. true) (replicate n 1) m i j l,
      )
