-- ===== src/Topology/Static/Exponential/Edges.antt =====
-- Which ranks the exponential graphs connect, and with which weights.
use bluefog.Common.{
  ℕ, zero, suc, ◌+◌, ◌-◌, ◌^◌, ◌≤◌, ◌<◌, ◌≡◌, ◌↔◌, ◌⊎◌, inl, inr, refl, ap, ◌∙◌, subst, arith, Bool,
  true, ◌==◌, if◌then◌else◌, List, ◌∷◌, map, length, get_or, length-map, ok, traverse, Bool-cases,
  lt→ltb,
}
use mathlib.Core.Logic.{⊎_elim}
use bluefog.Common.Arith.{sub_mod, sub_mod-lt, sub_mod_small}
use bluefog.Common.Ranks.{
  range_from, elem-range_from, length-range_from, get_or-map-range_from, traverse-ok,
}
use bluefog.Common.Sums.{total}
use bluefog.Topology.Static.Matrix.{WeightMatrix, DoublyStochastic, IsRoll}
use bluefog.Topology.Static.Circulant.{circulant, circulant-DoublyStochastic}
use bluefog.Topology.Static.Exponential.{
  mark, power_of_two_test, is_power_of, exponential_two_graph, entry_of, exponential_graph,
  mirrored, symmetric_exponential_graph,
}
use bluefog.Topology.Static.Exponential.Powers.{
  IsPower, ExactLog, is_power_of_iff, power_of_two_test_iff,
}

-- The first row of a circulant matrix that begins with a one and then marks distances.
row : (ℕ → Bool) → ℕ → List ℕ
row test n = 1 ∷ map (λ i. mark (test i)) (range_from 1 n)

length-row : (test : ℕ → Bool) (n : ℕ) → length (row test n) ≡ suc n
unfolding row
length-row test n =
    ap suc (length-map (range_from 1 n) (λ i. mark (test i)) ∙ length-range_from 1 n)

get_or-row :
    (test : ℕ → Bool) (n d : ℕ)
    → d < suc n
    → get_or (row test n) d 0 ≡ (if d == 0 then 1 else mark (test d))
unfolding row
get_or-row test n zero h = ground arith
get_or-row test n (suc d) h =
    let e : 1 + d ≡ suc d = omega arith in
    get_or-map-range_from (λ i. mark (test i)) 1 n d (omega arith)
    ∙ ap (λ i. mark (test i)) e
    ∙ ground arith

total-row-pos : (test : ℕ → Bool) (n : ℕ) → 0 < total (row test n)
unfolding row total
total-row-pos test n = omega arith

-- A rank is connected to itself and to the ranks at the distances that pass a test, all with the
-- same weight; distances are counted from the sender around the ring of ranks.
pub record Connects (size : ℕ) (Near : ℕ → Type 0) (topo : WeightMatrix) : Type 0 where
  pub sized : topo.size ≡ size
  pub stochastic : DoublyStochastic topo
  pub at_most_one : (i j : ℕ) → i < size → j < size → topo.entry i j ≤ 1
  pub edges :
      (i j : ℕ)
      → i < size
      → j < size
      → (topo.entry i j ≡ 1) ↔ ((sub_mod j i size ≡ 0) ⊎ Near (sub_mod j i size))

edge_iff :
    (v d : ℕ) (marked : Bool) (Near : Type 0)
    → v ≡ (if d == 0 then 1 else mark marked)
    → (0 < d → (marked ≡ true) ↔ Near)
    → (v ≡ 1) ↔ ((d ≡ 0) ⊎ Near)
edge_iff v d marked Near e near = (
  λ p. elim (Bool-cases (d == 0)) [
    | inl z ↦ inl (ground arith)
    | inr z ↦ inr ((near (ground arith)).0 (ground arith))
  ],
  λ s. elim (Bool-cases (d == 0)) [
    | inl z ↦ ground arith
    | inr z ↦ ⊎_elim (λ q. absurd (ground arith)) (λ q. ground (arith, (near (ground arith)).1 q)) s
  ],
)

module _ (roll : List ℕ → ℕ → List ℕ) (h : IsRoll roll) where
  row_entry :
      (test : ℕ → Bool) (n i j : ℕ)
      → j < suc n
      → get_or (roll (row test n) i) j 0
        ≡ (if sub_mod j i (suc n) == 0 then 1 else mark (test (sub_mod j i (suc n))))
  row_entry test n i j k =
      let len = length-row test n in
      h.rolled (row test n) i j (omega (arith, len))
      ∙ ap (λ m. get_or (row test n) (sub_mod j i m) 0) len
      ∙ get_or-row test n (sub_mod j i (suc n)) (sub_mod-lt j i (suc n) (omega arith))

  row-Connects :
      (test : ℕ → Bool) (Near : ℕ → Type 0) (n : ℕ)
      → ((d : ℕ) → 0 < d → d < suc n → (test d ≡ true) ↔ Near d)
      → Connects (suc n) Near (circulant roll (suc n) (row test n) (total (row test n)))
  row-Connects test Near n near = record {
    sized = refl;
    stochastic =
        subst (λ m. DoublyStochastic (circulant roll m (row test n) (total (row test n))))
          (length-row test n)
          (circulant-DoublyStochastic roll h (row test n) (total (row test n))
            (total-row-pos test n) refl);
    at_most_one = λ i j _ k. ground (arith, row_entry test n i j k);
    edges = λ i j _ k.
        let d = sub_mod j i (suc n) in
        edge_iff (get_or (roll (row test n) i) j 0) d (test d) (Near d) (row_entry test n i j k)
          (λ pos. near d pos (sub_mod-lt j i (suc n) (omega arith)));
  }

  -- The exponential-two graph of any positive size connects exactly the ranks at a distance that
  -- is a power of two, besides each rank with itself, all with the same weight, and its weights
  -- are doubly stochastic.
  pub exponential_two_graph-Connects :
      (size : ℕ)
      → 0 < size
      → (topo : WeightMatrix) × (exponential_two_graph roll size ≡ ok topo)
        × Connects size (IsPower 2) topo
  unfolding exponential_two_graph row
  exponential_two_graph-Connects zero p = absurd (omega arith)
  exponential_two_graph-Connects (suc n) p = (
    circulant roll (suc n) (row power_of_two_test n) (total (row power_of_two_test n)),
    rw (lt→ltb 0 (suc n) p),
    row-Connects power_of_two_test (IsPower 2) n (λ d pos _. (
      λ e. ⊎_elim (λ z. absurd (omega arith)) (λ q. q) ((power_of_two_test_iff d).0 e),
      λ q. (power_of_two_test_iff d).1 (inr q),
    )),
  )

mirrored-pos : (n d : ℕ) → 0 < d → d < suc n → 0 < mirrored (suc n) d
unfolding mirrored
mirrored-pos n d p q = ground arith

-- The two directions between two ranks are mirrored to one distance.
mirrored_both :
    (n i j : ℕ)
    → i < n
    → j < n
    → (mirrored n (sub_mod j i n) ≡ mirrored n (sub_mod i j n))
      × ((sub_mod j i n ≡ 0) ↔ (sub_mod i j n ≡ 0))
unfolding mirrored
mirrored_both n i j h k = ground (arith, sub_mod_small j i n k h, sub_mod_small i j n h k)

module _ (int_log : ℕ → ℕ → ℕ) (base : ℕ) (log : ExactLog int_log base) (large : 1 < base) where
  -- The test of a distance by the logarithm.
  power_test : ℕ → Bool
  power_test d = base ^ int_log d base == d

  is_power_of-test : (d : ℕ) → 0 < d → is_power_of int_log d base ≡ ok (power_test d)
  unfolding power_test is_power_of
  is_power_of-test d p = rw (lt→ltb 1 base large, lt→ltb 0 d p)

  entry_of-mark : (d : ℕ) → 0 < d → entry_of int_log base d ≡ ok (mark (power_test d))
  unfolding entry_of
  entry_of-mark d p = rw (is_power_of-test d p)

  power_test_iff : (d : ℕ) → 0 < d → (power_test d ≡ true) ↔ IsPower base d
  power_test_iff d p =
      let e = is_power_of-test d p in
      let (sound, complete) = is_power_of_iff int_log d base log large p in
      (λ t. sound (e ∙ ap ok t), λ q. ground (arith, e, complete q))

  -- The marks of a whole row, where the tested distance is read off the index.
  marks-row :
      (distance : ℕ → ℕ) (n : ℕ)
      → ((i : ℕ) → 0 < i → i < suc n → 0 < distance i)
      → traverse (λ i. entry_of int_log base (distance i)) (range_from 1 n)
        ≡ ok (map (λ i. mark (power_test (distance i))) (range_from 1 n))
  marks-row distance n pos =
      traverse-ok (λ i. entry_of int_log base (distance i)) (λ i. mark (power_test (distance i)))
        (range_from 1 n)
        (λ i m.
          entry_of-mark (distance i)
            (pos i (ground (arith, elem-range_from i 1 n)) (ground (arith, elem-range_from i 1 n))))

  module _ (roll : List ℕ → ℕ → List ℕ) (h : IsRoll roll) where
    -- The exponential graph of any positive size connects exactly the ranks at a distance that is
    -- a power of the base, besides each rank with itself, all with the same weight, and its weights
    -- are doubly stochastic, provided that the logarithm is exact.
    pub exponential_graph-Connects :
        (size : ℕ)
        → 0 < size
        → (topo : WeightMatrix) × (exponential_graph roll int_log size base ≡ ok topo)
          × Connects size (IsPower base) topo
    unfolding exponential_graph row
    exponential_graph-Connects zero p = absurd (omega arith)
    exponential_graph-Connects (suc n) p =
        let e : suc n - 1 ≡ n = omega arith in
        (
          circulant roll (suc n) (row power_test n) (total (row power_test n)),
          rw (e, marks-row (λ i. i) n (λ i q _. q)),
          row-Connects roll h power_test (IsPower base) n (λ d pos _. power_test_iff d pos),
        )

    -- The symmetric exponential graph of any positive size connects exactly the ranks whose
    -- distance, taken to the nearer side, is a power of the base, besides each rank with itself, all
    -- with the same weight, and its weights are doubly stochastic, provided that the logarithm is
    -- exact. Both directions of an edge have the same weight.
    pub symmetric_exponential_graph-Connects :
        (size : ℕ)
        → 0 < size
        → (topo : WeightMatrix) × (symmetric_exponential_graph roll int_log size base ≡ ok topo)
          × Connects size (λ d. IsPower base (mirrored size d)) topo
          × ((i j : ℕ) → i < size → j < size → topo.entry i j ≡ topo.entry j i)
    unfolding symmetric_exponential_graph row
    symmetric_exponential_graph-Connects zero p = absurd (omega arith)
    symmetric_exponential_graph-Connects (suc n) p =
        let e : suc n - 1 ≡ n = omega arith in
        let test = λ (d : ℕ). power_test (mirrored (suc n) d) in
        (
          circulant roll (suc n) (row test n) (total (row test n)),
          rw (e, marks-row (mirrored (suc n)) n (mirrored-pos n)),
          row-Connects roll h test (λ d. IsPower base (mirrored (suc n) d)) n
              (λ d pos short. power_test_iff (mirrored (suc n) d) (mirrored-pos n d pos short)),
          λ i j k l. ground (
            arith,
            row_entry roll h test n i j l,
            row_entry roll h test n j i k,
            mirrored_both (suc n) i j k l,
          ),
        )
