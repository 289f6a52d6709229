-- ===== src/Topology/Static/Mesh/Hastings.antt =====
-- The Hastings weights of a symmetric matrix of links.
use bluefog.Common.{
  ℕ, zero, suc, ◌+◌, ◌-◌, ◌*◌, ◌/◌, ◌≤◌, ◌<◌, ◌≡◌, ◌∙◌, refl, ap, arith, true, not, ◌&&◌, ◌==◌,
  if◌then◌else◌, List, [], ◌∷◌, length, Bool-cases, inl, inr,
}
use native.Mathlib.Nat.{
  le-div_iff_mul-le, le_trans, mul-le-mul_left, div-mul-le_self, mul-div-le, suc-mul,
}
use bluefog.Topology.Static.Matrix.{DoublyStochastic}
use bluefog.Common.Ranks.{elem, distinct, range, range_from, elem-range_from}
use bluefog.Common.Sums.{sum_below, sum_congr, sum_first}
use bluefog.Topology.Static.Star.{Entries}
use bluefog.Topology.Static.Star.Match.{sum_at}
use bluefog.Topology.Static.Mesh.{nonzero, put, larger, weight_row, hastings}

weight_row_entries :
    (degree : ℕ → ℕ) (topo : Entries) (i : ℕ) (js : List ℕ) (a b : ℕ)
    → weight_row degree topo i js a b ≡ (
        if a == i && elem b js && not (a == b) then 60 / larger (degree a) (degree b) else topo a b)
unfolding weight_row
weight_row_entries degree topo i [] a b = ground arith
weight_row_entries degree topo i (j ∷ js) a b = ground (
  arith,
  weight_row_entries degree
      (if i == j then topo else put topo i j (60 / larger (degree i) (degree j))) i js a b,
)

module _ (size : ℕ) (neighbors : ℕ → List ℕ) where
  -- A row with its weights, before its diagonal is set.
  weighted : Entries → Entries
  weighted topo a b =
      if elem b (neighbors a) && not (a == b)
      then 60 / larger (length (neighbors a)) (length (neighbors b))
      else topo a b

  final : Entries → Entries
  unfolding weighted
  final topo a b =
      if a == b then 120 - sum_below size (λ c. weighted topo a c) else weighted topo a b

  hastings_entries :
      (rs : List ℕ) (topo : Entries) (a b : ℕ)
      → distinct rs ≡ true
      → hastings size neighbors topo rs a b ≡ (if elem a rs then final topo a b else topo a b)
  unfolding hastings final weighted
  hastings_entries [] topo a b d = refl
  hastings_entries (i ∷ rest) topo a b d =
      let degree = λ (r : ℕ). length (neighbors r) in
      let row = weight_row degree topo i (neighbors i) in
      let topo' = put row i i (120 - sum_below size (λ j. row i j)) in
      let at = λ (c : ℕ). weight_row_entries degree topo i (neighbors i) a c in
      let own =
        sum_congr size (λ j. row i j) (λ c. weighted topo i c)
          (λ c _. weight_row_entries degree topo i (neighbors i) i c ∙ ground arith) in
      elim (Bool-cases (a == i)) [
        | inl e ↦ ground (arith, hastings_entries rest topo' a b (ground arith), at b, own)
        | inr n ↦
            let others =
              sum_congr size (λ c. weighted topo' a c) (λ c. weighted topo a c)
                (λ c _. ground (arith, at c)) in
            ground (arith, hastings_entries rest topo' a b (ground arith), at b, others)
      ]

div_antitone : (n a b : ℕ) → 0 < a → a ≤ b → n / b ≤ n / a
div_antitone n a b h k =
    (le-div_iff_mul-le h).1 (le_trans (mul-le-mul_left (n / b) k) (div-mul-le_self n b))

larger_comm : (a b : ℕ) → larger a b ≡ larger b a
larger_comm a b = ground arith

elem-nonzero :
    (topo : Entries) (i j : ℕ) (js : List ℕ)
    → elem j (nonzero topo i js) ≡ (elem j js && not (topo i j == 0))
unfolding nonzero
elem-nonzero topo i j [] = refl
elem-nonzero topo i j (k ∷ js) = ground (arith, elem-nonzero topo i j js)

-- A rank's degree, as a sum over all columns.
degree_sum :
    (topo : Entries) (i q start n : ℕ)
    → sum_below n (λ k. if topo i (start + k) == 0 then 0 else q)
      ≡ length (nonzero topo i (range_from start n)) * q
unfolding nonzero
degree_sum topo i q start zero = unfold sum_below in omega arith
degree_sum topo i q start (suc n) =
    let shift =
      sum_congr n (λ k. if topo i (start + suc k) == 0 then 0 else q)
        (λ k. if topo i (start + 1 + k) == 0 then 0 else q)
        (λ k _.
          let e : start + suc k ≡ start + 1 + k = omega arith in
          ap (λ (c : ℕ). if topo i c == 0 then 0 else q) e) in
    let first : start + 0 ≡ start = omega arith in
    sum_first n (λ k. if topo i (start + k) == 0 then 0 else q)
    ∙ (elim (Bool-cases (topo i start == 0)) [
      | inl z ↦ ground (arith, first, shift, degree_sum topo i q (start + 1) n)
      | inr z ↦
          let rest = length (nonzero topo i (range_from (start + 1) n)) in
          let e : suc rest * q ≡ rest * q + q = suc-mul rest q in
          ground (arith, first, shift, degree_sum topo i q (start + 1) n, e)
    ])

sum_mono : (n : ℕ) (f g : ℕ → ℕ) → ((k : ℕ) → k < n → f k ≤ g k) → sum_below n f ≤ sum_below n g
unfolding sum_below
sum_mono zero f g h = omega arith
sum_mono (suc n) f g h =
    let last = h n (omega arith) in omega (arith, sum_mono n f g (λ k l. h k (omega arith)), last)

sum_add : (n : ℕ) (f g : ℕ → ℕ) → sum_below n (λ k. f k + g k) ≡ sum_below n f + sum_below n g
unfolding sum_below
sum_add zero f g = omega arith
sum_add (suc n) f g = omega (arith, sum_add n f g)

range-distinct : (start n : ℕ) → distinct (range_from start n) ≡ true
range-distinct start zero = refl
range-distinct start (suc n) =
    ground (arith, range-distinct (start + 1) n, elem-range_from start (start + 1) n)

elem-pos : (j : ℕ) (js : List ℕ) → elem j js ≡ true → 0 < length js
elem-pos j [] m = absurd (ground arith)
elem-pos j (k ∷ js) m = ground arith

module _ (size : ℕ) (topo : Entries) (both : (i j : ℕ) → topo i j ≡ topo j i)
    (self : (i : ℕ) → i < size → topo i i ≡ 60) where
  abbrev neighbors_of : ℕ → List ℕ
  neighbors_of i = nonzero topo i (range size)

  abbrev degree_of : ℕ → ℕ
  degree_of i = length (neighbors_of i)

  -- What a rank sends to another one.
  abbrev share : Entries
  share a b =
      if elem b (neighbors_of a) && not (a == b) then 60 / larger (degree_of a) (degree_of b) else 0

  linked : (a b : ℕ) → b < size → elem b (neighbors_of a) ≡ not (topo a b == 0)
  linked a b h = ground (arith, elem-nonzero topo a b (range size), elem-range_from b 0 size)

  share-le : (a b : ℕ) → b < size → share a b ≤ (if topo a b == 0 then 0 else 60 / degree_of a)
  share-le a b h = ground (
    arith,
    linked a b h,
    elem-pos b (neighbors_of a),
    div_antitone 60 (degree_of a) (larger (degree_of a) (degree_of b)),
  )

  share_sum-le : (a : ℕ) → sum_below size (λ b. share a b) ≤ 60
  share_sum-le a =
      let q = 60 / degree_of a in
      let le = sum_mono size (λ b. share a b) (λ b. if topo a b == 0 then 0 else q) (share-le a) in
      let start =
        sum_congr size (λ b. if topo a b == 0 then 0 else q)
          (λ k. if topo a (0 + k) == 0 then 0 else q)
          (λ k _.
            let e : k ≡ 0 + k = omega arith in ap (λ (c : ℕ). if topo a c == 0 then 0 else q) e) in
      omega (arith, le, start, degree_sum topo a q 0 size, mul-div-le 60 (degree_of a))

  share_comm : (a b : ℕ) → a < size → b < size → share a b ≡ share b a
  share_comm a b h k =
      ground (arith, linked a b k, linked b a h, both a b, larger_comm (degree_of a) (degree_of b))

  -- A row is its shares and its diagonal.
  row_sum :
      (a v : ℕ) (f : ℕ → ℕ)
      → a < size
      → ((b : ℕ) → b < size → f b ≡ (if b == a then v else 0) + share a b)
      → sum_below size f ≡ v + sum_below size (λ b. share a b)
  row_sum a v f h e =
      sum_congr size f (λ b. (if b == a then v else 0) + share a b) e
      ∙ sum_add size (λ b. if b == a then v else 0) (λ b. share a b)
      ∙ ground (arith, sum_at size a v)

  weighted_sum :
      (a : ℕ)
      → a < size
      → sum_below size (λ b. weighted size neighbors_of topo a b)
        ≡ 60 + sum_below size (λ b. share a b)
  unfolding weighted
  weighted_sum a h =
      row_sum a 60 (λ b. weighted size neighbors_of topo a b) h
        (λ b k. ground (arith, linked a b k, self a h))

  pub hastings_row :
      (a : ℕ)
      → a < size
      → sum_below size (λ b. hastings size neighbors_of topo (range size) a b) ≡ 60
  unfolding final weighted
  hastings_row a h =
      let at = λ (b : ℕ).
        hastings_entries size neighbors_of (range size) topo a b (range-distinct 0 size) in
      row_sum a (120 - sum_below size (λ c. weighted size neighbors_of topo a c))
        (λ b. hastings size neighbors_of topo (range size) a b) h
        (λ b k. ground (arith, at b, linked a b k, elem-range_from a 0 size))
      ∙ omega (arith, weighted_sum a h, share_sum-le a)

  pub hastings_both :
      (a b : ℕ)
      → a < size
      → b < size
      → hastings size neighbors_of topo (range size) a b
        ≡ hastings size neighbors_of topo (range size) b a
  unfolding final weighted
  hastings_both a b h k = elim (Bool-cases (a == b)) [
    | inl e ↦ let same : a ≡ b = ground arith in rw same refl
    | inr n ↦ ground (
      arith,
      hastings_entries size neighbors_of (range size) topo a b (range-distinct 0 size),
      hastings_entries size neighbors_of (range size) topo b a (range-distinct 0 size),
      elem-range_from a 0 size,
      elem-range_from b 0 size,
      both a b,
      linked a b k,
      linked b a h,
      larger_comm (degree_of a) (degree_of b),
    )
  ]

  -- The weights of a symmetric matrix of links with all self-loops are doubly stochastic.
  pub hastings-DoublyStochastic :
      DoublyStochastic
        (record { size = size; entry = hastings size neighbors_of topo (range size); unit = 60 })
  hastings-DoublyStochastic = record {
    denominator = omega arith;
    rows = hastings_row;
    columns = λ j h.
        sum_congr size (λ i. hastings size neighbors_of topo (range size) i j)
          (λ i. hastings size neighbors_of topo (range size) j i) (λ i k. hastings_both i j k h)
        ∙ hastings_row j h;
  }
