-- ===== src/Topology/Static/Mesh/Links.antt =====
-- The links of the grid, and the weights on them.
use bluefog.Common.{
  ℕ, zero, suc, ◌+◌, ◌*◌, ◌/◌, ◌%◌, ◌≤◌, ◌<◌, ◌≡◌, ◌≢◌, refl, ap, arith, false, ltb, ◌==◌,
  Bool-cases, inl, inr, Option, none, some, ok,
}
use native.Mathlib.Nat.{mod-lt, div-add-mod, mul-mod_left}
use bluefog.Common.Ranks.{range, range_from}
use bluefog.Topology.Static.Matrix.{WeightMatrix, DoublyStochastic}
use bluefog.Topology.Static.Star.{Entries, write}
use bluefog.Topology.Static.Mesh.{
  nonzero, closest_factor, link, put, mesh_round, mesh_loop, mesh_grid_2d_graph, shape_of, hastings,
}
use bluefog.Topology.Static.Mesh.Hastings.{hastings_both, hastings-DoublyStochastic}

-- What holds after the rounds of the ranks below `k`.
record Linked (k : ℕ) (topo : Entries) : Type 0 where
  both : (i j : ℕ) → topo i j ≡ topo j i
  self : (i : ℕ) → i < k → topo i i ≡ 60

-- A link that is not a loop keeps it.
link-Linked :
    (k a b : ℕ) (topo : Entries) → a ≢ b → Linked k topo → Linked k (put (put topo a b 60) b a 60)
link-Linked k a b topo n l = record {
  both = λ i j. ground (arith, l.both i j);
  self = λ i h. ground (arith, l.self i h);
}

self-Linked : (k : ℕ) (topo : Entries) → Linked k topo → Linked (k + 1) (put topo k k 60)
self-Linked k topo l = record {
  both = λ i j. ground (arith, l.both i j);
  self = λ i h. ground (arith, l.self i);
}

module _ (size ncol : ℕ) (columns : 0 < ncol) (whole : size % ncol ≡ 0) where
  inside_row : (k : ℕ) → k < size → ((k + 1) % ncol == 0) ≡ false → k + 1 < size
  inside_row k h inside = elim (Bool-cases (k + 1 == size)) [
    | inl end ↦
        let s : k + 1 ≡ size = ground arith in
        absurd (let r = ap (λ (x : ℕ). x % ncol) s in ground (arith, r))
    | inr n ↦ ground arith
  ]

  mesh_round-Linked :
      (topo : Entries) (k : ℕ)
      → k < size
      → Linked k topo
      → (topo' : Entries) × (mesh_round size ncol topo k ≡ ok topo') × Linked (k + 1) topo'
  unfolding mesh_round link write
  mesh_round-Linked topo k h l =
      let own = put topo k k 60 in
      let next = put (put own k (k + 1) 60) (k + 1) k 60 in
      let own_ok = self-Linked k topo l in
      let next_ok = link-Linked (k + 1) k (k + 1) own (omega arith) own_ok in
      let below = λ (t : Entries) (o : Linked (k + 1) t).
        link-Linked (k + 1) k (k + ncol) t (omega arith) o in
      let short = inside_row k h in
      elim (Bool-cases ((k + 1) % ncol == 0)) [
        | inl last ↦ elim (Bool-cases (ltb (k + ncol) size)) [
          | inl above ↦
              (put (put own k (k + ncol) 60) (k + ncol) k 60, ground arith, below own own_ok)
          | inr bottom ↦ (own, ground arith, own_ok)
        ]
        | inr inside ↦ elim (Bool-cases (ltb (k + ncol) size)) [
          | inl above ↦ (
            put (put next k (k + ncol) 60) (k + ncol) k 60,
            ground (arith, short inside),
            below next next_ok,
          )
          | inr bottom ↦ (next, ground (arith, short inside), next_ok)
        ]
      ]

  mesh_loop-Linked :
      (start n : ℕ) (topo : Entries)
      → start + n ≤ size
      → Linked start topo
      → (topo' : Entries) × (mesh_loop size ncol topo (range_from start n) ≡ ok topo')
        × Linked (start + n) topo'
  unfolding mesh_loop
  mesh_loop-Linked start zero topo h l =
      let k : start ≡ start + 0 = omega arith in (topo, refl, rw (← k) l)
  mesh_loop-Linked start (suc n) topo h l =
      let (next, r, m) = mesh_round-Linked topo start (omega arith) l in
      let (topo', r', m') = mesh_loop-Linked (start + 1) n next (omega arith) m in
      let k : start + 1 + n ≡ start + suc n = omega arith in (topo', rw r r', rw (← k) m')

closest_factor-divides :
    (size i : ℕ)
    → 0 < i
    → (f : ℕ) × (closest_factor size i ≡ ok f) × (0 < f) × (f ≤ i) × (size % f ≡ 0)
unfolding closest_factor
closest_factor-divides size zero h = absurd (omega arith)
closest_factor-divides size (suc zero) h =
    let one = mod-lt size {m = 1} (omega arith) in
    (1, ground (arith, one), omega arith, omega arith, omega (arith, one))
closest_factor-divides size (suc (suc k)) h =
    let (f, e, pos, le, divides) = closest_factor-divides size (suc k) (omega arith) in
    elim (Bool-cases (size % suc (suc k) == 0)) [
      | inl found ↦ (suc (suc k), ground arith, omega arith, omega arith, ground arith)
      | inr missed ↦ (f, ground (arith, e), pos, omega (arith, le), divides)
    ]

-- A shape that is given has as many places as there are ranks.
abbrev pub Fits : ℕ → Option (ℕ × ℕ) → Type 0
Fits size none = Unit
Fits size (some (nrow, ncol)) = size ≡ nrow * ncol

shape_of-Fits :
    (isqrt : ℕ → ℕ) (size : ℕ) (shape : Option (ℕ × ℕ))
    → 0 < isqrt size
    → Fits size shape
    → (nrow ncol : ℕ) × (shape_of isqrt size shape ≡ ok (nrow, ncol)) × (size ≡ nrow * ncol)
unfolding shape_of
shape_of-Fits isqrt size (some (nrow, ncol)) h fits = (nrow, ncol, refl, fits)
shape_of-Fits isqrt size none h fits =
    let (f, e, pos, _, divides) = closest_factor-divides size (isqrt size) h in
    (f, size / f, rw e refl, omega (arith, div-add-mod size f, divides))

Fits-columns : (size nrow ncol : ℕ) → 0 < size → size ≡ nrow * ncol → (0 < ncol) × (size % ncol ≡ 0)
Fits-columns size nrow zero pos e = absurd (omega (arith, e))
Fits-columns size nrow (suc c) pos e = (omega arith, rw e (mul-mod_left nrow (suc c)))

-- The mesh grid of any positive size is made, with the shape that is given, if it fits, or with one
-- that is found, provided that the root of the size is rounded to a positive number. Its weights
-- are doubly stochastic and the same in both directions.
pub mesh_grid_2d_graph-weights :
    (isqrt : ℕ → ℕ) (size : ℕ) (shape : Option (ℕ × ℕ))
    → 0 < size
    → 0 < isqrt size
    → Fits size shape
    → (topo : WeightMatrix) × (mesh_grid_2d_graph isqrt size shape ≡ ok topo)
      × (topo.size ≡ size)
      × DoublyStochastic topo
      × ((i j : ℕ) → i < size → j < size → topo.entry i j ≡ topo.entry j i)
unfolding mesh_grid_2d_graph
mesh_grid_2d_graph-weights isqrt size shape pos root fits =
    let (nrow, ncol, e, product) = shape_of-Fits isqrt size shape root fits in
    let (columns, whole) = Fits-columns size nrow ncol pos product in
    let (topo, r, l) =
      mesh_loop-Linked size ncol columns whole 0 size (λ i j. 0) (omega arith)
        (record { both = λ i j. refl; self = λ i h. absurd (omega arith) }) in
    let self : (i : ℕ) → i < size → topo i i ≡ 60 = λ i h. l.self i (omega arith) in
    (
      record {
        size = size;
        entry = hastings size (λ i. nonzero topo i (range size)) topo (range size);
        unit = 60;
      },
      ground (arith, e, product, r),
      refl,
      hastings-DoublyStochastic size topo l.both self,
      hastings_both size topo l.both self,
    )
