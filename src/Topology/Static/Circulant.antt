-- ===== src/Topology/Static/Circulant.antt =====
-- The loop that most topologies end with: row `i` is the first row, rolled by `i`.
use bluefog.Common.{ℕ, ◌+◌, ◌-◌, ◌%◌, ◌<◌, ◌≡◌, sym, ap, ◌∙◌, arith, List, length, get_or}
use bluefog.Common.Arith.{sub_mod}
use bluefog.Common.Sums.{total, sum_congr, sum_shift, sum_reverse, total-sum_below}
use native.Mathlib.Nat.{mod-eq_of_lt}
use bluefog.Topology.Static.Matrix.{WeightMatrix, DoublyStochastic, IsRoll}

module _ (roll : List ℕ → ℕ → List ℕ) where
  -- `topo[i] = np.roll(x, i)` for each row.
  abbrev pub circulant : (size : ℕ) (x : List ℕ) (unit : ℕ) → WeightMatrix
  circulant size x unit = record { size = size; entry = λ i j. get_or (roll x i) j 0; unit = unit }

  module _ (h : IsRoll roll) where
    -- An entry depends on the distance of the ranks only.
    pub circulant_entry :
        (x : List ℕ) (unit i j : ℕ)
        → j < length x
        → (circulant (length x) x unit).entry i j ≡ get_or x (sub_mod j i (length x)) 0
    circulant_entry x unit i j k = h.rolled x i j k

    -- If the first row sums up to the denominator, then so do all rows and columns.
    pub circulant-DoublyStochastic :
        (x : List ℕ) (unit : ℕ)
        → 0 < unit
        → total x ≡ unit
        → DoublyStochastic (circulant (length x) x unit)
    unfolding sub_mod
    circulant-DoublyStochastic x unit pos e =
        let n = length x in
        let f = λ (k : ℕ). get_or x k 0 in
        let whole = sym (total-sum_below x) ∙ e in
        record {
          denominator = pos;
          rows = λ i k.
              sum_congr n (λ j. get_or (roll x i) j 0) (λ j. f ((j + (n - i % n)) % n))
                (λ j l. h.rolled x i j l)
              ∙ sum_shift n (n - i % n) f
              ∙ whole;
          columns = λ j k.
              sum_congr n (λ i. get_or (roll x i) j 0) (λ i. f ((n - 1 - i + (j + 1)) % n))
                (λ i l.
                  h.rolled x i j k ∙ ap (λ (d : ℕ). f (d % n)) (rw (mod-eq_of_lt l) (omega arith)))
              ∙ sum_reverse n (λ i. f ((i + (j + 1)) % n))
              ∙ sum_shift n (j + 1) f
              ∙ whole;
        }
