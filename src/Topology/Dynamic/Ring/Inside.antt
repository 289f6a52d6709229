-- ===== src/Topology/Dynamic/Ring/Inside.antt =====
-- Both ends of every exchange inside a machine name each other.
use bluefog.Common.{ℕ, ◌+◌, ◌-◌, ◌%◌, ◌<◌, ◌≡◌, ◌≢◌, ◌==◌, if◌then◌else◌, arith}
use bluefog.Common.Arith.{sub_mod, add_mod_small, sub_mod_small}
use bluefog.Topology.Dynamic.Ring.{inner_target, inner_source}

-- One step on a clock of `n` places, as a comparison.
next : ℕ → ℕ → ℕ
next n a = if (a + 1) == n then 0 else a + 1

prev : ℕ → ℕ → ℕ
prev n a = if a == 0 then n - 1 else a - 1

add_mod-next : (a n : ℕ) → a < n → 2 < n → (a + 1) % n ≡ next n a
unfolding next
add_mod-next a n h k = ground (arith, add_mod_small a 1 n h)

sub_mod-prev : (a n : ℕ) → a < n → 2 < n → sub_mod a 1 n ≡ prev n a
unfolding prev
sub_mod-prev a n h k = ground (arith, sub_mod_small a 1 n h)

next-lt : (a n : ℕ) → a < n → 2 < n → next n a < n
unfolding next
next-lt a n h k = ground arith

prev-lt : (a n : ℕ) → a < n → 2 < n → prev n a < n
unfolding prev
prev-lt a n h k = ground arith

module _ (n out : ℕ) (large : 2 < n) (out_lt : out < n) where
  target-next :
      (l : ℕ) → l < n → inner_target n out l ≡ (if next n l == out then next n out else next n l)
  unfolding inner_target
  target-next l h = ground (arith, add_mod-next l n, add_mod-next out n)

  source-prev :
      (l : ℕ) → l < n → inner_source n out l ≡ (if prev n l == out then prev n out else prev n l)
  unfolding inner_source
  source-prev l h = ground (arith, sub_mod-prev l n, sub_mod-prev out n)

  pub target-lt : (l : ℕ) → l < n → inner_target n out l < n
  target-lt l h = ground (arith, target-next l, next-lt l n, next-lt out n)

  pub source-lt : (l : ℕ) → l < n → inner_source n out l < n
  source-lt l h = ground (arith, source-prev l, prev-lt l n, prev-lt out n)

  pub target-ne-out : (l : ℕ) → l < n → inner_target n out l ≢ out
  unfolding next
  target-ne-out l h = ground (arith, target-next l)

  pub source-ne-out : (l : ℕ) → l < n → inner_source n out l ≢ out
  unfolding prev
  source-ne-out l h = ground (arith, source-prev l)

  -- What one end sends, the other receives.
  pub source-target : (l : ℕ) → l < n → l ≢ out → inner_source n out (inner_target n out l) ≡ l
  unfolding next prev
  source-target l h k =
      ground (arith, target-next l, source-prev (inner_target n out l), target-lt l)

  pub target-source : (l : ℕ) → l < n → l ≢ out → inner_target n out (inner_source n out l) ≡ l
  unfolding next prev
  target-source l h k =
      ground (arith, source-prev l, target-next (inner_source n out l), source-lt l)

  pub target-ne_self : (l : ℕ) → l < n → l ≢ out → inner_target n out l ≢ l
  unfolding next
  target-ne_self l h k = ground (arith, target-next l)
