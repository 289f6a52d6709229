-- ===== src/Topology/Dynamic/Expo2/Inside.antt =====
-- The exchanges inside a machine: the local ranks but `out` are matched.
use bluefog.Common.{ℕ, ◌+◌, ◌-◌, ◌%◌, ◌<◌, ◌≤◌, ◌≡◌, ◌≢◌, leb, if◌then◌else◌, arith}
use bluefog.Common.Arith.{sub_mod, add_mod_small, sub_mod_small}
use bluefog.Topology.Dynamic.Expo2.{inner_target, inner_source, leave_out}

-- Steps on a clock of `n` places, as comparisons.
forward : ℕ → ℕ → ℕ → ℕ
forward n a d = if leb n (a + d) then a + d - n else a + d

back : ℕ → ℕ → ℕ → ℕ
back n a d = if leb d a then a - d else a + n - d

add_mod-forward : (a d n : ℕ) → a < n → d < n → (a + d) % n ≡ forward n a d
unfolding forward
add_mod-forward a d n h k = ground (arith, add_mod_small a d n h k)

sub_mod-back : (a d n : ℕ) → a < n → d < n → sub_mod a d n ≡ back n a d
unfolding back
sub_mod-back a d n h k = ground (arith, sub_mod_small a d n h k)

module _ (n out d : ℕ) (out_lt : out < n) (positive : 0 < d) (short : d + 2 ≤ n) where
  target-forward :
      (l : ℕ) → l < n → inner_target n out d l ≡ forward n l (leave_out (back n out l) d)
  unfolding inner_target
  target-forward l h =
      ground (arith, sub_mod-back out l n, add_mod-forward l d n, add_mod-forward l (d + 1) n)

  source-back : (l : ℕ) → l < n → inner_source n out d l ≡ back n l (leave_out (back n l out) d)
  unfolding inner_source
  source-back l h =
      ground (arith, sub_mod-back l out n, sub_mod-back l d n, sub_mod-back l (d + 1) n)

  pub target-lt : (l : ℕ) → l < n → inner_target n out d l < n
  unfolding forward back
  target-lt l h = ground (arith, target-forward l)

  pub source-lt : (l : ℕ) → l < n → inner_source n out d l < n
  unfolding forward back
  source-lt l h = ground (arith, source-back l)

  pub target-ne-out : (l : ℕ) → l < n → l ≢ out → inner_target n out d l ≢ out
  unfolding forward back
  target-ne-out l h k = ground (arith, target-forward l)

  pub source-ne-out : (l : ℕ) → l < n → l ≢ out → inner_source n out d l ≢ out
  unfolding forward back
  source-ne-out l h k = ground (arith, source-back l)

  pub source-target : (l : ℕ) → l < n → l ≢ out → inner_source n out d (inner_target n out d l) ≡ l
  unfolding forward back
  source-target l h k =
      ground (arith, target-forward l, source-back (inner_target n out d l), target-lt l)

  pub target-source : (l : ℕ) → l < n → l ≢ out → inner_target n out d (inner_source n out d l) ≡ l
  unfolding forward back
  target-source l h k =
      ground (arith, source-back l, target-forward (inner_source n out d l), source-lt l)

  pub target-ne_self : (l : ℕ) → l < n → l ≢ out → inner_target n out d l ≢ l
  unfolding forward back
  target-ne_self l h k = ground (arith, target-forward l)
