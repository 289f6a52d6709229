-- ===== src/Torch/Hierarchical/Ranks.antt =====
-- The ranks that stand for machines.
use bluefog.Common.{
  ℕ, ◌*◌, ◌/◌, ◌%◌, ◌<◌, ◌≡◌, ◌≢◌, refl, arith, true, false, ltb, if◌then◌else◌, none, some, List,
  [], ◌∷◌, map, ok, raise, value_error, ◌∙◌, sym, ap,
}
use native.Mathlib.Nat.{mul-div_cancel, mul-div_cancel_left, mul-mod_right}
use bluefog.Common.Dict.{Dict, keys, lookup, assign, lookup-assign, lookup-missing}
use bluefog.Common.Ranks.{elem, distinct}
use bluefog.Topology.Compare.{all}
use bluefog.Basics.Library.{Library, Basics}
use bluefog.Torch.Weights.{Floats, Plan, needs_weights}
use bluefog.Torch.Hierarchical.{to_ranks, machine_plan, hierarchical_plan}

mul_cancel : (l a b : ℕ) → 0 < l → l * a ≡ l * b → a ≡ b
mul_cancel l a b h e =
    sym (mul-div_cancel_left a {n = l} h) ∙ ap (λ x. x / l) e ∙ mul-div_cancel_left b {n = l} h

module _ {F : Type 0} (l machines : ℕ) (positive : 0 < l) where
  -- Where the loop ends, each machine's weight stands at its first rank, and nothing else has
  -- changed.
  record Translated (others acc ranks : Dict F) : Type 0 where
    at_machine :
        (m : ℕ)
        → lookup (l * m) ranks
          ≡ (if elem m (keys others) then lookup m others else lookup (l * m) acc)
    elsewhere : (r : ℕ) → r % l ≢ 0 → lookup r ranks ≡ lookup r acc

  to_ranks-Translated :
      (others acc : Dict F)
      → distinct (keys others) ≡ true
      → all (λ m. ltb m machines) (keys others) ≡ true
      → (ranks : Dict F) × (to_ranks l machines others acc ≡ ok ranks) × Translated others acc ranks
  unfolding to_ranks all
  to_ranks-Translated [] acc d h =
      (acc, refl, record { at_machine = λ m. refl; elsewhere = λ r n. refl })
  to_ranks-Translated ((k, w) ∷ rest) acc d h =
      let (ranks, e, t) =
        to_ranks-Translated rest (assign (l * k) w acc) (ground arith) (ground arith) in
      (
        ranks,
        ground (arith, e),
        record {
          at_machine = λ m. ground (
            arith,
            t.at_machine m,
            lookup-assign (l * m) (l * k) w acc,
            mul_cancel l m k positive,
          );
          elsewhere = λ r n.
              ground (arith, t.elsewhere r n, lookup-assign r (l * k) w acc, mul-mod_right l k);
        },
      )

  to_ranks-unknown :
      (others acc : Dict F)
      → all (λ m. ltb m machines) (keys others) ≡ false
      → to_ranks l machines others acc ≡ raise value_error
  unfolding to_ranks all
  to_ranks-unknown [] acc h = absurd (ground arith)
  to_ranks-unknown ((k, w) ∷ rest) acc h =
      ground (arith, to_ranks-unknown rest (assign (l * k) w acc))

module _ {F : Type 0} (fl : Floats F) {L : Type 0} (lib : Library L F) where
  -- With weights for distinct machines and a machine to send to, on machines of as many ranks each,
  -- a hierarchical call weights and addresses the first rank of each machine, and no other rank.
  -- If a weight is for a machine that does not exist, it raises instead. The machines to send to are
  -- not checked: one that does not exist is addressed by a rank that does not exist.
  pub hierarchical_plan-first_ranks :
      (bf : Basics L F) (own : F) (others : Dict F) (to : ℕ) (sends : List ℕ) (l machines : ℕ)
      → lib.bluefog_local_size bf.library ≡ some l
      → lib.bluefog_size bf.library ≡ some (machines * l)
      → 0 < l
      → distinct (keys others) ≡ true
      → let planned = hierarchical_plan fl lib bf (some own) (some others) (some (to ∷ sends)) in
        (all (λ m. ltb m machines) (keys others) ≡ true
          → (p : Plan F) × (planned ≡ ok p)
            × (p.self_weight ≡ own)
            × (p.send_neighbors ≡ map (λ m. l * m) (to ∷ sends))
            × (p.dynamic_neighbors_enabled ≡ true)
            × ((m : ℕ) → lookup (l * m) p.neighbor_weights ≡ lookup m others)
            × ((r : ℕ) → r % l ≢ 0 → lookup r p.neighbor_weights ≡ none))
        × (all (λ m. ltb m machines) (keys others) ≡ false → planned ≡ raise value_error)
  unfolding hierarchical_plan machine_plan
  hierarchical_plan-first_ranks bf own others to sends l machines local whole pos d =
      let quotient : machines * l / l ≡ machines = mul-div_cancel machines {n = l} pos in
      (
        λ known.
            let (ranks, e, t) = to_ranks-Translated l machines pos others [] d known in
            (
              record {
                self_weight = own;
                neighbor_weights = ranks;
                send_neighbors = map (λ m. l * m) (to ∷ sends);
                dynamic_neighbors_enabled = true;
                weighted_average_computation = needs_weights fl own others;
              },
              ground (arith, e, quotient, local, whole),
              refl,
              refl,
              refl,
              λ m. ground (arith, t.at_machine m, lookup-missing m others),
              t.elsewhere,
            ),
        λ unknown.
            ground
              (arith, to_ranks-unknown l machines pos others [] unknown, quotient, local, whole),
      )
