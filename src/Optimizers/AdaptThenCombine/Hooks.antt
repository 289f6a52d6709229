-- ===== src/Optimizers/AdaptThenCombine/Hooks.antt =====
-- A sequence of hooks, and the counters after it.
use bluefog.Common.{
  ℕ, ◌≡◌, refl, arith, true, ◌||◌, Option, some, List, [], ◌∷◌, ok, Bool-cases, Option-cases, inl,
  inr,
}
use bluefog.Common.Delays.{ℤ, pred, is_zero}
use bluefog.Common.Dict.{lookup, keys, assign, lookup-assign, elem-keys-assign}
use bluefog.Common.Ranks.{elem, distinct}
use bluefog.Common.Stateful.{M, for_each}
use bluefog.Optimizers.Communicator.{Communicator, IsCommunicator, Accepts}
use bluefog.Optimizers.Calls.{CommunicationType, Calls, communicator_of}
use bluefog.Optimizers.State.{Optimizer, communicate, count_down, use_pass}
use bluefog.Optimizers.State.Settle.{AllSome, AllSome-assign}
use bluefog.Optimizers.State.Count.{Inv, count_down-Passed, count_down_ends}
use bluefog.Optimizers.State.Trace.{count, counters, counters-lower, lowered}
use bluefog.Optimizers.AdaptThenCombine.{Adapting, hook, adapt, use_step_pass}
use bluefog.Optimizers.AdaptThenCombine.Counters.{distinct-keys-assign}

-- The parameters of a sequence of hooks.
abbrev pub parameters : {T : Type 0} → List (ℕ × T) → List ℕ
parameters [] = []
parameters ((p, grad) ∷ rest) = p ∷ parameters rest

module _ {S T : Type 0} where
  -- What the optimizer relies on of a step function: it does not raise, and leaves the handles, the
  -- counters and `bf` as they are.
  abbrev pub IsLocal : M (Optimizer S T) (Unit {0}) → Type 0
  IsLocal run =
      (o : Optimizer S T)
      → ((run o).0 ≡ ok tt)
        × ((run o).1.bf ≡ o.bf)
        × ((run o).1.handles ≡ o.handles)
        × ((run o).1.delay ≡ o.delay)

  module _ (calls : Calls S T) (communication_type : CommunicationType)
      (backward_passes_per_step : ℕ) (func : ℕ → T → M (Optimizer S T) (Unit {0})) where
    abbrev pub run_hook : ℕ × T → M (Adapting S T) (Unit {0})
    run_hook (p, grad) = hook calls communication_type backward_passes_per_step (some func) p grad

    module _ (c : Communicator S T) (chosen : communicator_of calls communication_type ≡ some c)
        (Sound : S → Type 0) (pending : S → ℕ → Option T) (h : IsCommunicator c Sound pending)
        (accepts : (t : T) → Accepts c Sound t)
        (local : (p : ℕ) (grad : T) → IsLocal (func p grad)) where
      -- What a sequence of hooks leaves.
      pub record Adapted (ps : List ℕ) (a after : Adapting S T) : Type 0 where
        pub inv : Inv c Sound pending h after.base
        pub steps :
            (q : ℕ) → lookup q after.step_delay ≡ lowered (count q ps) (lookup q a.step_delay)
        pub delays :
            (q : ℕ) → lookup q after.base.delay ≡ lowered (count q ps) (lookup q a.base.delay)
        pub all_some : AllSome a.base.handles → AllSome after.base.handles
        pub keys_same :
            (q : ℕ) → elem q (keys after.step_delay) ≡ (elem q (keys a.step_delay) || elem q ps)
        pub once : distinct (keys a.step_delay) ≡ true → distinct (keys after.step_delay) ≡ true

      Inv-same :
          (o o' : Optimizer S T)
          → o'.bf ≡ o.bf
          → o'.handles ≡ o.handles
          → o'.delay ≡ o.delay
          → Inv c Sound pending h o
          → Inv c Sound pending h o'
      Inv-same o o' b hs d inv = record {
        sound = rw b inv.sound;
        outstanding = rw (b, hs) inv.outstanding;
        counted = rw (hs, d) inv.counted;
      }

      -- The first half of a hook.
      record Stepped (p : ℕ) (d : ℤ) (a after : Adapting S T) : Type 0 where
        pub same_bf : after.base.bf ≡ a.base.bf
        pub same_handles : after.base.handles ≡ a.base.handles
        pub same_delay : after.base.delay ≡ a.base.delay
        pub step : after.step_delay ≡ assign p (pred d) a.step_delay

      adapt-Stepped :
          (p : ℕ) (grad : T) (d : ℤ) (a : Adapting S T)
          → lookup p a.step_delay ≡ some d
          → let (result, after) =
              adapt calls communication_type backward_passes_per_step func p grad a in
            (result ≡ ok tt) × Stepped p d a after
      adapt-Stepped p grad d a at =
          let (ran, b, hs, ds) = local p grad (use_step_pass p d a).base in
          elim (Bool-cases (is_zero (pred d))) [
            | inl last ↦ (
              ground (arith, ran),
              record {
                same_bf = ground (arith, ran, b);
                same_handles = ground (arith, ran, hs);
                same_delay = ground (arith, ran, ds);
                step = ground (arith, ran);
              },
            )
            | inr many ↦ (
              ground arith,
              record {
                same_bf = ground arith;
                same_handles = ground arith;
                same_delay = ground arith;
                step = ground arith;
              },
            )
          ]

      hook-Adapted :
          (p : ℕ) (grad : T) (d e : ℤ) (a : Adapting S T)
          → Inv c Sound pending h a.base
          → lookup p a.step_delay ≡ some d
          → lookup p a.base.delay ≡ some e
          → let (result, after) = run_hook (p, grad) a in
            (result ≡ ok tt) × Adapted (p ∷ []) a after
      unfolding hook
      hook-Adapted p grad d e a inv at at' =
          let (ran, stepped) = adapt-Stepped p grad d a at in
          let mid = (adapt calls communication_type backward_passes_per_step func p grad a).1 in
          let tensor = λ (o : Optimizer S T). o.param_data p in
          let start =
            Inv-same a.base mid.base stepped.same_bf stepped.same_handles stepped.same_delay inv in
          let at_mid : lookup p mid.base.delay ≡ some e = ground (arith, stepped.same_delay) in
          let ends =
            count_down_ends c Sound pending h p e tensor mid.base start at_mid
              (accepts (tensor (use_pass p e mid.base))) in
          let passed = count_down-Passed c Sound pending h p e tensor mid.base start at_mid ends in
          let whole : run_hook (p, grad) a ≡ (
            (count_down p (communicate (some c) tensor) mid.base).0,
            record mid { base = (count_down p (communicate (some c) tensor) mid.base).1 },
          ) =
            ground (arith, ran, chosen) in
          rw whole (
            ends,
            record {
              inv = passed.inv;
              steps = λ q. ground (arith, stepped.step, lookup-assign q p (pred d) a.step_delay);
              delays = λ q. ground (arith, passed.one_less q, stepped.same_delay);
              all_some = λ s.
                  let started : AllSome mid.base.handles = rw (stepped.same_handles) s in
                  elim (Bool-cases (is_zero (pred e))) [
                    | inr quiet ↦
                        let (same_bf, same_handles) = passed.quiet quiet in rw same_handles started
                    | inl last ↦
                        let (handle, kept, new) = passed.starts last in
                        rw kept (AllSome-assign p handle mid.base.handles started)
                  ];
              keys_same =
                  λ q. ground (arith, stepped.step, elem-keys-assign q p (pred d) a.step_delay);
              once =
                  λ o. ground (arith, stepped.step, distinct-keys-assign p (pred d) a.step_delay);
            },
          )

      pub hooks-Adapted :
          (gs : List (ℕ × T)) (a : Adapting S T)
          → Inv c Sound pending h a.base
          → counters a.step_delay (parameters gs) ≡ true
          → counters a.base.delay (parameters gs) ≡ true
          → let (result, after) = for_each run_hook gs a in
            (result ≡ ok tt) × Adapted (parameters gs) a after
      hooks-Adapted [] a inv k l = (
        refl,
        record {
          inv = inv;
          steps = λ q. ground arith;
          delays = λ q. ground arith;
          all_some = λ s. s;
          keys_same = λ q. ground arith;
          once = λ o. o;
        },
      )
      hooks-Adapted ((p, grad) ∷ gs) a inv k l = elim (Option-cases (lookup p a.step_delay)) [
        | inl missing ↦ absurd (ground (arith, missing))
        | inr (d, at) ↦ elim (Option-cases (lookup p a.base.delay)) [
          | inl missing ↦ absurd (ground (arith, missing))
          | inr (e, at') ↦
              let (ran, first) = hook-Adapted p grad d e a inv at at' in
              let mid = (run_hook (p, grad) a).1 in
              let have =
                counters-lower a.step_delay mid.step_delay p (pred d) (parameters gs)
                  (λ q. ground (arith, first.steps q, at)) (ground (arith, at)) in
              let have' =
                counters-lower a.base.delay mid.base.delay p (pred e) (parameters gs)
                  (λ q. ground (arith, first.delays q, at')) (ground (arith, at')) in
              let (rest, after) = hooks-Adapted gs mid first.inv have have' in
              let whole : for_each run_hook ((p, grad) ∷ gs) a ≡ for_each run_hook gs mid =
                ground (arith, ran) in
              rw whole (
                rest,
                record {
                  inv = after.inv;
                  steps = λ q. ground (arith, after.steps q, first.steps q, at);
                  delays = λ q. ground (arith, after.delays q, first.delays q, at');
                  all_some = λ s. after.all_some (first.all_some s);
                  keys_same = λ q. ground (arith, after.keys_same q, first.keys_same q);
                  once = λ o. after.once (first.once o);
                },
              )
        ]
      ]
