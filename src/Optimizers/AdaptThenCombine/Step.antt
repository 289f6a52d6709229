-- ===== src/Optimizers/AdaptThenCombine/Step.antt =====
-- `step` after a sequence of hooks: exactly as many passes as are counted, too many, or a parameter
-- that has no hook.
use bluefog.Common.{
  ℕ, zero, suc, ◌<◌, ◌≡◌, refl, ◌∙◌, arith, true, false, if◌then◌else◌, Option, none, some, List,
  [], ◌∷◌, ok, raise, value_error,
}
use bluefog.Common.Delays.{pos, negsuc}
use bluefog.Common.Dict.{Dict, lookup, keys}
use bluefog.Common.Ranks.{elem, distinct}
use bluefog.Common.Stateful.{M, for_each}
use bluefog.Optimizers.Communicator.{Communicator, IsCommunicator, Accepts}
use bluefog.Optimizers.Calls.{CommunicationType, Calls, communicator_of, finish-synchronize}
use bluefog.Optimizers.State.{Optimizer, to_data, settle, settled}
use bluefog.Optimizers.State.Settle.{Outstanding, expected, or_else, expected-some, settle-Settled}
use bluefog.Optimizers.State.Count.{Inv}
use bluefog.Optimizers.State.Trace.{count, counters-all, lowered}
use bluefog.Optimizers.AdaptThenCombine.{Adapting, hook, step, synchronize, has_handles, from_keys}
use bluefog.Optimizers.AdaptThenCombine.Counters.{
  none_zero-lookup, all_zero-lookup, all_zero-keys, none_zero-keys, lookup-from_keys,
  keys-from_keys,
}
use bluefog.Optimizers.AdaptThenCombine.Hooks.{
  parameters, IsLocal, run_hook, Adapted, hooks-Adapted,
}

lowered-all : (n : ℕ) → lowered n (some (pos n)) ≡ some (pos 0)
lowered-all zero = refl
lowered-all (suc n) = lowered-all n

lowered-past : (n : ℕ) → lowered (suc n) (some (pos n)) ≡ some (negsuc 0)
lowered-past zero = refl
lowered-past (suc n) = lowered-past n

has_handles-elem :
    {S T : Type 0} (p : ℕ) (o : Optimizer S T) (hs : Dict (Option ℕ))
    → o.handles ≡ hs
    → elem p (keys hs) ≡ true
    → has_handles o ≡ true
has_handles-elem p o [] e m = absurd (ground arith)
has_handles-elem p o ((q, handle) ∷ hs) e m = ground (arith, e)

module _ {S T : Type 0} (calls : Calls S T) (communication_type : CommunicationType) (n : ℕ)
    (func : ℕ → T → M (Optimizer S T) (Unit {0})) (c : Communicator S T)
    (chosen : communicator_of calls communication_type ≡ some c) (Sound : S → Type 0)
    (pending : S → ℕ → Option T) (h : IsCommunicator c Sound pending) where
  -- What `synchronize` leaves of the attributes that the classes share.
  record Combined (o after : Optimizer S T) : Type 0 where
    pub sound : Sound after.bf
    pub empty : after.handles ≡ []
    pub reset :
        (p : ℕ)
        → lookup p after.delay
          ≡ (if elem p (keys o.handles) then some (pos n) else lookup p o.delay)
    pub combined :
        (p : ℕ) → after.param_data p ≡ or_else (expected pending o.bf o.handles p) (o.param_data p)

  synchronize-Combined :
      (o : Optimizer S T)
      → Sound o.bf
      → Outstanding pending o.bf o.handles
      → let (result, after) = synchronize calls communication_type n o in
        (result ≡ ok tt) × Combined o after
  unfolding synchronize
  synchronize-Combined o sound out =
      let (ran, d) = settle-Settled c Sound pending h to_data n o.handles o sound out in
      let whole : synchronize calls communication_type n o
          ≡ (ok tt, settled (settle c.finish to_data n o.handles o).1) =
        ground (arith, finish-synchronize calls communication_type c chosen, ran) in
      rw whole
        (refl, record { sound = d.sound; empty = refl; reset = d.reset; combined = d.written })

  module _ (accepts : (t : T) → Accepts c Sound t)
      (local : (p : ℕ) (grad : T) → IsLocal (func p grad)) where
    -- Before a round of passes: nothing has been started, and all counters are full.
    pub record Fresh (a : Adapting S T) : Type 0 where
      pub inv : Inv c Sound pending h a.base
      pub empty : a.base.handles ≡ []
      pub once : distinct (keys a.step_delay) ≡ true
      pub steps : (p : ℕ) → elem p (keys a.step_delay) ≡ true → lookup p a.step_delay ≡ some (pos n)
      pub delays :
          (p : ℕ) → elem p (keys a.step_delay) ≡ true → lookup p a.base.delay ≡ some (pos n)

    -- The hooks of a sequence, each for a parameter that has counters.
    abbrev pub Hooked : List (ℕ × T) → Adapting S T → Type 0
    Hooked gs a = (p : ℕ) → elem p (parameters gs) ≡ true → elem p (keys a.step_delay) ≡ true

    abbrev pub after_hooks : List (ℕ × T) → Adapting S T → Adapting S T
    after_hooks gs a = (for_each (run_hook calls communication_type n func) gs a).1

    hooks-run :
        (gs : List (ℕ × T)) (a : Adapting S T)
        → Fresh a
        → Hooked gs a
        → ((for_each (run_hook calls communication_type n func) gs a).0 ≡ ok tt)
          × Adapted calls communication_type n func c chosen Sound pending h accepts local
              (parameters gs)
              a
              (after_hooks gs a)
    hooks-run gs a f hooked =
        hooks-Adapted calls communication_type n func c chosen Sound pending h accepts local gs a
          f.inv (counters-all a.step_delay (parameters gs) (λ p m. (pos n, f.steps p (hooked p m))))
          (counters-all a.base.delay (parameters gs) (λ p m. (pos n, f.delays p (hooked p m))))

    module _ {A : Type 0} (size : ℕ) (several : 1 < size)
        (inner_step : Option (M (Optimizer S T) A) → M (Optimizer S T) (Unit {0})) where
      -- Under the same conditions, if one parameter has had all its passes, and another one with
      -- counters has had none, as one that does not require a gradient, then `step` raises a
      -- ValueError and changes nothing.
      pub partial_step :
          (gs : List (ℕ × T)) (a : Adapting S T) (p frozen : ℕ)
          → Fresh a
          → Hooked gs a
          → 0 < n
          → elem p (keys a.step_delay) ≡ true
          → count p (parameters gs) ≡ n
          → elem frozen (keys a.step_delay) ≡ true
          → count frozen (parameters gs) ≡ zero
          → let after = after_hooks gs a in
            step calls communication_type n size inner_step none after ≡ (raise value_error, after)
      unfolding step
      partial_step gs a p frozen f hooked some_passes mine full idle untouched =
          let (ran, adapted) = hooks-run gs a f hooked in
          let after = after_hooks gs a in
          let done : lookup p after.step_delay ≡ some (pos 0) =
            ground (arith, adapted.steps p, f.steps p, full, lowered-all n) in
          let left : lookup frozen after.step_delay ≡ some (pos n) =
            ground (arith, adapted.steps frozen, f.steps frozen, untouched) in
          let started : elem p (keys after.base.handles) ≡ true =
            ground
              (arith, adapted.inv.counted p, adapted.delays p, f.delays p, full, lowered-all n) in
          let busy = has_handles-elem p after.base after.base.handles refl started in
          let some_zero = none_zero-lookup p (pos 0) after.step_delay done refl in
          let some_left = all_zero-lookup frozen (pos n) after.step_delay left (ground arith) in
          ground (arith, busy, some_zero, some_left)

      -- On several ranks, if the operation accepts all tensors, step functions touch parameters
      -- only, nothing has been started, all counters are full, and then each parameter with
      -- counters has as many passes as are counted: `step` succeeds, whatever the step of the
      -- wrapped optimizer would do, sets each parameter to the output that it waited for, and
      -- leaves all counters full and nothing started.
      pub full_step :
          (gs : List (ℕ × T)) (a : Adapting S T) (p : ℕ)
          → Fresh a
          → Hooked gs a
          → 0 < n
          → elem p (keys a.step_delay) ≡ true
          → ((q : ℕ) → elem q (keys a.step_delay) ≡ true → count q (parameters gs) ≡ n)
          → let mid = after_hooks gs a in
            let (result, after) = step calls communication_type n size inner_step none mid in
            (result ≡ ok none)
            × Fresh after
            × ((q : ℕ)
                → elem q (keys a.step_delay) ≡ true
                → (output : T) × (expected pending mid.base.bf mid.base.handles q ≡ some output)
                  × (after.base.param_data q ≡ output))
      unfolding step
      full_step gs a p f hooked some_passes mine full =
          let (ran, adapted) = hooks-run gs a f hooked in
          let mid = after_hooks gs a in
          let same : (q : ℕ) → elem q (keys mid.step_delay) ≡ elem q (keys a.step_delay) =
            λ q. ground (arith, adapted.keys_same q, hooked q) in
          let done : (q : ℕ)
              → elem q (keys mid.step_delay) ≡ true
              → lookup q mid.step_delay ≡ some (pos 0) =
            λ q m. ground (arith, adapted.steps q, f.steps q, full q, lowered-all n, same q) in
          let started : (q : ℕ)
              → elem q (keys a.step_delay) ≡ true
              → elem q (keys mid.base.handles) ≡ true =
            λ q m.
              ground (
                arith,
                adapted.inv.counted q,
                adapted.delays q,
                f.delays q,
                full q,
                lowered-all n,
              ) in
          let busy = has_handles-elem p mid.base mid.base.handles refl (started p mine) in
          let zeros = all_zero-keys mid.step_delay (adapted.once f.once) done in
          let one_zero = none_zero-lookup p (pos 0) mid.step_delay (done p (same p ∙ mine)) refl in
          let (ended, combined) =
            synchronize-Combined mid.base adapted.inv.sound adapted.inv.outstanding in
          let synced = (synchronize calls communication_type n mid.base).1 in
          let after : Adapting S T = record {
            base = record synced { synchronized = false };
            step_delay = from_keys n mid.step_delay;
          } in
          let whole : step calls communication_type n size inner_step none mid ≡ (ok none, after) =
            ground (arith, busy, zeros, one_zero, ended) in
          let kept = keys-from_keys n mid.step_delay in
          let mine' : (q : ℕ)
              → elem q (keys after.step_delay) ≡ true
              → elem q (keys a.step_delay) ≡ true =
            λ q m. ground (arith, kept, m, same q) in
          rw whole (
            refl,
            record {
              inv = record {
                sound = combined.sound;
                outstanding = rw (combined.empty) tt;
                counted =
                    λ q. ground (arith, combined.empty, combined.reset q, adapted.inv.counted q);
              };
              empty = combined.empty;
              once = rw kept (adapted.once f.once);
              steps = λ q m. ground (arith, lookup-from_keys n q mid.step_delay, kept, m);
              delays = λ q m. ground (arith, combined.reset q, started q (mine' q m));
            },
            λ q m.
                let (output, at) =
                  expected-some pending mid.base.bf mid.base.handles q adapted.inv.outstanding
                    (adapted.all_some (rw (f.empty) tt)) (started q m) in
                (output, at, ground (arith, combined.combined q, at)),
          )

      -- Under the same conditions, but with one pass more for each parameter, and a step of the
      -- wrapped optimizer that does not raise and touches parameters only: `step` succeeds and sets
      -- each parameter to the output of the operation that was started before it, so that the
      -- update of the wrapped optimizer is lost. It fills the counters of the operations, but those
      -- of the local updates stay below zero, so that a hook that follows does not depend on its
      -- step function.
      pub overrun_step :
          (gs : List (ℕ × T)) (a : Adapting S T) (p : ℕ)
          → Fresh a
          → Hooked gs a
          → 0 < n
          → elem p (keys a.step_delay) ≡ true
          → ((q : ℕ) → elem q (keys a.step_delay) ≡ true → count q (parameters gs) ≡ suc n)
          → IsLocal (inner_step none)
          → let mid = after_hooks gs a in
            let (result, after) = step calls communication_type n size inner_step none mid in
            (result ≡ ok none)
            × ((q : ℕ)
                → elem q (keys a.step_delay) ≡ true
                → (output : T) × (expected pending mid.base.bf mid.base.handles q ≡ some output)
                  × (after.base.param_data q ≡ output)
                  × (lookup q after.base.delay ≡ some (pos n))
                  × (lookup q after.step_delay ≡ some (negsuc 0)))
            × ((q : ℕ) (grad : T) (other : ℕ → T → M (Optimizer S T) (Unit {0}))
                → elem q (keys a.step_delay) ≡ true
                → run_hook calls communication_type n func (q, grad) after
                  ≡ run_hook calls communication_type n other (q, grad) after)
      unfolding step hook
      overrun_step gs a p f hooked some_passes mine over inner_local =
          let (ran, adapted) = hooks-run gs a f hooked in
          let mid = after_hooks gs a in
          let same : (q : ℕ) → elem q (keys mid.step_delay) ≡ elem q (keys a.step_delay) =
            λ q. ground (arith, adapted.keys_same q, hooked q) in
          let past : (q : ℕ)
              → elem q (keys mid.step_delay) ≡ true
              → lookup q mid.step_delay ≡ some (negsuc 0) =
            λ q m. ground (arith, adapted.steps q, f.steps q, over q, lowered-past n, same q) in
          let started : (q : ℕ)
              → elem q (keys a.step_delay) ≡ true
              → elem q (keys mid.base.handles) ≡ true =
            λ q m. ground (
              arith,
              adapted.inv.counted q,
              adapted.delays q,
              f.delays q,
              over q,
              lowered-past n,
            ) in
          let busy = has_handles-elem p mid.base mid.base.handles refl (started p mine) in
          let none_left =
            none_zero-keys (negsuc 0) mid.step_delay refl (adapted.once f.once) past in
          let (inner_ran, same_bf, same_handles, same_delay) = inner_local mid.base in
          let moved = (inner_step none mid.base).1 in
          let (ended, combined) =
            synchronize-Combined moved (rw same_bf adapted.inv.sound)
              (rw (same_bf, same_handles) adapted.inv.outstanding) in
          let synced = (synchronize calls communication_type n moved).1 in
          let after : Adapting S T = record {
            base = record synced { synchronized = false };
            step_delay = mid.step_delay;
          } in
          let whole : step calls communication_type n size inner_step none mid ≡ (ok none, after) =
            ground (arith, busy, none_left, inner_ran, ended) in
          rw whole (
            refl,
            λ q m.
                let (output, at) =
                  expected-some pending mid.base.bf mid.base.handles q adapted.inv.outstanding
                    (adapted.all_some (rw (f.empty) tt)) (started q m) in
                (
                  output,
                  at,
                  ground (arith, combined.combined q, same_bf, same_handles, at),
                  ground (arith, combined.reset q, same_handles, started q m),
                  past q (same q ∙ m),
                ),
            λ q grad other m. ground (arith, past q (same q ∙ m)),
          )
