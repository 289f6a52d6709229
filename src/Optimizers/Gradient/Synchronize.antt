-- ===== src/Optimizers/Gradient/Synchronize.antt =====
-- What `synchronize` promises, and so `step`.
use bluefog.Common.{
  none, Bool-cases, inl, inr, ℕ, ◌<◌, ◌≡◌, refl, arith, Bool, true, false, ◌||◌, if◌then◌else◌,
  Option, some, List, [], ok,
}
use bluefog.Common.Delays.{pos}
use bluefog.Common.Dict.{lookup, keys, lookup-missing}
use bluefog.Common.Stateful.{for_each}
use bluefog.Common.Ranks.{elem, distinct}
use bluefog.Optimizers.Communicator.{Communicator, IsCommunicator, Accepts}
use bluefog.Optimizers.State.{Optimizer, to_grad, settle, settled}
use bluefog.Optimizers.State.Settle.{handles_of, AllSome, settle-Settled}
use bluefog.Optimizers.State.Kept.{Outcome}
use bluefog.Optimizers.State.Count.{Inv}
use bluefog.Optimizers.Gradient.{missing_from, start_grad, synchronize}
use bluefog.Optimizers.Gradient.Start.{
  start_grads-Started, restart-idle, elem-missing_from, distinct-missing_from,
}

module _ {S T : Type 0} (c : Communicator S T) (Sound : S → Type 0) (pending : S → ℕ → Option T)
    (h : IsCommunicator c Sound pending) where
  -- What holds between two calls.
  pub record Ready (o : Optimizer S T) : Type 0 where
    pub inv : Inv c Sound pending h o
    pub all_some : AllSome o.handles

  -- What a synchronization leaves. `mine p` is true of the parameters with a gradient to average.
  pub record Synchronized (passes : ℕ) (mine : ℕ → Bool) (o after : Optimizer S T) : Type 0 where
    pub ready : Ready after
    pub empty : after.handles ≡ []
    pub flag : after.synchronized ≡ true
    pub reset :
        (p : ℕ) → lookup p after.delay ≡ (if mine p then some (pos passes) else lookup p o.delay)
    pub averaged :
        (p handle : ℕ) (output : T)
        → lookup p o.handles ≡ some (some handle)
        → pending o.bf handle ≡ some output
        → after.param_grad p ≡ output
    pub started :
        (p : ℕ)
        → elem p (keys o.handles) ≡ false
        → mine p ≡ true
        → Outcome c Sound pending (o.param_grad p) (after.param_grad p)
    pub left :
        (k : ℕ)
        → pending after.bf k ≡ (if elem k (handles_of o.handles) then none else pending o.bf k)
    pub untouched : (p : ℕ) → mine p ≡ false → after.param_grad p ≡ o.param_grad p
    pub same_data : after.param_data ≡ o.param_data

  module _ (accepts : (t : T) → Accepts c Sound t) (tracked : T → Bool) (passes : ℕ)
      (requires_update : List ℕ) (some_passes : 0 < passes)
      (once : distinct requires_update ≡ true) where
    -- If the allreduce accepts all tensors, the handles are outstanding, the number of passes is
    -- not zero and no parameter is listed twice, then `synchronize` does not raise. No handle is
    -- left. Each gradient with a handle is the output that it waited for, and each other gradient
    -- that is updated is an output of the operation started for that gradient. Of what was pending,
    -- only the outputs that were waited for are gone, and nothing is pending that was not before. The
    -- counters of all parameters with a handle, and of all that are updated, are full, whatever they
    -- were. The gradients of the other parameters, and all data, stay.
    pub synchronize-Synchronized :
        (o : Optimizer S T)
        → Ready o
        → let (result, after) = synchronize c tracked passes requires_update o in
          (result ≡ ok tt)
          × Synchronized passes (λ p. elem p (keys o.handles) || elem p requires_update) o after
    unfolding synchronize
    synchronize-Synchronized o r =
        let ps = missing_from o.handles requires_update in
        let (ran, s) =
          start_grads-Started c Sound pending h accepts tracked passes requires_update ps o
            r.inv.sound r.inv.outstanding r.all_some
            (distinct-missing_from o.handles requires_update once)
            (λ q m. ground (arith, elem-missing_from q o.handles requires_update)) in
        let mid = (for_each (start_grad c tracked passes requires_update) ps o).1 in
        let idle =
          restart-idle c Sound pending h accepts tracked passes requires_update mid.handles mid
            s.all_some in
        let (waited, d) =
          settle-Settled c Sound pending h to_grad passes mid.handles mid s.sound s.outstanding in
        let mine = λ (p : ℕ). elem p (keys o.handles) || elem p requires_update in
        let keyed : (p : ℕ) → elem p (keys mid.handles) ≡ mine p =
          λ p. ground (arith, s.listed p, elem-missing_from p o.handles requires_update) in
        let whole : synchronize c tracked passes requires_update o
            ≡ (ok tt, settled (settle c.finish to_grad passes mid.handles mid).1) =
          ground (arith, ran, idle, waited) in
        rw whole (
          refl,
          record {
            ready = record {
              inv = record {
                sound = d.sound;
                outstanding = tt;
                counted = λ p. ground (arith, d.reset p, keyed p, r.inv.counted p, s.same_delay);
              };
              all_some = tt;
            };
            empty = refl;
            flag = refl;
            reset = λ p. ground (arith, d.reset p, keyed p, s.same_delay);
            averaged = λ p handle output at wait. ground (
              arith,
              d.written p,
              s.older p,
              s.still handle output,
              elem-missing_from p o.handles requires_update,
              lookup-missing p o.handles,
            );
            started = λ p n m.
                let (output, at, made) =
                  s.begun p (ground (arith, elem-missing_from p o.handles requires_update)) in
                let written : (settle c.finish to_grad passes mid.handles mid).1.param_grad p
                    ≡ output =
                  ground (arith, d.written p, at) in
                rw written made;
            left = λ k. elim (Bool-cases (elem k (handles_of mid.handles))) [
              | inl m ↦ elim (Bool-cases (elem k (handles_of o.handles))) [
                | inl older ↦ ground (arith, d.used k)
                | inr new ↦ ground (arith, d.used k, s.kept.new k new m)
              ]
              | inr n ↦ ground (arith, d.used k, s.kept.clean k n, s.kept.more k)
            ];
            untouched = λ p n.
                ground (arith, d.written p, keyed p, lookup-missing p mid.handles, s.same_grad);
            same_data = ground (arith, d.same_other, s.same_data);
          },
        )
