-- ===== src/Optimizers/Gradient/Runs.antt =====
-- A parameter over several backward passes.
use bluefog.Common.{
  ℕ, zero, suc, ◌-◌, ◌≤◌, ◌<◌, ◌≡◌, refl, arith, Bool, true, false, ◌||◌, ltb, leb, if◌then◌else◌,
  Option, some, List, ok, Bool-cases, inl, inr,
}
use bluefog.Common.Delays.{ℤ, pos, negsuc, pred, is_zero}
use bluefog.Common.Dict.{lookup, assign}
use bluefog.Common.Stateful.{M, ◌>>◌, return}
use bluefog.Optimizers.Communicator.{Communicator, IsCommunicator, Accepts}
use bluefog.Optimizers.State.{Optimizer}
use bluefog.Optimizers.State.Count.{Inv, Passed, count_down-Passed, count_down_ends}
use bluefog.Optimizers.Gradient.{hook}

-- A counter that starts at `m`, after `k` passes.
abbrev pub after_passes : (m k : ℕ) → ℤ
after_passes m k = if leb k m then pos (m - k) else negsuc (k - m - 1)

pred-after_passes : (m k : ℕ) → pred (after_passes m k) ≡ after_passes m (suc k)
pred-after_passes m k = ground arith

module _ {S T : Type 0} (c : Communicator S T) (tracked : T → Bool) (passes : ℕ)
    (requires_update : List ℕ) where
  -- The hook of a parameter, `k` times.
  unfoldable pub backward_passes : ℕ → (k : ℕ) → M (Optimizer S T) (Unit {0})
  unfolding hook
  backward_passes p zero = return tt
  backward_passes p (suc k) = do backward_passes p k; hook c tracked passes requires_update p

  module _ (Sound : S → Type 0) (pending : S → ℕ → Option T) (h : IsCommunicator c Sound pending)
      (accepts : (t : T) → Accepts c Sound t) (untracked : (t : T) → tracked t ≡ false) where
    hook-Passed :
        (p : ℕ) (d : ℤ) (o : Optimizer S T)
        → Inv c Sound pending h o
        → lookup p o.delay ≡ some d
        → let (result, after) = hook c tracked passes requires_update p o in
          (result ≡ ok tt) × Passed c Sound pending h p d (λ o. o.param_grad p) o after
    unfolding hook
    hook-Passed p d o inv at =
        let ends =
          count_down_ends c Sound pending h p d (λ o. o.param_grad p) o inv at
            (accepts (o.param_grad p)) in
        let passed = count_down-Passed c Sound pending h p d (λ o. o.param_grad p) o inv at ends in
        let plain = untracked (o.param_grad p) in rw plain (ends, passed)

    -- What `k` passes leave of a parameter whose counter was `m`.
    pub record Ran (p m k : ℕ) (o after : Optimizer S T) : Type 0 where
      pub inv : Inv c Sound pending h after
      pub count : lookup p after.delay ≡ some (after_passes m k)
      pub same_grad : after.param_grad ≡ o.param_grad
      pub quiet : k < m → (after.bf ≡ o.bf) × (after.handles ≡ o.handles)
      pub one_call :
          m ≤ k
          → (handle : ℕ) × (after.handles ≡ assign p (some handle) o.handles)
            × (after.bf ≡ (c.start (o.param_grad p) o.bf).1)
      pub warned : after.error_encountered ≡ (ltb m k || o.error_encountered)

    -- If no gradient is itself tracked and the allreduce accepts all tensors, then `k` passes of a
    -- parameter whose counter is `m`, not zero, do not raise, and lower the counter by `k`. Below
    -- `m` passes nothing has been called; from then on the allreduce of the gradient has been
    -- called once. The warning has been given exactly if `k` is above `m` or it was given before.
    pub backward_passes-Ran :
        (p m k : ℕ) (o : Optimizer S T)
        → Inv c Sound pending h o
        → 0 < m
        → lookup p o.delay ≡ some (pos m)
        → let (result, after) = backward_passes p k o in (result ≡ ok tt) × Ran p m k o after
    unfolding backward_passes
    backward_passes-Ran p m zero o inv some_passes at = (
      refl,
      record {
        inv = inv;
        count = ground (arith, at);
        same_grad = refl;
        quiet = λ _. (refl, refl);
        one_call = λ n. absurd (ground arith);
        warned = ground arith;
      },
    )
    backward_passes-Ran p m (suc k) o inv some_passes at =
        let (ran, before) = backward_passes-Ran p m k o inv some_passes at in
        let mid = (backward_passes p k o).1 in
        let d = after_passes m k in
        let (ends, passed) = hook-Passed p d mid before.inv before.count in
        let whole : backward_passes p (suc k) o ≡ hook c tracked passes requires_update p mid =
          ground (arith, ran) in
        let step = pred-after_passes m k in
        rw whole (
          ends,
          record {
            inv = passed.inv;
            count = ground (arith, passed.one_less p, step);
            same_grad = ground (arith, passed.same_attributes, before.same_grad);
            quiet = λ n. ground (arith, before.quiet, passed.quiet);
            one_call = λ n. elim (Bool-cases (ltb k m)) [
              | inl last ↦
                  let zero_now : is_zero (pred d) ≡ true = ground (arith, step) in
                  let (handle, kept, new) = passed.starts zero_now in
                  let (same_bf, same_handles) = before.quiet (ground arith) in
                  (
                    handle,
                    ground (arith, kept, same_handles),
                    ground (arith, passed.called zero_now, same_bf, before.same_grad),
                  )
              | inr past ↦
                  let not_now : is_zero (pred d) ≡ false = ground (arith, step) in
                  let (handle, kept, called) = before.one_call (ground arith) in
                  let (same_bf, same_handles) = passed.quiet not_now in
                  (handle, ground (arith, kept, same_handles), ground (arith, called, same_bf))
            ];
            warned = ground (arith, passed.warned, before.warned);
          },
        )
