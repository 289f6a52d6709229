-- ===== src/Optimizers/State.antt =====
-- What the optimizers keep, and the parts that their classes share. A parameter is a number, its
-- identity as an object; the functions `param_data` and `param_grad` are the attributes `data` and `grad`.
pub mod Settle
pub mod Kept
pub mod Count
pub mod Trace
use bluefog.Common.{
  ℕ, ◌==◌, Bool, true, false, ◌||◌, if◌then◌else◌, Option, none, some, List, [], ◌∷◌, Result, ok,
  raise, key_error, assertion_error,
}
use bluefog.Common.Delays.{ℤ, pos, pred, is_due, is_zero}
use bluefog.Common.Dict.{Dict, lookup, assign}
use bluefog.Optimizers.Communicator.{Communicator}
use bluefog.Common.Stateful.{M, ◌>>=◌, ◌>>◌, return, reads, modify}

-- The attributes `_handles`, `_allreduce_delay` (or `_reduce_delay`, `_bluefog_delay`,
-- `_pushsum_delay`), `_synchronized`, `_should_synchronize` and `_error_encountered`, with the state
-- of `bf`. A handle is `none` where there is no communication.
pub record Optimizer (S T : Type 0) : Type 0 where
  pub bf : S
  pub param_data : ℕ → T
  pub param_grad : ℕ → T
  pub handles : Dict (Option ℕ)
  pub delay : Dict ℤ
  pub synchronized : Bool
  pub should_synchronize : Bool
  pub error_encountered : Bool

-- What the outputs are written to.
pub data Target : Type 0 where
  to_data to_grad : Target

-- An attribute of one parameter.
abbrev pub set_at : {T : Type 0} → ℕ → T → (ℕ → T) → ℕ → T
set_at p t f q = if q == p then t else f q

module _ {S T : Type 0} where
  -- A call of `bf`.
  abbrev pub on_bf : {A : Type 0} → M S A → M (Optimizer S T) A
  on_bf m o = let (r, s) = m o.bf in (r, record o { bf = s })

  -- `delay[p]`
  abbrev pub delay_at : ℕ → Optimizer S T → Result ℤ
  delay_at p o = elim (lookup p o.delay) [ none ↦ raise key_error | some d ↦ ok d ]

  -- `warnings.warn` once, if the counter has been used up, and one pass less.
  abbrev pub use_pass : ℕ → ℤ → Optimizer S T → Optimizer S T
  use_pass p d o = record o {
    error_encountered = is_due d || o.error_encountered;
    delay = assign p (pred d) o.delay;
  }

  -- `self._handles[p] = handle`
  abbrev pub keep_handle : ℕ → Option ℕ → Optimizer S T → Optimizer S T
  keep_handle p handle o = record o { handles = assign p handle o.handles }

  -- The call for a parameter's tensor. The communication type `empty` makes none.
  abbrev pub communicate :
      Option (Communicator S T) → (Optimizer S T → T) → M (Optimizer S T) (Option ℕ)
  communicate none tensor = return none
  communicate (some c) tensor = do
    t ← reads (λ o. ok (tensor o))
    handle ← on_bf (c.start t)
    return (some handle)

  -- The part of a hook that counts the passes of a parameter, and communicates at the last one.
  unfoldable pub count_down : ℕ → M (Optimizer S T) (Option ℕ) → M (Optimizer S T) (Unit {0})
  count_down p communicate = do
    d ← reads (delay_at p)
    modify (use_pass p d)
    (if is_zero (pred d)
        then (do handle ← communicate; modify (keep_handle p handle))
        else return tt)

  -- `p.set_(output)` or `p.grad.set_(output)`
  abbrev pub write_to : Target → ℕ → T → Optimizer S T → Optimizer S T
  write_to target p output o = record o {
    param_data = elim target [ to_data ↦ set_at p output o.param_data | to_grad ↦ o.param_data ];
    param_grad = elim target [ to_data ↦ o.param_grad | to_grad ↦ set_at p output o.param_grad ];
  }

  -- The loop over `_handles` in `synchronize`: it waits for each handle, resets the counters to
  -- `passes`, and writes the outputs.
  unfoldable pub settle :
      (finish : ℕ → M S T) → Target → (passes : ℕ) → Dict (Option ℕ) → M (Optimizer S T) (Unit {0})
  settle finish target passes [] = return tt
  settle finish target passes ((p, none) ∷ rest) = do
    modify (λ o. record o { delay = assign p (pos passes) o.delay })
    settle finish target passes rest
  settle finish target passes ((p, some handle) ∷ rest) = do
    output ← on_bf (finish handle)
    modify (write_to target p output)
    modify (λ o. record o { delay = assign p (pos passes) o.delay })
    settle finish target passes rest

  -- `self._handles.clear()` and `self._synchronized = True`
  abbrev pub settled : Optimizer S T → Optimizer S T
  settled o = record o { handles = []; synchronized = true }

  -- `with skip_synchronize(): body`
  unfoldable pub skip_synchronize : {A : Type 0} → M (Optimizer S T) A → M (Optimizer S T) A
  skip_synchronize body o =
      let (result, after) = body (record o { should_synchronize = false }) in
      (result, record after { should_synchronize = true })

  -- `step`, around the `synchronize` of the class and the step of the wrapped optimizer.
  unfoldable pub step_with :
      {A : Type 0}
      → (synchronize : M (Optimizer S T) (Unit {0})) → (inner_step : M (Optimizer S T) A)
      → M (Optimizer S T) A
  step_with synchronize inner_step = do
    should ← reads (λ o. ok o.should_synchronize)
    (if should then synchronize else return tt)
    modify (λ o. record o { synchronized = false })
    inner_step

  -- `zero_grad` of the classes that have their own.
  unfoldable pub zero_grad_with : {A : Type 0} → M (Optimizer S T) A → M (Optimizer S T) A
  zero_grad_with inner_zero_grad o = elim o.handles [
    | [] ↦ inner_zero_grad o
    | _ ∷ _ ↦ (raise assertion_error, o)
  ]
