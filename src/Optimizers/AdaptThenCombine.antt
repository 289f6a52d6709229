-- ===== src/Optimizers/AdaptThenCombine.antt =====
-- `_DistributedAdaptThenCombineOptimizer`: a hook updates a parameter by its gradient, and starts to
-- combine it with those of other ranks, as soon as the gradient is there.
pub mod Counters
pub mod Hooks
pub mod Step
use bluefog.Common.{
  ℕ, Bool, true, false, not, ◌&&◌, ltb, if◌then◌else◌, Option, none, some, List, [], ◌∷◌, Result,
  ok, raise, key_error, value_error, ◌||◌,
}
use bluefog.Common.Delays.{ℤ, pos, pred, is_due, is_zero}
use bluefog.Common.Dict.{Dict, lookup, assign, keys, constant}
use bluefog.Common.Stateful.{M, ◌>>=◌, ◌>>◌, return, reads, modify, throw}
use bluefog.Optimizers.Calls.{CommunicationType, Calls, communicator_of}
use bluefog.Optimizers.State.{
  Optimizer, to_data, communicate, count_down, settle, settled, zero_grad_with,
}

-- `base` has the attributes that the classes share; its counters are `_reduce_delay`.
pub record Adapting (S T : Type 0) : Type 0 where
  pub base : Optimizer S T
  pub step_delay : Dict ℤ

-- `all(v != 0 for k, v in delay.items())`
abbrev pub none_zero : Dict ℤ → Bool
none_zero [] = true
none_zero ((p, d) ∷ rest) = not (is_zero d) && none_zero rest

-- `all(v == 0 for k, v in delay.items())`
abbrev pub all_zero : Dict ℤ → Bool
all_zero [] = true
all_zero ((p, d) ∷ rest) = is_zero d && all_zero rest

-- `delay.fromkeys(delay, passes)`
abbrev pub from_keys : ℕ → Dict ℤ → Dict ℤ
from_keys passes [] = []
from_keys passes ((p, d) ∷ rest) = (p, pos passes) ∷ from_keys passes rest

-- `if self._handles`
abbrev pub has_handles : {S T : Type 0} → Optimizer S T → Bool
has_handles o = elim o.handles [ [] ↦ false | _ ∷ _ ↦ true ]

module _ {S T : Type 0} where
  abbrev pub on_base : {A : Type 0} → M (Optimizer S T) A → M (Adapting S T) A
  on_base m a = let (r, base) = m a.base in (r, record a { base = base })

  -- `__init__`, around the attributes that the classes share.
  unfoldable pub new_adapting :
      (named_parameters : List ℕ) → (passes : ℕ) → Optimizer S T → Adapting S T
  new_adapting named_parameters passes base = record {
    base = record base {
      handles = [];
      delay = constant (pos passes) named_parameters;
      synchronized = false;
      should_synchronize = true;
      error_encountered = false;
    };
    step_delay = constant (pos passes) named_parameters;
  }

  -- `_step_delay[p]`
  abbrev pub step_delay_at : ℕ → Adapting S T → Result ℤ
  step_delay_at p a = elim (lookup p a.step_delay) [ none ↦ raise key_error | some d ↦ ok d ]

  -- The warning, and one pass less.
  abbrev pub use_step_pass : ℕ → ℤ → Adapting S T → Adapting S T
  use_step_pass p d a = record a {
    base = record (a.base) { error_encountered = is_due d || a.base.error_encountered };
    step_delay = assign p (pred d) a.step_delay;
  }

  module _ (calls : Calls S T) (communication_type : CommunicationType)
      (backward_passes_per_step : ℕ) where
    -- The first half of the hook.
    abbrev pub adapt : (ℕ → T → M (Optimizer S T) (Unit {0})) → ℕ → T → M (Adapting S T) (Unit {0})
    adapt func p grad = do
      d ← reads (step_delay_at p)
      modify (use_step_pass p d)
      (if is_zero (pred d) then on_base (func p grad) else return tt)

    -- The second half.
    abbrev pub combine : ℕ → M (Adapting S T) (Unit {0})
    combine p = on_base (
        count_down p (communicate (communicator_of calls communication_type) (λ o. o.param_data p)))

    -- `_make_hook(p, param_group)`. `step_func` is the function that is registered for the optimizer,
    -- or the one of its class; it changes the parameter, and what it keeps is part of the state `S`.
    unfoldable pub hook :
        Option (ℕ → T → M (Optimizer S T) (Unit {0})) → ℕ → T → M (Adapting S T) (Unit {0})
    unfolding count_down
    hook step_func p grad = elim step_func [
      | none ↦ throw value_error
      | some func ↦ (do adapt func p grad; combine p)
    ]

    unfoldable pub synchronize : M (Optimizer S T) (Unit {0})
    unfolding settle
    synchronize = do
      handles ← reads (λ o. ok o.handles)
      settle calls.synchronize to_data backward_passes_per_step handles
      modify settled

    -- `closure()` where it is given.
    abbrev pub loss_of : {A : Type 0} → Option (M (Optimizer S T) A) → M (Adapting S T) (Option A)
    loss_of none = return none
    loss_of (some closure) = do loss ← on_base closure; return (some loss)

    -- The branch on the counters of the local updates.
    abbrev pub settle_steps : M (Optimizer S T) (Unit {0}) → M (Adapting S T) (Unit {0})
    settle_steps inner_step = do
      delays ← reads (λ a. ok a.step_delay)
      (if none_zero delays
          then on_base inner_step
          else (if all_zero delays
              then modify (λ a. record a { step_delay = from_keys backward_passes_per_step delays })
              else throw value_error))

    -- `step` on one of `size` ranks; `inner_step` is the step of the wrapped optimizer. It returns
    -- the loss in the first case only.
    unfoldable pub step :
        {A : Type 0}
        → (size : ℕ) → (inner_step : Option (M (Optimizer S T) A) → M (Optimizer S T) (Unit {0}))
        → Option (M (Optimizer S T) A)
        → M (Adapting S T) (Option A)
    unfolding synchronize
    step size inner_step closure = do
      busy ← reads (λ a. ok (ltb 1 size && has_handles a.base))
      (if busy
          then (do
            loss ← loss_of closure
            settle_steps (inner_step none)
            on_base synchronize
            on_base (modify (λ o. record o { synchronized = false }))
            return loss)
          else (do on_base (inner_step closure); return none))

    unfoldable pub zero_grad : {A : Type 0} → M (Optimizer S T) A → M (Optimizer S T) A
    unfolding zero_grad_with
    zero_grad inner_zero_grad = zero_grad_with inner_zero_grad
