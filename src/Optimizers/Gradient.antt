-- ===== src/Optimizers/Gradient.antt =====
-- `_DistributedOptimizer`: the gradients are averaged over all ranks. A hook starts the operation
-- when the gradient of a parameter has been accumulated for the last time.
pub mod Start
pub mod Synchronize
pub mod Runs
use bluefog.Common.{
  ℕ, Bool, true, false, not, if◌then◌else◌, Option, none, some, List, [], ◌∷◌, ok, assertion_error,
}
use bluefog.Common.Delays.{pos}
use bluefog.Common.Dict.{Dict, keys, constant}
use bluefog.Common.Ranks.{elem}
use bluefog.Common.Stateful.{M, ◌>>=◌, ◌>>◌, return, reads, modify, require, for_each}
use bluefog.Optimizers.Communicator.{Communicator}
use bluefog.Optimizers.State.{
  Optimizer, to_grad, communicate, count_down, keep_handle, settle, settled, step_with,
  zero_grad_with,
}

-- `self._requires_update - set(self._handles.keys())`, in the order in which the set is iterated.
abbrev pub missing_from : Dict (Option ℕ) → List ℕ → List ℕ
missing_from handles [] = []
missing_from handles (p ∷ ps) =
    let rest = missing_from handles ps in if elem p (keys handles) then rest else p ∷ rest

-- `__init__`, for the parameters of the model.
unfoldable pub new_optimizer :
    {S T : Type 0}
    → (named_parameters : List ℕ) → (passes : ℕ) → S
    → (ℕ → T)
    → (ℕ → T)
    → Optimizer S T
new_optimizer named_parameters passes bf param_data param_grad = record {
  bf = bf;
  param_data = param_data;
  param_grad = param_grad;
  handles = [];
  delay = constant (pos passes) named_parameters;
  synchronized = false;
  should_synchronize = true;
  error_encountered = false;
}

-- `c` is the allreduce; `tracked` is the attribute `requires_grad` of a gradient.
module _ {S T : Type 0} (c : Communicator S T) (tracked : T → Bool) (passes : ℕ)
    (requires_update : List ℕ) where
  -- `_make_hook(p)`
  unfoldable pub hook : ℕ → M (Optimizer S T) (Unit {0})
  unfolding count_down
  hook p = do
    grad ← reads (λ o. ok (o.param_grad p))
    require (not (tracked grad)) assertion_error
    count_down p (communicate (some c) (λ o. o.param_grad p))

  -- A round of the first loop of `synchronize`.
  abbrev pub start_grad : ℕ → M (Optimizer S T) (Unit {0})
  start_grad p = do
    handle ← communicate (some c) (λ o. o.param_grad p)
    modify (keep_handle p handle)

  -- The loop over the handles that are `None`.
  unfoldable pub restart : Dict (Option ℕ) → M (Optimizer S T) (Unit {0})
  restart [] = return tt
  restart ((p, none) ∷ rest) = do start_grad p; restart rest
  restart ((p, some handle) ∷ rest) = restart rest

  unfoldable pub synchronize : M (Optimizer S T) (Unit {0})
  unfolding settle restart
  synchronize = do
    missing ← reads (λ o. ok (missing_from o.handles requires_update))
    for_each start_grad missing
    started ← reads (λ o. ok o.handles)
    restart started
    handles ← reads (λ o. ok o.handles)
    settle c.finish to_grad passes handles
    modify settled

  unfoldable pub step : {A : Type 0} → M (Optimizer S T) A → M (Optimizer S T) A
  unfolding step_with synchronize
  step inner_step = step_with synchronize inner_step

  unfoldable pub zero_grad : {A : Type 0} → M (Optimizer S T) A → M (Optimizer S T) A
  unfolding zero_grad_with
  zero_grad inner_zero_grad = zero_grad_with inner_zero_grad
