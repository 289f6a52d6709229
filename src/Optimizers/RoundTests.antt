-- ===== src/Optimizers/RoundTests.antt =====
-- Small runs of the optimizers that combine parameters.
use Prim.Native.String.{String}
use bluefog.Common.{
  ℕ, ◌+◌, ◌≡◌, refl, arith, Bool, true, false, Option, none, some, List, [], ◌∷◌, ok, raise,
  value_error,
}
use bluefog.Common.Delays.{pos, negsuc}
use bluefog.Common.Dict.{lookup, keys}
use bluefog.Common.Names.{Names}
use bluefog.Common.Ranks.{elem}
use bluefog.Common.Stateful.{M, return}
use bluefog.Optimizers.Calls.{Calls, allreduce}
use bluefog.Optimizers.Modules.{Layer, Module, module_of, no_child, child, named_leaf_module}
use bluefog.Optimizers.State.{Optimizer, set_at}
use bluefog.Optimizers.State.Kept.{Outcome}
use bluefog.Optimizers.State.Settle.{expected}
use bluefog.Optimizers.State.Count.{Inv}
use bluefog.Optimizers.Reduce.Hook.{passed_of}
use bluefog.Optimizers.Reduce.Round as Round
use bluefog.Optimizers.AdaptThenCombine.{Adapting, step}
use bluefog.Optimizers.AdaptThenCombine.Hooks.{IsLocal, run_hook}
use bluefog.Optimizers.AdaptThenCombine.Step as Step
use bluefog.Optimizers.Tests.{
  Desk, desk, desk_start, desk_finish, Tidy, waiting, desk-IsCommunicator, desk_accepts, start_desk,
}

abbrev pub desk_calls : Calls Desk ℕ
desk_calls = record {
  neighbor_allreduce_data_async = desk_start;
  hierarchical_neighbor_allreduce_data_async = desk_start;
  allreduce_data_async = desk_start;
  synchronize = desk_finish;
}

abbrev no_layer : Layer
no_layer = record { training = true; named_parameters = [] }

abbrev linear : Layer
linear = record { training = true; named_parameters = ("weight", 0) ∷ ("bias", 1) ∷ [] }

abbrev full_names : Names ℕ
full_names = ("fc.weight", 0) ∷ ("fc.bias", 1) ∷ []

abbrev all_grad : ℕ → Bool
all_grad p = true

abbrev no_timeline : String → M Desk Bool
no_timeline name = return true

-- Both counters are full.
abbrev pub base : Optimizer Desk ℕ
base = record {
  bf = start_desk;
  param_data = λ p. 10 + p;
  param_grad = λ p. 20 + p;
  handles = [];
  delay = (1, pos 2) ∷ (0, pos 2) ∷ [];
  synchronized = false;
  should_synchronize = true;
  error_encountered = false;
}

base-Inv : Inv desk Tidy waiting desk-IsCommunicator base
base-Inv = record { sound = λ k l. refl; outstanding = tt; counted = λ p. ground arith }

abbrev fc : Module
fc = module_of linear no_child

abbrev net : Module
net = module_of no_layer (child "fc" fc no_child)

abbrev passed : List ℕ
passed = passed_of full_names all_grad (named_leaf_module none net)

base-Fresh :
    Round.Fresh desk_calls allreduce 2 full_names all_grad no_timeline desk refl Tidy waiting
      desk-IsCommunicator desk_accepts passed base
unfolding named_leaf_module
base-Fresh = record { inv = base-Inv; empty = refl; full = λ p m. ground arith }

round-Fresh_example :
    let mid =
      (Round.forwards desk_calls allreduce 2 full_names all_grad no_timeline net 2 base).1 in
    let (result, after) =
      Round.round desk_calls allreduce 2 full_names all_grad no_timeline net base in
    (result ≡ ok tt)
    × Round.Fresh desk_calls allreduce 2 full_names all_grad no_timeline desk refl Tidy waiting
        desk-IsCommunicator desk_accepts passed after
    × ((p : ℕ)
        → elem p passed ≡ true
        → (output : ℕ) × (expected waiting mid.bf mid.handles p ≡ some output)
          × (after.param_data p ≡ output)
          × Outcome desk Tidy waiting (base.param_data p) output)
    × ((k : ℕ) → waiting after.bf k ≡ waiting base.bf k)
    × ((p : ℕ) → elem p passed ≡ false → after.param_data p ≡ base.param_data p)
    × (after.param_grad ≡ base.param_grad)
unfolding named_leaf_module
round-Fresh_example =
    Round.round-Fresh desk_calls allreduce 2 full_names all_grad no_timeline desk refl Tidy waiting
      desk-IsCommunicator desk_accepts no_layer "fc" fc no_child base base-Fresh refl (ground arith)

-- A step function that adds the gradient.
abbrev descend : ℕ → ℕ → M (Optimizer Desk ℕ) (Unit {0})
descend p grad o = (ok tt, record o { param_data = set_at p (o.param_data p + grad) o.param_data })

descend-IsLocal : (p grad : ℕ) → IsLocal (descend p grad)
descend-IsLocal p grad o = (refl, refl, refl, refl)

abbrev adapting : Adapting Desk ℕ
adapting = record { base = base; step_delay = (1, pos 2) ∷ (0, pos 2) ∷ [] }

adapting-Fresh :
    Step.Fresh desk_calls allreduce 2 descend desk refl Tidy waiting desk-IsCommunicator
      desk_accepts descend-IsLocal adapting
adapting-Fresh = record {
  inv = base-Inv;
  empty = refl;
  once = refl;
  steps = λ p m. ground arith;
  delays = λ p m. ground arith;
}

abbrev skip_step : Option (M (Optimizer Desk ℕ) ℕ) → M (Optimizer Desk ℕ) (Unit {0})
skip_step closure = return tt

abbrev two_each : List (ℕ × ℕ)
two_each = (0, 5) ∷ (1, 5) ∷ (0, 6) ∷ (1, 6) ∷ []

abbrev three_each : List (ℕ × ℕ)
three_each = (0, 5) ∷ (1, 5) ∷ (0, 6) ∷ (1, 6) ∷ (0, 7) ∷ (1, 7) ∷ []

abbrev one_only : List (ℕ × ℕ)
one_only = (0, 5) ∷ (0, 6) ∷ []

abbrev after_hooks : List (ℕ × ℕ) → Adapting Desk ℕ
after_hooks gs =
    Step.after_hooks desk_calls allreduce 2 descend desk refl Tidy waiting desk-IsCommunicator
      desk_accepts descend-IsLocal gs adapting

partial_step_example :
    step desk_calls allreduce 2 4 skip_step none (after_hooks one_only)
    ≡ (raise value_error, after_hooks one_only)
partial_step_example =
    Step.partial_step desk_calls allreduce 2 descend desk refl Tidy waiting desk-IsCommunicator
      desk_accepts descend-IsLocal 4 (ground arith) skip_step one_only adapting 0 1 adapting-Fresh
      (λ p m. ground arith) (ground arith) refl refl refl refl

full_step_example :
    let mid = after_hooks two_each in
    let (result, after) = step desk_calls allreduce 2 4 skip_step none mid in
    (result ≡ ok none)
    × Step.Fresh desk_calls allreduce 2 descend desk refl Tidy waiting desk-IsCommunicator
        desk_accepts descend-IsLocal after
    × ((q : ℕ)
        → elem q (keys adapting.step_delay) ≡ true
        → (output : ℕ) × (expected waiting mid.base.bf mid.base.handles q ≡ some output)
          × (after.base.param_data q ≡ output))
full_step_example =
    Step.full_step desk_calls allreduce 2 descend desk refl Tidy waiting desk-IsCommunicator
      desk_accepts descend-IsLocal 4 (ground arith) skip_step two_each adapting 0 adapting-Fresh
      (λ p m. ground arith) (ground arith) refl (λ q m. ground arith)

overrun_step_example :
    let mid = after_hooks three_each in
    let (result, after) = step desk_calls allreduce 2 4 skip_step none mid in
    (result ≡ ok none)
    × ((q : ℕ)
        → elem q (keys adapting.step_delay) ≡ true
        → (output : ℕ) × (expected waiting mid.base.bf mid.base.handles q ≡ some output)
          × (after.base.param_data q ≡ output)
          × (lookup q after.base.delay ≡ some (pos 2))
          × (lookup q after.step_delay ≡ some (negsuc 0)))
    × ((q grad : ℕ) (other : ℕ → ℕ → M (Optimizer Desk ℕ) (Unit {0}))
        → elem q (keys adapting.step_delay) ≡ true
        → run_hook desk_calls allreduce 2 descend (q, grad) after
          ≡ run_hook desk_calls allreduce 2 other (q, grad) after)
overrun_step_example =
    Step.overrun_step desk_calls allreduce 2 descend desk refl Tidy waiting desk-IsCommunicator
      desk_accepts descend-IsLocal 4 (ground arith) skip_step three_each adapting 0 adapting-Fresh
      (λ p m. ground arith) (ground arith) refl (λ q m. ground arith)
      (λ o. (refl, refl, refl, refl))
