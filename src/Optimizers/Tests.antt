-- ===== src/Optimizers/Tests.antt =====
-- Small runs of the optimizers, with operations that add one to a tensor.
use bluefog.Common.{
  true, ℕ, ◌+◌, ◌≤◌, ◌≡◌, refl, arith, Bool, false, ◌||◌, if◌then◌else◌, Option, none, some, List,
  [], ◌∷◌, ok, raise, value_error, Result,
}
use bluefog.Common.Dict.{Dict, lookup, assign, delete, keys, lookup-assign, lookup-delete}
use bluefog.Common.Delays.{pos}
use bluefog.Common.Ranks.{elem}
use bluefog.Common.Stateful.{M}
use bluefog.Optimizers.Utility.{
  Params, from_list, communicate_parameters, is_valid, communicate_parameters-balanced,
}
use bluefog.Optimizers.Communicator.{Communicator, IsCommunicator, Accepts}
use bluefog.Optimizers.State.{Optimizer}
use bluefog.Optimizers.State.Count.{Inv}
use bluefog.Optimizers.Gradient.{new_optimizer, synchronize}
use bluefog.Optimizers.Gradient.Synchronize.{Ready, Synchronized, synchronize-Synchronized}
use bluefog.Optimizers.Gradient.Runs.{Ran, backward_passes, backward_passes-Ran}

-- The next handle, and the outputs that are waited for.
abbrev pub Desk : Type 0
Desk = ℕ × Dict ℕ

abbrev pub desk_start : ℕ → M Desk ℕ
desk_start t (handle, outputs) = (ok handle, (handle + 1, assign handle (t + 1) outputs))

abbrev pub taken : Option ℕ → ℕ → Desk → Result ℕ × Desk
taken none handle s = (raise value_error, s)
taken (some output) handle (n, outputs) = (ok output, (n, delete handle outputs))

abbrev pub desk_finish : ℕ → M Desk ℕ
desk_finish handle (n, outputs) = taken (lookup handle outputs) handle (n, outputs)

abbrev pub desk : Communicator Desk ℕ
desk = record { start = desk_start; finish = desk_finish }

abbrev pub Tidy : Desk → Type 0
Tidy (n, outputs) = (k : ℕ) → n ≤ k → lookup k outputs ≡ none

abbrev pub waiting : Desk → ℕ → Option ℕ
waiting (n, outputs) handle = lookup handle outputs

pub desk-IsCommunicator : IsCommunicator desk Tidy waiting
desk-IsCommunicator = record {
  started = λ t s handle tidy ran. (
    t + 1,
    λ k l. ground (arith, tidy k, lookup-assign k s.0 (t + 1) s.1),
    ground (arith, tidy handle),
    λ k. ground (arith, lookup-assign k handle (t + 1) s.1),
  );
  refused = λ t s e sound ran. absurd (ground arith);
  finished = λ handle output s tidy wait. (
    ground (arith, wait),
    λ k l. ground (arith, wait, tidy k, lookup-delete k handle s.1),
    λ k. ground (arith, wait, lookup-delete k handle s.1),
  );
}

pub desk_accepts : (t : ℕ) → Accepts desk Tidy t
desk_accepts t s tidy = (s.0, refl)

abbrev pub two_parameters : List ℕ
two_parameters = 0 ∷ 1 ∷ []

abbrev pub untracked : ℕ → Bool
untracked t = false

abbrev pub start_desk : Desk
start_desk = (0, [])

abbrev pub fresh : Optimizer Desk ℕ
fresh = new_optimizer two_parameters 2 start_desk (λ p. 10 + p) (λ p. 20 + p)

fresh-Inv : Inv desk Tidy waiting desk-IsCommunicator fresh
unfolding new_optimizer
fresh-Inv = record { sound = λ k l. refl; outstanding = tt; counted = λ p. ground arith }

-- The first parameter waits for the output of a handle; the second has none.
abbrev half : Optimizer Desk ℕ
half = record {
  bf = (1, assign 0 77 []);
  param_data = λ p. 10 + p;
  param_grad = λ p. 20 + p;
  handles = (0, some 0) ∷ [];
  delay = (0, pos 0) ∷ (1, pos 2) ∷ [];
  synchronized = false;
  should_synchronize = true;
  error_encountered = false;
}

half-Ready : Ready desk Tidy waiting desk-IsCommunicator half
half-Ready = record {
  inv = record {
    sound = λ k l. ground arith;
    outstanding = (refl, refl, (77, refl), tt);
    counted = λ p. ground arith;
  };
  all_some = tt;
}

synchronize-Synchronized_example :
    let (result, after) = synchronize desk untracked 2 two_parameters half in
    (result ≡ ok tt)
    × Synchronized desk Tidy waiting desk-IsCommunicator 2
        (λ p. elem p (keys half.handles) || elem p two_parameters)
        half
        after
synchronize-Synchronized_example =
    synchronize-Synchronized desk Tidy waiting desk-IsCommunicator desk_accepts untracked 2
      two_parameters (ground arith) refl half half-Ready

backward_passes-Ran_example :
    let (result, after) = backward_passes desk untracked 2 two_parameters 1 3 fresh in
    (result ≡ ok tt)
    × Ran desk untracked 2 two_parameters Tidy waiting desk-IsCommunicator desk_accepts
        (λ t. refl)
        1
        2
        3
        fresh
        after
unfolding new_optimizer
backward_passes-Ran_example =
    backward_passes-Ran desk untracked 2 two_parameters Tidy waiting desk-IsCommunicator
      desk_accepts (λ t. refl) 1 2 3 fresh fresh-Inv (ground arith) refl

abbrev numbers : Params ℕ
numbers = from_list (5 ∷ 6 ∷ [])

communicate_parameters-balanced_example :
    let (result, after) = communicate_parameters desk numbers start_desk in
    (result ≡ (
      if is_valid desk Tidy waiting desk-IsCommunicator numbers then ok tt else raise value_error))
    × Tidy after
    × ((k : ℕ) → waiting after k ≡ waiting start_desk k)
communicate_parameters-balanced_example =
    communicate_parameters-balanced desk Tidy waiting desk-IsCommunicator desk_accepts numbers
      start_desk (λ k l. refl)
