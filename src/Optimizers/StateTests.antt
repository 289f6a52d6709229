-- ===== src/Optimizers/StateTests.antt =====
-- broadcast_optimizer_state of bluefog/torch/utility.py on a small optimizer.
use bluefog.Common.{
  ℕ, zero, suc, ok, some, none, Option, Result, false, ◌≡◌, refl, true, List, [], ◌∷◌,
}
use bluefog.Common.Names.{Names}
use bluefog.Optimizers.Utility.{communicate_parameters, from_list}
use bluefog.Optimizers.Tests.{desk, Tidy, waiting, desk-IsCommunicator, desk_accepts, start_desk}
use bluefog.Optimizers.StateDict.{
  Item, option_item, state_item, Snapshot, Value, tensor, scalar, Group, entries, broadcast_tensors,
  broadcast_optimizer_state,
}
use bluefog.Optimizers.StateDict.Keys.{distinct_entries, made}
use bluefog.Optimizers.StateDict.Called.{broadcast_optimizer_state-made}
use bluefog.Optimizers.StateDict.Lacking.{broadcast_optimizer_state-lacking, raised}

-- Two groups, three parameters, and an entry of each kind for each parameter.
abbrev groups : List (Group ℕ)
groups =
    record { options = ("lr", 7) ∷ ("momentum", 9) ∷ []; params = 0 ∷ 1 ∷ [] }
    ∷ record { options = ("lr", 3) ∷ []; params = 2 ∷ [] }
    ∷ []

abbrev state_of : ℕ → Option (Names (Value ℕ ℕ))
state_of pid = some (("step", scalar 4) ∷ ("exp_avg", tensor pid) ∷ [])

abbrev no_state : Snapshot ℕ ℕ
no_state = record { is_empty = true; state = λ pid. none; param_groups = groups }

abbrev stepped : Snapshot ℕ ℕ
stepped = record { is_empty = false; state = state_of; param_groups = groups }

-- The last parameter has no state.
abbrev lacking : Snapshot ℕ ℕ
lacking = record {
  is_empty = false;
  state = λ pid. elim pid [ zero ↦ state_of 0 | suc n ↦ none ];
  param_groups = groups;
}

abbrev wrap : ℕ → Result ℕ
wrap value = ok (suc value)

abbrev items : List (Item ℕ ℕ)
items =
    option_item 0 "lr" 8
    ∷ option_item 0 "momentum" 10
    ∷ state_item 0 "step" (scalar 5)
    ∷ state_item 0 "exp_avg" (tensor 0)
    ∷ state_item 1 "step" (scalar 5)
    ∷ state_item 1 "exp_avg" (tensor 1)
    ∷ option_item 1 "lr" 4
    ∷ state_item 2 "step" (scalar 5)
    ∷ state_item 2 "exp_avg" (tensor 2)
    ∷ []

broadcast_optimizer_state-made_example :
    let (result, after) = broadcast_optimizer_state desk wrap false no_state stepped start_desk in
    let params = entries (λ name. 0) items in
    (result ≡ ok (some (params, made params)))
    × (distinct_entries params ≡ true)
    × (after ≡ (communicate_parameters desk (from_list (broadcast_tensors params)) start_desk).1)
    × Tidy after
    × ((k : ℕ) → waiting after k ≡ waiting start_desk k)
broadcast_optimizer_state-made_example =
    broadcast_optimizer_state-made desk Tidy waiting desk-IsCommunicator desk_accepts wrap no_state
      stepped items start_desk refl refl refl (λ k l. refl)

broadcast_optimizer_state-lacking_example :
    let (result, after) = broadcast_optimizer_state desk wrap false lacking stepped start_desk in
    (raised result ≡ true) × (after ≡ start_desk)
broadcast_optimizer_state-lacking_example =
    broadcast_optimizer_state-lacking desk wrap lacking stepped start_desk refl refl
