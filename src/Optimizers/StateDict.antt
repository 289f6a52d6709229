-- ===== src/Optimizers/StateDict.antt =====
-- `broadcast_optimizer_state` of torch/utility.py: the options and the state of an optimizer are
-- wrapped in tensors under keys of their own, and unwrapped by callbacks after the broadcast. A key
-- "%s.%d" is the pair of its parts. A tensor is an object that the broadcast writes into.
pub mod Keys
pub mod Called
pub mod Lacking
use Prim.Native.String.{String}
use mathlib.Core.List.{◌++◌}
use bluefog.Common.{
  key_error, traverse, map, Result, ok, raise, value_error, ℕ, zero, suc, ◌+◌, Bool, true, false,
  ◌==◌, ◌&&◌, ◌||◌, if◌then◌else◌, Option, none, some, List, [], ◌∷◌,
}
use bluefog.Common.Stateful.{M, ◌>>=◌, ◌>>◌, return, reads, throw}
use bluefog.Optimizers.Communicator.{Communicator}
use bluefog.Optimizers.Utility.{communicate_parameters, from_list}
use bluefog.Common.Names.{Names, same_name}

-- A value of the state of a parameter.
pub data Value (T V : Type 0) : Type 0 where
  tensor : T → Value T V
  scalar : V → Value T V

-- A group of parameters without its entry "params", which is `params`.
pub record Group (V : Type 0) : Type 0 where
  pub options : Names V
  pub params : List ℕ

-- What the loops go through: an option of a group, or an entry of the state of a parameter.
pub data Item (T V : Type 0) : Type 0 where
  option_item : ℕ → String → V → Item T V
  state_item : ℕ → String → Value T V → Item T V

module _ {T V : Type 0} where
  abbrev pub option_items : ℕ → Names V → List (Item T V)
  option_items index [] = []
  option_items index ((key, value) ∷ rest) = option_item index key value ∷ option_items index rest

  abbrev pub state_items : ℕ → Names (Value T V) → List (Item T V)
  state_items pid [] = []
  state_items pid ((name, p) ∷ rest) = state_item pid name p ∷ state_items pid rest

  -- A parameter that has no state, where the look-up raises, is `none`.
  abbrev pub param_items : ℕ → Option (Names (Value T V)) → List (Option (Item T V))
  param_items pid none = none ∷ []
  param_items pid (some param_state) = map some (state_items pid param_state)

  abbrev pub params_items : (ℕ → Option (Names (Value T V))) → List ℕ → List (Option (Item T V))
  params_items state [] = []
  params_items state (pid ∷ pids) = param_items pid (state pid) ++ params_items state pids

  -- The loop over the groups, in its order.
  abbrev pub items_from :
      (ℕ → Option (Names (Value T V))) → ℕ → List (Group V) → List (Option (Item T V))
  items_from state index [] = []
  items_from state index (group ∷ groups) =
      map some (option_items index group.options)
      ++ (params_items state group.params ++ items_from state (suc index) groups)

-- `torch.Tensor([value])`, which is `wrap value` and may raise, for the values in their order.
module _ {T V : Type 0} (wrap : V → Result T) where
  abbrev pub wrapped_value : Value T V → Result (Value T T)
  wrapped_value (tensor p) = ok (tensor p)
  wrapped_value (scalar value) = elim (wrap value) [ raise e ↦ raise e | ok t ↦ ok (scalar t) ]

  abbrev pub wrapped_item : Option (Item T V) → Result (Item T T)
  wrapped_item none = raise key_error
  wrapped_item (some (option_item index key value)) = elim (wrap value) [
    | raise e ↦ raise e
    | ok t ↦ ok (option_item index key t)
  ]
  wrapped_item (some (state_item pid name p)) = elim (wrapped_value p) [
    | raise e ↦ raise e
    | ok t ↦ ok (state_item pid name t)
  ]

  abbrev pub wrapped : List (Option (Item T V)) → Result (List (Item T T))
  wrapped = traverse wrapped_item

abbrev pub Key : Type 0
Key = String × ℕ

abbrev pub same_key : Key → Key → Bool
same_key (a, m) (b, n) = same_name a b && m == n

-- What a callback writes: an option of a group, or an entry of the state of a parameter.
pub data Callback (T : Type 0) : Type 0 where
  set_option : ℕ → String → T → Callback T
  set_state : ℕ → String → T → Callback T

-- An element of `params` with the callback that is made for it.
pub record Entry (T : Type 0) : Type 0 where
  pub key : Key
  pub broadcast : T
  pub callback : Option (Callback T)

-- `callbacks`
abbrev pub Callbacks : Type 0 → Type 0
Callbacks T = List (Key × Callback T)

abbrev pub lookup_key : {T : Type 0} → Key → Callbacks T → Option (Callback T)
lookup_key k [] = none
lookup_key k ((j, c) ∷ rest) = if same_key j k then some c else lookup_key k rest

abbrev pub assign_key : {T : Type 0} → Key → Callback T → Callbacks T → Callbacks T
assign_key k c [] = (k, c) ∷ []
assign_key k c ((j, d) ∷ rest) =
    if same_key j k then (k, c) ∷ rest else (j, d) ∷ assign_key k c rest

-- `occurrences[name] += 1`
abbrev pub count_occurrence : String → (String → ℕ) → String → ℕ
count_occurrence name occurrences n =
    if same_name name n then suc (occurrences n) else occurrences n

module _ {T : Type 0} where
  abbrev pub state_entry : ℕ → String → ℕ → Value T T → Entry T
  state_entry pid name n (tensor p) = record { key = (name, n); broadcast = p; callback = none }
  state_entry pid name n (scalar p) = record {
    key = (name, n);
    broadcast = p;
    callback = some (set_state pid name p);
  }

  abbrev pub entries : (occurrences : String → ℕ) → List (Item T T) → List (Entry T)
  entries occurrences [] = []
  entries occurrences (option_item index key option_tensor ∷ rest) =
      record {
        key = (key, index);
        broadcast = option_tensor;
        callback = some (set_option index key option_tensor);
      }
      ∷ entries occurrences rest
  entries occurrences (state_item pid name p ∷ rest) =
      state_entry pid name (suc (occurrences name)) p
      ∷ entries (count_occurrence name occurrences) rest

  abbrev pub broadcast_tensors : List (Entry T) → List T
  broadcast_tensors [] = []
  broadcast_tensors (e ∷ es) = e.broadcast ∷ broadcast_tensors es

module _ {T : Type 0} where
  abbrev pub add_callback : Key → Option (Callback T) → Callbacks T → Callbacks T
  add_callback k none callbacks = callbacks
  add_callback k (some c) callbacks = assign_key k c callbacks

  abbrev pub callbacks_of : Callbacks T → List (Entry T) → Callbacks T
  callbacks_of callbacks [] = callbacks
  callbacks_of callbacks (e ∷ es) = callbacks_of (add_callback e.key e.callback callbacks) es

  -- The loop after the broadcast: the callbacks that it calls, in their order.
  abbrev pub called_for : Callbacks T → List (Entry T) → List (Callback T)
  called_for callbacks [] = []
  called_for callbacks (e ∷ es) =
      let rest = called_for callbacks es in
      elim (lookup_key e.key callbacks) [ none ↦ rest | some c ↦ c ∷ rest ]

-- `state_dict`: `state` holds the entries of the parameters that have a state, and `is_empty` is the
-- test `not state_dict["state"]`.
pub record Snapshot (T V : Type 0) : Type 0 where
  pub is_empty : Bool
  pub state : ℕ → Option (Names (Value T V))
  pub param_groups : List (Group V)

module _ {T V : Type 0} where
  abbrev pub initialized : (before stepped : Snapshot T V) → Snapshot T V
  initialized before stepped = if before.is_empty then stepped else before

  abbrev pub items_of : Snapshot T V → List (Option (Item T V))
  items_of state_dict = items_from state_dict.state 0 state_dict.param_groups

-- `c` is the broadcast from the root. The function returns the elements of `params`, and the
-- callbacks that are called after the broadcast. The optimizer is `before`, and would be `stepped`
-- after the step that initializes it.
unfoldable pub broadcast_optimizer_state :
    {S T V : Type 0}
    → (c : Communicator S T) → (wrap : V → Result T) → (is_lbfgs : Bool)
    → (before stepped : Snapshot T V) → M S (Option (List (Entry T) × List (Callback T)))
unfolding communicate_parameters
broadcast_optimizer_state c wrap true before stepped = throw value_error
broadcast_optimizer_state c wrap false before stepped =
    if (initialized before stepped).is_empty then return none else (do
      items ← reads (λ _. wrapped wrap (items_of (initialized before stepped)))
      let params = entries (λ name. 0) items
      communicate_parameters c (from_list (broadcast_tensors params))
      return (some (params, called_for (callbacks_of [] params) params)))
