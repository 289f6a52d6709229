-- ===== src/Torch/Windows.antt =====
-- The one-sided operations: windows by name, and handles of their own.
pub mod Lifecycle
pub mod Mutex
use Prim.Native.String.{String}
use bluefog.Common.{
  ℕ, Bool, true, false, if◌then◌else◌, Option, none, some, List, [], Result, ok, raise, value_error,
  key_error, runtime_error,
}
use bluefog.Common.Stateful.{M, ◌>>=◌, ◌>>◌, return, reads, throw, modify, require}
use bluefog.Common.Dict.{Dict, lookup, assign, delete, keys, constant}
use bluefog.Common.Names.{Names, lookup_name, assign_name, delete_name}
use bluefog.Basics.Library.{Library, Basics}
use bluefog.Basics.Queries.{in_neighbor_ranks, out_neighbor_ranks}
use bluefog.Torch.Weights.{Floats, peer_weights, update_weights, collect_weights}
use bluefog.Torch.Handles.{
  Tensors, Extension, Ops, Operation, win_create_op, win_update_op, win_put_op, win_accumulate_op,
  check_function, on_library,
}

-- What the extension provides for windows. A call answers whether it succeeded, or a handle.
pub record WindowExtension (L T F : Type 0) : Type 0 where
  pub win_create : T → String → Bool → M L Bool
  pub win_free : String → M L Bool
  -- self weight, neighbor weights, reset, weighted average, mutex
  pub win_update : T → String → F → Dict F → Bool → Bool → Bool → M L Bool
  pub win_put : T → String → F → Dict F → Bool → M L ℕ
  pub win_accumulate : T → String → F → Dict F → Bool → M L ℕ
  pub win_get : String → Dict F → Bool → M L ℕ
  pub win_wait : ℕ → M L (Unit {0})
  pub win_poll : ℕ → L → Bool
  pub win_lock : String → M L (Unit {0})
  pub win_unlock : String → M L (Unit {0})

-- `name in _win_map`
abbrev pub is_registered : {T : Type 0} → String → Names T → Bool
is_registered name windows = elim (lookup_name name windows) [ none ↦ false | some _ ↦ true ]

-- `_win_map[name]`
abbrev pub window_of : {T : Type 0} → String → Names T → Result T
window_of name windows = elim (lookup_name name windows) [
  | none ↦ raise key_error
  | some tensor ↦ ok tensor
]

module _ {L T F : Type 0} where
  abbrev pub library_of : Ops L T F → L
  library_of s = s.basics.library

  abbrev pub set_library : L → Ops L T F → Ops L T F
  set_library library s = record s { basics = record (s.basics) { library = library } }

  module _ (tensors : Tensors T) (ext : Extension L T F) (win : WindowExtension L T F) where
    unfoldable pub win_create : T → String → Bool → M (Ops L T F) Bool
    unfolding check_function
    win_create tensor name zero_init = do
      check_function tensors ext win_create_op tensor
      created ← on_library (win.win_create tensor name zero_init)
      (if created
          then (do
            modify (λ s. record s { win_map = assign_name name tensor s.win_map })
            return true)
          else return false)

    -- The call of the extension that both cases of `win_free` end with.
    abbrev free_windows : String → M (Ops L T F) Bool
    free_windows name = on_library (win.win_free name)

    -- The entries are taken out before the extension is asked.
    unfoldable pub win_free : Option String → M (Ops L T F) Bool
    win_free none = do modify (λ s. record s { win_map = [] }); free_windows ""
    win_free (some name) = do
      s ← reads (λ s. ok s)
      require (is_registered name s.win_map) key_error
      modify (λ s. record s { win_map = delete_name name s.win_map })
      free_windows name

    unfoldable pub win_wait : ℕ → M (Ops L T F) Bool
    win_wait handle s = elim (lookup handle s.win_handle_map) [
      | none ↦ (ok false, s)
      | some name ↦
          (do
            on_library (win.win_wait handle)
            modify (λ t. record t { win_handle_map = delete handle t.win_handle_map })
            return true)
            s
    ]

    unfoldable pub win_poll : ℕ → M (Ops L T F) Bool
    win_poll handle = reads (λ s. ok (win.win_poll handle (library_of s)))

    -- `_win_lock` and `_win_unlock`
    pub lock_window : String → M (Ops L T F) (Unit {0})
    lock_window name = do
      s ← reads (λ s. ok s)
      require (is_registered name s.win_map) value_error
      on_library (win.win_lock name)

    pub unlock_window : String → M (Ops L T F) (Unit {0})
    unlock_window name = do
      s ← reads (λ s. ok s)
      require (is_registered name s.win_map) value_error
      on_library (win.win_unlock name)

    -- What the `finally` of a context manager leaves of the body's result.
    abbrev finally_result : {A : Type 0} → Result A → Result (Unit {0}) → Result A
    finally_result body (ok _) = body
    finally_result body (raise e) = raise e

    abbrev locked : {A : Type 0} → String → M (Ops L T F) A → M (Ops L T F) A
    locked name body s =
        let (result, inside) = body s in
        let (unlocked, outside) = unlock_window name inside in
        (finally_result result unlocked, outside)

    -- `with win_lock(name): body`
    unfoldable pub win_lock : {A : Type 0} → String → M (Ops L T F) A → M (Ops L T F) A
    unfolding lock_window unlock_window
    win_lock name body = do lock_window name; locked name body

    module _ (fl : Floats F) (lib : Library L F) where
      -- `self_weight`, or one where it is left out.
      abbrev pub or_one : Option F → F
      or_one none = fl.one_weight
      or_one (some w) = w

      -- The entry of `_win_handle_map` for a call that answers a handle.
      abbrev pub start_window : String → M L ℕ → M (Ops L T F) ℕ
      start_window name call = do
        handle ← on_library call
        modify (λ s. record s { win_handle_map = assign handle name s.win_handle_map })
        return handle

      unfoldable pub win_put_nonblocking :
          T → String → Option F → Option (Dict F) → Bool → M (Ops L T F) ℕ
      unfolding check_function peer_weights
      win_put_nonblocking tensor name self_weight dst_weights require_mutex = do
        check_function tensors ext win_put_op tensor
        weights ← reads (λ s. peer_weights fl lib (out_neighbor_ranks lib s.basics) dst_weights)
        start_window name (win.win_put tensor name (or_one self_weight) weights require_mutex)

      unfoldable pub win_accumulate_nonblocking :
          T → String → Option F → Option (Dict F) → Bool → M (Ops L T F) ℕ
      unfolding check_function peer_weights
      win_accumulate_nonblocking tensor name self_weight dst_weights require_mutex = do
        check_function tensors ext win_accumulate_op tensor
        weights ← reads (λ s. peer_weights fl lib (out_neighbor_ranks lib s.basics) dst_weights)
        start_window name
            (win.win_accumulate tensor name (or_one self_weight) weights require_mutex)

      unfoldable pub win_get_nonblocking : String → Option (Dict F) → Bool → M (Ops L T F) ℕ
      unfolding peer_weights
      win_get_nonblocking name src_weights require_mutex = do
        weights ← reads (λ s. peer_weights fl lib (in_neighbor_ranks lib s.basics) src_weights)
        start_window name (win.win_get name weights require_mutex)

      unfoldable pub win_put : T → String → Option F → Option (Dict F) → Bool → M (Ops L T F) Bool
      unfolding win_put_nonblocking win_wait
      win_put tensor name self_weight dst_weights require_mutex = do
        handle ← win_put_nonblocking tensor name self_weight dst_weights require_mutex
        win_wait handle

      unfoldable pub win_accumulate :
          T → String → Option F → Option (Dict F) → Bool → M (Ops L T F) Bool
      unfolding win_accumulate_nonblocking win_wait
      win_accumulate tensor name self_weight dst_weights require_mutex = do
        handle ← win_accumulate_nonblocking tensor name self_weight dst_weights require_mutex
        win_wait handle

      unfoldable pub win_get : String → Option (Dict F) → Bool → M (Ops L T F) Bool
      unfolding win_get_nonblocking win_wait
      win_get name src_weights require_mutex = do
        handle ← win_get_nonblocking name src_weights require_mutex
        win_wait handle

      -- The call of the extension, on the tensor of the window or on its copy.
      abbrev update_tensor : T → String → F × Dict F × Bool → Bool → Bool → M (Ops L T F) T
      update_tensor tensor name (own, others, weighted) reset require_mutex = do
        updated ← on_library (win.win_update tensor name own others reset weighted require_mutex)
        require updated runtime_error
        return tensor

      unfoldable pub win_update :
          String → Option F → Option (Dict F) → Bool → Bool → Bool → M (Ops L T F) T
      unfolding check_function update_weights
      win_update name self_weight neighbor_weights reset clone require_mutex = do
        window ← reads (λ s. window_of name s.win_map)
        let tensor = if clone then tensors.clone window else window
        check_function tensors ext win_update_op tensor
        weights ← reads (λ s. update_weights fl lib s.basics self_weight neighbor_weights)
        update_tensor tensor name weights reset require_mutex

      unfoldable pub win_update_then_collect : String → Bool → M (Ops L T F) T
      unfolding win_update collect_weights
      win_update_then_collect name require_mutex = do
        (own, others) ← reads (λ s. collect_weights fl lib s.basics)
        win_update name (some own) (some others) true false require_mutex
