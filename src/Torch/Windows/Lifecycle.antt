-- ===== src/Torch/Windows/Lifecycle.antt =====
-- Windows and their handles: what is registered, and what a later call finds.
use Prim.Native.String.{String}
use text.Mathlib.Text.{◌==◌}
use text.Mathlib.TextEquality.{eq_iff}
use bluefog.Common.{
  Result, Error, ℕ, ◌≡◌, arith, Bool, true, false, ◌&&◌, if◌then◌else◌, Option, none, some, List,
  ok, raise, value_error, key_error,
}
use bluefog.Common.Dict.{Dict, lookup, assign, keys, lookup-assign, lookup-delete}
use bluefog.Common.Stateful.{M}
use bluefog.Common.Names.{lookup_name, lookup_name-assign_name, lookup_name-delete_name}
use bluefog.Basics.Library.{Library}
use bluefog.Basics.Queries.{out_neighbor_ranks}
use bluefog.Torch.Weights.{Floats, subset, weights_or_one, peer_weights}
use bluefog.Torch.Handles.{Tensors, Extension, Ops, win_create_op, win_put_op, check_function}
use bluefog.Torch.Windows.{
  WindowExtension, is_registered, library_of, set_library, or_one, win_create, win_free, win_wait,
  win_lock, lock_window, unlock_window, win_put, win_put_nonblocking,
}

module _ {L T F : Type 0} (tensors : Tensors T) (ext : Extension L T F)
    (win : WindowExtension L T F) where
  -- Freeing a window by its name takes the name out before the extension is asked, whatever it
  -- answers: the other windows stay, and freeing it again or locking it raises and changes nothing.
  pub win_free_once :
      {A : Type 0} (name : String) (tensor : T) (body : M (Ops L T F) A) (s : Ops L T F)
      → lookup_name name s.win_map ≡ some tensor
      → let (result, after) = win_free tensors ext win (some name) s in
        ((other : String)
          → lookup_name other after.win_map
            ≡ (if name == other then none else lookup_name other s.win_map))
        × (result ≡ (win.win_free name (library_of s)).0)
        × (win_free tensors ext win (some name) after ≡ (raise key_error, after))
        × (win_lock tensors ext win name body after ≡ (raise value_error, after))
  unfolding win_free win_lock lock_window
  win_free_once name tensor body s h =
      let gone = lookup_name-delete_name name name s.win_map in
      let self = eq_iff name name in
      (
        λ other. ground (arith, lookup_name-delete_name other name s.win_map),
        ground arith,
        ground (arith, gone, self),
        ground (arith, gone, self),
      )

  -- The extension answers that it succeeded.
  abbrev succeeded : Result Bool → Bool
  succeeded (ok b) = b
  succeeded (raise e) = false

  -- Creating a window registers the tensor under its name exactly if the extension has the function
  -- for the tensor, the tensor is contiguous and the extension succeeds. Nothing else is registered
  -- or lost.
  pub win_create-registers :
      (tensor : T) (name other : String) (zero_init : Bool) (s : Ops L T F)
      → let accepted =
          ext.has_function win_create_op (tensors.tensor_type tensor)
          && tensors.is_contiguous tensor in
        let created =
          accepted && succeeded (win.win_create tensor name zero_init (library_of s)).0 in
        let (result, after) = win_create tensors ext win tensor name zero_init s in
        (lookup_name other after.win_map
          ≡ (if created && (name == other) then some tensor else lookup_name other s.win_map))
        × (created ≡ true → result ≡ ok true)
        × (accepted ≡ false → (result ≡ raise value_error) × (after ≡ s))
  unfolding win_create check_function
  win_create-registers tensor name other zero_init s = (
    ground (arith, lookup_name-assign_name other name tensor s.win_map),
    λ h. ground arith,
    λ h. ground arith,
  )

  -- If the extension refuses the lock of a registered window, its error is raised and the body does
  -- not run. If it gives the lock, and the body leaves the window registered, then the lock is given
  -- back whether the body returns or raises, with the body's own result, or with the error of giving
  -- it back if that fails.
  pub win_lock_balanced :
      {A : Type 0} (name : String) (tensor : T) (body : M (Ops L T F) A) (s : Ops L T F)
      → lookup_name name s.win_map ≡ some tensor
      → let (granted, before) = win.win_lock name (library_of s) in
        let (result, inside) = body (set_library before s) in
        let (released, after) = win.win_unlock name (library_of inside) in
        ((e : Error)
          → granted ≡ raise e
          → win_lock tensors ext win name body s ≡ (raise e, set_library before s))
        × (granted ≡ ok tt
            → is_registered name inside.win_map ≡ true
            → released ≡ ok tt
            → win_lock tensors ext win name body s ≡ (result, set_library after inside))
        × ((e : Error)
            → granted ≡ ok tt
            → is_registered name inside.win_map ≡ true
            → released ≡ raise e
            → win_lock tensors ext win name body s ≡ (raise e, set_library after inside))
  unfolding win_lock lock_window unlock_window
  win_lock_balanced name tensor body s h =
      (λ e g. ground arith, λ g k r. ground arith, λ e g k r. ground arith)

  -- What a call that starts a one-sided operation and waits for it leaves, by what the extension
  -- answers.
  pub record WaitedWindow (name : String) (call : M L ℕ) (s : Ops L T F) (result : Result Bool)
      (after : Ops L T F) : Type 0 where
    -- The operation was not started.
    pub refused :
        (e : Error)
        → (call (library_of s)).0 ≡ raise e
        → (result ≡ raise e) × (after.win_handle_map ≡ s.win_handle_map)
    -- It was started and has succeeded.
    pub returned :
        (handle : ℕ)
        → (call (library_of s)).0 ≡ ok handle
        → lookup handle s.win_handle_map ≡ none
        → (win.win_wait handle (call (library_of s)).1).0 ≡ ok tt
        → (result ≡ ok true)
          × (library_of after ≡ (win.win_wait handle (call (library_of s)).1).1)
          × ((k : ℕ) → lookup k after.win_handle_map ≡ lookup k s.win_handle_map)
    -- It was started and has failed.
    pub failed :
        (handle : ℕ) (e : Error)
        → (call (library_of s)).0 ≡ ok handle
        → (win.win_wait handle (call (library_of s)).1).0 ≡ raise e
        → (result ≡ raise e) × (after.win_handle_map ≡ assign handle name s.win_handle_map)

  module _ (fl : Floats F) (lib : Library L F) where
    -- A blocking put of a contiguous tensor of a type that the extension knows. With a weight for a
    -- rank that is no out-neighbor it raises and changes nothing. With weights for out-neighbors only,
    -- or without weights and then with the weight one for each of them: if the extension refuses the
    -- call, its error is raised and nothing is registered; if it gives a new handle and the operation
    -- succeeds, the call returns true and the entries of the map of handles are as before; and if the
    -- operation fails, its error is raised and the handle stays in the map.
    pub win_put_checked :
        (tensor : T) (name : String) (self_weight : Option F) (dst_weights : Option (Dict F))
        (mutex : Bool) (outs : List ℕ) (s : Ops L T F)
        → ext.has_function win_put_op (tensors.tensor_type tensor) ≡ true
        → tensors.is_contiguous tensor ≡ true
        → out_neighbor_ranks lib s.basics ≡ ok outs
        → let weights = weights_or_one fl lib outs dst_weights in
          let own = or_one tensors ext win fl lib self_weight in
          let (result, after) =
            win_put tensors ext win fl lib tensor name self_weight dst_weights mutex s in
          (subset (keys weights) outs ≡ false → (result ≡ raise value_error) × (after ≡ s))
          × (subset (keys weights) outs ≡ true
              → WaitedWindow name (win.win_put tensor name own weights mutex) s result after)
    unfolding win_put win_put_nonblocking win_wait check_function peer_weights
    win_put_checked tensor name self_weight dst_weights mutex outs s h k o = (
      λ no'. (ground arith, ground arith),
      λ yes'. record {
        refused = λ e r. (ground (arith, r), ground (arith, r));
        returned = λ handle r new w.
            let map' = assign handle name s.win_handle_map in
            let here = lookup-assign handle handle name s.win_handle_map in
            (
              ground (arith, here, r, w),
              ground (arith, here, r, w),
              λ k. ground (
                arith,
                here,
                lookup-delete k handle map',
                lookup-assign k handle name s.win_handle_map,
              ),
            );
        failed = λ handle e r w.
            let here = lookup-assign handle handle name s.win_handle_map in
            (ground (arith, here), ground (arith, here));
      },
    )
