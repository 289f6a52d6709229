-- ===== src/Torch/Handles/Lifecycle.antt =====
-- A handle is registered by the call that starts an operation, and used up by the first wait that
-- returns.
use bluefog.Common.{
  ℕ, ◌≡◌, ◌≢◌, arith, Bool, true, false, not, ◌||◌, ◌&&◌, none, some, Result, ok, raise,
  value_error, Error,
}
use bluefog.Common.Dict.{lookup, assign, lookup-assign, lookup-delete}
use bluefog.Common.Stateful.{M}
use bluefog.Torch.Handles.{Tensors, Extension, Ops, allreduce_op, synchronize, allreduce}

module _ {L T F : Type 0} (tensors : Tensors T) (ext : Extension L T F) where
  -- A wait for a handle of the map, if the operation succeeds, returns its output and takes the
  -- handle out: a second wait raises and changes nothing more. The other handles stay as they are.
  -- If the operation has failed, the wait raises its error and all handles stay, this one too.
  pub synchronize_once :
      (handle : ℕ) (tensor output : T) (s : Ops L T F)
      → lookup handle s.handle_map ≡ some (tensor, output)
      → let waited = (ext.wait_and_clear handle s.basics.library).0 in
        let (result, after) = synchronize tensors ext handle s in
        (waited ≡ ok tt
          → (result ≡ ok output)
            × (synchronize tensors ext handle after ≡ (raise value_error, after))
            × ((k : ℕ) → k ≢ handle → lookup k after.handle_map ≡ lookup k s.handle_map))
        × ((e : Error) → waited ≡ raise e → (result ≡ raise e) × (after.handle_map ≡ s.handle_map))
  unfolding synchronize
  synchronize_once handle tensor output s h = (
    λ w. (
      ground arith,
      ground (arith, lookup-delete handle handle s.handle_map),
      λ k n. ground (arith, lookup-delete k handle s.handle_map),
    ),
    λ e w. (ground arith, ground arith),
  )

  -- What a call that starts an operation and waits for it leaves, by what the extension answers.
  pub record Waited (tensor output : T) (call : M L ℕ) (s : Ops L T F) (result : Result T)
      (after : Ops L T F) : Type 0 where
    -- The operation was not started.
    pub refused :
        (e : Error)
        → (call s.basics.library).0 ≡ raise e
        → (result ≡ raise e) × (after.handle_map ≡ s.handle_map)
    -- It was started and has succeeded.
    pub returned :
        (handle : ℕ)
        → (call s.basics.library).0 ≡ ok handle
        → lookup handle s.handle_map ≡ none
        → (ext.wait_and_clear handle (call s.basics.library).1).0 ≡ ok tt
        → (result ≡ ok output) × ((k : ℕ) → lookup k after.handle_map ≡ lookup k s.handle_map)
    -- It was started and has failed.
    pub failed :
        (handle : ℕ) (e : Error)
        → (call s.basics.library).0 ≡ ok handle
        → (ext.wait_and_clear handle (call s.basics.library).1).0 ≡ raise e
        → (result ≡ raise e) × (after.handle_map ≡ assign handle (tensor, output) s.handle_map)

  -- Let `output` be the tensor that a blocking allreduce makes. If the extension has not the
  -- function for the type of the tensor, or the tensor is not contiguous, or an average of a tensor
  -- without floats is asked for, then the call raises and nothing has changed. Otherwise: if the
  -- extension refuses, its error is raised and nothing is registered; if it gives a new handle and
  -- the operation succeeds, the output is returned and the entries of the handle map are as before;
  -- and if the operation fails, its error is raised and the handle and both tensors stay in the map.
  pub allreduce_clean :
      (tensor : T) (average local : Bool) (s : Ops L T F)
      → let output = tensors.fresh tensor (tensors.rows tensor) in
        let (result, after) = allreduce tensors ext tensor average local s in
        let accepted =
          ext.has_function allreduce_op (tensors.tensor_type tensor)
          && tensors.is_contiguous tensor
          && (not average || tensors.is_floating tensor) in
        (accepted ≡ false → (after ≡ s) × ((t : T) → result ≢ ok t))
        × (accepted ≡ true
            → Waited tensor output (ext.allreduce tensor output average local) s result after)
  unfolding allreduce
  allreduce_clean tensor average local s =
      let output = tensors.fresh tensor (tensors.rows tensor) in
      (
        λ no'. (ground arith, λ t e. ground arith),
        λ yes'. record {
          refused = λ e r. ground arith;
          returned = λ handle r new w.
              let map' = assign handle (tensor, output) s.handle_map in
              let here = lookup-assign handle handle (tensor, output) s.handle_map in
              (
                ground (arith, here),
                λ k. ground (
                  arith,
                  here,
                  lookup-delete k handle map',
                  lookup-assign k handle (tensor, output) s.handle_map,
                ),
              );
          failed = λ handle e r w.
              let here = lookup-assign handle handle (tensor, output) s.handle_map in
              (ground (arith, here), ground (arith, here));
        },
      )
