-- ===== src/Optimizers/Win/Synchronize.antt =====
-- What `synchronize` does with the windows of the parameters that have a handle.
use Prim.Native.String.{String}
use bluefog.Common.{
  ℕ, ◌≡◌, refl, arith, Bool, true, false, ◌||◌, if◌then◌else◌, Option, none, some, [], ◌∷◌, ok,
  Bool-cases, inl, inr,
}
use bluefog.Common.Delays.{pos}
use bluefog.Common.Dict.{Dict, lookup, keys, assign, lookup-assign}
use bluefog.Common.Ranks.{elem}
use bluefog.Common.Stateful.{M}
use bluefog.Basics.Library.{Library}
use bluefog.Torch.Weights.{Floats}
use bluefog.Torch.Handles.{Tensors, Extension, Ops, check_function}
use bluefog.Torch.Windows.{WindowExtension, win_wait, win_update, set_library}
use bluefog.Optimizers.State.{Optimizer, settled, to_data, write_to}
use bluefog.Optimizers.State.Settle.{handles_of}
use bluefog.Optimizers.Win.{update_windows, synchronize}
use bluefog.Optimizers.Win.Updates.{
  window_for, Updates, Updates-library, waited_library, waited_entries, Called, update-one,
  wait-one,
}

elem-handles_of-cons :
    (k p : ℕ) (handle : Option ℕ) (hs : Dict (Option ℕ))
    → elem k (handles_of ((p, handle) ∷ hs))
      ≡ (elem k (handles_of ((p, handle) ∷ [])) || elem k (handles_of hs))
elem-handles_of-cons k p none hs = refl
elem-handles_of-cons k p (some handle) hs = ground arith

module _ {L T F : Type 0} (tensors : Tensors T) (ext : Extension L T F)
    (win : WindowExtension L T F) (names : Dict String) (fl : Floats F) (lib : Library L F)
    (passes : ℕ) (window_prefix : Option String) (requires_grad : ℕ → Bool)
    (timeline_end_activity : String → M (Ops L T F) Bool) where
  -- What the loop leaves.
  pub record Updated (hs : Dict (Option ℕ)) (o after : Optimizer (Ops L T F) T) : Type 0 where
    pub written :
        (p : ℕ) (window : T)
        → elem p (keys hs) ≡ true
        → window_for tensors ext win names fl lib passes window_prefix requires_grad
            timeline_end_activity o.bf.win_map p
          ≡ some window
        → after.param_data p ≡ window
    pub untouched : (p : ℕ) → elem p (keys hs) ≡ false → after.param_data p ≡ o.param_data p
    pub reset :
        (p : ℕ)
        → lookup p after.delay ≡ (if elem p (keys hs) then some (pos passes) else lookup p o.delay)
    pub waited :
        (k : ℕ)
        → lookup k after.bf.win_handle_map
          ≡ (if elem k (handles_of hs) then none else lookup k o.bf.win_handle_map)
    pub same_windows : after.bf.win_map ≡ o.bf.win_map
    pub same_grad : after.param_grad ≡ o.param_grad

  abbrev updating : Dict (Option ℕ) → M (Optimizer (Ops L T F) T) (Unit {0})
  updating =
      update_windows tensors ext win names fl lib passes window_prefix requires_grad false
        timeline_end_activity

  -- What the loop leaves of one entry, and then of the others.
  Updated-cons :
      (p : ℕ) (handle : Option ℕ) (window : T) (hs : Dict (Option ℕ)) (s : Ops L T F)
      (o after : Optimizer (Ops L T F) T)
      → window_for tensors ext win names fl lib passes window_prefix requires_grad
          timeline_end_activity o.bf.win_map p
        ≡ some window
      → s.win_map ≡ o.bf.win_map
      → ((k : ℕ)
          → lookup k s.win_handle_map ≡ (
              if elem k (handles_of ((p, handle) ∷ []))
              then none
              else lookup k o.bf.win_handle_map))
      → Updated hs
          (write_to to_data p window (record o { bf = s; delay = assign p (pos passes) o.delay }))
          after
      → Updated ((p, handle) ∷ hs) o after
  Updated-cons p handle window hs s o after at same handles d = record {
    written = λ q w m at'. elim (Bool-cases (elem q (keys hs))) [
      | inl later ↦ d.written q w later (rw same at')
      | inr first ↦ let mine : q ≡ p = ground arith in ground (arith, d.untouched q, mine, at, at')
    ];
    untouched = λ q m. ground (arith, d.untouched q);
    reset = λ q. ground (arith, d.reset q, lookup-assign q p (pos passes) o.delay);
    waited = λ k. ground (arith, d.waited k, handles k, elem-handles_of-cons k p handle hs);
    same_windows = ground (arith, d.same_windows, same);
    same_grad = ground (arith, d.same_grad);
  }

  update_windows-Updated :
      (hs : Dict (Option ℕ)) (o : Optimizer (Ops L T F) T)
      → Updates tensors ext win names fl lib passes window_prefix requires_grad
          timeline_end_activity o.bf.basics
      → ((p : ℕ)
          → elem p (keys hs) ≡ true
          → (window : T) × (window_for tensors ext win names fl lib passes window_prefix
                requires_grad timeline_end_activity o.bf.win_map p
              ≡ some window))
      → let (result, after) = updating hs o in
        (result ≡ ok tt)
        × Updated hs o after
        × Called tensors ext win names fl lib passes window_prefix requires_grad
            timeline_end_activity o.bf.basics o.bf.win_map hs o.bf.win_handle_map
            o.bf.basics.library after.bf.basics.library
  unfolding update_windows win_wait win_update check_function
  update_windows-Updated [] o u has = (
    refl,
    record {
      written = λ p window m at. absurd (ground arith);
      untouched = λ p m. refl;
      reset = λ p. refl;
      waited = λ k. refl;
      same_windows = refl;
      same_grad = refl;
    },
    refl,
  )
  update_windows-Updated ((p, none) ∷ hs) o u has =
      let (window, at) = has p (ground arith) in
      let (name, own, others, weighted, named, there, found, ran) =
        update-one tensors ext win names fl lib passes window_prefix requires_grad
          timeline_end_activity p window o.bf u at in
      let l = (win.win_update window name own others false weighted true o.bf.basics.library).1 in
      let mid =
        write_to to_data p window
          (record o { bf = set_library l o.bf; delay = assign p (pos passes) o.delay }) in
      let (rest, d, told) =
        update_windows-Updated hs mid
          (Updates-library tensors ext win names fl lib passes window_prefix requires_grad
            timeline_end_activity o.bf.basics l u)
          (λ q m. has q (ground arith)) in
      let whole : updating ((p, none) ∷ hs) o ≡ updating hs mid = ground (arith, ran) in
      rw whole (
        rest,
        Updated-cons p none window hs (set_library l o.bf) o (updating hs mid).1 at refl (λ k. refl)
            d,
        (name, window, own, others, weighted, named, there, found, told),
      )
  update_windows-Updated ((p, some handle) ∷ hs) o u has =
      let (window, at) = has p (ground arith) in
      let (b, waited, used) =
        wait-one tensors ext win names fl lib passes window_prefix requires_grad
          timeline_end_activity handle o.bf u in
      let l0 =
        waited_library tensors ext win names fl lib passes window_prefix requires_grad
          timeline_end_activity (some handle) o.bf.win_handle_map o.bf.basics.library in
      let s = record (set_library l0 o.bf) {
        win_handle_map =
            waited_entries tensors ext win names fl lib passes window_prefix requires_grad
              timeline_end_activity (some handle) o.bf.win_handle_map;
      } in
      let (name, own, others, weighted, named, there, found, ran) =
        update-one tensors ext win names fl lib passes window_prefix requires_grad
          timeline_end_activity p window s
          (Updates-library tensors ext win names fl lib passes window_prefix requires_grad
            timeline_end_activity o.bf.basics l0 u)
          at in
      let l = (win.win_update window name own others false weighted true l0).1 in
      let mid =
        write_to to_data p window
          (record o { bf = set_library l s; delay = assign p (pos passes) o.delay }) in
      let (rest, d, told) =
        update_windows-Updated hs mid
          (Updates-library tensors ext win names fl lib passes window_prefix requires_grad
            timeline_end_activity o.bf.basics l u)
          (λ q m. has q (ground arith)) in
      let whole : updating ((p, some handle) ∷ hs) o ≡ updating hs mid =
        ground (arith, waited, ran) in
      rw whole (
        rest,
        Updated-cons p (some handle) window hs (set_library l s) o (updating hs mid).1 at refl
            (λ k. ground (arith, used k)) d,
        (name, window, own, others, weighted, named, there, found, told),
      )

  -- If the default weights are found, the extension succeeds, the timeline is off, and each
  -- parameter with a handle has a window, then `synchronize` does not raise. For each parameter with
  -- a handle in turn, it waits for the handle, if that is known, and calls the extension once to
  -- update the parameter's own window with the default weights; the library is as these calls leave
  -- it. It sets each of these parameters to its window and its counter to the number of steps, and
  -- leaves the other parameters, the gradients and the windows as they are.
  pub synchronize-Updated :
      (o : Optimizer (Ops L T F) T)
      → Updates tensors ext win names fl lib passes window_prefix requires_grad
          timeline_end_activity o.bf.basics
      → ((p : ℕ)
          → elem p (keys o.handles) ≡ true
          → (window : T) × (window_for tensors ext win names fl lib passes window_prefix
                requires_grad timeline_end_activity o.bf.win_map p
              ≡ some window))
      → let (result, after) =
          synchronize tensors ext win names fl lib passes window_prefix requires_grad false
            timeline_end_activity o in
        (result ≡ ok tt)
        × Updated o.handles o after
        × Called tensors ext win names fl lib passes window_prefix requires_grad
            timeline_end_activity o.bf.basics o.bf.win_map o.handles o.bf.win_handle_map
            o.bf.basics.library after.bf.basics.library
        × (after.handles ≡ [])
        × (after.synchronized ≡ true)
  unfolding synchronize
  synchronize-Updated o u has =
      let (ran, d, told) = update_windows-Updated o.handles o u has in
      let whole : synchronize tensors ext win names fl lib passes window_prefix requires_grad false
            timeline_end_activity o
          ≡ (ok tt, settled (updating o.handles o).1) =
        ground (arith, ran) in
      rw whole (
        refl,
        record {
          written = d.written;
          untouched = d.untouched;
          reset = d.reset;
          waited = d.waited;
          same_windows = d.same_windows;
          same_grad = d.same_grad;
        },
        told,
        refl,
        refl,
      )
