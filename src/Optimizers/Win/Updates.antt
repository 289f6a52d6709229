-- ===== src/Optimizers/Win/Updates.antt =====
-- The waits for the windows of parameters, and their updates: what the extension is called with.
use Prim.Native.String.{String}
use bluefog.Common.{
  ℕ, ◌≡◌, arith, Bool, true, false, ◌==◌, if◌then◌else◌, Option, none, some, [], ◌∷◌, ok,
  Option-cases, inl, inr,
}
use bluefog.Common.Dict.{Dict, lookup, delete, lookup-delete}
use bluefog.Common.Names.{Names, lookup_name}
use bluefog.Common.Stateful.{M}
use bluefog.Basics.Library.{Library, Basics}
use bluefog.Torch.Weights.{Floats, update_weights}
use bluefog.Torch.Handles.{Tensors, Extension, Ops, win_update_op, check_function}
use bluefog.Torch.Windows.{WindowExtension, win_wait, win_update, set_library}
use bluefog.Optimizers.Win.{updated_window}

module _ {L T F : Type 0} (tensors : Tensors T) (ext : Extension L T F)
    (win : WindowExtension L T F) (names : Dict String) (fl : Floats F) (lib : Library L F)
    (passes : ℕ) (window_prefix : Option String) (requires_grad : ℕ → Bool)
    (timeline_end_activity : String → M (Ops L T F) Bool) where
  -- The window of a parameter.
  abbrev pub window_for : Names T → ℕ → Option T
  window_for windows p = elim (lookup p names) [
    | none ↦ none
    | some name ↦ lookup_name name windows
  ]

  -- What the extension must do for the updates: it has the function, no operation that is waited
  -- for has failed, the updates succeed, and the default weights are found.
  pub record Updates (basics : Basics L F) : Type 0 where
    pub typed : (t : T) → ext.has_function win_update_op (tensors.tensor_type t) ≡ true
    pub contiguous : (t : T) → tensors.is_contiguous t ≡ true
    pub updates :
        (t : T) (name : String) (own : F) (others : Dict F) (weighted : Bool) (l : L)
        → (win.win_update t name own others false weighted true l).0 ≡ ok true
    pub waits : (handle : ℕ) (l : L) → (win.win_wait handle l).0 ≡ ok tt
    pub weights :
        (l : L)
        → (own : F) × (others : Dict F) × (weighted : Bool) × (update_weights fl lib
              (record basics { library = l })
              none
              none
            ≡ ok (own, others, weighted))

  -- The library after the wait for a handle, and the entries of `_win_handle_map` after it.
  abbrev pub waited_library : Option ℕ → Dict String → L → L
  waited_library none entries l = l
  waited_library (some handle) entries l = elim (lookup handle entries) [
    | none ↦ l
    | some _ ↦ (win.win_wait handle l).1
  ]

  abbrev pub waited_entries : Option ℕ → Dict String → Dict String
  waited_entries none entries = entries
  waited_entries (some handle) entries = elim (lookup handle entries) [
    | none ↦ entries
    | some _ ↦ delete handle entries
  ]

  -- The library has gone from the first state to the second by this: for each parameter in turn, the
  -- wait for its handle, if that is known, and then one update of the parameter's window, in place,
  -- with the default weights, without a reset and under the mutex.
  abbrev pub Called : Basics L F → Names T → Dict (Option ℕ) → Dict String → L → L → Type 0
  Called basics windows [] entries before after = after ≡ before
  Called basics windows ((p, handle) ∷ hs) entries before after =
      (name : String) × (window : T) × (own : F) × (others : Dict F) × (weighted : Bool) × (lookup p
          names
        ≡ some name)
      × (lookup_name name windows ≡ some window)
      × (update_weights fl lib (record basics { library = waited_library handle entries before })
            none none
          ≡ ok (own, others, weighted))
      × Called basics windows hs (waited_entries handle entries)
          (win.win_update window name own others false weighted true
            (waited_library handle entries before)).1
          after

  -- The update of one window.
  pub update-one :
      (p : ℕ) (window : T) (s : Ops L T F)
      → Updates s.basics
      → window_for s.win_map p ≡ some window
      → (name : String) × (own : F) × (others : Dict F) × (weighted : Bool) × (lookup p names
          ≡ some name)
        × (lookup_name name s.win_map ≡ some window)
        × (update_weights fl lib s.basics none none ≡ ok (own, others, weighted))
        × (updated_window tensors ext win names fl lib passes window_prefix requires_grad false
              timeline_end_activity
              (lookup p names)
              s
            ≡ (
              ok window,
              set_library
                  (win.win_update window name own others false weighted true s.basics.library).1
                  s,
            ))
  unfolding win_update check_function
  update-one p window s u at = elim (Option-cases (lookup p names)) [
    | inl missing ↦ absurd (ground (arith, missing))
    | inr (name, named) ↦
        let (own, others, weighted, found) = u.weights s.basics.library in
        let there : lookup_name name s.win_map ≡ some window = ground (arith, named) in
        let t = u.typed window in
        let k = u.contiguous window in
        let done = u.updates window name own others weighted s.basics.library in
        (
          name,
          own,
          others,
          weighted,
          named,
          there,
          found,
          ground (arith, named, there, t, k, found, done),
        )
  ]

  -- The wait for one handle, known or not.
  pub wait-one :
      (handle : ℕ) (s : Ops L T F)
      → Updates s.basics
      → (b : Bool) × (win_wait tensors ext win handle s ≡ (
        ok b,
        record (set_library (waited_library (some handle) s.win_handle_map s.basics.library) s) {
          win_handle_map = waited_entries (some handle) s.win_handle_map;
        },
      ))
        × ((k : ℕ)
            → lookup k (waited_entries (some handle) s.win_handle_map)
              ≡ (if k == handle then none else lookup k s.win_handle_map))
  unfolding win_wait
  wait-one handle s u = elim (Option-cases (lookup handle s.win_handle_map)) [
    | inl missing ↦ (false, ground (arith, missing), λ k. ground (arith, missing))
    | inr (name, there) ↦
        let w = u.waits handle s.basics.library in
        (
          true,
          ground (arith, there, w),
          λ k. ground (arith, there, lookup-delete k handle s.win_handle_map),
        )
  ]

  -- A state in which only the library has changed.
  pub Updates-library : (b : Basics L F) (l : L) → Updates b → Updates (record b { library = l })
  Updates-library b l u = record {
    typed = u.typed;
    contiguous = u.contiguous;
    updates = u.updates;
    waits = u.waits;
    weights = u.weights;
  }
