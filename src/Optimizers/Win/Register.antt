-- ===== src/Optimizers/Win/Register.antt =====
-- The windows of the parameters: what is registered, and that taking them out gives back what was
-- there before.
use Prim.Native.String.{String}
use text.Mathlib.Text.{◌==◌}
use text.Mathlib.TextEquality.{eq_iff}
use bluefog.Common.{
  ℕ, ◌<◌, ◌≡◌, refl, arith, Bool, true, false, not, ◌&&◌, ◌||◌, ltb, if◌then◌else◌, none, some,
  List, [], ◌∷◌, ok, Option-cases, Bool-cases, inl, inr,
}
use bluefog.Common.Dict.{Dict, lookup}
use bluefog.Common.Names.{lookup_name, lookup_name-assign_name, lookup_name-delete_name}
use bluefog.Common.Ranks.{elem}
use bluefog.Common.Stateful.{for_each}
use bluefog.Torch.Handles.{Tensors, Extension, Ops, win_create_op, check_function}
use bluefog.Torch.Windows.{WindowExtension, win_create, win_free}
use bluefog.Optimizers.Win.{register_one, register_window, unregister_one, unregister_window}

-- The names of some parameters.
abbrev pub is_name_of : Dict String → List ℕ → String → Bool
is_name_of names [] name = false
is_name_of names (p ∷ ps) name =
    elim (lookup p names) [ none ↦ false | some own ↦ own == name ] || is_name_of names ps name

-- Each of the parameters has a name, and no two have the same.
abbrev pub all_named : Dict String → List ℕ → Bool
all_named names [] = true
all_named names (p ∷ ps) = elim (lookup p names) [
  | none ↦ false
  | some name ↦ not (is_name_of names ps name) && all_named names ps
]

module _ {L T F : Type 0} (tensors : Tensors T) (ext : Extension L T F)
    (win : WindowExtension L T F) (names : Dict String) where
  -- What the extension must do for the windows of the parameters.
  pub record Succeeds (param_data : ℕ → T) : Type 0 where
    pub typed : (p : ℕ) → ext.has_function win_create_op (tensors.tensor_type (param_data p)) ≡ true
    pub contiguous : (p : ℕ) → tensors.is_contiguous (param_data p) ≡ true
    pub creates :
        (p : ℕ) (name : String) (l : L) → (win.win_create (param_data p) name false l).0 ≡ ok true
    pub frees : (name : String) (l : L) → (win.win_free name l).0 ≡ ok true

  -- What one round leaves.
  register-one :
      (param_data : ℕ → T) (p : ℕ) (own : String) (s : Ops L T F)
      → Succeeds param_data
      → lookup p names ≡ some own
      → let (result, after) = register_one tensors ext win names param_data p s in
        (result ≡ ok tt)
        × ((name : String)
            → lookup_name name after.win_map
              ≡ (if own == name then some (param_data p) else lookup_name name s.win_map))
  unfolding win_create check_function
  register-one param_data p own s suc' at =
      let t = suc'.typed p in
      let k = suc'.contiguous p in
      let made = suc'.creates p own s.basics.library in
      (
        ground (arith, at, t, k, made),
        λ name.
            ground
              (arith, at, t, k, made, lookup_name-assign_name name own (param_data p) s.win_map),
      )

  unregister-one :
      (param_data : ℕ → T) (p : ℕ) (own : String) (s : Ops L T F)
      → Succeeds param_data
      → lookup p names ≡ some own
      → let (result, after) = unregister_one tensors ext win names p s in
        (result ≡ ok tt)
        × ((name : String)
            → lookup_name name after.win_map
              ≡ (if own == name then none else lookup_name name s.win_map))
  unfolding win_free
  unregister-one param_data p own s suc' at = elim (Option-cases (lookup_name own s.win_map)) [
    | inl missing ↦
        (ground (arith, at, missing), λ name. ground (arith, at, missing, eq_iff own name))
    | inr (tensor, there) ↦
        let freed = suc'.frees own s.basics.library in
        (
          ground (arith, at, there, freed),
          λ name. ground (arith, at, there, freed, lookup_name-delete_name name own s.win_map),
        )
  ]

  register-all :
      (param_data : ℕ → T) (ps : List ℕ) (s : Ops L T F)
      → Succeeds param_data
      → all_named names ps ≡ true
      → let (result, after) = for_each (register_one tensors ext win names param_data) ps s in
        (result ≡ ok tt)
        × ((name : String)
            → is_name_of names ps name ≡ false
            → lookup_name name after.win_map ≡ lookup_name name s.win_map)
        × ((p : ℕ) (own : String)
            → elem p ps ≡ true
            → lookup p names ≡ some own
            → lookup_name own after.win_map ≡ some (param_data p))
  register-all param_data [] s suc' a = (refl, λ name n. refl, λ p own m at. absurd (ground arith))
  register-all param_data (p ∷ ps) s suc' a = elim (Option-cases (lookup p names)) [
    | inl missing ↦ absurd (ground (arith, missing))
    | inr (own, at) ↦
        let (ran, here) = register-one param_data p own s suc' at in
        let mid = (register_one tensors ext win names param_data p s).1 in
        let (rest, others, mine) = register-all param_data ps mid suc' (ground (arith, at)) in
        let whole : for_each (register_one tensors ext win names param_data) (p ∷ ps) s
            ≡ for_each (register_one tensors ext win names param_data) ps mid =
          ground (arith, ran) in
        rw whole (
          rest,
          λ name n. ground (arith, at, others name, here name),
          λ q own' m at'. elim (Bool-cases (elem q ps)) [
            | inl later ↦ mine q own' later at'
            | inr first ↦
                let same : own ≡ own' = ground (arith, at, at') in
                ground (arith, at, others own, here own, eq_iff own own, same)
          ],
        )
  ]

  unregister-all :
      (param_data : ℕ → T) (ps : List ℕ) (s : Ops L T F)
      → Succeeds param_data
      → all_named names ps ≡ true
      → let (result, after) = for_each (unregister_one tensors ext win names) ps s in
        (result ≡ ok tt)
        × ((name : String)
            → lookup_name name after.win_map
              ≡ (if is_name_of names ps name then none else lookup_name name s.win_map))
  unregister-all param_data [] s suc' a = (refl, λ name. refl)
  unregister-all param_data (p ∷ ps) s suc' a = elim (Option-cases (lookup p names)) [
    | inl missing ↦ absurd (ground (arith, missing))
    | inr (own, at) ↦
        let (ran, here) = unregister-one param_data p own s suc' at in
        let mid = (unregister_one tensors ext win names p s).1 in
        let (rest, others) = unregister-all param_data ps mid suc' (ground (arith, at)) in
        let whole : for_each (unregister_one tensors ext win names) (p ∷ ps) s
            ≡ for_each (unregister_one tensors ext win names) ps mid =
          ground (arith, ran) in
        rw whole (rest, λ name. ground (arith, at, others name, here name))
  ]

  -- On several ranks, if each parameter has a name of its own that no window has yet, and the
  -- extension accepts the tensors and succeeds, then registering makes a window of each
  -- parameter's tensor under its name, and unregistering succeeds and leaves under every name
  -- the window that was there before.
  pub register-unregister :
      (size : ℕ) (param_data : ℕ → T) (ps : List ℕ) (s : Ops L T F)
      → 1 < size
      → Succeeds param_data
      → all_named names ps ≡ true
      → ((name : String) → is_name_of names ps name ≡ true → lookup_name name s.win_map ≡ none)
      → let (result, mid) = register_window tensors ext win names size param_data ps s in
        let (result', after) = unregister_window tensors ext win names size ps mid in
        (result ≡ ok tt)
        × ((p : ℕ) (own : String)
            → elem p ps ≡ true
            → lookup p names ≡ some own
            → lookup_name own mid.win_map ≡ some (param_data p))
        × (result' ≡ ok tt)
        × ((name : String) → lookup_name name after.win_map ≡ lookup_name name s.win_map)
  unfolding register_window unregister_window
  register-unregister size param_data ps s several suc' a new =
      let (ran, others, mine) = register-all param_data ps s suc' a in
      let mid = (for_each (register_one tensors ext win names param_data) ps s).1 in
      let (ended, gone) = unregister-all param_data ps mid suc' a in
      let many : ltb 1 size ≡ true = ground arith in
      rw many (ran, mine, ended, λ name. ground (arith, gone name, others name, new name))
