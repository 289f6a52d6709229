-- ===== src/Torch/Windows/Mutex.antt =====
-- The mutexes, versions and associated weights of windows, and the barrier.
use Prim.Native.String.{String}
use bluefog.Common.{
  ℕ, zero, suc, ◌≡◌, arith, Bool, true, false, if◌then◌else◌, Option, none, some, List, [], ◌∷◌,
  Result, ok, raise, item, Result-cases, inl, inr,
}
use bluefog.Common.Dict.{Dict, assign}
use bluefog.Common.Stateful.{M, ◌>>=◌, ◌>>◌, return, reads, modify}
use bluefog.Basics.Library.{Library}
use bluefog.Basics.Queries.{size, in_neighbor_ranks, out_neighbor_ranks}
use bluefog.Torch.Handles.{Tensors, Extension, Ops, allreduce}
use bluefog.Torch.Windows.{library_of, set_library}

-- What the extension provides for them.
pub record MutexExtension (L F : Type 0) : Type 0 where
  -- window, ranks, whether it is the rank's own mutex
  pub win_mutex_acquire : String → List ℕ → Bool → L → L
  pub win_mutex_release : String → List ℕ → Bool → L → L
  pub get_win_version : String → List ℕ → L → List ℕ
  pub win_associated_p : String → L → F
  pub set_win_ops_with_associated_p_state : Bool → L → L
  pub barrier : L → L
  pub get_skip_negotiate_stage : L → Bool

-- `{r: returned_versions[r] for r in ranks}`
abbrev pub versions_of : List ℕ → List ℕ → Result (Dict ℕ)
versions_of returned [] = ok []
versions_of returned (r ∷ rs) = elim (item returned r) [
  | raise e ↦ raise e
  | ok version ↦ elim (versions_of returned rs) [
    | raise e ↦ raise e
    | ok others ↦ ok (assign r version others)
  ]
]

-- `[0] * n`
abbrev pub zeros : ℕ → List ℕ
zeros zero = []
zeros (suc n) = 0 ∷ zeros n

module _ {L T F : Type 0} (mutex : MutexExtension L F) (lib : Library L F) where
  abbrev pub win_mutex_acquire : String → List ℕ → Bool → M (Ops L T F) (Unit {0})
  win_mutex_acquire name ranks for_self =
      modify (λ s. set_library (mutex.win_mutex_acquire name ranks for_self (library_of s)) s)

  abbrev pub win_mutex_release : String → List ℕ → Bool → M (Ops L T F) (Unit {0})
  win_mutex_release name ranks for_self =
      modify (λ s. set_library (mutex.win_mutex_release name ranks for_self (library_of s)) s)

  -- `out_neighbor_ranks() if ranks is None else ranks`
  abbrev pub ranks_or_neighbors : Option (List ℕ) → Ops L T F → Result (List ℕ)
  ranks_or_neighbors none s = out_neighbor_ranks lib s.basics
  ranks_or_neighbors (some ranks) s = ok ranks

  abbrev pub with_mutex : {A : Type 0} → String → List ℕ → Bool → M (Ops L T F) A → M (Ops L T F) A
  with_mutex name ranks for_self body s =
      let (result, inside) = body s in (result, (win_mutex_release name ranks for_self inside).1)

  -- `with win_mutex(name, for_self, ranks): body`
  unfoldable pub win_mutex :
      {A : Type 0} → String → Bool → Option (List ℕ) → M (Ops L T F) A → M (Ops L T F) A
  win_mutex name for_self ranks body = do
    rs ← reads (ranks_or_neighbors ranks)
    win_mutex_acquire name rs for_self
    with_mutex name rs for_self body

  unfoldable pub get_win_version : String → M (Ops L T F) (Dict ℕ)
  get_win_version name = do
    n ← reads (λ s. size lib s.basics)
    returned ← reads (λ s. ok (mutex.get_win_version name (zeros n) (library_of s)))
    ins ← reads (λ s. in_neighbor_ranks lib s.basics)
    reads (λ s. versions_of returned ins)

  unfoldable pub win_associated_p : String → M (Ops L T F) F
  win_associated_p name = reads (λ s. ok (mutex.win_associated_p name (library_of s)))

  -- `turn_on_win_ops_with_associated_p` and `turn_off_win_ops_with_associated_p`
  unfoldable pub turn_win_ops_with_associated_p : Bool → M (Ops L T F) (Unit {0})
  turn_win_ops_with_associated_p on =
      modify (λ s. set_library (mutex.set_win_ops_with_associated_p_state on (library_of s)) s)

  -- `one` is `torch.Tensor([1.0])`.
  unfoldable pub barrier : Tensors T → Extension L T F → (one : T) → M (Ops L T F) (Unit {0})
  unfolding allreduce
  barrier tensors ext one = do
    skip ← reads (λ s. ok (mutex.get_skip_negotiate_stage (library_of s)))
    (if skip
        then modify (λ s. set_library (mutex.barrier (library_of s)) s)
        else (do allreduce tensors ext one true false; return tt))

  -- The mutexes that are acquired are those that are released, whether the body returns or raises,
  -- and whatever it does to the topology. Where the neighbors are not known, nothing is done.
  pub win_mutex-balanced :
      {A : Type 0} (name : String) (for_self : Bool) (ranks : Option (List ℕ))
      (body : M (Ops L T F) A) (s : Ops L T F)
      → win_mutex name for_self ranks body s ≡ elim (ranks_or_neighbors ranks s) [
        | raise e ↦ (raise e, s)
        | ok rs ↦
            let entered = set_library (mutex.win_mutex_acquire name rs for_self (library_of s)) s in
            let (result, inside) = body entered in
            (
              result,
              set_library (mutex.win_mutex_release name rs for_self (library_of inside)) inside,
            )
      ]
  unfolding win_mutex
  win_mutex-balanced name for_self ranks body s = elim (Result-cases (ranks_or_neighbors ranks s)) [
    | inl (e, unknown) ↦ ground (arith, unknown)
    | inr (rs, known) ↦ ground (arith, known)
  ]
