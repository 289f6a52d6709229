-- ===== src/Optimizers/Utility.antt =====
-- `broadcast_parameters` and `allreduce_parameters` of torch/utility.py: all operations are started,
-- and then all are waited for.
use Prim.Native.String.{String, compare}
use Prim.Native.Nat.{gt}
use bluefog.Common.{
  ℕ, ◌≡◌, refl, arith, Bool, true, false, ◌==◌, if◌then◌else◌, Option, none, some, List, [], ◌∷◌,
  ok, raise, value_error, Bool-cases, inl, inr,
}
use bluefog.Common.Names.{Names}
use bluefog.Common.Ranks.{elem, distinct}
use bluefog.Common.Stateful.{M, ◌>>=◌, ◌>>◌, return, throw}
use bluefog.Optimizers.Communicator.{Communicator, IsCommunicator, Accepts}

-- The argument: a dictionary, a list, or a value of another type. The names of a list do not matter
-- to the operations here.
pub data Params (T : Type 0) : Type 0 where
  from_dict : Names T → Params T
  from_list : List T → Params T
  invalid : Params T

-- `sorted(params.items())`
abbrev pub insert_item : {T : Type 0} → String × T → Names T → Names T
insert_item (name, p) [] = (name, p) ∷ []
insert_item (name, p) ((n, q) ∷ rest) = elim (compare n name) [
  | gt ↦ (name, p) ∷ (n, q) ∷ rest
  | _ ↦ (n, q) ∷ insert_item (name, p) rest
]

abbrev pub sorted_items : {T : Type 0} → Names T → Names T
sorted_items [] = []
sorted_items (item ∷ rest) = insert_item item (sorted_items rest)

abbrev pub tensors_of : {T : Type 0} → Names T → List T
tensors_of [] = []
tensors_of ((name, p) ∷ rest) = p ∷ tensors_of rest

module _ {S T : Type 0} (c : Communicator S T) where
  -- The first loop, and the handles in their order.
  abbrev pub start_all : List T → M S (List ℕ)
  start_all [] = return []
  start_all (p ∷ ps) = do handle ← c.start p; handles ← start_all ps; return (handle ∷ handles)

  abbrev pub wait_all : List ℕ → M S (Unit {0})
  wait_all [] = return tt
  wait_all (handle ∷ handles) = do c.finish handle; wait_all handles

  -- The two functions, which differ in the operation `c`.
  unfoldable pub communicate_parameters : Params T → M S (Unit {0})
  communicate_parameters (from_dict items) = do
    handles ← start_all (tensors_of (sorted_items items))
    wait_all handles
  communicate_parameters (from_list params) = do handles ← start_all params; wait_all handles
  communicate_parameters invalid = throw value_error

  module _ (Sound : S → Type 0) (pending : S → ℕ → Option T)
      (h : IsCommunicator c Sound pending) where
    -- What starting some operations leaves.
    record Started (s : S) (handles : List ℕ) (after : S) : Type 0 where
      pub sound : Sound after
      pub once : distinct handles ≡ true
      pub new : (k : ℕ) → elem k handles ≡ true → pending s k ≡ none
      pub waiting : (k : ℕ) → elem k handles ≡ true → (output : T) × (pending after k ≡ some output)
      pub others : (k : ℕ) → elem k handles ≡ false → pending after k ≡ pending s k

    start_all-Started :
        (accepts : (t : T) → Accepts c Sound t) (ps : List T) (s : S)
        → Sound s
        → (handles : List ℕ) × ((start_all ps s).0 ≡ ok handles)
          × Started s handles (start_all ps s).1
    start_all-Started accepts [] s sound = (
      [],
      refl,
      record {
        sound = sound;
        once = refl;
        new = λ k m. absurd (ground arith);
        waiting = λ k m. absurd (ground arith);
        others = λ k m. refl;
      },
    )
    start_all-Started accepts (p ∷ ps) s sound =
        let (handle, ran) = accepts p s sound in
        let (output, sound', free, more) = h.started p s handle sound ran in
        let s' = (c.start p s).1 in
        let (handles, rest, d) = start_all-Started accepts ps s' sound' in
        let whole : start_all (p ∷ ps) s ≡ (ok (handle ∷ handles), (start_all ps s').1) =
          ground (arith, ran, rest) in
        let unused : elem handle handles ≡ false = elim (Bool-cases (elem handle handles)) [
          | inr n ↦ n
          | inl m ↦ absurd (ground (arith, d.new handle m, more handle))
        ] in
        rw whole (
          handle ∷ handles,
          refl,
          record {
            sound = d.sound;
            once = ground (arith, d.once, unused);
            new = λ k m. elim (Bool-cases (k == handle)) [
              | inl same ↦ let equal : k ≡ handle = ground arith in rw equal free
              | inr apart ↦ ground (arith, d.new k, more k, apart)
            ];
            waiting = λ k m. elim (Bool-cases (elem k handles)) [
              | inl later ↦ d.waiting k later
              | inr first ↦ (output, ground (arith, d.others k, more k))
            ];
            others = λ k m. ground (arith, d.others k, more k);
          },
        )

    wait_all-used :
        (handles : List ℕ) (s : S)
        → Sound s
        → distinct handles ≡ true
        → ((k : ℕ) → elem k handles ≡ true → (output : T) × (pending s k ≡ some output))
        → let (result, after) = wait_all handles s in
          (result ≡ ok tt)
          × Sound after
          × ((k : ℕ) → pending after k ≡ (if elem k handles then none else pending s k))
    wait_all-used [] s sound once waiting = (refl, sound, λ k. refl)
    wait_all-used (handle ∷ handles) s sound once waiting =
        let (output, wait) = waiting handle (ground arith) in
        let (returned, sound', used) = h.finished handle output s sound wait in
        let s' = (c.finish handle s).1 in
        let (rest, sound'', gone) = wait_all-used handles s' sound' (ground arith) (λ k m.
          let (u, at) = waiting k (ground arith) in (u, ground (arith, used k, once, at))) in
        let whole : wait_all (handle ∷ handles) s ≡ wait_all handles s' =
          ground (arith, returned) in
        rw whole (rest, sound'', λ k. ground (arith, gone k, used k))

    start_and_wait :
        (accepts : (t : T) → Accepts c Sound t) (ps : List T) (s : S)
        → Sound s
        → let (result, after) = (start_all ps >>= wait_all) s in
          (result ≡ ok tt) × Sound after × ((k : ℕ) → pending after k ≡ pending s k)
    start_and_wait accepts ps s sound =
        let (handles, ran, d) = start_all-Started accepts ps s sound in
        let mid = (start_all ps s).1 in
        let (rest, sound', gone) = wait_all-used handles mid d.sound d.once d.waiting in
        let whole : (start_all ps >>= wait_all) s ≡ wait_all handles mid = ground (arith, ran) in
        rw whole (
          rest,
          sound',
          λ k. elim (Bool-cases (elem k handles)) [
            | inl m ↦ ground (arith, gone k, d.new k m)
            | inr n ↦ ground (arith, gone k, d.others k n)
          ],
        )

    abbrev pub is_valid : Params T → Bool
    is_valid (from_dict items) = true
    is_valid (from_list params) = true
    is_valid invalid = false

    -- If the operation accepts all tensors, the functions raise only for an argument that is
    -- neither a dictionary nor a list, wait for everything that they start, and leave what was
    -- pending before.
    pub communicate_parameters-balanced :
        (accepts : (t : T) → Accepts c Sound t) (params : Params T) (s : S)
        → Sound s
        → let (result, after) = communicate_parameters params s in
          (result ≡ (if is_valid params then ok tt else raise value_error))
          × Sound after
          × ((k : ℕ) → pending after k ≡ pending s k)
    unfolding communicate_parameters
    communicate_parameters-balanced accepts (from_dict items) s sound =
        start_and_wait accepts (tensors_of (sorted_items items)) s sound
    communicate_parameters-balanced accepts (from_list params) s sound =
        start_and_wait accepts params s sound
    communicate_parameters-balanced accepts invalid s sound = (refl, sound, λ k. refl)
