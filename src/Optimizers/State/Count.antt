-- ===== src/Optimizers/State/Count.antt =====
-- Counting passes: a parameter has a handle exactly if its counter has come down to zero.
use bluefog.Common.{
  ℕ, ◌≡◌, refl, arith, Bool, true, false, ◌||◌, ◌==◌, if◌then◌else◌, Option, none, some, [], ◌∷◌,
  ok, Bool-cases, Result-cases, inl, inr,
}
use bluefog.Common.Delays.{ℤ, pred, is_due, is_zero, pred-due, zero-not_due}
use bluefog.Common.Dict.{Dict, lookup, assign, keys, lookup-assign, elem-keys-assign}
use bluefog.Common.Ranks.{elem}
use bluefog.Optimizers.Communicator.{Communicator, IsCommunicator, Accepts}
use bluefog.Optimizers.State.{Optimizer, communicate, count_down, use_pass}
use bluefog.Optimizers.State.Settle.{handles_of, elem-handles_of, Outstanding, Outstanding-same}
use bluefog.Optimizers.State.Kept.{Kept, Kept-same, Outcome, Tied}

abbrev pub due_at : Option ℤ → Bool
due_at none = false
due_at (some d) = is_due d

elem-handles_of-assign :
    (k p handle : ℕ) (hs : Dict (Option ℕ))
    → elem p (keys hs) ≡ false
    → elem k (handles_of (assign p (some handle) hs)) ≡ (k == handle || elem k (handles_of hs))
elem-handles_of-assign k p handle [] n = refl
elem-handles_of-assign k p handle ((q, none) ∷ hs) n =
    ground (arith, elem-handles_of-assign k p handle hs)
elem-handles_of-assign k p handle ((q, some j) ∷ hs) n =
    ground (arith, elem-handles_of-assign k p handle hs)

module _ {S T : Type 0} (pending : S → ℕ → Option T) where
  -- A handle that is not pending is none of the outstanding ones.
  pub fresh_handle :
      (s : S) (hs : Dict (Option ℕ)) (handle : ℕ)
      → Outstanding pending s hs
      → pending s handle ≡ none
      → elem handle (handles_of hs) ≡ false
  fresh_handle s [] handle o n = refl
  fresh_handle s ((p, none) ∷ hs) handle (new, o) n = fresh_handle s hs handle o n
  fresh_handle s ((p, some k) ∷ hs) handle (new, once, (output, wait), o) n =
      ground (arith, wait, fresh_handle s hs handle o n)

  pub Outstanding-assign :
      (s : S) (hs : Dict (Option ℕ)) (p handle : ℕ) (output : T)
      → elem p (keys hs) ≡ false
      → elem handle (handles_of hs) ≡ false
      → pending s handle ≡ some output
      → Outstanding pending s hs
      → Outstanding pending s (assign p (some handle) hs)
  Outstanding-assign s [] p handle output n f w o = (refl, refl, (output, w), tt)
  Outstanding-assign s ((q, none) ∷ hs) p handle output n f w (new, o) =
      let off : (q == p) ≡ false = ground arith in
      rw off (
        ground (arith, elem-keys-assign q p (some handle) hs),
        Outstanding-assign s hs p handle output (ground arith) f w o,
      )
  Outstanding-assign s ((q, some k) ∷ hs) p handle output n f w (new, once, wait, o) =
      let off : (q == p) ≡ false = ground arith in
      rw off (
        ground (arith, elem-keys-assign q p (some handle) hs),
        ground (arith, elem-handles_of-assign k p handle hs),
        wait,
        Outstanding-assign s hs p handle output (ground arith) (ground arith) w o,
      )

module _ {S T : Type 0} (c : Communicator S T) (Sound : S → Type 0) (pending : S → ℕ → Option T)
    (h : IsCommunicator c Sound pending) where
  -- An operation that is started for a parameter without a handle.
  pub started-Kept :
      (p handle : ℕ) (t : T) (o after : Optimizer S T)
      → Sound o.bf
      → Outstanding pending o.bf o.handles
      → elem p (keys o.handles) ≡ false
      → (c.start t o.bf).0 ≡ ok handle
      → after.bf ≡ (c.start t o.bf).1
      → after.handles ≡ assign p (some handle) o.handles
      → Kept pending o after
        × ((g : ℕ → T) → t ≡ g p → Tied c Sound pending g o → Tied c Sound pending g after)
  started-Kept p handle t o after sound out absent ran b hs =
      let (output, sound', free, listed) = h.started t o.bf handle sound ran in
      let unused = fresh_handle pending o.bf o.handles handle out free in
      let joined = λ (k : ℕ). elem-handles_of-assign k p handle o.handles absent in
      (
        record {
          clean = λ k n. ground (arith, b, hs, joined k, listed k);
          new = λ k n m. elim (Bool-cases (k == handle)) [
            | inl same ↦ let equal : k ≡ handle = ground arith in rw equal free
            | inr apart ↦ absurd (ground (arith, hs, joined k))
          ];
          more = λ k m. ground (arith, hs, joined k);
          still = λ k m. ground (arith, b, unused, listed k);
        },
        λ g e tied q k made at' wait. elim (Bool-cases (q == p)) [
          | inl same ↦
              let equal : q ≡ p = ground arith in
              let this : k ≡ handle =
                ground (arith, hs, equal, at', lookup-assign p p (some handle) o.handles) in
              let here : Outcome c Sound pending t made =
                (o.bf, handle, sound, ran, ground (arith, b, this, wait)) in
              rw (equal, ← e) here
          | inr apart ↦
              let older : lookup q o.handles ≡ some (some k) =
                ground (arith, hs, lookup-assign q p (some handle) o.handles) in
              let there = elem-handles_of pending q k o.handles older in
              tied q k made older (ground (arith, b, listed k, unused))
        ],
      )

  -- Between two calls of an optimizer: the handles are outstanding, and a parameter has an entry
  -- exactly if its counter has come down to zero.
  pub record Inv (o : Optimizer S T) : Type 0 where
    pub sound : Sound o.bf
    pub outstanding : Outstanding pending o.bf o.handles
    pub counted : (p : ℕ) → elem p (keys o.handles) ≡ due_at (lookup p o.delay)

  -- What a pass leaves: the counter is one less, and there is a new handle exactly if it is zero.
  pub record Passed (p : ℕ) (d : ℤ) (tensor : Optimizer S T → T) (o after : Optimizer S T)
      : Type 0 where
    pub inv : Inv after
    pub one_less :
        (q : ℕ) → lookup q after.delay ≡ (if q == p then some (pred d) else lookup q o.delay)
    pub quiet : is_zero (pred d) ≡ false → (after.bf ≡ o.bf) × (after.handles ≡ o.handles)
    pub starts :
        is_zero (pred d) ≡ true
        → (handle : ℕ) × (after.handles ≡ assign p (some handle) o.handles)
          × (pending o.bf handle ≡ none)
    pub called : is_zero (pred d) ≡ true → after.bf ≡ (c.start (tensor (use_pass p d o)) o.bf).1
    pub kept : Kept pending o after
    pub ties :
        (g : ℕ → T)
        → tensor (use_pass p d o) ≡ g p
        → Tied c Sound pending g o
        → Tied c Sound pending g after
    pub warned : after.error_encountered ≡ (is_due d || o.error_encountered)
    pub same_attributes :
        (after.param_data ≡ o.param_data)
        × (after.param_grad ≡ o.param_grad)
        × (after.should_synchronize ≡ o.should_synchronize)
        × (after.synchronized ≡ o.synchronized)

  pub count_down-Passed :
      (p : ℕ) (d : ℤ) (tensor : Optimizer S T → T) (o : Optimizer S T)
      → Inv o
      → lookup p o.delay ≡ some d
      → (count_down p (communicate (some c) tensor) o).0 ≡ ok tt
      → Passed p d tensor o (count_down p (communicate (some c) tensor) o).1
  unfolding count_down
  count_down-Passed p d tensor o inv at e =
      let due = pred-due d in
      let delays = λ (q : ℕ). lookup-assign q p (pred d) o.delay in
      elim (Bool-cases (is_zero (pred d))) [
        | inr many ↦ record {
          inv = record {
            sound = ground (arith, inv.sound);
            outstanding = ground (arith, inv.outstanding);
            counted = λ q. ground (arith, inv.counted q, delays q);
          };
          one_less = λ q. ground (arith, delays q);
          quiet = λ _. ground arith;
          starts = λ z. absurd (ground arith);
          called = λ z. absurd (ground arith);
          kept =
              Kept-same pending o (count_down p (communicate (some c) tensor) o).1 (ground arith)
                (ground arith);
          ties = λ g t tied q k output at' wait. tied q k output (ground arith) (ground arith);
          warned = ground arith;
          same_attributes = ground arith;
        }
        | inl last ↦
            let o1 = use_pass p d o in
            elim (Result-cases (c.start (tensor o1) o.bf).0) [
              | inl (_, refused) ↦ absurd (ground arith)
              | inr (handle, ran) ↦
                  let (output, sound', new, listed) =
                    h.started (tensor o1) o.bf handle inv.sound ran in
                  let s' = (c.start (tensor o1) o.bf).1 in
                  let absent : elem p (keys o.handles) ≡ false =
                    ground (arith, inv.counted p, zero-not_due d) in
                  let unused = fresh_handle pending o.bf o.handles handle inv.outstanding new in
                  let still =
                    Outstanding-same pending o.bf s' o.handles
                      (λ k m. ground (arith, listed k, unused)) inv.outstanding in
                  let all_out =
                    Outstanding-assign pending s' o.handles p handle output absent unused
                      (ground (arith, listed handle)) still in
                  let joined =
                    started-Kept p handle (tensor o1) o
                      (count_down p (communicate (some c) tensor) o).1 inv.sound inv.outstanding
                      absent ran (ground arith) (ground arith) in
                  record {
                    inv = record {
                      sound = ground (arith, sound');
                      outstanding = ground (arith, all_out);
                      counted = λ q. ground (
                        arith,
                        inv.counted q,
                        delays q,
                        elem-keys-assign q p (some handle) o.handles,
                      );
                    };
                    one_less = λ q. ground (arith, delays q);
                    quiet = λ z. absurd (ground arith);
                    starts = λ _. (handle, ground arith, new);
                    called = λ _. ground arith;
                    kept = joined.0;
                    ties = joined.1;
                    warned = ground arith;
                    same_attributes = ground arith;
                  }
            ]
      ]

  -- A pass ends without raising where the communication does not raise.
  pub count_down_ends :
      (p : ℕ) (d : ℤ) (tensor : Optimizer S T → T) (o : Optimizer S T)
      → Inv o
      → lookup p o.delay ≡ some d
      → Accepts c Sound (tensor (use_pass p d o))
      → (count_down p (communicate (some c) tensor) o).0 ≡ ok tt
  unfolding count_down
  count_down_ends p d tensor o inv at accepts =
      let (handle, ran) = accepts o.bf inv.sound in ground (arith, ran)
