-- ===== src/Optimizers/Gradient/Start.antt =====
-- The loops of `synchronize` that start what has not been started.
use bluefog.Common.{
  Bool-cases, inl, inr, ℕ, ◌≡◌, refl, arith, Bool, true, false, ◌||◌, not, Option, none, some, List,
  [], ◌∷◌, ok, ◌&&◌,
}
use bluefog.Common.Dict.{Dict, lookup, assign, keys, lookup-assign, elem-keys-assign}
use bluefog.Common.Ranks.{elem, distinct}
use bluefog.Common.Stateful.{for_each}
use bluefog.Optimizers.Communicator.{Communicator, IsCommunicator, Accepts}
use bluefog.Optimizers.State.{Optimizer}
use bluefog.Optimizers.State.Kept.{Outcome, Kept, Kept-same, Kept-trans}
use bluefog.Optimizers.State.Settle.{
  expected, AllSome, AllSome-assign, Outstanding, Outstanding-same,
}
use bluefog.Optimizers.State.Count.{started-Kept, fresh_handle, Outstanding-assign}
use bluefog.Optimizers.Gradient.{missing_from, start_grad, restart}

pub elem-missing_from :
    (q : ℕ) (handles : Dict (Option ℕ)) (ps : List ℕ)
    → elem q (missing_from handles ps) ≡ (elem q ps && not (elem q (keys handles)))
elem-missing_from q handles [] = refl
elem-missing_from q handles (p ∷ ps) = ground (arith, elem-missing_from q handles ps)

pub distinct-missing_from :
    (handles : Dict (Option ℕ)) (ps : List ℕ)
    → distinct ps ≡ true
    → distinct (missing_from handles ps) ≡ true
distinct-missing_from handles [] d = refl
distinct-missing_from handles (p ∷ ps) d =
    ground (arith, distinct-missing_from handles ps, elem-missing_from p handles ps)

module _ {S T : Type 0} (c : Communicator S T) (Sound : S → Type 0) (pending : S → ℕ → Option T)
    (h : IsCommunicator c Sound pending) (accepts : (t : T) → Accepts c Sound t) where
  -- What starting the operations of some parameters adds.
  pub record Started (ps : List ℕ) (o after : Optimizer S T) : Type 0 where
    pub sound : Sound after.bf
    pub outstanding : Outstanding pending after.bf after.handles
    pub all_some : AllSome after.handles
    pub listed : (q : ℕ) → elem q (keys after.handles) ≡ (elem q (keys o.handles) || elem q ps)
    pub older : (q : ℕ) → elem q ps ≡ false → lookup q after.handles ≡ lookup q o.handles
    pub still :
        (k : ℕ) (output : T) → pending o.bf k ≡ some output → pending after.bf k ≡ some output
    pub kept : Kept pending o after
    pub begun :
        (q : ℕ)
        → elem q ps ≡ true
        → (output : T) × (expected pending after.bf after.handles q ≡ some output)
          × Outcome c Sound pending (o.param_grad q) output
    pub same_delay : after.delay ≡ o.delay
    pub same_grad : after.param_grad ≡ o.param_grad
    pub same_data : after.param_data ≡ o.param_data
    pub same_flags :
        (after.should_synchronize ≡ o.should_synchronize)
        × (after.error_encountered ≡ o.error_encountered)

  module _ (tracked : T → Bool) (passes : ℕ) (requires_update : List ℕ) where
    pub start_grads-Started :
        (ps : List ℕ) (o : Optimizer S T)
        → Sound o.bf
        → Outstanding pending o.bf o.handles
        → AllSome o.handles
        → distinct ps ≡ true
        → ((q : ℕ) → elem q ps ≡ true → elem q (keys o.handles) ≡ false)
        → let (result, after) = for_each (start_grad c tracked passes requires_update) ps o in
          (result ≡ ok tt) × Started ps o after
    start_grads-Started [] o sound out some' d new = (
      refl,
      record {
        sound = sound;
        outstanding = out;
        all_some = some';
        listed = λ q. ground arith;
        older = λ q _. refl;
        still = λ k output w. w;
        kept = Kept-same pending o o refl refl;
        begun = λ q m. absurd (ground arith);
        same_delay = refl;
        same_grad = refl;
        same_data = refl;
        same_flags = (refl, refl);
      },
    )
    start_grads-Started (p ∷ ps) o sound out some' d new =
        let t = o.param_grad p in
        let (handle, ran) = accepts t o.bf sound in
        let (output, sound', free, more) = h.started t o.bf handle sound ran in
        let s' = (c.start t o.bf).1 in
        let absent = new p (ground arith) in
        let unused = fresh_handle pending o.bf o.handles handle out free in
        let kept =
          Outstanding-same pending o.bf s' o.handles (λ k m. ground (arith, more k, unused)) out in
        let o1 = record o { bf = s'; handles = assign p (some handle) o.handles } in
        let out' =
          Outstanding-assign pending s' o.handles p handle output absent unused
            (ground (arith, more handle)) kept in
        let (r, rest) =
          start_grads-Started ps o1 sound' out' (AllSome-assign p handle o.handles some')
            (ground arith)
            (λ q m. ground (arith, new q, elem-keys-assign q p (some handle) o.handles)) in
        let last = (for_each (start_grad c tracked passes requires_update) ps o1).1 in
        let whole : for_each (start_grad c tracked passes requires_update) (p ∷ ps) o
            ≡ for_each (start_grad c tracked passes requires_update) ps o1 =
          ground (arith, ran) in
        let (kept1, _) =
          started-Kept c Sound pending h p handle t o o1 sound out absent ran refl refl in
        rw whole (
          r,
          record {
            sound = ground (arith, ran, rest.sound);
            outstanding = ground (arith, ran, rest.outstanding);
            all_some = ground (arith, ran, rest.all_some);
            listed = λ q.
                ground (arith, ran, rest.listed q, elem-keys-assign q p (some handle) o.handles);
            older =
                λ q n. ground (arith, ran, rest.older q, lookup-assign q p (some handle) o.handles);
            still = λ k u w. ground (arith, ran, rest.still k u, more k, free);
            kept = Kept-trans pending o o1 last kept1 rest.kept;
            begun = λ q m. elim (Bool-cases (elem q ps)) [
              | inl later ↦ rest.begun q later
              | inr first ↦
                  let equal : q ≡ p = ground arith in
                  let here : pending s' handle ≡ some output = ground (arith, more handle) in
                  rw equal (
                    output,
                    ground (
                      arith,
                      rest.older p,
                      lookup-assign p p (some handle) o.handles,
                      rest.still handle output here,
                    ),
                    (o.bf, handle, sound, ran, here),
                  )
            ];
            same_delay = ground (arith, ran, rest.same_delay);
            same_grad = ground (arith, ran, rest.same_grad);
            same_data = ground (arith, ran, rest.same_data);
            same_flags = ground (arith, ran, rest.same_flags);
          },
        )

    pub restart-idle :
        (hs : Dict (Option ℕ)) (o : Optimizer S T)
        → AllSome hs
        → restart c tracked passes requires_update hs o ≡ (ok tt, o)
    unfolding restart
    restart-idle [] o a = refl
    restart-idle ((p, none) ∷ hs) o a = absurd a
    restart-idle ((p, some handle) ∷ hs) o a = restart-idle hs o a
