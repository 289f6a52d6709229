-- ===== src/Optimizers/State/Settle.antt =====
-- `synchronize` over handles that are all outstanding.
use bluefog.Common.{
  ℕ, ◌≡◌, ◌∙◌, refl, arith, true, false, ◌==◌, if◌then◌else◌, Option, none, some, List, [], ◌∷◌, ok,
  Bool-cases, inl, inr,
}
use bluefog.Common.Delays.{ℤ, pos}
use bluefog.Common.Dict.{Dict, lookup, assign, keys, lookup-assign, lookup-missing}
use bluefog.Common.Ranks.{elem}
use bluefog.Optimizers.Communicator.{Communicator, IsCommunicator}
use bluefog.Optimizers.State.{Optimizer, Target, to_data, to_grad, write_to, settle}

-- The handles of a dictionary.
abbrev pub handles_of : Dict (Option ℕ) → List ℕ
handles_of [] = []
handles_of ((p, none) ∷ rest) = handles_of rest
handles_of ((p, some handle) ∷ rest) = handle ∷ handles_of rest

-- No handle is `None`.
abbrev pub AllSome : Dict (Option ℕ) → Type 0
AllSome [] = Unit
AllSome ((p, none) ∷ hs) = ⊥
AllSome ((p, some handle) ∷ hs) = AllSome hs

pub AllSome-assign :
    (p handle : ℕ) (hs : Dict (Option ℕ)) → AllSome hs → AllSome (assign p (some handle) hs)
AllSome-assign p handle [] a = tt
AllSome-assign p handle ((q, none) ∷ hs) a = absurd a
AllSome-assign p handle ((q, some k) ∷ hs) a = elim (Bool-cases (q == p)) [
  | inl e ↦ rw e a
  | inr n ↦ rw n (AllSome-assign p handle hs a)
]

abbrev pub handle_of : Option (Option ℕ) → Option ℕ
handle_of none = none
handle_of (some h) = h

abbrev pub or_else : {T : Type 0} → Option T → T → T
or_else none t = t
or_else (some u) t = u

-- The attribute that is written.
abbrev pub attribute : {S T : Type 0} → Target → Optimizer S T → ℕ → T
attribute to_data o = o.param_data
attribute to_grad o = o.param_grad

abbrev pub opposite : Target → Target
opposite to_data = to_grad
opposite to_grad = to_data

module _ {S T : Type 0} (pending : S → ℕ → Option T) where
  -- Every handle of the dictionary is pending; parameters and handles are listed once.
  abbrev pub Outstanding : S → Dict (Option ℕ) → Type 0
  Outstanding s [] = Unit
  Outstanding s ((p, none) ∷ rest) = (elem p (keys rest) ≡ false) × Outstanding s rest
  Outstanding s ((p, some handle) ∷ rest) =
      (elem p (keys rest) ≡ false)
      × (elem handle (handles_of rest) ≡ false)
      × ((output : T) × (pending s handle ≡ some output))
      × Outstanding s rest

  -- The output that a parameter waits for.
  abbrev pub expected_at : S → Option ℕ → Option T
  expected_at s none = none
  expected_at s (some handle) = pending s handle

  abbrev pub expected : S → Dict (Option ℕ) → ℕ → Option T
  expected s hs p = expected_at s (handle_of (lookup p hs))

  -- It stays so in a state where the handles have the same outputs.
  pub Outstanding-same :
      (s s' : S) (hs : Dict (Option ℕ))
      → ((k : ℕ) → elem k (handles_of hs) ≡ true → pending s' k ≡ pending s k)
      → Outstanding s hs
      → Outstanding s' hs
  Outstanding-same s s' [] h o = tt
  Outstanding-same s s' ((p, none) ∷ rest) h (new, o) = (new, Outstanding-same s s' rest h o)
  Outstanding-same s s' ((p, some handle) ∷ rest) h (new, once, (output, wait), o) = (
    new,
    once,
    (output, ground (arith, h handle, wait)),
    Outstanding-same s s' rest (λ k m. h k (ground arith)) o,
  )

  pub elem-handles_of :
      (p handle : ℕ) (hs : Dict (Option ℕ))
      → lookup p hs ≡ some (some handle)
      → elem handle (handles_of hs) ≡ true
  elem-handles_of p handle [] h = absurd (ground arith)
  elem-handles_of p handle ((q, none) ∷ hs) h = ground (arith, elem-handles_of p handle hs)
  elem-handles_of p handle ((q, some k) ∷ hs) h = ground (arith, elem-handles_of p handle hs)

  expected_at-same :
      (s s' : S) (hs : Dict (Option ℕ)) (p : ℕ) (found : Option (Option ℕ))
      → ((k : ℕ) → elem k (handles_of hs) ≡ true → pending s' k ≡ pending s k)
      → lookup p hs ≡ found
      → expected_at s' (handle_of found) ≡ expected_at s (handle_of found)
  expected_at-same s s' hs p none h e = refl
  expected_at-same s s' hs p (some none) h e = refl
  expected_at-same s s' hs p (some (some k)) h e = h k (elem-handles_of p k hs e)

  expected-same :
      (s s' : S) (hs : Dict (Option ℕ)) (p : ℕ)
      → ((k : ℕ) → elem k (handles_of hs) ≡ true → pending s' k ≡ pending s k)
      → expected s' hs p ≡ expected s hs p
  expected-same s s' hs p h = expected_at-same s s' hs p (lookup p hs) h refl

  -- Where no handle is `None`, a parameter with an entry waits for an output.
  pub expected-some :
      (s : S) (hs : Dict (Option ℕ)) (p : ℕ)
      → Outstanding s hs
      → AllSome hs
      → elem p (keys hs) ≡ true
      → (output : T) × (expected s hs p ≡ some output)
  expected-some s [] p o a m = absurd (ground arith)
  expected-some s ((q, none) ∷ hs) p o a m = absurd a
  expected-some s ((q, some handle) ∷ hs) p (new, once, (output, wait), o) a m =
      elim (Bool-cases (q == p)) [
        | inl e ↦ (output, ground (arith, wait))
        | inr n ↦
            let (found, at) = expected-some s hs p o a (ground arith) in (found, ground (arith, at))
      ]

  -- What `settle` leaves: the outputs are written, the counters are reset, the handles are used up.
  pub record Settled (Sound : S → Type 0) (target : Target) (passes : ℕ) (hs : Dict (Option ℕ))
      (o after : Optimizer S T) : Type 0 where
    pub sound : Sound after.bf
    pub used :
        (k : ℕ) → pending after.bf k ≡ (if elem k (handles_of hs) then none else pending o.bf k)
    pub written :
        (p : ℕ) → attribute target after p ≡ or_else (expected o.bf hs p) (attribute target o p)
    pub reset :
        (p : ℕ)
        → lookup p after.delay ≡ (if elem p (keys hs) then some (pos passes) else lookup p o.delay)
    pub same_other : attribute (opposite target) after ≡ attribute (opposite target) o
    pub same_handles : after.handles ≡ o.handles
    pub same_flags :
        (after.synchronized ≡ o.synchronized)
        × (after.should_synchronize ≡ o.should_synchronize)
        × (after.error_encountered ≡ o.error_encountered)

-- What a write changes, and what it keeps.
attribute-write_to :
    {S T : Type 0} (target : Target) (p q : ℕ) (t : T) (o : Optimizer S T)
    → attribute target (write_to target p t o) q ≡ (if q == p then t else attribute target o q)
attribute-write_to to_data p q t o = refl
attribute-write_to to_grad p q t o = refl

attribute-same :
    {S T : Type 0} (target : Target) (p : ℕ) (s : S) (d : Dict ℤ) (o : Optimizer S T)
    → attribute target (record o { bf = s; delay = d }) p ≡ attribute target o p
attribute-same to_data p s d o = refl
attribute-same to_grad p s d o = refl

other-kept :
    {S T : Type 0} (target : Target) (s : S) (d : Dict ℤ) (o : Optimizer S T)
    → attribute (opposite target) (record o { bf = s; delay = d }) ≡ attribute (opposite target) o
other-kept to_data s d o = refl
other-kept to_grad s d o = refl

other-written :
    {S T : Type 0} (target : Target) (p : ℕ) (t : T) (s : S) (d : Dict ℤ) (o : Optimizer S T)
    → attribute (opposite target) (record (write_to target p t (record o { bf = s })) { delay = d })
      ≡ attribute (opposite target) o
other-written to_data p t s d o = refl
other-written to_grad p t s d o = refl

module _ {S T : Type 0} (c : Communicator S T) (Sound : S → Type 0) (pending : S → ℕ → Option T)
    (h : IsCommunicator c Sound pending) where
  -- Over outstanding handles the loop ends without raising.
  pub settle-Settled :
      (target : Target) (passes : ℕ) (hs : Dict (Option ℕ)) (o : Optimizer S T)
      → Sound o.bf
      → Outstanding pending o.bf hs
      → let (result, after) = settle c.finish target passes hs o in
        (result ≡ ok tt) × Settled pending Sound target passes hs o after
  unfolding settle
  settle-Settled target passes [] o sound out = (
    refl,
    record {
      sound = sound;
      used = λ k. refl;
      written = λ p. refl;
      reset = λ p. refl;
      same_other = refl;
      same_handles = refl;
      same_flags = (refl, refl, refl);
    },
  )
  settle-Settled target passes ((p, none) ∷ rest) o sound (new, out) =
      let o' = record o { delay = assign p (pos passes) o.delay } in
      let (r, d) = settle-Settled target passes rest o' sound out in
      (
        r,
        record {
          sound = d.sound;
          used = d.used;
          written = λ q. ground (
            arith,
            d.written q,
            attribute-same target q o.bf (assign p (pos passes) o.delay) o,
            lookup-missing p rest new,
          );
          reset = λ q. ground (arith, d.reset q, lookup-assign q p (pos passes) o.delay);
          same_other = d.same_other ∙ other-kept target o.bf (assign p (pos passes) o.delay) o;
          same_handles = d.same_handles;
          same_flags = d.same_flags;
        },
      )
  settle-Settled target passes ((p, some handle) ∷ rest) o sound (new, once, (output, wait), out) =
      let (returned, sound', used') = h.finished handle output o.bf sound wait in
      let s' = (c.finish handle o.bf).1 in
      let o1 = record o { bf = s' } in
      let o2 = write_to target p output o1 in
      let o' = record o2 { delay = assign p (pos passes) o2.delay } in
      let others : (k : ℕ) → elem k (handles_of rest) ≡ true → pending s' k ≡ pending o.bf k =
        λ k m. ground (arith, used' k, once) in
      let (r, d) =
        settle-Settled target passes rest o' sound'
          (Outstanding-same pending o.bf s' rest others out) in
      (
        ground (arith, returned, r),
        record {
          sound = ground (arith, returned, d.sound);
          used = λ k. ground (arith, returned, d.used k, used' k);
          written = λ q. ground (
            arith,
            returned,
            d.written q,
            attribute-same target q s' (assign p (pos passes) o2.delay) o2,
            attribute-write_to target p q output o1,
            attribute-same target q s' o.delay o,
            expected-same pending o.bf s' rest q others,
            wait,
            lookup-missing p rest new,
          );
          reset = λ q. ground (arith, returned, d.reset q, lookup-assign q p (pos passes) o.delay);
          same_other = ground (
            arith,
            returned,
            d.same_other,
            other-written target p output s' (assign p (pos passes) o.delay) o,
          );
          same_handles = ground (arith, returned, d.same_handles);
          same_flags = ground (arith, returned, d.same_flags);
        },
      )
