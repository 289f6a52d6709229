-- ===== src/Optimizers/State/Trace.antt =====
-- A pass of each parameter of a list, in its order.
use bluefog.Common.{
  ◌∙◌, ℕ, zero, suc, ◌≡◌, refl, arith, Bool, true, false, ◌==◌, if◌then◌else◌, Option, none, some,
  List, [], ◌∷◌, ok, Bool-cases, Option-cases, inl, inr,
}
use bluefog.Common.Delays.{ℤ, pred, is_zero}
use bluefog.Common.Dict.{Dict, lookup, lookup-assign}
use bluefog.Common.Ranks.{elem, distinct}
use bluefog.Common.Stateful.{M, for_each}
use bluefog.Optimizers.Communicator.{Communicator, IsCommunicator, Accepts}
use bluefog.Optimizers.State.{Optimizer, communicate, count_down, use_pass}
use bluefog.Optimizers.State.Kept.{Kept, Kept-same, Kept-trans, Tied}
use bluefog.Optimizers.State.Settle.{AllSome, AllSome-assign}
use bluefog.Optimizers.State.Count.{Inv, count_down-Passed, count_down_ends}

-- How often a parameter is listed.
abbrev pub count : ℕ → List ℕ → ℕ
count q [] = 0
count q (p ∷ ps) = if q == p then suc (count q ps) else count q ps

-- A counter after some passes.
abbrev pub lowered : ℕ → Option ℤ → Option ℤ
lowered n none = none
lowered zero (some d) = some d
lowered (suc n) (some d) = lowered n (some (pred d))

-- Each parameter of the list has a counter.
abbrev pub counters : Dict ℤ → List ℕ → Bool
counters delay [] = true
counters delay (p ∷ ps) = elim (lookup p delay) [ none ↦ false | some d ↦ counters delay ps ]

pub counters-lower :
    (delay after : Dict ℤ) (p : ℕ) (d : ℤ) (ps : List ℕ)
    → ((q : ℕ) → lookup q after ≡ (if q == p then some d else lookup q delay))
    → counters delay ps ≡ true
    → counters after ps ≡ true
counters-lower delay after p d [] e h = refl
counters-lower delay after p d (q ∷ ps) e h =
    ground (arith, e q, counters-lower delay after p d ps e)

pub counters-all :
    (delay : Dict ℤ) (ps : List ℕ)
    → ((p : ℕ) → elem p ps ≡ true → (d : ℤ) × (lookup p delay ≡ some d))
    → counters delay ps ≡ true
counters-all delay [] has = refl
counters-all delay (p ∷ ps) has =
    let (d, at) = has p (ground arith) in
    ground (arith, at, counters-all delay ps (λ q m. has q (ground arith)))

pub count-distinct :
    (p : ℕ) (ps : List ℕ) → distinct ps ≡ true → count p ps ≡ (if elem p ps then suc zero else zero)
count-distinct p [] d = refl
count-distinct p (q ∷ ps) d = ground (arith, count-distinct p ps)

module _ {S T : Type 0} (c : Communicator S T) (Sound : S → Type 0) (pending : S → ℕ → Option T)
    (h : IsCommunicator c Sound pending) (accepts : (t : T) → Accepts c Sound t)
    (tensor : ℕ → Optimizer S T → T) where
  abbrev pub pass : ℕ → M (Optimizer S T) (Unit {0})
  pass p = count_down p (communicate (some c) (tensor p))

  pub record Counted (ps : List ℕ) (o after : Optimizer S T) : Type 0 where
    pub inv : Inv c Sound pending h after
    pub lower : (q : ℕ) → lookup q after.delay ≡ lowered (count q ps) (lookup q o.delay)
    pub all_some : AllSome o.handles → AllSome after.handles
    pub kept : Kept pending o after
    pub ties :
        (g : ℕ → T)
        → ((q : ℕ) (x : Optimizer S T)
            → x.param_data ≡ o.param_data
            → x.param_grad ≡ o.param_grad
            → tensor q x ≡ g q)
        → Tied c Sound pending g o
        → Tied c Sound pending g after
    pub others : (q : ℕ) → count q ps ≡ 0 → lookup q after.handles ≡ lookup q o.handles
    pub same_attributes :
        (after.param_data ≡ o.param_data)
        × (after.param_grad ≡ o.param_grad)
        × (after.should_synchronize ≡ o.should_synchronize)
        × (after.synchronized ≡ o.synchronized)

  pub passes_all-Counted :
      (ps : List ℕ) (o : Optimizer S T)
      → Inv c Sound pending h o
      → counters o.delay ps ≡ true
      → let (result, after) = for_each pass ps o in (result ≡ ok tt) × Counted ps o after
  passes_all-Counted [] o inv a = (
    refl,
    record {
      inv = inv;
      lower = λ q. ground arith;
      all_some = λ a. a;
      kept = Kept-same pending o o refl refl;
      ties = λ g e tied. tied;
      others = λ q _. refl;
      same_attributes = (refl, refl, refl, refl);
    },
  )
  passes_all-Counted (p ∷ ps) o inv a = elim (Option-cases (lookup p o.delay)) [
    | inl missing ↦ absurd (ground (arith, missing))
    | inr (d, at) ↦
        let ends =
          count_down_ends c Sound pending h p d (tensor p) o inv at
            (accepts (tensor p (use_pass p d o))) in
        let passed = count_down-Passed c Sound pending h p d (tensor p) o inv at ends in
        let mid = (pass p o).1 in
        let have =
          counters-lower o.delay mid.delay p (pred d) ps passed.one_less (ground (arith, at)) in
        let (rest, after) = passes_all-Counted ps mid passed.inv have in
        let whole : for_each pass (p ∷ ps) o ≡ for_each pass ps mid = ground (arith, ends) in
        rw whole (
          rest,
          record {
            inv = after.inv;
            lower = λ q. ground (arith, after.lower q, passed.one_less q, at);
            all_some = λ a. elim (Bool-cases (is_zero (pred d))) [
              | inr quiet ↦
                  let (same_bf, same_handles) = passed.quiet quiet in
                  after.all_some (rw same_handles a)
              | inl last ↦
                  let (handle, kept, new) = passed.starts last in
                  after.all_some (rw kept (AllSome-assign p handle o.handles a))
            ];
            kept = Kept-trans pending o mid (for_each pass ps mid).1 passed.kept after.kept;
            ties = λ g e tied.
                let same_data : mid.param_data ≡ o.param_data =
                  ground (arith, passed.same_attributes) in
                let same_grad : mid.param_grad ≡ o.param_grad =
                  ground (arith, passed.same_attributes) in
                after.ties g (λ q x d' f. e q x (d' ∙ same_data) (f ∙ same_grad))
                  (passed.ties g (e p (use_pass p d o) refl refl) tied);
            others = λ q n. elim (Bool-cases (is_zero (pred d))) [
              | inr quiet ↦ ground (arith, after.others q, passed.quiet quiet)
              | inl last ↦
                  let (handle, kept, new) = passed.starts last in
                  ground (arith, after.others q, kept, lookup-assign q p (some handle) o.handles)
            ];
            same_attributes = ground (arith, after.same_attributes, passed.same_attributes);
          },
        )
  ]
