-- ===== src/Optimizers/State/Kept.antt =====
-- What starting operations leaves of the handles that were there, and what an output comes from.
use bluefog.Common.{
  ℕ, ◌≡◌, ◌∙◌, refl, arith, true, false, Option, none, some, Bool-cases, inl, inr, ok,
}
use bluefog.Common.Dict.{lookup}
use bluefog.Common.Ranks.{elem}
use bluefog.Optimizers.Communicator.{Communicator}
use bluefog.Optimizers.State.{Optimizer}
use bluefog.Optimizers.State.Settle.{handles_of, handle_of, expected, expected_at}

-- The output is what the operation, started for this tensor, makes.
abbrev pub Outcome :
    {S T : Type 0} → Communicator S T → (S → Type 0) → (S → ℕ → Option T) → T → T → Type 0
Outcome {S} c Sound pending t output =
    (s : S) × (handle : ℕ) × Sound s
    × ((c.start t s).0 ≡ ok handle)
    × (pending (c.start t s).1 handle ≡ some output)

module _ {S T : Type 0} (pending : S → ℕ → Option T) where
  -- All that is started has its handle in the dictionary, and what was pending stays so.
  pub record Kept (o after : Optimizer S T) : Type 0 where
    pub clean :
        (k : ℕ) → elem k (handles_of after.handles) ≡ false → pending after.bf k ≡ pending o.bf k
    pub new :
        (k : ℕ)
        → elem k (handles_of o.handles) ≡ false
        → elem k (handles_of after.handles) ≡ true
        → pending o.bf k ≡ none
    pub more :
        (k : ℕ) → elem k (handles_of o.handles) ≡ true → elem k (handles_of after.handles) ≡ true
    pub still : (k : ℕ) → elem k (handles_of o.handles) ≡ true → pending after.bf k ≡ pending o.bf k

  pub Kept-same :
      (o after : Optimizer S T) → after.bf ≡ o.bf → after.handles ≡ o.handles → Kept o after
  Kept-same o after b h = record {
    clean = λ k n. rw b refl;
    new = λ k n m. absurd (ground (arith, h));
    more = λ k m. rw h m;
    still = λ k m. rw b refl;
  }

  pub Kept-trans : (a b c : Optimizer S T) → Kept a b → Kept b c → Kept a c
  Kept-trans a b c f g = record {
    clean = λ k n. elim (Bool-cases (elem k (handles_of b.handles))) [
      | inl m ↦ absurd (ground (arith, g.more k m))
      | inr m ↦ g.clean k n ∙ f.clean k m
    ];
    new = λ k n m. elim (Bool-cases (elem k (handles_of b.handles))) [
      | inl w ↦ f.new k n w
      | inr w ↦ ground (arith, g.new k w m, f.clean k w)
    ];
    more = λ k m. g.more k (f.more k m);
    still = λ k m. g.still k (f.more k m) ∙ f.still k m;
  }

-- Every handle of the dictionary is that of an operation for the tensor of its parameter.
abbrev pub Tied :
    {S T : Type 0}
    → Communicator S T
    → (S → Type 0)
    → (S → ℕ → Option T)
    → (ℕ → T)
    → Optimizer S T
    → Type 0
Tied {S} {T} c Sound pending tensor o =
    (p handle : ℕ) (output : T)
    → lookup p o.handles ≡ some (some handle)
    → pending o.bf handle ≡ some output
    → Outcome c Sound pending (tensor p) output

module _ {S T : Type 0} (c : Communicator S T) (Sound : S → Type 0) (pending : S → ℕ → Option T)
    (tensor : ℕ → T) (o : Optimizer S T) where
  found-Outcome :
      (p : ℕ) (output : T) (found : Option (Option ℕ))
      → Tied c Sound pending tensor o
      → lookup p o.handles ≡ found
      → expected_at pending o.bf (handle_of found) ≡ some output
      → Outcome c Sound pending (tensor p) output
  found-Outcome p output none tied at e = absurd (ground (arith, e))
  found-Outcome p output (some none) tied at e = absurd (ground (arith, e))
  found-Outcome p output (some (some k)) tied at e = tied p k output at e

  -- What a parameter waits for.
  pub expected-Outcome :
      (p : ℕ) (output : T)
      → Tied c Sound pending tensor o
      → expected pending o.bf o.handles p ≡ some output
      → Outcome c Sound pending (tensor p) output
  expected-Outcome p output tied e = found-Outcome p output (lookup p o.handles) tied refl e
