-- ===== src/Optimizers/Communicator.antt =====
-- What an optimizer asks of the operations that it starts for a parameter: a nonblocking call, and
-- the wait for its handle. The laws are those that the optimizers rely on; they hold where no
-- operation fails once it has been started.
pub mod Handles
use bluefog.Common.{ℕ, ◌==◌, ◌≡◌, Option, none, some, if◌then◌else◌, ok, raise, Error}
use bluefog.Common.Stateful.{M}

pub record Communicator (S T : Type 0) : Type 0 where
  pub start : T → M S ℕ
  pub finish : ℕ → M S T

-- `pending s handle` is the output that a wait for the handle returns. The states that the laws
-- speak of are the sound ones.
pub record IsCommunicator {S T : Type 0} (c : Communicator S T) (Sound : S → Type 0)
    (pending : S → ℕ → Option T) : Type 0 where
  -- A call that returns a handle returns a new one, and registers an output for it.
  pub started :
      (t : T) (s : S) (handle : ℕ)
      → Sound s
      → (c.start t s).0 ≡ ok handle
      → (output : T) × Sound (c.start t s).1
        × (pending s handle ≡ none)
        × ((k : ℕ) → pending (c.start t s).1 k ≡ (if k == handle then some output else pending s k))
  -- A call that raises registers nothing.
  pub refused :
      (t : T) (s : S) (e : Error)
      → Sound s
      → (c.start t s).0 ≡ raise e
      → Sound (c.start t s).1 × ((k : ℕ) → pending (c.start t s).1 k ≡ pending s k)
  -- A wait returns the output and uses the handle up.
  pub finished :
      (handle : ℕ) (output : T) (s : S)
      → Sound s
      → pending s handle ≡ some output
      → ((c.finish handle s).0 ≡ ok output)
        × Sound (c.finish handle s).1
        × ((k : ℕ) → pending (c.finish handle s).1 k ≡ (if k == handle then none else pending s k))

-- No call for such a tensor raises.
abbrev pub Accepts : {S T : Type 0} → Communicator S T → (S → Type 0) → T → Type 0
Accepts {S} c Sound t = (s : S) → Sound s → (handle : ℕ) × ((c.start t s).0 ≡ ok handle)
