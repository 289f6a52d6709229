-- ===== src/Topology/Dynamic/Peers.antt =====
-- What the generators of one send rank and one receive rank promise together.
use bluefog.Common.{ℕ, ◌<◌, ◌≡◌, ◌≢◌, ◌↔◌, List, [], ◌∷◌, Result, ok}

-- The pair `[send_rank], [recv_rank]` that an iteration yields.
abbrev pub Yield : Type 0
Yield = List ℕ × List ℕ

abbrev pub one_peer : ℕ → ℕ → Yield
one_peer send recv = (send ∷ [], recv ∷ [])

-- In one iteration over `size` ranks every rank yields one destination and one source, both ranks
-- of the run, and the two views agree: `a` sends to `b` exactly if `b` receives from `a`.
pub record Matched (size : ℕ) (yields : ℕ → Result Yield) : Type 0 where
  pub send : ℕ → ℕ
  pub recv : ℕ → ℕ
  pub yielded : (a : ℕ) → a < size → yields a ≡ ok (one_peer (send a) (recv a))
  pub send_in_range : (a : ℕ) → a < size → send a < size
  pub recv_in_range : (a : ℕ) → a < size → recv a < size
  pub agree : (a b : ℕ) → a < size → b < size → (send a ≡ b) ↔ (recv b ≡ a)

-- ... and no rank is its own destination or source.
abbrev pub Apart : {size : ℕ} {yields : ℕ → Result Yield} → Matched size yields → Type 0
Apart {size} peers = (a : ℕ) → a < size → (peers.send a ≢ a) × (peers.recv a ≢ a)

-- It is enough to look at the destinations.
pub Apart-send :
    {size : ℕ} {yields : ℕ → Result Yield} (peers : Matched size yields)
    → ((a : ℕ) → a < size → peers.send a ≢ a)
    → Apart peers
Apart-send peers h = λ a k. (h a k, λ e. h a k ((peers.agree a a k k).1 e))
