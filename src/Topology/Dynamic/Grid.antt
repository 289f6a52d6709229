-- ===== src/Topology/Dynamic/Grid.antt =====
-- Exchanges over machines of `n` ranks each, where rank `local + machine * n` is `local` on
-- `machine`: the local rank `out` of each machine talks to the machine `dist` further, and the
-- others to the local ranks `target` and `source`. Two generators have this shape.
use bluefog.Common.{
  ℕ, ◌+◌, ◌*◌, ◌/◌, ◌%◌, ◌<◌, ◌≡◌, ◌≢◌, ◌==◌, if◌then◌else◌, arith, subst, Result, ok,
}
use bluefog.Common.Arith.{
  sub_mod, div-add-mul, mod-add-mul, add_mod-lt, sub_mod-lt, sub_mod-add_mod, add_mod_small,
  add_mod-sub_mod, flat-lt, div-lt,
}
use native.Mathlib.Nat.{mod-add-div', mod-lt}
use bluefog.Topology.Dynamic.Peers.{Yield, one_peer, Matched, Apart, Apart-send}

module _ (m n out dist : ℕ) (target source : ℕ → ℕ) where
  unfoldable pub grid_send : ℕ → ℕ
  grid_send a = if out == a % n then (a / n + dist) % m * n + a % n else target (a % n) + a / n * n

  unfoldable pub grid_recv : ℕ → ℕ
  grid_recv a =
      if out == a % n then sub_mod (a / n) dist m * n + a % n else source (a % n) + a / n * n

-- The local ranks other than `out` are matched inside the machine.
pub record Inner (n out : ℕ) (target source : ℕ → ℕ) : Type 0 where
  pub target_lt : (l : ℕ) → l < n → target l < n
  pub source_lt : (l : ℕ) → l < n → source l < n
  pub target_ne : (l : ℕ) → l < n → l ≢ out → target l ≢ out
  pub source_ne : (l : ℕ) → l < n → l ≢ out → source l ≢ out
  pub source_of_target : (l : ℕ) → l < n → l ≢ out → source (target l) ≡ l
  pub target_of_source : (l : ℕ) → l < n → l ≢ out → target (source l) ≡ l

module _ (m n out dist : ℕ) (target source : ℕ → ℕ) (machines : 0 < m) (ranks : 0 < n)
    (inner : Inner n out target source) where
  send_on :
      (M l : ℕ)
      → l < n
      → grid_send m n out dist target source (l + M * n)
        ≡ (if out == l then (M + dist) % m * n + l else target l + M * n)
  unfolding grid_send
  send_on M l h = rw (div-add-mul l M n h, mod-add-mul l M n h)

  recv_on :
      (M l : ℕ)
      → l < n
      → grid_recv m n out dist target source (l + M * n)
        ≡ (if out == l then sub_mod M dist m * n + l else source l + M * n)
  unfolding grid_recv
  recv_on M l h = rw (div-add-mul l M n h, mod-add-mul l M n h)

  recv-send_on :
      (M l : ℕ)
      → l < n
      → M < m
      → grid_recv m n out dist target source (grid_send m n out dist target source (l + M * n))
        ≡ l + M * n
  recv-send_on M l h k = ground (
    arith,
    send_on M l h,
    recv_on ((M + dist) % m) l h,
    recv_on M (target l),
    sub_mod-add_mod M dist m k,
    inner.target_lt l h,
    inner.target_ne l h,
    inner.source_of_target l h,
  )

  send-recv_on :
      (M l : ℕ)
      → l < n
      → M < m
      → grid_send m n out dist target source (grid_recv m n out dist target source (l + M * n))
        ≡ l + M * n
  send-recv_on M l h k = ground (
    arith,
    recv_on M l h,
    send_on (sub_mod M dist m) l h,
    send_on M (source l),
    add_mod-sub_mod M dist m k,
    inner.source_lt l h,
    inner.source_ne l h,
    inner.target_of_source l h,
  )

  send_on-lt : (M l : ℕ) → l < n → M < m → grid_send m n out dist target source (l + M * n) < m * n
  send_on-lt M l h k = ground (
    arith,
    send_on M l h,
    inner.target_lt l h,
    flat-lt ((M + dist) % m) l n m (add_mod-lt M dist m machines) h,
    flat-lt M (target l) n m k,
  )

  recv_on-lt : (M l : ℕ) → l < n → M < m → grid_recv m n out dist target source (l + M * n) < m * n
  recv_on-lt M l h k = ground (
    arith,
    recv_on M l h,
    inner.source_lt l h,
    flat-lt (sub_mod M dist m) l n m (sub_mod-lt M dist m machines) h,
    flat-lt M (source l) n m k,
  )

  -- What holds of every rank written as local rank and machine holds of every rank.
  by_machine :
      (P : ℕ → Type 0) → ((M l : ℕ) → l < n → M < m → P (l + M * n)) → (a : ℕ) → a < m * n → P a
  by_machine P f a h =
      subst P (mod-add-div' a n) (f (a / n) (a % n) (mod-lt a ranks) (div-lt a m n h))

  grid_send-ne_on :
      0 < dist
      → dist < m
      → ((l : ℕ) → l < n → l ≢ out → target l ≢ l)
      → (M l : ℕ) → l < n
      → M < m
      → grid_send m n out dist target source (l + M * n) ≢ l + M * n
  grid_send-ne_on pos short inside M l h k e = ground (
    arith,
    send_on M l h,
    add_mod_small M dist m k short,
    inside l h,
    div-add-mul l ((M + dist) % m) n h,
    div-add-mul l M n h,
  )

  -- No rank talks to itself where no local rank and no machine does.
  grid_send-ne :
      0 < dist
      → dist < m
      → ((l : ℕ) → l < n → l ≢ out → target l ≢ l)
      → (a : ℕ) → a < m * n
      → grid_send m n out dist target source a ≢ a
  grid_send-ne pos short inside =
      by_machine (λ a. grid_send m n out dist target source a ≢ a)
        (grid_send-ne_on pos short inside)

  grid_peers :
      (yields : ℕ → Result Yield)
      → ((a : ℕ)
          → a < m * n
          → yields a
            ≡ ok (
                one_peer
                  (grid_send m n out dist target source a)
                  (grid_recv m n out dist target source a)))
      → Matched (m * n) yields
  grid_peers yields e = record {
    send = grid_send m n out dist target source;
    recv = grid_recv m n out dist target source;
    yielded = e;
    send_in_range = by_machine (λ a. grid_send m n out dist target source a < m * n) send_on-lt;
    recv_in_range = by_machine (λ a. grid_recv m n out dist target source a < m * n) recv_on-lt;
    agree = λ a b h k. (
      λ p. rw (← p) (
          by_machine
            (λ x. grid_recv m n out dist target source (grid_send m n out dist target source x) ≡ x)
            recv-send_on a h),
      λ p. rw (← p) (
          by_machine
            (λ x. grid_send m n out dist target source (grid_recv m n out dist target source x) ≡ x)
            send-recv_on b k),
    );
  }

  -- The ranks are matched, and apart where the machines are and the local ranks are.
  pub grid-Matched :
      (yields : ℕ → Result Yield)
      → ((a : ℕ)
          → a < m * n
          → yields a
            ≡ ok (
                one_peer
                  (grid_send m n out dist target source a)
                  (grid_recv m n out dist target source a)))
      → (peers : Matched (m * n) yields) × (0 < dist
          → dist < m
          → ((l : ℕ) → l < n → l ≢ out → target l ≢ l)
          → Apart peers)
  unfolding grid_peers
  grid-Matched yields e =
      let peers = grid_peers yields e in
      (peers, λ pos short inside. Apart-send peers (grid_send-ne pos short inside))
