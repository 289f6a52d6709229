-- ===== src/Optimizers/Communicator/Handles.antt =====
-- The operations of mpi_ops.py are such operations, if the extension gives each handle out once and
-- no operation that it has started fails.
use bluefog.Common.{
  ◌⊎◌, ◌&&◌, value_error, Bool-cases, refl, sym, Error, raise, ℕ, ◌≤◌, ◌<◌, ◌≡◌, arith, Bool, true,
  false, ◌==◌, if◌then◌else◌, Option, none, some, List, ok, Result-cases, inl, inr,
}
use bluefog.Common.Dict.{Dict, lookup, lookup-assign, lookup-delete}
use bluefog.Basics.Library.{Library}
use bluefog.Common.Stateful.{M}
use bluefog.Torch.Weights.{Floats, Plan, given_together, first_dim, plan}
use bluefog.Torch.Handles.{
  Tensors, Extension, Ops, allreduce_op, neighbor_allreduce_op, start, check_function,
  allreduce_start, allreduce_nonblocking, synchronize, neighbor_allreduce_nonblocking,
}
use bluefog.Optimizers.Communicator.{Communicator, IsCommunicator}

-- A call gives a handle out that has not been given out, or raises and takes none back.
abbrev pub Issues : {L : Type 0} → (L → ℕ) → M L ℕ → Type 0
Issues {L} issued call =
    (l : L)
    → ((handle : ℕ) → (call l).0 ≡ ok handle → (issued l ≤ handle) × (handle < issued (call l).1))
      × (issued l ≤ issued (call l).1)

-- The handle manager of the extension counts the handles that it has given out.
pub record IssuesHandles {L T F : Type 0} (ext : Extension L T F) (issued : L → ℕ) : Type 0 where
  pub allreduce_issues :
      (t output : T) (average local : Bool) → Issues issued (ext.allreduce t output average local)
  pub neighbor_allreduce_issues :
      (t output : T) (p : Plan F) (topo_check hierarchical : Bool)
      → Issues issued (ext.neighbor_allreduce t output p topo_check hierarchical)
  pub wait_keeps : (handle : ℕ) (l : L) → issued (ext.wait_and_clear handle l).1 ≡ issued l

-- No operation that has been started fails.
abbrev pub NoFailure : {L T F : Type 0} → Extension L T F → Type 0
NoFailure {L} ext = (handle : ℕ) (l : L) → (ext.wait_and_clear handle l).0 ≡ ok tt

module _ {L T F : Type 0} (tensors : Tensors T) (ext : Extension L T F) where
  -- `bf.allreduce_nonblocking(tensor, average=True)`
  abbrev pub allreduce_communicator : Communicator (Ops L T F) T
  allreduce_communicator = record {
    start = λ t. allreduce_nonblocking tensors ext t true false;
    finish = synchronize tensors ext;
  }

  -- `bf.neighbor_allreduce_nonblocking` with the weights that the optimizer holds.
  abbrev pub neighbor_allreduce_communicator :
      Floats F
      → Library L F
      → Option F
      → Option (Dict F)
      → Option (List ℕ)
      → Bool
      → Communicator (Ops L T F) T
  neighbor_allreduce_communicator fl lib own others sends topo_check = record {
    start = λ t. neighbor_allreduce_nonblocking tensors ext fl lib t own others sends topo_check;
    finish = synchronize tensors ext;
  }

  abbrev pub output_of : Option (T × T) → Option T
  output_of none = none
  output_of (some (_, output)) = some output

  abbrev pub pending_output : Ops L T F → ℕ → Option T
  pending_output s handle = output_of (lookup handle s.handle_map)

  module _ (issued : L → ℕ) (issues : IssuesHandles ext issued) (no_failure : NoFailure ext) where
    -- No handle is registered that has not been given out.
    abbrev pub Registered : Ops L T F → Type 0
    Registered s = (k : ℕ) → issued s.basics.library ≤ k → lookup k s.handle_map ≡ none

    synchronize-finished :
        (handle : ℕ) (output : T) (s : Ops L T F)
        → Registered s
        → pending_output s handle ≡ some output
        → let (result, after) = synchronize tensors ext handle s in
          (result ≡ ok output)
          × Registered after
          × ((k : ℕ) → pending_output after k ≡ (if k == handle then none else pending_output s k))
    unfolding synchronize
    synchronize-finished handle output s r h = (
      ground (arith, no_failure handle s.basics.library),
      λ k l. ground (
        arith,
        r k,
        no_failure handle s.basics.library,
        issues.wait_keeps handle s.basics.library,
        lookup-delete k handle s.handle_map,
      ),
      λ k. ground (arith, no_failure handle s.basics.library, lookup-delete k handle s.handle_map),
    )

    -- A call of the extension whose handle is registered with an output.
    start-started :
        (t output : T) (call : M L ℕ) (s : Ops L T F) (handle : ℕ)
        → Issues issued call
        → Registered s
        → let (result, after) = start tensors ext t output call s in
          result ≡ ok handle
          → Registered after
            × (pending_output s handle ≡ none)
            × ((k : ℕ)
                → pending_output after k
                  ≡ (if k == handle then some output else pending_output s k))
    unfolding start
    start-started t output call s handle issues_call r e =
        let called : (call s.basics.library).0 ≡ ok handle = ground arith in
        let (new, grows) = issues_call s.basics.library in
        let (least, less) = new handle called in
        (
          λ k l.
              ground
                (arith, called, grows, less, r k, lookup-assign k handle (t, output) s.handle_map),
          ground (arith, least, r handle),
          λ k. ground (arith, called, lookup-assign k handle (t, output) s.handle_map),
        )

    start-refused :
        (t output : T) (call : M L ℕ) (s : Ops L T F) (e : Error)
        → Issues issued call
        → Registered s
        → let (result, after) = start tensors ext t output call s in
          result ≡ raise e
          → Registered after × ((k : ℕ) → pending_output after k ≡ pending_output s k)
    unfolding start
    start-refused t output call s e issues_call r h =
        let (new, grows) = issues_call s.basics.library in
        (λ k l. ground (arith, grows, r k), λ k. ground arith)

    -- If the extension gives each handle out once, and no operation fails that it has started, then
    -- the allreduce and the wait of mpi_ops.py are an operation as the optimizers rely on it: a call
    -- that returns registers a new handle and its output, a call that raises registers nothing, and
    -- a wait returns the output and uses the handle up.
    pub allreduce-IsCommunicator : IsCommunicator allreduce_communicator Registered pending_output
    unfolding allreduce_nonblocking allreduce_start check_function
    allreduce-IsCommunicator = record {
      started = λ t s handle r e.
          let output = tensors.fresh t (tensors.rows t) in
          let whole : allreduce_nonblocking tensors ext t true false s
              ≡ start tensors ext t output (ext.allreduce t output true false) s =
            ground arith in
          let (sound, new, listed) =
            start-started t output (ext.allreduce t output true false) s handle
              (issues.allreduce_issues t output true false) r (rw (sym whole) e) in
          rw whole (output, sound, new, listed);
      refused = λ t s e r h.
          let output = tensors.fresh t (tensors.rows t) in
          let call = ext.allreduce t output true false in
          elim (Bool-cases (
            ext.has_function allreduce_op (tensors.tensor_type t)
            && tensors.is_contiguous t
            && tensors.is_floating t)) [
              | inl good ↦
                  let whole : allreduce_nonblocking tensors ext t true false s
                      ≡ start tensors ext t output call s =
                    ground arith in
                  rw whole (
                    start-refused t output call s e (issues.allreduce_issues t output true false) r
                      (rw (sym whole) h))
              | inr bad ↦
                  let whole : (allreduce_nonblocking tensors ext t true false s).1 ≡ s =
                    ground arith in
                  rw whole (r, λ k. refl)
            ];
      finished = synchronize-finished;
    }

    module _ (fl : Floats F) (lib : Library L F) (own : Option F) (others : Option (Dict F))
        (sends : Option (List ℕ)) (topo_check : Bool) where
      -- A call calls the extension and registers what it answers, or it raises and changes nothing.
      neighbor_allreduce-start :
          (t : T) (s : Ops L T F)
          → let done =
              neighbor_allreduce_nonblocking tensors ext fl lib t own others sends topo_check s in
            ((output : T) × (p : Plan F) × (done
                ≡ start tensors ext t output
                    (ext.neighbor_allreduce t output p topo_check false)
                    s))
            ⊎ ((e : Error) × (done ≡ (raise e, s)))
      unfolding neighbor_allreduce_nonblocking check_function
      neighbor_allreduce-start t s =
          elim (Bool-cases (
            given_together fl lib own others
            && ext.has_function neighbor_allreduce_op (tensors.tensor_type t)
            && tensors.is_contiguous t)) [
              | inr bad ↦
                  elim (Result-cases (first_dim fl lib s.basics (tensors.rows t) others sends)) [
                    | inr (rows, sized) ↦ inr (value_error, ground arith)
                    | inl (e, refused) ↦ elim (Bool-cases (given_together fl lib own others)) [
                      | inl given ↦ inr (e, ground arith)
                      | inr missing ↦ inr (value_error, ground arith)
                    ]
                  ]
              | inl good ↦
                  elim (Result-cases (first_dim fl lib s.basics (tensors.rows t) others sends)) [
                    | inl (e, refused) ↦ inr (e, ground arith)
                    | inr (rows, sized) ↦
                        elim (Result-cases (plan fl lib s.basics own others sends)) [
                          | inl (e, refused) ↦ inr (e, ground arith)
                          | inr (p, planned) ↦ inl (tensors.fresh t rows, p, ground arith)
                        ]
                  ]
            ]

      -- So is the neighbor allreduce, with whatever weights the optimizer holds.
      pub neighbor_allreduce-IsCommunicator :
          IsCommunicator
            (neighbor_allreduce_communicator fl lib own others sends topo_check)
            Registered
            pending_output
      neighbor_allreduce-IsCommunicator = record {
        started = λ t s handle r e. elim (neighbor_allreduce-start t s) [
          | inl (output, p, whole) ↦
              let call = ext.neighbor_allreduce t output p topo_check false in
              let (sound, new, listed) =
                start-started t output call s handle
                  (issues.neighbor_allreduce_issues t output p topo_check false) r
                  (rw (sym whole) e) in
              rw whole (output, sound, new, listed)
          | inr (_, whole) ↦ absurd (ground (arith, whole))
        ];
        refused = λ t s e r h. elim (neighbor_allreduce-start t s) [
          | inl (output, p, whole) ↦
              let call = ext.neighbor_allreduce t output p topo_check false in
              rw whole (
                start-refused t output call s e
                  (issues.neighbor_allreduce_issues t output p topo_check false) r
                  (rw (sym whole) h))
          | inr (_, whole) ↦ rw whole (r, λ k. refl)
        ];
        finished = synchronize-finished;
      }
