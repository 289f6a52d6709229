-- ===== src/Optimizers/Reduce/Round.antt =====
-- A round: as many forward computations as the optimizer counts, and then `synchronize`.
use Prim.Native.String.{String}
use bluefog.Common.{
  ap, Bool-cases, inl, inr, ℕ, zero, suc, ◌-◌, ◌≤◌, ◌<◌, ◌≡◌, ◌∙◌, refl, arith, Bool, true, false,
  if◌then◌else◌, Option, none, some, List, [], ok,
}
use bluefog.Common.Names.{Names}
use bluefog.Common.Delays.{pos}
use bluefog.Common.Dict.{lookup, keys, lookup-missing}
use bluefog.Common.Ranks.{elem, distinct}
use bluefog.Common.Stateful.{M, ◌>>◌, return}
use bluefog.Optimizers.Communicator.{Communicator, IsCommunicator, Accepts}
use bluefog.Optimizers.Calls.{CommunicationType, Calls, communicator_of}
use bluefog.Optimizers.Modules.{Layer, Module, Children, module_of, child, named_leaf_module}
use bluefog.Optimizers.State.{Optimizer}
use bluefog.Optimizers.State.Settle.{handles_of, AllSome, expected, expected-some}
use bluefog.Optimizers.State.Kept.{Outcome, expected-Outcome, Kept, Kept-same, Kept-trans, Tied}
use bluefog.Optimizers.State.Count.{Inv}
use bluefog.Optimizers.State.Trace.{counters-all, count-distinct}
use bluefog.Optimizers.Reduce.{hook, synchronize}
use bluefog.Optimizers.Reduce.Hook.{passed_of, forward-Counted}
use bluefog.Optimizers.Reduce.Synchronize.{synchronize-Combined}

module _ {S T : Type 0} (calls : Calls S T) (communication_type : CommunicationType)
    (num_steps_per_communication : ℕ) (name_parameters : Names ℕ) (requires_grad : ℕ → Bool)
    (timeline_end_activity : String → M S Bool) where
  -- The hook after each of `k` computations.
  unfoldable pub forwards : Module → (k : ℕ) → M (Optimizer S T) (Unit {0})
  unfolding hook
  forwards model zero = return tt
  forwards model (suc k) = do
    forwards model k
    hook calls communication_type num_steps_per_communication name_parameters requires_grad false
        timeline_end_activity model

  unfoldable pub round : Module → M (Optimizer S T) (Unit {0})
  unfolding forwards synchronize
  round model = do
    forwards model num_steps_per_communication
    synchronize calls communication_type num_steps_per_communication name_parameters requires_grad
        false timeline_end_activity

  module _ (c : Communicator S T) (chosen : communicator_of calls communication_type ≡ some c)
      (Sound : S → Type 0) (pending : S → ℕ → Option T) (h : IsCommunicator c Sound pending)
      (accepts : (t : T) → Accepts c Sound t) where
    -- Before a round: nothing has been started, and the parameters that a forward computation passes
    -- have all their passes left.
    pub record Fresh (passed : List ℕ) (o : Optimizer S T) : Type 0 where
      pub inv : Inv c Sound pending h o
      pub empty : o.handles ≡ []
      pub full :
          (p : ℕ) → elem p passed ≡ true → lookup p o.delay ≡ some (pos num_steps_per_communication)

    -- After `k` computations of a round.
    record UnderWay (passed : List ℕ) (k : ℕ) (o after : Optimizer S T) : Type 0 where
      pub inv : Inv c Sound pending h after
      pub all_some : AllSome after.handles
      pub left :
          (p : ℕ)
          → lookup p after.delay ≡ (
              if elem p passed
              then some (pos (num_steps_per_communication - k))
              else lookup p o.delay)
      pub kept : Kept pending o after
      pub tied : Tied c Sound pending o.param_data after
      pub same_data : after.param_data ≡ o.param_data
      pub same_grad : after.param_grad ≡ o.param_grad

    module _ (layer : Layer) (name : String) (m : Module) (cs : Children) where
      abbrev model : Module
      model = module_of layer (child name m cs)

      abbrev passed : List ℕ
      passed = passed_of name_parameters requires_grad (named_leaf_module none model)

      forwards-UnderWay :
          (k : ℕ) (o : Optimizer S T)
          → Fresh passed o
          → distinct passed ≡ true
          → k ≤ num_steps_per_communication
          → let (result, after) = forwards model k o in (result ≡ ok tt) × UnderWay passed k o after
      unfolding forwards
      forwards-UnderWay zero o f once few = (
        refl,
        record {
          inv = f.inv;
          all_some = ground (arith, f.empty);
          left = λ p. ground (arith, f.full p);
          kept = Kept-same pending o o refl refl;
          tied = λ p handle output at wait. absurd (ground (arith, f.empty));
          same_data = refl;
          same_grad = refl;
        },
      )
      forwards-UnderWay (suc k) o f once few =
          let (ran, before) = forwards-UnderWay k o f once (ground arith) in
          let mid = (forwards model k o).1 in
          let have =
            counters-all mid.delay passed
              (λ p e. (pos (num_steps_per_communication - k), ground (arith, before.left p))) in
          let (ends, after) =
            forward-Counted calls communication_type num_steps_per_communication name_parameters
              requires_grad timeline_end_activity c chosen Sound pending h accepts layer name m cs
              mid before.inv have in
          let later =
            (hook calls communication_type num_steps_per_communication name_parameters requires_grad
              false timeline_end_activity model mid).1 in
          let whole : forwards model (suc k) o
              ≡ hook calls communication_type num_steps_per_communication name_parameters
                  requires_grad false timeline_end_activity model mid =
            ground (arith, ran) in
          rw whole (
            ends,
            record {
              inv = after.inv;
              all_some = after.all_some before.all_some;
              left =
                  λ p. ground (arith, after.lower p, before.left p, count-distinct p passed once);
              kept = Kept-trans pending o mid later before.kept after.kept;
              tied =
                  after.ties o.param_data (λ p x e _. ap (λ d. d p) (e ∙ before.same_data))
                    before.tied;
              same_data = ground (arith, after.same_attributes, before.same_data);
              same_grad = ground (arith, after.same_attributes, before.same_grad);
            },
          )

      -- A round of a model with children, in which no parameter is passed twice in one
      -- computation: if the timeline is off, the operation accepts all tensors and the counters
      -- are full, then nothing raises. Each parameter that is passed is set to the output that it
      -- waited for, which is an output of the operation for the parameter's data before the round.
      -- What is pending after the round is what was pending before it: of all that the round has
      -- started, nothing is left without a wait. The other parameters and the gradients stay, and
      -- the counters are full again.
      pub round-Fresh :
          (o : Optimizer S T)
          → Fresh passed o
          → distinct passed ≡ true
          → 0 < num_steps_per_communication
          → let (result, after) = round model o in
            let mid = (forwards model num_steps_per_communication o).1 in
            (result ≡ ok tt)
            × Fresh passed after
            × ((p : ℕ)
                → elem p passed ≡ true
                → (output : T) × (expected pending mid.bf mid.handles p ≡ some output)
                  × (after.param_data p ≡ output)
                  × Outcome c Sound pending (o.param_data p) output)
            × ((k : ℕ) → pending after.bf k ≡ pending o.bf k)
            × ((p : ℕ) → elem p passed ≡ false → after.param_data p ≡ o.param_data p)
            × (after.param_grad ≡ o.param_grad)
      unfolding round
      round-Fresh o f once many =
          let n = num_steps_per_communication in
          let (ran, way) = forwards-UnderWay n o f once (ground arith) in
          let mid = (forwards model n o).1 in
          let (ended, combined) =
            synchronize-Combined calls communication_type n name_parameters requires_grad
              timeline_end_activity c chosen Sound pending h mid way.inv.sound
              way.inv.outstanding in
          let listed : (p : ℕ) → elem p (keys mid.handles) ≡ elem p passed =
            λ p. ground (arith, way.inv.counted p, way.left p, f.inv.counted p, f.empty) in
          let whole : round model o
              ≡ synchronize calls communication_type n name_parameters requires_grad false
                  timeline_end_activity mid =
            ground (arith, ran) in
          rw whole (
            ended,
            record {
              inv = record {
                sound = combined.sound;
                outstanding = ground (arith, combined.empty);
                counted = λ p. ground (
                  arith,
                  combined.empty,
                  combined.reset p,
                  listed p,
                  way.left p,
                  f.inv.counted p,
                  f.empty,
                );
              };
              empty = combined.empty;
              full = λ p e. ground (arith, combined.reset p, listed p);
            },
            λ p e.
                let (output, at) =
                  expected-some pending mid.bf mid.handles p way.inv.outstanding way.all_some
                    (listed p ∙ e) in
                (
                  output,
                  at,
                  ground (arith, combined.combined p, at),
                  expected-Outcome c Sound pending o.param_data mid p output way.tied at,
                ),
            λ k. elim (Bool-cases (elem k (handles_of mid.handles))) [
              | inl m ↦ ground (arith, combined.used k, way.kept.new k (ground (arith, f.empty)) m)
              | inr n ↦ ground (arith, combined.used k, way.kept.clean k n)
            ],
            λ p e.
                ground (
                  arith,
                  combined.combined p,
                  listed p,
                  lookup-missing p mid.handles,
                  way.same_data,
                ),
            ground (arith, combined.same_grad, way.same_grad),
          )
