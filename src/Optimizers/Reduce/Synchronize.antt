-- ===== src/Optimizers/Reduce/Synchronize.antt =====
-- What `synchronize` writes, and a round of forward computations that ends with it.
use Prim.Native.String.{String}
use bluefog.Common.{
  ℕ, ◌≡◌, refl, arith, Bool, true, false, if◌then◌else◌, Option, none, some, [], ok,
}
use bluefog.Common.Names.{Names}
use bluefog.Common.Delays.{pos}
use bluefog.Common.Dict.{lookup, keys}
use bluefog.Common.Ranks.{elem}
use bluefog.Common.Stateful.{M}
use bluefog.Optimizers.Communicator.{Communicator, IsCommunicator}
use bluefog.Optimizers.Calls.{CommunicationType, Calls, communicator_of, finish-synchronize}
use bluefog.Optimizers.State.{Optimizer, to_data, settle, settled}
use bluefog.Optimizers.State.Settle.{handles_of, Outstanding, expected, or_else, settle-Settled}
use bluefog.Optimizers.Reduce.{synchronize}

module _ {S T : Type 0} (calls : Calls S T) (communication_type : CommunicationType)
    (num_steps_per_communication : ℕ) (name_parameters : Names ℕ) (requires_grad : ℕ → Bool)
    (timeline_end_activity : String → M S Bool) (c : Communicator S T)
    (chosen : communicator_of calls communication_type ≡ some c) (Sound : S → Type 0)
    (pending : S → ℕ → Option T) (h : IsCommunicator c Sound pending) where
  -- What is written to the parameters that have a handle, and what is reset.
  pub record Combined (o after : Optimizer S T) : Type 0 where
    pub sound : Sound after.bf
    pub empty : after.handles ≡ []
    pub flag : after.synchronized ≡ true
    pub reset :
        (p : ℕ)
        → lookup p after.delay ≡ (
            if elem p (keys o.handles)
            then some (pos num_steps_per_communication)
            else lookup p o.delay)
    pub combined :
        (p : ℕ) → after.param_data p ≡ or_else (expected pending o.bf o.handles p) (o.param_data p)
    pub used :
        (k : ℕ)
        → pending after.bf k ≡ (if elem k (handles_of o.handles) then none else pending o.bf k)
    pub same_grad : after.param_grad ≡ o.param_grad

  finishes : c.finish ≡ calls.synchronize
  finishes = finish-synchronize calls communication_type c chosen

  -- Over outstanding handles `synchronize` does not raise.
  pub synchronize-Combined :
      (o : Optimizer S T)
      → Sound o.bf
      → Outstanding pending o.bf o.handles
      → let (result, after) =
          synchronize calls communication_type num_steps_per_communication name_parameters
            requires_grad false timeline_end_activity o in
        (result ≡ ok tt) × Combined o after
  unfolding synchronize
  synchronize-Combined o sound out =
      let (ran, d) =
        settle-Settled c Sound pending h to_data num_steps_per_communication o.handles o sound
          out in
      let whole : synchronize calls communication_type num_steps_per_communication name_parameters
            requires_grad false timeline_end_activity o
          ≡ (ok tt, settled (settle c.finish to_data num_steps_per_communication o.handles o).1) =
        ground (arith, finishes, ran) in
      rw whole (
        refl,
        record {
          sound = d.sound;
          empty = refl;
          flag = refl;
          reset = d.reset;
          combined = d.written;
          used = d.used;
          same_grad = d.same_other;
        },
      )
