-- ===== src/Optimizers/Calls.antt =====
-- `CommunicationType`, and the choice of the operation that a parameter is communicated with, which
-- two classes of optimizers share.
use bluefog.Common.{ℕ, ◌≡◌, refl, sym, ap, ◌∙◌, Option, none, some}
use bluefog.Common.Stateful.{M}
use bluefog.Optimizers.Communicator.{Communicator}

pub data CommunicationType : Type 0 where
  neighbor_allreduce hierarchical_neighbor_allreduce allreduce empty : CommunicationType

-- The calls that the three methods `..._data_async` make, and `bf.synchronize`.
pub record Calls (S T : Type 0) : Type 0 where
  pub neighbor_allreduce_data_async : T → M S ℕ
  pub hierarchical_neighbor_allreduce_data_async : T → M S ℕ
  pub allreduce_data_async : T → M S ℕ
  pub synchronize : ℕ → M S T

-- The branch on the communication type.
abbrev pub communicator_of :
    {S T : Type 0} → Calls S T → CommunicationType → Option (Communicator S T)
communicator_of calls neighbor_allreduce =
    some (record { start = calls.neighbor_allreduce_data_async; finish = calls.synchronize })
communicator_of calls hierarchical_neighbor_allreduce = some (record {
  start = calls.hierarchical_neighbor_allreduce_data_async;
  finish = calls.synchronize;
})
communicator_of calls allreduce =
    some (record { start = calls.allreduce_data_async; finish = calls.synchronize })
communicator_of calls empty = none

module _ {S T : Type 0} (calls : Calls S T) where
  abbrev finish_or : Option (Communicator S T) → ℕ → M S T
  finish_or none = calls.synchronize
  finish_or (some c) = c.finish

  finish-communicator_of :
      (kind : CommunicationType) → finish_or (communicator_of calls kind) ≡ calls.synchronize
  finish-communicator_of neighbor_allreduce = refl
  finish-communicator_of hierarchical_neighbor_allreduce = refl
  finish-communicator_of allreduce = refl
  finish-communicator_of empty = refl

  -- Each operation is waited for by `bf.synchronize`.
  pub finish-synchronize :
      (kind : CommunicationType) (c : Communicator S T)
      → communicator_of calls kind ≡ some c
      → c.finish ≡ calls.synchronize
  finish-synchronize kind c chosen = sym (ap finish_or chosen) ∙ finish-communicator_of kind
