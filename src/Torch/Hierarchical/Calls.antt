-- ===== src/Torch/Hierarchical/Calls.antt =====
-- The calls of `hierarchical_neighbor_allreduce`: they work on a copy of the tensor.
use bluefog.Common.{
  ℕ, Bool, true, false, ltb, Option, none, some, List, value_error, assertion_error,
}
use bluefog.Common.Stateful.{M, ◌>>=◌, ◌>>◌, reads, require}
use bluefog.Common.Dict.{Dict}
use bluefog.Basics.Library.{Library}
use bluefog.Basics.Queries.{local_size}
use bluefog.Torch.Weights.{Floats, given_together}
use bluefog.Torch.Handles.{
  Tensors, Extension, Ops, neighbor_allreduce_op, check_function, start, synchronize,
}
use bluefog.Torch.Hierarchical.{machine_first_dim, hierarchical_plan}

-- The test of the blocking variant: it looks at the machines to send to, where the nonblocking
-- variant looks at the weights.
abbrev pub blocking_arguments : {F : Type 0} → Option F → Option (Dict F) → Option (List ℕ) → Bool
blocking_arguments none none sends = true
blocking_arguments none (some others) sends = false
blocking_arguments (some own) others none = false
blocking_arguments (some own) others (some sends) = true

module _ {L T F : Type 0} (tensors : Tensors T) (ext : Extension L T F) (fl : Floats F)
    (lib : Library L F) where
  -- `assert is_homogeneous` tests the function itself, which is true, and does nothing.
  unfoldable pub hierarchical_neighbor_allreduce_nonblocking :
      T → Option F → Option (Dict F) → Option (List ℕ) → Bool → M (Ops L T F) ℕ
  unfolding check_function start
  hierarchical_neighbor_allreduce_nonblocking tensor own others sends topo_check = do
    require (given_together fl lib own others) value_error
    output_rows ← reads (λ s. machine_first_dim fl lib s.basics (tensors.rows tensor) others sends)
    let output = tensors.fresh tensor output_rows
    ranks ← reads (λ s. local_size lib s.basics)
    require (ltb 1 ranks) assertion_error
    check_function tensors ext neighbor_allreduce_op tensor
    p ← reads (λ s. hierarchical_plan fl lib s.basics own others sends)
    let buffer = tensors.clone tensor
    start tensors ext buffer output (ext.neighbor_allreduce buffer output p topo_check true)

  unfoldable pub hierarchical_neighbor_allreduce :
      T → Option F → Option (Dict F) → Option (List ℕ) → Bool → M (Ops L T F) T
  unfolding hierarchical_neighbor_allreduce_nonblocking synchronize
  hierarchical_neighbor_allreduce tensor own others sends topo_check = do
    require (blocking_arguments own others sends) value_error
    handle ← hierarchical_neighbor_allreduce_nonblocking tensor own others sends topo_check
    synchronize tensors ext handle
