-- ===== src/Optimizers/WindowTests.antt =====
-- The optimizers with windows, the handles of the extension, and the named parameters, on the
-- library that counts its calls.
use Prim.Native.String.{String}
use text.Mathlib.TextEquality.{eq_iff}
use bluefog.Common.{
  ℕ, ◌+◌, ◌≡◌, refl, arith, Bool, true, false, ◌&&◌, if◌then◌else◌, none, some, List, [], ◌∷◌, ok,
  raise, value_error, Bool-cases, inl, inr, subst, sym,
}
use bluefog.Common.Delays.{pos}
use bluefog.Common.Dict.{Dict, lookup}
use bluefog.Common.Names.{Names, same_name, lookup_name}
use bluefog.Common.Ranks.{elem}
use bluefog.Common.Stateful.{M, return}
use bluefog.Basics.Queries.{in_neighbor_ranks}
use bluefog.Basics.Tests.{counting}
use bluefog.Torch.Weights.{update_weights, static_plan}
use bluefog.Torch.Handles.{Extension, Ops}
use bluefog.Torch.Examples.{thousandths, rows_only, numbering, numbering_windows, running}
use bluefog.Optimizers.Communicator.{IsCommunicator}
use bluefog.Optimizers.Communicator.Handles.{
  IssuesHandles, NoFailure, allreduce_communicator, Registered, pending_output,
  allreduce-IsCommunicator,
}
use bluefog.Optimizers.Modules.{Layer, Module, module_of, no_child, child, named_leaf_module}
use bluefog.Optimizers.Parameters.{
  check_named_parameters, once_named, all_in, parameter_names, name_parameters, listed,
}
use bluefog.Optimizers.Parameters.Checked.{
  check_named_parameters-once, parameter_names-name_parameters,
}
use bluefog.Optimizers.State.{Optimizer}
use bluefog.Optimizers.Win.{register_window, unregister_window, synchronize}
use bluefog.Optimizers.Win.Register.{is_name_of, Succeeds, register-unregister}
use bluefog.Optimizers.Win.Updates.{Updates, Called}
use bluefog.Optimizers.Win.Synchronize.{Updated, synchronize-Updated}
use bluefog.Optimizers.PushSum.{Vectors, PushSum, hook, extension_of}
use bluefog.Optimizers.PushSum.Keys.{extension_of-hook}

abbrev issuing : Extension ℕ ℕ ℕ
issuing = record numbering { wait_and_clear = λ handle calls. (ok tt, calls) }

abbrev calls : ℕ → ℕ
calls l = l

issuing-IssuesHandles : IssuesHandles issuing calls
issuing-IssuesHandles = record {
  allreduce_issues =
      λ t output average local l. (λ handle e. (ground arith, ground arith), ground arith);
  neighbor_allreduce_issues = λ t output p topo_check hierarchical l.
      (λ handle e. (ground arith, ground arith), ground arith);
  wait_keeps = λ handle l. refl;
}

issuing-NoFailure : NoFailure issuing
issuing-NoFailure handle l = refl

allreduce-IsCommunicator_example :
    IsCommunicator
      (allreduce_communicator rows_only issuing)
      (Registered rows_only issuing calls issuing-IssuesHandles issuing-NoFailure)
      (pending_output rows_only issuing)
allreduce-IsCommunicator_example =
    allreduce-IsCommunicator rows_only issuing calls issuing-IssuesHandles issuing-NoFailure

abbrev two_names : Dict String
two_names = (0, "fc.weight") ∷ (1, "fc.bias") ∷ []

abbrev data_of : ℕ → ℕ
data_of p = p + 5

counting-Succeeds : Succeeds rows_only numbering numbering_windows two_names data_of
counting-Succeeds = record {
  typed = λ p. refl;
  contiguous = λ p. refl;
  creates = λ p name l. refl;
  frees = λ name l. refl;
}

abbrev parameters : List ℕ
parameters = 0 ∷ 1 ∷ []

new_names :
    (name : String)
    → is_name_of two_names parameters name ≡ true
    → lookup_name name running.win_map ≡ none
new_names name m = elim (Bool-cases (same_name "w" name)) [
  | inr other ↦ ground (arith, other)
  | inl same ↦
      let equal : "w" ≡ name = ground (arith, same, eq_iff "w" name) in
      let known : is_name_of two_names parameters "w" ≡ true =
        subst (λ n. is_name_of two_names parameters n ≡ true) (sym equal) m in
      absurd (ground (arith, known))
]

register-unregister_example :
    let (result, mid) =
      register_window rows_only numbering numbering_windows two_names 4 data_of parameters
        running in
    let (result', after) =
      unregister_window rows_only numbering numbering_windows two_names 4 parameters mid in
    (result ≡ ok tt)
    × ((p : ℕ) (own : String)
        → elem p parameters ≡ true
        → lookup p two_names ≡ some own
        → lookup_name own mid.win_map ≡ some (data_of p))
    × (result' ≡ ok tt)
    × ((name : String) → lookup_name name after.win_map ≡ lookup_name name running.win_map)
register-unregister_example =
    register-unregister rows_only numbering numbering_windows two_names 4 data_of parameters running
      (ground arith) counting-Succeeds refl (new_names)

-- The window "w" of `running` belongs to the parameter 3, whose handle is 4.
abbrev window_name : Dict String
window_name = (3, "w") ∷ []

abbrev putting : Optimizer (Ops ℕ ℕ ℕ) ℕ
putting = record {
  bf = running;
  param_data = data_of;
  param_grad = data_of;
  handles = (3, some 4) ∷ [];
  delay = (3, pos 0) ∷ [];
  synchronized = false;
  should_synchronize = true;
  error_encountered = false;
}

abbrev all_grad : ℕ → Bool
all_grad p = true

abbrev no_timeline : String → M (Ops ℕ ℕ ℕ) Bool
no_timeline name = return true

running-Updates :
    Updates rows_only numbering numbering_windows window_name thousandths counting 1 none all_grad
      no_timeline running.basics
unfolding update_weights in_neighbor_ranks static_plan
running-Updates = record {
  typed = λ t. refl;
  contiguous = λ t. refl;
  updates = λ t name own others weighted l. refl;
  waits = λ handle l. refl;
  weights = λ l. (500, (0, 500) ∷ [], false, refl);
}

synchronize-Updated_example :
    let (result, after) =
      synchronize rows_only numbering numbering_windows window_name thousandths counting 1 none
        all_grad false no_timeline putting in
    (result ≡ ok tt)
    × Updated rows_only numbering numbering_windows window_name thousandths counting 1 none all_grad
        no_timeline putting.handles putting after
    × Called rows_only numbering numbering_windows window_name thousandths counting 1 none all_grad
        no_timeline running.basics running.win_map putting.handles running.win_handle_map
        running.basics.library after.bf.basics.library
    × (after.handles ≡ [])
    × (after.synchronized ≡ true)
synchronize-Updated_example =
    synchronize-Updated rows_only numbering numbering_windows window_name thousandths counting 1
      none all_grad no_timeline putting running-Updates (λ p m. (5, ground arith))

-- Two layers, as in the tests of the hook.
abbrev linear : Layer
linear = record { training = true; named_parameters = ("weight", 0) ∷ ("bias", 1) ∷ [] }

abbrev net : Module
net =
    module_of (record { training = true; named_parameters = [] })
      (child "fc" (module_of linear no_child) no_child)

abbrev vectors : Vectors ℕ ℕ ℕ
vectors = record {
  one_like = λ t l. (1, l);
  cat = λ t u l. (t + u, l);
  mul_ = λ t w l. l;
  quotient = λ t u l. (t, l);
}

abbrev fc_window : Ops ℕ ℕ ℕ
fc_window = record running { win_map = ("fc.weight", 6) ∷ [] }

abbrev pushing : PushSum ℕ ℕ ℕ
pushing = record {
  base = record putting { bf = fc_window; handles = []; delay = (0, pos 1) ∷ (1, pos 1) ∷ [] };
  named_ps_weights = ("fc.weight", 1) ∷ ("fc.bias", 1) ∷ [];
  named_extension_parameters = ("fc.weight", 6) ∷ ("fc.bias", 7) ∷ [];
}

abbrev dst_weights : Dict ℕ
dst_weights = (2, 500) ∷ []

extension_of-hook_example :
    let (result, after) =
      hook vectors rows_only numbering numbering_windows two_names thousandths counting 1 all_grad
        false no_timeline 500 dst_weights net pushing in
    (extension_of vectors rows_only numbering numbering_windows two_names thousandths counting 1
        all_grad false no_timeline 500 dst_weights 0 after
      ≡ ok ("fc.weight", 6))
    × (lookup_name "fc.weight" after.base.bf.win_map ≡ some 6)
unfolding named_leaf_module
extension_of-hook_example =
    extension_of-hook vectors rows_only numbering numbering_windows two_names thousandths counting 1
      all_grad no_timeline 500 dst_weights 0 "fc.weight" 6 net pushing refl refl refl refl

abbrev named_parameters : Names ℕ
named_parameters = ("fc.weight", 0) ∷ ("fc.bias", 1) ∷ []

parameter_names-name_parameters_example :
    (name : String) × (lookup 1 (parameter_names named_parameters) ≡ some name)
    × (lookup_name name (name_parameters named_parameters) ≡ some 1)
    × (listed name 1 named_parameters ≡ true)
unfolding check_named_parameters
parameter_names-name_parameters_example =
    parameter_names-name_parameters parameters named_parameters 1 refl refl

check_named_parameters-once_example : check_named_parameters parameters named_parameters ≡ (
    if once_named named_parameters && all_in parameters named_parameters
    then ok named_parameters
    else raise value_error)
check_named_parameters-once_example = check_named_parameters-once parameters named_parameters
