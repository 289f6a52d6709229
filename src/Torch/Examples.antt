-- ===== src/Torch/Examples.antt =====
-- A library, tensors and an extension that counts its calls, and answers the count as a handle.
use bluefog.Common.{ok, ℕ, ◌+◌, ◌/◌, true, false, not, ◌==◌, Option, some, List, [], ◌∷◌}
use bluefog.Common.Dict.{Dict}
use bluefog.Common.Stateful.{M, return}
use bluefog.Basics.Library.{Library}
use bluefog.Basics.Tests.{counting, in_ring}
use bluefog.Torch.Weights.{Floats, Plan}
use bluefog.Torch.Handles.{Tensors, Extension, Ops}
use bluefog.Torch.Windows.{WindowExtension}

-- Weights in thousandths.
abbrev pub thousandths : Floats ℕ
thousandths = record {
  zero_weight = 0;
  one_weight = 1000;
  reciprocal = λ n. 1000 / n;
  far = λ a b. not (a == b);
}

-- A tensor is its number of rows.
abbrev pub rows_only : Tensors ℕ
rows_only = record {
  tensor_type = λ t. "torch.FloatTensor";
  is_contiguous = λ t. true;
  is_floating = λ t. true;
  rows = λ t. t;
  fresh = λ t rows. rows;
  clone = λ t. t;
}

abbrev pub next : M ℕ ℕ
next calls = (ok calls, calls + 1)

abbrev pub numbering : Extension ℕ ℕ ℕ
numbering = record {
  has_function = λ operation type_name. true;
  allreduce = λ tensor output average local. next;
  broadcast = λ tensor output root. next;
  allgather = λ tensor output. next;
  neighbor_allgather = λ tensor output. next;
  neighbor_allreduce = λ tensor output p check hierarchical. next;
  pair_gossip = λ tensor output target own other weighted. next;
  poll = λ handle calls. true;
  wait_and_clear = λ handle calls. (ok tt, calls + 1);
}

abbrev pub numbering_windows : WindowExtension ℕ ℕ ℕ
numbering_windows = record {
  win_create = λ tensor name zero_init calls. (ok true, calls + 1);
  win_free = λ name calls. (ok true, calls + 1);
  win_update = λ tensor name own others reset weighted mutex calls. (ok true, calls + 1);
  win_put = λ tensor name own others mutex. next;
  win_accumulate = λ tensor name own others mutex. next;
  win_get = λ name others mutex. next;
  win_wait = λ handle calls. (ok tt, calls + 1);
  win_poll = λ handle calls. true;
  win_lock = λ name calls. (ok tt, calls + 1);
  win_unlock = λ name calls. (ok tt, calls + 1);
}

-- One operation of either kind is under way, and one window is registered.
abbrev pub running : Ops ℕ ℕ ℕ
running = record {
  basics = record in_ring { library = 7 };
  handle_map = (3, (5, 5)) ∷ [];
  win_handle_map = (4, "w") ∷ [];
  win_map = ("w", 5) ∷ [];
}

abbrev pub static : Plan ℕ
static = record {
  self_weight = 500;
  neighbor_weights = (0, 500) ∷ [];
  send_neighbors = [];
  dynamic_neighbors_enabled = false;
  weighted_average_computation = false;
}

abbrev pub dynamic : Plan ℕ
dynamic = record {
  self_weight = 500;
  neighbor_weights = (2, 500) ∷ [];
  send_neighbors = 2 ∷ [];
  dynamic_neighbors_enabled = true;
  weighted_average_computation = false;
}

abbrev pub own : Option ℕ
own = some 500

abbrev pub others : Option (Dict ℕ)
others = some ((2, 500) ∷ [])

abbrev pub sends : List ℕ
sends = 2 ∷ []

abbrev pub five : ℕ
five = 5

abbrev pub answer_five : M (Ops ℕ ℕ ℕ) ℕ
answer_five = return five

-- Two machines of two ranks each.
abbrev pub two_machines : Library ℕ ℕ
two_machines = record counting {
  bluefog_size = λ calls. some 4;
  bluefog_local_size = λ calls. some 2;
}

abbrev pub machine_weights : Dict ℕ
machine_weights = (1, 500) ∷ []

abbrev pub machine_sends : List ℕ
machine_sends = 1 ∷ []

abbrev pub two : ℕ
two = 2
