-- ===== src/Torch/Tests.antt =====
-- The collective operations at concrete arguments.
use bluefog.Common.{
  ℕ, ◌*◌, ◌≡◌, ◌≢◌, ◌↔◌, refl, true, false, none, some, [], length, ok, raise, value_error, Error,
}
use bluefog.Common.Dict.{lookup}
use bluefog.Common.Ranks.{distinct}
use bluefog.Basics.Queries.{in_neighbor_ranks}
use bluefog.Basics.Tests.{counting, in_ring}
use bluefog.Topology.Tests.{ring_of_three-IsDiGraph}
use bluefog.Torch.Weights.{needs_weights, static_plan, neighbor_allreduce_plan}
use bluefog.Torch.Weights.Sound.{
  IsStatic, neighbor_allreduce_plan-IsStatic, neighbor_allreduce_plan_dynamic,
}
use bluefog.Torch.Handles.{synchronize, allreduce}
use bluefog.Torch.Handles.Lifecycle.{Waited, synchronize_once, allreduce_clean}
use bluefog.Torch.Examples.{
  thousandths, rows_only, numbering, running, static, dynamic, own, others, sends, five,
}

neighbor_allreduce_plan-IsStatic_example : IsStatic thousandths counting in_ring 5 5 static
unfolding neighbor_allreduce_plan static_plan in_neighbor_ranks
neighbor_allreduce_plan-IsStatic_example =
    neighbor_allreduce_plan-IsStatic thousandths counting in_ring 5 none none 5 static
      ring_of_three-IsDiGraph refl

neighbor_allreduce_plan_dynamic_example :
    (neighbor_allreduce_plan thousandths counting in_ring five own others (some sends)
      ≡ ok (five, dynamic))
    ↔ ((own ≡ some dynamic.self_weight)
        × (others ≡ some dynamic.neighbor_weights)
        × (sends ≡ dynamic.send_neighbors)
        × (sends ≢ [])
        × (distinct sends ≡ true)
        × (dynamic.dynamic_neighbors_enabled ≡ true)
        × (dynamic.weighted_average_computation
            ≡ needs_weights thousandths dynamic.self_weight dynamic.neighbor_weights)
        × (five ≡ five * length dynamic.neighbor_weights))
neighbor_allreduce_plan_dynamic_example =
    neighbor_allreduce_plan_dynamic thousandths counting in_ring five own others sends five dynamic

synchronize_once_example :
    let waited = (numbering.wait_and_clear 3 running.basics.library).0 in
    let (result, after) = synchronize rows_only numbering 3 running in
    (waited ≡ ok tt
      → (result ≡ ok five)
        × (synchronize rows_only numbering 3 after ≡ (raise value_error, after))
        × ((k : ℕ) → k ≢ 3 → lookup k after.handle_map ≡ lookup k running.handle_map))
    × ((e : Error)
        → waited ≡ raise e
        → (result ≡ raise e) × (after.handle_map ≡ running.handle_map))
synchronize_once_example = synchronize_once rows_only numbering 3 5 5 running refl

allreduce_clean_example :
    let (result, after) = allreduce rows_only numbering 6 true false running in
    (true ≡ false → (after ≡ running) × ((t : ℕ) → result ≢ ok t))
    × (true ≡ true
        → Waited rows_only numbering 6 6 (numbering.allreduce 6 6 true false) running result after)
allreduce_clean_example = allreduce_clean rows_only numbering 6 true false running
