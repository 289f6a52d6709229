-- ===== src/Torch/WindowTests.antt =====
-- Windows and the operations on machines at concrete arguments.
use bluefog.Common.{
  Error, ℕ, ◌*◌, ◌≡◌, arith, ◌≢◌, refl, true, false, none, some, [], ◌∷◌, ok, raise, value_error,
  ◌%◌, map,
}
use bluefog.Common.Dict.{lookup}
use bluefog.Basics.Queries.{out_neighbor_ranks}
use bluefog.Basics.Tests.{counting, in_ring}
use bluefog.Torch.Weights.{Plan}
use bluefog.Topology.Compare.{all}
use bluefog.Torch.Hierarchical.{hierarchical_plan}
use bluefog.Torch.Hierarchical.Ranks.{hierarchical_plan-first_ranks}
use bluefog.Torch.Windows.{set_library, win_lock, win_put}
use bluefog.Torch.Windows.Lifecycle.{win_lock_balanced, win_put_checked, WaitedWindow}
use bluefog.Torch.Examples.{
  thousandths, rows_only, numbering, numbering_windows, running, next, five, answer_five,
  two_machines, machine_weights, machine_sends,
}

win_lock_balanced_example :
    let done = win_lock rows_only numbering numbering_windows "w" answer_five running in
    ((e : Error) → ok (tt {0}) ≡ raise e → done ≡ (raise e, set_library 8 running))
    × (ok (tt {0}) ≡ ok tt
        → true ≡ true
        → ok (tt {0}) ≡ ok tt
        → done ≡ (ok five, set_library 9 running))
    × ((e : Error)
        → ok (tt {0}) ≡ ok tt
        → true ≡ true
        → ok (tt {0}) ≡ raise e
        → done ≡ (raise e, set_library 9 running))
win_lock_balanced_example =
    win_lock_balanced rows_only numbering numbering_windows "w" 5 answer_five running refl

win_put_checked_example :
    let (result, after) =
      win_put rows_only numbering numbering_windows thousandths counting five "w" none none false
        running in
    (true ≡ false → (result ≡ raise value_error) × (after ≡ running))
    × (true ≡ true
        → WaitedWindow rows_only numbering numbering_windows "w" next running result after)
unfolding out_neighbor_ranks
win_put_checked_example =
    win_put_checked rows_only numbering numbering_windows thousandths counting five "w" none none
      false (2 ∷ []) running refl refl refl

hierarchical_plan-first_ranks_example :
    let planned =
      hierarchical_plan thousandths two_machines in_ring
        (some 500)
        (some machine_weights)
        (some machine_sends) in
    (true ≡ true
      → (p : Plan ℕ) × (planned ≡ ok p)
        × (p.self_weight ≡ 500)
        × (p.send_neighbors ≡ map (λ m. 2 * m) machine_sends)
        × (p.dynamic_neighbors_enabled ≡ true)
        × ((m : ℕ) → lookup (2 * m) p.neighbor_weights ≡ lookup m machine_weights)
        × ((r : ℕ) → r % 2 ≢ 0 → lookup r p.neighbor_weights ≡ none))
    × (true ≡ false → planned ≡ raise value_error)
unfolding all
hierarchical_plan-first_ranks_example =
    hierarchical_plan-first_ranks thousandths two_machines in_ring 500 machine_weights 1 [] 2 2 refl
      refl (omega arith) refl
