-- ===== src/Topology/Dynamic/Tests.antt =====
-- The generators at concrete runs.
use bluefog.Common.{
  ℕ, zero, suc, ◌+◌, ◌-◌, ◌*◌, ◌^◌, ◌≤◌, ◌<◌, ◌≡◌, ◌≢◌, refl, arith, true, not, ◌&&◌, ltb, leb,
  ◌==◌, if◌then◌else◌, List, [], ◌∷◌, Result, ok, raise, overflow_error,
}
use bluefog.Common.Arith.{sub_mod}
use bluefog.Common.Ranks.{elem, sorted}
use native.Mathlib.Nat.{pow-suc}
use native.Mathlib.Numerals.{add-one}
use bluefog.Topology.Graph.{DiGraph}
use bluefog.Topology.Dynamic.Log.{IsIntLog2}
use bluefog.Topology.Dynamic.Peers.{one_peer, Matched, Apart}
use bluefog.Topology.Dynamic.Ring.{inner_outer_ring}
use bluefog.Topology.Dynamic.Ring.Match.{inner_outer_ring-Matched}
use bluefog.Topology.Dynamic.Expo2.{inner_outer_expo2, inner_target, inner_source}
use bluefog.Topology.Dynamic.Expo2.Match.{inner_outer_expo2-Matched}
use bluefog.Topology.Dynamic.Machine.{exp2_machine_ranks}
use bluefog.Topology.Dynamic.Machine.Match.{exp2_machine_ranks-Matched}
use bluefog.Topology.Dynamic.OnePeer.{dynamic_one_peer, clockwise}
use bluefog.Topology.Dynamic.OnePeer.Sends.{HasPeers, send}
use bluefog.Topology.Dynamic.OnePeer.Match.{dynamic_one_peer-agree, dynamic_one_peer_round}

-- The logarithm of `k + 1` to the base two, rounded down.
pub log2_suc : ℕ → ℕ
log2_suc zero = 0
log2_suc (suc k) = let e = log2_suc k in if leb (2 ^ (e + 1)) (suc (suc k)) then e + 1 else e

int_log2 : ℕ → Result ℕ
unfolding log2_suc
int_log2 k = if k == 0 then raise overflow_error else ok (log2_suc (k - 1))

pub log2_suc-range : (k : ℕ) → (2 ^ log2_suc k ≤ suc k) × (suc k < 2 ^ (log2_suc k + 1))
unfolding log2_suc
log2_suc-range zero = (omega arith, omega arith)
log2_suc-range (suc k) =
    let e = log2_suc k in
    let step : 2 ^ (e + 1 + 1) ≡ 2 ^ (e + 1) * 2 = rw (add-one (e + 1)) (pow-suc 2 (e + 1)) in
    ground (arith, log2_suc-range k, step)

int_log2-IsIntLog2 : IsIntLog2 int_log2
unfolding int_log2
int_log2-IsIntLog2 = record {
  of_zero = refl;
  exponent = λ k. log2_suc (k - 1);
  rounds = λ k h. ground arith;
  low = λ k h. let r = log2_suc-range (k - 1) in omega (arith, r.0);
  high = λ k h. let r = log2_suc-range (k - 1) in omega (arith, r.1);
}

-- Two machines of four ranks: local rank 1 goes outside in iteration 1.
ring_run : inner_outer_ring 8 4 1 1 ≡ ok (one_peer 5 5)
unfolding inner_outer_ring sub_mod
ring_run = refl

inner_outer_ring-Matched_example :
    (peers : Matched 8 (λ a. inner_outer_ring 8 4 a 1)) × (1 < 2 → Apart peers)
inner_outer_ring-Matched_example = inner_outer_ring-Matched 2 4 (omega arith) (omega arith) 1

-- Three machines of four ranks: rank 4 leaves out local rank 1 and sends to local rank 2.
expo2_run : inner_outer_expo2 int_log2 12 4 4 1 ≡ ok (one_peer 7 6)
unfolding inner_outer_expo2 inner_target inner_source int_log2 sub_mod
expo2_run = refl

inner_outer_expo2-Matched_example :
    (peers : Matched 12 (λ a. inner_outer_expo2 int_log2 12 4 a 1)) × Apart peers
inner_outer_expo2-Matched_example =
    inner_outer_expo2-Matched int_log2 int_log2-IsIntLog2 3 4 (omega arith) (omega arith) 1

exp2_machine_ranks-Matched_example :
    (peers : Matched 4 (λ M. exp2_machine_ranks int_log2 (4 * 2) 2 (1 + M * 2) 1 3)) × ((M : ℕ)
      → M < 4
      → (peers.send M ≢ M) × (peers.recv M ≢ M))
exp2_machine_ranks-Matched_example =
    exp2_machine_ranks-Matched int_log2 int_log2-IsIntLog2 4 2 1 3 (omega arith) (omega arith)

-- The complete graph on three ranks, with self-loops.
abbrev triangle : DiGraph ℕ
triangle = record {
  number_of_nodes = 3;
  number_of_edges = 9;
  successors = λ a. 0 ∷ 1 ∷ 2 ∷ [];
  predecessors = λ a. 0 ∷ 1 ∷ 2 ∷ [];
  out_degree = λ a. 3;
  degree = λ a. 6;
  weight = λ a b. 1;
}

triangle-HasPeers : HasPeers triangle
triangle-HasPeers = record {
  graph = record {
    successors_distinct = λ a. refl;
    predecessors_distinct = λ a. refl;
    successors_in_range = λ a b h. ground arith;
    predecessors_in_range = λ a b h. ground arith;
    counted = λ a. refl;
    both_ends = λ a b h k. ground arith;
  };
  self_loop = λ a h. ground arith;
  not_alone = λ a h. omega arith;
}

triangle_run : dynamic_one_peer triangle 0 3 ≡ ok (2 ∷ [], 1 ∷ [])
unfolding dynamic_one_peer clockwise sorted
triangle_run = refl

dynamic_one_peer-agree_example :
    (recvs : List ℕ) × (dynamic_one_peer triangle 0 3 ≡ ok (send triangle 3 0 ∷ [], recvs))
    × (elem (send triangle 3 0) (0 ∷ 1 ∷ 2 ∷ []) ≡ true)
    × (send triangle 3 0 ≢ 0)
    × ((b : ℕ) → elem b recvs ≡ (ltb b 3 && not (b == 0) && send triangle 3 b == 0))
dynamic_one_peer-agree_example = dynamic_one_peer-agree triangle triangle-HasPeers 0 3 (omega arith)

dynamic_one_peer_round_example :
    (i : ℕ) × (i < 2)
    × ((round : ℕ)
        → (recvs : List ℕ) × (dynamic_one_peer triangle 1 (i + 2 * round) ≡ ok (0 ∷ [], recvs)))
dynamic_one_peer_round_example =
    dynamic_one_peer_round triangle triangle-HasPeers 1 0 (omega arith) refl (omega arith)
