-- ===== src/Torch/Weights/Sound.antt =====
-- What holds of every call of the library that the arguments lead to.
use bluefog.Common.{
  ℕ, ◌+◌, ◌*◌, ◌≡◌, ◌≢◌, refl, arith, true, false, if◌then◌else◌, Option, none, some, List, [], ◌∷◌,
  length, ok, raise, value_error, type_error, Bool-cases, Option-cases, Result-cases, ◌↔◌, inl, inr,
}
use bluefog.Common.Dict.{Dict, keys, lookup, constant, lookup-assign, elem-keys-assign}
use bluefog.Common.Ranks.{elem, distinct, without}
use bluefog.Topology.Graph.{DiGraph, IsDiGraph}
use bluefog.Topology.Weights.{get_recv_weights, keys-get_recv_weights}
use bluefog.Basics.Library.{Library, Basics}
use bluefog.Basics.Queries.{in_neighbor_ranks}
use bluefog.Torch.Weights.{
  Floats, Plan, topology_weights, needs_weights, subset, static_plan, given_plan, plan,
  neighbor_allreduce_plan,
}

pub subset_of :
    (xs ys : List ℕ) → ((x : ℕ) → elem x xs ≡ true → elem x ys ≡ true) → subset xs ys ≡ true
subset_of [] ys h = refl
subset_of (x ∷ xs) ys h =
    ground (arith, h x (ground arith), subset_of xs ys (λ y m. h y (ground arith)))

module _ {F : Type 0} where
  pub elem-keys-constant : (j : ℕ) (v : F) (ks : List ℕ) → elem j (keys (constant v ks)) ≡ elem j ks
  elem-keys-constant j v [] = refl
  elem-keys-constant j v (k ∷ ks) =
      ground (arith, elem-keys-assign j k v (constant v ks), elem-keys-constant j v ks)

  lookup-constant :
      (j : ℕ) (v : F) (ks : List ℕ)
      → lookup j (constant v ks) ≡ (if elem j ks then some v else none)
  lookup-constant j v [] = refl
  lookup-constant j v (k ∷ ks) =
      ground (arith, lookup-assign j k v (constant v ks), lookup-constant j v ks)

module _ {F : Type 0} (fl : Floats F) {L : Type 0} (lib : Library L F) where
  -- The topology that is set, if one is set, is a graph as networkx makes them.
  abbrev pub TopologyOk : Option (DiGraph F) → Type 0
  TopologyOk none = Unit
  TopologyOk (some topo) = IsDiGraph topo

  -- The neighbor weights of a static call belong to in-neighbors.
  pub record IsStatic (bf : Basics L F) (rows : ℕ) (output_rows : ℕ) (p : Plan F) : Type 0 where
    pub ins : List ℕ
    pub answered : in_neighbor_ranks lib bf ≡ ok ins
    pub output : output_rows ≡ rows * length ins
    pub no_sends : p.send_neighbors ≡ []
    pub not_dynamic : p.dynamic_neighbors_enabled ≡ false
    pub from_neighbors : subset (keys p.neighbor_weights) ins ≡ true

  subset-keys : (xs : Dict F) (ys : List ℕ) → keys xs ≡ ys → subset (keys xs) ys ≡ true
  subset-keys xs ys e = subset_of (keys xs) ys (λ x m. rw (← e) m)

  weighted_subset :
      (bf : Basics L F) (o : Option (DiGraph F)) (own : F) (others : Dict F) (ins : List ℕ)
      → bf.topology ≡ o
      → TopologyOk o
      → topology_weights fl lib bf o ≡ ok (own, others)
      → in_neighbor_ranks lib bf ≡ ok ins
      → subset (keys others) ins ≡ true
  unfolding in_neighbor_ranks
  weighted_subset bf none own others ins e t h k = cc
  weighted_subset bf (some topo) own others ins e t h k =
      elim (Option-cases (lib.bluefog_rank bf.library)) [
        | inl unknown ↦ absurd (ground arith)
        | inr (r, known) ↦
            let weights = get_recv_weights fl.zero_weight topo r in
            let o : others ≡ weights.1 = ground arith in
            let i : ins ≡ without r (topo.predecessors r) = ground arith in
            rw (o, i)
              (subset-keys weights.1 (without r (topo.predecessors r))
                (keys-get_recv_weights fl.zero_weight topo r (t.predecessors_distinct r)))
      ]

  static_plan-subset :
      (bf : Basics L F) (p : Plan F) (ins : List ℕ)
      → TopologyOk bf.topology
      → static_plan fl lib bf [] false ≡ ok p
      → in_neighbor_ranks lib bf ≡ ok ins
      → (subset (keys p.neighbor_weights) ins ≡ true)
        × (p.send_neighbors ≡ [])
        × (p.dynamic_neighbors_enabled ≡ false)
  unfolding static_plan
  static_plan-subset bf p ins t h k = elim (Bool-cases bf.is_topo_weighted) [
    | inl weighted ↦ elim (Result-cases (topology_weights fl lib bf bf.topology)) [
      | inl (e, refused) ↦ absurd (ground arith)
      | inr ((own, others), read) ↦
          let s = weighted_subset bf bf.topology own others ins refl t read k in ground (arith, s)
    ]
    | inr plain ↦
        let weight = fl.reciprocal (length ins + 1) in
        let s =
          subset_of (keys (constant weight ins)) ins
            (λ x m. ground (arith, elem-keys-constant x weight ins)) in
        ground (arith, s)
  ]

  -- Let the topology that is set, if one is, be a graph as networkx makes them. A call without send
  -- neighbors, if it gets through, has an output with room for the rows of every in-neighbor, and
  -- gives weights to in-neighbors only, wherever the weights come from.
  pub neighbor_allreduce_plan-IsStatic :
      (bf : Basics L F) (rows : ℕ) (self_weight : Option F) (neighbor_weights : Option (Dict F))
      (output_rows : ℕ) (p : Plan F)
      → TopologyOk bf.topology
      → neighbor_allreduce_plan fl lib bf rows self_weight neighbor_weights none
        ≡ ok (output_rows, p)
      → IsStatic bf rows output_rows p
  unfolding neighbor_allreduce_plan given_plan
  neighbor_allreduce_plan-IsStatic bf rows none none output_rows p t h =
      elim (Result-cases (in_neighbor_ranks lib bf)) [
        | inl (e, refused) ↦ absurd (ground arith)
        | inr (ins, answered) ↦
            let s = static_plan-subset bf p ins t (ground arith) answered in
            record {
              ins = ins;
              answered = answered;
              output = ground arith;
              no_sends = s.1;
              not_dynamic = s.2;
              from_neighbors = s.0;
            }
      ]
  neighbor_allreduce_plan-IsStatic bf rows none (some nw) output_rows p t h = cc
  neighbor_allreduce_plan-IsStatic bf rows (some sw) none output_rows p t h = cc
  neighbor_allreduce_plan-IsStatic bf rows (some sw) (some nw) output_rows p t h =
      elim (Result-cases (in_neighbor_ranks lib bf)) [
        | inl (e, refused) ↦ absurd (ground arith)
        | inr (ins, answered) ↦ record {
          ins = ins;
          answered = answered;
          output = ground arith;
          no_sends = ground arith;
          not_dynamic = ground arith;
          from_neighbors = ground arith;
        }
      ]

  -- A call with send neighbors gets through exactly if both weights are given, and the send
  -- neighbors are distinct and not empty. Then they are sent to as they are, the weights are not
  -- held against the topology, and the output has room for the rows of each neighbor weight.
  pub neighbor_allreduce_plan_dynamic :
      (bf : Basics L F) (rows : ℕ) (self_weight : Option F) (neighbor_weights : Option (Dict F))
      (sends : List ℕ) (output_rows : ℕ) (p : Plan F)
      → (neighbor_allreduce_plan fl lib bf rows self_weight neighbor_weights (some sends)
          ≡ ok (output_rows, p))
        ↔ ((self_weight ≡ some p.self_weight)
            × (neighbor_weights ≡ some p.neighbor_weights)
            × (sends ≡ p.send_neighbors)
            × (sends ≢ [])
            × (distinct sends ≡ true)
            × (p.dynamic_neighbors_enabled ≡ true)
            × (p.weighted_average_computation ≡ needs_weights fl p.self_weight p.neighbor_weights)
            × (output_rows ≡ rows * length p.neighbor_weights))
  unfolding neighbor_allreduce_plan given_plan
  neighbor_allreduce_plan_dynamic bf rows none none sends output_rows p =
      (λ h. absurd (ground arith), λ h. absurd (ground arith))
  neighbor_allreduce_plan_dynamic bf rows none (some nw) sends output_rows p =
      (λ h. absurd (ground arith), λ h. absurd (ground arith))
  neighbor_allreduce_plan_dynamic bf rows (some sw) none sends output_rows p =
      (λ h. absurd (ground arith), λ h. absurd (ground arith))
  neighbor_allreduce_plan_dynamic bf rows (some sw) (some nw) [] output_rows p =
      (λ h. absurd (ground arith), λ h. absurd (ground arith))
  neighbor_allreduce_plan_dynamic bf rows (some sw) (some nw) (r ∷ rs) output_rows p =
      (λ h. ground arith, λ h. ground arith)

  -- A dynamic call without weights is refused with the error of taking the length of nothing: the
  -- message that `_neighbor_allreduce_nonblocking` has for this case is never reached.
  pub neighbor_allreduce_plan_no_weights :
      (bf : Basics L F) (rows : ℕ) (sends : List ℕ)
      → (neighbor_allreduce_plan fl lib bf rows none none (some sends) ≡ raise type_error)
        × (plan fl lib bf none none (some sends) ≡ raise value_error)
  unfolding neighbor_allreduce_plan
  neighbor_allreduce_plan_no_weights bf rows [] = (refl, refl)
  neighbor_allreduce_plan_no_weights bf rows (r ∷ rs) = (refl, refl)

  -- Without any weights, in a topology whose weights are not used, all in-neighbors and the rank
  -- itself get the same weight, one over their number, and no other rank gets one.
  pub neighbor_allreduce_plan_uniform :
      (bf : Basics L F) (rows : ℕ) (ins : List ℕ)
      → bf.is_topo_weighted ≡ false
      → in_neighbor_ranks lib bf ≡ ok ins
      → (p : Plan F) × (neighbor_allreduce_plan fl lib bf rows none none none
          ≡ ok (rows * length ins, p))
        × (p.self_weight ≡ fl.reciprocal (length ins + 1))
        × (p.weighted_average_computation ≡ false)
        × ((r : ℕ)
            → lookup r p.neighbor_weights
              ≡ (if elem r ins then some (fl.reciprocal (length ins + 1)) else none))
  unfolding neighbor_allreduce_plan static_plan
  neighbor_allreduce_plan_uniform bf rows ins plain h =
      let weight = fl.reciprocal (length ins + 1) in
      (
        record {
          self_weight = weight;
          neighbor_weights = constant weight ins;
          send_neighbors = [];
          dynamic_neighbors_enabled = false;
          weighted_average_computation = false;
        },
        ground arith,
        refl,
        refl,
        λ r. lookup-constant r weight ins,
      )
