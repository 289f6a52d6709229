-- ===== src/Optimizers/PushSum/Keys.antt =====
-- Under which names the extended tensors are stored and read.
use Prim.Native.String.{String}
use bluefog.Common.{
  ℕ, ◌≡◌, ◌∙◌, refl, arith, Bool, true, false, ◌||◌, Option, none, some, List, [], ◌∷◌, ok,
  Result-cases, Option-cases, Bool-cases, inl, inr,
}
use bluefog.Common.Delays.{is_zero, pred}
use bluefog.Common.Dict.{Dict, lookup}
use bluefog.Common.Names.{Names, same_name, dotted, lookup_name, lookup_name-assign_name}
use bluefog.Common.Stateful.{M, for_each}
use bluefog.Basics.Library.{Library}
use bluefog.Basics.Queries.{out_neighbor_ranks}
use bluefog.Torch.Weights.{Floats, peer_weights}
use bluefog.Torch.Handles.{Tensors, Extension, Ops, check_function, win_accumulate_op}
use bluefog.Torch.Windows.{WindowExtension, set_library, win_accumulate_nonblocking}
use bluefog.Optimizers.Modules.{Layer, Module, Leaves, named_leaf_module}
use bluefog.Optimizers.PushSum.{Vectors, PushSum, pass, visit, visit_layer, hook, extension_of}

-- The names that the parameters of the leaves have in their layers.
abbrev pub is_short : String → Names ℕ → Bool
is_short full [] = false
is_short full ((name, p) ∷ rest) = same_name name full || is_short full rest

abbrev pub is_short_in : String → Leaves → Bool
is_short_in full [] = false
is_short_in full ((parent, layer) ∷ rest) =
    is_short full layer.named_parameters || is_short_in full rest

-- The entry of a name, and the windows, are as they were.
abbrev pub Kept : {L T F : Type 0} → String → PushSum L T F → PushSum L T F → Type 0
Kept full o after =
    (lookup_name full after.named_extension_parameters
      ≡ lookup_name full o.named_extension_parameters)
    × (after.base.bf.win_map ≡ o.base.bf.win_map)

Kept-trans :
    {L T F : Type 0} (full : String) (o mid after : PushSum L T F)
    → Kept full o mid
    → Kept full mid after
    → Kept full o after
Kept-trans full o mid after (a, b) (c, d) = (c ∙ a, d ∙ b)

for_each-Kept :
    {L T F A : Type 0} (full : String) (f : A → M (PushSum L T F) (Unit {0})) (x : A) (xs : List A)
    (o : PushSum L T F)
    → Kept full o (f x o).1
    → ((s : PushSum L T F) → Kept full s (for_each f xs s).1)
    → Kept full o (for_each f (x ∷ xs) o).1
for_each-Kept full f x xs o here rest = elim (Result-cases (f x o).0) [
  | inl (e, failed) ↦ ground (arith, failed, here)
  | inr (_, ran) ↦
      let both = Kept-trans full o (f x o).1 (for_each f xs (f x o).1).1 here (rest (f x o).1) in
      ground (arith, ran, both)
]

module _ {L T F : Type 0} (vectors : Vectors L T F) (tensors : Tensors T) (ext : Extension L T F)
    (win : WindowExtension L T F) (parameter_names : Dict String) (fl : Floats F)
    (lib : Library L F) (num_steps_per_communication : ℕ) (requires_grad : ℕ → Bool)
    (timeline_end_activity : String → M (Ops L T F) Bool) (self_weight : F)
    (dst_weights : Dict F) where
  win_accumulate-windows :
      (tensor : T) (name : String) (s : Ops L T F)
      → (win_accumulate_nonblocking tensors ext win fl lib tensor name none
          (some dst_weights)
          true
          s).1.win_map
        ≡ s.win_map
  unfolding win_accumulate_nonblocking check_function peer_weights
  win_accumulate-windows tensor name s =
      elim (Bool-cases (ext.has_function win_accumulate_op (tensors.tensor_type tensor))) [
        | inr unknown ↦ ground (arith, unknown)
        | inl known ↦ elim (Bool-cases (tensors.is_contiguous tensor)) [
          | inr scattered ↦ ground (arith, known, scattered)
          | inl contiguous ↦
              elim (Result-cases
                (peer_weights fl lib (out_neighbor_ranks lib s.basics) (some dst_weights))) [
                  | inl (e, refused) ↦ ground (arith, known, contiguous, refused)
                  | inr (weights, found) ↦ ground (arith, known, contiguous, found)
                ]
        ]
      ]

  pass-Kept :
      (full full_name name : String) (p : ℕ) (o : PushSum L T F)
      → same_name name full ≡ false
      → Kept full o
          (pass vectors tensors ext win parameter_names fl lib num_steps_per_communication
            requires_grad false timeline_end_activity self_weight dst_weights full_name name p o).1
  pass-Kept full full_name name p o apart = elim (Option-cases (lookup p o.base.delay)) [
    | inl missing ↦ ground (arith, missing)
    | inr (d, at) ↦ elim (Bool-cases (is_zero (pred d))) [
      | inr many ↦ ground (arith, at, many)
      | inl last ↦ elim (Option-cases (lookup_name full_name o.named_ps_weights)) [
        | inl missing ↦ ground (arith, at, last, missing)
        | inr (ps_weights, there) ↦
            let (tensor, l) =
              vectors.cat (o.base.param_data p) ps_weights o.base.bf.basics.library in
            let s = set_library l o.base.bf in
            let windows = win_accumulate-windows tensor full_name s in
            let other = lookup_name-assign_name full name tensor o.named_extension_parameters in
            elim (Result-cases
              (win_accumulate_nonblocking tensors ext win fl lib tensor full_name none
                (some dst_weights) true s).0) [
                  | inl (e, refused) ↦ ground (arith, at, last, there, refused, windows, other)
                  | inr (handle, ran) ↦ ground (arith, at, last, there, ran, windows, other)
                ]
      ]
    ]
  ]

  visit-Kept :
      (full : String) (parent : Option String) (layer : Layer) (name : String) (p : ℕ)
      (o : PushSum L T F)
      → same_name name full ≡ false
      → Kept full o
          (visit vectors tensors ext win parameter_names fl lib num_steps_per_communication
            requires_grad false timeline_end_activity self_weight dst_weights parent layer
            (name, p)
            o).1
  visit-Kept full none layer name p o apart = (refl, refl)
  visit-Kept full (some parent) layer name p o apart =
      let passed = pass-Kept full (dotted parent name) name p o apart in ground (arith, passed)

  visits-Kept :
      (full : String) (parent : Option String) (layer : Layer) (named : Names ℕ) (o : PushSum L T F)
      → is_short full named ≡ false
      → Kept full o
          (for_each
            (visit vectors tensors ext win parameter_names fl lib num_steps_per_communication
              requires_grad false timeline_end_activity self_weight dst_weights parent layer)
            named
            o).1
  visits-Kept full parent layer [] o apart = (refl, refl)
  visits-Kept full parent layer ((name, p) ∷ rest) o apart =
      for_each-Kept full
        (visit vectors tensors ext win parameter_names fl lib num_steps_per_communication
          requires_grad false timeline_end_activity self_weight dst_weights parent layer)
        (name, p) rest o (visit-Kept full parent layer name p o (ground arith))
        (λ s. visits-Kept full parent layer rest s (ground arith))

  layers-Kept :
      (full : String) (leaves : Leaves) (o : PushSum L T F)
      → is_short_in full leaves ≡ false
      → Kept full o
          (for_each
            (visit_layer vectors tensors ext win parameter_names fl lib num_steps_per_communication
              requires_grad false timeline_end_activity self_weight dst_weights)
            leaves
            o).1
  layers-Kept full [] o apart = (refl, refl)
  layers-Kept full ((parent, layer) ∷ rest) o apart =
      for_each-Kept full
        (visit_layer vectors tensors ext win parameter_names fl lib num_steps_per_communication
          requires_grad false timeline_end_activity self_weight dst_weights)
        (parent, layer) rest o
        (visits-Kept full parent layer layer.named_parameters o (ground arith))
        (λ s. layers-Kept full rest s (ground arith))

  hook-Kept :
      (full : String) (model : Module) (o : PushSum L T F)
      → is_short_in full (named_leaf_module none model) ≡ false
      → Kept full o
          (hook vectors tensors ext win parameter_names fl lib num_steps_per_communication
            requires_grad false timeline_end_activity self_weight dst_weights model o).1
  unfolding hook
  hook-Kept full model o apart = layers-Kept full (named_leaf_module none model) o apart

  -- If the full name of a parameter is not the name of a parameter in its layer, the timeline is
  -- off, and the tensor that is stored for the parameter is that of its window, as after the
  -- registration, then after the hook `synchronize` still finds this tensor, whatever the hook has
  -- computed.
  pub extension_of-hook :
      (p : ℕ) (full : String) (tensor : T) (model : Module) (o : PushSum L T F)
      → lookup p parameter_names ≡ some full
      → lookup_name full o.named_extension_parameters ≡ some tensor
      → lookup_name full o.base.bf.win_map ≡ some tensor
      → is_short_in full (named_leaf_module none model) ≡ false
      → let (result, after) =
          hook vectors tensors ext win parameter_names fl lib num_steps_per_communication
            requires_grad false timeline_end_activity self_weight dst_weights model o in
        (extension_of vectors tensors ext win parameter_names fl lib num_steps_per_communication
            requires_grad false timeline_end_activity self_weight dst_weights p after
          ≡ ok (full, tensor))
        × (lookup_name full after.base.bf.win_map ≡ some tensor)
  extension_of-hook p full tensor model o named kept window apart =
      let (same, windows) = hook-Kept full model o apart in
      (ground (arith, named, kept, same), ground (arith, window, windows))
