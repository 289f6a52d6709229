-- ===== src/Optimizers/Win.antt =====
-- `_DistributedWinOptimizer`: a parameter has a window; a hook puts it into those of the neighbors or
-- gets theirs, and `synchronize` combines what has come.
pub mod Register
pub mod Updates
pub mod Synchronize
use Prim.Native.String.{String}
use bluefog.Common.{
  ℕ, Bool, true, false, ltb, if◌then◌else◌, Option, none, some, List, [], ◌∷◌, ok, raise, key_error,
  value_error,
}
use bluefog.Common.Delays.{pos}
use bluefog.Common.Dict.{Dict, lookup, assign}
use bluefog.Common.Names.{Names, prefixed}
use bluefog.Common.Stateful.{M, ◌>>=◌, ◌>>◌, return, reads, modify, throw, require, for_each}
use bluefog.Basics.Library.{Library}
use bluefog.Torch.Weights.{Floats}
use bluefog.Torch.Handles.{Tensors, Extension, Ops}
use bluefog.Torch.Windows.{
  WindowExtension, is_registered, win_create, win_free, win_wait, win_put_nonblocking,
  win_get_nonblocking, win_update,
}
use bluefog.Optimizers.Modules.{Layer, Module, named_leaf_module}
use bluefog.Optimizers.Reduce.{parameter_name}
use bluefog.Optimizers.State.{Optimizer, on_bf, count_down, settled, step_with, to_data, write_to}

module _ {L T F : Type 0} (tensors : Tensors T) (ext : Extension L T F)
    (win : WindowExtension L T F) (parameter_names : Dict String) where
  -- A round of the loop of `_register_window`.
  abbrev pub register_one : (ℕ → T) → ℕ → M (Ops L T F) (Unit {0})
  register_one param_data p = elim (lookup p parameter_names) [
    | none ↦ throw key_error
    | some name ↦ (do
      created ← win_create tensors ext win (param_data p) name false
      require created value_error)
  ]

  -- `parameters` are those of all groups, in their order.
  unfoldable pub register_window : (size : ℕ) → (ℕ → T) → List ℕ → M (Ops L T F) (Unit {0})
  unfolding win_create
  register_window size param_data parameters =
      if ltb 1 size then for_each (register_one param_data) parameters else return tt

  -- A round of the loop of `unregister_window`.
  abbrev pub unregister_one : ℕ → M (Ops L T F) (Unit {0})
  unregister_one p = elim (lookup p parameter_names) [
    | none ↦ throw key_error
    | some name ↦ (do
      s ← reads (λ s. ok s)
      (if is_registered name s.win_map
          then (do freed ← win_free tensors ext win (some name); require freed value_error)
          else return tt))
  ]

  unfoldable pub unregister_window : (size : ℕ) → List ℕ → M (Ops L T F) (Unit {0})
  unfolding win_free
  unregister_window size parameters =
      if ltb 1 size then for_each unregister_one parameters else return tt

  module _ (fl : Floats F) (lib : Library L F) (num_steps_per_communication : ℕ)
      (window_prefix : Option String) (requires_grad : ℕ → Bool) (use_timeline : Bool)
      (timeline_end_activity : String → M (Ops L T F) Bool) where
    -- A round of the inner loop of both hooks. The name is asked for where it is used.
    abbrev pub visit :
        (String → ℕ → M (Optimizer (Ops L T F) T) ℕ)
        → Option String
        → Layer
        → String × ℕ
        → M (Optimizer (Ops L T F) T) (Unit {0})
    visit communicate parent layer (name, p) = do
      (if use_timeline
          then (do
            full ← parameter_name parent name
            on_bf (timeline_end_activity (prefixed window_prefix full))
            return tt)
          else return tt)
      (if layer.training
          then (if requires_grad p
              then count_down p (do
                full ← parameter_name parent name
                handle ← communicate (prefixed window_prefix full) p
                return (some handle))
              else return tt)
          else return tt)

    abbrev pub visit_layer :
        (String → ℕ → M (Optimizer (Ops L T F) T) ℕ)
        → Option String × Layer
        → M (Optimizer (Ops L T F) T) (Unit {0})
    visit_layer communicate (parent, layer) =
        for_each (visit communicate parent layer) layer.named_parameters

    -- `_make_put_hook`
    unfoldable pub put_hook : Option (Dict F) → Module → M (Optimizer (Ops L T F) T) (Unit {0})
    unfolding named_leaf_module count_down win_put_nonblocking
    put_hook dst_weights model =
        for_each
          (visit_layer (λ name p o.
            on_bf
              (win_put_nonblocking tensors ext win fl lib (o.param_data p) name none dst_weights
                false)
              o))
          (named_leaf_module none model)

    -- `_make_get_hook`
    unfoldable pub get_hook : Option (Dict F) → Module → M (Optimizer (Ops L T F) T) (Unit {0})
    unfolding named_leaf_module count_down win_get_nonblocking
    get_hook src_weights model =
        for_each
          (visit_layer
            (λ name p. on_bf (win_get_nonblocking tensors ext win fl lib name src_weights true)))
          (named_leaf_module none model)

    -- `bf.win_update(name=name, require_mutex=True)`, which raises where there is no name.
    abbrev pub updated_window : Option String → M (Ops L T F) T
    updated_window none = throw key_error
    updated_window (some name) = win_update tensors ext win fl lib name none none false false true

    -- The loop of `synchronize`. A hook stores no `None` for a handle, so `none` is never waited for.
    unfoldable pub update_windows : Dict (Option ℕ) → M (Optimizer (Ops L T F) T) (Unit {0})
    unfolding win_wait win_update
    update_windows [] = return tt
    update_windows ((p, none) ∷ rest) = do
      modify (λ o. record o { delay = assign p (pos num_steps_per_communication) o.delay })
      output ← on_bf (updated_window (lookup p parameter_names))
      modify (write_to to_data p output)
      update_windows rest
    update_windows ((p, some handle) ∷ rest) = do
      on_bf (win_wait tensors ext win handle)
      modify (λ o. record o { delay = assign p (pos num_steps_per_communication) o.delay })
      output ← on_bf (updated_window (lookup p parameter_names))
      modify (write_to to_data p output)
      update_windows rest

    unfoldable pub synchronize : M (Optimizer (Ops L T F) T) (Unit {0})
    unfolding update_windows
    synchronize = do handles ← reads (λ o. ok o.handles); update_windows handles; modify settled

    unfoldable pub step :
        {A : Type 0}
        → (force_barrier : Bool) → (barrier : M (Ops L T F) (Unit {0}))
        → M (Optimizer (Ops L T F) T) A
        → M (Optimizer (Ops L T F) T) A
    unfolding step_with synchronize
    step force_barrier barrier inner_step = do
      (if force_barrier then on_bf barrier else return tt)
      step_with synchronize inner_step
