-- ===== src/Basics/Library.antt =====
-- What `BlueFogBasics` keeps, and what it asks of the C library, which `ctypes` loads. The library
-- is a parameter: its answers are read off a state of its own, and three calls change that state.
use bluefog.Common.{ℕ, Bool, Option, List}
use bluefog.Topology.Graph.{DiGraph}

-- A rank or a size is `none` where the library answers -1, which means that it is not initialized.
pub record Library (L : Type 0) (W : Type 0) : Type 0 where
  pub bluefog_init : L → L
  pub bluefog_shutdown : L → L
  pub bluefog_size : L → Option ℕ
  pub bluefog_local_size : L → Option ℕ
  pub bluefog_rank : L → Option ℕ
  pub bluefog_local_rank : L → Option ℕ
  pub bluefog_is_homogeneous : L → Option Bool
  -- sources, then destinations; the answer says whether it is 1
  pub bluefog_set_topology : List ℕ → List ℕ → L → Bool × L
  -- sources, destinations, self weight, weights of the sources
  pub bluefog_set_topology_with_weights : List ℕ → List ℕ → W → List W → L → Bool × L
  -- starts an activity, or ends it
  pub bluefog_timeline : Bool → L → Bool × L

-- The attributes of the object, with the state of the library. Log messages
-- are not modelled.
pub record Basics (L : Type 0) (W : Type 0) : Type 0 where
  pub topology : Option (DiGraph W)
  pub machine_topology : Option (DiGraph W)
  pub is_topo_weighted : Bool
  pub is_machine_topo_weighted : Bool
  pub warn_timeline : Bool
  pub library : L
