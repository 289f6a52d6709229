-- ===== src/Topology/Static.antt =====
-- The static topologies of bluefog/common/topology_util.py, as the weight matrices from which
-- `nx.from_numpy_array` makes the graphs. A weight is a fraction with a denominator that all
-- entries of a matrix share, so division by a sum only changes the denominator; the rounding of
-- floats is not modelled.
pub mod Matrix
pub mod Circulant
pub mod Exponential
pub mod Ring
pub mod Star
mod Tests
pub mod Mesh
