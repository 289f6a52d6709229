-- ===== src/Topology.antt =====
-- bluefog/common/topology_util.py
pub mod Graph
pub mod Weights
pub mod Compare
pub mod Static
pub mod Dynamic
pub mod Tests
