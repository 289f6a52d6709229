-- ===== src/Topology/Dynamic.antt =====
-- The generators of dynamic send and receive ranks of bluefog/common/topology_util.py. A generator
-- is the function from the number of the iteration, the local `index` of the source, to what the
-- iteration yields; the assertions that stand above the loop are raised by the first `next`.
pub mod Ring
pub mod Peers
pub mod Grid
pub mod Log
pub mod Expo2
pub mod Machine
pub mod OnePeer
pub mod Tests
