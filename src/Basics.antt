-- ===== src/Basics.antt =====
-- The class `BlueFogBasics` of bluefog/common/basics.py, and the C library behind it.
pub mod Library
pub mod Queries
pub mod SetTopology
pub mod Timeline
pub mod Suspend
pub mod Tests
