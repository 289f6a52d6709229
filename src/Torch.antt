-- ===== src/Torch.antt =====
-- bluefog/torch/mpi_ops.py
pub mod Weights
pub mod Handles
pub mod Windows
pub mod Hierarchical
pub mod Examples
mod Tests
mod WindowTests
