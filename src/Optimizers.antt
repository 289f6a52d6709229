-- ===== src/Optimizers.antt =====
-- bluefog/torch/optimizers.py and bluefog/torch/utility.py: optimizers that communicate while the
-- model runs, and wait for the result in `step`.
mod Tests
mod RoundTests
mod WindowTests
mod StateTests
pub mod Communicator
pub mod Calls
pub mod State
pub mod Gradient
pub mod Modules
pub mod Utility
pub mod StateDict
pub mod Parameters
pub mod Reduce
pub mod Win
pub mod PushSum
pub mod AdaptThenCombine
