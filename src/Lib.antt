-- ===== src/Lib.antt =====
-- BlueFog: decentralized averaging over a virtual topology of ranks.
--
-- The ranks of a run average tensors with their neighbors in a directed graph. This library models
-- the Python code that decides who talks to whom, with which weights, and in which state of the
-- process:
--
-- - Topology: bluefog/common/topology_util.py. Topology/Static has the graphs that are built once
--   (ExponentialTwoGraph, ExponentialGraph, SymmetricExponentialGraph, MeshGrid2DGraph, RingGraph,
--   StarGraph and FullyConnectedGraph), Topology/Dynamic the generators of send and receive ranks
--   that change with each iteration, Topology/Weights GetRecvWeights and GetSendWeights, and
--   Topology/Compare IsTopologyEquivalent and IsRegularGraph.
-- - Basics: the class BlueFogBasics of bluefog/common/basics.py. Its attributes are the record
--   Basics, with the state of the C library as one of them; a method is a function from the object
--   to its result or error and the object afterwards. set_topology takes its graphs from Topology,
--   and tells the library the neighbors and weights.
-- - Torch: bluefog/torch/mpi_ops.py. The module's maps of handles and windows are the record Ops.
--   Torch/Weights turns the arguments of neighbor_allreduce and of the one-sided operations, with
--   the topology of Basics, into the arguments of the call of the C++ extension; Torch/Handles and
--   Torch/Windows make the calls and keep the maps. Torch/Hierarchical has
--   hierarchical_neighbor_allreduce, whose neighbors are machines.
-- - Optimizers: bluefog/torch/optimizers.py and bluefog/torch/utility.py. Optimizers/State has the
--   attributes that the classes share, with the state of bf as one of them, and the parts of their
--   methods that are the same; Gradient, Reduce, AdaptThenCombine, Win and PushSum are the five
--   classes, Modules and Parameters what they ask of a model, and Utility and StateDict what
--   broadcasts parameters and the state of an optimizer. A hook that torch calls is a function
--   that the theorems call, in any sequence. The operations that an optimizer starts are a record
--   Communicator with laws, which the functions of Torch fulfil (Optimizers/Communicator/Handles).
--   Win and PushSum call the windows of Torch directly.
-- - Launcher: env of bluefog/common/util.py, set_env_from_args of bluefog/run/env_util.py, and the
--   threads and retries of bluefog/run/network_util.py. The order in which threads complete is an
--   argument.
-- - Common: errors as values, Python's dictionaries as association lists, lists of ranks, modular
--   arithmetic, and the monad of methods that may raise.
--
-- Parameters: networkx (the record DiGraph, with its laws in IsDiGraph), numpy's roll (IsRoll)
-- and square root, the logarithms (IsIntLog2, ExactLog), the C library (Library), the C++
-- extension (Extension, WindowExtension), torch's tensors (Tensors, Vectors) and floats (Floats), the handle manager of
-- the extension (IssuesHandles), the children and named parameters of a module, the step of the
-- wrapped optimizer, ssh and the look-up of hosts. Each has a concrete instance in
-- the modules named Tests, RoundTests, Examples, WindowTests and StateTests, where the results are applied.
--
-- A call of the extension that starts an operation, waits for one, or works on a window may raise
-- (Torch/Handles, Torch/Windows). The
-- laws of a Communicator say that a wait returns, so the results on the optimizers are about runs in
-- which no operation fails once it has been started (NoFailure, and the record Updates for windows).
-- A poll, and the calls of Torch/Windows/Mutex, do not raise in the model.
--
-- Ranks are natural numbers, and Python's remainder of a difference, which is never negative, is
-- sub_mod. The weights of the static graphs are fractions over a denominator that the matrix
-- shares, so that sums are exact; the rounding of floats is not modelled. A generator is a
-- function of the number of the iteration. All loops are over lists or count down, so
-- nothing needs fuel. The counters of the optimizers are integers, as they go below zero.
--
-- Not modelled: the step functions of the adapt-then-combine optimizer, which are arithmetic on
-- tensors and a parameter here, the hooks of the timeline, the casts of the
-- callbacks of broadcast_optimizer_state, and which step initializes an optimizer there, the parsing of
-- hosts, processes and sockets of the launcher, and the TensorFlow binding; and in
-- the modelled files log messages, the names of operations, tests of a Python type that the types
-- here decide, and calls that only pass on to the C++ code.
pub mod Common
pub mod Topology
pub mod Basics
pub mod Torch
pub mod Optimizers
pub mod Launcher
