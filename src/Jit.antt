-- ===== src/Jit.antt =====
-- The compiler of jit/ir/graph.
pub mod LiveInterval
pub mod Graph
pub mod Rpo
pub mod Dominance
pub mod Checks
pub mod RegAlloc
pub mod Liveness
pub mod LinearOrder
pub mod Loops
pub mod Peepholes
