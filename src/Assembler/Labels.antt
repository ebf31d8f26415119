-- ===== src/Assembler/Labels.antt =====
-- The label references of assembler/assembler.h: patched once their label is defined, whichever
-- comes first.
pub mod Patch
pub mod Emit
pub mod Invariant
pub mod Run
