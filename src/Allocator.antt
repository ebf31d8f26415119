-- ===== src/Allocator.antt =====
-- The allocator: the bump regions of allocator/region.h, the pools of regions of
-- allocator/gc_region.h and the address space that allocator/allocator.h divides among them.
pub mod Region
pub mod Layout
mod Tests
