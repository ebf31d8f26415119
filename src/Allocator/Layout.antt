-- ===== src/Allocator/Layout.antt =====
-- The pool of survivor regions and the tenured region (`RegionsPool`, `GCRegion` of
-- allocator/gc_region.h), and the regions of allocator/allocator.h with their Init.
pub mod Tiling
use k3s_virtual_machine.Base.{ℕ, zero, suc, ◌+◌, ◌-◌, ◌*◌, ◌/◌, List, [], ◌∷◌, ◌++◌, map}
use k3s_virtual_machine.Allocator.Region.{Region, reset}

-- The memory of a region as the kernel maps it, filled with zeros.
unfoldable pub fresh : ℕ → ℕ → Region
fresh start size = record { start = start; size = size; cursor = 0 }

-- `RegionsPool<start, region_size, n_regions, remaining_size>`, the tenured region last.
unfoldable pub regions_pool : ℕ → ℕ → ℕ → ℕ → List Region
unfolding fresh
regions_pool start region_size zero remaining_size = fresh start remaining_size ∷ []
regions_pool start region_size (suc n) remaining_size =
    fresh start region_size
    ∷ regions_pool (start + region_size) region_size n (remaining_size - region_size)

abbrev pub tenured_size : ℕ → ℕ
tenured_size size = size / 4

abbrev pub survivors_n : ℕ
survivors_n = 2

abbrev pub survivors_size : ℕ → ℕ
survivors_size size = (size - tenured_size size) / survivors_n

-- `GCRegion<start, size>`
unfoldable pub gc_region : ℕ → ℕ → List Region
unfolding regions_pool
gc_region start size = regions_pool start (survivors_size size) survivors_n size

abbrev pub alloc_start_addr : ℕ
alloc_start_addr = 0xE000000

abbrev pub alloc_size : ℕ
alloc_size = 1024 * 1024 * 32

abbrev pub gc_internals_size : ℕ
gc_internals_size = alloc_size / 8

abbrev pub stack_size : ℕ
stack_size = alloc_size / 8

unfoldable pub const_region : Region
unfolding fresh
const_region = fresh alloc_start_addr (alloc_size / 2 - gc_internals_size - stack_size)

unfoldable pub gc_internals_region : Region
unfolding fresh
gc_internals_region =
    fresh (alloc_start_addr + alloc_size / 2 - gc_internals_size - stack_size) gc_internals_size

unfoldable pub stack_region : Region
unfolding fresh
stack_region = fresh (alloc_start_addr + alloc_size / 2 - stack_size) stack_size

unfoldable pub runtime_region : List Region
unfolding gc_region
runtime_region = gc_region (alloc_start_addr + alloc_size / 2) (alloc_size / 2)

-- `Allocator::Init`: every region of the mapping is reset.
unfoldable pub init : List Region
unfolding const_region gc_internals_region stack_region runtime_region reset
init = map reset (const_region ∷ gc_internals_region ∷ stack_region ∷ runtime_region)
