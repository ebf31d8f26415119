-- ===== src/Allocator/Tests.antt =====
-- Runs of the allocator.
use k3s_virtual_machine.Base.{
  ℕ, ◌+◌, ◌*◌, ◌-◌, ◌≤◌, ◌<◌, arith, ◌≡◌, refl, ◌↔◌, ◌⊎◌, [], ◌∷◌, All, ok, err, oom, u64_mod,
}
use k3s_virtual_machine.Allocator.Region.{
  Region, alloc_bytes, alloc, reset, get_remaining_space, max_alloc_size,
}
use k3s_virtual_machine.Allocator.Region.Bounds.{
  IsValid, Block, Calls, call, none_yet, next, Within, PairwiseDisjoint, alloc_bytes-oom,
  Calls-apart, alloc_bytes-wraps, alloc-reset,
}
use k3s_virtual_machine.Allocator.Layout.{regions_pool, init}
use k3s_virtual_machine.Allocator.Layout.Tiling.{Tiles, regions_pool-Tiles, owners, init-owners}

abbrev region_at : ℕ → Region
region_at cursor = record { start = 1000; size = 100; cursor = cursor }

region_at-IsValid : IsValid (region_at 8)
region_at-IsValid = record { header = omega arith; room = omega arith; fits = omega arith }

abbrev block : ℕ → ℕ → Block
block base bytes = record { base = base; bytes = bytes }

two-Calls : Calls (region_at 8) (block 1028 50 ∷ block 1008 20 ∷ []) (region_at 78)
unfolding alloc_bytes
two-Calls = next (next none_yet (call (omega arith) refl)) (call (omega arith) refl)

Calls-apart_example :
    All (Within (region_at 8)) (block 1028 50 ∷ block 1008 20 ∷ [])
    × PairwiseDisjoint (block 1028 50 ∷ block 1008 20 ∷ [])
    × IsValid (region_at 78)
Calls-apart_example = Calls-apart region_at-IsValid two-Calls

alloc_bytes-oom_example :
    (alloc_bytes (region_at 8) 93 ≡ err oom) ↔ (get_remaining_space (region_at 8) < 93)
alloc_bytes-oom_example = alloc_bytes-oom (region_at 8) 93 region_at-IsValid (omega arith)

alloc_bytes-wraps_example :
    (r : Region) × (alloc_bytes (region_at 8) (u64_mod - 3) ≡ ok (1008, r)) × (r.cursor < 8)
alloc_bytes-wraps_example =
    alloc_bytes-wraps (region_at 8) (u64_mod - 3) region_at-IsValid (omega arith) (omega arith)

alloc-reset_example :
    ((r : Region) × (alloc (reset (region_at 50)) 16 5 ≡ ok (1008, r))
        × (get_remaining_space r + 80 ≡ max_alloc_size (region_at 50)))
      × (80 ≤ max_alloc_size (region_at 50))
    ⊎ (alloc (reset (region_at 50)) 16 5 ≡ err oom) × (max_alloc_size (region_at 50) < 80)
alloc-reset_example = alloc-reset (region_at 50) 16 5 (omega arith) (omega arith) (omega arith)

regions_pool-Tiles_example : Tiles 5000 5100 (regions_pool 5000 30 2 100)
regions_pool-Tiles_example = regions_pool-Tiles 5000 30 2 100 (omega arith)

init-owners_example :
    ((0xE000000 ≤ 0xF000010)
      × (0xF000010 < 0xE000000 + 1024 * 1024 * 32)
      × (owners 0xF000010 init ≡ 1))
    ⊎ ((0xF000010 < 0xE000000) ⊎ (0xE000000 + 1024 * 1024 * 32 ≤ 0xF000010))
      × (owners 0xF000010 init ≡ 0)
init-owners_example = init-owners 0xF000010
