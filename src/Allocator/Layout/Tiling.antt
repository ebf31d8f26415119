-- ===== src/Allocator/Layout/Tiling.antt =====
-- The regions of a pool, and those of the allocator, tile their address range.
use k3s_virtual_machine.Base.{
  ℕ, zero, suc, ◌+◌, ◌-◌, ◌*◌, ◌≤◌, ◌<◌, arith, ◌≡◌, refl, List, [], ◌∷◌, All, ◌⊎◌, if◌then◌else◌,
  inl, inr,
}
use native.Mathlib.Decide.{dec_lt}
use k3s_virtual_machine.Allocator.Region.{Region, contains}
use k3s_virtual_machine.Allocator.Region.Bounds.{IsValid}
use k3s_virtual_machine.Allocator.Layout.{regions_pool, alloc_start_addr, alloc_size, init}

-- Each region begins where the one before it ends, from `lo` up to `hi`.
abbrev pub Tiles : ℕ → ℕ → List Region → Type 0
Tiles lo hi [] = lo ≡ hi
Tiles lo hi (r ∷ rs) = (r.start ≡ lo) × Tiles (lo + r.size) hi rs

-- Under the size condition of the static_assert the regions of a pool lie one behind the other,
-- without gaps or overlaps, from its first address to the end of its size.
pub regions_pool-Tiles :
    (start region_size n remaining_size : ℕ)
    → n * region_size ≤ remaining_size
    → Tiles start (start + remaining_size) (regions_pool start region_size n remaining_size)
unfolding regions_pool
regions_pool-Tiles start region_size zero remaining_size h = (refl, refl)
regions_pool-Tiles start region_size (suc n) remaining_size h =
    let room : region_size ≤ remaining_size = omega arith in
    let end : start + region_size + (remaining_size - region_size) ≡ start + remaining_size =
      omega arith in
    let rest =
      regions_pool-Tiles (start + region_size) region_size n (remaining_size - region_size)
        (omega arith) in
    (refl, rw end at rest)

-- The number of regions whose Contains accepts an address.
abbrev pub owners : ℕ → List Region → ℕ
owners ptr [] = 0
owners ptr (r ∷ rs) = (if contains r ptr then 1 else 0) + owners ptr rs

Tiles-le : (rs : List Region) (lo hi : ℕ) → Tiles lo hi rs → lo ≤ hi
Tiles-le [] lo hi t = omega arith
Tiles-le (r ∷ rs) lo hi t = omega (arith, Tiles-le rs (lo + r.size) hi t.1)

-- Where regions tile a range, Contains of exactly one of them accepts an address of the range, and
-- that of none accepts any other address.
pub owners-Tiles :
    (rs : List Region) (lo hi ptr : ℕ)
    → Tiles lo hi rs
    → ((lo ≤ ptr) × (ptr < hi) × (owners ptr rs ≡ 1))
      ⊎ ((ptr < lo) ⊎ (hi ≤ ptr)) × (owners ptr rs ≡ 0)
unfolding contains
owners-Tiles [] lo hi ptr t = elim (dec_lt ptr lo) [
  | yes h ↦ inr (inl h, refl)
  | no h ↦ inr (inr (omega arith), refl)
]
owners-Tiles (r ∷ rs) lo hi ptr t =
    ground (arith, owners-Tiles rs (lo + r.size) hi ptr t.1, Tiles-le rs (lo + r.size) hi t.1)

init-Tiles : Tiles alloc_start_addr (alloc_start_addr + alloc_size) init
unfolding init
init-Tiles = omega arith

-- After Init, Contains of exactly one of the allocator's six regions accepts an address if Init
-- has mapped it, and that of none accepts any other address.
pub init-owners :
    (ptr : ℕ)
    → ((alloc_start_addr ≤ ptr) × (ptr < alloc_start_addr + alloc_size) × (owners ptr init ≡ 1))
      ⊎ ((ptr < alloc_start_addr) ⊎ (alloc_start_addr + alloc_size ≤ ptr)) × (owners ptr init ≡ 0)
init-owners ptr = owners-Tiles init alloc_start_addr (alloc_start_addr + alloc_size) ptr init-Tiles

-- Init leaves every region valid.
pub init-IsValid : All IsValid init
unfolding init
init-IsValid = omega arith
