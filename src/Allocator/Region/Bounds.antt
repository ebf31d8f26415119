-- ===== src/Allocator/Region/Bounds.antt =====
-- What AllocBytes of allocator/region.h gives: blocks inside the region that do not overlap.
use k3s_virtual_machine.Base.{
  ℕ, ◌+◌, ◌-◌, ◌*◌, ◌≤◌, ◌<◌, arith, ◌≡◌, ok, err, oom, u64_mod, ◌↔◌, ◌⊎◌, inl, inr, List, [], ◌∷◌,
  All, refl, ◌∙◌,
}
use native.Mathlib.Decide.{dec_le}
use k3s_virtual_machine.Allocator.Region.{
  Region, alloc_bytes, alloc, cursor_size, get_remaining_space, reset, max_alloc_size,
}

pub record IsValid (r : Region) : Type 0 where
  pub header : cursor_size ≤ r.cursor
  pub room : r.cursor ≤ r.size
  pub fits : r.start + r.size < u64_mod

-- In a valid region, for a request that does not wrap the cursor, AllocBytes stops with OOM
-- exactly when fewer bytes remain than are asked for.
pub alloc_bytes-oom :
    (r : Region) (n : ℕ)
    → IsValid r
    → r.cursor + n < u64_mod
    → (alloc_bytes r n ≡ err oom) ↔ (get_remaining_space r < n)
unfolding alloc_bytes get_remaining_space
alloc_bytes-oom r n v h = ground arith

pub record Block : Type 0 where
  pub base : ℕ
  pub bytes : ℕ

-- One call that returned: the region before, the block, the region after.
pub data Call (r : Region) (b : Block) (r' : Region) : Type 0 where
  call : r.cursor + b.bytes < u64_mod → alloc_bytes r b.bytes ≡ ok (b.base, r') → Call r b r'

-- The calls made since a region was in state `r`, the last one first.
pub data Calls (r : Region) : List Block → Region → Type 0 where
  none_yet : Calls r [] r
  next :
      {bs : List Block} {b : Block} {s t : Region} → Calls r bs s → Call s b t → Calls r (b ∷ bs) t

abbrev pub Disjoint : Block → Block → Type 0
Disjoint a b = (a.base + a.bytes ≤ b.base) ⊎ (b.base + b.bytes ≤ a.base)

abbrev pub Within : Region → Block → Type 0
Within r b = (r.start + cursor_size ≤ b.base) × (b.base + b.bytes ≤ r.start + r.size)

abbrev pub PairwiseDisjoint : List Block → Type 0
PairwiseDisjoint [] = Unit
PairwiseDisjoint (b ∷ bs) = All (Disjoint b) bs × PairwiseDisjoint bs

-- What one call does to a valid region.
pub record Allocated (r : Region) (b : Block) (r' : Region) : Type 0 where
  pub base : b.base ≡ r.start + r.cursor
  pub start : r'.start ≡ r.start
  pub size : r'.size ≡ r.size
  pub cursor : r'.cursor ≡ r.cursor + b.bytes
  pub room : r'.cursor ≤ r'.size

pub Call-Allocated : {r r' : Region} {b : Block} → Call r b r' → Allocated r b r'
unfolding alloc_bytes
Call-Allocated (call h e) = ground arith

abbrev Below : ℕ → Block → Type 0
Below limit b = b.base + b.bytes ≤ limit

-- All blocks of a history lie in the region, end below its cursor, and do not overlap.
record History (r : Region) (bs : List Block) (t : Region) : Type 0 where
  start : t.start ≡ r.start
  size : t.size ≡ r.size
  header : cursor_size ≤ t.cursor
  room : t.cursor ≤ t.size
  below : All (Below (t.start + t.cursor)) bs
  within : All (Within r) bs
  apart : PairwiseDisjoint bs

All-Below-mono : {m n : ℕ} (bs : List Block) → m ≤ n → All (Below m) bs → All (Below n) bs
All-Below-mono [] h a = tt
All-Below-mono (b ∷ bs) h a = (omega arith, All-Below-mono bs h a.1)

All-Below-Disjoint :
    {m : ℕ} (b : Block) (bs : List Block) → m ≤ b.base → All (Below m) bs → All (Disjoint b) bs
All-Below-Disjoint b [] h a = tt
All-Below-Disjoint b (c ∷ bs) h a = (inr (omega arith), All-Below-Disjoint b bs h a.1)

Calls-History : {r t : Region} {bs : List Block} → IsValid r → Calls r bs t → History r bs t
Calls-History v none_yet = record {
  start = refl;
  size = refl;
  header = v.header;
  room = v.room;
  below = tt;
  within = tt;
  apart = tt;
}
Calls-History v (next {bs} {b} cs c) =
    let h = Calls-History v cs in
    let a = Call-Allocated c in
    record {
      start = a.start ∙ h.start;
      size = a.size ∙ h.size;
      header = omega arith;
      room = a.room;
      below = (omega arith, All-Below-mono bs (omega arith) h.below);
      within = ((omega arith, omega arith), h.within);
      apart = (All-Below-Disjoint b bs (omega arith) h.below, h.apart);
    }

-- For a valid region and any history of AllocBytes calls that returned and whose requests do not
-- wrap the cursor, the granted blocks lie behind the cursor's word and inside the region, no two
-- of them overlap, and the region is valid afterwards.
pub Calls-apart :
    {r t : Region} {bs : List Block}
    → IsValid r
    → Calls r bs t
    → All (Within r) bs × PairwiseDisjoint bs × IsValid t
Calls-apart v cs =
    let h = Calls-History v cs in
    (h.within, h.apart, record { header = h.header; room = h.room; fits = omega arith })

-- In a valid region a request that is below 2^64 and carries the cursor to 2^64 or beyond is
-- granted, and the cursor is then lower than before.
pub alloc_bytes-wraps :
    (r : Region) (n : ℕ)
    → IsValid r
    → n < u64_mod
    → u64_mod ≤ r.cursor + n
    → (r' : Region) × (alloc_bytes r n ≡ ok (r.start + r.cursor, r')) × (r'.cursor < r.cursor)
unfolding alloc_bytes
alloc_bytes-wraps r n v h w =
    (record r { cursor = r.cursor + n - u64_mod }, ground arith, omega arith)

-- Straight after Reset, a region of at least 8 and fewer than 2^64 - 8 bytes grants Alloc of n
-- elements behind the cursor's word whenever their bytes are at most MAX_ALLOC_SIZE, and exactly
-- these bytes are then missing from the remaining space; a larger request that does not wrap the
-- cursor is refused.
pub alloc-reset :
    (r : Region) (elem_size n : ℕ)
    → cursor_size ≤ r.size
    → r.size + cursor_size < u64_mod
    → cursor_size + n * elem_size < u64_mod
    → ((r' : Region) × (alloc (reset r) elem_size n ≡ ok (r.start + cursor_size, r'))
          × (get_remaining_space r' + n * elem_size ≡ max_alloc_size r))
        × (n * elem_size ≤ max_alloc_size r)
      ⊎ (alloc (reset r) elem_size n ≡ err oom) × (max_alloc_size r < n * elem_size)
unfolding alloc reset get_remaining_space max_alloc_size
alloc-reset r elem_size n big fits small = elim (dec_le (n * elem_size) (r.size - cursor_size)) [
  | yes h ↦ inl ((record r { cursor = cursor_size + n * elem_size }, ground arith, omega arith), h)
  | no h ↦ inr (ground arith, omega arith)
]
