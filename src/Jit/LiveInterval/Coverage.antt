-- ===== src/Jit/LiveInterval/Coverage.antt =====
-- SplitAt of live_intervals.h and the points that an interval covers.
use k3s_virtual_machine.Base.{
  ℕ, ◌+◌, ◌≤◌, ◌<◌, arith, ◌≡◌, refl, Bool, false, ◌&&◌, ◌||◌, some, List, [], ◌∷◌, ok, ltb, leb,
  if◌then◌else◌, u32_mod, get_elem?, Bool-cases, inl, inr,
}
use k3s_virtual_machine.Jit.LiveInterval.{LiveRange, LiveInterval, range, split_at, startpoint}
use k3s_virtual_machine.Jit.LiveInterval.Split.{Ordered, split_ranges, split_position, split_at-eq}

abbrev pub covers : List LiveRange → ℕ → Bool
covers [] q = false
covers (r ∷ rs) q = (leb r.begin q && ltb q r.end) || covers rs q

-- The end of the gap that the split fills: the split point itself where a range holds it, the begin
-- of the next range where a hole does, and two numbers further behind the last range.
abbrev pub gap_end : ℕ → List LiveRange → ℕ
gap_end p [] = p + 2
gap_end p (r ∷ rs) = if leb p r.begin then r.begin else if ltb p r.end then p else gap_end p rs

covers-split_ranges :
    (p q lo : ℕ) (rs : List LiveRange)
    → Ordered lo rs
    → covers (split_ranges p rs) q ≡ (covers rs q || (leb p q && ltb q (gap_end p rs)))
unfolding split_ranges
covers-split_ranges p q lo [] o = ground arith
covers-split_ranges p q lo (r ∷ rs) o = ground (arith, covers-split_ranges p q r.end rs o.3)

split_ranges-Ordered :
    (p lo : ℕ) (rs : List LiveRange)
    → Ordered lo rs
    → lo ≤ p
    → p + 2 < u32_mod
    → Ordered lo (split_ranges p rs)
unfolding split_ranges
split_ranges-Ordered p lo [] o le fits = ground arith
split_ranges-Ordered p lo (r ∷ rs) o le fits = ground (arith, split_ranges-Ordered p r.end rs o.3)

split_position-begin :
    (p lo : ℕ) (rs : List LiveRange)
    → Ordered lo rs
    → (r : LiveRange) × (get_elem? (split_ranges p rs) (split_position p rs) ≡ some r)
      × (r.begin ≡ p)
unfolding split_ranges split_position
split_position-begin p lo [] o = (range p (p + 2), refl, refl)
split_position-begin p lo (r ∷ rs) o = elim (Bool-cases (leb p r.begin)) [
  | inl h ↦ rw h (range p r.end, refl, refl)
  | inr h ↦ elim (Bool-cases (ltb p r.end)) [
    | inl k ↦ rw (h, k) (range p r.end, refl, refl)
    | inr k ↦ rw (h, k) (split_position-begin p r.end rs o.3)
  ]
]

-- For an interval with ordered ranges that begins at or before the split point, and a split point
-- below 2^32 - 2, SplitAt succeeds, keeps the ranges ordered and apart, returns the position of a
-- range that begins at the split point, and covers afterwards exactly the points covered before
-- and those between the split point and the end of the hole it lies in (two points, behind the
-- last range).
pub split_at-covers :
    (i : LiveInterval) (p first : ℕ)
    → Ordered first i.intervals
    → startpoint i ≡ ok first
    → first ≤ p
    → p + 2 < u32_mod
    → (pos : ℕ) × (j : LiveInterval) × (split_at i p ≡ ok (pos, j))
      × Ordered first j.intervals
      × ((r : LiveRange) × (get_elem? j.intervals pos ≡ some r) × (r.begin ≡ p))
      × ((q : ℕ)
          → covers j.intervals q
            ≡ (covers i.intervals q || (leb p q && ltb q (gap_end p i.intervals))))
split_at-covers i p first o st le fits = (
  split_position p i.intervals,
  record i { intervals = split_ranges p i.intervals },
  split_at-eq i p first first o st le fits,
  split_ranges-Ordered p first i.intervals o le fits,
  split_position-begin p first i.intervals o,
  λ q. covers-split_ranges p q first i.intervals o,
)
