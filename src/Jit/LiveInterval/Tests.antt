-- ===== src/Jit/LiveInterval/Tests.antt =====
-- Runs of the operations on live intervals.
use k3s_virtual_machine.Base.{
  ℕ, arith, ◌≡◌, refl, ◌↔◌, true, false, ◌&&◌, ◌||◌, some, [], ◌∷◌, ok, leb, ltb, get_elem?,
}
use k3s_virtual_machine.Jit.LiveInterval.{
  LiveRange, LiveInterval, range, split_at, check_intervals, intersects_with, startpoint,
}
use k3s_virtual_machine.Jit.LiveInterval.Split.{Ordered, split_ranges, split_position, split_at-eq}
use k3s_virtual_machine.Jit.LiveInterval.Coverage.{covers, gap_end, split_at-covers}
use k3s_virtual_machine.Jit.LiveInterval.Ranges.{
  Separated, check_intervals_iff, intersects_with-false,
}

abbrev two_ranges : LiveInterval
two_ranges = record { intervals = range 2 8 ∷ range 12 20 ∷ []; use_points = [] }

two_ranges-Ordered : Ordered 2 two_ranges.intervals
two_ranges-Ordered = omega arith

two_ranges-startpoint : startpoint two_ranges ≡ ok 2
unfolding startpoint
two_ranges-startpoint = refl

split_at-eq_example :
    split_at two_ranges 14
    ≡ ok (
      split_position 14 two_ranges.intervals,
      record two_ranges { intervals = split_ranges 14 two_ranges.intervals },
    )
split_at-eq_example =
    split_at-eq two_ranges 14 2 2 two_ranges-Ordered two_ranges-startpoint (omega arith)
      (omega arith)

split_at-covers_example :
    (pos : ℕ) × (j : LiveInterval) × (split_at two_ranges 10 ≡ ok (pos, j))
    × Ordered 2 j.intervals
    × ((r : LiveRange) × (get_elem? j.intervals pos ≡ some r) × (r.begin ≡ 10))
    × ((q : ℕ)
        → covers j.intervals q ≡ (
            covers two_ranges.intervals q || (leb 10 q && ltb q (gap_end 10 two_ranges.intervals))))
split_at-covers_example =
    split_at-covers two_ranges 10 2 two_ranges-Ordered two_ranges-startpoint (omega arith)
      (omega arith)

check_intervals_iff_example :
    (check_intervals two_ranges ≡ ok true) ↔ Separated (range 2 8 ∷ range 12 20 ∷ [])
check_intervals_iff_example = check_intervals_iff two_ranges (λ e. cc)

intersects_with-false_example : intersects_with (range 2 8) 4 6 ≡ ok false
intersects_with-false_example = intersects_with-false (range 2 8) 4 6 (omega arith) (omega arith)
