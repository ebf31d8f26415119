-- ===== src/Jit/LiveInterval/Ranges.antt =====
-- The tests of LiveRange and the order of an interval's ranges.
use k3s_virtual_machine.Base.{ℕ, ◌<◌, arith, ◌≡◌, refl, ◌↔◌, true, false, List, [], ◌∷◌, ok, ◌≢◌}
use native.Mathlib.Decide.{dec_lt}
use k3s_virtual_machine.Jit.LiveInterval.{
  LiveRange, LiveInterval, intersects_with, check_intervals, check_from,
}

-- IntersectsWith answers false on every two non-empty ranges, also on one range and itself.
pub intersects_with-false :
    (r : LiveRange) (b e : ℕ) → r.begin < r.end → b < e → intersects_with r b e ≡ ok false
unfolding intersects_with
intersects_with-false r b e h k = ground arith

-- The ranges are non-empty and a hole stands between each two neighbours.
abbrev pub Separated : List LiveRange → Type 0
Separated [] = Unit
Separated (r ∷ []) = r.begin < r.end
Separated (r ∷ s ∷ rs) = (r.begin < r.end) × (r.end < s.begin) × Separated (s ∷ rs)

check_from_iff :
    (r : LiveRange) (rs : List LiveRange)
    → r.begin < r.end
    → (check_from r rs ≡ ok true) ↔ Separated (r ∷ rs)
unfolding check_from
check_from_iff r [] h = (λ _. h, λ _. refl)
check_from_iff r (s ∷ rs) h = ground (arith, check_from_iff s rs)

Separated-head : (r : LiveRange) (rs : List LiveRange) → Separated (r ∷ rs) → r.begin < r.end
Separated-head r [] h = h
Separated-head r (s ∷ rs) h = h.0

-- On an interval with at least one range, CheckIntervals passes exactly when every range is non-
-- empty and a hole stands between each two neighbours.
pub check_intervals_iff :
    (i : LiveInterval) → i.intervals ≢ [] → (check_intervals i ≡ ok true) ↔ Separated i.intervals
unfolding check_intervals
check_intervals_iff i h = go i.intervals h
  where
    go :
        (l : List LiveRange)
        → l ≢ []
        → (check_intervals (record i { intervals = l }) ≡ ok true) ↔ Separated l
    go [] h = absurd (h refl)
    go (r ∷ rs) h = elim (dec_lt r.begin r.end) [
      | yes e ↦ ground (arith, check_from_iff r rs e)
      | no e ↦ ground (arith, Separated-head r rs)
    ]
