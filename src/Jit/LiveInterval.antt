-- ===== src/Jit/LiveInterval.antt =====
-- jit/ir/graph/analyses/live_intervals.h. An iterator into the `List` of ranges is its position.
pub mod Coverage
pub mod Split
pub mod Ranges
mod Tests
use k3s_virtual_machine.Base.{
  ℕ, zero, suc, ◌+◌, ◌%◌, ◌-◌, Bool, true, ◌&&◌, ◌||◌, not, Option, none, some, List, [], ◌∷◌, ◌++◌,
  Outcome, ok, err, ◌>>=◌, ◌>>◌, guard, from_option, assertion, undefined, ltb, leb, if◌then◌else◌,
  u32_mod, length, get_elem?, set,
}

-- The fields `b_` and `e_`.
pub record LiveRange : Type 0 where
  pub begin : ℕ
  pub end : ℕ

abbrev pub range : ℕ → ℕ → LiveRange
range b e = record { begin = b; end = e }

-- The constructor.
unfoldable pub new_range : ℕ → ℕ → Outcome LiveRange
new_range b e = guard (ltb b e) assertion >> ok (range b e)

unfoldable pub trim_begin : LiveRange → ℕ → Outcome LiveRange
trim_begin r def =
    guard (ltb r.begin def) assertion
    >> (guard (ltb def r.end) assertion >> ok (record r { begin = def }))

unfoldable pub prolong : LiveRange → ℕ → Outcome LiveRange
prolong r end = guard (leb r.end end) assertion >> ok (record r { end = end })

unfoldable pub intersects_with : LiveRange → ℕ → ℕ → Outcome Bool
intersects_with r b e =
    guard (ltb b e) assertion
    >> (guard (ltb r.begin r.end) assertion >> ok (not (ltb r.begin e || ltb b r.end)))

unfoldable pub set_begin : LiveRange → ℕ → LiveRange
set_begin r b = record r { begin = b % u32_mod }

unfoldable pub set_end : LiveRange → ℕ → LiveRange
set_end r e = record r { end = e % u32_mod }

pub record LiveInterval : Type 0 where
  pub intervals : List LiveRange
  pub use_points : List ℕ

unfoldable pub new_interval : LiveRange → LiveInterval
new_interval first_range = record { intervals = first_range ∷ []; use_points = [] }

-- `back()`, undefined on an empty list.
unfoldable pub back : List LiveRange → Outcome LiveRange
back [] = err undefined
back (r ∷ []) = ok r
back (r ∷ s ∷ rs) = back (s ∷ rs)

-- The ranges with the last one changed by a step that may fail.
unfoldable pub update_back :
    (LiveRange → Outcome LiveRange) → List LiveRange → Outcome (List LiveRange)
update_back f [] = err undefined
update_back f (r ∷ []) = do ok ((← f r) ∷ [])
update_back f (r ∷ s ∷ rs) = do ok (r ∷ (← update_back f (s ∷ rs)))

unfoldable pub extend_active : LiveInterval → ℕ → Outcome LiveInterval
unfolding update_back prolong
extend_active i def = do
  rs ← update_back (λ r. prolong r def) i.intervals
  ok (record i { intervals = rs })

unfoldable pub append_after_hole : LiveInterval → LiveRange → LiveInterval
append_after_hole i r = record i { intervals = i.intervals ++ r ∷ [] }

-- The loop of CheckIntervals, from the range that `it` points at.
unfoldable pub check_from : LiveRange → List LiveRange → Outcome Bool
check_from range1 [] = ok true
check_from range1 (range2 ∷ rs) = do
  guard (ltb range1.begin range1.end) assertion
  guard (ltb range2.begin range2.end) assertion
  guard (ltb range1.end range2.begin) assertion
  check_from range2 rs

unfoldable pub check_intervals : LiveInterval → Outcome Bool
unfolding check_from
check_intervals i = elim i.intervals [
  | [] ↦ err undefined
  | r ∷ rs ↦ guard (ltb r.begin r.end) assertion >> check_from r rs
]

unfoldable pub startpoint : LiveInterval → Outcome ℕ
startpoint i = elim i.intervals [ [] ↦ err undefined | r ∷ rs ↦ ok r.begin ]

unfoldable pub endpoint : LiveInterval → Outcome ℕ
unfolding back
endpoint i = do r ← back i.intervals; ok r.end

-- `std::find_if` with the test of FindRangeCoveringOrAfter: the position, or the length.
unfoldable pub find_covering : List LiveRange → ℕ → ℕ
find_covering [] point = 0
find_covering (r ∷ rs) point =
    if leb point r.begin || ltb point r.end then 0 else suc (find_covering rs point)

unfoldable pub find_range_covering_or_after : LiveInterval → ℕ → Outcome (ℕ × LiveInterval)
unfolding startpoint endpoint find_covering new_range
find_range_covering_or_after i point = do
  first ← startpoint i
  guard (leb first point) assertion
  last ← endpoint i
  if leb last point
      then (do
        r ← new_range point ((point + 2) % u32_mod)
        ok (length i.intervals, record i { intervals = i.intervals ++ r ∷ [] }))
      else ok (find_covering i.intervals point, i)

-- `emplace`: the new item stands before position `i`.
unfoldable pub insert_at {ℓ} : {A : Type ℓ} → List A → ℕ → A → List A
insert_at xs zero a = a ∷ xs
insert_at [] (suc i) a = a ∷ []
insert_at (x ∷ xs) (suc i) a = x ∷ insert_at xs i a

-- What SplitAt does at the position that the search has found.
unfoldable pub cut_range : LiveInterval → ℕ → ℕ → Outcome (ℕ × LiveInterval)
unfolding insert_at set_begin set_end new_range
cut_range i pos split_point = do
  r ← from_option assertion (get_elem? i.intervals pos)
  if ltb r.begin split_point
      then (do
        tail ← new_range split_point r.end
        let rs = set i.intervals pos (set_end r split_point)
        ok (pos + 1, record i { intervals = insert_at rs (pos + 1) tail }))
      else ok (pos, record i { intervals = set i.intervals pos (set_begin r split_point) })

unfoldable pub split_at : LiveInterval → ℕ → Outcome (ℕ × LiveInterval)
unfolding find_range_covering_or_after cut_range
split_at interval split_point = do
  (pos, i) ← find_range_covering_or_after interval split_point
  cut_range i pos split_point

unfoldable pub set_usepoints : LiveInterval → List ℕ → LiveInterval
set_usepoints i use_points = record i { use_points = use_points }

unfoldable pub usepoint : LiveInterval → ℕ → Outcome ℕ
usepoint i idx = from_option undefined (get_elem? i.use_points idx)
