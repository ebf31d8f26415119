-- ===== src/Jit/LiveInterval/Split.antt =====
-- SplitAt of live_intervals.h against a one-pass reference.
use k3s_virtual_machine.Base.{
  ℕ, suc, ◌+◌, ◌%◌, ◌≤◌, ◌<◌, arith, ◌≡◌, refl, ◌||◌, some, List, [], ◌∷◌, ◌++◌, ok, ltb, leb,
  if◌then◌else◌, u32_mod, length, get_elem?, set, get_elem?-append_last, List-cases, ◌∙◌,
  Bool-cases, inl, inr,
}
use native.Mathlib.Decide.{dec_lt}
use native.Mathlib.Numerals.{add-one}
use k3s_virtual_machine.Jit.LiveInterval.{
  LiveRange, LiveInterval, range, split_at, cut_range, insert_at, find_covering, back,
  find_range_covering_or_after, startpoint,
}

-- The ranges are non-empty, in order from `lo` on, do not overlap, and are 32-bit values.
abbrev pub Ordered : ℕ → List LiveRange → Type 0
Ordered lo [] = Unit
Ordered lo (r ∷ rs) = (lo ≤ r.begin) × (r.begin < r.end) × (r.end < u32_mod) × Ordered r.end rs

-- The reference: one pass over the ranges.
unfoldable pub split_ranges : ℕ → List LiveRange → List LiveRange
split_ranges p [] = range p (p + 2) ∷ []
split_ranges p (r ∷ rs) =
    if leb p r.begin
    then range p r.end ∷ rs
    else if ltb p r.end
    then range r.begin p ∷ range p r.end ∷ rs
    else r ∷ split_ranges p rs

-- The position of the range that begins at the split point.
unfoldable pub split_position : ℕ → List LiveRange → ℕ
split_position p [] = 0
split_position p (r ∷ rs) =
    if leb p r.begin then 0 else if ltb p r.end then 1 else suc (split_position p rs)

-- How the two cases of SplitAt rewrite the list at the position that the search finds.
rewrite_at : List LiveRange → ℕ → ℕ → LiveRange → ℕ × List LiveRange
rewrite_at rs pos p r =
    if ltb r.begin p
    then (pos + 1, insert_at (set rs pos (range r.begin p)) (pos + 1) (range p r.end))
    else (pos, set rs pos (range p r.end))

rewrite_at-cons :
    (x : LiveRange) (rs : List LiveRange) (pos p : ℕ) (r : LiveRange)
    → rewrite_at (x ∷ rs) (suc pos) p r
      ≡ (suc (rewrite_at rs pos p r).0, x ∷ (rewrite_at rs pos p r).1)
unfolding rewrite_at insert_at
rewrite_at-cons x rs pos p r = simp add-one (ground arith)

find_covering-split :
    (p : ℕ) (lo : ℕ) (rs : List LiveRange)
    → Ordered lo rs
    → find_covering rs p < length rs
    → (r : LiveRange) × (get_elem? rs (find_covering rs p) ≡ some r)
      × (p < r.end)
      × (r.end < u32_mod)
      × (rewrite_at rs (find_covering rs p) p r ≡ (split_position p rs, split_ranges p rs))
unfolding find_covering split_ranges split_position
find_covering-split p lo [] o h = elim h [ ]
find_covering-split p lo (r ∷ rs) o h = elim (Bool-cases (leb p r.begin || ltb p r.end)) [
  | inl here ↦ (
    r,
    ground arith,
    ground arith,
    o.2,
    unfold rewrite_at insert_at in simp add-one (ground arith),
  )
  | inr later ↦
      let (s, e, lt, fits, same) = find_covering-split p r.end rs o.3 (ground arith) in
      (s, rw later e, lt, fits, rw (later, rewrite_at-cons, same) (ground arith))
]

-- The last range decides which case of FindRangeCoveringOrAfter is taken.
record Last (p : ℕ) (rs : List LiveRange) (z : LiveRange) : Type 0 where
  found : back rs ≡ ok z
  past : z.end ≤ p → split_ranges p rs ≡ rs ++ range p (p + 2) ∷ []
  past_position : z.end ≤ p → split_position p rs ≡ length rs
  inside : p < z.end → find_covering rs p < length rs
  order : (r : LiveRange) (tail : List LiveRange) → rs ≡ r ∷ tail → r.end ≤ z.end

back-Last :
    (p lo : ℕ) (r : LiveRange) (rs : List LiveRange)
    → Ordered lo (r ∷ rs)
    → (z : LiveRange) × Last p (r ∷ rs) z
unfolding back split_ranges split_position find_covering
back-Last p lo r [] o = (
  r,
  record {
    found = refl;
    past = λ h. ground arith;
    past_position = λ h. ground arith;
    inside = λ h. ground arith;
    order = λ s t e. ground arith;
  },
)
back-Last p lo r (s ∷ rs) o =
    let (z, l) = back-Last p r.end s rs o.3 in
    let le : s.end ≤ z.end = l.order s rs refl in
    (
      z,
      record {
        found = l.found;
        past = λ h. ground (arith, l.past h);
        past_position = λ h. ground (arith, l.past_position h);
        inside = λ h. ground (arith, l.inside h);
        order = λ t u e. ground arith;
      },
    )

cut_range-eq :
    (i : LiveInterval) (pos p : ℕ) (r : LiveRange)
    → get_elem? i.intervals pos ≡ some r
    → p < r.end
    → r.end < u32_mod
    → cut_range i pos p
      ≡ ok (
        (rewrite_at i.intervals pos p r).0,
        record i { intervals = (rewrite_at i.intervals pos p r).1 },
      )
unfolding cut_range rewrite_at
cut_range-eq i pos p r e lt fits = ground arith

rewrite_at-last :
    (rs : List LiveRange) (p e : ℕ)
    → rewrite_at (rs ++ range p e ∷ []) (length rs) p (range p e)
      ≡ (length rs, rs ++ range p e ∷ [])
unfolding rewrite_at
rewrite_at-last [] p e = ground arith
rewrite_at-last (r ∷ rs) p e = ground (arith, rewrite_at-last rs p e)

module _ (i : LiveInterval) (p lo : ℕ) (r : LiveRange) (rs : List LiveRange) where
  find_past :
      (z : LiveRange)
      → back (r ∷ rs) ≡ ok z
      → r.begin ≤ p
      → p + 2 < u32_mod
      → z.end ≤ p
      → find_range_covering_or_after (record i { intervals = r ∷ rs }) p
        ≡ ok (length (r ∷ rs), record i { intervals = (r ∷ rs) ++ range p (p + 2) ∷ [] })
  unfolding find_range_covering_or_after
  find_past z e le fits h = let wrap : (p + 2) % u32_mod ≡ p + 2 = omega arith in ground arith

  find_inside :
      (z : LiveRange)
      → back (r ∷ rs) ≡ ok z
      → r.begin ≤ p
      → p < z.end
      → find_range_covering_or_after (record i { intervals = r ∷ rs }) p
        ≡ ok (find_covering (r ∷ rs) p, record i { intervals = r ∷ rs })
  unfolding find_range_covering_or_after
  find_inside z e le h = ground arith

  split_at-cons :
      Ordered lo (r ∷ rs)
      → r.begin ≤ p
      → p + 2 < u32_mod
      → split_at (record i { intervals = r ∷ rs }) p
        ≡ ok (split_position p (r ∷ rs), record i { intervals = split_ranges p (r ∷ rs) })
  unfolding split_at
  split_at-cons o le fits =
      let (z, l) = back-Last p lo r rs o in
      elim (dec_lt p z.end) [
        | yes h ↦
            let (s, e, lt, bound, same) = find_covering-split p lo (r ∷ rs) o (l.inside h) in
            rw (find_inside z l.found le h) (
              cut_range-eq (record i { intervals = r ∷ rs }) (find_covering (r ∷ rs) p) p s e lt
                bound
              ∙ rw same)
        | no h ↦ rw (find_past z l.found le fits (omega arith)) (
            cut_range-eq (record i { intervals = (r ∷ rs) ++ range p (p + 2) ∷ [] })
              (length (r ∷ rs)) p (range p (p + 2)) (get_elem?-append_last (r ∷ rs) _) (omega arith)
              fits
            ∙ rw (
              rewrite_at-last (r ∷ rs) p (p + 2),
              l.past (omega arith),
              l.past_position (omega arith),
            ))
      ]

-- For an interval with ordered ranges that begins at or before the split point, and a split point
-- below 2^32 - 2, SplitAt succeeds and gives the ranges of a one-pass reference and the position
-- of the range that begins at the point.
pub split_at-eq :
    (i : LiveInterval) (p lo first : ℕ)
    → Ordered lo i.intervals
    → startpoint i ≡ ok first
    → first ≤ p
    → p + 2 < u32_mod
    → split_at i p
      ≡ ok (split_position p i.intervals, record i { intervals = split_ranges p i.intervals })
unfolding startpoint
split_at-eq i p lo first o st le fits = elim (List-cases i.intervals) [
  | inl empty ↦ ground arith
  | inr (r, rs, e) ↦ ground (arith, split_at-cons i p lo r rs)
]
