-- ===== src/Jit/Liveness/Fill/Rounds.antt =====
-- The parts of a round of FillIntervals of jit/ir/graph/analyses/liveness.h, and the points that they
-- cover.
use k3s_virtual_machine.Base.{
  ℕ, ◌≤◌, ◌<◌, ◌≡◌, refl, ◌∙◌, ◌⊎◌, inl, inr, Bool, true, ◌&&◌, ◌||◌, List, [], ◌∷◌, ◌++◌, arith,
  ◌==◌, ==_iff, ltb, leb, Bool-cases, length, ok,
}
use k3s_virtual_machine.Jit.LiveInterval.{
  LiveInterval, LiveRange, range, back, update_back, prolong, endpoint, extend_active,
}
use k3s_virtual_machine.Jit.LiveInterval.Split.{Ordered}
use k3s_virtual_machine.Jit.LiveInterval.Coverage.{covers}
use k3s_virtual_machine.Jit.Liveness.Fill.{skip_ranges, absorb, merge_ranges}

-- The interval whose current range is the last one.
abbrev pub with_last : LiveInterval → List LiveRange → ℕ → ℕ → LiveInterval
with_last i before b e = record i { intervals = before ++ range b e ∷ [] }

pub back-snoc : (before : List LiveRange) (c : LiveRange) → back (before ++ c ∷ []) ≡ ok c
unfolding back
back-snoc [] c = refl
back-snoc (x ∷ []) c = refl
back-snoc (x ∷ y ∷ l) c = back-snoc (y ∷ l) c

update_back-snoc :
    (before : List LiveRange) (b e e' : ℕ)
    → e ≤ e'
    → update_back (λ r. prolong r e') (before ++ range b e ∷ []) ≡ ok (before ++ range b e' ∷ [])
unfolding update_back prolong
update_back-snoc [] b e e' le = let fits : leb e e' ≡ true = ground arith in rw fits refl
update_back-snoc (x ∷ []) b e e' le = let fits : leb e e' ≡ true = ground arith in rw fits refl
update_back-snoc (x ∷ y ∷ l) b e e' le = rw (update_back-snoc (y ∷ l) b e e' le) refl

pub extend_active-last :
    (i : LiveInterval) (before : List LiveRange) (b e e' : ℕ)
    → e ≤ e'
    → extend_active (with_last i before b e) e' ≡ ok (with_last i before b e')
unfolding extend_active
extend_active-last i before b e e' le = rw (update_back-snoc before b e e' le) refl

pub endpoint-last :
    (i : LiveInterval) (before : List LiveRange) (b e : ℕ)
    → endpoint (with_last i before b e) ≡ ok e
unfolding endpoint
endpoint-last i before b e = rw (back-snoc before (range b e)) refl

abbrev pub within : ℕ → ℕ → ℕ → Bool
within b e q = leb b q && ltb q e

-- The points of a range that grows and of the ranges behind it.
pub skip_ranges-covers :
    (rs : List LiveRange) (b lo end q : ℕ)
    → Ordered lo rs
    → b ≤ lo
    → (within b end q || covers (skip_ranges rs end) q) ≡ (within b end q || covers rs q)
unfolding skip_ranges
skip_ranges-covers [] b lo end q o le = refl
skip_ranges-covers (r ∷ rs) b lo end q o le =
    ground (arith, skip_ranges-covers rs b r.end end q o.3)

-- What is left after a skip: the ranges are in order and the first one ends no earlier.
abbrev pub EndsFrom : ℕ → List LiveRange → Type 0
EndsFrom end [] = Unit
EndsFrom end (r ∷ rs) = end ≤ r.end

Ordered-lower : (lo mid : ℕ) (rs : List LiveRange) → lo ≤ mid → Ordered mid rs → Ordered lo rs
Ordered-lower lo mid [] le o = tt
Ordered-lower lo mid (r ∷ rs) le o = (omega (arith, o.0), o.1, o.2, o.3)

pub skip_ranges-Ordered :
    (rs : List LiveRange) (lo end : ℕ)
    → Ordered lo rs
    → Ordered lo (skip_ranges rs end)
      × EndsFrom end (skip_ranges rs end)
      × (length (skip_ranges rs end) ≤ length rs)
unfolding skip_ranges
skip_ranges-Ordered [] lo end o = (tt, tt, omega arith)
skip_ranges-Ordered (r ∷ rs) lo end o = elim (Bool-cases (ltb r.end end)) [
  | inl e ↦
      let (sorted, ends, fewer) = skip_ranges-Ordered rs r.end end o.3 in
      rw e (
        Ordered-lower lo r.end (skip_ranges rs end) (omega (arith, o.0, o.1)) sorted,
        ends,
        omega (arith, fewer),
      )
  | inr e ↦ rw e (o, ground arith, omega arith)
]

-- What absorbing one range does.
pub record IsAbsorbed (i : LiveInterval) (before : List LiveRange) (b e : ℕ) (rs : List LiveRange)
    (i' : LiveInterval) (rs' : List LiveRange) : Type 0 where
  pub end : ℕ
  pub shape : i' ≡ with_last i before b end
  pub grows : e ≤ end
  pub sorted : Ordered end rs'
  pub fewer : length rs' ≤ length rs
  pub same : (q : ℕ) → (within b end q || covers rs' q) ≡ (within b e q || covers rs q)

pub absorb-IsAbsorbed :
    (i : LiveInterval) (before : List LiveRange) (b e lo : ℕ) (rs : List LiveRange)
    → Ordered lo rs
    → b ≤ lo
    → EndsFrom e rs
    → (i' : LiveInterval) × (rs' : List LiveRange) × (absorb (with_last i before b e) rs e
        ≡ ok (i', rs'))
      × IsAbsorbed i before b e rs i' rs'
unfolding absorb
absorb-IsAbsorbed i before b e lo [] o le ends = (
  with_last i before b e,
  [],
  refl,
  record {
    end = e;
    shape = refl;
    grows = omega arith;
    sorted = tt;
    fewer = omega arith;
    same = λ q. refl;
  },
)
absorb-IsAbsorbed i before b e lo (r ∷ rs) o le ends = elim (Bool-cases (leb r.begin e)) [
  | inl h ↦ (
    with_last i before b r.end,
    rs,
    rw (h, extend_active-last i before b e r.end ends) refl,
    record {
      end = r.end;
      shape = refl;
      grows = ends;
      sorted = o.3;
      fewer = omega arith;
      same = λ q. ground arith;
    },
  )
  | inr h ↦ (
    with_last i before b e,
    r ∷ rs,
    rw h refl,
    record {
      end = e;
      shape = refl;
      grows = omega arith;
      sorted = (ground arith, o.1, o.2, o.3);
      fewer = omega arith;
      same = λ q. refl;
    },
  )
]

-- What merging does: one range fewer at least, if the interval grows.
pub record IsMerged (i : LiveInterval) (before : List LiveRange) (b e : ℕ) (rs : List LiveRange)
    (i' : LiveInterval) (rs' : List LiveRange) : Type 0 where
  pub end : ℕ
  pub shape : i' ≡ with_last i before b end
  pub grows : (e ≡ end) ⊎ ((e < end) × (length rs' < length rs))
  pub sorted : Ordered end rs'
  pub fewer : length rs' ≤ length rs
  pub same : (q : ℕ) → (within b end q || covers rs' q) ≡ (within b e q || covers rs q)

pub merge_ranges-IsMerged :
    (rs : List LiveRange) (i : LiveInterval) (before : List LiveRange) (b e : ℕ)
    → Ordered e rs
    → b < e
    → (i' : LiveInterval) × (rs' : List LiveRange) × (merge_ranges (with_last i before b e) rs
        ≡ ok (i', rs'))
      × IsMerged i before b e rs i' rs'
unfolding merge_ranges
merge_ranges-IsMerged [] i before b e o less = (
  with_last i before b e,
  [],
  refl,
  record {
    end = e;
    shape = refl;
    grows = inl refl;
    sorted = tt;
    fewer = omega arith;
    same = λ q. refl;
  },
)
merge_ranges-IsMerged (r ∷ rs) i before b e o less = elim (Bool-cases (e == r.begin)) [
  | inr h ↦ (
    with_last i before b e,
    r ∷ rs,
    rw (endpoint-last i before b e, h) refl,
    record {
      end = e;
      shape = refl;
      grows = inl refl;
      sorted = o;
      fewer = omega arith;
      same = λ q. refl;
    },
  )
  | inl h ↦
      let meets : e ≡ r.begin = (==_iff e r.begin).0 h in
      let (i', rs', returns, m) =
        merge_ranges-IsMerged rs i before b r.end o.3 (omega (arith, meets)) in
      (
        i',
        rs',
        rw
            (
              endpoint-last i before b e,
              h,
              extend_active-last i before b e r.end (omega (arith, meets, o.1)),
            )
            returns,
        record {
          end = m.end;
          shape = m.shape;
          grows = inr (elim m.grows [
            | inl e' ↦ (omega (arith, e', meets), omega (arith, m.fewer))
            | inr (l, k) ↦ (omega (arith, l, meets), omega (arith, k))
          ]);
          sorted = m.sorted;
          fewer = omega (arith, m.fewer);
          same = λ q. m.same q ∙ ground (arith, o.0, o.1);
        },
      )
]
