-- ===== src/Jit/Liveness/Fill/Union.antt =====
-- The rounds of FillIntervals of jit/ir/graph/analyses/liveness.h end, with the points of the ranges.
use k3s_virtual_machine.Base.{
  ℕ, zero, suc, ◌+◌, ◌≤◌, ◌<◌, ◌≡◌, refl, sym, ap, ◌∙◌, subst, inl, inr, Bool, true, false, ◌||◌,
  List, [], ◌∷◌, ◌++◌, arith, ltb, leb, Bool-cases, length, if◌then◌else◌, All, Outcome, ok,
  Settles, Settles-bind, Settles-assert,
}
use k3s_virtual_machine.Jit.LiveInterval.{
  LiveInterval, LiveRange, range, endpoint, append_after_hole,
}
use k3s_virtual_machine.Jit.LiveInterval.Split.{Ordered}
use k3s_virtual_machine.Jit.LiveInterval.Coverage.{covers}
use k3s_virtual_machine.Jit.Liveness.Fill.{
  Filling, Round, again, done, skip_ranges, skip_loops, fill_loop, fill_hole, fill_merge,
  fill_round, fill_rounds, begins_before, begins_behind,
}
use k3s_virtual_machine.Jit.Liveness.Fill.Rounds.{
  with_last, back-snoc, extend_active-last, endpoint-last, within, skip_ranges-covers,
  skip_ranges-Ordered, absorb-IsAbsorbed, merge_ranges-IsMerged,
}

-- The points of the interval so far and of the ranges that are left.
abbrev pub taken : List LiveRange → ℕ → ℕ → List LiveRange → ℕ → Bool
taken before b e rs q = covers before q || (within b e q || covers rs q)

-- A loop range begins at a point of the ranges.
abbrev pub BeginsIn : (ℕ → Bool) → LiveRange → Type 0
BeginsIn points l = (l.begin < l.end) × (points l.begin ≡ true)

BeginsIn-more :
    (p p' : ℕ → Bool) (ls : List LiveRange)
    → ((q : ℕ) → p q ≡ true → p' q ≡ true)
    → All (BeginsIn p) ls
    → All (BeginsIn p') ls
BeginsIn-more p p' [] f a = tt
BeginsIn-more p p' (l ∷ ls) f ((less, at_l), a) =
    ((less, f l.begin at_l), BeginsIn-more p p' ls f a)

covers-append :
    (xs ys : List LiveRange) (q : ℕ) → covers (xs ++ ys) q ≡ (covers xs q || covers ys q)
covers-append [] ys q = refl
covers-append (x ∷ xs) ys q = ground (arith, covers-append xs ys q)

-- The state of the loop, with the points that it is to cover.
pub record IsFilling (total : ℕ → Bool) (before : List LiveRange) (b e : ℕ) (rs ls : List LiveRange)
    : Type 0 where
  pub some_points : b < e
  pub behind : (q : ℕ) → covers before q ≡ true → q < b
  pub sorted : Ordered e rs
  pub loops : All (BeginsIn (taken before b e rs)) ls
  pub union : (q : ℕ) → (taken before b e rs q || covers ls q) ≡ total q

-- A loop range that is covered takes one round, another one two.
abbrev covered_first : List LiveRange → ℕ → ℕ
covered_first [] e = 0
covered_first (l ∷ ls) e = if leb l.end e then 1 else 0

abbrev pub Enough : ℕ → List LiveRange → List LiveRange → ℕ → Type 0
Enough n rs ls e = length rs + (length ls + length ls) < n + covered_first ls e

skip_loops_self :
    (l : LiveRange) (ls : List LiveRange) → skip_loops (l ∷ ls) l.begin l.end ≡ ok (l ∷ ls)
unfolding skip_loops
skip_loops_self l ls = let stays : ltb l.end l.end ≡ false = ground arith in rw stays refl

module _ (total : ℕ → Bool) (i : LiveInterval) where
  -- What a round leads to, with rounds left for what is to come.
  abbrev pub Fits : ℕ → Round → Type 0
  Fits n (again s) =
      (before : List LiveRange) × (b : ℕ) × (e : ℕ) × (s.interval ≡ with_last i before b e)
      × IsFilling total before b e s.ranges s.loops
      × Enough n s.ranges s.loops e
  Fits n (done j) = (q : ℕ) → covers j.intervals q ≡ total q

  fill_loop-Fits :
      (n : ℕ) (before : List LiveRange) (b e : ℕ) (rs : List LiveRange) (l : LiveRange)
      (ls : List LiveRange)
      → IsFilling total before b e rs (l ∷ ls)
      → l.begin ≤ e
      → Enough (suc n) rs (l ∷ ls) e
      → Settles (Fits n) (fill_loop (with_last i before b e) rs l ls)
  unfolding fill_loop
  fill_loop-Fits n before b e rs l ls h meets enough = rw (back-snoc before (range b e)) (
      Settles-assert (Fits n) (ltb b l.begin) _ (λ later. elim (Bool-cases (leb l.end e)) [
        | inl inside ↦ rw inside (
          before,
          b,
          e,
          refl,
          record {
            some_points = h.some_points;
            behind = h.behind;
            sorted = h.sorted;
            loops = h.loops.1;
            union = λ q. ground (arith, h.union q);
          },
          let big : length rs + (suc (length ls) + suc (length ls)) < suc n + 1 =
                rw inside at enough in
              omega (arith, big),
        )
        | inr outside ↦
            let past : e < l.end = ground arith in
            let small : length rs + (suc (length ls) + suc (length ls)) < suc n + 0 =
              rw outside at enough in
            let (sorted, ends, fewer) = skip_ranges-Ordered rs e l.end h.sorted in
            let (i', rs', returns, a) =
              absorb-IsAbsorbed i before b l.end e (skip_ranges rs l.end) sorted
                (omega (arith, h.some_points)) ends in
            let same : (q : ℕ)
                → (within b a.end q || covers rs' q) ≡ (within b l.end q || covers rs q) =
              λ q.
                a.same q
                ∙ skip_ranges-covers rs b e l.end q h.sorted (omega (arith, h.some_points)) in
            let more : (q : ℕ) → taken before b e rs q ≡ true → taken before b a.end rs' q ≡ true =
              λ q t. rw (same q) (ground (arith, t)) in
            rw
              (
                outside,
                extend_active-last i before b e l.end (omega (arith, past)),
                returns,
                skip_loops_self l ls,
              )
              (
                before,
                b,
                a.end,
                a.shape,
                record {
                  some_points = omega (arith, h.some_points, past, a.grows);
                  behind = h.behind;
                  sorted = a.sorted;
                  loops =
                      BeginsIn-more (taken before b e rs) (taken before b a.end rs') (l ∷ ls) more
                        h.loops;
                  union = λ q. rw (same q) (ground (arith, h.union q));
                },
                let covered : leb l.end a.end ≡ true = ground (arith, a.grows) in
                    rw covered (omega (arith, small, fewer, a.fewer)),
              )
      ]))

  -- The loop that is next begins behind the interval.
  abbrev pub BeginsPast : ℕ → List LiveRange → Type 0
  BeginsPast e [] = Unit
  BeginsPast e (l ∷ ls) = e < l.begin

  not_covered :
      (p : ℕ → Bool) (e : ℕ) (ls : List LiveRange)
      → BeginsPast e ls
      → All (BeginsIn p) ls
      → covered_first ls e ≡ 0
  not_covered p e [] past a = refl
  not_covered p e (l ∷ ls) past a =
      let out : leb l.end e ≡ false = ground (arith, a.0.0) in rw out refl

  -- At the end no loop range is left.
  no_loops :
      (before : List LiveRange) (b e : ℕ) (ls : List LiveRange)
      → IsFilling total before b e [] ls
      → begins_before ls e ≡ false
      → ls ≡ []
  no_loops before b e [] h past = refl
  no_loops before b e (l ∷ ls) h past =
      let at_l : taken before b e [] l.begin ≡ true = h.loops.0.1 in
      elim (Bool-cases (covers before l.begin)) [
        | inl c ↦
            let near = h.behind l.begin c in absurd (ground (arith, near, past, h.some_points))
        | inr c ↦ absurd (ground (arith, at_l, c, past))
      ]

  meets_nothing : (e : ℕ) (ls : List LiveRange) → BeginsPast e ls → begins_before ls e ≡ true → ⊥
  meets_nothing e [] past meets = cc
  meets_nothing e (l ∷ ls) past meets = ground arith

  fill_hole-Fits :
      (n : ℕ) (before : List LiveRange) (b e : ℕ) (j : LiveInterval) (rs ls : List LiveRange)
      → j ≡ with_last i before b e
      → IsFilling total before b e rs ls
      → begins_before ls e ≡ false
      → length rs + (length ls + length ls) < suc n
      → Settles (Fits n) (fill_hole j e rs ls)
  unfolding fill_hole append_after_hole
  fill_hole-Fits n before b e j [] ls shape h apart small = λ q.
      let none_left = no_loops before b e ls h apart in
      let all : (taken before b e [] q || covers [] q) ≡ total q =
        subst (λ k. (taken before b e [] q || covers k q) ≡ total q) none_left (h.union q) in
      ap (λ k. covers k.intervals q) shape
      ∙ (covers-append before (range b e ∷ []) q ∙ ground (arith, all))
  fill_hole-Fits n before b e j (r ∷ rs) ls shape h apart small =
      Settles-assert (Fits n) (ltb e r.begin) _ (λ hole.
        Settles-assert (Fits n) (begins_behind ls r.begin) _ (λ later.
          let before' = before ++ range b e ∷ [] in
          let same : (q : ℕ) → taken before' r.begin r.end rs q ≡ taken before b e (r ∷ rs) q =
            λ q. ground (arith, covers-append before (range b e ∷ []) q) in
          (
            before',
            r.begin,
            r.end,
            ap (λ k. append_after_hole k r) shape,
            record {
              some_points = h.sorted.1;
              behind = λ q c. elim (Bool-cases (covers before q)) [
                | inl at_q ↦
                    let near = h.behind q at_q in omega (arith, near, h.some_points, h.sorted.0)
                | inr off ↦
                    let split : (covers before q || (within b e q || false)) ≡ true =
                      sym (covers-append before (range b e ∷ []) q) ∙ c in
                    ground (arith, split, off, h.sorted.0)
              ];
              sorted = h.sorted.3;
              loops =
                  BeginsIn-more (taken before b e (r ∷ rs)) (taken before' r.begin r.end rs) ls
                    (λ q t. same q ∙ t) h.loops;
              union = λ q. rw (same q) (h.union q);
            },
            omega (arith, small),
          )))

  fill_merge-Fits :
      (n : ℕ) (before : List LiveRange) (b e : ℕ) (rs ls : List LiveRange)
      → IsFilling total before b e rs ls
      → BeginsPast e ls
      → Enough (suc n) rs ls e
      → Settles (Fits n) (fill_merge (with_last i before b e) rs ls)
  unfolding fill_merge
  fill_merge-Fits n before b e rs ls h past enough =
      let (i', rs', returns, m) = merge_ranges-IsMerged rs i before b e h.sorted h.some_points in
      let small : length rs + (length ls + length ls) < suc n + 0 =
        rw (not_covered (taken before b e rs) e ls past h.loops) at enough in
      let less : b < m.end = elim m.grows [
        | inl g ↦ omega (arith, h.some_points, g)
        | inr (g, k) ↦ omega (arith, h.some_points, g)
      ] in
      let merged : IsFilling total before b m.end rs' ls = record {
        some_points = less;
        behind = h.behind;
        sorted = m.sorted;
        loops =
            BeginsIn-more (taken before b e rs) (taken before b m.end rs') ls
              (λ q t. rw (m.same q) t) h.loops;
        union = λ q. rw (m.same q) (h.union q);
      } in
      let at_end : endpoint i' ≡ ok m.end =
        ap (λ j. endpoint j) m.shape ∙ endpoint-last i before b m.end in
      rw (returns, at_end)
        (elim (Bool-cases (begins_before ls m.end)) [
          | inl meets ↦
              let grown : length rs' < length rs = elim m.grows [
                | inl g ↦
                    elim (meets_nothing m.end ls (subst (λ x. BeginsPast x ls) g past) meets) [ ]
                | inr (g, k) ↦ k
              ] in
              rw meets (before, b, m.end, m.shape, merged, omega (arith, small, grown))
          | inr apart ↦ rw apart (
              fill_hole-Fits n before b m.end i' rs' ls m.shape merged apart
                (omega (arith, small, m.fewer)))
        ])

  fill_round-Fits :
      (n : ℕ) (before : List LiveRange) (b e : ℕ) (rs ls : List LiveRange)
      → IsFilling total before b e rs ls
      → Enough (suc n) rs ls e
      → Settles
          (Fits n)
          (fill_round (record { interval = with_last i before b e; ranges = rs; loops = ls }))
  unfolding fill_round
  fill_round-Fits n before b e rs [] h enough = fill_merge-Fits n before b e rs [] h tt enough
  fill_round-Fits n before b e rs (l ∷ ls) h enough = elim (Bool-cases (leb l.begin e)) [
    | inl meets ↦
        rw (endpoint-last i before b e, meets)
          (fill_loop-Fits n before b e rs l ls h (ground arith) enough)
    | inr apart ↦
        rw (endpoint-last i before b e, apart)
          (fill_merge-Fits n before b e rs (l ∷ ls) h (ground arith) enough)
  ]

  abbrev pub IsUnion : LiveInterval → Type 0
  IsUnion j = (q : ℕ) → covers j.intervals q ≡ total q

  -- `next` covers the points from any state with enough rounds.
  abbrev Goes : ℕ → (Filling → Outcome LiveInterval) → Type 0
  Goes n next =
      (before : List LiveRange) (b e : ℕ) (rs ls : List LiveRange) (s : Filling)
      → s ≡ record { interval = with_last i before b e; ranges = rs; loops = ls }
      → IsFilling total before b e rs ls
      → Enough n rs ls e
      → Settles IsUnion (next s)

  go_on :
      (n : ℕ) (next : Filling → Outcome LiveInterval) (r : Round)
      → Goes n next
      → Fits n r
      → Settles IsUnion (elim r [ done j ↦ ok j | again t ↦ next t ])
  go_on n next (done j) goes f = f
  go_on n next (again t) goes (before, b, e, shape, h, enough) =
      goes before b e t.ranges t.loops t (ap (λ x. record t { interval = x }) shape) h enough

  pub fill_rounds-covers : (n : ℕ) → Goes n (fill_rounds n)
  unfolding fill_rounds
  fill_rounds-covers zero before b e rs [] s at_s h enough = absurd (omega (arith, enough))
  fill_rounds-covers zero before b e rs (l ∷ ls) s at_s h enough = absurd (ground (arith, enough))
  fill_rounds-covers (suc n) before b e rs ls s at_s h enough =
      Settles-bind (Fits n) IsUnion (fill_round s) _
        (subst (λ x. Settles (Fits n) (fill_round x)) (sym at_s)
          (fill_round-Fits n before b e rs ls h enough))
        (λ r f. go_on n (fill_rounds n) r (fill_rounds-covers n) f)
