-- ===== src/Jit/Liveness/Fill.antt =====
-- From life ranges to live intervals: CheckRanges, FillIntervals and FillIntervalUsepoints of
-- jit/ir/graph/analyses/liveness.h.
pub mod Rounds
pub mod Union
pub mod Intervals
mod Tests
use k3s_virtual_machine.Base.{
  ℕ, zero, suc, ◌+◌, ◌-◌, ◌%◌, Bool, true, false, ◌&&◌, ◌||◌, not, Option, none, some, List, [],
  ◌∷◌, ◌++◌, Outcome, ok, err, ◌>>=◌, ◌>>◌, guard, from_option, assertion, undefined, out_of_fuel,
  ltb, leb, ◌==◌, if◌then◌else◌, u32_mod, update, length, get_elem?, set,
}
use k3s_virtual_machine.Jit.Graph.{Ir, Inst, User, load_inst}
use k3s_virtual_machine.Jit.Graph.Users.{get_next}
use k3s_virtual_machine.Jit.LiveInterval.{
  LiveRange, LiveInterval, new_interval, back, endpoint, extend_active, append_after_hole,
  check_intervals, set_usepoints,
}
use k3s_virtual_machine.Jit.Liveness.{LiveRanges}

unfoldable pub check_sorted : LiveRange → List LiveRange → Outcome Bool
check_sorted range1 [] = ok true
check_sorted range1 (range2 ∷ rs) = do
  guard (ltb range1.begin range1.end) assertion
  guard (ltb range2.begin range2.end) assertion
  guard (leb range1.end range2.begin) assertion
  check_sorted range2 rs

-- The last test is written as it stands: it compares the end of the second range with itself.
unfoldable pub check_loops : LiveRange → List LiveRange → Outcome Bool
check_loops range1 [] = ok true
check_loops range1 (range2 ∷ rs) = do
  guard (ltb range1.begin range1.end) assertion
  guard (ltb range2.begin range2.end) assertion
  guard
      (leb range1.end range2.begin || (leb range1.begin range2.begin && leb range2.end range2.end))
      assertion
  check_loops range2 rs

unfoldable pub check_ranges : LiveRanges → Outcome Bool
check_ranges l = elim l.ranges [
  | [] ↦ err assertion
  | r ∷ rs ↦ (do
    sorted ← check_sorted r rs
    elim l.loop_ranges [ [] ↦ ok true | k ∷ ks ↦ check_loops k ks ])
]

-- The places of the loop of `FillIntervals`: the interval and the ranges and loop ranges that are left.
pub record Filling : Type 0 where
  pub interval : LiveInterval
  pub ranges : List LiveRange
  pub loops : List LiveRange

pub data Round : Type 0 where
  again : Filling → Round
  done : LiveInterval → Round

-- The ranges that end inside the loop are skipped.
unfoldable pub skip_ranges : List LiveRange → ℕ → List LiveRange
skip_ranges [] loop_end = []
skip_ranges (r ∷ rs) loop_end =
    let rest = skip_ranges rs loop_end in if ltb r.end loop_end then rest else r ∷ rs

-- The nested loops are skipped, from the loop itself on.
unfoldable pub skip_loops : List LiveRange → ℕ → ℕ → Outcome (List LiveRange)
skip_loops [] loop_begin loop_end = ok []
skip_loops (l ∷ ls) loop_begin loop_end =
    let rest = skip_loops ls loop_begin loop_end in
    if ltb l.end loop_end then guard (leb loop_begin l.begin) assertion >> rest else ok (l ∷ ls)

-- A range that begins in the loop and ends behind it prolongs the interval.
unfoldable pub absorb : LiveInterval → List LiveRange → ℕ → Outcome (LiveInterval × List LiveRange)
absorb i [] loop_end = ok (i, [])
absorb i (r ∷ rs) loop_end =
    if leb r.begin loop_end then (do i' ← extend_active i r.end; ok (i', rs)) else ok (i, r ∷ rs)

-- Case 1: the loop intersects the interval.
unfoldable pub fill_loop :
    LiveInterval → List LiveRange → LiveRange → List LiveRange → Outcome Round
fill_loop i rs l ls = do
  current ← back i.intervals
  guard (ltb current.begin l.begin) assertion
  if leb l.end current.end
      then ok (again (record { interval = i; ranges = rs; loops = ls }))
      else (do
        i1 ← extend_active i l.end
        (i2, rs2) ← absorb i1 (skip_ranges rs l.end) l.end
        ls2 ← skip_loops (l ∷ ls) l.begin l.end
        ok (again (record { interval = i2; ranges = rs2; loops = ls2 })))

-- Case 2: the ranges that begin where the interval ends.
unfoldable pub merge_ranges :
    LiveInterval → List LiveRange → Outcome (LiveInterval × List LiveRange)
merge_ranges i [] = ok (i, [])
merge_ranges i (r ∷ rs) = do
  end ← endpoint i
  if end == r.begin then (do i' ← extend_active i r.end; merge_ranges i' rs) else ok (i, r ∷ rs)

abbrev pub begins_before : List LiveRange → ℕ → Bool
begins_before [] end = false
begins_before (l ∷ ls) end = ltb l.begin end

abbrev pub begins_behind : List LiveRange → ℕ → Bool
begins_behind [] begin = true
begins_behind (l ∷ ls) begin = ltb begin l.begin

-- A new range begins behind a hole, or there is none.
unfoldable pub fill_hole : LiveInterval → ℕ → List LiveRange → List LiveRange → Outcome Round
fill_hole i end [] ls = ok (done i)
fill_hole i end (r ∷ rs) ls = do
  guard (ltb end r.begin) assertion
  guard (begins_behind ls r.begin) assertion
  ok (again (record { interval = append_after_hole i r; ranges = rs; loops = ls }))

unfoldable pub fill_merge : LiveInterval → List LiveRange → List LiveRange → Outcome Round
fill_merge i rs ls = do
  (i1, rs1) ← merge_ranges i rs
  end ← endpoint i1
  if begins_before ls end
      then ok (again (record { interval = i1; ranges = rs1; loops = ls }))
      else fill_hole i1 end rs1 ls

-- The body of the `while (true)`.
unfoldable pub fill_round : Filling → Outcome Round
fill_round s = elim s.loops [
  | [] ↦ fill_merge s.interval s.ranges []
  | l ∷ ls ↦ (do
    end ← endpoint s.interval
    if leb l.begin end
        then fill_loop s.interval s.ranges l ls
        else fill_merge s.interval s.ranges (l ∷ ls))
]

unfoldable pub fill_rounds : ℕ → Filling → Outcome LiveInterval
fill_rounds zero s = err out_of_fuel
fill_rounds (suc n) s = do r ← fill_round s; elim r [ done i ↦ ok i | again s' ↦ fill_rounds n s' ]

-- The body of `FillIntervals` for one instruction.
unfoldable pub fill_interval : ℕ → LiveRanges → Outcome LiveInterval
fill_interval n l = do
  fine ← check_ranges l
  guard fine assertion
  elim l.ranges [
    | [] ↦ err undefined
    | r ∷ rs ↦ (do
      i ← fill_rounds n (record { interval = new_interval r; ranges = rs; loops = l.loop_ranges })
      valid ← check_intervals i
      guard valid assertion
      ok i)
  ]

-- An ordered set of numbers.
unfoldable pub insert_point : ℕ → List ℕ → List ℕ
insert_point p [] = p ∷ []
insert_point p (x ∷ xs) =
    let rest = insert_point p xs in
    if ltb p x then p ∷ x ∷ xs else (if p == x then x ∷ xs else x ∷ rest)

-- The walk along the users of `FillIntervalUsepoints`.
unfoldable pub collect_use_points : ℕ → Ir → Option User → List ℕ → Outcome (List ℕ)
collect_use_points n ir none points = ok points
collect_use_points zero ir (some u) points = err out_of_fuel
collect_use_points (suc n) ir (some u) points = do
  o ← load_inst ir u.inst
  next ← get_next ir u
  collect_use_points n ir next (insert_point o.ln points)

unfoldable pub fill_interval_usepoints : ℕ → Ir → ℕ → LiveInterval → Outcome LiveInterval
fill_interval_usepoints n ir i interval = do
  o ← load_inst ir i
  points ← collect_use_points n ir o.first_user []
  ok (set_usepoints interval points)

-- `FillIntervals` over the instructions that have ranges, in some order.
unfoldable pub fill_intervals :
    ℕ
    → Ir
    → (ℕ → LiveRanges)
    → List ℕ
    → (ℕ → Option LiveInterval)
    → Outcome (ℕ → Option LiveInterval)
fill_intervals n ir ranges [] intervals = ok intervals
fill_intervals n ir ranges (i ∷ rest) intervals = do
  guard (elim (intervals i) [ none ↦ true | some old ↦ false ]) assertion
  v ← fill_interval n (ranges i)
  v' ← fill_interval_usepoints n ir i v
  fill_intervals n ir ranges rest (update intervals i (some v'))
