-- ===== src/Jit/Liveness/Fill/Tests.antt =====
-- Tests of FillIntervals of jit/ir/graph/analyses/liveness.h: a value that is live in two parts of a
-- program, the second of which enters a loop.
use k3s_virtual_machine.Base.{◌≡◌, refl, List, [], ◌∷◌, ok, Outcome, ◌>>=◌}
use k3s_virtual_machine.Jit.LiveInterval.{
  LiveRange, range, new_interval, back, update_back, prolong, endpoint, extend_active,
  append_after_hole, check_intervals, check_from,
}
use k3s_virtual_machine.Jit.Liveness.Fill.{
  check_sorted, check_loops, check_ranges, fill_interval, fill_rounds, fill_round, fill_loop,
  fill_merge, fill_hole, merge_ranges, skip_ranges, skip_loops, absorb,
}

abbrev parts : List LiveRange
parts = range 2 4 ∷ range 4 6 ∷ range 10 14 ∷ range 16 18 ∷ []

abbrev around : List LiveRange
around = range 12 20 ∷ []

filled : Outcome (List LiveRange)
filled = do i ← fill_interval 6 (record { ranges = parts; loop_ranges = around }); ok i.intervals

-- The two first ranges are one, and the loop fills the hole before the last one.
filled_value : filled ≡ ok (range 2 6 ∷ range 10 20 ∷ [])
unfolding filled fill_interval fill_rounds fill_round fill_loop fill_merge fill_hole merge_ranges
    skip_ranges skip_loops absorb check_ranges check_sorted check_loops new_interval back
    update_back prolong endpoint extend_active append_after_hole check_intervals check_from
filled_value = refl
