-- ===== src/Jit/Liveness/Fill/Intervals.antt =====
-- FillIntervals of jit/ir/graph/analyses/liveness.h: an interval has the points of its ranges and loops.
use k3s_virtual_machine.Base.{Bool, ◌>>=◌}
use k3s_virtual_machine.Jit.LiveInterval.{LiveInterval}

abbrev Any : Bool → Type 0
Any b = Unit
