-- ===== src/Jit/RegAlloc/Tests.antt =====
-- Tests of jit/ir/graph/analyses/reg_alloc.h: five values that are live together, of which one is spilled.
use k3s_virtual_machine.Base.{
  ℕ, ◌≡◌, refl, true, false, Option, none, some, List, [], ◌∷◌, Outcome, ok, ◌>>=◌, Ensures, arith,
  update,
}
use k3s_virtual_machine.Jit.LiveInterval.{
  LiveInterval, range, endpoint, startpoint, back, cut_range, find_covering,
  find_range_covering_or_after, insert_at, new_range, set_begin, set_end, set_usepoints, split_at,
}
use k3s_virtual_machine.Jit.RegAlloc.{
  Location, reg, slot, Step, allocate_registers, allocate_inst, expire_old_intervals, new_reg_alloc,
  fill_inputs, allocate_dst, allocate_free_reg, find_free, insert_active, set_from, insert_behind,
  spill_unused_and_activate, get_unused_interval_to_spill, find_unused, found_in_active,
  current_location, drop_expired, fill_input, get_reg, is_active, last_item, recycle, remove,
  set_rest, split,
}
use k3s_virtual_machine.Jit.RegAlloc.Registers.{IsApart}
use k3s_virtual_machine.Jit.RegAlloc.Allocation.{allocate_registers-IsApart}

abbrev live : ℕ → ℕ → List ℕ → Option LiveInterval
live b e uses = some (record { intervals = range b e ∷ []; use_points = uses })

-- Instructions 1 to 5 define a value at twice their number; 6 uses the first and the last one.
abbrev no_intervals : ℕ → Option LiveInterval
no_intervals i = none

abbrev intervals : ℕ → Option LiveInterval
intervals =
    update
      (update
        (update (update (update no_intervals 1 (live 2 12 (12 ∷ []))) 2 (live 4 20 (20 ∷ []))) 3
          (live 6 14 (14 ∷ [])))
        4 (live 8 16 (16 ∷ [])))
      5 (live 10 18 (12 ∷ []))

abbrev defines : ℕ → ℕ → Step
defines i ln = record { inst = i; ln = ln; phi = false; has_dst = true; inputs = [] }

abbrev steps : List Step
steps =
    defines 1 2
    ∷ defines 2 4
    ∷ defines 3 6
    ∷ defines 4 8
    ∷ defines 5 10
    ∷ record { inst = 6; ln = 12; phi = false; has_dst = false; inputs = 1 ∷ 5 ∷ [] }
    ∷ []

summary : Outcome (List ℕ × List (Option Location) × List (Option Location))
summary = do
  s ← allocate_registers (new_reg_alloc intervals) steps
  ok (s.active, s.locations 2, s.locations 5)

-- The second value has the furthest use, so it gives its register to the fifth and goes to a slot.
summary_value : summary ≡ ok (3 ∷ 4 ∷ 5 ∷ [], some (reg 1) ∷ some (slot 0) ∷ [], some (reg 1) ∷ [])
unfolding summary allocate_registers allocate_inst expire_old_intervals new_reg_alloc fill_inputs
    allocate_dst allocate_free_reg find_free insert_active set_from insert_behind
    spill_unused_and_activate get_unused_interval_to_spill find_unused found_in_active
    current_location drop_expired fill_input get_reg is_active last_item recycle remove set_rest
    split endpoint startpoint back cut_range find_covering find_range_covering_or_after insert_at
    new_range set_begin set_end set_usepoints split_at
summary_value = refl

allocate_registers-IsApart_example :
    Ensures
      (λ s. IsApart s.active s.busy_regs s.locations)
      (allocate_registers (new_reg_alloc intervals) steps)
allocate_registers-IsApart_example = allocate_registers-IsApart intervals steps (
  (
    (λ e. absurd (omega arith)),
    ((λ e. absurd (omega arith)), ((λ e. absurd (omega arith)), ((λ e. absurd (omega arith)), tt))),
  ),
  (
    ((λ e. absurd (omega arith)), ((λ e. absurd (omega arith)), ((λ e. absurd (omega arith)), tt))),
    (
      ((λ e. absurd (omega arith)), ((λ e. absurd (omega arith)), tt)),
      (((λ e. absurd (omega arith)), tt), (tt, tt)),
    ),
  ),
)
