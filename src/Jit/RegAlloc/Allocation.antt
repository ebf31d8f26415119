-- ===== src/Jit/RegAlloc/Allocation.antt =====
-- All of AllocateRegisters of jit/ir/graph/analyses/reg_alloc.h, from the constructor's state.
use k3s_virtual_machine.Base.{
  ℕ, suc, ◌≡◌, refl, ap, inl, inr, Bool-cases, Option, none, some, List, [], ◌∷◌, Option-cases,
  Distinct, length, Ensures, Ensures-bind, Ensures-map,
}
use k3s_virtual_machine.Jit.LiveInterval.{LiveInterval, LiveRange}
use k3s_virtual_machine.Jit.RegAlloc.{
  RegAlloc, Location, Step, last_item, allocate_inst, allocate_registers, new_reg_alloc,
  no_locations,
}
use k3s_virtual_machine.Jit.RegAlloc.Registers.{IsApart}
use k3s_virtual_machine.Jit.RegAlloc.Scan.{Holds}
use k3s_virtual_machine.Jit.RegAlloc.Walk.{dsts, allocate_inst-Holds}

length-no_locations : (l : List LiveRange) → length (no_locations l) ≡ length l
length-no_locations [] = refl
length-no_locations (r ∷ l) = ap suc (length-no_locations l)

no_location : (l : List LiveRange) (k : Location) → last_item (no_locations l) ≡ some (some k) → ⊥
unfolding last_item
no_location [] k h = cc
no_location (r ∷ []) k h = cc
no_location (r ∷ q ∷ l) k h = no_location (q ∷ l) k h

new_reg_alloc-Holds :
    (intervals : ℕ → Option LiveInterval) (later : List ℕ) → Holds later (new_reg_alloc intervals)
unfolding new_reg_alloc last_item
new_reg_alloc-Holds intervals later = record {
  apart = record {
    distinct = tt;
    held = λ i m. elim m [ ];
    apart = λ i j r m n has_i has_j. elim m [ ];
  };
  sync = λ i v e. rw e (length-no_locations v.intervals);
  fresh = λ i m k h. elim (Option-cases (intervals i)) [
    | inl e ↦ let impossible : none ≡ some (some k) = rw e at h in cc
    | inr (v, e) ↦ no_location v.intervals k (rw e at h)
  ];
}

dsts_rest :
    (step : Step) (steps : List Step) → Distinct (dsts (step ∷ steps)) → Distinct (dsts steps)
dsts_rest step steps d = elim (Bool-cases step.has_dst) [
  | inl e ↦ let d' : Distinct (step.inst ∷ dsts steps) = rw e at d in d'.1
  | inr e ↦ rw e at d
]

allocate_registers-Holds :
    (s : RegAlloc) (steps : List Step)
    → Holds (dsts steps) s
    → Distinct (dsts steps)
    → Ensures (Holds []) (allocate_registers s steps)
unfolding allocate_registers
allocate_registers-Holds s [] h d = h
allocate_registers-Holds s (step ∷ steps) h d =
    Ensures-bind (Holds (dsts steps)) (Holds []) (allocate_inst s step) _
      (allocate_inst-Holds s step steps h d)
      (λ s' h'. allocate_registers-Holds s' steps h' (dsts_rest step steps d))

-- For any live intervals and any sequence of instructions in which no instruction with a result
-- stands twice, if AllocateRegisters ends without a fault from the constructor's state, then no
-- interval is active twice, each active interval has a register at its end, this register is busy,
-- and no two active intervals have the same one.
pub allocate_registers-IsApart :
    (intervals : ℕ → Option LiveInterval) (steps : List Step)
    → Distinct (dsts steps)
    → Ensures
        (λ s. IsApart s.active s.busy_regs s.locations)
        (allocate_registers (new_reg_alloc intervals) steps)
allocate_registers-IsApart intervals steps d =
    Ensures-map (Holds []) (λ s. IsApart s.active s.busy_regs s.locations)
      (allocate_registers (new_reg_alloc intervals) steps)
      (allocate_registers-Holds (new_reg_alloc intervals) steps
        (new_reg_alloc-Holds intervals (dsts steps)) d)
      (λ s h. h.apart)
