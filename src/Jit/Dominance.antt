-- ===== src/Jit/Dominance.antt =====
-- Questions about dominance: IsDominator of jit/ir/graph/graph.h, Dominates of basic_block.cpp and of
-- instructions.cpp, on the immediate dominators that the graph holds.
pub mod Chain
mod Tests
use k3s_virtual_machine.Base.{
  ℕ, zero, suc, Bool, true, false, not, Option, none, some, List, Outcome, ok, err, ◌>>=◌, ◌>>◌,
  guard, from_option, assertion, undefined, out_of_fuel, ◌==◌, if◌then◌else◌,
}
use k3s_virtual_machine.Jit.Graph.{Ir, Inst, load_inst, ptr_eq}

abbrev pub pointers_eq : Option ℕ → Option ℕ → Bool
pointers_eq none none = true
pointers_eq none (some b) = false
pointers_eq (some a) none = false
pointers_eq (some a) (some b) = a == b

-- The loop of `IsDominator`, which ends at the entry block. `entry` is the block that GetEntryBlock gives;
-- its assertion, that the entry has no predecessor, is the caller's to make.
unfoldable pub is_dominator_from : ℕ → (ℕ → Option ℕ) → ℕ → ℕ → ℕ → Option ℕ → Outcome Bool
is_dominator_from zero idoms entry dom block idom = err out_of_fuel
is_dominator_from (suc n) idoms entry dom block idom =
    if block == entry
    then ok false
    else (if ptr_eq idom dom then ok true else (do
      next ← from_option undefined idom
      is_dominator_from n idoms entry dom next (idoms next)))

unfoldable pub is_dominator : ℕ → (ℕ → Option ℕ) → ℕ → ℕ → ℕ → Outcome Bool
is_dominator n idoms entry dom block =
    if dom == block then ok true else is_dominator_from n idoms entry dom block (idoms block)

-- `BasicBlock::Dominates`, whose loop ends behind the entry block.
unfoldable pub dominates_from : ℕ → (ℕ → Option ℕ) → ℕ → Option ℕ → Outcome Bool
dominates_from n idoms this none = ok false
dominates_from zero idoms this (some other) = err out_of_fuel
dominates_from (suc n) idoms this (some other) =
    if ptr_eq (idoms other) this then ok true else dominates_from n idoms this (idoms other)

unfoldable pub bb_dominates : ℕ → (ℕ → Option ℕ) → ℕ → ℕ → Outcome Bool
bb_dominates n idoms this other =
    guard (not (this == other)) assertion >> dominates_from n idoms this (some other)

-- `Inst::Dominates`
unfoldable pub stands_before : ℕ → Ir → ℕ → Option ℕ → Outcome Bool
stands_before n ir this none = ok false
stands_before zero ir this (some other) = err out_of_fuel
stands_before (suc n) ir this (some other) = do
  o ← load_inst ir other
  if ptr_eq o.prev this then ok true else stands_before n ir this o.prev

unfoldable pub inst_dominates : ℕ → (ℕ → Option ℕ) → Ir → ℕ → ℕ → Outcome Bool
inst_dominates n idoms ir this other = do
  guard (not (this == other)) assertion
  a ← load_inst ir this
  b ← load_inst ir other
  if pointers_eq a.bb b.bb then stands_before n ir this (some other) else (do
    this_bb ← from_option undefined a.bb
    other_bb ← from_option undefined b.bb
    bb_dominates n idoms this_bb other_bb)
