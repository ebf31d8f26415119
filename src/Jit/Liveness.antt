-- ===== src/Jit/Liveness.antt =====
-- The life ranges of instructions: LivenessAnalysis of jit/ir/graph/analyses/liveness.h up to the
-- intervals. A vector that the code reads from its back is kept from its back.
pub mod Fill
use k3s_virtual_machine.Base.{
  ℕ, zero, suc, ◌+◌, ◌-◌, ◌%◌, Bool, true, false, ◌&&◌, ◌||◌, not, Option, none, some, List, [],
  ◌∷◌, ◌++◌, Outcome, ok, err, ◌>>=◌, ◌>>◌, guard, from_option, assertion, undefined, out_of_fuel,
  ltb, leb, ◌==◌, if◌then◌else◌, u32_mod, update, length, get_elem?, set,
}
use k3s_virtual_machine.Jit.Graph.{
  Ir, Inst, BasicBlock, load_inst, load_bb, has_dst, is_null, is_phi,
}
use k3s_virtual_machine.Jit.Graph.Block.{get_pred_idx}
use k3s_virtual_machine.Jit.Graph.Users.{get_input}
use k3s_virtual_machine.Jit.Dominance.{pointers_eq}
use k3s_virtual_machine.Jit.LiveInterval.{LiveRange, new_range, trim_begin}

-- The last range is the first of each list.
pub record LiveRanges : Type 0 where
  pub ranges : List LiveRange
  pub loop_ranges : List LiveRange

abbrev pub no_ranges : LiveRanges
no_ranges = record { ranges = []; loop_ranges = [] }

unfoldable pub append : LiveRanges → ℕ → ℕ → Outcome LiveRanges
append l b e = do r ← new_range b e; ok (record l { ranges = r ∷ l.ranges })

unfoldable pub append_loop_range : LiveRanges → ℕ → ℕ → Outcome LiveRanges
append_loop_range l b e = do r ← new_range b e; ok (record l { loop_ranges = r ∷ l.loop_ranges })

unfoldable pub finalize_def : LiveRanges → ℕ → Outcome LiveRanges
finalize_def l def = elim l.ranges [
  | [] ↦ err undefined
  | r ∷ rs ↦ (do r' ← trim_begin r def; ok (record l { ranges = r' ∷ rs }))
]

-- A `LiveSet`: instructions, with a null pointer for one that was removed.
abbrev pub LiveSet : Type 0
LiveSet = List (Option ℕ)

unfoldable pub has : LiveSet → ℕ → Bool
has [] i = false
has (x ∷ xs) i = pointers_eq x (some i) || has xs i

unfoldable pub remove_live : LiveSet → ℕ → Outcome LiveSet
remove_live [] i = err assertion
remove_live (x ∷ xs) i =
    let rest = remove_live xs i in
    if pointers_eq x (some i) then ok (none ∷ xs) else (do xs' ← rest; ok (x ∷ xs'))

-- The analysis: the live sets of the blocks and the ranges of the instructions.
pub record Liveness : Type 0 where
  pub live_sets : ℕ → LiveSet
  pub live_ranges : ℕ → LiveRanges

abbrev pub update_ranges : Liveness → ℕ → (LiveRanges → Outcome LiveRanges) → Outcome Liveness
update_ranges s i change = do
  l ← change (s.live_ranges i)
  ok (record s { live_ranges = update s.live_ranges i l })

abbrev pub extend : Liveness → ℕ → ℕ → Liveness
extend s block i = record s {
  live_sets = update s.live_sets block (s.live_sets block ++ some i ∷ []);
}

-- An instruction that is live at the end of a block is live in all of it.
unfoldable pub live_through : Liveness → ℕ → ℕ → ℕ → ℕ → Outcome Liveness
live_through s block i ln_begin ln_end =
    if has (s.live_sets block) i
    then ok s
    else update_ranges (extend s block i) i (λ l. append l ln_begin ln_end)

-- The loop of `InitializeBlock` over the live set of a successor.
unfoldable pub live_from_succ : Liveness → ℕ → LiveSet → ℕ → ℕ → Outcome Liveness
live_from_succ s block [] ln_begin ln_end = ok s
live_from_succ s block (none ∷ live) ln_begin ln_end = live_from_succ s block live ln_begin ln_end
live_from_succ s block (some i ∷ live) ln_begin ln_end = do
  s' ← live_through s block i ln_begin ln_end
  live_from_succ s' block live ln_begin ln_end

-- Its loop over the phis of a successor. A null input ends the run here already.
unfoldable pub live_from_phis : ℕ → Ir → Liveness → ℕ → Option ℕ → ℕ → ℕ → ℕ → Outcome Liveness
live_from_phis n ir s block none pred_id ln_begin ln_end = ok s
live_from_phis zero ir s block (some phi) pred_id ln_begin ln_end = err out_of_fuel
live_from_phis (suc n) ir s block (some phi) pred_id ln_begin ln_end = do
  o ← load_inst ir phi
  input ← get_input o pred_id
  i ← from_option undefined input
  s' ← live_through s block i ln_begin ln_end
  live_from_phis n ir s' block o.next pred_id ln_begin ln_end

unfoldable pub live_from_succs : ℕ → Ir → Liveness → ℕ → List ℕ → ℕ → ℕ → Outcome Liveness
live_from_succs n ir s block [] ln_begin ln_end = ok s
live_from_succs n ir s block (succ ∷ succs) ln_begin ln_end = do
  s1 ← live_from_succ s block (s.live_sets succ) ln_begin ln_end
  b ← load_bb ir succ
  pred_id ← get_pred_idx b block
  s2 ← live_from_phis n ir s1 block b.first_phi pred_id ln_begin ln_end
  live_from_succs n ir s2 block succs ln_begin ln_end

unfoldable pub initialize_block : ℕ → Ir → Liveness → ℕ → ℕ → ℕ → Outcome Liveness
initialize_block n ir s block ln_begin ln_end = do
  guard (length (s.live_sets block) == 0) assertion
  b ← load_bb ir block
  live_from_succs n ir s block b.succs ln_begin ln_end

-- The definition of an instruction ends its life, backwards.
unfoldable pub process_dst : Liveness → ℕ → ℕ → Inst → Outcome Liveness
process_dst s block i o =
    let live = has (s.live_sets block) i in
    if has_dst o
    then (if is_null o.first_user
        then (do
          s' ← update_ranges s i (λ l. append l o.ln ((o.ln + 2) % u32_mod))
          guard (not live) assertion
          ok s')
        else (do
          s' ← update_ranges s i (λ l. finalize_def l o.ln)
          set' ← remove_live (s'.live_sets block) i
          ok (record s' { live_sets = update s'.live_sets block set' })))
    else (do guard (not live) assertion; ok s)

-- The inputs begin their lives, backwards.
unfoldable pub process_inputs : Liveness → ℕ → ℕ → ℕ → List (Option ℕ) → Outcome Liveness
process_inputs s block start ln [] = ok s
process_inputs s block start ln (input ∷ inputs) = do
  i ← from_option undefined input
  s' ←
      (if has (s.live_sets block) i
        then ok s
        else update_ranges (extend s block i) i (λ l. append l start ln))
  process_inputs s' block start ln inputs

unfoldable pub process_insts : ℕ → Ir → Liveness → ℕ → ℕ → Option ℕ → Outcome Liveness
process_insts n ir s block start none = ok s
process_insts zero ir s block start (some i) = err out_of_fuel
process_insts (suc n) ir s block start (some i) = do
  o ← load_inst ir i
  s1 ← process_dst s block i o
  guard (not (is_phi o)) assertion
  s2 ← process_inputs s1 block start o.ln o.inputs
  process_insts n ir s2 block start o.prev

unfoldable pub remove_phis : ℕ → Ir → Liveness → ℕ → Option ℕ → Outcome Liveness
remove_phis n ir s block none = ok s
remove_phis zero ir s block (some phi) = err out_of_fuel
remove_phis (suc n) ir s block (some phi) = do
  o ← load_inst ir phi
  set' ← remove_live (s.live_sets block) phi
  remove_phis n ir (record s { live_sets = update s.live_sets block set' }) block o.next

unfoldable pub process_instructions : ℕ → Ir → Liveness → ℕ → ℕ → Outcome Liveness
process_instructions n ir s block start = do
  b ← load_bb ir block
  s' ← process_insts n ir s block start b.last_inst
  remove_phis n ir s' block b.first_phi

-- The linear order ends with a null pointer and the last life number.
abbrev pub LinearOrder : Type 0
LinearOrder = List (Option ℕ × ℕ)

-- The end that `ProcessLoop` finds: the number of the first later block with another loop.
unfoldable pub find_loop_end : Ir → Option ℕ → LinearOrder → Outcome ℕ
find_loop_end ir loop [] = err undefined
find_loop_end ir loop ((block, ln) ∷ later) = do
  b ← from_option undefined block
  o ← load_bb ir b
  if pointers_eq o.loop loop then find_loop_end ir loop later else ok ln

unfoldable pub append_loop_ranges : Liveness → LiveSet → ℕ → ℕ → Outcome Liveness
append_loop_ranges s [] begin end = ok s
append_loop_ranges s (none ∷ live) begin end = append_loop_ranges s live begin end
append_loop_ranges s (some i ∷ live) begin end = do
  s' ← update_ranges s i (λ l. append_loop_range l begin end)
  append_loop_ranges s' live begin end

unfoldable pub process_loop : Ir → Liveness → ℕ → ℕ → LinearOrder → Outcome Liveness
process_loop ir s header begin later = do
  h ← load_bb ir header
  end ← find_loop_end ir h.loop later
  append_loop_ranges s (s.live_sets header) (begin % u32_mod) (end % u32_mod)

-- `CalculateLifeRanges`: the later blocks first. `is_header` is `BasicBlock::IsHeader`, and `n` bounds
-- the lists of instructions.
unfoldable pub calculate_life_ranges :
    ℕ → Ir → (ℕ → Bool) → LinearOrder → Liveness → Outcome Liveness
calculate_life_ranges n ir is_header [] s = err undefined
calculate_life_ranges n ir is_header (last ∷ []) s = ok s
calculate_life_ranges n ir is_header ((block, ln) ∷ (next, next_ln) ∷ later) s = do
  s1 ← calculate_life_ranges n ir is_header ((next, next_ln) ∷ later) s
  b ← from_option undefined block
  s2 ← initialize_block n ir s1 b (ln % u32_mod) (next_ln % u32_mod)
  s3 ← process_instructions n ir s2 b (ln % u32_mod)
  if is_header b then process_loop ir s3 b ln ((next, next_ln) ∷ later) else ok s3
