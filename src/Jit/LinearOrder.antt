-- ===== src/Jit/LinearOrder.antt =====
-- The linear order of the blocks and the life numbers: jit/ir/graph/analyses/linear_order.h, on the loops
-- of Jit/Loops. The vector is kept from its back.
pub mod Numbers
pub mod Visits
pub mod Order
mod Tests
use k3s_virtual_machine.Base.{
  ℕ, zero, suc, ◌+◌, ◌-◌, ◌%◌, Bool, true, false, ◌&&◌, ◌||◌, not, Option, none, some, List, [],
  ◌∷◌, ◌++◌, reverse, Outcome, ok, err, ◌>>=◌, ◌>>◌, guard, from_option, assertion, undefined,
  out_of_fuel, ltb, leb, ◌==◌, if◌then◌else◌, u32_mod, length,
}
use k3s_virtual_machine.Jit.Graph.{
  Ir, Inst, BasicBlock, Graph, load_inst, load_bb, update_inst, mark_bb, is_marked, ptr_eq,
  get_blocks_count, get_entry_block, new_marker,
}
use k3s_virtual_machine.Jit.Dominance.{pointers_eq}
use k3s_virtual_machine.Jit.Loops.{Loop, Loops}

pub record Ordering : Type 0 where
  pub ir : Ir
  pub linear_order : List (ℕ × ℕ)
  pub life_number : ℕ

abbrev pub get_loop : Loops → BasicBlock → Outcome Loop
get_loop loops b = do l ← from_option undefined b.loop; from_option undefined (loops l)

-- `BasicBlock::IsHeader`
unfoldable pub is_header : Loops → ℕ → BasicBlock → Outcome Bool
is_header loops bb b = do l ← get_loop loops b; ok (ptr_eq l.header bb)

abbrev pub counts : Option (Option ℕ) → Option ℕ → Bool
counts none loop = true
counts (some own) loop = not (pointers_eq loop own)

-- The loops of `AllSidePredsMarked`; `own` is the loop whose members do not count, for a header.
unfoldable pub preds_marked : Ir → ℕ → Option (Option ℕ) → List ℕ → Outcome Bool
preds_marked ir mark own [] = ok true
preds_marked ir mark own (pred ∷ preds) = do
  p ← load_bb ir pred
  let rest = preds_marked ir mark own preds
  if counts own p.loop && not (is_marked p mark) then ok false else rest

unfoldable pub all_side_preds_marked : Loops → Ir → ℕ → ℕ → BasicBlock → Outcome Bool
all_side_preds_marked loops ir mark bb b = do
  header ← is_header loops bb b
  preds_marked ir mark (if header then some b.loop else none) b.preds

unfoldable pub all_back_edges_marked : Ir → ℕ → List ℕ → Outcome Bool
all_back_edges_marked ir mark [] = ok true
all_back_edges_marked ir mark (edge ∷ edges) = do
  b ← load_bb ir edge
  let rest = all_back_edges_marked ir mark edges
  if is_marked b mark then rest else ok false

abbrev pub set_life_number : Ir → ℕ → ℕ → Outcome Ir
set_life_number ir i ln = update_inst ir i (λ o. record o { ln = ln % u32_mod })

-- The phis of a block get its number.
unfoldable pub number_phis : ℕ → Ir → Option ℕ → ℕ → Outcome Ir
number_phis n ir none ln = ok ir
number_phis zero ir (some phi) ln = err out_of_fuel
number_phis (suc n) ir (some phi) ln = do
  ir1 ← set_life_number ir phi ln
  o ← load_inst ir1 phi
  number_phis n ir1 o.next ln

-- The other instructions get the numbers behind it.
unfoldable pub number_insts : ℕ → Ir → Option ℕ → ℕ → Outcome (ℕ × Ir)
number_insts n ir none ln = ok (ln, ir)
number_insts zero ir (some i) ln = err out_of_fuel
number_insts (suc n) ir (some i) ln = do
  ir1 ← set_life_number ir i ln
  o ← load_inst ir1 i
  number_insts n ir1 o.next (ln + 2)

-- `AssignLifeNumbers`
unfoldable pub assign_life_numbers : ℕ → Ordering → ℕ → Outcome Ordering
assign_life_numbers n s bb = do
  b ← load_bb s.ir bb
  ir1 ← number_phis n s.ir b.first_phi s.life_number
  (ln, ir2) ← number_insts n ir1 b.first_inst (s.life_number + 2)
  ok (record { ir = ir2; linear_order = (bb, s.life_number) ∷ s.linear_order; life_number = ln })

-- The two loops of `DFS` over the successors: those in the outer loop, or those that are not.
unfoldable pub visit_succs :
    (ℕ → Ordering → Outcome Ordering) → ℕ → Option ℕ → Bool → List ℕ → Ordering → Outcome Ordering
visit_succs visit mark outer inside [] s = ok s
visit_succs visit mark outer inside (succ ∷ succs) s = do
  b ← load_bb s.ir succ
  let same = pointers_eq b.loop outer
  let chosen = if inside then same else not same
  s' ← (if chosen && not (is_marked b mark) then visit succ s else ok s)
  visit_succs visit mark outer inside succs s'

-- The part of `DFS` behind its first test.
unfoldable pub visit_block :
    (ℕ → Ordering → Outcome Ordering) → ℕ → Loops → Option ℕ → ℕ → ℕ → Ordering → Outcome Ordering
visit_block visit rounds loops root_loop mark bb s = do
  ir1 ← mark_bb s.ir bb mark
  s1 ← assign_life_numbers rounds (record s { ir = ir1 }) bb
  b ← load_bb s1.ir bb
  loop ← get_loop loops b
  allowed ←
      (if pointers_eq root_loop b.loop then ok true else (do
        header ← from_option undefined loop.header
        hb ← load_bb s1.ir header
        ok (is_marked hb mark || not loop.reducible)))
  guard allowed assertion
  s2 ← visit_succs visit mark loop.outer false b.succs s1
  closed ← all_back_edges_marked s2.ir mark loop.back_edges
  guard closed assertion
  visit_succs visit mark loop.outer true b.succs s2

-- `DFS`, as deep as the fuel; `rounds` bounds the lists of instructions.
unfoldable pub order_dfs : ℕ → ℕ → Loops → Option ℕ → ℕ → ℕ → Ordering → Outcome Ordering
order_dfs zero rounds loops root_loop mark bb s = err out_of_fuel
order_dfs (suc n) rounds loops root_loop mark bb s = do
  b ← load_bb s.ir bb
  ready ← all_side_preds_marked loops s.ir mark bb b
  let later = visit_block (order_dfs n rounds loops root_loop mark) rounds loops root_loop mark bb s
  if ready then later else ok s

abbrev pub elements : List (ℕ × ℕ) → List (Option ℕ × ℕ)
elements [] = []
elements ((b, ln) ∷ l) = (some b, ln) ∷ elements l

-- The constructor.
unfoldable pub build_linear_order :
    ℕ → ℕ → Loops → Option ℕ → Graph → Ir → Outcome (List (Option ℕ × ℕ) × (ℕ × (Graph × Ir)))
build_linear_order n rounds loops root_loop g ir = do
  (mark, g') ← new_marker g
  let blocks_count = get_blocks_count g'.blocks
  entry ← get_entry_block g' ir
  s ←
      order_dfs n rounds loops root_loop mark entry
        (record { ir = ir; linear_order = []; life_number = 0 })
  guard (blocks_count == length s.linear_order) assertion
  ok (reverse ((none, s.life_number) ∷ elements s.linear_order), (s.life_number, (g', s.ir)))
