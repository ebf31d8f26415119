-- ===== src/Jit/Graph/Block.antt =====
-- The instructions of a block and the edges between blocks: jit/ir/graph/basic_block.h, basic_block.cpp,
-- and the list operations of graph.cpp.
use k3s_virtual_machine.Base.{
  ℕ, zero, suc, Bool, true, false, ◌&&◌, not, Option, none, some, List, [], ◌∷◌, ◌++◌, Outcome, ok,
  err, ◌>>=◌, ◌>>◌, guard, from_option, assertion, undefined, out_of_fuel, ◌==◌, if◌then◌else◌,
  length, set,
}
use k3s_virtual_machine.Jit.Graph.{
  Ir, Inst, BasicBlock, Graph, load_inst, load_bb, store_inst, store_bb, update_inst, update_bb,
  ptr_eq, is_null, is_phi, new_bb,
}

-- `std::find` on a list of blocks: the position.
unfoldable pub find : List ℕ → ℕ → Option ℕ
find [] b = none
find (x ∷ xs) b =
    if x == b then some 0 else elim (find xs b) [ none ↦ none | some i ↦ some (suc i) ]

unfoldable pub has_pred : BasicBlock → ℕ → Bool
has_pred o b = not (is_null (find o.preds b))

unfoldable pub get_pred_idx : BasicBlock → ℕ → Outcome ℕ
get_pred_idx o b = from_option assertion (find o.preds b)

-- `preds_.push_back`
abbrev pub add_pred : Ir → ℕ → ℕ → Outcome Ir
add_pred ir b pred = update_bb ir b (λ o. record o { preds = o.preds ++ pred ∷ [] })

unfoldable pub set_succ : Ir → ℕ → ℕ → Outcome Ir
set_succ ir b succ = do
  o ← load_bb ir b
  guard (length o.succs == 0) assertion
  add_pred (store_bb ir b (record o { succs = succ ∷ [] })) succ b

unfoldable pub set_true_false_succs : Ir → ℕ → ℕ → ℕ → Outcome Ir
set_true_false_succs ir b t_succ f_succ = do
  o ← load_bb ir b
  guard (length o.succs == 0) assertion
  ir1 ← add_pred (store_bb ir b (record o { succs = t_succ ∷ f_succ ∷ [] })) t_succ b
  add_pred ir1 f_succ b

unfoldable pub find_and_replace_in_preds : Ir → ℕ → ℕ → ℕ → Outcome Ir
find_and_replace_in_preds ir b old new = do
  guard (not (old == new)) assertion
  o ← load_bb ir b
  i ← from_option assertion (find o.preds old)
  let preds = set o.preds i new
  guard (is_null (find preds old)) assertion
  ok (store_bb ir b (record o { preds = preds }))

unfoldable pub move_succs_from : Ir → ℕ → ℕ → Outcome Ir
move_succs_from ir b from = do
  o ← load_bb ir from
  ir1 ← update_bb ir b (λ o'. record o' { succs = o.succs })
  update_bb ir1 from (λ o'. record o' { succs = [] })

-- The two overloads of InitEmptyBlock.
unfoldable pub init_empty_block_phi : Ir → ℕ → ℕ → Outcome Ir
init_empty_block_phi ir b i = do
  o ← load_inst ir i
  guard (is_null o.bb) assertion
  block ← load_bb ir b
  guard (is_null block.first_phi && is_null block.last_phi) assertion
  ok (
      store_inst (store_bb ir b (record block { first_phi = some i; last_phi = some i })) i
        (record o { bb = some b }))

unfoldable pub init_empty_block : Ir → ℕ → ℕ → Outcome Ir
init_empty_block ir b i = do
  o ← load_inst ir i
  guard (is_null o.bb) assertion
  guard (not (is_phi o)) assertion
  block ← load_bb ir b
  guard (is_null block.first_inst && is_null block.last_inst) assertion
  ok (
      store_inst (store_bb ir b (record block { first_inst = some i; last_inst = some i })) i
        (record o { bb = some b }))

-- `IsEmpty`, with its assertion that both ends are null or neither is.
unfoldable pub is_empty : Option ℕ → Option ℕ → Outcome Bool
is_empty none none = ok true
is_empty (some a) (some b) = ok false
is_empty _ _ = err assertion

unfoldable pub push_phi : Ir → ℕ → ℕ → Outcome Ir
push_phi ir b i = do
  o ← load_inst ir i
  guard (is_null o.bb) assertion
  guard (is_phi o) assertion
  block ← load_bb ir b
  empty ← is_empty block.first_phi block.last_phi
  if empty then init_empty_block_phi ir b i else (do
    last ← from_option assertion block.last_phi
    ir1 ← update_inst ir last (λ l. record l { next = some i })
    ir2 ← update_inst ir1 i (λ n. record n { prev = block.last_inst })
    block2 ← load_bb ir2 b
    let ir3 = store_bb ir2 b (record block2 { last_phi = some i })
    now ← load_inst ir3 i
    guard (is_null now.next) assertion
    ok (store_inst ir3 i (record now { bb = some b })))

unfoldable pub push_back : Ir → ℕ → ℕ → Outcome Ir
push_back ir b i = do
  o ← load_inst ir i
  guard (not (is_phi o)) assertion
  guard (is_null o.bb) assertion
  block ← load_bb ir b
  empty ← is_empty block.first_inst block.last_inst
  if empty then init_empty_block ir b i else (do
    last ← from_option assertion block.last_inst
    ir1 ← update_inst ir last (λ l. record l { next = some i })
    ir2 ← update_inst ir1 i (λ n. record n { prev = some last; bb = some b })
    update_bb ir2 b (λ block'. record block' { last_inst = some i }))

-- `SetFirstInst` and `SetLastInst`
unfoldable pub check_not_phi : Ir → Option ℕ → Outcome (Unit {0})
check_not_phi ir none = ok tt
check_not_phi ir (some i) = do o ← load_inst ir i; guard (not (is_phi o)) assertion

unfoldable pub set_first_inst : Ir → ℕ → Option ℕ → Outcome Ir
set_first_inst ir b i =
    check_not_phi ir i >> update_bb ir b (λ block. record block { first_inst = i })

unfoldable pub set_last_inst : Ir → ℕ → Option ℕ → Outcome Ir
set_last_inst ir b i =
    check_not_phi ir i >> update_bb ir b (λ block. record block { last_inst = i })

-- A write through a pointer that is null at the end of a list.
abbrev pub update_at : Ir → Option ℕ → (Inst → Inst) → Outcome Ir
update_at ir p change = do i ← from_option undefined p; update_inst ir i change

-- `bb_ = nullptr; next_ = nullptr; prev_ = nullptr;`
abbrev pub detach : Ir → ℕ → Outcome Ir
detach ir i = update_inst ir i (λ o. record o { bb = none; next = none; prev = none })

-- `ReplaceInBB(nullptr)`
unfoldable pub remove_in_bb : Ir → ℕ → Outcome Ir
remove_in_bb ir i = do
  o ← load_inst ir i
  b ← from_option undefined o.bb
  block ← load_bb ir b
  ir1 ←
      (if ptr_eq block.first_inst i
        then guard (is_null o.prev) assertion >> set_first_inst ir b o.next
        else update_at ir o.prev (λ p. record p { next = o.next }))
  block1 ← load_bb ir1 b
  ir2 ←
      (if ptr_eq block1.last_inst i
        then guard (is_null o.next) assertion >> set_last_inst ir1 b o.prev
        else update_at ir1 o.next (λ n. record n { prev = o.prev }))
  detach ir2 i

-- `ReplaceInBB(Inst *)`
unfoldable pub replace_in_bb : Ir → ℕ → ℕ → Outcome Ir
replace_in_bb ir i new = do
  o ← load_inst ir i
  guard (not (is_phi o)) assertion
  n ← load_inst ir new
  if not (is_null n.bb) then remove_in_bb ir i else (do
    guard (not (is_phi n)) assertion
    b ← from_option undefined o.bb
    block ← load_bb ir b
    ir1 ← (if ptr_eq block.first_inst i then set_first_inst ir b (some new) else ok ir)
    ir2 ← (if ptr_eq block.last_inst i then set_last_inst ir1 b (some new) else ok ir1)
    ir3 ← update_inst ir2 new (λ x. record x { next = o.next; prev = o.prev; bb = o.bb })
    ir4 ← update_at ir3 o.next (λ x. record x { prev = some new })
    ir5 ← update_at ir4 o.prev (λ x. record x { next = some new })
    detach ir5 i)

unfoldable pub prepend : Ir → ℕ → ℕ → Outcome Ir
prepend ir i new = do
  n ← load_inst ir new
  guard (is_null n.bb) assertion
  guard (is_null n.prev) assertion
  guard (is_null n.next) assertion
  o ← load_inst ir i
  ir1 ← update_inst ir new (λ x. record x { bb = o.bb; next = some i; prev = o.prev })
  ir2 ← update_inst ir1 i (λ x. record x { prev = some new })
  ir3 ← update_at ir2 o.prev (λ x. record x { next = some new })
  b ← from_option undefined o.bb
  block ← load_bb ir3 b
  if ptr_eq block.first_inst i then set_first_inst ir3 b (some new) else ok ir3

-- The loop of SplitBlockAfter over the instructions of the new block, from `i` on.
unfoldable pub move_insts : ℕ → Ir → ℕ → Option ℕ → Outcome Ir
move_insts n ir b none = ok ir
move_insts zero ir b (some i) = err out_of_fuel
move_insts (suc n) ir b (some i) = do
  o ← load_inst ir i
  move_insts n (store_inst ir i (record o { bb = some b })) b o.next

unfoldable pub replace_in_preds_of : Ir → List ℕ → ℕ → ℕ → Outcome Ir
replace_in_preds_of ir [] old new = ok ir
replace_in_preds_of ir (s ∷ ss) old new = do
  ir1 ← find_and_replace_in_preds ir s old new
  replace_in_preds_of ir1 ss old new

-- `SplitBlockAfter`, with as many rounds as the fuel for the instructions behind.
unfoldable pub split_block_after : ℕ → Graph → Ir → ℕ → Outcome (ℕ × (Graph × Ir))
split_block_after n g ir i = do
  o ← load_inst ir i
  guard (not (is_phi o)) assertion
  (new, (g', ir1)) ← new_bb g ir
  b ← from_option undefined o.bb
  block ← load_bb ir1 b
  ir2 ←
      (if ptr_eq block.last_inst i then ok ir1 else (do
        ir2 ← set_last_inst ir1 new block.last_inst
        ir3 ← set_last_inst ir2 b (some i)
        ir4 ← set_first_inst ir3 new o.next
        ir5 ← update_at ir4 o.next (λ x. record x { prev = none })
        ir6 ← update_inst ir5 i (λ x. record x { next = none })
        block' ← load_bb ir6 new
        move_insts n ir6 new block'.first_inst))
  block2 ← load_bb ir2 b
  ir3 ← replace_in_preds_of ir2 block2.succs b new
  ir4 ← move_succs_from ir3 new b
  ok (new, (g', ir4))
