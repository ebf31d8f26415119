-- ===== src/Jit/Loops.antt =====
-- The loops of the compiler: `Loop` and LoopAnalyzer of jit/ir/graph/analyses/loop.h, with NewLoop and
-- SetRootLoop of graph.cpp. A loop is known by a number, as blocks are.
use k3s_virtual_machine.Base.{
  ℕ, zero, suc, ◌+◌, Bool, true, false, ◌&&◌, ◌||◌, not, Option, none, some, List, [], ◌∷◌, ◌++◌,
  reverse, Outcome, ok, err, ◌>>=◌, ◌>>◌, guard, from_option, assertion, undefined, out_of_fuel,
  ◌==◌, if◌then◌else◌, update,
}
use k3s_virtual_machine.Jit.Graph.{
  Ir, BasicBlock, Graph, load_bb, update_bb, mark_bb, is_marked, ptr_eq, is_null, get_entry_block,
  new_marker,
}
use k3s_virtual_machine.Jit.Dominance.{pointers_eq, is_dominator}

pub record Loop : Type 0 where
  pub header : Option ℕ
  pub back_edges : List ℕ
  pub inner : List ℕ
  pub outer : Option ℕ
  pub reducible : Bool
  pub id : ℕ

abbrev pub Loops : Type 0
Loops = ℕ → Option Loop

-- The graph with its loops; `loops_count` numbers the next one, and `loop_id` is the counter of ids.
pub record LoopAnalyzer : Type 0 where
  pub ir : Ir
  pub loops : Loops
  pub loops_count : ℕ
  pub loop_id : ℕ
  pub reducible : Bool
  pub root_loop : Option ℕ

abbrev pub load_loop : LoopAnalyzer → ℕ → Outcome Loop
load_loop s l = from_option undefined (s.loops l)

abbrev pub store_loop : LoopAnalyzer → ℕ → Loop → LoopAnalyzer
store_loop s l o = record s { loops = update s.loops l (some o) }

abbrev pub set_loop : LoopAnalyzer → ℕ → ℕ → Outcome LoopAnalyzer
set_loop s b l = do
  ir' ← update_bb s.ir b (λ o. record o { loop = some l })
  ok (record s { ir = ir' })

-- `Graph::NewLoop`; a loop without a header has the id 0.
unfoldable pub new_loop : LoopAnalyzer → Option ℕ → ℕ × LoopAnalyzer
new_loop s header =
    let id = if is_null header then 0 else s.loop_id + 1 in
    let l = s.loops_count in
    (
      l,
      record s {
        loops = update s.loops l (
            some (record {
              header = header;
              back_edges = [];
              inner = [];
              outer = none;
              reducible = true;
              id = id;
            }));
        loops_count = l + 1;
        loop_id = if is_null header then s.loop_id else s.loop_id + 1;
      },
    )

-- `std::find` for `HasInner` and `IsBackEdge`
unfoldable pub has_item : List ℕ → ℕ → Bool
has_item [] a = false
has_item (x ∷ xs) a = x == a || has_item xs a

unfoldable pub append_back_edge : LoopAnalyzer → ℕ → ℕ → Outcome LoopAnalyzer
append_back_edge s l edge = do
  o ← load_loop s l
  guard (not (has_item o.back_edges edge)) assertion
  b ← load_bb s.ir edge
  guard (is_null b.loop) assertion
  set_loop (store_loop s l (record o { back_edges = o.back_edges ++ edge ∷ [] })) edge l

unfoldable pub append_inner : LoopAnalyzer → ℕ → ℕ → Outcome LoopAnalyzer
append_inner s l inner = do
  o ← load_loop s l
  guard (not (has_item o.inner inner)) assertion
  ok (store_loop s l (record o { inner = o.inner ++ inner ∷ [] }))

unfoldable pub set_outer : LoopAnalyzer → ℕ → ℕ → Outcome LoopAnalyzer
set_outer s l outer = do
  guard (not (outer == l)) assertion
  o ← load_loop s l
  guard (not (has_item o.inner outer)) assertion
  elim o.outer [
    | some old ↦ (do
      guard (outer == old) assertion
      out ← load_loop s outer
      guard (has_item out.inner l) assertion
      ok s)
    | none ↦ append_inner (store_loop s l (record o { outer = some outer })) outer l
  ]

unfoldable pub process_new_back_edge : LoopAnalyzer → ℕ → ℕ → Outcome LoopAnalyzer
process_new_back_edge s edge b = do
  o ← load_bb s.ir b
  let (fresh, made) = new_loop s (some b)
  s1 ← (if is_null o.loop then set_loop made b fresh else ok s)
  o1 ← load_bb s1.ir b
  l ← from_option undefined o1.loop
  loop ← load_loop s1 l
  guard (ptr_eq loop.header b) assertion
  append_back_edge s1 l edge

-- The loop of `DFSBackEdges` over the successors.
unfoldable pub back_edges_of :
    (ℕ → LoopAnalyzer → Outcome LoopAnalyzer)
    → ℕ
    → ℕ
    → ℕ
    → List ℕ
    → LoopAnalyzer
    → Outcome LoopAnalyzer
back_edges_of visit gb b edge [] s = ok s
back_edges_of visit gb b edge (succ ∷ succs) s = do
  o ← load_bb s.ir succ
  s' ←
      (if is_marked o gb
        then process_new_back_edge s edge succ
        else (if is_marked o b then ok s else visit succ s))
  back_edges_of visit gb b edge succs s'

-- `DFSBackEdges`, as deep as the fuel, with the markers of grey and of black blocks.
unfoldable pub dfs_back_edges : ℕ → ℕ → ℕ → ℕ → LoopAnalyzer → Outcome LoopAnalyzer
dfs_back_edges zero gb b edge s = err out_of_fuel
dfs_back_edges (suc n) gb b edge s = do
  ir1 ← mark_bb s.ir edge gb
  o ← load_bb ir1 edge
  s2 ← back_edges_of (dfs_back_edges n gb b) gb b edge o.succs (record s { ir = ir1 })
  ir3 ← mark_bb s2.ir edge b
  ok (record s2 { ir = ir3 })

-- The loop of `DFSPopulateBlocks` over the predecessors of `b`.
unfoldable pub populate_preds :
    (ℕ → LoopAnalyzer → Outcome LoopAnalyzer) → ℕ → ℕ → List ℕ → LoopAnalyzer → Outcome LoopAnalyzer
populate_preds visit l b [] s = ok s
populate_preds visit l b (pred ∷ preds) s = do
  p ← load_bb s.ir pred
  s' ← (elim p.loop [
    | none ↦ visit pred s
    | some k ↦ (do
      loop ← load_loop s k
      if not (k == l) && not (ptr_eq loop.header b)
          then (do
            s1 ← set_outer s k l
            header ← from_option undefined loop.header
            visit header s1)
          else ok s)
  ])
  populate_preds visit l b preds s'

unfoldable pub dfs_populate_blocks : ℕ → ℕ → ℕ → LoopAnalyzer → Outcome LoopAnalyzer
dfs_populate_blocks zero l b s = err out_of_fuel
dfs_populate_blocks (suc n) l b s = do
  o ← load_bb s.ir b
  s1 ← (if is_null o.loop then set_loop s b l else ok s)
  populate_preds (dfs_populate_blocks n l) l b o.preds s1

-- The back edges of a loop: it is reducible if its header dominates them.
unfoldable pub populate_edges :
    ℕ → (ℕ → Option ℕ) → ℕ → ℕ → ℕ → List ℕ → LoopAnalyzer → Outcome LoopAnalyzer
populate_edges n idoms entry l b [] s = ok s
populate_edges n idoms entry l b (edge ∷ edges) s = do
  dominates ← is_dominator n idoms entry b edge
  s' ←
      (if dominates then dfs_populate_blocks n l edge s else (do
        o ← load_loop s l
        ok (record (store_loop s l (record o { reducible = false })) { reducible = false })))
  populate_edges n idoms entry l b edges s'

-- `PopulateBlocks`, over the reverse post-order from its end.
unfoldable pub populate_blocks :
    ℕ → (ℕ → Option ℕ) → ℕ → List ℕ → LoopAnalyzer → Outcome LoopAnalyzer
populate_blocks n idoms entry [] s = ok s
populate_blocks n idoms entry (b ∷ bs) s = do
  o ← load_bb s.ir b
  s' ← (elim o.loop [
    | none ↦ ok s
    | some l ↦ (do
      loop ← load_loop s l
      if ptr_eq loop.header b then populate_edges n idoms entry l b loop.back_edges s else ok s)
  ])
  populate_blocks n idoms entry bs s'

-- The loop of `CreateRoot` over the reverse post-order.
unfoldable pub root_blocks : ℕ → List ℕ → LoopAnalyzer → Outcome LoopAnalyzer
root_blocks root [] s = ok s
root_blocks root (b ∷ bs) s = do
  o ← load_bb s.ir b
  s' ← (elim o.loop [
    | none ↦ set_loop s b root
    | some l ↦ (do loop ← load_loop s l; if is_null loop.outer then set_outer s l root else ok s)
  ])
  root_blocks root bs s'

-- `CreateRoot`, with `SetRootLoop`.
unfoldable pub create_root : ℕ → List ℕ → LoopAnalyzer → Outcome LoopAnalyzer
create_root entry rpo s = do
  let (root, made) = new_loop s none
  s' ← root_blocks root rpo made
  e ← load_bb s'.ir entry
  guard (pointers_eq (some root) e.loop) assertion
  ok (record s' { root_loop = some root })

abbrev pub xor : Bool → Bool → Bool
xor a b = if a then not b else b

-- The loop of `DFSIrreducible` over the predecessors; `black` is `IsB`.
unfoldable pub irreducible_preds :
    (ℕ → LoopAnalyzer → Outcome LoopAnalyzer)
    → (BasicBlock → Bool)
    → ℕ
    → ℕ
    → List ℕ
    → LoopAnalyzer
    → Outcome LoopAnalyzer
irreducible_preds visit black l b [] s = ok s
irreducible_preds visit black l b (pred ∷ preds) s = do
  p ← load_bb s.ir pred
  loop ← load_loop s l
  s' ←
      (if black p
        then guard (not (pointers_eq p.loop (some l)) || ptr_eq loop.header pred) assertion >> ok s
        else (do
          guard (xor (not (ptr_eq loop.header b)) (has_item loop.back_edges pred)) assertion
          s1 ← set_loop s pred l
          visit pred s1))
  irreducible_preds visit black l b preds s'

unfoldable pub dfs_irreducible : ℕ → (BasicBlock → Bool) → ℕ → LoopAnalyzer → Outcome LoopAnalyzer
dfs_irreducible zero black b s = err out_of_fuel
dfs_irreducible (suc n) black b s = do
  o ← load_bb s.ir b
  l ← from_option undefined o.loop
  loop ← load_loop s l
  guard (not loop.reducible) assertion
  irreducible_preds (dfs_irreducible n black) black l b o.preds s

-- The loop of `PopulateIrreducible`.
unfoldable pub irreducible_blocks :
    ℕ → ℕ → (BasicBlock → Bool) → List ℕ → LoopAnalyzer → Outcome LoopAnalyzer
irreducible_blocks n b_mark black [] s = ok s
irreducible_blocks n b_mark black (b ∷ bs) s = do
  ir1 ← mark_bb s.ir b b_mark
  o ← load_bb ir1 b
  l ← from_option undefined o.loop
  loop ← load_loop s l
  let s1 = record s { ir = ir1 }
  s' ←
      (if not (ptr_eq loop.header b) || loop.reducible then ok s1 else dfs_irreducible n black b s1)
  irreducible_blocks n b_mark black bs s'

-- The constructor, on the reverse post-order and the immediate dominators of the graph.
unfoldable pub analyze_loops : ℕ → Graph → List ℕ → LoopAnalyzer → Outcome (Graph × LoopAnalyzer)
analyze_loops n g rpo s = do
  (gb, g1) ← new_marker g
  (b, g2) ← new_marker g1
  entry ← get_entry_block g2 s.ir
  s1 ← dfs_back_edges n gb b entry s
  s2 ← populate_blocks n g2.idoms entry (reverse rpo) s1
  s3 ← create_root entry rpo s2
  (b', g3) ← new_marker g2
  s4 ← irreducible_blocks n b' (λ o. is_marked o gb || is_marked o b') rpo s3
  ok (g3, s4)
