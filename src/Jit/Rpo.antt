-- ===== src/Jit/Rpo.antt =====
-- Reverse post-order: jit/ir/graph/analyses/rpo.h.
pub mod Marks
pub mod Part
pub mod Search
pub mod Order
mod Tests
use k3s_virtual_machine.Base.{
  ℕ, zero, suc, ◌+◌, ◌-◌, Bool, true, false, not, Option, none, some, List, [], ◌∷◌, Outcome, ok,
  err, ◌>>=◌, ◌>>◌, guard, assertion, undefined, out_of_fuel, ltb, ◌==◌, if◌then◌else◌, length, set,
  replicate,
}
use k3s_virtual_machine.Jit.Graph.{
  Ir, BasicBlock, Graph, load_bb, mark_bb, is_marked, get_blocks_count, get_entry_block, new_marker,
}

-- The analysis between two calls of DFS: the blocks with their marks, the vector that is filled from its
-- end, and the place that was filled last.
pub record Rpo : Type 0 where
  pub ir : Ir
  pub rpo : List (Option ℕ)
  pub idx : ℕ

-- `rpo_[--(*idx)] = bb`
unfoldable pub place : Rpo → ℕ → Outcome Rpo
place s bb = do
  guard (ltb 0 s.idx) undefined
  guard (ltb (s.idx - 1) (length s.rpo)) undefined
  ok (record s { rpo = set s.rpo (s.idx - 1) (some bb); idx = s.idx - 1 })

-- The loop over the successors, given the visit of one.
unfoldable pub dfs_succs : (ℕ → Rpo → Outcome Rpo) → ℕ → List ℕ → Rpo → Outcome Rpo
dfs_succs visit mark [] s = ok s
dfs_succs visit mark (succ ∷ succs) s = do
  b ← load_bb s.ir succ
  s' ← (if is_marked b mark then ok s else visit succ s)
  dfs_succs visit mark succs s'

-- `DFS`, as deep as the fuel.
unfoldable pub dfs : ℕ → ℕ → ℕ → Rpo → Outcome Rpo
dfs zero mark bb s = err out_of_fuel
dfs (suc n) mark bb s = do
  ir ← mark_bb s.ir bb mark
  b ← load_bb ir bb
  s' ← dfs_succs (dfs n mark) mark b.succs (record s { ir = ir })
  place s' bb

-- A vector of null pointers.
abbrev pub nulls : ℕ → List (Option ℕ)
nulls n = replicate n none

-- The constructor; the mark of the graph is taken before.
unfoldable pub build_rpo : ℕ → Graph → Ir → Outcome (List (Option ℕ) × (Graph × Ir))
build_rpo n g ir = do
  (mark, g') ← new_marker g
  let blocks_count = get_blocks_count g'.blocks
  entry ← get_entry_block g' ir
  s ← dfs n mark entry (record { ir = ir; rpo = nulls blocks_count; idx = blocks_count })
  guard (s.idx == 0) assertion
  ok (s.rpo, (g', s.ir))
