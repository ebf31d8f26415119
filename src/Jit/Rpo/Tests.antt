-- ===== src/Jit/Rpo/Tests.antt =====
-- The order of a graph with a loop: the entry 1, the loop 2 and the end 0.
use k3s_virtual_machine.Base.{
  ℕ, ◌≡◌, refl, subst, inl, inr, Option, none, some, List, [], ◌∷◌, arith, ok, In, update,
}
use k3s_virtual_machine.Jit.Graph.{
  Ir, Graph, BasicBlock, empty_block, get_blocks_count, get_entry_block,
}
use k3s_virtual_machine.Jit.Rpo.{build_rpo}
use k3s_virtual_machine.Jit.Rpo.Marks.{Blocks, somes}
use k3s_virtual_machine.Jit.Rpo.Part.{Leads, stay, go}
use k3s_virtual_machine.Jit.Rpo.Order.{IsGraph, IsReversePostOrder, build_rpo-IsReversePostOrder}

abbrev no_blocks : ℕ → Option BasicBlock
no_blocks _ = none

abbrev no_succs : ℕ → List ℕ
no_succs _ = []

abbrev looped : Ir
looped = record {
  insts = λ _. none;
  bbs =
      update
        (update (update no_blocks 0 (some (record empty_block { preds = 2 ∷ [] }))) 1
          (some (record empty_block { succs = 2 ∷ [] })))
        2 (some (record empty_block { preds = 1 ∷ 2 ∷ []; succs = 2 ∷ 0 ∷ [] }));
  inst_id = 0;
  block_id = 3;
}

abbrev graph : Graph
graph = record {
  marker = 0;
  blocks_id_offset = 0;
  blocks = some 0 ∷ some 1 ∷ some 2 ∷ [];
  rpo = [];
  idoms = λ _. none;
}

abbrev edges : ℕ → List ℕ
edges = update (update no_succs 1 (2 ∷ [])) 2 (2 ∷ 0 ∷ [])

abbrev blocks : List ℕ
blocks = 1 ∷ 2 ∷ 0 ∷ []

-- A statement of each of the three blocks.
by_block : (P : ℕ → Type 0) → P 1 → P 2 → P 0 → (a : ℕ) → In a blocks → P a
by_block P p q r a (inl e) = subst P e p
by_block P p q r a (inr (inl e)) = subst P e q
by_block P p q r a (inr (inr (inl e))) = subst P e r
by_block P p q r a (inr (inr (inr i))) = elim i [ ]

looped-Blocks : Blocks edges blocks looped
looped-Blocks = record {
  block =
      by_block (λ a. (b : BasicBlock) × (looped.bbs a ≡ some b) × (b.succs ≡ edges a))
        (_, refl, refl) (_, refl, refl) (_, refl, refl);
  closed = λ a v i.
      by_block (λ x. In v (edges x) → In v blocks)
        (λ j. elim j [ inl e ↦ inr (inl e) | inr k ↦ elim k [ ] ])
        (λ j. elim j [ inl e ↦ inr (inl e) | inr k ↦ inr (inr k) ]) (λ j. elim j [ ]) a i;
}

looped-IsGraph : IsGraph edges blocks 1 graph looped
unfolding get_blocks_count get_entry_block
looped-IsGraph = record {
  distinct = ((λ e. omega arith, (λ e. omega arith, tt)), ((λ e. omega arith, tt), (tt, tt)));
  blocks = looped-Blocks;
  count = refl;
  first = refl;
  entry_in = inl refl;
  marks_left = omega arith;
  fresh = by_block _ refl refl refl;
  reached =
      by_block (Leads edges 1) stay (go stay (inl refl)) (go (go stay (inl refl)) (inr (inl refl)));
}

build_rpo-IsReversePostOrder_example :
    (l : List ℕ) × (end : Graph × Ir) × (build_rpo 3 graph looped ≡ ok (somes l, end))
    × IsReversePostOrder edges blocks l
build_rpo-IsReversePostOrder_example =
    build_rpo-IsReversePostOrder 3 edges blocks 1 graph looped (omega arith) looped-IsGraph
