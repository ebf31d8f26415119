-- ===== src/Jit/LinearOrder/Tests.antt =====
-- The linear order of a graph with a loop: the entry 1, the loop 2 and the end 0.
use k3s_virtual_machine.Base.{
  ℕ, ◌≡◌, refl, subst, inl, inr, true, Option, none, some, List, [], ◌∷◌, arith, ok, ◌==◌,
  Bool-cases, Outcome, ◌>>=◌, In, Distinct, Settles, update,
}
use k3s_virtual_machine.Jit.Graph.{
  Ir, Graph, Inst, BasicBlock, empty_block, get_blocks_count, get_entry_block, new_marker, mark_bb,
  is_marked,
}
use k3s_virtual_machine.Jit.Loops.{Loop, Loops}
use k3s_virtual_machine.Jit.LinearOrder.{
  build_linear_order, order_dfs, all_side_preds_marked, is_header, preds_marked, visit_block,
  visit_succs, assign_life_numbers, number_phis, number_insts, all_back_edges_marked,
}
use k3s_virtual_machine.Jit.LinearOrder.Visits.{Shape, IsBlock}
use k3s_virtual_machine.Jit.LinearOrder.Order.{
  IsOrderable, IsLinearOrder, build_linear_order-IsLinearOrder,
}

abbrev no_loops : ℕ → Option Loop
no_loops l = none

-- The root loop 0, and the loop 1 of block 2.
abbrev loops : Loops
loops =
    update
      (update no_loops 0 (
        some (record {
          header = none;
          back_edges = [];
          inner = 1 ∷ [];
          outer = none;
          reducible = true;
          id = 0;
        })))
      1
      (some (record {
        header = some 2;
        back_edges = 2 ∷ [];
        inner = [];
        outer = some 0;
        reducible = true;
        id = 1;
      }))

abbrev no_edges : ℕ → List ℕ
no_edges a = []

abbrev in_root : ℕ → Option ℕ
in_root a = some 0

abbrev shape : Shape
shape = record {
  succs = update (update no_edges 1 (2 ∷ [])) 2 (2 ∷ 0 ∷ []);
  preds = update (update no_edges 2 (1 ∷ 2 ∷ [])) 0 (2 ∷ []);
  loop = update in_root 2 (some 1);
  loops = loops;
}

abbrev block_of : ℕ → BasicBlock
block_of a = record empty_block {
  succs = shape.succs a;
  preds = shape.preds a;
  loop = shape.loop a;
}

abbrev no_blocks : ℕ → Option BasicBlock
no_blocks a = none

abbrev no_insts : ℕ → Option Inst
no_insts a = none

abbrev looped : Ir
looped = record {
  insts = no_insts;
  bbs =
      update (update (update no_blocks 0 (some (block_of 0))) 1 (some (block_of 1))) 2
        (some (block_of 2));
  inst_id = 0;
  block_id = 3;
}

abbrev graph : Graph
graph = record {
  marker = 0;
  blocks_id_offset = 0;
  blocks = some 0 ∷ some 1 ∷ some 2 ∷ [];
  rpo = [];
  idoms = λ _. none;
}

abbrev blocks : List ℕ
blocks = 1 ∷ 2 ∷ 0 ∷ []

by_block : (P : ℕ → Type 0) → P 1 → P 2 → P 0 → (a : ℕ) → In a blocks → P a
by_block P p q r a (inl e) = subst P e p
by_block P p q r a (inr (inl e)) = subst P e q
by_block P p q r a (inr (inr (inl e))) = subst P e r
by_block P p q r a (inr (inr (inr i))) = elim i [ ]

blocks-Distinct : Distinct blocks
blocks-Distinct = ((λ e. omega arith, (λ e. omega arith, tt)), ((λ e. omega arith, tt), (tt, tt)))

looped-IsOrderable : IsOrderable shape blocks 1 4 graph looped
unfolding get_blocks_count get_entry_block
looped-IsOrderable = record {
  distinct = blocks-Distinct;
  blocks = record {
    block =
        by_block (λ a. (b : BasicBlock) × IsBlock shape blocks blocks-Distinct 1 4 looped a b)
          (_, (refl, refl, refl, refl, tt, tt)) (_, (refl, refl, refl, refl, tt, tt))
          (_, (refl, refl, refl, refl, tt, tt));
    succs_in = λ a v i.
        by_block (λ x. In v (shape.succs x) → In v blocks)
          (λ j. elim j [ inl e ↦ inr (inl e) | inr k ↦ elim k [ ] ])
          (λ j. elim j [ inl e ↦ inr (inl e) | inr k ↦ inr (inr k) ]) (λ j. elim j [ ]) a i;
    preds_in = λ a v i.
        by_block (λ x. In v (shape.preds x) → In v blocks) (λ j. elim j [ ])
          (λ j. elim j [ inl e ↦ inl e | inr (inl e) ↦ inr (inl e) | inr (inr k) ↦ elim k [ ] ])
          (λ j. elim j [ inl e ↦ inr (inl e) | inr k ↦ elim k [ ] ]) a i;
  };
  count = refl;
  first = refl;
  entry_in = inl refl;
  marks_left = omega arith;
  fresh = λ a. elim (Bool-cases (2 == a)) [
    | inl e ↦ rw e refl
    | inr e ↦ elim (Bool-cases (1 == a)) [
      | inl f ↦ rw (e, f) refl
      | inr f ↦ elim (Bool-cases (0 == a)) [ inl k ↦ rw (e, f, k) refl | inr k ↦ rw (e, f, k) refl ]
    ]
  ];
}

order : Outcome (List (Option ℕ × ℕ))
order = do r ← build_linear_order 3 4 loops (some 0) graph looped; ok r.0

order_value : order ≡ ok ((some 1, 0) ∷ (some 2, 2) ∷ (some 0, 4) ∷ (none, 6) ∷ [])
unfolding order build_linear_order new_marker get_entry_block get_blocks_count order_dfs
    all_side_preds_marked is_header preds_marked visit_block visit_succs mark_bb is_marked
    assign_life_numbers number_phis number_insts all_back_edges_marked
order_value = refl

build_linear_order-IsLinearOrder_example :
    Settles (IsLinearOrder shape blocks) (build_linear_order 3 4 loops (some 0) graph looped)
build_linear_order-IsLinearOrder_example =
    build_linear_order-IsLinearOrder shape blocks 1 3 4 (some 0) graph looped (omega arith)
      looped-IsOrderable
