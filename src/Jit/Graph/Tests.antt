-- ===== src/Jit/Graph/Tests.antt =====
-- A block with three instructions, 1, 2 and 3, and a new one, 4.
use k3s_virtual_machine.Base.{
  ℕ, ◌≡◌, refl, inr, Option, none, some, [], ◌∷◌, arith, ok, err, undefined, update,
}
use k3s_virtual_machine.Jit.Graph.{Ir, Inst, BasicBlock, empty_block, op_const, type_int64}
use k3s_virtual_machine.Jit.Graph.Block.{push_back, remove_in_bb, prepend, replace_in_bb}
use k3s_virtual_machine.Jit.Graph.Chain.{Holds, Elsewhere, IsRelinked}
use k3s_virtual_machine.Jit.Graph.PushBack.{IsLoose, push_back-Holds}
use k3s_virtual_machine.Jit.Graph.Removal.{remove_in_bb-Holds}
use k3s_virtual_machine.Jit.Graph.Insertion.{prepend-Holds, replace_in_bb-Holds, replace_in_bb-ends}

abbrev instruction : ℕ → Option ℕ → Option ℕ → Option ℕ → Inst
instruction i bb prev next = record {
  opcode = op_const;
  id = i;
  ln = 0;
  bb = bb;
  first_user = none;
  prev = prev;
  next = next;
  inputs = [];
  users = [];
  type = type_int64;
  imm = 0;
}

abbrev no_insts : ℕ → Option Inst
no_insts _ = none

abbrev no_blocks : ℕ → Option BasicBlock
no_blocks _ = none

abbrev three : Ir
three = record {
  insts =
      update
        (update
          (update (update no_insts 1 (some (instruction 1 (some 7) none (some 2)))) 2
            (some (instruction 2 (some 7) (some 1) (some 3))))
          3 (some (instruction 3 (some 7) (some 2) none)))
        4 (some (instruction 4 none none none));
  bbs = update no_blocks 7 (some (record empty_block { first_inst = some 1; last_inst = some 3 }));
  inst_id = 4;
  block_id = 8;
}

three-Holds : Holds three 7 (1 ∷ 2 ∷ 3 ∷ [])
three-Holds = record {
  block = record empty_block { first_inst = some 1; last_inst = some 3 };
  there = refl;
  first = refl;
  last = refl;
  linked = (
    record { inst = _; there = refl; in_block = refl; prev = refl; next = refl; plain = refl },
    (
      record { inst = _; there = refl; in_block = refl; prev = refl; next = refl; plain = refl },
      (
        record { inst = _; there = refl; in_block = refl; prev = refl; next = refl; plain = refl },
        tt,
      ),
    ),
  );
  distinct = ((λ e. omega arith, (λ e. omega arith, tt)), ((λ e. omega arith, tt), (tt, tt)));
}

three-IsLoose : IsLoose three 4
three-IsLoose = record {
  inst = _;
  there = refl;
  no_block = refl;
  no_prev = refl;
  no_next = refl;
  plain = refl;
}

push_back-Holds_example :
    (ir' : Ir) × (push_back three 7 4 ≡ ok ir')
    × Holds ir' 7 (1 ∷ 2 ∷ 3 ∷ 4 ∷ [])
    × Elsewhere three ir' 7 (1 ∷ 2 ∷ 3 ∷ 4 ∷ [])
    × IsRelinked three ir'
push_back-Holds_example =
    push_back-Holds three 7 4 (1 ∷ 2 ∷ 3 ∷ []) three-Holds three-IsLoose
      (λ e. omega arith, (λ e. omega arith, (λ e. omega arith, tt)))

remove_in_bb-Holds_example :
    (ir' : Ir) × (remove_in_bb three 2 ≡ ok ir')
    × Holds ir' 7 (1 ∷ 3 ∷ [])
    × IsLoose ir' 2
    × Elsewhere three ir' 7 (1 ∷ 2 ∷ 3 ∷ [])
    × IsRelinked three ir'
remove_in_bb-Holds_example = remove_in_bb-Holds three 7 2 (1 ∷ []) (3 ∷ []) three-Holds

prepend-Holds_example :
    (ir' : Ir) × (prepend three 2 4 ≡ ok ir')
    × Holds ir' 7 (1 ∷ 4 ∷ 2 ∷ 3 ∷ [])
    × Elsewhere three ir' 7 (1 ∷ 4 ∷ 2 ∷ 3 ∷ [])
    × IsRelinked three ir'
prepend-Holds_example =
    prepend-Holds three 7 2 4 [] 1 (3 ∷ []) three-Holds three-IsLoose
      (λ e. omega arith, (λ e. omega arith, (λ e. omega arith, tt)))

replace_in_bb-Holds_example :
    (ir' : Ir) × (replace_in_bb three 2 4 ≡ ok ir')
    × Holds ir' 7 (1 ∷ 4 ∷ 3 ∷ [])
    × IsLoose ir' 2
    × Elsewhere three ir' 7 (1 ∷ 2 ∷ 4 ∷ 3 ∷ [])
    × IsRelinked three ir'
replace_in_bb-Holds_example =
    replace_in_bb-Holds three 7 2 4 [] 1 3 [] three-Holds three-IsLoose
      (λ e. omega arith, (λ e. omega arith, (λ e. omega arith, tt)))

replace_in_bb-ends_example : replace_in_bb three 3 4 ≡ err undefined
replace_in_bb-ends_example =
    replace_in_bb-ends three 7 3 4 (1 ∷ 2 ∷ []) [] three-Holds three-IsLoose
      (λ e. omega arith, (λ e. omega arith, (λ e. omega arith, tt))) (inr refl)
