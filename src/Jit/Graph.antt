-- ===== src/Jit/Graph.antt =====
-- The graph of the compiler: jit/ir/graph/graph.h, basic_block.h, instructions.h, gen/inst.inl and
-- marker.h. An instruction and a block are known by their numbers, which the program never gives twice,
-- so a pointer is a number, and a null pointer is `none`.
pub mod Block
pub mod Users
pub mod Chain
pub mod PushBack
pub mod Removal
pub mod Insertion
mod Tests
use k3s_virtual_machine.Base.{
  ℕ, zero, suc, ◌+◌, ◌-◌, ◌%◌, Bool, true, false, ◌&&◌, ◌||◌, not, Option, none, some, List, [],
  ◌∷◌, ◌++◌, Outcome, ok, err, ◌>>=◌, ◌>>◌, guard, from_option, assertion, undefined, ltb, leb,
  ◌==◌, if◌then◌else◌, update, length, get_elem?, set, replicate, u32_mod,
}

-- `Inst::Opcode`
pub data Opcode : Type 0 where
  op_none op_const op_parameter op_cast op_call op_return op_returnvoid : Opcode
  op_checknull op_checkbounds op_getelem op_add op_sub op_mul op_neg op_not : Opcode
  op_xor op_ashr op_shl op_phi op_jmp : Opcode

-- `TypedMixin::Type`
pub data IrType : Type 0 where
  type_unknown type_float64 type_int64 type_int32 type_uint64 type_uint32 type_array : IrType

-- A `User *`: the user that stands at an input of an instruction.
pub record User : Type 0 where
  pub inst : ℕ
  pub idx : ℕ

abbrev pub user : ℕ → ℕ → User
user i n = record { inst = i; idx = n }

abbrev pub user_eq : User → User → Bool
user_eq u v = (u.inst == v.inst) && (u.idx == v.idx)

-- An instruction, with the fields of its class and of its mixins. `users` holds the `next` pointers of
-- its own users, one for each input.
pub record Inst : Type 0 where
  pub opcode : Opcode
  pub id : ℕ
  pub ln : ℕ
  pub bb : Option ℕ
  pub first_user : Option User
  pub prev : Option ℕ
  pub next : Option ℕ
  pub inputs : List (Option ℕ)
  pub users : List (Option User)
  pub type : IrType
  pub imm : ℕ

pub record BasicBlock : Type 0 where
  pub mark : ℕ
  pub first_phi : Option ℕ
  pub last_phi : Option ℕ
  pub first_inst : Option ℕ
  pub last_inst : Option ℕ
  pub loop : Option ℕ
  pub preds : List ℕ
  pub succs : List ℕ

-- All instructions and blocks, with the two counters of their numbers.
pub record Ir : Type 0 where
  pub insts : ℕ → Option Inst
  pub bbs : ℕ → Option BasicBlock
  pub inst_id : ℕ
  pub block_id : ℕ

pub record Graph : Type 0 where
  pub marker : ℕ
  pub blocks_id_offset : ℕ
  pub blocks : List (Option ℕ)
  pub rpo : List ℕ
  pub idoms : ℕ → Option ℕ

abbrev pub load_inst : Ir → ℕ → Outcome Inst
load_inst ir i = from_option undefined (ir.insts i)

abbrev pub load_bb : Ir → ℕ → Outcome BasicBlock
load_bb ir b = from_option undefined (ir.bbs b)

abbrev pub store_inst : Ir → ℕ → Inst → Ir
store_inst ir i o = record ir { insts = update ir.insts i (some o) }

abbrev pub store_bb : Ir → ℕ → BasicBlock → Ir
store_bb ir b o = record ir { bbs = update ir.bbs b (some o) }

-- A write into an object behind a pointer.
abbrev pub update_inst : Ir → ℕ → (Inst → Inst) → Outcome Ir
update_inst ir i change = do o ← load_inst ir i; ok (store_inst ir i (change o))

abbrev pub update_bb : Ir → ℕ → (BasicBlock → BasicBlock) → Outcome Ir
update_bb ir b change = do o ← load_bb ir b; ok (store_bb ir b (change o))

abbrev pub ptr_eq : Option ℕ → ℕ → Bool
ptr_eq none i = false
ptr_eq (some a) i = a == i

abbrev pub is_null {ℓ} : {A : Type ℓ} → Option A → Bool
is_null none = true
is_null (some a) = false

abbrev pub is_phi : Inst → Bool
is_phi o = elim o.opcode [ op_phi ↦ true | _ ↦ false ]

abbrev pub is_const : Inst → Bool
is_const o = elim o.opcode [ op_const ↦ true | _ ↦ false ]

abbrev pub is_neg : Inst → Bool
is_neg o = elim o.opcode [ op_neg ↦ true | _ ↦ false ]

abbrev pub is_not : Inst → Bool
is_not o = elim o.opcode [ op_not ↦ true | _ ↦ false ]

abbrev pub is_shl : Inst → Bool
is_shl o = elim o.opcode [ op_shl ↦ true | _ ↦ false ]

unfoldable pub has_dst : Inst → Bool
has_dst o = elim o.opcode [ op_return ↦ false | op_returnvoid ↦ false | op_jmp ↦ false | _ ↦ true ]

-- The size of an instruction's type; the types that the switch does not name end the process.
unfoldable pub get_size_in_bits : IrType → Outcome ℕ
get_size_in_bits type_float64 = ok 64
get_size_in_bits type_int64 = ok 64
get_size_in_bits type_uint64 = ok 64
get_size_in_bits type_int32 = ok 32
get_size_in_bits type_array = ok 8
get_size_in_bits _ = err assertion

abbrev pub is_float : IrType → Bool
is_float t = elim t [ type_float64 ↦ true | _ ↦ false ]

unfoldable pub get_down_cast_type : IrType → ℕ → Outcome IrType
get_down_cast_type t size_diff =
    guard (not (is_float t)) assertion
    >> (guard (size_diff == 32) assertion
        >> elim t [ type_int64 ↦ ok type_int32 | type_uint64 ↦ ok type_uint32 | _ ↦ err assertion ])

-- `IncInstId` and the constructors: a new instruction with `n` inputs, in no block.
unfoldable pub new_inst : Ir → Opcode → IrType → ℕ → ℕ → ℕ × Ir
new_inst ir opcode t imm n =
    let id = ir.inst_id + 1 in
    (
      id,
      record (store_inst ir id (record {
        opcode = opcode;
        id = id % u32_mod;
        ln = 0;
        bb = none;
        first_user = none;
        prev = none;
        next = none;
        inputs = replicate n none;
        users = replicate n none;
        type = t;
        imm = imm;
      })) { inst_id = id },
    )

abbrev pub empty_block : BasicBlock
empty_block = record {
  mark = 0;
  first_phi = none;
  last_phi = none;
  first_inst = none;
  last_inst = none;
  loop = none;
  preds = [];
  succs = [];
}

unfoldable pub upper_block_id : Graph → ℕ
upper_block_id g = g.blocks_id_offset + length g.blocks

abbrev null_blocks : ℕ → List (Option ℕ)
null_blocks n = replicate n none

-- `NewBB`
unfoldable pub new_bb : Graph → Ir → Outcome (ℕ × (Graph × Ir))
new_bb g ir = do
  let size = ir.block_id + 1 - g.blocks_id_offset
  guard (ltb (length g.blocks) size) assertion
  let grown = g.blocks ++ null_blocks (size - length g.blocks)
  let id = ir.block_id
  ok (
    id,
    (
      record g { blocks = set grown (id - g.blocks_id_offset) (some id) },
      record (store_bb ir id empty_block) { block_id = id + 1 },
    ),
  )

-- `Graph(bool reset_ids)`, with the numbers of the program that it may reset.
unfoldable pub new_graph : Bool → Ir → Outcome (Graph × Ir)
unfolding new_bb
new_graph reset_ids ir = do
  let ir' = if reset_ids then record ir { block_id = 0; inst_id = 0 } else ir
  let offset = if reset_ids then 0 else ir.block_id
  (_, (g, ir2)) ←
      new_bb
        (record { marker = 0; blocks_id_offset = offset; blocks = []; rpo = []; idoms = λ _. none })
        ir'
  ok (g, ir2)

-- `GetBlockById`; the callers use the block at once, so a null one is undefined.
unfoldable pub get_block_by_id : Graph → ℕ → Outcome ℕ
get_block_by_id g id = do
  slot ← from_option undefined (get_elem? g.blocks (id - g.blocks_id_offset))
  from_option undefined slot

-- `GetBlocksCount`: the number of slots that are not null.
unfoldable pub get_blocks_count : List (Option ℕ) → ℕ
get_blocks_count [] = 0
get_blocks_count (none ∷ bs) = get_blocks_count bs
get_blocks_count (some b ∷ bs) = suc (get_blocks_count bs)

unfoldable pub get_entry_block : Graph → Ir → Outcome ℕ
get_entry_block g ir = do
  slot ← from_option undefined (get_elem? g.blocks 1)
  start ← from_option undefined slot
  b ← load_bb ir start
  guard (length b.preds == 0) assertion
  ok start

unfoldable pub get_end_block : Graph → Ir → Outcome ℕ
get_end_block g ir = do
  slot ← from_option undefined (get_elem? g.blocks 0)
  last ← from_option undefined slot
  b ← load_bb ir last
  guard (length b.succs == 0) assertion
  ok last

-- marker.h
abbrev max_mark : ℕ
max_mark = u32_mod - 1

unfoldable pub new_marker : Graph → Outcome (ℕ × Graph)
new_marker g = do
  guard (ltb g.marker max_mark) assertion
  ok (g.marker + 1, record g { marker = g.marker + 1 })

unfoldable pub mark_bb : Ir → ℕ → ℕ → Outcome Ir
mark_bb ir b m = update_bb ir b (λ o. record o { mark = m })

unfoldable pub is_marked : BasicBlock → ℕ → Bool
is_marked o m = o.mark == m
