-- ===== src/Assembler.antt =====
-- assembler/assembler.h: the encoder's state and its operations, which the actions of the grammar
-- (assembler/templates/grammar.l.erb) call. A C string is the list of its bytes, without the NUL.
pub mod Labels
pub mod Operands
mod Tests
use Prim.Native.Nat.{pred}
use k3s_virtual_machine.Base.{
  ℕ, zero, suc, ◌+◌, ◌-◌, ◌*◌, ◌%◌, ◌^◌, bit_or, Bool, true, false, not, Option, none, some, List,
  [], ◌∷◌, ◌++◌, Bytes, lookup, insert, erase, Outcome, ok, err, ◌>>=◌, ◌>>◌, guard, from_option,
  assertion, undefined, label_redeclared, labels_unresolved, missing_ret, ◌==◌, ltb, leb,
  if◌then◌else◌, length, get_elem?, set, u8_mod,
}
use k3s_virtual_machine.Interpreter.Isa.{BytecodeInstruction, instruction, set_operands, ret_byte}
use k3s_virtual_machine.Classfile.ConstantPool.{
  ConstantPool, empty_pool, set_num, set_str, set_function, set_object,
}

pub record ObjectDescr : Type 0 where
  pub data_fields : List Bytes
  pub methods : List Bytes
  pub methods_bc_offsets : List ℕ

abbrev pub empty_descr : ObjectDescr
empty_descr = record { data_fields = []; methods = []; methods_bc_offsets = [] }

pub record AsmEncoder : Type 0 where
  pub instructions_buffer : List BytecodeInstruction
  pub declared_objects : List (Bytes × ℕ)
  pub declared_labels : List (Bytes × ℕ)
  pub unresolved_labels : List (Bytes × List ℕ)
  pub strings_storage : List Bytes
  pub objects_storage : List ObjectDescr
  pub constant_pool : ConstantPool
  pub temp_idx : ℕ
  pub is_class_context : Bool

abbrev pub initial : AsmEncoder
initial = record {
  instructions_buffer = [];
  declared_objects = [];
  declared_labels = [];
  unresolved_labels = [];
  strings_storage = [];
  objects_storage = [];
  constant_pool = empty_pool;
  temp_idx = 0;
  is_class_context = false;
}

-- `instructions_buffer_.emplace_back(opcode, operands)`
abbrev emplace : AsmEncoder → ℕ → ℕ → AsmEncoder
emplace e opcode operands = record e {
  instructions_buffer = e.instructions_buffer ++ instruction opcode operands ∷ [];
}

-- `Encode<opc_size, op1_size, op2_size>`
unfoldable pub encode_two : ℕ → ℕ → ℕ → AsmEncoder → ℕ → ℕ → ℕ → Outcome AsmEncoder
encode_two opc_size op1_size op2_size e opcode op1 op2 =
    guard (opc_size + op1_size + op2_size == 16) assertion
    >> (guard (leb op1 15) assertion >> ok (emplace e opcode (bit_or ((op2 * 2 ^ 4) % u8_mod) op1)))

-- `Encode<opc_size, op1_size>`
unfoldable pub encode_one : ℕ → ℕ → AsmEncoder → ℕ → ℕ → Outcome AsmEncoder
encode_one opc_size op1_size e opcode operand =
    guard (opc_size + op1_size == 16) assertion >> ok (emplace e opcode operand)

-- `Encode<opc_size>`
unfoldable pub encode_none : ℕ → AsmEncoder → ℕ → Outcome AsmEncoder
encode_none opc_size e opcode = guard (opc_size + 8 == 16) assertion >> ok (emplace e opcode 0)

abbrev is_none {ℓ} : {A : Type ℓ} → Option A → Bool
is_none none = true
is_none (some _) = false

unfoldable pub declare_id : AsmEncoder → Bytes → Outcome AsmEncoder
declare_id e key =
    guard (is_none (lookup key e.declared_objects)) assertion
    >> (let idx = length e.declared_objects % u8_mod in
        ok (record e { declared_objects = insert key idx e.declared_objects; temp_idx = idx }))

unfoldable pub declare_and_define_function : AsmEncoder → Bytes → Outcome AsmEncoder
unfolding declare_id set_function
declare_and_define_function e0 c_str = do
  e ← declare_id e0 c_str
  let bc_offset = length e.instructions_buffer
  ok (record e { constant_pool = set_function e.constant_pool e.temp_idx bc_offset })

-- `v.back()` changed by `f`; undefined on an empty vector.
unfoldable pub update_last :
    (ObjectDescr → ObjectDescr) → List ObjectDescr → Outcome (List ObjectDescr)
update_last f [] = err undefined
update_last f (d ∷ []) = ok (f d ∷ [])
update_last f (d ∷ c ∷ ds) = do ok (d ∷ (← update_last f (c ∷ ds)))

unfoldable pub declare_and_define_method : AsmEncoder → Bytes → Outcome AsmEncoder
unfolding update_last
declare_and_define_method e c_str = do
  let bc_offset = length e.instructions_buffer
  ds ←
      update_last
        (λ d. record d {
          methods_bc_offsets = d.methods_bc_offsets ++ bc_offset ∷ [];
          methods = d.methods ++ c_str ∷ [];
        })
        e.objects_storage
  ok (record e { objects_storage = ds })

unfoldable pub declare_and_define_any_data_member : AsmEncoder → Bytes → Outcome AsmEncoder
unfolding update_last
declare_and_define_any_data_member e c_str = do
  ds ← update_last (λ d. record d { data_fields = d.data_fields ++ c_str ∷ [] }) e.objects_storage
  ok (record e { objects_storage = ds })

unfoldable pub declare_object : AsmEncoder → Bytes → Outcome AsmEncoder
unfolding declare_id set_object
declare_object e0 c_str = do
  e ← declare_id e0 c_str
  ok (record e {
    constant_pool = set_object e.constant_pool e.temp_idx (length e.objects_storage);
    objects_storage = e.objects_storage ++ empty_descr ∷ [];
  })

unfoldable pub finalize_object : AsmEncoder → AsmEncoder
finalize_object e = record e { is_class_context = false }

-- `bits` is the double that `atof` reads from the text, by its bits.
unfoldable pub define_num : AsmEncoder → ℕ → AsmEncoder
unfolding set_num
define_num e bits = record e { constant_pool = set_num e.constant_pool e.temp_idx bits }

-- A text without its last byte, which must be a quote.
unfoldable pub drop_quote : Bytes → Outcome Bytes
drop_quote [] = err undefined
drop_quote (c ∷ []) = guard (c == b'"') assertion >> ok []
drop_quote (c ∷ d ∷ cs) = do ok (c ∷ (← drop_quote (d ∷ cs)))

unfoldable pub define_str : AsmEncoder → Bytes → Outcome AsmEncoder
unfolding drop_quote set_str
define_str e [] = err assertion
define_str e (c ∷ cs) = do
  guard (c == b'"') assertion
  s ← drop_quote cs
  let storage = e.strings_storage ++ s ∷ []
  ok (record e {
    strings_storage = storage;
    constant_pool = set_str e.constant_pool e.temp_idx (pred (length storage));
  })

-- `static_cast<int8_t>(label_offset - inst_offset)`, as the byte that stands for it.
unfoldable pub get_resolve_relative_offset : ℕ → ℕ → ℕ
get_resolve_relative_offset label_offset inst_offset =
    if leb inst_offset label_offset
    then (label_offset - inst_offset) % u8_mod
    else (u8_mod - (inst_offset - label_offset) % u8_mod) % u8_mod

-- The vector at a key of `unresolved_labels_`, empty where the key is missing.
abbrev pub pending : AsmEncoder → Bytes → List ℕ
pending e label = elim (lookup label e.unresolved_labels) [ none ↦ [] | some l ↦ l ]

unfoldable pub append_unresolved_labels : AsmEncoder → Bytes → ℕ → AsmEncoder
append_unresolved_labels e label inst_idx = record e {
  unresolved_labels = insert label (pending e label ++ inst_idx ∷ []) e.unresolved_labels;
}

-- The operand byte, and the encoder with the reference noted where the name is not known.
unfoldable pub try_resolve_name : AsmEncoder → Bytes → ℕ × AsmEncoder
unfolding get_resolve_relative_offset append_unresolved_labels
try_resolve_name e key =
    let inst_idx = length e.instructions_buffer in
    elim (lookup key e.declared_objects) [
      | some idx ↦ (idx, e)
      | none ↦ elim (lookup key e.declared_labels) [
        | some label_offset ↦ (get_resolve_relative_offset label_offset inst_idx, e)
        | none ↦ (0, append_unresolved_labels e key inst_idx)
      ]
    ]

-- The loop of ResolveUnresolved.
unfoldable pub patch : ℕ → List ℕ → List BytecodeInstruction → Outcome (List BytecodeInstruction)
unfolding get_resolve_relative_offset set_operands
patch label_offset [] buffer = ok buffer
patch label_offset (inst_idx ∷ rest) buffer = do
  i ← from_option undefined (get_elem? buffer inst_idx)
  patch label_offset rest
      (set buffer inst_idx (set_operands i (get_resolve_relative_offset label_offset inst_idx)))

unfoldable pub resolve_unresolved : AsmEncoder → Bytes → Outcome AsmEncoder
unfolding patch
resolve_unresolved e label = do
  label_offset ← from_option assertion (lookup label e.declared_labels)
  buffer ← patch label_offset (pending e label) e.instructions_buffer
  ok (record e {
    instructions_buffer = buffer;
    unresolved_labels = erase label e.unresolved_labels;
  })

unfoldable pub define_label : AsmEncoder → Bytes → Outcome AsmEncoder
unfolding resolve_unresolved
define_label e label =
    guard (is_none (lookup label e.declared_labels)) label_redeclared
    >> resolve_unresolved
        (record e {
          declared_labels = insert label (length e.instructions_buffer) e.declared_labels;
        })
        label

unfoldable pub last_instruction : List BytecodeInstruction → Outcome BytecodeInstruction
last_instruction [] = err undefined
last_instruction (i ∷ []) = ok i
last_instruction (i ∷ j ∷ is) = last_instruction (j ∷ is)

unfoldable pub check_labels_resolved : AsmEncoder → Outcome (Unit {0})
unfolding last_instruction
check_labels_resolved e = do
  guard (length e.unresolved_labels == 0) labels_unresolved
  i ← last_instruction e.instructions_buffer
  guard (i.opcode == ret_byte) missing_ret

-- The grammar's action for an instruction of signature opc_i8 whose operand is a name.
unfoldable pub instruction_with_name : AsmEncoder → ℕ → Bytes → Outcome AsmEncoder
unfolding try_resolve_name encode_one
instruction_with_name e opcode name =
    let (operand, e') = try_resolve_name e name in encode_one 8 8 e' opcode operand
