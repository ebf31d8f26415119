-- ===== src/Interpreter/Isa.antt =====
-- The instruction word of interpreter/bytecode_instruction.h, the opcodes of isa/isa.yaml, and the
-- operand fields that interpreter/templates/inst_decoder.cpp.erb takes out of an instruction.
use k3s_virtual_machine.Base.{
  ℕ, ◌+◌, ◌-◌, ◌/◌, ◌%◌, ◌^◌, bit_and, Option, List, [], ◌∷◌, ltb, if◌then◌else◌, get_elem?,
  u64_mod,
}

-- The fields `opcode_` and `operands_`, two bytes.
pub record BytecodeInstruction : Type 0 where
  pub opcode : ℕ
  pub operands : ℕ

abbrev pub instruction : ℕ → ℕ → BytecodeInstruction
instruction opcode operands = record { opcode = opcode; operands = operands }

unfoldable pub set_operands : BytecodeInstruction → ℕ → BytecodeInstruction
set_operands i operands = record i { operands = operands }

pub data Opcode : Type 0 where
  jump ble blt bge bne call ret getthis stnull ldai lda sta mov add sub mul div mod_ : Opcode
  add2 sub2 div2 mul2 deca newarr setelem getelem dump dumpa getarg0 getarg1 setret0 : Opcode
  setarg0 setarg1 getret0 : Opcode

-- The enumeration, in the order of the groups.
abbrev pub opcodes : List Opcode
opcodes =
    jump ∷ ble ∷ blt ∷ bge ∷ bne ∷ call ∷ ret ∷ getthis ∷ stnull ∷ ldai ∷ lda ∷ sta ∷ mov ∷ add
    ∷ sub ∷ mul ∷ div ∷ mod_ ∷ add2 ∷ sub2 ∷ div2 ∷ mul2 ∷ deca ∷ newarr ∷ setelem ∷ getelem ∷ dump
    ∷ dumpa ∷ getarg0 ∷ getarg1 ∷ setret0 ∷ setarg0 ∷ setarg1 ∷ getret0 ∷ []

unfoldable pub opcode_of : ℕ → Option Opcode
opcode_of n = get_elem? opcodes n

-- `Opcode::RET` as a byte.
abbrev pub ret_byte : ℕ
ret_byte = 6

-- `pc += imm` with `pc` a `size_t` and `imm` the `int8_t` that the byte `imm` stands for.
unfoldable pub add_imm : ℕ → ℕ → ℕ
add_imm pc imm = (pc + (if ltb imm 128 then imm else imm + u64_mod - 256)) % u64_mod

-- The fields of the signature opc_r4_r4.
unfoldable pub first_near_reg : ℕ → ℕ
first_near_reg operands = bit_and operands 15

unfoldable pub second_near_reg : ℕ → ℕ
second_near_reg operands = bit_and operands 240 / 2 ^ 4

-- The fields of opc_r8 and opc_i8.
unfoldable pub first_far_reg : ℕ → ℕ
first_far_reg operands = bit_and operands 255

unfoldable pub immediate : ℕ → ℕ
immediate operands = bit_and operands 255
