-- ===== src/Assembler/Operands.antt =====
-- What Encode of assembler/assembler.h packs into an operand byte, the decoder takes out again
-- (interpreter/templates/inst_decoder.cpp.erb).
use k3s_virtual_machine.Base.{
  ℕ, ◌*◌, ◌%◌, ◌^◌, ◌<◌, arith, ◌≡◌, refl, true, ◌&&◌, bit_or, ok, ◌==◌, table, table-entry, u8_mod,
  ◌++◌, ◌∷◌, [],
}
use k3s_virtual_machine.Interpreter.Isa.{
  instruction, first_near_reg, second_near_reg, first_far_reg, immediate,
}
use k3s_virtual_machine.Assembler.{AsmEncoder, encode_two, encode_one}

abbrev packed : ℕ → ℕ → ℕ
packed op1 op2 = bit_or ((op2 * 2 ^ 4) % u8_mod) op1

near_table :
    table
      (λ op1.
        table
          (λ op2.
            (first_near_reg (packed op1 op2) == op1) && (second_near_reg (packed op1 op2) == op2))
          16)
      16
    ≡ true
unfolding table first_near_reg second_near_reg
near_table = refl

near_fields :
    (op1 op2 : ℕ)
    → op1 < 16
    → op2 < 16
    → (first_near_reg (packed op1 op2) ≡ op1) × (second_near_reg (packed op1 op2) ≡ op2)
near_fields op1 op2 h k = ground (arith, table-entry _ 16 op2 k (table-entry _ 16 op1 h near_table))

far_table : table (λ op. (first_far_reg op == op) && (immediate op == op)) 256 ≡ true
unfolding table first_far_reg immediate
far_table = refl

-- Encode of two register numbers below 16 appends one instruction, from whose operand byte the
-- decoder reads back the two numbers, each in its place.
pub encode_two-decodes :
    (e : AsmEncoder) (opcode op1 op2 : ℕ)
    → op1 < 16
    → op2 < 16
    → (operands : ℕ) × (encode_two 8 4 4 e opcode op1 op2
        ≡ ok (record e {
          instructions_buffer = e.instructions_buffer ++ instruction opcode operands ∷ [];
        }))
      × (first_near_reg operands ≡ op1)
      × (second_near_reg operands ≡ op2)
unfolding encode_two
encode_two-decodes e opcode op1 op2 h k =
    let (first, second) = near_fields op1 op2 h k in (packed op1 op2, ground arith, first, second)

-- Encode of one operand byte appends one instruction, and the decoder reads the byte back as a
-- register number and as an immediate.
pub encode_one-decodes :
    (e : AsmEncoder) (opcode op : ℕ)
    → op < 256
    → (encode_one 8 8 e opcode op
        ≡ ok (record e {
          instructions_buffer = e.instructions_buffer ++ instruction opcode op ∷ [];
        }))
      × (first_far_reg op ≡ op)
      × (immediate op ≡ op)
unfolding encode_one
encode_one-decodes e opcode op h = ground (arith, table-entry _ 256 op h far_table)
