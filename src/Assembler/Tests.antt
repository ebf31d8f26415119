-- ===== src/Assembler/Tests.antt =====
-- Small runs of the assembler.
use k3s_virtual_machine.Base.{
  ℕ, ◌+◌, ◌%◌, ◌<◌, get_elem?, arith, ◌≡◌, ◌≢◌, refl, inl, none, some, [], ◌∷◌, lookup, insert,
  erase, bytes_eq, ok, Bytes,
}
use k3s_virtual_machine.Interpreter.Isa.{
  BytecodeInstruction, instruction, set_operands, add_imm, first_near_reg, second_near_reg,
  first_far_reg, immediate,
}
use k3s_virtual_machine.Assembler.{
  AsmEncoder, initial, encode_two, encode_one, encode_none, define_label, instruction_with_name,
  check_labels_resolved, get_resolve_relative_offset, try_resolve_name, append_unresolved_labels,
  pending, resolve_unresolved, patch,
}
use k3s_virtual_machine.Assembler.Operands.{encode_two-decodes, encode_one-decodes}
use k3s_virtual_machine.Assembler.Labels.Invariant.{refer, no_refs}
use k3s_virtual_machine.Assembler.Labels.Run.{
  Run, start, next, reference, defines, no_operand, check_labels_resolved-PointsTo,
  add_imm-relative, add_imm-far,
}

encode_two-decodes_example :
    (operands : ℕ) × (encode_two 8 4 4 initial 13 3 5
      ≡ ok (record initial { instructions_buffer = instruction 13 operands ∷ [] }))
    × (first_near_reg operands ≡ 3)
    × (second_near_reg operands ≡ 5)
encode_two-decodes_example = encode_two-decodes initial 13 3 5 (omega arith) (omega arith)

encode_one-decodes_example :
    (encode_one 8 8 initial 10 200
      ≡ ok (record initial { instructions_buffer = instruction 10 200 ∷ [] }))
    × (first_far_reg 200 ≡ 200)
    × (immediate 200 ≡ 200)
encode_one-decodes_example = encode_one-decodes initial 10 200 (omega arith)

abbrev end_label : Bytes
end_label = 101 ∷ []

-- `jump e; e: ret`
abbrev jumping : AsmEncoder
jumping = record initial {
  instructions_buffer = instruction 0 0 ∷ [];
  unresolved_labels = (end_label, 0 ∷ []) ∷ [];
}

abbrev labelled : AsmEncoder
labelled = record initial {
  instructions_buffer = instruction 0 1 ∷ [];
  declared_labels = (end_label, 1) ∷ [];
}

abbrev finished : AsmEncoder
finished = record labelled { instructions_buffer = instruction 0 1 ∷ instruction 6 0 ∷ [] }

emits_jump : instruction_with_name initial 0 end_label ≡ ok jumping
unfolding instruction_with_name try_resolve_name lookup append_unresolved_labels pending insert
    encode_one
emits_jump = refl

defines_label : define_label jumping end_label ≡ ok labelled
unfolding define_label lookup insert bytes_eq resolve_unresolved pending patch set_operands erase
    get_resolve_relative_offset
defines_label = refl

emits_ret : encode_none 8 labelled 6 ≡ ok finished
unfolding encode_none
emits_ret = refl

not_declared : lookup end_label initial.declared_objects ≡ none
unfolding lookup
not_declared = refl

run : Run finished (refer no_refs 0 end_label)
run =
    next
      (next (next start (reference 0 end_label not_declared emits_jump refl))
        (defines end_label defines_label refl))
      (no_operand 6 emits_ret refl)

passes : check_labels_resolved finished ≡ ok tt
unfolding check_labels_resolved
passes = refl

check_labels_resolved-PointsTo_example :
    (o : ℕ) × (lookup end_label finished.declared_labels ≡ some o)
    × (b : BytecodeInstruction) × (get_elem? finished.instructions_buffer 0 ≡ some b)
    × (b.operands < 256)
    × ((0 + b.operands) % 256 ≡ o % 256)
check_labels_resolved-PointsTo_example = check_labels_resolved-PointsTo 0 end_label run passes refl

add_imm-relative_example : add_imm 100 (get_resolve_relative_offset 3 100) ≡ 3
add_imm-relative_example =
    add_imm-relative 3 100 (omega arith) (omega arith) (omega arith) (omega arith)

add_imm-far_example : add_imm 100 (get_resolve_relative_offset 228 100) ≢ 228
add_imm-far_example = add_imm-far 228 100 (omega arith) (omega arith) (inl (omega arith))
