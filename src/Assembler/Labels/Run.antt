-- ===== src/Assembler/Labels/Run.antt =====
-- A whole assembly: any sequence of the encoder's operations (assembler/assembler.h), and what
-- CheckLabelsResolved then guarantees.
use k3s_virtual_machine.Base.{
  ℕ, ◌+◌, ◌%◌, ◌^◌, ◌*◌, bit_or, ◌≤◌, ◌<◌, arith, ◌≡◌, ◌∙◌, sym, none, some, [], Bytes, lookup, ok,
  get_elem?, length, Option-cases, ok-injective, ◌⊎◌, inl, inr, ◌≢◌, lookup-eq-nil,
}
use k3s_virtual_machine.Interpreter.Isa.{BytecodeInstruction, instruction, add_imm}
use k3s_virtual_machine.Assembler.{
  AsmEncoder, initial, pending, get_resolve_relative_offset, define_label, instruction_with_name,
  check_labels_resolved, encode_one, encode_two, encode_none, declare_id,
  declare_and_define_function, declare_and_define_method, declare_and_define_any_data_member,
  declare_object, finalize_object, define_num, define_str,
}
use k3s_virtual_machine.Assembler.Labels.Invariant.{
  IsLinked, Refs, refer, no_refs, initial-IsLinked, define_label-IsLinked,
}
use k3s_virtual_machine.Assembler.Labels.Emit.{
  extended, extended-IsLinked, instruction_with_name-IsLinked,
}

-- The operations that declare something and emit no instruction.
pub data Declares (e e' : AsmEncoder) : Type 0 where
  id : (name : Bytes) → declare_id e name ≡ ok e' → Declares e e'
  function : (name : Bytes) → declare_and_define_function e name ≡ ok e' → Declares e e'
  method : (name : Bytes) → declare_and_define_method e name ≡ ok e' → Declares e e'
  member : (name : Bytes) → declare_and_define_any_data_member e name ≡ ok e' → Declares e e'
  object : (name : Bytes) → declare_object e name ≡ ok e' → Declares e e'
  end_object : e' ≡ finalize_object e → Declares e e'
  number : (bits : ℕ) → e' ≡ define_num e bits → Declares e e'
  text : (literal : Bytes) → define_str e literal ≡ ok e' → Declares e e'

-- One operation that succeeds, with the references before and after it.
pub data Step (e : AsmEncoder) (refs : Refs) (e' : AsmEncoder) (refs' : Refs) : Type 0 where
  defines : (name : Bytes) → define_label e name ≡ ok e' → refs' ≡ refs → Step e refs e' refs'
  reference :
      (opcode : ℕ) (name : Bytes)
      → lookup name e.declared_objects ≡ none
      → instruction_with_name e opcode name ≡ ok e'
      → refs' ≡ refer refs (length e.instructions_buffer) name
      → Step e refs e' refs'
  constant :
      (opcode idx : ℕ) (name : Bytes)
      → lookup name e.declared_objects ≡ some idx
      → instruction_with_name e opcode name ≡ ok e'
      → refs' ≡ refs
      → Step e refs e' refs'
  one_operand :
      (opcode operand : ℕ)
      → encode_one 8 8 e opcode operand ≡ ok e'
      → refs' ≡ refs
      → Step e refs e' refs'
  two_registers :
      (opcode op1 op2 : ℕ)
      → encode_two 8 4 4 e opcode op1 op2 ≡ ok e'
      → refs' ≡ refs
      → Step e refs e' refs'
  no_operand : (opcode : ℕ) → encode_none 8 e opcode ≡ ok e' → refs' ≡ refs → Step e refs e' refs'
  declares : Declares e e' → refs' ≡ refs → Step e refs e' refs'

pub data Run : AsmEncoder → Refs → Type 0 where
  start : Run initial no_refs
  next : {e e' : AsmEncoder} {refs refs' : Refs} → Run e refs → Step e refs e' refs' → Run e' refs'

-- The fields that the references are about.
record SameCode (e e' : AsmEncoder) : Type 0 where
  buffer : e'.instructions_buffer ≡ e.instructions_buffer
  labels : e'.declared_labels ≡ e.declared_labels
  unresolved : e'.unresolved_labels ≡ e.unresolved_labels

declare_id-SameCode : {e e' : AsmEncoder} (name : Bytes) → declare_id e name ≡ ok e' → SameCode e e'
unfolding declare_id
declare_id-SameCode name h = ground arith

Declares-SameCode : {e e' : AsmEncoder} → Declares e e' → SameCode e e'
unfolding declare_and_define_function declare_and_define_method declare_and_define_any_data_member
    declare_object finalize_object define_num define_str
Declares-SameCode (id name h) = declare_id-SameCode name h
Declares-SameCode (function name h) = ground arith
Declares-SameCode (method name h) = ground arith
Declares-SameCode (member name h) = ground arith
Declares-SameCode (object name h) = ground arith
Declares-SameCode (end_object h) = ground arith
Declares-SameCode (number bits h) = ground arith
Declares-SameCode (text literal h) = ground arith

SameCode-IsLinked :
    {e e' : AsmEncoder} {refs : Refs} → SameCode e e' → IsLinked e refs → IsLinked e' refs
SameCode-IsLinked {e} {e'} s linked = record {
  inside = λ i name h. rw s.buffer (linked.inside i name h);
  resolved = λ i o name h d.
      let (b, at_i, points) = linked.resolved i o name h (rw s.labels at d) in
      (b, rw s.buffer at_i, points);
  waiting = λ i name h d. rw (pend name) (linked.waiting i name h (rw s.labels at d));
  only = λ i name m. linked.only i name (rw (pend name) at m);
}
  where
    pend : (name : Bytes) → pending e' name ≡ pending e name
    pend name = ground (arith, s.unresolved)

define_label-fresh :
    (e : AsmEncoder) (name : Bytes) {e' : AsmEncoder}
    → define_label e name ≡ ok e'
    → lookup name e.declared_labels ≡ none
unfolding define_label
define_label-fresh e name h = ground arith

constant-eq :
    (e : AsmEncoder) (opcode idx : ℕ) (name : Bytes) {e' : AsmEncoder}
    → lookup name e.declared_objects ≡ some idx
    → instruction_with_name e opcode name ≡ ok e'
    → e' ≡ extended e (instruction opcode idx)
unfolding instruction_with_name
constant-eq e opcode idx name found h = ground arith

two_registers-eq :
    (e : AsmEncoder) (opcode op1 op2 : ℕ) {e' : AsmEncoder}
    → encode_two 8 4 4 e opcode op1 op2 ≡ ok e'
    → (operands : ℕ) × (e' ≡ extended e (instruction opcode operands))
unfolding encode_two
two_registers-eq e opcode op1 op2 h = (bit_or ((op2 * 2 ^ 4) % 2 ^ 8) op1, ground arith)

Step-IsLinked :
    {e e' : AsmEncoder} {refs refs' : Refs}
    → Step e refs e' refs'
    → IsLinked e refs
    → IsLinked e' refs'
unfolding encode_one encode_two encode_none
Step-IsLinked {e} {e'} {refs} (defines name h same) linked =
    let fresh : lookup name e.declared_labels ≡ none = define_label-fresh e name h in
    let (after, run, done) = define_label-IsLinked e refs name linked fresh in
    rw (same, ok-injective (sym h ∙ run)) done
Step-IsLinked {e} {e'} {refs} (reference opcode name local h same) linked =
    let (after, run, done) = instruction_with_name-IsLinked e refs opcode name linked local in
    rw (same, ok-injective (sym h ∙ run)) done
Step-IsLinked {e} {e'} {refs} (constant opcode idx name found h same) linked =
    let eq : e' ≡ extended e (instruction opcode idx) = constant-eq e opcode idx name found h in
    rw (same, eq) (extended-IsLinked e refs linked (instruction opcode idx))
Step-IsLinked {e} {e'} {refs} (one_operand opcode operand h same) linked =
    rw (same, sym (ok-injective h)) (extended-IsLinked e refs linked (instruction opcode operand))
Step-IsLinked {e} {e'} {refs} (two_registers opcode op1 op2 h same) linked =
    let eq = two_registers-eq e opcode op1 op2 h in
    rw (same, eq.1) (extended-IsLinked e refs linked (instruction opcode eq.0))
Step-IsLinked {e} {e'} {refs} (no_operand opcode h same) linked =
    rw (same, sym (ok-injective h)) (extended-IsLinked e refs linked (instruction opcode 0))
Step-IsLinked (declares d same) linked = rw same (SameCode-IsLinked (Declares-SameCode d) linked)

Run-IsLinked : {e : AsmEncoder} {refs : Refs} → Run e refs → IsLinked e refs
Run-IsLinked start = initial-IsLinked
Run-IsLinked (next r s) = Step-IsLinked s (Run-IsLinked r)

resolved-nil : (e : AsmEncoder) → check_labels_resolved e ≡ ok tt → e.unresolved_labels ≡ []
unfolding check_labels_resolved
resolved-nil e h = ground arith

relative_offset-congruent :
    (o i : ℕ)
    → (get_resolve_relative_offset o i < 256)
      × ((i + get_resolve_relative_offset o i) % 256 ≡ o % 256)
unfolding get_resolve_relative_offset
relative_offset-congruent o i = ground arith

-- After any sequence of the encoder's operations from the initial state, if CheckLabelsResolved
-- passes, every instruction that was written with a label as its operand names a defined label,
-- and its operand is a byte that, added to the instruction's index, gives the label's offset
-- modulo 256.
pub check_labels_resolved-PointsTo :
    {e : AsmEncoder} {refs : Refs} (i : ℕ) (label : Bytes)
    → Run e refs
    → check_labels_resolved e ≡ ok tt
    → refs i ≡ some label
    → (o : ℕ) × (lookup label e.declared_labels ≡ some o)
      × (b : BytecodeInstruction) × (get_elem? e.instructions_buffer i ≡ some b)
      × (b.operands < 256)
      × ((i + b.operands) % 256 ≡ o % 256)
check_labels_resolved-PointsTo {e} {refs} i label r passed h =
    let linked = Run-IsLinked r in
    elim (Option-cases (lookup label e.declared_labels)) [
      | inl missing ↦ absurd (none_waits linked missing)
      | inr (o, d) ↦
          let (b, at_i, points) = linked.resolved i o label h d in
          let (byte, lands) = relative_offset-congruent o i in
          (o, d, b, at_i, rw points byte, rw points lands)
    ]
  where
    none_waits : IsLinked e refs → lookup label e.declared_labels ≡ none → ⊥
    none_waits linked missing =
        let empty = resolved-nil e passed in
        ground
          (arith, linked.waiting i label h missing, lookup-eq-nil label e.unresolved_labels empty)

-- The machine's jump by the distance that the assembler wrote ends at the label, for offsets below
-- 2^64 and a label at most 127 instructions behind the jump or 128 before it.
pub add_imm-relative :
    (o i : ℕ)
    → o < 2 ^ 64
    → i < 2 ^ 64
    → o < i + 128
    → i ≤ o + 128
    → add_imm i (get_resolve_relative_offset o i) ≡ o
unfolding add_imm get_resolve_relative_offset
add_imm-relative o i ho hi fwd bwd = ground arith

-- For offsets below 2^63 and a label more than 127 instructions behind the jump or more than 128
-- before it, the jump by the written distance ends elsewhere.
pub add_imm-far :
    (o i : ℕ)
    → o < 2 ^ 63
    → i < 2 ^ 63
    → (i + 128 ≤ o) ⊎ (o + 128 < i)
    → add_imm i (get_resolve_relative_offset o i) ≢ o
unfolding add_imm get_resolve_relative_offset
add_imm-far o i ho hi far = ground arith
