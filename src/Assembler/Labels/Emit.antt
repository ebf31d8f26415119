-- ===== src/Assembler/Labels/Emit.antt =====
-- Instructions that refer to a label, and those that do not (assembler/assembler.h).
use k3s_virtual_machine.Base.{
  ℕ, ◌<◌, arith, ◌≡◌, refl, inl, inr, ◌||◌, none, some, List, [], ◌∷◌, ◌++◌, Bytes, bytes_eq_iff,
  lookup, lookup-insert, ◌∙◌, ok, ◌==◌, length, Option-cases, length-append, get_elem?-append_left,
  get_elem?-append_last,
}
use k3s_virtual_machine.Interpreter.Isa.{BytecodeInstruction, instruction}
use k3s_virtual_machine.Assembler.{
  AsmEncoder, pending, get_resolve_relative_offset, instruction_with_name, append_unresolved_labels,
}
use k3s_virtual_machine.Assembler.Labels.Patch.{mem}
use native.Mathlib.Decide.{ℕ_discrete}
use k3s_virtual_machine.Assembler.Labels.Invariant.{IsLinked, PointsTo, Refs, refer}

mem-append : (i n : ℕ) (ps : List ℕ) → mem i (ps ++ n ∷ []) ≡ (mem i ps || i == n)
mem-append i n [] = ground arith
mem-append i n (p ∷ ps) = ground (arith, mem-append i n ps)

-- The encoder with one more instruction.
abbrev pub extended : AsmEncoder → BytecodeInstruction → AsmEncoder
extended e b = record e { instructions_buffer = e.instructions_buffer ++ b ∷ [] }

module _ (e : AsmEncoder) (refs : Refs) (linked : IsLinked e refs) (b : BytecodeInstruction) where
  PointsTo-extended :
      (i o : ℕ) → i < length e.instructions_buffer → PointsTo e i o → PointsTo (extended e b) i o
  PointsTo-extended i o lt (c, at_i, points) =
      (c, get_elem?-append_left e.instructions_buffer (b ∷ []) i lt ∙ at_i, points)

  pub extended-IsLinked : IsLinked (extended e b) refs
  extended-IsLinked = record {
    inside = λ i label h.
        omega (arith, linked.inside i label h, length-append e.instructions_buffer (b ∷ []));
    resolved = λ i o label h d.
        PointsTo-extended i o (linked.inside i label h) (linked.resolved i o label h d);
    waiting = linked.waiting;
    only = linked.only;
  }

  -- The new instruction refers to a label that is defined.
  backward-IsLinked :
      (label : Bytes) (o : ℕ)
      → lookup label e.declared_labels ≡ some o
      → b.operands ≡ get_resolve_relative_offset o (length e.instructions_buffer)
      → IsLinked (extended e b) (refer refs (length e.instructions_buffer) label)
  backward-IsLinked label o d operands = record {
    inside = λ i other h.
        ground (arith, linked.inside i other, length-append e.instructions_buffer (b ∷ []));
    resolved = λ i p other h k. elim (ℕ_discrete i (length e.instructions_buffer)) [
      | yes q ↦
          let same : label ≡ other = ground arith in
          let place : o ≡ p = ground (arith, d, k, same) in
          (b, rw q (get_elem?-append_last e.instructions_buffer b), rw (q, ← place) operands)
      | no n ↦
          let old : refs i ≡ some other = ground arith in
          PointsTo-extended i p (linked.inside i other old) (linked.resolved i p other old k)
    ];
    waiting = λ i other h k. ground (arith, linked.waiting i other, d);
    only = λ i other m. ground (arith, linked.only i other m, linked.inside i other);
  }

  -- The new instruction refers to a label that is not defined yet.
  forward-IsLinked :
      (label : Bytes)
      → lookup label e.declared_labels ≡ none
      → IsLinked
          (extended (append_unresolved_labels e label (length e.instructions_buffer)) b)
          (refer refs (length e.instructions_buffer) label)
  unfolding append_unresolved_labels
  forward-IsLinked label d =
      let n = length e.instructions_buffer in
      let pend = λ (other : Bytes).
        lookup-insert label other (pending e label ++ n ∷ []) e.unresolved_labels in
      record {
        inside = λ i other h.
            ground (arith, linked.inside i other, length-append e.instructions_buffer (b ∷ []));
        resolved = λ i p other h k. elim (ℕ_discrete i n) [
          | yes q ↦ absurd (let same : label ≡ other = ground arith in cc)
          | no m ↦
              let old : refs i ≡ some other = ground arith in
              PointsTo-extended i p (linked.inside i other old) (linked.resolved i p other old k)
        ];
        waiting = λ i other h k. ground (
          arith,
          linked.waiting i other,
          pend other,
          bytes_eq_iff label other,
          mem-append i n (pending e label),
        );
        only = λ i other m. ground (
          arith,
          linked.only i other,
          linked.inside i other,
          pend other,
          bytes_eq_iff label other,
          mem-append i n (pending e label),
        );
      }

-- An instruction whose operand names a label leaves the references linked, the new one among them,
-- whether the label is defined already or not.
pub instruction_with_name-IsLinked :
    (e : AsmEncoder) (refs : Refs) (opcode : ℕ) (label : Bytes)
    → IsLinked e refs
    → lookup label e.declared_objects ≡ none
    → (after : AsmEncoder) × (instruction_with_name e opcode label ≡ ok after)
      × IsLinked after (refer refs (length e.instructions_buffer) label)
unfolding instruction_with_name
instruction_with_name-IsLinked e refs opcode label linked local =
    elim (Option-cases (lookup label e.declared_labels)) [
      | inl d ↦ (
        extended (append_unresolved_labels e label n) (instruction opcode 0),
        ground arith,
        forward-IsLinked e refs linked (instruction opcode 0) label d,
      )
      | inr (o, d) ↦ (
        extended e (instruction opcode (get_resolve_relative_offset o n)),
        ground arith,
        backward-IsLinked e refs linked (instruction opcode (get_resolve_relative_offset o n)) label
            o d refl,
      )
    ]
  where
    n : ℕ
    n = length e.instructions_buffer
