-- ===== src/Assembler/Labels/Invariant.antt =====
-- The references to labels, from the first instruction to CheckLabelsResolved (assembler/assembler.h).
use k3s_virtual_machine.Base.{
  ℕ, ◌<◌, arith, ◌≡◌, refl, ap, sym, inl, inr, true, false, Option, none, some, List, [], ◌∷◌,
  Bytes, bytes_eq, bytes_eq_iff, bytes_eq_refl, lookup, lookup-insert, insert, erase, ◌∙◌,
  lookup-erase, ok, ◌==◌, if◌then◌else◌, length, get_elem?, All, Bool-cases,
}
use k3s_virtual_machine.Interpreter.Isa.{BytecodeInstruction, set_operands}
use k3s_virtual_machine.Assembler.{
  AsmEncoder, initial, pending, get_resolve_relative_offset, define_label, resolve_unresolved,
}
use k3s_virtual_machine.Assembler.Labels.Patch.{mem, get_elem?-below, patch_lem, patched}

-- Which instruction refers to which label: what the text of the program says.
abbrev pub Refs : Type 0
Refs = ℕ → Option Bytes

abbrev pub no_refs : Refs
no_refs _ = none

abbrev pub refer : Refs → ℕ → Bytes → Refs
refer refs i label j = if i == j then some label else refs j

-- The operand of instruction `i` is its distance to `o`.
abbrev pub PointsTo : AsmEncoder → ℕ → ℕ → Type 0
PointsTo e i o =
    (b : BytecodeInstruction) × (get_elem? e.instructions_buffer i ≡ some b)
    × (b.operands ≡ get_resolve_relative_offset o i)

-- Each reference to a defined label is resolved, each other one is pending under its label, and
-- nothing else is pending.
pub record IsLinked (e : AsmEncoder) (refs : Refs) : Type 0 where
  pub inside : (i : ℕ) (label : Bytes) → refs i ≡ some label → i < length e.instructions_buffer
  pub resolved :
      (i o : ℕ) (label : Bytes)
      → refs i ≡ some label
      → lookup label e.declared_labels ≡ some o
      → PointsTo e i o
  pub waiting :
      (i : ℕ) (label : Bytes)
      → refs i ≡ some label
      → lookup label e.declared_labels ≡ none
      → mem i (pending e label) ≡ true
  pub only : (i : ℕ) (label : Bytes) → mem i (pending e label) ≡ true → refs i ≡ some label

pub initial-IsLinked : IsLinked initial no_refs
unfolding lookup
initial-IsLinked = record {
  inside = λ i l h. cc;
  resolved = λ i o l h. cc;
  waiting = λ i l h. cc;
  only = λ i l h. cc;
}

mem-All : {P : ℕ → Type 0} (ps : List ℕ) → ((i : ℕ) → mem i ps ≡ true → P i) → All P ps
mem-All [] h = tt
mem-All (p ∷ ps) h = (h p (ground arith), mem-All ps (λ i m. h i (ground arith)))

-- The encoder after DefineLabel, where the patched buffer is `buffer`.
abbrev defined : AsmEncoder → Bytes → List BytecodeInstruction → AsmEncoder
defined e label buffer = record e {
  instructions_buffer = buffer;
  declared_labels = insert label (length e.instructions_buffer) e.declared_labels;
  unresolved_labels = erase label e.unresolved_labels;
}

module _ (e : AsmEncoder) (refs : Refs) (label : Bytes) (linked : IsLinked e refs)
    (fresh : lookup label e.declared_labels ≡ none) (buffer : List BytecodeInstruction)
    (len : length buffer ≡ length e.instructions_buffer)
    (each : (i : ℕ)
      → get_elem? buffer i
        ≡ patched
            (length e.instructions_buffer)
            (pending e label)
            i
            (get_elem? e.instructions_buffer i)) where
  look :
      (other : Bytes)
      → lookup other (defined e label buffer).declared_labels ≡ (
          if bytes_eq label other
          then some (length e.instructions_buffer)
          else lookup other e.declared_labels)
  look other = lookup-insert label other _ _

  not_pending :
      (i : ℕ) (other : Bytes)
      → refs i ≡ some other
      → bytes_eq label other ≡ false
      → mem i (pending e label) ≡ false
  not_pending i other h differ = ground (arith, linked.only i label, bytes_eq_iff label other)

  defined-PointsTo :
      (i o : ℕ) (other : Bytes)
      → refs i ≡ some other
      → lookup other (defined e label buffer).declared_labels ≡ some o
      → PointsTo (defined e label buffer) i o
  unfolding set_operands
  defined-PointsTo i o other h d = elim (Bool-cases (bytes_eq label other)) [
    | inl same ↦
        let eq : label ≡ other = (bytes_eq_iff label other).0 same in
        let here : length e.instructions_buffer ≡ o = ground (arith, look other) in
        let waits = linked.waiting i label (h ∙ ap some (sym eq)) fresh in
        let (b, at_i) = get_elem?-below e.instructions_buffer i (linked.inside i other h) in
        (set_operands b (get_resolve_relative_offset o i), each i ∙ rw (waits, at_i, here), refl)
    | inr differ ↦
        let (b, at_i, points) = linked.resolved i o other h (ground (arith, look other)) in
        (b, each i ∙ rw (not_pending i other h differ) at_i, points)
  ]

  pend :
      (other : Bytes)
      → pending (defined e label buffer) other
        ≡ (if bytes_eq label other then [] else pending e other)
  pend other = ground (arith, lookup-erase label other e.unresolved_labels)

  defined-IsLinked : IsLinked (defined e label buffer) refs
  defined-IsLinked = record {
    inside = λ i other h. rw len (linked.inside i other h);
    resolved = defined-PointsTo;
    waiting = λ i other h d. ground (arith, look other, pend other, linked.waiting i other h);
    only = λ i other m. ground (arith, pend other, linked.only i other);
  }

-- DefineLabel of a label that is not defined yet patches every instruction that waits for it, without
-- an access outside the buffer, and the references are linked again.
pub define_label-IsLinked :
    (e : AsmEncoder) (refs : Refs) (label : Bytes)
    → IsLinked e refs
    → lookup label e.declared_labels ≡ none
    → (after : AsmEncoder) × (define_label e label ≡ ok after) × IsLinked after refs
unfolding define_label resolve_unresolved
define_label-IsLinked e refs label linked fresh =
    let (buffer, run, len, each) =
      patch_lem (length e.instructions_buffer) (pending e label) e.instructions_buffer
        (mem-All (pending e label) (λ i m. linked.inside i label (linked.only i label m))) in
    (
      defined e label buffer,
      ground (
        arith,
        run,
        fresh,
        bytes_eq_refl label,
        lookup-insert label label (length e.instructions_buffer) e.declared_labels,
      ),
      defined-IsLinked e refs label linked fresh buffer len each,
    )
