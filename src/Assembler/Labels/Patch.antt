-- ===== src/Assembler/Labels/Patch.antt =====
-- The loop of ResolveUnresolved of assembler/assembler.h, instruction by instruction.
use k3s_virtual_machine.Base.{
  ℕ, zero, suc, ◌<◌, arith, ◌≡◌, refl, Bool, true, false, ◌||◌, Option, none, some, List, [], ◌∷◌,
  ok, ◌==◌, if◌then◌else◌, length, get_elem?, set, All, get_elem?-set_self, get_elem?-set_ne,
  length-set, ==_refl, ◌∙◌,
}
use native.Mathlib.Decide.{ℕ_discrete}
use k3s_virtual_machine.Interpreter.Isa.{BytecodeInstruction, set_operands}
use k3s_virtual_machine.Assembler.{patch, get_resolve_relative_offset}

abbrev pub mem : ℕ → List ℕ → Bool
mem a [] = false
mem a (x ∷ xs) = (a == x) || mem a xs

-- The instruction at an index, with its operand replaced.
abbrev pub with_operands : Option BytecodeInstruction → ℕ → Option BytecodeInstruction
with_operands none n = none
with_operands (some b) n = some (set_operands b n)

-- What the patched buffer holds at an index where the buffer held `b`.
abbrev pub patched : ℕ → List ℕ → ℕ → Option BytecodeInstruction → Option BytecodeInstruction
patched o ps i b = if mem i ps then with_operands b (get_resolve_relative_offset o i) else b

pub get_elem?-below :
    {A : Type 0} (l : List A) (i : ℕ) → i < length l → (a : A) × (get_elem? l i ≡ some a)
get_elem?-below [] i h = elim h [ ]
get_elem?-below (x ∷ l) zero h = (x, refl)
get_elem?-below (x ∷ l) (suc i) h = get_elem?-below l i (omega arith)

All-below_mono : (m n : ℕ) (ps : List ℕ) → n ≡ m → All (λ i. i < m) ps → All (λ i. i < n) ps
All-below_mono m n ps e h = rw e h

get_elem?-set :
    (l : List BytecodeInstruction) (p i : ℕ) (b : BytecodeInstruction)
    → p < length l
    → get_elem? (set l p b) i ≡ (if i == p then some b else get_elem? l i)
get_elem?-set l p i b h = elim (ℕ_discrete i p) [
  | yes e ↦ rw (e, ==_refl p) (get_elem?-set_self l p b h)
  | no n ↦ ground (arith, get_elem?-set_ne l p i b)
]

set_operands-twice :
    (m : Bool) (b : BytecodeInstruction) (n : ℕ)
    → (if m then some (set_operands (set_operands b n) n) else some (set_operands b n))
      ≡ some (set_operands b n)
unfolding set_operands
set_operands-twice true b n = refl
set_operands-twice false b n = refl

patched-cons :
    (o p i : ℕ) (ps : List ℕ) (buffer : List BytecodeInstruction) (b : BytecodeInstruction)
    → get_elem? buffer p ≡ some b
    → patched o ps i (
        if i == p
        then some (set_operands b (get_resolve_relative_offset o p))
        else get_elem? buffer i)
      ≡ patched o (p ∷ ps) i (get_elem? buffer i)
patched-cons o p i ps buffer b e = elim (ℕ_discrete i p) [
  | yes q ↦ rw (q, ==_refl p, e) (set_operands-twice (mem p ps) b _)
  | no n ↦ ground arith
]

-- With all indices inside the buffer the loop ends without an undefined access; it keeps the length,
-- sets the operand of each instruction of the list to its distance and leaves the others alone.
pub patch_lem :
    (o : ℕ) (ps : List ℕ) (buffer : List BytecodeInstruction)
    → All (λ i. i < length buffer) ps
    → (after : List BytecodeInstruction) × (patch o ps buffer ≡ ok after)
      × (length after ≡ length buffer)
      × ((i : ℕ) → get_elem? after i ≡ patched o ps i (get_elem? buffer i))
unfolding patch
patch_lem o [] buffer h = (buffer, refl, refl, λ i. refl)
patch_lem o (p ∷ ps) buffer h =
    let (b, e) = get_elem?-below buffer p h.0 in
    let b' = set_operands b (get_resolve_relative_offset o p) in
    let size : length (set buffer p b') ≡ length buffer = length-set buffer p b' in
    let (after, run, len, each) =
      patch_lem o ps (set buffer p b') (All-below_mono (length buffer) _ ps size h.1) in
    (
      after,
      rw e run,
      len ∙ size,
      λ i. each i ∙ rw (get_elem?-set buffer p i b' h.0) (patched-cons o p i ps buffer b e),
    )
