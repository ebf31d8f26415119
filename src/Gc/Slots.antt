-- ===== src/Gc/Slots.antt =====
-- Fix of allocator/gc.h on a reference that stands in a frame.
use k3s_virtual_machine.Base.{
  ℕ, ◌+◌, ◌<◌, arith, ◌≡◌, refl, sym, ◌∙◌, false, Option, none, some, List, Outcome, ok, ◌>>=◌,
  from_option, undefined, ◌==◌, get_elem?, set, get_elem?-set_self, get_elem?-lt,
}
use k3s_virtual_machine.Interpreter.Register.{Register, register}
use k3s_virtual_machine.Interpreter.Machine.{Frame}
use k3s_virtual_machine.Gc.{
  Gc, Slot, callee_slot, acc_slot, reg_slot, in_frame, read_slot, write_slot, fix, relocated,
  load_header,
}
use k3s_virtual_machine.Allocator.Region.{Region}
use k3s_virtual_machine.Gc.Move.{IsMoved}

present :
    {A : Type 0} (o : Option A) (k : A → Outcome ℕ) (old : ℕ)
    → (from_option undefined o >>= k) ≡ ok old
    → (a : A) × (o ≡ some a)
present none k old h = let impossible : ⊥ = cc in elim impossible [ ]
present (some a) k old h = (a, refl)

-- A write into a slot that can be read succeeds, and the slot then holds the value.
pub write_slot-read_slot :
    (s : Slot) (fs : List Frame) (old v : ℕ)
    → read_slot s fs ≡ ok old
    → (fs' : List Frame) × (write_slot s fs v ≡ ok fs') × (read_slot s fs' ≡ ok v)
unfolding read_slot write_slot
write_slot-read_slot (callee_slot i) fs old v h =
    let (f, e) = present (get_elem? fs i) _ old h in
    (
      set fs i (record f { callee = v }),
      rw e refl,
      rw (get_elem?-set_self fs i (record f { callee = v }) (get_elem?-lt fs i e)) refl,
    )
write_slot-read_slot (acc_slot i) fs old v h =
    let (f, e) = present (get_elem? fs i) _ old h in
    let f' : Frame = record f { acc = register f.acc.type v } in
    (set fs i f', rw e refl, rw (get_elem?-set_self fs i f' (get_elem?-lt fs i e)) refl)
write_slot-read_slot (reg_slot i n) fs old v h =
    let (f, e) = present (get_elem? fs i) _ old h in
    let inner : (from_option undefined (get_elem? f.regs n) >>= λ r. ok r.value) ≡ ok old =
      rw e at h in
    let (r, e') = present (get_elem? f.regs n) _ old inner in
    let regs : List Register = set f.regs n (register r.type v) in
    let f' : Frame = record f { regs = regs } in
    (
      set fs i f',
      rw (e, e') refl,
      rw
          (
            get_elem?-set_self fs i f' (get_elem?-lt fs i e),
            get_elem?-set_self f.regs n (register r.type v) (get_elem?-lt f.regs n e'),
          )
          refl,
    )

-- When a slot of a frame holds the address of a moved object, and the region of the copies does
-- not begin at address 0, Fix of the slot's reference succeeds, the slot then holds the address of
-- the copy, the object there is the one that the slot referred to before the move, and no object
-- changes.
pub fix-IsMoved :
    (g g' : Gc) (d d' : Region) (s : Slot) (a : ℕ)
    → 0 < d.start + d.cursor
    → read_slot s g'.state_stack ≡ ok a
    → (m : IsMoved g.heap g'.heap d d' a)
    → (fixed : Gc) × (fix (in_frame s) g' ≡ ok fixed)
      × (read_slot s fixed.state_stack ≡ ok m.copy)
      × (fixed.heap m.copy ≡ g.heap a)
      × (fixed.heap ≡ g'.heap)
unfolding fix relocated load_header
fix-IsMoved g g' d d' s a pos at_slot m =
    let (fs, written, reads) = write_slot-read_slot s g'.state_stack a m.copy at_slot in
    let not_null : (m.copy == 0) ≡ false = ground (arith, m.low) in
    let fixed : Gc = record g' { state_stack = fs } in
    (fixed, rw (at_slot, m.forwards, not_null, written) refl, reads, m.equal ∙ sym m.before, refl)
