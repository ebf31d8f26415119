-- ===== src/Gc/Roots.antt =====
-- MarkAndFetchTargetObjects of allocator/gc_region.cpp: the marking from the slots of all frames.
use k3s_virtual_machine.Base.{
  ℕ, ◌+◌, ◌%◌, ◌≤◌, ◌<◌, arith, ◌≡◌, Bool, Option, List, [], ◌∷◌, Outcome, ◌>>=◌, length, u64_mod,
}
use k3s_virtual_machine.Allocator.Region.{Region}
use k3s_virtual_machine.Interpreter.Register.{Register, register, func}
use k3s_virtual_machine.Interpreter.Objects.{HeapObject}
use k3s_virtual_machine.Interpreter.Machine.{Frame}
use k3s_virtual_machine.Gc.{
  Gc, Slot, callee_slot, acc_slot, reg_slot, in_frame, mark_slot, mark_regs, mark_frames,
  mark_and_fetch, mark_and_fetch_target_objects,
}
use k3s_virtual_machine.Gc.Marking.{
  Safe, Safe-bind, Safe-map, Reached, Reached-refl, Reached-trans, Visits, unmarked, Covers,
  append_if-Safe, mark_and_fetch-Visits,
}

module _ (addrs : List ℕ) (n : ℕ) (visit : Register → Gc → Outcome (Bool × Gc))
    (v : Visits addrs n visit) where
  below :
      (g h : Gc)
      → unmarked g.mark g.heap addrs < n
      → Reached addrs g h
      → unmarked h.mark h.heap addrs < n
  below g h lt r = rw r.same_mark (omega (arith, r.fewer))

  -- One part of the marking behind another.
  two_parts :
      (g : Gc) (o : Outcome Gc) (f : Gc → Outcome Gc)
      → unmarked g.mark g.heap addrs < n
      → Safe (Reached addrs g) o
      → ((h : Gc)
          → unmarked h.mark h.heap addrs < n
          → Covers addrs h.heap
          → Safe (Reached addrs h) (f h))
      → Safe (Reached addrs g) (o >>= f)
  two_parts g o f lt first second = Safe-bind (Reached addrs g) (Reached addrs g) o f first λ h r.
      Safe-map (Reached addrs h) (Reached addrs g) (f h) (second h (below g h lt r) r.covers)
        (λ k s. Reached-trans addrs g h k r s)

  mark_slot-Safe :
      (slot : Slot) (r : Register) (g : Gc)
      → unmarked g.mark g.heap addrs < n
      → Covers addrs g.heap
      → Safe (Reached addrs g) (mark_slot visit slot r g)
  unfolding mark_slot
  mark_slot-Safe slot r g lt c =
      Safe-bind (λ (q : Bool × Gc). Reached addrs g q.1) (Reached addrs g) (visit r g) _
        (v r g lt c)
        λ q s.
          Safe-map (Reached addrs q.1) (Reached addrs g) _
            (append_if-Safe addrs q.1 (in_frame slot) q.0 s.covers)
            (λ k t. Reached-trans addrs g q.1 k s t)

  mark_regs-Safe :
      (i k : ℕ) (rs : List Register) (g : Gc)
      → unmarked g.mark g.heap addrs < n
      → Covers addrs g.heap
      → Safe (Reached addrs g) (mark_regs visit i k rs g)
  unfolding mark_regs
  mark_regs-Safe i k [] g lt c = Reached-refl addrs g c
  mark_regs-Safe i k (r ∷ rs) g lt c =
      two_parts g (mark_slot visit (reg_slot i k) r g) _ lt (mark_slot-Safe (reg_slot i k) r g lt c)
        λ h l d. mark_regs-Safe i (k + 1) rs h l d

  pub mark_frames-Safe :
      (i : ℕ) (fs : List Frame) (g : Gc)
      → unmarked g.mark g.heap addrs < n
      → Covers addrs g.heap
      → Safe (Reached addrs g) (mark_frames visit i fs g)
  unfolding mark_frames
  mark_frames-Safe i [] g lt c = Reached-refl addrs g c
  mark_frames-Safe i (f ∷ fs) g lt c =
      two_parts g (mark_frames visit (i + 1) fs g) _ lt (mark_frames-Safe (i + 1) fs g lt c)
        λ g1 l1 c1.
          two_parts g1 (mark_slot visit (callee_slot i) (register func f.callee) g1) _ l1
            (mark_slot-Safe (callee_slot i) (register func f.callee) g1 l1 c1)
            λ g2 l2 c2.
              two_parts g2 (mark_slot visit (acc_slot i) f.acc g2) _ l2
                (mark_slot-Safe (acc_slot i) f.acc g2 l2 c2)
                λ g3 l3 c3. mark_regs-Safe i 0 f.regs g3 l3 c3

pub unmarked-le :
    (m : ℕ) (heap : ℕ → Option HeapObject) (addrs : List ℕ) → unmarked m heap addrs ≤ length addrs
unmarked-le m heap [] = omega arith
unmarked-le m heap (a ∷ rest) = ground (arith, unmarked-le m heap rest)

-- When every object lies at one of the addresses of a list and the fuel is above the length of the
-- list, MarkAndFetchTargetObjects does not run out of fuel; if it does not end the process, the
-- mark is one more than before, modulo 2^64, and every object still lies at one of the addresses.
pub mark_and_fetch_target_objects-Safe :
    (addrs : List ℕ) (n : ℕ) (region : Region) (g : Gc)
    → length addrs < n
    → Covers addrs g.heap
    → Safe
        (λ g'. (g'.mark ≡ (g.mark + 1) % u64_mod) × Covers addrs g'.heap)
        (mark_and_fetch_target_objects n region g)
unfolding mark_and_fetch_target_objects
mark_and_fetch_target_objects-Safe addrs n region g enough c =
    let g1 : Gc = record g { mark = (g.mark + 1) % u64_mod } in
    let few = unmarked-le g1.mark g.heap addrs in
    Safe-map (Reached addrs g1) (λ g'. (g'.mark ≡ (g.mark + 1) % u64_mod) × Covers addrs g'.heap) _
      (mark_frames-Safe addrs n (mark_and_fetch n region) (mark_and_fetch-Visits addrs n region) 0
        g.state_stack g1 (omega arith) c)
      (λ g' r. (r.same_mark, r.covers))
