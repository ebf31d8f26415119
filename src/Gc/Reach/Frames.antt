-- ===== src/Gc/Reach/Frames.antt =====
-- MarkAndFetchTargetObjects of allocator/gc_region.cpp: the marking of what the slots of all frames
-- reach.
use k3s_virtual_machine.Base.{
  ℕ, ◌+◌, ◌%◌, u64_mod, ◌<◌, arith, ◌≡◌, ◌≢◌, inl, inr, Bool, some, List, [], ◌∷◌, Outcome, ok,
  ◌>>=◌, All, length,
}
use k3s_virtual_machine.Allocator.Region.{Region}
use k3s_virtual_machine.Interpreter.Register.{Register, register, func}
use k3s_virtual_machine.Interpreter.Objects.{HeapObject, fields}
use k3s_virtual_machine.Interpreter.Machine.{Frame}
use k3s_virtual_machine.Gc.{
  Gc, Slot, callee_slot, acc_slot, reg_slot, in_frame, mark_slot, mark_regs, mark_frames,
  mark_and_fetch, mark_and_fetch_target_objects,
}
use k3s_virtual_machine.Gc.Marking.{Covers}
use k3s_virtual_machine.Gc.Roots.{unmarked-le}
use k3s_virtual_machine.Base.{Total, Total-ok, Total-bind, Total-map}
use k3s_virtual_machine.Gc.Reach.{
  WellTyped, IsTyped, Done, Walk, Ready, Walk-refl, Done-Walk, All-Done-Walk, All-WellTyped-Walk,
  Ready-Walk, Walk-trans,
}
use k3s_virtual_machine.Gc.Reach.Visit.{append_ref-Walk, Reaches}
use k3s_virtual_machine.Gc.Reach.Object.{mark_and_fetch-Reaches}

-- The registers that a frame roots, in the order of MarkAndFetchTargetObjects.
abbrev pub roots : Frame → List Register
roots f = register func f.callee ∷ f.acc ∷ f.regs

module _ (addrs : List ℕ) (n : ℕ) (visit : Register → Gc → Outcome (Bool × Gc))
    (v : Reaches addrs n visit) where
  -- The marking of the registers `rs` from `g` on returns with nothing left at any of them.
  abbrev Marks : Gc → List Register → Outcome Gc → Type 0
  Marks g rs o = Total (λ h. Walk addrs g h × All (Done h) rs) o

  mark_slot-Marks :
      (slot : Slot) (r : Register) (g : Gc)
      → Ready addrs n g
      → WellTyped g.heap r
      → Total (λ h. Walk addrs g h × Done h r) (mark_slot visit slot r g)
  unfolding mark_slot
  mark_slot-Marks slot r g ready t =
      Total-bind (λ (q : Bool × Gc). Walk addrs g q.1 × Done q.1 r) (λ h. Walk addrs g h × Done h r)
        (visit r g) _ (v r g ready t)
        λ q (w, d).
          Total-map (Walk addrs q.1) (λ h. Walk addrs g h × Done h r) _
            (append_ref-Walk addrs q.1 (in_frame slot) q.0 w.staged)
            (λ h x. (Walk-trans addrs g q.1 h w x, Done-Walk addrs q.1 h r x d))

  -- A slot, and the rest of its frame behind it.
  slot_and_rest :
      (slot : Slot) (r : Register) (rs : List Register) (g : Gc) (f : Gc → Outcome Gc)
      → Ready addrs n g
      → All (WellTyped g.heap) (r ∷ rs)
      → ((h : Gc) → Ready addrs n h → All (WellTyped h.heap) rs → Marks h rs (f h))
      → Marks g (r ∷ rs) (mark_slot visit slot r g >>= f)
  slot_and_rest slot r rs g f ready (t, ts) rest =
      Total-bind (λ h. Walk addrs g h × Done h r) (λ h. Walk addrs g h × All (Done h) (r ∷ rs)) _ f
        (mark_slot-Marks slot r g ready t)
        λ h (w, d).
          Total-map (λ k. Walk addrs h k × All (Done k) rs)
            (λ k. Walk addrs g k × All (Done k) (r ∷ rs)) (f h)
            (rest h (Ready-Walk addrs n g h w ready) (All-WellTyped-Walk addrs g h rs w ts))
            (λ k (x, ds). (Walk-trans addrs g h k w x, (Done-Walk addrs h k r x d, ds)))

  mark_regs-Marks :
      (i k : ℕ) (rs : List Register) (g : Gc)
      → Ready addrs n g
      → All (WellTyped g.heap) rs
      → Marks g rs (mark_regs visit i k rs g)
  unfolding mark_regs
  mark_regs-Marks i k [] g ready ts = (Walk-refl addrs g ready.staged, tt)
  mark_regs-Marks i k (r ∷ rs) g ready ts =
      slot_and_rest (reg_slot i k) r rs g _ ready ts
        λ h ready' ts'. mark_regs-Marks i (k + 1) rs h ready' ts'

  All-frames-WellTyped :
      (g h : Gc) (fs : List Frame)
      → Walk addrs g h
      → All (λ (f : Frame). All (WellTyped g.heap) (roots f)) fs
      → All (λ (f : Frame). All (WellTyped h.heap) (roots f)) fs
  All-frames-WellTyped g h [] w ts = tt
  All-frames-WellTyped g h (f ∷ fs) w (t, ts) =
      (All-WellTyped-Walk addrs g h (roots f) w t, All-frames-WellTyped g h fs w ts)

  All-frames-Done :
      (g h : Gc) (fs : List Frame)
      → Walk addrs g h
      → All (λ (f : Frame). All (Done g) (roots f)) fs
      → All (λ (f : Frame). All (Done h) (roots f)) fs
  All-frames-Done g h [] w ts = tt
  All-frames-Done g h (f ∷ fs) w (t, ts) =
      (All-Done-Walk addrs g h (roots f) w t, All-frames-Done g h fs w ts)

  pub mark_frames-Marks :
      (i : ℕ) (fs : List Frame) (g : Gc)
      → Ready addrs n g
      → All (λ (f : Frame). All (WellTyped g.heap) (roots f)) fs
      → Total
          (λ h. Walk addrs g h × All (λ (f : Frame). All (Done h) (roots f)) fs)
          (mark_frames visit i fs g)
  unfolding mark_frames
  mark_frames-Marks i [] g ready ts = (Walk-refl addrs g ready.staged, tt)
  mark_frames-Marks i (f ∷ fs) g ready (t, ts) =
      Total-bind (λ h. Walk addrs g h × All (λ (f' : Frame). All (Done h) (roots f')) fs)
        (λ h. Walk addrs g h × All (λ (f' : Frame). All (Done h) (roots f')) (f ∷ fs)) _ _
        (mark_frames-Marks (i + 1) fs g ready ts)
        λ h (w, ds).
          Total-map (λ k. Walk addrs h k × All (Done k) (roots f))
            (λ k. Walk addrs g k × All (λ (f' : Frame). All (Done k) (roots f')) (f ∷ fs)) _
            (slot_and_rest (callee_slot i) (register func f.callee) (f.acc ∷ f.regs) h _
              (Ready-Walk addrs n g h w ready) (All-WellTyped-Walk addrs g h (roots f) w t)
              λ h2 r2 t2.
                slot_and_rest (acc_slot i) f.acc f.regs h2 _ r2 t2
                  λ h3 r3 t3. mark_regs-Marks i 0 f.regs h3 r3 t3)
            (λ k (x, d). (Walk-trans addrs g h k w x, (d, All-frames-Done h k fs x ds)))

-- The frames and the heap before a collection: slots and registers hold what their types say, every
-- object lies at an address of the list, and none has the mark of the collection that starts.
pub record IsSound (addrs : List ℕ) (g : Gc) : Type 0 where
  pub covers : Covers addrs g.heap
  pub typed : IsTyped g.heap
  pub frames : All (λ (f : Frame). All (WellTyped g.heap) (roots f)) g.state_stack
  pub fresh : (a : ℕ) (o : HeapObject) → g.heap a ≡ some o → o.header.mark ≢ (g.mark + 1) % u64_mod
  pub staged : g.stages_stack ≢ []

-- What the marking leaves: the root slots, and the registers of every marked object, are primitive or
-- hold the address of a marked object; no object appears or disappears, and each keeps its body.
pub record IsComplete (g g' : Gc) : Type 0 where
  pub new_mark : g'.mark ≡ (g.mark + 1) % u64_mod
  pub roots_done : All (λ (f : Frame). All (Done g') (roots f)) g.state_stack
  pub closed :
      (a : ℕ) (o : HeapObject)
      → g'.heap a ≡ some o
      → o.header.mark ≡ g'.mark
      → All (Done g') (fields o.body)
  pub kept :
      (a : ℕ) (o : HeapObject)
      → g.heap a ≡ some o
      → (o' : HeapObject) × (g'.heap a ≡ some o') × (o'.body ≡ o.body)
  pub none_new :
      (a : ℕ) (o' : HeapObject)
      → g'.heap a ≡ some o'
      → (o : HeapObject) × (g.heap a ≡ some o) × (o'.body ≡ o.body)

-- When the slots of the frames and the registers of the objects hold what their types say (a
-- number, nothing, or the nonzero address of an object of that kind), every object lies at one of
-- the addresses of a list, the fuel is above the length of the list, a stage has been prepared,
-- and no object carries the mark that comes next, MarkAndFetchTargetObjects returns: every slot of
-- every frame, and every register of every object with the new mark, is primitive or holds the
-- address of an object with the new mark, so that every object that the frames reach is marked; no
-- object appears or disappears, and each keeps its body.
pub mark_and_fetch_target_objects-IsComplete :
    (addrs : List ℕ) (n : ℕ) (region : Region) (g : Gc)
    → length addrs < n
    → IsSound addrs g
    → (g' : Gc) × (mark_and_fetch_target_objects n region g ≡ ok g') × IsComplete g g'
unfolding mark_and_fetch_target_objects
mark_and_fetch_target_objects-IsComplete addrs n region g enough sound =
    let g1 : Gc = record g { mark = (g.mark + 1) % u64_mod } in
    let few = unmarked-le g1.mark g.heap addrs in
    let ready : Ready addrs n g1 = record {
      few = omega arith;
      covers = sound.covers;
      typed = sound.typed;
      staged = sound.staged;
    } in
    let (g', returns, (w, done)) =
      Total-ok (λ h. Walk addrs g1 h × All (λ (f : Frame). All (Done h) (roots f)) g.state_stack) _
        (mark_frames-Marks addrs n (mark_and_fetch n region) (mark_and_fetch-Reaches addrs n region)
          0 g.state_stack g1 ready sound.frames) in
    (
      g',
      returns,
      record {
        new_mark = w.same_mark;
        roots_done = done;
        closed = λ a o e m. elim (w.closed a o e m) [
          | inr d ↦ d
          | inl (o1, e1, m1) ↦ elim (sound.fresh a o1 e1 m1) [ ]
        ];
        kept = λ a o e. let (o', e', same, keeps) = w.there a o e in (o', e', same);
        none_new = w.back;
      },
    )
