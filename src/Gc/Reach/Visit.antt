-- ===== src/Gc/Reach/Visit.antt =====
-- One visit of MarkAndFetchRecursively (allocator/gc_region.cpp), and the registers of one object.
use k3s_virtual_machine.Base.{
  ℕ, ◌+◌, ◌%◌, u64_mod, ◌<◌, arith, ◌≡◌, ◌≢◌, refl, sym, inl, Bool, true, false, some, List, [],
  ◌∷◌, Outcome, ok, err, undefined, if◌then◌else◌, All, ◌==◌,
}
use k3s_virtual_machine.Interpreter.Register.{Register, RegType}
use k3s_virtual_machine.Interpreter.Objects.{
  HeapObject, Body, array, string, object, function, kind, fields,
}
use k3s_virtual_machine.Gc.{
  Gc, GcStageState, DanglingReference, in_object, append_alive_object, append_ref_to_alive_object,
  mark_registers, registers_of,
}
use k3s_virtual_machine.Gc.Marking.{load_header-some}
use k3s_virtual_machine.Base.{Total, Total-bind, Total-map}
use k3s_virtual_machine.Gc.Reach.{
  WellTyped, Done, Walk, Ready, Walk-refl, All-WellTyped-Walk, Ready-Walk, Walk-trans, Done-Walk,
}

-- A change of the stages alone.
restaged :
    (addrs : List ℕ) (g : Gc) (ss : List GcStageState)
    → ss ≢ []
    → Walk addrs g (record g { stages_stack = ss })
restaged addrs g ss ne = record {
  same_mark = refl;
  fewer = omega arith;
  there = λ a o e. (o, e, refl, λ m. m);
  back = λ a o e. (o, e, refl);
  closed = λ a o e m. inl (o, e, m);
  staged = ne;
}

pub append_ref-Walk :
    (addrs : List ℕ) (g : Gc) (ref : DanglingReference) (b : Bool)
    → g.stages_stack ≢ []
    → Total (Walk addrs g) (if b then append_ref_to_alive_object g ref else ok g)
unfolding append_ref_to_alive_object
append_ref-Walk addrs g ref false ne = Walk-refl addrs g ne
append_ref-Walk addrs g ref true ne = go g.stages_stack ne
  where
    go :
        (l : List GcStageState)
        → l ≢ []
        → Total (Walk addrs g) (elim l [
          | [] ↦ err undefined
          | s ∷ ss ↦ ok (record g {
            stages_stack = record s { references_to_targets = ref ∷ s.references_to_targets } ∷ ss;
          })
        ])
    go [] ne = ne refl
    go (s ∷ ss) ne = restaged addrs g _ (λ e. cc)

pub append_alive-Walk :
    (addrs : List ℕ) (g : Gc) (a : ℕ) (o : HeapObject) (b : Bool)
    → g.stages_stack ≢ []
    → g.heap a ≡ some o
    → 0 < a
    → Total (Walk addrs g) (if b then append_alive_object g a else ok g)
unfolding append_alive_object
append_alive-Walk addrs g a o false ne e pos = Walk-refl addrs g ne
append_alive-Walk addrs g a o true ne e pos =
    let not_null : (a == 0) ≡ false = ground arith in
    rw (not_null, load_header-some g a o e) (go g.stages_stack ne)
  where
    go :
        (l : List GcStageState)
        → l ≢ []
        → Total (Walk addrs g) (elim l [
          | [] ↦ err undefined
          | s ∷ ss ↦ ok (record g {
            stages_stack =
                record s {
                  target_objects = a ∷ s.target_objects;
                  estimating_realloc_size =
                      (s.estimating_realloc_size + o.header.allocated_size) % u64_mod;
                }
                ∷ ss;
          })
        ])
    go [] ne = ne refl
    go (s ∷ ss) ne = restaged addrs g _ (λ e. cc)

pub registers_of-eq : (t : RegType) (b : Body) → kind b ≡ t → registers_of t b ≡ ok (fields b)
unfolding registers_of
registers_of-eq t (array l) e = rw (sym e) refl
registers_of-eq t (string s) e = rw (sym e) refl
registers_of-eq t (object mapping l) e = rw (sym e) refl
registers_of-eq t (function f) e = rw (sym e) refl

-- With more fuel than there are objects without the mark, a visit returns and leaves nothing to mark
-- at its register.
abbrev pub Reaches : List ℕ → ℕ → (Register → Gc → Outcome (Bool × Gc)) → Type 0
Reaches addrs n visit =
    (r : Register) (g : Gc)
    → Ready addrs n g
    → WellTyped g.heap r
    → Total (λ (q : Bool × Gc). Walk addrs g q.1 × Done q.1 r) (visit r g)

pub mark_registers-Walk :
    (addrs : List ℕ) (n : ℕ) (visit : Register → Gc → Outcome (Bool × Gc))
    → Reaches addrs n visit
    → (rs : List Register) (holder k : ℕ) (g : Gc) → Ready addrs n g
    → All (WellTyped g.heap) rs
    → Total (λ h. Walk addrs g h × All (Done h) rs) (mark_registers visit holder k rs g)
unfolding mark_registers
mark_registers-Walk addrs n visit v [] holder k g ready ts = (Walk-refl addrs g ready.staged, tt)
mark_registers-Walk addrs n visit v (r ∷ rs) holder k g ready (t, ts) =
    Total-bind (λ (q : Bool × Gc). Walk addrs g q.1 × Done q.1 r)
      (λ h. Walk addrs g h × All (Done h) (r ∷ rs)) (visit r g) _ (v r g ready t)
      λ q (w, d).
        Total-bind (Walk addrs q.1) (λ h. Walk addrs g h × All (Done h) (r ∷ rs)) _ _
          (append_ref-Walk addrs q.1 (in_object holder k) q.0 w.staged)
          λ g2 w2.
            let u = Walk-trans addrs g q.1 g2 w w2 in
            Total-map (λ h. Walk addrs g2 h × All (Done h) rs)
              (λ h. Walk addrs g h × All (Done h) (r ∷ rs)) _
              (mark_registers-Walk addrs n visit v rs holder (k + 1) g2
                (Ready-Walk addrs n g g2 u ready) (All-WellTyped-Walk addrs g g2 rs u ts))
              (λ h (x, ds). (
                Walk-trans addrs g g2 h u x,
                (Done-Walk addrs g2 h r x (Done-Walk addrs q.1 g2 r w2 d), ds),
              ))
