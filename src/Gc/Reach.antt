-- ===== src/Gc/Reach.antt =====
-- What MarkAndFetchRecursively of allocator/gc_region.cpp marks, on a heap whose registers hold what
-- their types say.
pub mod Visit
pub mod Object
pub mod Frames
mod Tests
use k3s_virtual_machine.Base.{
  ℕ, zero, suc, ◌+◌, ◌≤◌, ◌<◌, arith, ◌≡◌, ◌≢◌, refl, sym, ap, ◌∙◌, ◌⊎◌, inl, inr, Bool, true,
  false, Option, none, some, List, [], ◌∷◌, Outcome, ok, err, ◌>>=◌, All, ◌==◌, ==_iff, Bool-cases,
}
use k3s_virtual_machine.Base.{update}
use k3s_virtual_machine.Interpreter.Register.{Register, is_primitive}
use k3s_virtual_machine.Interpreter.Objects.{HeapObject, kind, fields, mark_object}
use k3s_virtual_machine.Gc.{Gc}
use k3s_virtual_machine.Gc.Marking.{unmarked, unmarked-update, Covers, marked}

-- A number, an unset register, or the address of an object of the register's type.
abbrev pub WellTyped : (ℕ → Option HeapObject) → Register → Type 0
WellTyped heap r =
    (is_primitive r ≡ true)
    ⊎ ((o : HeapObject) × (heap r.value ≡ some o) × (kind o.body ≡ r.type) × (0 < r.value))

abbrev pub IsTyped : (ℕ → Option HeapObject) → Type 0
IsTyped heap = (a : ℕ) (o : HeapObject) → heap a ≡ some o → All (WellTyped heap) (fields o.body)

abbrev pub Marked : Gc → ℕ → Type 0
Marked g a = (o : HeapObject) × (g.heap a ≡ some o) × (o.header.mark ≡ g.mark)

-- Nothing is left to mark at a register.
abbrev pub Done : Gc → Register → Type 0
Done g r = (is_primitive r ≡ true) ⊎ Marked g r.value

-- One part of the marking: objects keep their bodies and their marks, and an object that is marked now
-- and was not before has only registers at which nothing is left.
pub record Walk (addrs : List ℕ) (g h : Gc) : Type 0 where
  pub same_mark : h.mark ≡ g.mark
  pub fewer : unmarked g.mark h.heap addrs ≤ unmarked g.mark g.heap addrs
  pub there :
      (a : ℕ) (o : HeapObject)
      → g.heap a ≡ some o
      → (o' : HeapObject) × (h.heap a ≡ some o')
        × (o'.body ≡ o.body)
        × (o.header.mark ≡ g.mark → o'.header.mark ≡ g.mark)
  pub back :
      (a : ℕ) (o' : HeapObject)
      → h.heap a ≡ some o'
      → (o : HeapObject) × (g.heap a ≡ some o) × (o'.body ≡ o.body)
  pub closed :
      (a : ℕ) (o' : HeapObject)
      → h.heap a ≡ some o'
      → o'.header.mark ≡ h.mark
      → Marked g a ⊎ All (Done h) (fields o'.body)
  pub staged : h.stages_stack ≢ []

-- What a part of the marking needs.
pub record Ready (addrs : List ℕ) (n : ℕ) (g : Gc) : Type 0 where
  pub few : unmarked g.mark g.heap addrs < n
  pub covers : Covers addrs g.heap
  pub typed : IsTyped g.heap
  pub staged : g.stages_stack ≢ []

pub Walk-refl : (addrs : List ℕ) (g : Gc) → g.stages_stack ≢ [] → Walk addrs g g
Walk-refl addrs g s = record {
  same_mark = refl;
  fewer = omega arith;
  there = λ a o e. (o, e, refl, λ m. m);
  back = λ a o e. (o, e, refl);
  closed = λ a o e m. inl (o, e, m);
  staged = s;
}

pub Done-Walk : (addrs : List ℕ) (g h : Gc) (r : Register) → Walk addrs g h → Done g r → Done h r
Done-Walk addrs g h r w (inl p) = inl p
Done-Walk addrs g h r w (inr (o, e, m)) =
    let (o', e', same, keeps) = w.there r.value o e in inr (o', e', keeps m ∙ sym w.same_mark)

pub All-Done-Walk :
    (addrs : List ℕ) (g h : Gc) (rs : List Register)
    → Walk addrs g h
    → All (Done g) rs
    → All (Done h) rs
All-Done-Walk addrs g h [] w d = tt
All-Done-Walk addrs g h (r ∷ rs) w (d, ds) =
    (Done-Walk addrs g h r w d, All-Done-Walk addrs g h rs w ds)

pub WellTyped-Walk :
    (addrs : List ℕ) (g h : Gc) (r : Register)
    → Walk addrs g h
    → WellTyped g.heap r
    → WellTyped h.heap r
WellTyped-Walk addrs g h r w (inl p) = inl p
WellTyped-Walk addrs g h r w (inr (o, e, k, pos)) =
    let (o', e', same, keeps) = w.there r.value o e in inr (o', e', ap kind same ∙ k, pos)

pub All-WellTyped-Walk :
    (addrs : List ℕ) (g h : Gc) (rs : List Register)
    → Walk addrs g h
    → All (WellTyped g.heap) rs
    → All (WellTyped h.heap) rs
All-WellTyped-Walk addrs g h [] w d = tt
All-WellTyped-Walk addrs g h (r ∷ rs) w (d, ds) =
    (WellTyped-Walk addrs g h r w d, All-WellTyped-Walk addrs g h rs w ds)

pub Ready-Walk :
    (addrs : List ℕ) (n : ℕ) (g h : Gc) → Walk addrs g h → Ready addrs n g → Ready addrs n h
Ready-Walk addrs n g h w r = record {
  few = rw w.same_mark (omega (arith, w.fewer, r.few));
  covers = λ a o e. let (o1, e1, same) = w.back a o e in r.covers a o1 e1;
  typed = λ a o e.
      let (o1, e1, same) = w.back a o e in
      rw same (All-WellTyped-Walk addrs g h (fields o1.body) w (r.typed a o1 e1));
  staged = w.staged;
}

pub object-eq : {a b : HeapObject} → some a ≡ some b → a ≡ b
object-eq h = cc

pub Walk-trans : (addrs : List ℕ) (g h k : Gc) → Walk addrs g h → Walk addrs h k → Walk addrs g k
Walk-trans addrs g h k v w = record {
  same_mark = w.same_mark ∙ v.same_mark;
  fewer =
      let f : unmarked g.mark k.heap addrs ≤ unmarked g.mark h.heap addrs =
        rw v.same_mark at w.fewer in
      omega (arith, v.fewer);
  there = λ a o e.
      let (o1, e1, s1, k1) = v.there a o e in
      let (o2, e2, s2, k2) = w.there a o1 e1 in
      (o2, e2, s2 ∙ s1, λ m. k2 (k1 m ∙ sym v.same_mark) ∙ v.same_mark);
  back = λ a o e.
      let (o1, e1, s1) = w.back a o e in let (o2, e2, s2) = v.back a o1 e1 in (o2, e2, s1 ∙ s2);
  closed = λ a o e m. elim (w.closed a o e m) [
    | inr d ↦ inr d
    | inl (o1, e1, m1) ↦ elim (v.closed a o1 e1 m1) [
      | inl x ↦ inl x
      | inr d ↦
          let (o2, e2, s2) = w.back a o e in
          let same_object : some o2 ≡ some o1 = sym e2 ∙ e1 in
          let body : o.body ≡ o1.body =
            s2 ∙ ap (λ (x : HeapObject). x.body) (object-eq same_object) in
          inr (rw body (All-Done-Walk addrs h k (fields o1.body) w d))
    ]
  ];
  staged = w.staged;
}
