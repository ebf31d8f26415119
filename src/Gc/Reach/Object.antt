-- ===== src/Gc/Reach/Object.antt =====
-- MarkAndFetchRecursively (allocator/gc_region.cpp) on an object that is not marked yet.
use k3s_virtual_machine.Base.{
  ℕ, zero, suc, ◌<◌, arith, ◌≡◌, refl, sym, ap, ◌∙◌, ◌⊎◌, inl, inr, Bool, true, false, some, List,
  [], ◌∷◌, ok, ◌>>=◌, if◌then◌else◌, All, ◌==◌, ==_iff, ==_refl, Bool-cases,
}
use k3s_virtual_machine.Allocator.Region.{Region, contains}
use k3s_virtual_machine.Interpreter.Register.{Register, is_primitive}
use k3s_virtual_machine.Interpreter.Objects.{HeapObject, kind, fields, mark_object, is_marked}
use k3s_virtual_machine.Gc.{Gc, append_alive_object, mark_registers, registers_of, mark_and_fetch}
use k3s_virtual_machine.Gc.Marking.{unmarked-update, unmarked-less, marked, load_header-some}
use k3s_virtual_machine.Base.{Total, Total-bind}
use k3s_virtual_machine.Gc.Reach.{
  WellTyped, Done, Walk, Ready, Walk-refl, All-WellTyped-Walk, Ready-Walk, Walk-trans, object-eq,
}
use k3s_virtual_machine.Gc.Reach.Visit.{
  append_alive-Walk, registers_of-eq, Reaches, mark_registers-Walk,
}

-- The object with the mark.
abbrev with_mark : Gc → HeapObject → HeapObject
with_mark g o = record o { header = mark_object o.header g.mark }

marked-here : (g : Gc) (v : ℕ) (o : HeapObject) → (marked g v o).heap v ≡ some (with_mark g o)
marked-here g v o = rw (==_refl v) refl

marked-cases :
    (g : Gc) (v : ℕ) (o : HeapObject) (a : ℕ) → (a ≡ v) ⊎ ((marked g v o).heap a ≡ g.heap a)
marked-cases g v o a = elim (Bool-cases (v == a)) [
  | inl e ↦ inl (sym ((==_iff v a).0 e))
  | inr e ↦ inr (rw e refl)
]

marked-WellTyped :
    (g : Gc) (v : ℕ) (o : HeapObject) (r : Register)
    → g.heap v ≡ some o
    → WellTyped g.heap r
    → WellTyped (marked g v o).heap r
marked-WellTyped g v o r there (inl p) = inl p
marked-WellTyped g v o r there (inr (o1, e, k, pos)) = elim (marked-cases g v o r.value) [
  | inr same ↦ inr (o1, same ∙ e, k, pos)
  | inl here ↦
      let e' : g.heap v ≡ some o1 = rw here at e in
      let k' : kind o.body ≡ r.type =
        ap (λ (x : HeapObject). kind x.body) (object-eq (sym there ∙ e')) ∙ k in
      let at_r : (marked g v o).heap r.value ≡ some (with_mark g o) = rw here (marked-here g v o) in
      inr (with_mark g o, at_r, k', pos)
]

All-marked-WellTyped :
    (g : Gc) (v : ℕ) (o : HeapObject) (rs : List Register)
    → g.heap v ≡ some o
    → All (WellTyped g.heap) rs
    → All (WellTyped (marked g v o).heap) rs
All-marked-WellTyped g v o [] there t = tt
All-marked-WellTyped g v o (r ∷ rs) there (t, ts) =
    (marked-WellTyped g v o r there t, All-marked-WellTyped g v o rs there ts)

marked-back :
    (g : Gc) (v : ℕ) (o : HeapObject) (a : ℕ) (o' : HeapObject)
    → g.heap v ≡ some o
    → (marked g v o).heap a ≡ some o'
    → (o1 : HeapObject) × (g.heap a ≡ some o1) × (o'.body ≡ o1.body)
marked-back g v o a o' there e = elim (marked-cases g v o a) [
  | inr same ↦ (o', sym same ∙ e, refl)
  | inl here ↦
      let e' : (marked g v o).heap v ≡ some o' = rw here at e in
      let at_a : g.heap a ≡ some o = rw here there in
      (o, at_a, ap (λ (x : HeapObject). x.body) (object-eq (sym e' ∙ marked-here g v o)))
]

marked-Ready :
    (addrs : List ℕ) (n : ℕ) (g : Gc) (v : ℕ) (o : HeapObject)
    → g.heap v ≡ some o
    → (o.header.mark == g.mark) ≡ false
    → Ready addrs (suc n) g
    → Ready addrs n (marked g v o)
unfolding mark_object
marked-Ready addrs n g v o there unseen r =
    let less =
      unmarked-less g.mark g.heap v (with_mark g o) o addrs refl there unseen
        (r.covers v o there) in
    record {
      few = omega (arith, r.few, less);
      covers = λ a o' e. let (o1, e1, b) = marked-back g v o a o' there e in r.covers a o1 e1;
      typed = λ a o' e.
          let (o1, e1, b) = marked-back g v o a o' there e in
          rw b (All-marked-WellTyped g v o (fields o1.body) there (r.typed a o1 e1));
      staged = r.staged;
    }

-- The walk from the marked object on, completed by the object itself.
whole-Walk :
    (addrs : List ℕ) (g h : Gc) (v : ℕ) (o : HeapObject)
    → g.heap v ≡ some o
    → Walk addrs (marked g v o) h
    → All (Done h) (fields o.body)
    → Walk addrs g h
unfolding mark_object
whole-Walk addrs g h v o there w done = record {
  same_mark = w.same_mark;
  fewer = omega (arith, w.fewer, unmarked-update g.mark g.heap v (with_mark g o) addrs refl);
  there = λ a o' e. elim (marked-cases g v o a) [
    | inr same ↦ w.there a o' (same ∙ e)
    | inl here ↦
        let e' : g.heap v ≡ some o' = rw here at e in
        let at_a : (marked g v o).heap a ≡ some (with_mark g o) = rw here (marked-here g v o) in
        let (o3, e3, s3, k3) = w.there a (with_mark g o) at_a in
        (o3, e3, s3 ∙ ap (λ (x : HeapObject). x.body) (object-eq (sym there ∙ e')), λ _. k3 refl)
  ];
  back = λ a o3 e.
      let (o1, e1, s1) = w.back a o3 e in
      let (o2, e2, s2) = marked-back g v o a o1 there e1 in (o2, e2, s1 ∙ s2);
  closed = λ a o3 e m. elim (w.closed a o3 e m) [
    | inr d ↦ inr d
    | inl (o1, e1, m1) ↦ elim (marked-cases g v o a) [
      | inr same ↦ inl (o1, sym same ∙ e1, m1)
      | inl here ↦
          let (o2, e2, s2) = w.back a o3 e in
          let (o4, e4, s4) = marked-back g v o a o2 there e2 in
          let e5 : g.heap v ≡ some o4 = rw here at e4 in
          let body : o3.body ≡ o.body =
            s2 ∙ s4 ∙ ap (λ (x : HeapObject). x.body) (object-eq (sym e5 ∙ there)) in
          inr (rw body done)
    ]
  ];
  staged = w.staged;
}

visit_unmarked :
    (addrs : List ℕ) (n : ℕ) (region : Region) (r : Register) (g : Gc) (o : HeapObject)
    → Reaches addrs n (mark_and_fetch n region)
    → g.heap r.value ≡ some o
    → kind o.body ≡ r.type
    → 0 < r.value
    → (o.header.mark == g.mark) ≡ false
    → Ready addrs (suc n) g
    → Total
        (λ (q : Bool × Gc). Walk addrs g q.1 × Done q.1 r)
        (do
          g2 ←
              (if contains region r.value
                then append_alive_object (marked g r.value o) r.value
                else ok (marked g r.value o))
          rs ← registers_of r.type o.body
          g3 ← mark_registers (mark_and_fetch n region) r.value 0 rs g2
          ok (contains region r.value, g3))
unfolding mark_object
visit_unmarked addrs n region r g o ih there k pos unseen ready =
    let g1 = marked g r.value o in
    let ready1 = marked-Ready addrs n g r.value o there unseen ready in
    let typed1 =
      All-marked-WellTyped g r.value o (fields o.body) there (ready.typed r.value o there) in
    Total-bind (Walk addrs g1) (λ (q : Bool × Gc). Walk addrs g q.1 × Done q.1 r) _ _
      (append_alive-Walk addrs g1 r.value (with_mark g o) (contains region r.value) ready1.staged
        (marked-here g r.value o) pos)
      λ g2 w. rw (registers_of-eq r.type o.body k) (
        Total-bind (λ h. Walk addrs g2 h × All (Done h) (fields o.body))
          (λ (q : Bool × Gc). Walk addrs g q.1 × Done q.1 r) _ _
          (mark_registers-Walk addrs n (mark_and_fetch n region) ih (fields o.body) r.value 0 g2
            (Ready-Walk addrs n g1 g2 w ready1)
            (All-WellTyped-Walk addrs g1 g2 (fields o.body) w typed1))
          λ g3 (x, done).
            let all = Walk-trans addrs g1 g2 g3 w x in
            let (o3, e3, s3, k3) = all.there r.value (with_mark g o) (marked-here g r.value o) in
            (
              whole-Walk addrs g g3 r.value o there all done,
              inr (o3, e3, k3 refl ∙ sym all.same_mark),
            ))

mark_and_fetch-number :
    (n : ℕ) (region : Region) (r : Register) (g : Gc)
    → is_primitive r ≡ true
    → mark_and_fetch (suc n) region r g ≡ ok (false, g)
unfolding mark_and_fetch
mark_and_fetch-number n region r g e = rw e refl

mark_and_fetch-seen :
    (n : ℕ) (region : Region) (r : Register) (g : Gc) (o : HeapObject)
    → is_primitive r ≡ false
    → g.heap r.value ≡ some o
    → (o.header.mark == g.mark) ≡ true
    → mark_and_fetch (suc n) region r g ≡ ok (contains region r.value, g)
unfolding mark_and_fetch is_marked
mark_and_fetch-seen n region r g o e there seen =
    rw (e, load_header-some g r.value o there, seen) refl

mark_and_fetch-unseen :
    (n : ℕ) (region : Region) (r : Register) (g : Gc) (o : HeapObject)
    → is_primitive r ≡ false
    → g.heap r.value ≡ some o
    → (o.header.mark == g.mark) ≡ false
    → mark_and_fetch (suc n) region r g ≡ (do
      g2 ←
          (if contains region r.value
            then append_alive_object (marked g r.value o) r.value
            else ok (marked g r.value o))
      rs ← registers_of r.type o.body
      g3 ← mark_registers (mark_and_fetch n region) r.value 0 rs g2
      ok (contains region r.value, g3))
unfolding mark_and_fetch is_marked
mark_and_fetch-unseen n region r g o e there unseen =
    rw (e, load_header-some g r.value o there, unseen) refl

pub mark_and_fetch-Reaches :
    (addrs : List ℕ) (n : ℕ) (region : Region) → Reaches addrs n (mark_and_fetch n region)
mark_and_fetch-Reaches addrs zero region r g ready t =
    let b : ⊥ = omega (arith, ready.few) in elim b [ ]
mark_and_fetch-Reaches addrs (suc n) region r g ready t = elim (Bool-cases (is_primitive r)) [
  | inl e ↦ rw (mark_and_fetch-number n region r g e) (Walk-refl addrs g ready.staged, inl e)
  | inr e ↦ elim t [
    | inl e' ↦ let b : ⊥ = cc in elim b [ ]
    | inr (o, there, k, pos) ↦ elim (Bool-cases (o.header.mark == g.mark)) [
      | inl seen ↦
          rw (mark_and_fetch-seen n region r g o e there seen)
            (Walk-refl addrs g ready.staged, inr (o, there, (==_iff o.header.mark g.mark).0 seen))
      | inr unseen ↦ rw (mark_and_fetch-unseen n region r g o e there unseen) (
          visit_unmarked addrs n region r g o (mark_and_fetch-Reaches addrs n region) there k pos
            unseen ready)
    ]
  ]
]
