-- ===== src/Gc/Marking.antt =====
-- How deep MarkAndFetchRecursively of allocator/gc_region.cpp can go: no deeper than there are objects
-- without the mark.
use k3s_virtual_machine.Base.{
  In, ℕ, zero, suc, ◌+◌, ◌%◌, u64_mod, ◌≤◌, ◌<◌, arith, ◌≡◌, ◌≢◌, refl, ◌∙◌, inl, inr, Bool, true,
  false, Option, none, some, List, [], ◌∷◌, Outcome, ok, err, ◌>>=◌, undefined, assertion,
  out_of_fuel, unsupported_type, ◌==◌, if◌then◌else◌, ==_iff, Bool-cases, Option-cases,
}
use k3s_virtual_machine.Allocator.Region.{Region, contains}
use k3s_virtual_machine.Base.{update}
use k3s_virtual_machine.Interpreter.Register.{
  Register, RegType, num, arr, str, obj, func, nil, any, is_primitive,
}
use k3s_virtual_machine.Interpreter.Objects.{
  HeapObject, Body, array, string, object, function, mark_object, is_marked,
}
use k3s_virtual_machine.Gc.{
  Gc, GcStageState, DanglingReference, in_object, load_header, append_alive_object,
  append_ref_to_alive_object, mark_registers, registers_of, mark_and_fetch,
}

-- A call that does not run out of fuel, with what holds of its value.
abbrev pub Safe : {A : Type 0} → (A → Type 0) → Outcome A → Type 0
Safe Q (ok a) = Q a
Safe Q (err e) = e ≢ out_of_fuel

pub Safe-bind :
    {A B : Type 0} (P : A → Type 0) (Q : B → Type 0) (o : Outcome A) (f : A → Outcome B)
    → Safe P o
    → ((a : A) → P a → Safe Q (f a))
    → Safe Q (o >>= f)
Safe-bind P Q (ok a) f p k = k a p
Safe-bind P Q (err e) f p k = p

pub Safe-map :
    {A : Type 0} (P Q : A → Type 0) (o : Outcome A) → Safe P o → ((a : A) → P a → Q a) → Safe Q o
Safe-map P Q (ok a) p k = k a p
Safe-map P Q (err e) p k = p

undefined_lem : undefined ≢ out_of_fuel
undefined_lem e = cc

assertion_lem : assertion ≢ out_of_fuel
assertion_lem e = cc

unsupported_lem : unsupported_type ≢ out_of_fuel
unsupported_lem e = cc

-- The addresses of a list at which an object without the mark lies, counted.
abbrev unmarked_at : ℕ → Option HeapObject → ℕ
unmarked_at m none = 0
unmarked_at m (some o) = if o.header.mark == m then 0 else 1

abbrev pub unmarked : ℕ → (ℕ → Option HeapObject) → List ℕ → ℕ
unmarked m heap [] = 0
unmarked m heap (a ∷ rest) = unmarked_at m (heap a) + unmarked m heap rest

-- Every object lies at one of the addresses.
abbrev pub Covers : List ℕ → (ℕ → Option HeapObject) → Type 0
Covers addrs heap = (a : ℕ) (o : HeapObject) → heap a ≡ some o → In a addrs

-- A mark on one object takes no mark from another.
pub unmarked-update :
    (m : ℕ) (heap : ℕ → Option HeapObject) (a : ℕ) (o : HeapObject) (rest : List ℕ)
    → o.header.mark ≡ m
    → unmarked m (update heap a (some o)) rest ≤ unmarked m heap rest
unmarked-update m heap a o [] e = omega arith
unmarked-update m heap a o (b ∷ bs) e = ground (arith, unmarked-update m heap a o bs e)

-- A mark on an object that had none makes them fewer.
pub unmarked-less :
    (m : ℕ) (heap : ℕ → Option HeapObject) (a : ℕ) (o old : HeapObject) (rest : List ℕ)
    → o.header.mark ≡ m
    → heap a ≡ some old
    → (old.header.mark == m) ≡ false
    → In a rest
    → unmarked m (update heap a (some o)) rest < unmarked m heap rest
unmarked-less m heap a o old [] e h f i = elim i [ ]
unmarked-less m heap a o old (b ∷ bs) e h f (inl i) =
    let later = unmarked-update m heap a o bs e in
    let now : unmarked_at m (update heap a (some o) b) ≡ 0 =
      ground (arith, ==_iff a b, ==_iff o.header.mark m) in
    let before : unmarked_at m (heap b) ≡ 1 = rw (i, h, f) refl in omega arith
unmarked-less m heap a o old (b ∷ bs) e h f (inr i) =
    ground (arith, unmarked-less m heap a o old bs e h f i)

-- What every part of the marking does: the mark stays, no object loses it, no object appears.
pub record Reached (addrs : List ℕ) (g g' : Gc) : Type 0 where
  pub same_mark : g'.mark ≡ g.mark
  pub fewer : unmarked g.mark g'.heap addrs ≤ unmarked g.mark g.heap addrs
  pub covers : Covers addrs g'.heap

pub Reached-refl : (addrs : List ℕ) (g : Gc) → Covers addrs g.heap → Reached addrs g g
Reached-refl addrs g c = record { same_mark = refl; fewer = omega arith; covers = c }

pub Reached-trans :
    (addrs : List ℕ) (g h k : Gc) → Reached addrs g h → Reached addrs h k → Reached addrs g k
Reached-trans addrs g h k r s =
    let fewer : unmarked g.mark k.heap addrs ≤ unmarked g.mark h.heap addrs =
      rw r.same_mark at s.fewer in
    record {
      same_mark = s.same_mark ∙ r.same_mark;
      fewer = omega (arith, r.fewer);
      covers = s.covers;
    }

-- With more fuel than there are objects without the mark, a visit does not run out of it.
abbrev pub Visits : List ℕ → ℕ → (Register → Gc → Outcome (Bool × Gc)) → Type 0
Visits addrs n visit =
    (r : Register) (g : Gc)
    → unmarked g.mark g.heap addrs < n
    → Covers addrs g.heap
    → Safe (λ (q : Bool × Gc). Reached addrs g q.1) (visit r g)

append_ref-Safe :
    (addrs : List ℕ) (g : Gc) (ref : DanglingReference)
    → Covers addrs g.heap
    → Safe (Reached addrs g) (append_ref_to_alive_object g ref)
unfolding append_ref_to_alive_object
append_ref-Safe addrs g ref c = go g.stages_stack
  where
    go :
        (l : List GcStageState)
        → Safe (Reached addrs g) (elim l [
          | [] ↦ err undefined
          | s ∷ ss ↦ ok (record g {
            stages_stack = record s { references_to_targets = ref ∷ s.references_to_targets } ∷ ss;
          })
        ])
    go [] = undefined_lem
    go (s ∷ ss) = record { same_mark = refl; fewer = omega arith; covers = c }

pub append_if-Safe :
    (addrs : List ℕ) (g : Gc) (ref : DanglingReference) (b : Bool)
    → Covers addrs g.heap
    → Safe (Reached addrs g) (if b then append_ref_to_alive_object g ref else ok g)
append_if-Safe addrs g ref true c = append_ref-Safe addrs g ref c
append_if-Safe addrs g ref false c = Reached-refl addrs g c

mark_registers-Safe :
    (addrs : List ℕ) (n : ℕ) (visit : Register → Gc → Outcome (Bool × Gc))
    → Visits addrs n visit
    → (rs : List Register) (holder k : ℕ) (g : Gc) → unmarked g.mark g.heap addrs < n
    → Covers addrs g.heap
    → Safe (Reached addrs g) (mark_registers visit holder k rs g)
unfolding mark_registers
mark_registers-Safe addrs n visit v [] holder k g h c = Reached-refl addrs g c
mark_registers-Safe addrs n visit v (r ∷ rs) holder k g h c =
    Safe-bind (λ (q : Bool × Gc). Reached addrs g q.1) (Reached addrs g) (visit r g) _ (v r g h c)
      λ q s.
        Safe-bind (Reached addrs q.1) (Reached addrs g) _ _
          (append_if-Safe addrs q.1 (in_object holder k) q.0 s.covers)
          λ g2 t.
            let u = Reached-trans addrs g q.1 g2 s t in
            let below : unmarked g2.mark g2.heap addrs < n =
              rw u.same_mark (omega (arith, u.fewer)) in
            Safe-map (Reached addrs g2) (Reached addrs g) _
              (mark_registers-Safe addrs n visit v rs holder (k + 1) g2 below u.covers)
              (λ g3 w. Reached-trans addrs g g2 g3 u w)

append_alive-Safe :
    (addrs : List ℕ) (g : Gc) (a : ℕ) (b : Bool)
    → Covers addrs g.heap
    → Safe (Reached addrs g) (if b then append_alive_object g a else ok g)
unfolding append_alive_object load_header
append_alive-Safe addrs g a false c = Reached-refl addrs g c
append_alive-Safe addrs g a true c = elim (Bool-cases (a == 0)) [
  | inl e ↦ rw e assertion_lem
  | inr e ↦ elim (Option-cases (g.heap a)) [
    | inl e' ↦ rw (e, e') undefined_lem
    | inr (o, e') ↦ rw (e, e') (go o g.stages_stack)
  ]
]
  where
    go :
        (o : HeapObject) (l : List GcStageState)
        → Safe (Reached addrs g) (elim l [
          | [] ↦ err undefined
          | s ∷ ss ↦ ok (record g {
            stages_stack =
                record s {
                  target_objects = a ∷ s.target_objects;
                  estimating_realloc_size =
                      (s.estimating_realloc_size + o.header.allocated_size) % u64_mod;
                }
                ∷ ss;
          })
        ])
    go o [] = undefined_lem
    go o (s ∷ ss) = record { same_mark = refl; fewer = omega arith; covers = c }

registers_of-Safe : (t : RegType) (b : Body) → Safe (λ _. Unit {0}) (registers_of t b)
unfolding registers_of
registers_of-Safe arr (array items) = tt
registers_of-Safe arr (object mapping items) = undefined_lem
registers_of-Safe arr (string s) = undefined_lem
registers_of-Safe arr (function f) = undefined_lem
registers_of-Safe obj (array items) = undefined_lem
registers_of-Safe obj (object mapping items) = tt
registers_of-Safe obj (string s) = undefined_lem
registers_of-Safe obj (function f) = undefined_lem
registers_of-Safe func (array items) = undefined_lem
registers_of-Safe func (object mapping items) = undefined_lem
registers_of-Safe func (string s) = undefined_lem
registers_of-Safe func (function f) = tt
registers_of-Safe str (array items) = undefined_lem
registers_of-Safe str (object mapping items) = undefined_lem
registers_of-Safe str (string s) = tt
registers_of-Safe str (function f) = undefined_lem
registers_of-Safe num b = unsupported_lem
registers_of-Safe nil b = unsupported_lem
registers_of-Safe any b = unsupported_lem

abbrev pub marked : Gc → ℕ → HeapObject → Gc
marked g a o = record g {
  heap = update g.heap a (some (record o { header = mark_object o.header g.mark }));
}

marked-Reached :
    (addrs : List ℕ) (g : Gc) (a : ℕ) (o : HeapObject)
    → g.heap a ≡ some o
    → Covers addrs g.heap
    → Reached addrs g (marked g a o)
unfolding mark_object
marked-Reached addrs g a o e c = record {
  same_mark = refl;
  fewer = unmarked-update g.mark g.heap a _ addrs refl;
  covers = λ b o' h. elim (Bool-cases (a == b)) [
    | inl same ↦
        let b_is : a ≡ b = (==_iff a b).0 same in
        let at_b : g.heap b ≡ some o = rw b_is at e in c b o at_b
    | inr other ↦ let before : g.heap b ≡ some o' = rw other at h in c b o' before
  ];
}

load_header-none : (g : Gc) (a : ℕ) → g.heap a ≡ none → load_header g a ≡ err undefined
unfolding load_header
load_header-none g a e = rw e refl

pub load_header-some :
    (g : Gc) (a : ℕ) (o : HeapObject) → g.heap a ≡ some o → load_header g a ≡ ok o
unfolding load_header
load_header-some g a o e = rw e refl

-- The visit of an object without the mark.
visit_new :
    (addrs : List ℕ) (n : ℕ) (region : Region) (r : Register) (g : Gc) (o : HeapObject)
    → Visits addrs n (mark_and_fetch n region)
    → g.heap r.value ≡ some o
    → (o.header.mark == g.mark) ≡ false
    → unmarked g.mark g.heap addrs < suc n
    → Covers addrs g.heap
    → Safe
        (λ (q : Bool × Gc). Reached addrs g q.1)
        (do
          g2 ←
              (if contains region r.value
                then append_alive_object (marked g r.value o) r.value
                else ok (marked g r.value o))
          rs ← registers_of r.type o.body
          g3 ← mark_registers (mark_and_fetch n region) r.value 0 rs g2
          ok (contains region r.value, g3))
unfolding mark_object
visit_new addrs n region r g o ih there unseen h c =
    let g1 = marked g r.value o in
    let s = marked-Reached addrs g r.value o there c in
    let less =
      unmarked-less g.mark g.heap r.value (record o { header = mark_object o.header g.mark }) o
        addrs refl there unseen (c r.value o there) in
    Safe-bind (Reached addrs g1) (λ (q : Bool × Gc). Reached addrs g q.1) _ _
      (append_alive-Safe addrs g1 r.value (contains region r.value) s.covers)
      λ g2 t.
        Safe-bind (λ _. Unit {0}) (λ (q : Bool × Gc). Reached addrs g q.1)
          (registers_of r.type o.body) _ (registers_of-Safe r.type o.body)
          λ rs _.
            let below : unmarked g2.mark g2.heap addrs < n =
              rw t.same_mark (omega (arith, t.fewer, less)) in
            Safe-bind (Reached addrs g2) (λ (q : Bool × Gc). Reached addrs g q.1) _ _
              (mark_registers-Safe addrs n (mark_and_fetch n region) ih rs r.value 0 g2 below
                t.covers)
              λ g3 w. Reached-trans addrs g g2 g3 (Reached-trans addrs g g1 g2 s t) w

pub mark_and_fetch-Visits :
    (addrs : List ℕ) (n : ℕ) (region : Region) → Visits addrs n (mark_and_fetch n region)
unfolding mark_and_fetch is_marked
mark_and_fetch-Visits addrs zero region r g h c = absurd (omega arith)
mark_and_fetch-Visits addrs (suc n) region r g h c = elim (Bool-cases (is_primitive r)) [
  | inl e ↦ rw e (Reached-refl addrs g c)
  | inr e ↦ elim (Option-cases (g.heap r.value)) [
    | inl e' ↦ rw (e, load_header-none g r.value e') undefined_lem
    | inr (o, e') ↦ elim (Bool-cases (o.header.mark == g.mark)) [
      | inl seen ↦ rw (e, load_header-some g r.value o e', seen) (Reached-refl addrs g c)
      | inr unseen ↦
          rw (e, load_header-some g r.value o e', unseen)
            (visit_new addrs n region r g o (mark_and_fetch-Visits addrs n region) e' unseen h c)
    ]
  ]
]
