-- ===== src/Gc/Holders.antt =====
-- Fix of allocator/gc.h on a reference that stands in a register of an object.
use k3s_virtual_machine.Base.{
  ℕ, zero, suc, ◌-◌, ◌<◌, ◌≤◌, arith, ◌≡◌, ◌≢◌, refl, ap, inl, inr, false, Option, some, List, [],
  ◌∷◌, ◌++◌, ok, ltb, length, if◌then◌else◌, ◌==◌, ==_iff, ==_refl, get_elem?, set, Bool-cases,
}
use k3s_virtual_machine.Base.{update}
use k3s_virtual_machine.Interpreter.Register.{Register, register}
use k3s_virtual_machine.Interpreter.Objects.{
  HeapObject, Body, array, string, object, function, fields, inputs_count, was_relocated,
}
use k3s_virtual_machine.Gc.{Gc, in_object, fix, relocated, load_header, set_register}

-- The array of a function's inputs has its length.
abbrev pub HasInputs : Body → Type 0
HasInputs (array items) = Unit {0}
HasInputs (string s) = Unit {0}
HasInputs (object mapping items) = Unit {0}
HasInputs (function f) = length f.inputs ≡ inputs_count

set-append_left :
    (xs ys : List Register) (n : ℕ) (r : Register)
    → n < length xs
    → set (xs ++ ys) n r ≡ set xs n r ++ ys
set-append_left [] ys n r h = elim h [ ]
set-append_left (x ∷ xs) ys zero r h = refl
set-append_left (x ∷ xs) ys (suc n) r h = ap (λ l. x ∷ l) (set-append_left xs ys n r (omega arith))

set-append_right :
    (xs ys : List Register) (n : ℕ) (r : Register)
    → length xs ≤ n
    → set (xs ++ ys) n r ≡ xs ++ set ys (n - length xs) r
set-append_right [] ys n r h = let all : n - 0 ≡ n = omega arith in rw all refl
set-append_right (x ∷ xs) ys zero r h = let b : ⊥ = omega arith in elim b [ ]
set-append_right (x ∷ xs) ys (suc n) r h =
    let less : suc n - suc (length xs) ≡ n - length xs = omega arith in
    rw less (ap (λ l. x ∷ l) (set-append_right xs ys n r (omega arith)))

pub fields-set_register :
    (b : Body) (n : ℕ) (r : Register)
    → HasInputs b
    → fields (set_register b n r) ≡ set (fields b) n r
unfolding set_register
fields-set_register (array items) n r h = refl
fields-set_register (string s) n r h = refl
fields-set_register (object mapping items) n r h = refl
fields-set_register (function f) zero r h = refl
fields-set_register (function f) (suc n) r h = elim (Bool-cases (ltb n 4)) [
  | inl e ↦
      let low : n < length f.inputs = rw h (ground arith) in
      rw (e, set-append_left f.inputs f.outputs n r low) refl
  | inr e ↦
      let high : length f.inputs ≤ n = rw h (ground arith) in
      rw (e, set-append_right f.inputs f.outputs n r high, h) refl
]

-- Where the registers of an object are updated: in its copy, once it has one.
abbrev pub home : ℕ → HeapObject → ℕ
home holder o = if ltb 0 o.header.relocated_ptr then o.header.relocated_ptr else holder

update-ne :
    (heap : ℕ → Option HeapObject) (k a : ℕ) (v : Option HeapObject)
    → a ≢ k
    → update heap k v a ≡ heap a
update-ne heap k a v ne = let other : (k == a) ≡ false = ground (arith, ==_iff k a) in rw other refl

relocated-eq :
    (g : Gc) (a : ℕ) (t : HeapObject)
    → g.heap a ≡ some t
    → 0 < t.header.relocated_ptr
    → relocated g a ≡ ok t.header.relocated_ptr
unfolding relocated load_header
relocated-eq g a t e pos =
    let not_null : (t.header.relocated_ptr == 0) ≡ false = ground arith in rw (e, not_null) refl

-- For a register of an object that holds the address of an object which has been given a
-- forwarding address: Fix of the register's reference succeeds, where the holder's copy, if it has
-- one, has the same registers as the holder, and a function's array of inputs has its length. In
-- the copy, or in the holder if it has none, exactly that register changes: it keeps its type and
-- holds the forwarding address. The header, every other object and the frames stay.
pub fix-in_object :
    (g : Gc) (holder n : ℕ) (o o' t : HeapObject) (r : Register)
    → g.heap holder ≡ some o
    → g.heap (home holder o) ≡ some o'
    → o'.body ≡ o.body
    → HasInputs o.body
    → get_elem? (fields o.body) n ≡ some r
    → g.heap r.value ≡ some t
    → 0 < t.header.relocated_ptr
    → (fixed : Gc) × (fix (in_object holder n) g ≡ ok fixed)
      × ((changed : HeapObject) × (fixed.heap (home holder o) ≡ some changed)
          × (fields changed.body ≡ set (fields o.body) n (register r.type t.header.relocated_ptr))
          × (changed.header ≡ o'.header))
      × ((a : ℕ) → a ≢ home holder o → fixed.heap a ≡ g.heap a)
      × (fixed.state_stack ≡ g.state_stack)
unfolding fix was_relocated load_header
fix-in_object g holder n o o' t r there at_home same inputs has target pos =
    let new = relocated-eq g r.value t target pos in
    let has' : get_elem? (fields o'.body) n ≡ some r = rw same has in
    let changed : HeapObject = record o' {
      body = set_register o'.body n (register r.type t.header.relocated_ptr);
    } in
    let fixed : Gc = record g { heap = update g.heap (home holder o) (some changed) } in
    (
      fixed,
      rw (there, has, new, at_home, has', new, ==_refl t.header.relocated_ptr) refl,
      (
        changed,
        rw (==_refl (home holder o)) refl,
        rw same (fields-set_register o.body n (register r.type t.header.relocated_ptr) inputs),
        refl,
      ),
      λ a ne. update-ne g.heap (home holder o) a (some changed) ne,
      refl,
    )
