-- ===== src/Interpreter/Frames/Values.antt =====
-- The handlers of interpreter/interpreter.cpp for numbers, arrays and objects keep every frame below
-- the top, and where the top frame returns to.
use k3s_virtual_machine.Base.{
  ℕ, err, ◌>>=◌, Ensures, Ensures-bind, Ensures-guard, Ensures-of, Ensures-any, Ensures-eq,
  undefined, zero_division, not, Bool-cases, inl, inr,
}
use k3s_virtual_machine.Interpreter.Register.{
  Register, func, type_eq, set_array, get_as_function, get_as_array, get_as_object, get_as_string,
}
use k3s_virtual_machine.Interpreter.Objects.{
  Body, array, string, object, get_array_elem, set_array_elem, get_field, set_field,
}
use k3s_virtual_machine.Interpreter.Machine.{
  Machine, set_acc, get_acc, get_reg, load, load_function, store_body,
}
use k3s_virtual_machine.Interpreter.Allocate.{new_array}
use k3s_virtual_machine.Interpreter.Values.{
  Doubles, handle_arith, handle_div, handle_arith2, handle_div2, handle_deca, handle_newarr,
  handle_setelem_array, handle_setelem_object, handle_getelem_array, handle_getelem_object,
  bind_method,
}
use k3s_virtual_machine.Interpreter.Frames.Primitives.{
  Kept, Kept-refl, Kept-trans, set_acc-Kept, store_body-Kept, new_array-Kept, alloc-set_acc,
}

pub handle_arith-Kept :
    (op : ℕ → ℕ → ℕ) (m : Machine) (a b : ℕ) → Ensures (Kept m) (handle_arith op m a b)
unfolding handle_arith
handle_arith-Kept op m a b =
    Ensures-any (Kept m) (get_reg m a) _
      λ x. Ensures-any (Kept m) (get_reg m b) _ λ y. set_acc-Kept m _

pub handle_div-Kept :
    (d : Doubles) (op : ℕ → ℕ → ℕ) (m : Machine) (a b : ℕ)
    → Ensures (Kept m) (handle_div d op m a b)
unfolding handle_div
handle_div-Kept d op m a b = Ensures-any (Kept m) (get_reg m b) _ λ y.
    Ensures-guard (Kept m) (not (d.eq_zero y.value)) zero_division _
      λ _. Ensures-any (Kept m) (get_reg m a) _ λ x. set_acc-Kept m _

pub handle_arith2-Kept :
    (op : ℕ → ℕ → ℕ) (m : Machine) (a : ℕ) → Ensures (Kept m) (handle_arith2 op m a)
unfolding handle_arith2
handle_arith2-Kept op m a =
    Ensures-any (Kept m) (get_acc m) _
      λ x. Ensures-any (Kept m) (get_reg m a) _ λ y. set_acc-Kept m _

pub handle_div2-Kept : (d : Doubles) (m : Machine) (a : ℕ) → Ensures (Kept m) (handle_div2 d m a)
unfolding handle_div2
handle_div2-Kept d m a = Ensures-any (Kept m) (get_reg m a) _ λ y.
    Ensures-guard (Kept m) (not (d.eq_zero y.value)) zero_division _
      λ _. Ensures-any (Kept m) (get_acc m) _ λ x. set_acc-Kept m _

pub handle_deca-Kept : (d : Doubles) (m : Machine) → Ensures (Kept m) (handle_deca d m)
unfolding handle_deca
handle_deca-Kept d m = Ensures-any (Kept m) (get_acc m) _ λ x. set_acc-Kept m _

pub handle_newarr-Kept :
    (d : Doubles) (m : Machine) (a : ℕ) → Ensures (Kept m) (handle_newarr d m a)
unfolding handle_newarr
handle_newarr-Kept d m a =
    Ensures-any (Kept m) (get_reg m a) _
      λ r. alloc-set_acc m (new_array m (d.to_size r.value)) set_array (new_array-Kept m _)

store_items-Kept :
    (d : Doubles) (m : Machine) (addr i : ℕ) (x : Register) (b : Body)
    → Ensures (Kept m) (elim b [
      | array items ↦ do items' ← set_array_elem items i x; store_body m addr (array items')
      | _ ↦ err undefined
    ])
store_items-Kept d m addr i x (array items) =
    Ensures-any (Kept m) (set_array_elem items i x) _ λ l. store_body-Kept m addr _
store_items-Kept d m addr i x _ = tt

pub handle_setelem_array-Kept :
    (d : Doubles) (m : Machine) (a b : ℕ) → Ensures (Kept m) (handle_setelem_array d m a b)
unfolding handle_setelem_array
handle_setelem_array-Kept d m a b = Ensures-any (Kept m) (get_reg m b) _ λ i.
    Ensures-any (Kept m) (get_reg m a) _ λ r. Ensures-any (Kept m) (get_as_array r) _ λ addr.
      Ensures-any (Kept m) (get_acc m) _
        λ acc. Ensures-any (Kept m) (load m addr) _ λ o. store_items-Kept d m addr _ acc o.body

store_fields-Kept :
    (m : Machine) (addr : ℕ) (x : Register) (s b : Body)
    → Ensures (Kept m) (elim s [
      | string id ↦ elim b [
        | object mapping items ↦ do
          items' ← set_field mapping items id x
          store_body m addr (object mapping items')
        | _ ↦ err undefined
      ]
      | _ ↦ err undefined
    ])
store_fields-Kept m addr x (string id) (object mapping items) =
    Ensures-any (Kept m) (set_field mapping items id x) _ λ l. store_body-Kept m addr _
store_fields-Kept m addr x (string id) _ = tt
store_fields-Kept m addr x _ b = tt

pub handle_setelem_object-Kept :
    (m : Machine) (a b : ℕ) → Ensures (Kept m) (handle_setelem_object m a b)
unfolding handle_setelem_object
handle_setelem_object-Kept m a b = Ensures-any (Kept m) (get_reg m b) _ λ name.
    Ensures-any (Kept m) (get_as_string name) _ λ text. Ensures-any (Kept m) (load m text) _ λ s.
      Ensures-any (Kept m) (get_reg m a) _ λ r. Ensures-any (Kept m) (get_as_object r) _ λ addr.
        Ensures-any (Kept m) (get_acc m) _ λ acc.
          Ensures-any (Kept m) (load m addr) _ λ o. store_fields-Kept m addr acc s.body o.body

read_items-Kept :
    (m : Machine) (i : ℕ) (b : Body)
    → Ensures
        (Kept m)
        (elim b [ array items ↦ do x ← get_array_elem items i; set_acc m x | _ ↦ err undefined ])
read_items-Kept m i (array items) =
    Ensures-any (Kept m) (get_array_elem items i) _ λ x. set_acc-Kept m x
read_items-Kept m i _ = tt

pub handle_getelem_array-Kept :
    (d : Doubles) (m : Machine) (a b : ℕ) → Ensures (Kept m) (handle_getelem_array d m a b)
unfolding handle_getelem_array
handle_getelem_array-Kept d m a b = Ensures-any (Kept m) (get_reg m b) _ λ i.
    Ensures-any (Kept m) (get_reg m a) _ λ r.
      Ensures-any (Kept m) (get_as_array r) _
        λ addr. Ensures-any (Kept m) (load m addr) _ λ o. read_items-Kept m _ o.body

bind_method-Kept : (m : Machine) (x this : Register) → Ensures (Kept m) (bind_method m x this)
unfolding bind_method
bind_method-Kept m x this = elim (Bool-cases (type_eq x.type func)) [
  | inr h ↦ rw h (Kept-refl m)
  | inl h ↦ rw h (
      Ensures-any (Kept m) (get_as_function x) _
        λ addr. Ensures-any (Kept m) (load_function m addr) _ λ f. store_body-Kept m addr _)
]

read_fields-Kept :
    (m : Machine) (r : Register) (s b : Body)
    → Ensures (Kept m) (elim s [
      | string id ↦ elim b [
        | object mapping items ↦ do
          x ← get_field mapping items id
          m' ← set_acc m x
          bind_method m' x r
        | _ ↦ err undefined
      ]
      | _ ↦ err undefined
    ])
read_fields-Kept m r (string id) (object mapping items) =
    Ensures-any (Kept m) (get_field mapping items id) _ λ x.
      Ensures-bind (Kept m) (Kept m) (set_acc m x) _ (set_acc-Kept m x) λ m' k.
        Ensures-of (Kept m) (bind_method m' x r)
          (λ m2 e. Kept-trans k (Ensures-eq (Kept m') _ e (bind_method-Kept m' x r)))
read_fields-Kept m r (string id) _ = tt
read_fields-Kept m r _ b = tt

pub handle_getelem_object-Kept :
    (m : Machine) (a b : ℕ) → Ensures (Kept m) (handle_getelem_object m a b)
unfolding handle_getelem_object
handle_getelem_object-Kept m a b = Ensures-any (Kept m) (get_reg m b) _ λ name.
    Ensures-any (Kept m) (get_as_string name) _ λ text. Ensures-any (Kept m) (load m text) _ λ s.
      Ensures-any (Kept m) (get_reg m a) _ λ r.
        Ensures-any (Kept m) (get_as_object r) _
          λ addr. Ensures-any (Kept m) (load m addr) _ λ o. read_fields-Kept m r s.body o.body
