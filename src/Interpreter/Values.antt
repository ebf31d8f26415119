-- ===== src/Interpreter/Values.antt =====
-- The handlers of interpreter/interpreter.cpp for numbers, arrays and objects. Doubles are their 64
-- bits; the hardware's arithmetic on them is a parameter.
use k3s_virtual_machine.Base.{
  ℕ, Bool, not, Outcome, ok, err, ◌>>=◌, ◌>>◌, guard, undefined, zero_division, if◌then◌else◌,
}
use k3s_virtual_machine.Interpreter.Register.{
  Register, func, type_eq, set_num, set_array, get_as_function, get_as_array, get_as_object,
  get_as_string,
}
use k3s_virtual_machine.Interpreter.Objects.{
  array, string, object, function, set_this, get_array_elem, set_array_elem, get_field, set_field,
}
use k3s_virtual_machine.Interpreter.Machine.{
  Machine, get_acc, set_acc, get_reg, load, load_function, store_body,
}
use k3s_virtual_machine.Interpreter.Allocate.{new_array}

-- `+ - * /` and `std::fmod`, the comparisons with 0, 1.0, and the conversion to `size_t`.
pub record Doubles : Type 0 where
  pub plus : ℕ → ℕ → ℕ
  pub minus : ℕ → ℕ → ℕ
  pub times : ℕ → ℕ → ℕ
  pub over : ℕ → ℕ → ℕ
  pub fmod : ℕ → ℕ → ℕ
  pub le_zero : ℕ → Bool
  pub lt_zero : ℕ → Bool
  pub ge_zero : ℕ → Bool
  pub eq_zero : ℕ → Bool
  pub one : ℕ
  pub to_size : ℕ → ℕ

-- ADD, SUB, MUL on two registers; DIV, MOD with the test of the divisor.
unfoldable pub handle_arith : (ℕ → ℕ → ℕ) → Machine → ℕ → ℕ → Outcome Machine
handle_arith op m a b = do
  x ← get_reg m a
  y ← get_reg m b
  set_acc m (set_num (op x.value y.value))

unfoldable pub handle_div : Doubles → (ℕ → ℕ → ℕ) → Machine → ℕ → ℕ → Outcome Machine
handle_div d op m a b = do
  y ← get_reg m b
  guard (not (d.eq_zero y.value)) zero_division
  x ← get_reg m a
  set_acc m (set_num (op x.value y.value))

-- ADD2, SUB2, MUL2, DIV2 on the accumulator, and DECA.
unfoldable pub handle_arith2 : (ℕ → ℕ → ℕ) → Machine → ℕ → Outcome Machine
handle_arith2 op m a = do x ← get_acc m; y ← get_reg m a; set_acc m (set_num (op x.value y.value))

unfoldable pub handle_div2 : Doubles → Machine → ℕ → Outcome Machine
handle_div2 d m a = do
  y ← get_reg m a
  guard (not (d.eq_zero y.value)) zero_division
  x ← get_acc m
  set_acc m (set_num (d.over x.value y.value))

unfoldable pub handle_deca : Doubles → Machine → Outcome Machine
handle_deca d m = do x ← get_acc m; set_acc m (set_num (d.minus x.value d.one))

-- NEWARR
unfoldable pub handle_newarr : Doubles → Machine → ℕ → Outcome Machine
handle_newarr d m a = do
  r ← get_reg m a
  (addr, m') ← new_array m (d.to_size r.value)
  set_acc m' (set_array addr)

-- SETELEM, GETELEM on an array and on an object.
unfoldable pub handle_setelem_array : Doubles → Machine → ℕ → ℕ → Outcome Machine
handle_setelem_array d m a b = do
  index ← get_reg m b
  r ← get_reg m a
  addr ← get_as_array r
  acc ← get_acc m
  o ← load m addr
  elim o.body [
    | array items ↦ do
      items' ← set_array_elem items (d.to_size index.value) acc
      store_body m addr (array items')
    | _ ↦ err undefined
  ]

unfoldable pub handle_setelem_object : Machine → ℕ → ℕ → Outcome Machine
handle_setelem_object m a b = do
  name ← get_reg m b
  text ← get_as_string name
  s ← load m text
  r ← get_reg m a
  addr ← get_as_object r
  acc ← get_acc m
  o ← load m addr
  elim s.body [
    | string id ↦ elim o.body [
      | object mapping items ↦ do
        items' ← set_field mapping items id acc
        store_body m addr (object mapping items')
      | _ ↦ err undefined
    ]
    | _ ↦ err undefined
  ]

unfoldable pub handle_getelem_array : Doubles → Machine → ℕ → ℕ → Outcome Machine
handle_getelem_array d m a b = do
  index ← get_reg m b
  r ← get_reg m a
  addr ← get_as_array r
  o ← load m addr
  elim o.body [
    | array items ↦ do x ← get_array_elem items (d.to_size index.value); set_acc m x
    | _ ↦ err undefined
  ]

-- A method that is read from an object is bound to it.
unfoldable pub bind_method : Machine → Register → Register → Outcome Machine
bind_method m x this =
    if type_eq x.type func
    then (do
      addr ← get_as_function x
      f ← load_function m addr
      store_body m addr (function (set_this f this)))
    else ok m

unfoldable pub handle_getelem_object : Machine → ℕ → ℕ → Outcome Machine
handle_getelem_object m a b = do
  name ← get_reg m b
  text ← get_as_string name
  s ← load m text
  r ← get_reg m a
  addr ← get_as_object r
  o ← load m addr
  elim s.body [
    | string id ↦ elim o.body [
      | object mapping items ↦ do
        x ← get_field mapping items id
        m' ← set_acc m x
        bind_method m' x r
      | _ ↦ err undefined
    ]
    | _ ↦ err undefined
  ]
