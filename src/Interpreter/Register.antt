-- ===== src/Interpreter/Register.antt =====
-- interpreter/register.h. The types are those of isa/isa.yaml, in its order. A register's value is the
-- 64-bit word `value_`: the bits of a double, or an address.
use k3s_virtual_machine.Base.{
  ℕ, Bool, true, false, ◌||◌, not, Outcome, ok, ◌>>◌, guard, assertion, type_error,
}

pub data RegType : Type 0 where
  num arr str obj func nil any : RegType

unfoldable pub type_eq : RegType → RegType → Bool
type_eq num num = true
type_eq arr arr = true
type_eq str str = true
type_eq obj obj = true
type_eq func func = true
type_eq nil nil = true
type_eq any any = true
type_eq _ _ = false

pub record Register : Type 0 where
  pub type : RegType
  pub value : ℕ

abbrev pub register : RegType → ℕ → Register
register t v = record { type = t; value = v }

-- `Register()`, and `Reset()`.
abbrev pub empty : Register
empty = register any 0

unfoldable pub is_primitive : Register → Bool
unfolding type_eq
is_primitive r = type_eq r.type num || type_eq r.type any

-- `Set(Type type, uint64_t val)`
unfoldable pub set_typed : RegType → ℕ → Outcome Register
unfolding type_eq
set_typed t v = guard (not (type_eq t num)) assertion >> ok (register t v)

-- `Set(double)`, on the bits of the double, and the setters of the four kinds of object.
unfoldable pub set_num : ℕ → Register
set_num bits = register num bits

unfoldable pub set_string : ℕ → Register
set_string p = register str p

unfoldable pub set_function : ℕ → Register
set_function p = register func p

unfoldable pub set_object : ℕ → Register
set_object p = register obj p

unfoldable pub set_array : ℕ → Register
set_array p = register arr p

-- `GetAsObjectHeader`, and the address that `GetObjectHeaderPtr` gives access to.
unfoldable pub get_as_object_header : Register → Outcome ℕ
unfolding is_primitive
get_as_object_header r = guard (not (is_primitive r)) assertion >> ok r.value

unfoldable pub get_as : RegType → Register → Outcome ℕ
unfolding type_eq
get_as t r = guard (type_eq r.type t) type_error >> ok r.value

unfoldable pub get_as_function : Register → Outcome ℕ
unfolding get_as
get_as_function r = get_as func r

unfoldable pub get_as_array : Register → Outcome ℕ
unfolding get_as
get_as_array r = get_as arr r

unfoldable pub get_as_object : Register → Outcome ℕ
unfolding get_as
get_as_object r = get_as obj r

unfoldable pub get_as_string : Register → Outcome ℕ
unfolding get_as
get_as_string r = get_as str r
