-- ===== src/Interpreter/Objects.antt =====
-- The heap objects of interpreter/types and their headers (allocator/object_header.h). Sizes are those
-- of a 64-bit build with the debug mark in the header.
use k3s_virtual_machine.Base.{
  ℕ, Bool, List, [], ◌∷◌, ◌++◌, Bytes, lookup, Outcome, ok, ◌>>=◌, ◌>>◌, guard, from_option,
  assertion, undefined, missing_field, ltb, ◌==◌, length, get_elem?, set, replicate,
}
use k3s_virtual_machine.Interpreter.Register.{Register, RegType, arr, str, obj, func, empty}
use k3s_virtual_machine.Classfile.ConstantPool.{Mapping}

pub record ObjectHeader : Type 0 where
  pub mark : ℕ
  pub allocated_size : ℕ
  -- `nullptr` is 0.
  pub relocated_ptr : ℕ

unfoldable pub mark_object : ObjectHeader → ℕ → ObjectHeader
mark_object h mark = record h { mark = mark }

unfoldable pub is_marked : ObjectHeader → ℕ → Bool
is_marked h mark = h.mark == mark

unfoldable pub set_allocated_size : ObjectHeader → ℕ → ObjectHeader
set_allocated_size h size = record h { allocated_size = size }

unfoldable pub set_relocated_ptr : ObjectHeader → ℕ → Outcome ObjectHeader
set_relocated_ptr h ptr =
    guard (h.relocated_ptr == 0) assertion >> ok (record h { relocated_ptr = ptr })

unfoldable pub was_relocated : ObjectHeader → Bool
was_relocated h = ltb 0 h.relocated_ptr

pub record Function : Type 0 where
  pub target_pc : ℕ
  pub this : Register
  pub inputs : List Register
  pub outputs : List Register

pub data Body : Type 0 where
  array : List Register → Body
  string : Bytes → Body
  object : Mapping → List Register → Body
  function : Function → Body

pub record HeapObject : Type 0 where
  pub header : ObjectHeader
  pub body : Body

-- The type of a register that holds the object's address.
abbrev pub kind : Body → RegType
kind (array _) = arr
kind (string _) = str
kind (object _ _) = obj
kind (function _) = func

-- The registers inside an object.
abbrev pub fields : Body → List Register
fields (array l) = l
fields (string _) = []
fields (object _ l) = l
fields (function f) = f.this ∷ (f.inputs ++ f.outputs)

abbrev pub inputs_count : ℕ
inputs_count = 4

abbrev pub outputs_count : ℕ
outputs_count = 4

abbrev pub sizeof_register : ℕ
sizeof_register = 16

-- `sizeof(Array)`, `sizeof(String)` and `sizeof(Object)`, without the items behind them.
abbrev pub sizeof_array : ℕ
sizeof_array = 40

abbrev pub sizeof_string : ℕ
sizeof_string = 40

abbrev pub sizeof_object : ℕ
sizeof_object = 40

abbrev pub sizeof_function : ℕ
sizeof_function = 184

-- A header as placement new leaves it, with the size stored behind it.
unfoldable pub new_header : ℕ → ObjectHeader
unfolding set_allocated_size
new_header size =
    set_allocated_size (record { mark = 0; allocated_size = 0; relocated_ptr = 0 }) size

-- The constructors.
unfoldable pub construct_function : ℕ → Function
construct_function target_pc = record {
  target_pc = target_pc;
  this = empty;
  inputs = replicate inputs_count empty;
  outputs = replicate outputs_count empty;
}

unfoldable pub construct_array : ℕ → List Register
construct_array size = replicate size empty

-- `GetArg(i)`, `GetRet(i)`; `SetArg<i>`, `SetRet<i>`, `SetThis`.
unfoldable pub get_arg : Function → ℕ → Outcome Register
get_arg f i = from_option undefined (get_elem? f.inputs i)

unfoldable pub get_ret : Function → ℕ → Outcome Register
get_ret f i = from_option undefined (get_elem? f.outputs i)

unfoldable pub set_arg : Function → ℕ → Register → Function
set_arg f i r = record f { inputs = set f.inputs i r }

unfoldable pub set_ret : Function → ℕ → Register → Function
set_ret f i r = record f { outputs = set f.outputs i r }

unfoldable pub set_this : Function → Register → Function
set_this f r = record f { this = r }

-- `Array::GetElem` reads with no test of the bound, `Array::SetElem` asserts it.
unfoldable pub get_array_elem : List Register → ℕ → Outcome Register
get_array_elem items idx = from_option undefined (get_elem? items idx)

unfoldable pub set_array_elem : List Register → ℕ → Register → Outcome (List Register)
set_array_elem items idx val = guard (ltb idx (length items)) assertion >> ok (set items idx val)

unfoldable pub resolve_id : Mapping → Bytes → Outcome ℕ
resolve_id m id = from_option missing_field (lookup id m)

unfoldable pub get_field : Mapping → List Register → Bytes → Outcome Register
unfolding resolve_id
get_field m l id = do idx ← resolve_id m id; from_option undefined (get_elem? l idx)

unfoldable pub set_field : Mapping → List Register → Bytes → Register → Outcome (List Register)
unfolding resolve_id
set_field m l id val = do
  idx ← resolve_id m id
  guard (ltb idx (length l)) undefined
  ok (set l idx val)
