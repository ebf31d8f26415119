-- ===== src/Interpreter/Transfer.antt =====
-- The handlers of interpreter/interpreter.cpp that move registers, branch, and pass arguments. The
-- fetch that follows a handler is left to `step`.
use k3s_virtual_machine.Base.{
  ℕ, Bool, not, Outcome, ok, err, ◌>>=◌, ◌>>◌, guard, from_option, undefined, assertion,
  unknown_constant, ◌==◌, if◌then◌else◌,
}
use k3s_virtual_machine.Classfile.ConstantPool.{get_element, get_function_bytecode_offset}
use k3s_virtual_machine.Interpreter.Register.{
  num, str, obj, func, any, set_typed, set_num, set_string, set_function, set_object,
  get_as_function,
}
use k3s_virtual_machine.Interpreter.Isa.{add_imm}
use k3s_virtual_machine.Interpreter.Objects.{function, get_arg, get_ret, set_arg, set_ret}
use k3s_virtual_machine.Interpreter.Machine.{
  Machine, advance, get_acc, set_acc, get_reg, set_reg, push_frame, load_function, store_body,
  get_callee,
}
use k3s_virtual_machine.Interpreter.Allocate.{new_function, new_string, new_object}

-- LDAI
unfoldable pub handle_ldai : Machine → ℕ → Outcome Machine
handle_ldai m imm = elim (get_element m.constant_pool imm).type [
  | func ↦ do
    bc_offs ← get_function_bytecode_offset m.constant_pool imm
    (addr, m') ← new_function m bc_offs
    set_acc m' (set_function addr)
  | num ↦ set_acc m (set_num (get_element m.constant_pool imm).val)
  | str ↦ do
    c_str ← from_option undefined (m.texts (get_element m.constant_pool imm).val)
    (addr, m') ← new_string m c_str
    set_acc m' (set_string addr)
  | obj ↦ do
    offsets ← from_option undefined (m.offsets (get_element m.constant_pool imm).val)
    (addr, m') ← new_object m (m.constant_pool.object_mappings imm) offsets
    set_acc m' (set_object addr)
  | _ ↦ err unknown_constant
]

-- LDA, STA, STNULL, MOV
unfoldable pub handle_lda : Machine → ℕ → Outcome Machine
handle_lda m a = do r ← get_reg m a; set_acc m r

unfoldable pub handle_sta : Machine → ℕ → Outcome Machine
handle_sta m a = do r ← get_acc m; set_reg m a r

unfoldable pub handle_stnull : Machine → ℕ → Outcome Machine
handle_stnull m a = do r ← set_typed any 0; set_reg m a r

unfoldable pub handle_mov : Machine → ℕ → ℕ → Outcome Machine
handle_mov m a b = do r ← get_reg m a; set_reg m b r

-- JUMP
unfoldable pub handle_jump : Machine → ℕ → Outcome Machine
unfolding add_imm
handle_jump m imm = guard (not (imm == 0)) assertion >> ok (record m { pc = add_imm m.pc imm })

-- BLE, BLT, BGE, BNE: whether the branch is taken decides how the counter moves on.
unfoldable pub handle_branch : (ℕ → Bool) → Machine → ℕ → Outcome Machine
unfolding add_imm advance
handle_branch test m imm = do
  guard (not (imm == 0)) assertion
  acc ← get_acc m
  ok (if test acc.value then record m { pc = add_imm m.pc imm } else advance m)

-- GETARG0, GETARG1, GETTHIS
unfoldable pub handle_getarg : ℕ → Machine → ℕ → Outcome Machine
handle_getarg i m a = do
  callee ← get_callee m
  f ← load_function m callee
  r ← get_arg f i
  set_reg m a r

unfoldable pub handle_getthis : Machine → ℕ → Outcome Machine
handle_getthis m a = do callee ← get_callee m; f ← load_function m callee; set_reg m a f.this

-- SETARG0, SETARG1: the accumulator's word is taken as the function's address.
unfoldable pub handle_setarg : ℕ → Machine → ℕ → Outcome Machine
handle_setarg i m a = do
  acc ← get_acc m
  f ← load_function m acc.value
  r ← get_reg m a
  store_body m acc.value (function (set_arg f i r))

-- GETRET0, SETRET0
unfoldable pub handle_getret0 : Machine → ℕ → Outcome Machine
handle_getret0 m a = do
  acc ← get_acc m
  f ← load_function m acc.value
  r ← get_ret f 0
  set_reg m a r

unfoldable pub handle_setret0 : Machine → ℕ → Outcome Machine
handle_setret0 m a = do
  callee ← get_callee m
  f ← load_function m callee
  r ← get_reg m a
  store_body m callee (function (set_ret f 0 r))

-- CALL
unfoldable pub handle_call : Machine → Outcome Machine
handle_call m = do
  acc ← get_acc m
  func_obj ← get_as_function acc
  m' ← push_frame m m.pc func_obj
  f ← load_function m' func_obj
  ok (record m' { pc = f.target_pc })
