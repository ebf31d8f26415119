-- ===== src/Interpreter/Frames/Handlers.antt =====
-- The handlers of interpreter/interpreter.cpp that move registers, branch and pass arguments keep
-- every frame below the top, and where the top frame returns to.
use k3s_virtual_machine.Base.{
  ℕ, refl, Bool, err, ◌>>=◌, Ensures, Ensures-guard, Ensures-any, from_option, undefined, assertion,
  unknown_constant, not, ◌==◌, Bool-cases, inl, inr,
}
use k3s_virtual_machine.Interpreter.Register.{
  RegType, num, arr, str, obj, func, any, nil, set_typed, set_num, set_string, set_function,
  set_object,
}
use k3s_virtual_machine.Classfile.ConstantPool.{get_function_bytecode_offset, get_element}
use k3s_virtual_machine.Interpreter.Objects.{get_arg, get_ret}
use k3s_virtual_machine.Interpreter.Machine.{
  Machine, set_acc, get_acc, get_reg, get_callee, load_function, advance,
}
use k3s_virtual_machine.Interpreter.Allocate.{new_function, new_string, new_object}
use k3s_virtual_machine.Interpreter.Transfer.{
  handle_ldai, handle_lda, handle_sta, handle_stnull, handle_mov, handle_jump, handle_branch,
  handle_getarg, handle_getthis, handle_setarg, handle_getret0, handle_setret0,
}
use k3s_virtual_machine.Interpreter.Frames.Primitives.{
  Kept, set_acc-Kept, set_reg-Kept, store_body-Kept, new_function-Kept, new_string-Kept,
  new_object-Kept, alloc-set_acc,
}

pub handle_lda-Kept : (m : Machine) (a : ℕ) → Ensures (Kept m) (handle_lda m a)
unfolding handle_lda
handle_lda-Kept m a = Ensures-any (Kept m) (get_reg m a) _ λ r. set_acc-Kept m r

pub handle_sta-Kept : (m : Machine) (a : ℕ) → Ensures (Kept m) (handle_sta m a)
unfolding handle_sta
handle_sta-Kept m a = Ensures-any (Kept m) (get_acc m) _ λ r. set_reg-Kept m a r

pub handle_stnull-Kept : (m : Machine) (a : ℕ) → Ensures (Kept m) (handle_stnull m a)
unfolding handle_stnull
handle_stnull-Kept m a = Ensures-any (Kept m) (set_typed any 0) _ λ r. set_reg-Kept m a r

pub handle_mov-Kept : (m : Machine) (a b : ℕ) → Ensures (Kept m) (handle_mov m a b)
unfolding handle_mov
handle_mov-Kept m a b = Ensures-any (Kept m) (get_reg m a) _ λ r. set_reg-Kept m b r

-- The element's type decides what LDAI makes.
load_constant-Kept :
    (m : Machine) (imm : ℕ) (t : RegType)
    → Ensures (Kept m) (elim t [
      | func ↦ do
        bc_offs ← get_function_bytecode_offset m.constant_pool imm
        (addr, m') ← new_function m bc_offs
        set_acc m' (set_function addr)
      | num ↦ set_acc m (set_num (get_element m.constant_pool imm).val)
      | str ↦ do
        c_str ← from_option undefined (m.texts (get_element m.constant_pool imm).val)
        (addr, m') ← new_string m c_str
        set_acc m' (set_string addr)
      | obj ↦ do
        offsets ← from_option undefined (m.offsets (get_element m.constant_pool imm).val)
        (addr, m') ← new_object m (m.constant_pool.object_mappings imm) offsets
        set_acc m' (set_object addr)
      | _ ↦ err unknown_constant
    ])
load_constant-Kept m imm func =
    Ensures-any (Kept m) (get_function_bytecode_offset m.constant_pool imm) _
      λ n. alloc-set_acc m (new_function m n) set_function (new_function-Kept m n)
load_constant-Kept m imm num = set_acc-Kept m _
load_constant-Kept m imm str =
    Ensures-any (Kept m) (from_option undefined (m.texts (get_element m.constant_pool imm).val)) _
      λ s. alloc-set_acc m (new_string m s) set_string (new_string-Kept m s)
load_constant-Kept m imm obj =
    Ensures-any (Kept m) (from_option undefined (m.offsets (get_element m.constant_pool imm).val)) _
      λ l. alloc-set_acc m (new_object m _ l) set_object (new_object-Kept m _ l)
load_constant-Kept m imm arr = tt
load_constant-Kept m imm any = tt
load_constant-Kept m imm nil = tt

pub handle_ldai-Kept : (m : Machine) (i : ℕ) → Ensures (Kept m) (handle_ldai m i)
unfolding handle_ldai
handle_ldai-Kept m i = load_constant-Kept m i (get_element m.constant_pool i).type

pub handle_jump-Kept : (m : Machine) (i : ℕ) → Ensures (Kept m) (handle_jump m i)
unfolding handle_jump
handle_jump-Kept m i =
    Ensures-guard (Kept m) (not (i == 0)) assertion _ λ _. record { below = refl; back = refl }

pub handle_branch-Kept :
    (t : ℕ → Bool) (m : Machine) (i : ℕ) → Ensures (Kept m) (handle_branch t m i)
unfolding handle_branch advance
handle_branch-Kept t m i = Ensures-guard (Kept m) (not (i == 0)) assertion _ λ _.
    Ensures-any (Kept m) (get_acc m) _ λ acc. elim (Bool-cases (t acc.value)) [
      | inl h ↦ rw h (record { below = refl; back = refl })
      | inr h ↦ rw h (record { below = refl; back = refl })
    ]

pub handle_getarg-Kept : (i : ℕ) (m : Machine) (a : ℕ) → Ensures (Kept m) (handle_getarg i m a)
unfolding handle_getarg
handle_getarg-Kept i m a = Ensures-any (Kept m) (get_callee m) _ λ c.
    Ensures-any (Kept m) (load_function m c) _
      λ f. Ensures-any (Kept m) (get_arg f i) _ λ r. set_reg-Kept m a r

pub handle_getthis-Kept : (m : Machine) (a : ℕ) → Ensures (Kept m) (handle_getthis m a)
unfolding handle_getthis
handle_getthis-Kept m a =
    Ensures-any (Kept m) (get_callee m) _
      λ c. Ensures-any (Kept m) (load_function m c) _ λ f. set_reg-Kept m a f.this

pub handle_setarg-Kept : (i : ℕ) (m : Machine) (a : ℕ) → Ensures (Kept m) (handle_setarg i m a)
unfolding handle_setarg
handle_setarg-Kept i m a = Ensures-any (Kept m) (get_acc m) _ λ c.
    Ensures-any (Kept m) (load_function m c.value) _
      λ f. Ensures-any (Kept m) (get_reg m a) _ λ r. store_body-Kept m c.value _

pub handle_getret0-Kept : (m : Machine) (a : ℕ) → Ensures (Kept m) (handle_getret0 m a)
unfolding handle_getret0
handle_getret0-Kept m a = Ensures-any (Kept m) (get_acc m) _ λ c.
    Ensures-any (Kept m) (load_function m c.value) _
      λ f. Ensures-any (Kept m) (get_ret f 0) _ λ r. set_reg-Kept m a r

pub handle_setret0-Kept : (m : Machine) (a : ℕ) → Ensures (Kept m) (handle_setret0 m a)
unfolding handle_setret0
handle_setret0-Kept m a = Ensures-any (Kept m) (get_callee m) _ λ c.
    Ensures-any (Kept m) (load_function m c) _
      λ f. Ensures-any (Kept m) (get_reg m a) _ λ r. store_body-Kept m c _
