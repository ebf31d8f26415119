-- ===== src/Classfile/ConstantPool.antt =====
-- The constant pool of classfile/class_file.h. An index is a `uint8_t`, so the arrays of 256 items are
-- functions of it.
use k3s_virtual_machine.Base.{update, ℕ, Bytes, List, [], Outcome, ok, ◌>>◌, guard, assertion}
use k3s_virtual_machine.Interpreter.Register.{RegType, num, str, func, obj, any, type_eq}

pub record Element : Type 0 where
  pub type : RegType
  pub val : ℕ

abbrev pub element : RegType → ℕ → Element
element t v = record { type = t; val = v }

-- `std::unordered_map<std::string_view, size_t>`
abbrev pub Mapping : Type 0
Mapping = List (Bytes × ℕ)

pub record ConstantPool : Type 0 where
  pub elements : ℕ → Element
  pub object_mappings : ℕ → Mapping

abbrev pub constant_pool_size : ℕ
constant_pool_size = 256

abbrev pub empty_pool : ConstantPool
empty_pool = record { elements = λ _. element any 0; object_mappings = λ _. [] }

unfoldable pub set_num : ConstantPool → ℕ → ℕ → ConstantPool
set_num p id bits = record p { elements = update p.elements id (element num bits) }

unfoldable pub set_str : ConstantPool → ℕ → ℕ → ConstantPool
set_str p id buf = record p { elements = update p.elements id (element str buf) }

unfoldable pub set_function : ConstantPool → ℕ → ℕ → ConstantPool
set_function p id bytecode_ofs = record p {
  elements = update p.elements id (element func bytecode_ofs);
}

unfoldable pub set_object : ConstantPool → ℕ → ℕ → ConstantPool
set_object p id val = record p { elements = update p.elements id (element obj val) }

unfoldable pub get_function_bytecode_offset : ConstantPool → ℕ → Outcome ℕ
unfolding type_eq
get_function_bytecode_offset p id =
    guard (type_eq (p.elements id).type func) assertion >> ok (p.elements id).val

unfoldable pub get_element : ConstantPool → ℕ → Element
get_element p id = p.elements id
