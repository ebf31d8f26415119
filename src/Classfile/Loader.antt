-- ===== src/Classfile/Loader.antt =====
-- The loading half of classfile/class_file.cpp. A pointer into the file is the address of its first
-- byte together with the bytes from there to the end; a read behind the end is undefined.
pub mod Fields
pub mod Rounds
pub mod Roundtrip
pub mod File
use k3s_virtual_machine.Base.{
  ℕ, zero, suc, ◌+◌, ◌-◌, ◌*◌, ◌%◌, Bool, true, false, Option, none, some, List, [], ◌∷◌, ◌++◌,
  Bytes, Outcome, ok, err, ◌>>=◌, ◌>>◌, guard, from_option, undefined, assertion, out_of_fuel,
  overlapping_fields, unsupported_type, ltb, leb, ◌==◌, if◌then◌else◌, length, get_elem?, take,
  drop, lookup, insert, u64_mod,
}
use k3s_virtual_machine.Allocator.Region.{Region, alloc, alloc_bytes}
use k3s_virtual_machine.Classfile.Bytes.{of_bytes}
use k3s_virtual_machine.Base.{update}
use k3s_virtual_machine.Classfile.ConstantPool.{
  ConstantPool, Mapping, set_num, set_str, set_function, set_object,
}
use k3s_virtual_machine.Interpreter.Register.{RegType, num, arr, str, obj, func, nil, any}
use k3s_virtual_machine.Interpreter.Isa.{BytecodeInstruction, instruction}

-- The pool, the constants that its elements point to by their address, and the region of constants.
pub record Loaded : Type 0 where
  pub pool : ConstantPool
  pub texts : ℕ → Option Bytes
  pub offsets : ℕ → Option (List ℕ)
  pub const_region : Region

-- The first `n` bytes and the rest.
unfoldable pub read : ℕ → Bytes → Outcome (Bytes × Bytes)
read n bytes = guard (leb n (length bytes)) undefined >> ok (take n bytes, drop n bytes)

unfoldable pub read_word : Bytes → Outcome (ℕ × Bytes)
unfolding read of_bytes
read_word bytes = do (w, rest) ← read 8 bytes; ok (of_bytes w, rest)

-- The id and the padding at the end of a record.
unfoldable pub read_id : Bytes → Outcome (ℕ × Bytes)
unfolding read
read_id bytes = do
  (tail, rest) ← read 8 bytes
  id ← from_option undefined (get_elem? tail 0)
  ok (id, rest)

-- The bytes up to the first NUL.
unfoldable pub c_string : Bytes → Option Bytes
c_string [] = none
c_string (b ∷ bs) =
    let rest = c_string bs in
    if b == 0 then some [] else elim rest [ none ↦ none | some s ↦ some (b ∷ s) ]

-- The two loops over the names of an object's members, which are numbered from `index` on.
unfoldable pub load_names : ℕ → ℕ → Mapping → Bytes → Outcome (Mapping × Bytes)
unfolding c_string lookup insert
load_names zero index mapping bytes = ok (mapping, bytes)
load_names (suc n) index mapping bytes = do
  name ← from_option undefined (c_string bytes)
  guard (elim (lookup name mapping) [ none ↦ true | some _ ↦ false ]) overlapping_fields
  load_names n (index + 1) (insert name index mapping) (drop (length name + 1) bytes)

unfoldable pub read_words : ℕ → Bytes → Outcome (List ℕ × Bytes)
unfolding read_word
read_words zero bytes = ok ([], bytes)
read_words (suc n) bytes = do
  (w, rest) ← read_word bytes
  (ws, rest') ← read_words n rest
  ok (w ∷ ws, rest')

unfoldable pub load_string : ℕ → Bytes → Loaded → Outcome (Loaded × Bytes)
unfolding read_word read_id c_string set_str
load_string addr bytes st = do
  (size, b1) ← read_word bytes
  (id, record_data) ← read_id b1
  last ← from_option undefined (get_elem? record_data size)
  guard (last == 0) assertion
  text ← from_option undefined (c_string record_data)
  ok (
    record st {
      pool = set_str st.pool id (addr + 16);
      texts = update st.texts (addr + 16) (some text);
    },
    drop (size + 1) record_data,
  )

unfoldable pub load_object : Bytes → Loaded → Outcome (Loaded × Bytes)
unfolding read_word read_id load_names read_words alloc set_object
load_object bytes st = do
  (data_fields_n, b1) ← read_word bytes
  (methods_n, b2) ← read_word b1
  (id, b3) ← read_id b2
  (fields, b4) ← load_names data_fields_n 0 (st.pool.object_mappings id) b3
  (mapping, b5) ← load_names methods_n data_fields_n fields b4
  (methods_bc_offs, region) ← alloc st.const_region 8 (methods_n + 1)
  (words, b6) ← read_words methods_n b5
  ok (
    record st {
      pool =
          set_object
            (record st.pool { object_mappings = update st.pool.object_mappings id mapping }) id
            methods_bc_offs;
      offsets = update st.offsets methods_bc_offs (some words);
      const_region = region;
    },
    b6,
  )

-- The type that a byte stands for.
abbrev pub type_of_byte : ℕ → Option RegType
type_of_byte b = get_elem? (num ∷ arr ∷ str ∷ obj ∷ func ∷ nil ∷ any ∷ []) b

-- The switch over the type. `addr` is the address behind its byte.
unfoldable pub load_record : RegType → ℕ → Bytes → Loaded → Outcome (Loaded × Bytes)
unfolding read_word read_id load_string load_object set_num set_function
load_record func addr bytes st = do
  (bc_offset, b1) ← read_word bytes
  (id, rest) ← read_id b1
  ok (record st { pool = set_function st.pool id bc_offset }, rest)
load_record num addr bytes st = do
  (value, b1) ← read_word bytes
  (id, rest) ← read_id b1
  ok (record st { pool = set_num st.pool id value }, rest)
load_record str addr bytes st = load_string addr bytes st
load_record obj addr bytes st = load_object bytes st
load_record _ addr bytes st = err unsupported_type

-- LoadConstantPool on the bytes from an address on, in as many rounds at most as there are bytes.
unfoldable pub load_constant_pool : ℕ → ℕ → Bytes → Loaded → Outcome Loaded
unfolding load_record
load_constant_pool fuel addr [] st = ok st
load_constant_pool zero addr (t ∷ bytes) st = err out_of_fuel
load_constant_pool (suc n) addr (t ∷ bytes) st = do
  type ← from_option unsupported_type (type_of_byte t)
  (st', rest) ← load_record type (addr + 1) bytes st
  load_constant_pool n (addr + 1 + (length bytes - length rest)) rest st'

unfoldable pub instructions_of : Bytes → List BytecodeInstruction
instructions_of [] = []
instructions_of (b ∷ []) = []
instructions_of (opcode ∷ operands ∷ bytes) = instruction opcode operands ∷ instructions_of bytes

-- What LoadClassFile hands to the interpreter: the entry point, the code, the pool.
pub record Program : Type 0 where
  pub entry_point : ℕ
  pub instructions : List BytecodeInstruction
  pub loaded : Loaded

-- LoadClassFile on the contents of the file, which ReadFile copies into the region of constants.
unfoldable pub load_class_file : Bytes → Loaded → Outcome Program
unfolding alloc_bytes read_word load_constant_pool instructions_of
load_class_file file st = do
  (base, region) ← alloc_bytes st.const_region (length file)
  (code_offset, b1) ← read_word file
  (table_offset, b2) ← read_word b1
  (entry_point, after_header) ← read_word b2
  let code_size = (table_offset + u64_mod - code_offset) % u64_mod
  guard (code_size % 2 == 0) assertion
  guard (leb code_size (length after_header)) undefined
  let table = drop code_size after_header
  loaded ←
      load_constant_pool (length table) (base + 24 + code_size) table
        (record st { const_region = region })
  ok (record {
    entry_point = entry_point;
    instructions = instructions_of (take code_size after_header);
    loaded = loaded;
  })
