-- ===== src/Classfile/Writer.antt =====
-- The writing half of classfile/class_file.cpp. The parameter `padding` is what the compiler leaves in
-- the seven bytes behind a record's id, for the record of each constant.
pub mod Buffer
pub mod Records
pub mod Pool
pub mod File
use k3s_virtual_machine.Base.{
  ℕ, zero, suc, ◌+◌, ◌-◌, ◌*◌, ◌%◌, Bool, none, some, List, [], ◌∷◌, ◌++◌, Bytes, Outcome, ok, err,
  ◌>>=◌, ◌>>◌, guard, from_option, undefined, assertion, out_of_fuel, ltb, leb, ◌==◌, if◌then◌else◌,
  length, get_elem?, take, drop, replicate, u8_mod, u64_mod,
}
use k3s_virtual_machine.Classfile.Bytes.{to_bytes}
use k3s_virtual_machine.Classfile.ConstantPool.{
  Element, ConstantPool, constant_pool_size, get_element, get_function_bytecode_offset,
}
use k3s_virtual_machine.Interpreter.Register.{RegType, num, arr, str, obj, func, nil, any}
use k3s_virtual_machine.Interpreter.Isa.{BytecodeInstruction}
use k3s_virtual_machine.Assembler.{AsmEncoder, ObjectDescr, try_resolve_name}

-- `Register::Type` as a byte.
unfoldable pub type_byte : RegType → ℕ
type_byte num = 0
type_byte arr = 1
type_byte str = 2
type_byte obj = 3
type_byte func = 4
type_byte nil = 5
type_byte any = 6

-- `ClassFile`
pub record FileBuffer : Type 0 where
  pub file_buffer : Bytes
  pub buf_pos : ℕ

-- A copy behind the end of the buffer is undefined.
unfoldable pub write_buf : FileBuffer → Bytes → Outcome FileBuffer
write_buf f src =
    guard (leb (f.buf_pos + length src) (length f.file_buffer)) undefined
    >> ok (record {
      file_buffer =
          take f.buf_pos f.file_buffer ++ src ++ drop (f.buf_pos + length src) f.file_buffer;
      buf_pos = f.buf_pos + length src;
    })

-- `FuncRecord` and `NumRecord`, `StrRecord`, `ObjRecord`.
unfoldable pub word_record : Bytes → ℕ → ℕ → Bytes
word_record padding value id = to_bytes 8 value ++ id ∷ padding

unfoldable pub obj_record : Bytes → ℕ → ℕ → ℕ → Bytes
obj_record padding data_fields_n methods_n id =
    to_bytes 8 data_fields_n ++ to_bytes 8 methods_n ++ id ∷ padding

-- `c_str()` with its NUL.
abbrev pub c_str : Bytes → Bytes
c_str s = s ++ 0 ∷ []

unfoldable pub write_strings : FileBuffer → List Bytes → Outcome FileBuffer
unfolding write_buf
write_strings f [] = ok f
write_strings f (s ∷ ss) = do f' ← write_buf f (c_str s); write_strings f' ss

unfoldable pub write_words : FileBuffer → List ℕ → Outcome FileBuffer
unfolding write_buf
write_words f [] = ok f
write_words f (w ∷ ws) = do f' ← write_buf f (to_bytes 8 w); write_words f' ws

-- The switch of WriteObj.
unfoldable pub write_record : Bytes → AsmEncoder → RegType → ℕ → ℕ → FileBuffer → Outcome FileBuffer
unfolding word_record obj_record write_strings write_words
write_record padding e func val id f = write_buf f (word_record padding val id)
write_record padding e num val id f = write_buf f (word_record padding val id)
write_record padding e str val id f = do
  s ← from_option undefined (get_elem? e.strings_storage val)
  f' ← write_buf f (word_record padding (length s) id)
  write_buf f' (c_str s)
write_record padding e obj val id f = do
  o ← from_option undefined (get_elem? e.objects_storage val)
  f1 ← write_buf f (obj_record padding (length o.data_fields) (length o.methods) id)
  f2 ← write_strings f1 o.data_fields
  f3 ← write_strings f2 o.methods
  write_words f3 o.methods_bc_offsets
write_record padding e _ val id f = ok f

unfoldable pub write_obj : Bytes → AsmEncoder → Element → ℕ → FileBuffer → Outcome FileBuffer
unfolding write_record type_byte
write_obj padding e element id f = elim element.type [
  | any ↦ ok f
  | t ↦ do f' ← write_buf f (type_byte t ∷ []); write_record padding e t element.val id f'
]

-- An `int8_t`, held as its byte, compared with a `size_t`.
unfoldable pub int8_to_size : ℕ → ℕ
int8_to_size b = if ltb b 128 then b else b + u64_mod - 256

-- The loop of WriteConstantPool from an id on.
unfoldable pub write_from : (ℕ → Bytes) → AsmEncoder → ℕ → ℕ → FileBuffer → Outcome FileBuffer
unfolding write_obj int8_to_size
write_from padding e zero id f = err out_of_fuel
write_from padding e (suc n) id f =
    if ltb (int8_to_size id) constant_pool_size
    then (write_obj (padding id) e (get_element e.constant_pool id) id f
        >>= (λ f'. write_from padding e n ((id + 1) % u8_mod) f'))
    else ok f

unfoldable pub write_constant_pool : (ℕ → Bytes) → AsmEncoder → FileBuffer → Outcome FileBuffer
unfolding write_from
write_constant_pool padding e f = write_from padding e 257 0 f

unfoldable pub strings_size : List Bytes → ℕ
strings_size [] = 0
strings_size (s ∷ ss) = length s + 1 + strings_size ss

unfoldable pub estimate_encoding_size : AsmEncoder → Element → Outcome ℕ
unfolding strings_size
estimate_encoding_size e element = elim element.type [
  | func ↦ ok (1 + 16)
  | num ↦ ok (1 + 16)
  | str ↦ do
    s ← from_option undefined (get_elem? e.strings_storage element.val)
    ok (1 + 16 + length s + 1)
  | obj ↦ do
    o ← from_option undefined (get_elem? e.objects_storage element.val)
    guard (length o.methods == length o.methods_bc_offsets) assertion
    ok (1 + 24 + strings_size o.data_fields + strings_size o.methods + 8 * length o.methods)
  | _ ↦ ok 0
]

-- The sum over the first `n` constants.
unfoldable pub estimate_all : AsmEncoder → ℕ → Outcome ℕ
unfolding estimate_encoding_size
estimate_all e zero = ok 0
estimate_all e (suc n) = do
  before ← estimate_all e n
  size ← estimate_encoding_size e (get_element e.constant_pool n)
  ok (before + size)

abbrev pub header_size : ℕ
header_size = 24

abbrev pub code_size : AsmEncoder → ℕ
code_size e = 2 * length e.instructions_buffer

unfoldable pub allocate_buffer : AsmEncoder → Outcome FileBuffer
unfolding estimate_all
allocate_buffer e = do
  pool ← estimate_all e constant_pool_size
  ok (record { file_buffer = replicate (header_size + code_size e + pool) 0; buf_pos = 0 })

-- `ENTRY_FUNC_NAME`
abbrev pub entry_func_name : Bytes
entry_func_name = b'm' ∷ b'a' ∷ b'i' ∷ b'n' ∷ []

abbrev pub header_bytes : ℕ → ℕ → ℕ → Bytes
header_bytes code_offset table_offset entry_point =
    to_bytes 8 code_offset ++ to_bytes 8 table_offset ++ to_bytes 8 entry_point

-- The name lookup leaves its note of a missing label in the encoder.
unfoldable pub write_header : AsmEncoder → FileBuffer → Outcome (AsmEncoder × FileBuffer)
write_header e f = do
  let (main_id, e') = try_resolve_name e entry_func_name
  entry_point ← get_function_bytecode_offset e'.constant_pool main_id
  f' ← write_buf f (header_bytes header_size (header_size + code_size e') entry_point)
  guard (f'.buf_pos == header_size) assertion
  ok (e', f')

unfoldable pub code_bytes : List BytecodeInstruction → Bytes
code_bytes [] = []
code_bytes (i ∷ is) = i.opcode ∷ i.operands ∷ code_bytes is

unfoldable pub write_code_section : AsmEncoder → FileBuffer → Outcome FileBuffer
unfolding code_bytes
write_code_section e f = write_buf f (code_bytes e.instructions_buffer)

-- The bytes of the file.
unfoldable pub dump_class_file : (ℕ → Bytes) → AsmEncoder → Outcome Bytes
unfolding allocate_buffer write_header write_code_section write_constant_pool
dump_class_file padding e = do
  f0 ← allocate_buffer e
  (e', f1) ← write_header e f0
  guard (ltb f1.buf_pos (length f1.file_buffer)) assertion
  f2 ← write_code_section e' f1
  guard (ltb f2.buf_pos (length f2.file_buffer)) assertion
  f3 ← write_constant_pool padding e' f2
  guard (leb f3.buf_pos (length f3.file_buffer)) assertion
  ok f3.file_buffer
