-- ===== src/Classfile/Writer/File.antt =====
-- The whole file that DumpClassFile of classfile/class_file.cpp writes.
use k3s_virtual_machine.Base.{
  ℕ, ◌+◌, ◌*◌, ◌<◌, arith, ◌≡◌, refl, true, some, List, [], ◌∷◌, ◌++◌, Bytes, lookup, ok, ltb, leb,
  length, length-append,
}
use k3s_virtual_machine.Classfile.Bytes.{to_bytes}
use k3s_virtual_machine.Classfile.ConstantPool.{
  constant_pool_size, get_function_bytecode_offset, element,
}
use k3s_virtual_machine.Interpreter.Register.{func, type_eq}
use k3s_virtual_machine.Interpreter.Isa.{BytecodeInstruction}
use k3s_virtual_machine.Assembler.{AsmEncoder, try_resolve_name}
use k3s_virtual_machine.Classfile.Writer.{
  header_size, code_size, header_bytes, code_bytes, entry_func_name, allocate_buffer, write_header,
  write_code_section, dump_class_file,
}
use k3s_virtual_machine.Classfile.Writer.Buffer.{at, zeros, write_buf-at, length-zeros}
use k3s_virtual_machine.Classfile.Writer.Pool.{
  SupportedAt, bytes_at, bytes_from, write_constant_pool-Writes, size_below, estimate_all-eq,
  length-bytes_from, size_below-ge, size_below-zero,
}

pub length-code_bytes : (is : List BytecodeInstruction) → length (code_bytes is) ≡ 2 * length is
unfolding code_bytes
length-code_bytes [] = refl
length-code_bytes (i ∷ is) = omega (arith, length-code_bytes is)

-- What the assembler hands over: `main` is a function among the constants, and every constant is of a
-- kind that the file holds.
pub record IsComplete (e : AsmEncoder) (main entry : ℕ) : Type 0 where
  pub declared : lookup entry_func_name e.declared_objects ≡ some main
  pub inside : main < constant_pool_size
  pub is_function : e.constant_pool.elements main ≡ element func entry
  pub supported : (i : ℕ) → i < constant_pool_size → SupportedAt e i

-- The entry's constant takes up bytes.
main-size :
    (padding : ℕ → Bytes) (e : AsmEncoder) (main entry : ℕ)
    → IsComplete e main entry
    → 0 < size_below padding e constant_pool_size
main-size padding e main entry c =
    let some_bytes : 0 < length (bytes_at padding e main) = rw c.is_function (omega arith) in
    let below = size_below-ge padding e main constant_pool_size c.inside in omega arith

declared-constant :
    (e : AsmEncoder) (key : Bytes) (idx : ℕ)
    → lookup key e.declared_objects ≡ some idx
    → try_resolve_name e key ≡ (idx, e)
unfolding try_resolve_name
declared-constant e key idx h = rw (try_resolve_name, h) refl

write_header-eq :
    (e : AsmEncoder) (main entry n k : ℕ)
    → lookup entry_func_name e.declared_objects ≡ some main
    → e.constant_pool.elements main ≡ element func entry
    → n ≡ header_size + k
    → write_header e (at [] n)
      ≡ ok (e, at (header_bytes header_size (header_size + code_size e) entry) k)
unfolding write_header get_function_bytecode_offset type_eq to_bytes
write_header-eq e main entry n k d f room =
    rw
      (
        declared-constant e entry_func_name main d,
        f,
        write_buf-at [] (header_bytes header_size (header_size + code_size e) entry) n k room,
      )
      refl

room-ltb : (w : Bytes) (k : ℕ) → 0 < k → ltb (length w) (length (w ++ zeros k)) ≡ true
room-ltb w k h = ground (arith, length-append w (zeros k), length-zeros k)

room-leb : (w : Bytes) (k : ℕ) → leb (length w) (length (w ++ zeros k)) ≡ true
room-leb w k = ground (arith, length-append w (zeros k))

-- The header, the code and the constants 0 to 127 in this order.
unfoldable pub file_bytes : (ℕ → Bytes) → AsmEncoder → ℕ → Bytes
file_bytes padding e entry =
    header_bytes header_size (header_size + code_size e) entry
    ++ code_bytes e.instructions_buffer
    ++ bytes_from padding e 128 0

-- For an encoder whose main is a function and whose constants are all unset or of a kind that the
-- file holds, and seven bytes of padding in each record, DumpClassFile succeeds and the file is
-- the header, the code and the constants 0 to 127, followed by as many zero bytes as the constants
-- 128 to 255 would take.
pub dump_class_file-eq :
    (padding : ℕ → Bytes) (e : AsmEncoder) (main entry : ℕ)
    → ((i : ℕ) → length (padding i) ≡ 7)
    → IsComplete e main entry
    → dump_class_file padding e
      ≡ ok (file_bytes padding e entry ++ zeros (length (bytes_from padding e 128 128)))
unfolding dump_class_file allocate_buffer write_code_section file_bytes
dump_class_file-eq padding e main entry p c =
    let head : Bytes = header_bytes header_size (header_size + code_size e) entry in
    let code : Bytes = code_bytes e.instructions_buffer in
    let pool : ℕ = size_below padding e constant_pool_size in
    let left : ℕ = length (bytes_from padding e 128 128) in
    let n : ℕ = header_size + code_size e + pool in
    let all = length-bytes_from padding e 128 0 128 refl in
    let none_below : size_below padding e 0 ≡ 0 = size_below-zero padding e in
    let sum : pool ≡ length (bytes_from padding e 128 0) + left =
      omega (arith, length-bytes_from padding e 128 128 256 refl) in
    let code_room : code_size e + pool ≡ length code + pool =
      omega (arith, length-code_bytes e.instructions_buffer) in
    let some_pool = main-size padding e main entry c in
    rw
      (
        estimate_all-eq padding e constant_pool_size p c.supported,
        write_header-eq e main entry n (code_size e + pool) c.declared c.is_function (omega arith),
        room-ltb head (code_size e + pool) (omega arith),
        write_buf-at head code (code_size e + pool) pool code_room,
        room-ltb (head ++ code) pool some_pool,
        write_constant_pool-Writes padding e (λ i h. c.supported i (omega arith)) (head ++ code)
            pool left sum,
        room-leb (head ++ code ++ bytes_from padding e 128 0) left,
      )
      refl
