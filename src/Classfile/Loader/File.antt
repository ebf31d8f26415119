-- ===== src/Classfile/Loader/File.antt =====
-- LoadClassFile of classfile/class_file.cpp on the file that DumpClassFile wrote.
use k3s_virtual_machine.Base.{
  ℕ, zero, suc, ◌+◌, ◌-◌, ◌*◌, ◌%◌, ◌^◌, ◌≤◌, ◌<◌, arith, ◌≡◌, refl, ap, ◌∙◌, true, List, [], ◌∷◌,
  ◌++◌, append_assoc, append-nil, Bytes, ok, ◌>>=◌, leb, ◌==◌, length, length-append, take, drop,
  take-append, drop-append, u64_mod,
}
use native.Mathlib.Decide.{dec_lt}
use k3s_virtual_machine.Allocator.Region.{Region, alloc_bytes}
use k3s_virtual_machine.Classfile.Bytes.{to_bytes}
use k3s_virtual_machine.Classfile.ConstantPool.{constant_pool_size}
use k3s_virtual_machine.Interpreter.Register.{func, any}
use k3s_virtual_machine.Interpreter.Isa.{BytecodeInstruction}
use k3s_virtual_machine.Assembler.{AsmEncoder}
use k3s_virtual_machine.Classfile.Writer.{
  header_size, code_size, header_bytes, code_bytes, dump_class_file,
}
use k3s_virtual_machine.Classfile.Writer.Pool.{bytes_from}
use k3s_virtual_machine.Classfile.Writer.File.{
  IsComplete, file_bytes, dump_class_file-eq, length-code_bytes,
}
use k3s_virtual_machine.Classfile.Loader.{
  Loaded, Program, load_class_file, load_constant_pool, instructions_of,
}
use k3s_virtual_machine.Classfile.Loader.Fields.{read_word-append}
use k3s_virtual_machine.Classfile.Loader.Rounds.{StandsFor}
use k3s_virtual_machine.Classfile.Loader.Roundtrip.{PlainAt, load_from}

instructions_of-code_bytes : (is : List BytecodeInstruction) → instructions_of (code_bytes is) ≡ is
unfolding instructions_of code_bytes
instructions_of-code_bytes [] = refl
instructions_of-code_bytes (i ∷ is) = ap (λ l. i ∷ l) (instructions_of-code_bytes is)

bytes_from-nil :
    (padding : ℕ → Bytes) (e : AsmEncoder) (count id : ℕ)
    → ((i : ℕ) → id ≤ i → i < id + count → (e.constant_pool.elements i).type ≡ any)
    → bytes_from padding e count id ≡ []
unfolding bytes_from
bytes_from-nil padding e zero id h = refl
bytes_from-nil padding e (suc count) id h =
    rw
      (
        h id (omega arith) (omega arith),
        bytes_from-nil padding e count (id + 1) (λ i l r. h i (omega arith) (omega arith)),
      )
      refl

-- The loader on any table behind the header and the code.
load_class_file-table :
    (code : List BytecodeInstruction) (entry base : ℕ) (table : Bytes) (st st' : Loaded)
    (region : Region)
    → header_size + 2 * length code < 2 ^ 64
    → entry < 2 ^ 64
    → alloc_bytes st.const_region (
        length (
          header_bytes header_size (header_size + 2 * length code) entry
          ++ code_bytes code
          ++ table))
      ≡ ok (base, region)
    → load_constant_pool
        (length table)
        (base + 24 + 2 * length code)
        table
        (record st { const_region = region })
      ≡ ok st'
    → load_class_file
        (header_bytes header_size (header_size + 2 * length code) entry ++ code_bytes code ++ table)
        st
      ≡ ok (record { entry_point = entry; instructions = code; loaded = st' })
unfolding load_class_file
load_class_file-table code entry base table st st' region small small_entry room run =
    let a : Bytes = to_bytes 8 header_size in
    let b : Bytes = to_bytes 8 (header_size + 2 * length code) in
    let c : Bytes = to_bytes 8 entry in
    let d : Bytes = code_bytes code in
    let shape : a ++ b ++ c ++ d ++ table ≡ a ++ (b ++ (c ++ (d ++ table))) =
      append_assoc (a ++ b ++ c) d table
      ∙ append_assoc (a ++ b) c (d ++ table)
      ∙ append_assoc a b (c ++ (d ++ table)) in
    let room' : alloc_bytes st.const_region (length (a ++ (b ++ (c ++ (d ++ table)))))
        ≡ ok (base, region) =
      rw shape at room in
    let size : (header_size + 2 * length code + u64_mod - header_size) % u64_mod ≡ 2 * length code =
      omega arith in
    let even : (2 * length code % 2 == 0) ≡ true = ground arith in
    let len : length d ≡ 2 * length code = length-code_bytes code in
    let fits : leb (2 * length code) (length (d ++ table)) ≡ true =
      ground (arith, length-append d table) in
    let tail : drop (length d) (d ++ table) ≡ table = drop-append d table in
    let behind : drop (2 * length code) (d ++ table) ≡ table = rw len at tail in
    let init : take (length d) (d ++ table) ≡ d = take-append d table in
    let front : take (2 * length code) (d ++ table) ≡ d = rw len at init in
    rw
      (
        shape,
        room',
        read_word-append header_size (b ++ (c ++ (d ++ table))) (omega arith),
        read_word-append (header_size + 2 * length code) (c ++ (d ++ table)) small,
        read_word-append entry (d ++ table) small_entry,
        size,
        even,
        fits,
        behind,
        front,
        run,
        instructions_of-code_bytes code,
      )
      refl

main-below :
    (e : AsmEncoder) (main entry : ℕ)
    → IsComplete e main entry
    → ((i : ℕ) → 128 ≤ i → i < constant_pool_size → (e.constant_pool.elements i).type ≡ any)
    → main < 128
main-below e main entry c rest = elim (dec_lt main 128) [
  | yes h ↦ h
  | no h ↦
      let at_main : (e.constant_pool.elements main).type ≡ any = rest main (omega arith) c.inside in
      let is_any : func ≡ any = rw c.is_function at at_main in
      let impossible : ⊥ = cc in elim impossible [ ]
]

-- Dumping an encoder whose main is a function, whose constants 0 to 127 are numbers, functions or
-- texts without NUL of 64-bit size or unset, and whose other constants are unset, and loading the
-- file into an empty pool with room for it, succeeds with the entry point of main and the same
-- instructions; each of the 256 constants of the loaded pool then has the type of the assembler's
-- and, unless it is unset, the same value or the address of the same text.
pub load_class_file-dump_class_file :
    (padding : ℕ → Bytes) (e : AsmEncoder) (main entry base : ℕ) (st : Loaded) (region : Region)
    → ((i : ℕ) → length (padding i) ≡ 7)
    → IsComplete e main entry
    → ((i : ℕ) → i < 128 → PlainAt e i)
    → ((i : ℕ) → 128 ≤ i → i < constant_pool_size → (e.constant_pool.elements i).type ≡ any)
    → header_size + code_size e < 2 ^ 64
    → ((i : ℕ) → (st.pool.elements i).type ≡ any)
    → alloc_bytes st.const_region (length (file_bytes padding e entry)) ≡ ok (base, region)
    → (p : Program) × ((dump_class_file padding e >>= λ file. load_class_file file st) ≡ ok p)
      × (p.entry_point ≡ entry)
      × (p.instructions ≡ e.instructions_buffer)
      × ((bound : ℕ) × ((i : ℕ)
            → i < constant_pool_size
            → StandsFor e
                (e.constant_pool.elements i).type
                (e.constant_pool.elements i).val
                (p.loaded.pool.elements i)
                p.loaded.texts
                bound))
unfolding file_bytes
load_class_file-dump_class_file padding e main entry base st region p c plain rest small fresh
      room =
    let left : bytes_from padding e 128 128 ≡ [] =
      bytes_from-nil padding e 128 128 (λ i l r. rest i l (omega arith)) in
    let dumped : dump_class_file padding e ≡ ok (file_bytes padding e entry) =
      dump_class_file-eq padding e main entry p c
      ∙ rw left (ap ok (append-nil (file_bytes padding e entry))) in
    let entry_plain : PlainAt e main = plain main (main-below e main entry c rest) in
    let entry_small : entry < 2 ^ 64 = rw c.is_function at entry_plain in
    let table : Bytes = bytes_from padding e 128 0 in
    let (bound, st', run, prog) =
      load_from padding e 128 0 (length table) (base + 24 + code_size e)
        (record st { const_region = region }) p plain refl (omega arith)
        (record { fresh = λ i l. fresh i; loaded = λ i l. absurd (omega arith) }) in
    let loads =
      load_class_file-table e.instructions_buffer entry base table st st' region small entry_small
        room run in
    (
      record { entry_point = entry; instructions = e.instructions_buffer; loaded = st' },
      rw dumped loads,
      refl,
      refl,
      (
        bound,
        λ i l. elim (dec_lt i 128) [
          | yes low ↦ prog.loaded i low
          | no high ↦ rw (rest i (omega arith) l) (prog.fresh i (omega arith))
        ],
      ),
    )
