-- ===== src/Classfile/Tests.antt =====
-- A class file with one function, one number and one text.
use k3s_virtual_machine.Base.{
  ℕ, zero, suc, ◌+◌, ◌≤◌, ◌<◌, arith, ◌≡◌, refl, none, [], ◌∷◌, ◌++◌, Bytes, lookup, bytes_eq, ok,
  ◌>>=◌, replicate, length,
}
use k3s_virtual_machine.Allocator.Region.{alloc_bytes}
use k3s_virtual_machine.Classfile.Bytes.{to_bytes}
use k3s_virtual_machine.Classfile.ConstantPool.{Element, element, empty_pool, constant_pool_size}
use k3s_virtual_machine.Interpreter.Register.{num, str, func, any}
use k3s_virtual_machine.Interpreter.Isa.{instruction}
use k3s_virtual_machine.Assembler.{AsmEncoder, initial}
use k3s_virtual_machine.Classfile.Writer.{entry_func_name, dump_class_file, word_record, code_bytes}
use k3s_virtual_machine.Classfile.Writer.Buffer.{zeros}
use k3s_virtual_machine.Classfile.Writer.Pool.{bytes_from, SupportedAt}
use k3s_virtual_machine.Classfile.Writer.File.{IsComplete, file_bytes, dump_class_file-eq}
use k3s_virtual_machine.Classfile.Loader.{Loaded, Program, load_class_file}
use k3s_virtual_machine.Classfile.Loader.Rounds.{StandsFor}
use k3s_virtual_machine.Classfile.Loader.Roundtrip.{PlainAt}
use k3s_virtual_machine.Classfile.Loader.File.{load_class_file-dump_class_file}

abbrev elements : ℕ → Element
elements zero = element func 0
elements (suc zero) = element num 77
elements (suc (suc zero)) = element str 0
elements (suc (suc (suc i))) = element any 0

-- `func main { ret }`, a number and the text "A".
abbrev small : AsmEncoder
small = record initial {
  instructions_buffer = instruction 6 0 ∷ [];
  declared_objects = (entry_func_name, 0) ∷ [];
  strings_storage = (65 ∷ []) ∷ [];
  constant_pool = record { elements = elements; object_mappings = λ _. [] };
}

abbrev padding : ℕ → Bytes
padding _ = replicate 7 0

supported : (i : ℕ) → i < constant_pool_size → SupportedAt small i
supported zero h = tt
supported (suc zero) h = tt
supported (suc (suc zero)) h = (65 ∷ [], refl)
supported (suc (suc (suc i))) h = tt

plain : (i : ℕ) → i < 128 → PlainAt small i
plain zero h = omega arith
plain (suc zero) h = omega arith
plain (suc (suc zero)) h = (65 ∷ [], refl, omega arith, omega arith)
plain (suc (suc (suc i))) h = tt

nothing_above :
    (i : ℕ) → 128 ≤ i → i < constant_pool_size → (small.constant_pool.elements i).type ≡ any
nothing_above zero l h = absurd (omega arith)
nothing_above (suc zero) l h = absurd (omega arith)
nothing_above (suc (suc zero)) l h = absurd (omega arith)
nothing_above (suc (suc (suc i))) l h = refl

small-IsComplete : IsComplete small 0 0
unfolding lookup bytes_eq
small-IsComplete = record {
  declared = refl;
  inside = omega arith;
  is_function = refl;
  supported = supported;
}

abbrev empty_memory : Loaded
empty_memory = record {
  pool = empty_pool;
  texts = λ _. none;
  offsets = λ _. none;
  const_region = record { start = 1000; size = 9000; cursor = 8 };
}

abbrev file_length : ℕ
file_length = 79

room :
    alloc_bytes empty_memory.const_region (length (file_bytes padding small 0))
    ≡ ok (1008, record { start = 1000; size = 9000; cursor = 8 + file_length })
unfolding alloc_bytes file_bytes bytes_from to_bytes code_bytes word_record
room = refl

dump_class_file-eq_example :
    dump_class_file padding small
    ≡ ok (file_bytes padding small 0 ++ zeros (length (bytes_from padding small 128 128)))
dump_class_file-eq_example = dump_class_file-eq padding small 0 0 (λ _. refl) small-IsComplete

load_class_file-dump_class_file_example :
    (p : Program) × ((dump_class_file padding small >>= λ file. load_class_file file empty_memory)
      ≡ ok p)
    × (p.entry_point ≡ 0)
    × (p.instructions ≡ instruction 6 0 ∷ [])
    × ((bound : ℕ) × ((i : ℕ)
          → i < constant_pool_size
          → StandsFor small
              (elements i).type
              (elements i).val
              (p.loaded.pool.elements i)
              p.loaded.texts
              bound))
load_class_file-dump_class_file_example =
    load_class_file-dump_class_file padding small 0 0 1008 empty_memory
      (record { start = 1000; size = 9000; cursor = 8 + file_length }) (λ _. refl) small-IsComplete
      plain nothing_above (omega arith) (λ _. refl) room
