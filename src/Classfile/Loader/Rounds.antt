-- ===== src/Classfile/Loader/Rounds.antt =====
-- One round of LoadConstantPool of classfile/class_file.cpp on a constant that WriteObj wrote.
use k3s_virtual_machine.Base.{
  ℕ, zero, suc, ◌+◌, ◌-◌, ◌^◌, ◌≤◌, ◌<◌, arith, ◌≡◌, ◌≢◌, refl, Option, some, ◌∷◌, ◌++◌, Bytes, ok,
  length, get_elem?, length-append, ==_refl, ==_iff,
}
use k3s_virtual_machine.Classfile.Bytes.{to_bytes, length-to_bytes}
use k3s_virtual_machine.Base.{update}
use k3s_virtual_machine.Classfile.ConstantPool.{Element, element, set_num, set_str, set_function}
use k3s_virtual_machine.Interpreter.Register.{RegType, num, str, func, any}
use k3s_virtual_machine.Assembler.{AsmEncoder}
use k3s_virtual_machine.Classfile.Writer.{word_record}
use k3s_virtual_machine.Classfile.Loader.{Loaded, type_of_byte, load_record, load_constant_pool}
use k3s_virtual_machine.Classfile.Loader.Fields.{
  read_word-append, read_id-append, NoNul, word_record-append, load_string-append,
}

-- A number, a function or a text of which a class file can hold the value, or no constant.
abbrev pub Plain : AsmEncoder → RegType → ℕ → Type 0
Plain e num val = val < 2 ^ 64
Plain e func val = val < 2 ^ 64
Plain e any val = Unit
Plain e str val =
    (s : Bytes) × (get_elem? e.strings_storage val ≡ some s) × (length s < 2 ^ 64) × NoNul s
Plain e _ val = ⊥

-- The loaded element stands for the assembler's: the same value, or the address of the same text,
-- below `bound`.
abbrev pub StandsFor : AsmEncoder → RegType → ℕ → Element → (ℕ → Option Bytes) → ℕ → Type 0
StandsFor e num val el texts bound = el ≡ element num val
StandsFor e func val el texts bound = el ≡ element func val
StandsFor e any val el texts bound = el.type ≡ any
StandsFor e str val el texts bound =
    (el.type ≡ str) × (texts el.val ≡ get_elem? e.strings_storage val) × (el.val < bound)
StandsFor e _ val el texts bound = ⊥

-- What loading the constant `id` does to the pool.
pub record Stepped (e : AsmEncoder) (t : RegType) (val id addr addr' : ℕ) (st st' : Loaded)
    : Type 0 where
  pub forward : addr ≤ addr'
  pub stored : StandsFor e t val (st'.pool.elements id) st'.texts addr'
  pub others : (i : ℕ) → i ≢ id → st'.pool.elements i ≡ st.pool.elements i
  pub below : (a : ℕ) → a < addr → st'.texts a ≡ st.texts a

-- One round of the loop, or none for a constant that is not written.
unfoldable pub LoadsTo : AsmEncoder → RegType → ℕ → ℕ → ℕ → ℕ → Loaded → Bytes → Bytes → Type 0
LoadsTo e t val id fuel addr st bytes rest =
    (fuel' : ℕ) × (addr' : ℕ) × (st' : Loaded) × (load_constant_pool fuel addr bytes st
      ≡ load_constant_pool fuel' addr' rest st')
    × (length rest ≤ fuel')
    × Stepped e t val id addr addr' st st'

-- The address behind a round.
abbrev next_addr : ℕ → Bytes → Bytes → ℕ
next_addr addr bytes rest = addr + 1 + (length bytes - length rest)

one_round :
    (e : AsmEncoder) (b : ℕ) (t : RegType) (val id fuel addr : ℕ) (st st' : Loaded)
    (bytes rest : Bytes)
    → type_of_byte b ≡ some t
    → load_record t (addr + 1) bytes st ≡ ok (st', rest)
    → length rest < fuel
    → Stepped e t val id addr (next_addr addr bytes rest) st st'
    → LoadsTo e t val id fuel addr st (b ∷ bytes) rest
unfolding LoadsTo load_constant_pool
one_round e b t val id zero addr st st' bytes rest is_type record_ok enough s = absurd (omega arith)
one_round e b t val id (suc fuel) addr st st' bytes rest is_type record_ok enough s =
    let run : load_constant_pool (suc fuel) addr (b ∷ bytes) st
        ≡ load_constant_pool fuel (next_addr addr bytes rest) rest st' =
      rw (is_type, record_ok) refl in
    (fuel, next_addr addr bytes rest, st', run, omega arith, s)

pub load_num :
    (e : AsmEncoder) (padding rest : Bytes) (val id fuel addr : ℕ) (st : Loaded)
    → length padding ≡ 7
    → val < 2 ^ 64
    → length rest < fuel
    → LoadsTo e num val id fuel addr st (0 ∷ (word_record padding val id ++ rest)) rest
unfolding load_record set_num
load_num e padding rest val id fuel addr st h small enough =
    let st' : Loaded = record st { pool = set_num st.pool id val } in
    let run : load_record num (addr + 1) (word_record padding val id ++ rest) st ≡ ok (st', rest) =
      rw
        (
          word_record-append padding rest val id,
          read_word-append val (id ∷ (padding ++ rest)) small,
          read_id-append id padding rest h,
        )
        refl in
    one_round e 0 num val id fuel addr st st' _ rest refl run enough (record {
      forward = omega arith;
      stored = rw (==_refl id) refl;
      others = λ i ne. ground (arith, ==_iff id i);
      below = λ a lt. refl;
    })

pub load_func :
    (e : AsmEncoder) (padding rest : Bytes) (val id fuel addr : ℕ) (st : Loaded)
    → length padding ≡ 7
    → val < 2 ^ 64
    → length rest < fuel
    → LoadsTo e func val id fuel addr st (4 ∷ (word_record padding val id ++ rest)) rest
unfolding load_record set_function
load_func e padding rest val id fuel addr st h small enough =
    let st' : Loaded = record st { pool = set_function st.pool id val } in
    let run : load_record func (addr + 1) (word_record padding val id ++ rest) st ≡ ok (st', rest) =
      rw
        (
          word_record-append padding rest val id,
          read_word-append val (id ∷ (padding ++ rest)) small,
          read_id-append id padding rest h,
        )
        refl in
    one_round e 4 func val id fuel addr st st' _ rest refl run enough (record {
      forward = omega arith;
      stored = rw (==_refl id) refl;
      others = λ i ne. ground (arith, ==_iff id i);
      below = λ a lt. refl;
    })

pub length-text :
    (padding s rest : Bytes) (id : ℕ)
    → length padding ≡ 7
    → length (word_record padding (length s) id ++ (s ++ 0 ∷ rest)) ≡ 17 + length s + length rest
unfolding word_record
length-text padding s rest id h = omega (
  arith,
  length-append (word_record padding (length s) id) (s ++ 0 ∷ rest),
  length-append (to_bytes 8 (length s)) (id ∷ padding),
  length-to_bytes 8 (length s),
  length-append s (0 ∷ rest),
)

pub load_str :
    (e : AsmEncoder) (padding s rest : Bytes) (val id fuel addr : ℕ) (st : Loaded)
    → length padding ≡ 7
    → length s < 2 ^ 64
    → NoNul s
    → get_elem? e.strings_storage val ≡ some s
    → length rest < fuel
    → LoadsTo e str val id fuel addr st
        (2 ∷ (word_record padding (length s) id ++ (s ++ 0 ∷ rest)))
        rest
unfolding load_record set_str
load_str e padding s rest val id fuel addr st h small plain at_val enough =
    let bytes : Bytes = word_record padding (length s) id ++ (s ++ 0 ∷ rest) in
    let st' : Loaded = record st {
      pool = set_str st.pool id (addr + 1 + 16);
      texts = update st.texts (addr + 1 + 16) (some s);
    } in
    let run : load_record str (addr + 1) bytes st ≡ ok (st', rest) =
      rw (word_record-append padding (s ++ 0 ∷ rest) (length s) id)
        (load_string-append padding s rest (addr + 1) id st h small plain) in
    let size : length bytes ≡ 17 + length s + length rest = length-text padding s rest id h in
    one_round e 2 str val id fuel addr st st' bytes rest refl run enough (record {
      forward = omega arith;
      stored = rw (==_refl id, ==_refl (addr + 1 + 16), at_val) (refl, refl, omega arith);
      others = λ i ne. ground (arith, ==_iff id i);
      below = λ a lt. ground (arith, ==_iff (addr + 1 + 16) a);
    })
