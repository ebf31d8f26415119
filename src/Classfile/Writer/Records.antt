-- ===== src/Classfile/Writer/Records.antt =====
-- The bytes of one constant, as WriteObj of classfile/class_file.cpp puts them behind what is written,
-- and their number as EstimateEncodingSize gives it.
use k3s_virtual_machine.Base.{
  ℕ, ◌+◌, ◌*◌, arith, ◌≡◌, refl, ap, none, some, List, [], ◌∷◌, ◌++◌, Bytes, Outcome, ok, ◌>>=◌,
  ◌==◌, length, get_elem?, length-append, Option, ==_iff, true,
}
use k3s_virtual_machine.Classfile.Bytes.{to_bytes, length-to_bytes}
use k3s_virtual_machine.Classfile.ConstantPool.{element}
use k3s_virtual_machine.Interpreter.Register.{RegType, num, arr, str, obj, func, nil, any}
use k3s_virtual_machine.Assembler.{AsmEncoder, ObjectDescr}
use k3s_virtual_machine.Classfile.Writer.{
  FileBuffer, write_buf, word_record, obj_record, c_str, write_strings, write_words, write_record,
  write_obj, type_byte, strings_size, estimate_encoding_size,
}
use k3s_virtual_machine.Classfile.Writer.Buffer.{Writes, Writes-nothing, Writes-buf, Writes-then}

abbrev pub strings_bytes : List Bytes → Bytes
strings_bytes [] = []
strings_bytes (s ∷ ss) = c_str s ++ strings_bytes ss

abbrev pub words_bytes : List ℕ → Bytes
words_bytes [] = []
words_bytes (n ∷ ns) = to_bytes 8 n ++ words_bytes ns

-- A constant of one of the kinds that a class file holds, whose text or object is stored.
abbrev pub Supported : AsmEncoder → RegType → ℕ → Type 0
Supported e num val = Unit
Supported e func val = Unit
Supported e any val = Unit
Supported e str val = (s : Bytes) × (get_elem? e.strings_storage val ≡ some s)
Supported e obj val =
    (o : ObjectDescr) × (get_elem? e.objects_storage val ≡ some o)
    × (length o.methods ≡ length o.methods_bc_offsets)
Supported e arr val = ⊥
Supported e nil val = ⊥

abbrev string_bytes : Bytes → ℕ → Option Bytes → Bytes
string_bytes padding id none = []
string_bytes padding id (some s) = 2 ∷ (word_record padding (length s) id ++ c_str s)

abbrev object_bytes : Bytes → ℕ → Option ObjectDescr → Bytes
object_bytes padding id none = []
object_bytes padding id (some o) =
    3
    ∷ (obj_record padding (length o.data_fields) (length o.methods) id
        ++ (strings_bytes o.data_fields
            ++ (strings_bytes o.methods ++ words_bytes o.methods_bc_offsets)))

-- The type's byte, the record and what follows it.
abbrev pub record_bytes : Bytes → AsmEncoder → RegType → ℕ → ℕ → Bytes
record_bytes padding e num val id = 0 ∷ word_record padding val id
record_bytes padding e func val id = 4 ∷ word_record padding val id
record_bytes padding e str val id = string_bytes padding id (get_elem? e.strings_storage val)
record_bytes padding e obj val id = object_bytes padding id (get_elem? e.objects_storage val)
record_bytes padding e _ val id = []

write_strings-Writes : (l : List Bytes) → Writes (λ f. write_strings f l) (strings_bytes l)
unfolding write_strings
write_strings-Writes [] = Writes-nothing
write_strings-Writes (s ∷ l) =
    Writes-then (λ f. write_buf f (c_str s)) (λ f. write_strings f l) (c_str s) (strings_bytes l)
      (Writes-buf (c_str s)) (write_strings-Writes l)

write_words-Writes : (l : List ℕ) → Writes (λ f. write_words f l) (words_bytes l)
unfolding write_words
write_words-Writes [] = Writes-nothing
write_words-Writes (n ∷ l) =
    Writes-then (λ f. write_buf f (to_bytes 8 n)) (λ f. write_words f l) (to_bytes 8 n)
      (words_bytes l) (Writes-buf (to_bytes 8 n)) (write_words-Writes l)

length-word_record :
    (padding : Bytes) (val id : ℕ) → length padding ≡ 7 → length (word_record padding val id) ≡ 16
unfolding word_record
length-word_record padding val id h =
    omega (arith, length-append (to_bytes 8 val) (id ∷ padding), length-to_bytes 8 val)

length-obj_record :
    (padding : Bytes) (a b id : ℕ) → length padding ≡ 7 → length (obj_record padding a b id) ≡ 24
unfolding obj_record to_bytes
length-obj_record padding a b id h = omega (
  arith,
  length-append (to_bytes 8 a) (to_bytes 8 b ++ id ∷ padding),
  length-append (to_bytes 8 b) (id ∷ padding),
)

length-strings_bytes : (l : List Bytes) → length (strings_bytes l) ≡ strings_size l
unfolding strings_size
length-strings_bytes [] = refl
length-strings_bytes (s ∷ l) = omega (
  arith,
  length-strings_bytes l,
  length-append (c_str s) (strings_bytes l),
  length-append s (0 ∷ []),
)

length-words_bytes : (l : List ℕ) → length (words_bytes l) ≡ 8 * length l
length-words_bytes [] = refl
length-words_bytes (n ∷ l) =
    omega (
      arith,
      length-words_bytes l,
      length-append (to_bytes 8 n) (words_bytes l),
      length-to_bytes 8 n,
    )

length-object_bytes :
    (padding : Bytes) (id : ℕ) (o : ObjectDescr)
    → length padding ≡ 7
    → length o.methods ≡ length o.methods_bc_offsets
    → 1 + 24 + strings_size o.data_fields + strings_size o.methods + 8 * length o.methods
      ≡ length (object_bytes padding id (some o))
length-object_bytes padding id o h same =
    let names = strings_bytes o.data_fields in
    let methods = strings_bytes o.methods in
    let offsets = words_bytes o.methods_bc_offsets in
    omega (
      arith,
      length-obj_record padding (length o.data_fields) (length o.methods) id h,
      length-append (obj_record padding (length o.data_fields) (length o.methods) id)
          (names ++ (methods ++ offsets)),
      length-append names (methods ++ offsets),
      length-append methods offsets,
      length-strings_bytes o.data_fields,
      length-strings_bytes o.methods,
      length-words_bytes o.methods_bc_offsets,
    )

-- EstimateEncodingSize gives the number of bytes that WriteObj writes.
pub estimate_encoding_size-length :
    (padding : Bytes) (e : AsmEncoder) (t : RegType) (val id : ℕ)
    → length padding ≡ 7
    → Supported e t val
    → estimate_encoding_size e (element t val) ≡ ok (length (record_bytes padding e t val id))
unfolding estimate_encoding_size
estimate_encoding_size-length padding e num val id h s =
    ap ok (omega (arith, length-word_record padding val id h))
estimate_encoding_size-length padding e func val id h s =
    ap ok (omega (arith, length-word_record padding val id h))
estimate_encoding_size-length padding e any val id h s = refl
estimate_encoding_size-length padding e str val id h (s, at_val) = rw at_val (
    ap ok (
      omega (
        arith,
        length-word_record padding (length s) id h,
        length-append (word_record padding (length s) id) (c_str s),
        length-append s (0 ∷ []),
      )))
estimate_encoding_size-length padding e obj val id h (o, at_val, same) =
    let passes : (length o.methods == length o.methods_bc_offsets) ≡ true = (==_iff _ _).1 same in
    rw (at_val, passes) (ap ok (length-object_bytes padding id o h same))
estimate_encoding_size-length padding e arr val id h s = elim s [ ]
estimate_encoding_size-length padding e nil val id h s = elim s [ ]

tag-Writes :
    (t : ℕ) (h : FileBuffer → Outcome FileBuffer) (b : Bytes)
    → Writes h b
    → Writes (λ f. write_buf f (t ∷ []) >>= h) (t ∷ b)
tag-Writes t h b k = Writes-then (λ f. write_buf f (t ∷ [])) h (t ∷ []) b (Writes-buf (t ∷ [])) k

object-Writes :
    (padding : Bytes) (id : ℕ) (o : ObjectDescr)
    → Writes
        (λ f. do
          f1 ← write_buf f (obj_record padding (length o.data_fields) (length o.methods) id)
          f2 ← write_strings f1 o.data_fields
          f3 ← write_strings f2 o.methods
          write_words f3 o.methods_bc_offsets)
        (obj_record padding (length o.data_fields) (length o.methods) id
          ++ (strings_bytes o.data_fields
              ++ (strings_bytes o.methods ++ words_bytes o.methods_bc_offsets)))
object-Writes padding id o =
    Writes-then (λ f. write_buf f (obj_record padding (length o.data_fields) (length o.methods) id))
      (λ f1. do
        f2 ← write_strings f1 o.data_fields
        f3 ← write_strings f2 o.methods
        write_words f3 o.methods_bc_offsets)
      _ _ (Writes-buf (obj_record padding (length o.data_fields) (length o.methods) id))
      (Writes-then (λ f1. write_strings f1 o.data_fields)
        (λ f2. do f3 ← write_strings f2 o.methods; write_words f3 o.methods_bc_offsets) _ _
        (write_strings-Writes o.data_fields)
        (Writes-then (λ f2. write_strings f2 o.methods) (λ f3. write_words f3 o.methods_bc_offsets)
          _ _ (write_strings-Writes o.methods) (write_words-Writes o.methods_bc_offsets)))

string-Writes :
    (padding : Bytes) (id : ℕ) (s : Bytes)
    → Writes
        (λ f. do f' ← write_buf f (word_record padding (length s) id); write_buf f' (c_str s))
        (word_record padding (length s) id ++ c_str s)
string-Writes padding id s =
    Writes-then (λ f. write_buf f (word_record padding (length s) id)) (λ f. write_buf f (c_str s))
      _ _ (Writes-buf (word_record padding (length s) id)) (Writes-buf (c_str s))

-- WriteObj appends the type's byte, the record and what follows it, in this order.
pub write_obj-Writes :
    (padding : Bytes) (e : AsmEncoder) (t : RegType) (val id : ℕ)
    → Supported e t val
    → Writes (λ f. write_obj padding e (element t val) id f) (record_bytes padding e t val id)
unfolding write_obj write_record type_byte
write_obj-Writes padding e num val id s =
    tag-Writes 0 (λ f. write_buf f (word_record padding val id)) _
      (Writes-buf (word_record padding val id))
write_obj-Writes padding e func val id s =
    tag-Writes 4 (λ f. write_buf f (word_record padding val id)) _
      (Writes-buf (word_record padding val id))
write_obj-Writes padding e any val id s = Writes-nothing
write_obj-Writes padding e str val id (s, at_val) = rw at_val (
    tag-Writes 2
      (λ f. do f' ← write_buf f (word_record padding (length s) id); write_buf f' (c_str s)) _
      (string-Writes padding id s))
write_obj-Writes padding e obj val id (o, at_val, same) = rw at_val (
    tag-Writes 3
      (λ f. do
        f1 ← write_buf f (obj_record padding (length o.data_fields) (length o.methods) id)
        f2 ← write_strings f1 o.data_fields
        f3 ← write_strings f2 o.methods
        write_words f3 o.methods_bc_offsets)
      _ (object-Writes padding id o))
write_obj-Writes padding e arr val id s = elim s [ ]
write_obj-Writes padding e nil val id s = elim s [ ]
