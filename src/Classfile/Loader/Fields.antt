-- ===== src/Classfile/Loader/Fields.antt =====
-- The reading half of classfile/class_file.cpp takes out of a record what the writing half puts in.
use k3s_virtual_machine.Base.{
  ℕ, suc, ◌+◌, ◌^◌, ◌<◌, arith, ◌≡◌, refl, true, false, some, [], ◌∷◌, ◌++◌, append_assoc, Bytes,
  ok, leb, ◌==◌, length, get_elem?, drop, drop-append, length-append, All,
}
use k3s_virtual_machine.Classfile.Bytes.{to_bytes, of_bytes, of_bytes-to_bytes}
use k3s_virtual_machine.Base.{update}
use k3s_virtual_machine.Classfile.ConstantPool.{set_str}
use k3s_virtual_machine.Classfile.Writer.{word_record}
use k3s_virtual_machine.Classfile.Loader.{Loaded, read, read_word, read_id, c_string, load_string}

pub read_word-append :
    (n : ℕ) (rest : Bytes) → n < 2 ^ 64 → read_word (to_bytes 8 n ++ rest) ≡ ok (n, rest)
unfolding read_word read to_bytes
read_word-append n rest h =
    let back : of_bytes (to_bytes 8 n) ≡ n = of_bytes-to_bytes 8 n h in
    let fits : leb 8 (length (to_bytes 8 n ++ rest)) ≡ true = ground arith in rw (fits, back) refl

pub read_id-append :
    (id : ℕ) (padding rest : Bytes)
    → length padding ≡ 7
    → read_id (id ∷ (padding ++ rest)) ≡ ok (id, rest)
unfolding read_id read
read_id-append id padding rest h =
    let fits : leb 8 (length (id ∷ (padding ++ rest))) ≡ true =
      ground (arith, length-append padding rest) in
    let tail : drop (length padding) (padding ++ rest) ≡ rest = drop-append padding rest in
    let behind : drop 7 (padding ++ rest) ≡ rest = rw h at tail in rw (fits, behind) refl

-- A text that a C string can hold.
abbrev pub NoNul : Bytes → Type 0
NoNul s = All (λ b. 0 < b) s

pub c_string-append : (s rest : Bytes) → NoNul s → c_string (s ++ 0 ∷ rest) ≡ some s
unfolding c_string
c_string-append [] rest h = refl
c_string-append (b ∷ s) rest h =
    let not_nul : (b == 0) ≡ false = ground arith in rw (not_nul, c_string-append s rest h.1) refl

last-c_str : (s rest : Bytes) → get_elem? (s ++ 0 ∷ rest) (length s) ≡ some 0
last-c_str [] rest = refl
last-c_str (b ∷ s) rest = last-c_str s rest

behind-c_str : (s rest : Bytes) → drop (length s + 1) (s ++ 0 ∷ rest) ≡ rest
behind-c_str [] rest = refl
behind-c_str (b ∷ s) rest =
    let n : length s + 1 ≡ suc (length s) = omega arith in
    let m : length (b ∷ s) + 1 ≡ suc (length s + 1) = omega arith in rw m (behind-c_str s rest)

pub word_record-append :
    (padding rest : Bytes) (val id : ℕ)
    → word_record padding val id ++ rest ≡ to_bytes 8 val ++ (id ∷ (padding ++ rest))
unfolding word_record
word_record-append padding rest val id = append_assoc (to_bytes 8 val) (id ∷ padding) rest

-- LoadConstantPool's case of a text.
pub load_string-append :
    (padding s rest : Bytes) (addr id : ℕ) (st : Loaded)
    → length padding ≡ 7
    → length s < 2 ^ 64
    → NoNul s
    → load_string addr (to_bytes 8 (length s) ++ (id ∷ (padding ++ (s ++ 0 ∷ rest)))) st
      ≡ ok (
        record st {
          pool = set_str st.pool id (addr + 16);
          texts = update st.texts (addr + 16) (some s);
        },
        rest,
      )
unfolding load_string
load_string-append padding s rest addr id st h small plain =
    rw
      (
        read_word-append (length s) (id ∷ (padding ++ (s ++ 0 ∷ rest))) small,
        read_id-append id padding (s ++ 0 ∷ rest) h,
        last-c_str s rest,
        c_string-append s rest plain,
        behind-c_str s rest,
      )
      refl
