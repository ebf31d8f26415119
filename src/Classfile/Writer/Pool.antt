-- ===== src/Classfile/Writer/Pool.antt =====
-- WriteConstantPool of classfile/class_file.cpp: the loop over an `int8_t`, and the sizes that
-- AllocateBuffer sums up.
use k3s_virtual_machine.Base.{
  ℕ, zero, suc, ◌+◌, ◌%◌, ◌≤◌, ◌<◌, arith, ◌≡◌, refl, true, false, [], ◌++◌, Bytes, ok, ltb, length,
  u8_mod, length-append,
}
use native.Mathlib.Decide.{dec_lt}
use k3s_virtual_machine.Classfile.ConstantPool.{constant_pool_size, get_element}
use k3s_virtual_machine.Assembler.{AsmEncoder}
use k3s_virtual_machine.Classfile.Writer.{
  write_obj, int8_to_size, write_from, write_constant_pool, estimate_all,
}
use k3s_virtual_machine.Classfile.Writer.Buffer.{Writes, Writes-nothing, Writes-then}
use k3s_virtual_machine.Classfile.Writer.Records.{
  Supported, record_bytes, write_obj-Writes, estimate_encoding_size-length,
}

-- The bytes of the constant `id`.
abbrev pub bytes_at : (ℕ → Bytes) → AsmEncoder → ℕ → Bytes
bytes_at padding e id =
    record_bytes (padding id) e (e.constant_pool.elements id).type (e.constant_pool.elements id).val
      id

-- The bytes of `count` constants from `id` on, one behind the other.
unfoldable pub bytes_from : (ℕ → Bytes) → AsmEncoder → ℕ → ℕ → Bytes
bytes_from padding e zero id = []
bytes_from padding e (suc count) id = bytes_at padding e id ++ bytes_from padding e count (id + 1)

abbrev pub SupportedAt : AsmEncoder → ℕ → Type 0
SupportedAt e id = Supported e (e.constant_pool.elements id).type (e.constant_pool.elements id).val

write_from-Writes :
    (padding : ℕ → Bytes) (e : AsmEncoder) (count n id : ℕ)
    → ((i : ℕ) → i < 128 → SupportedAt e i)
    → id + count ≡ 128
    → count < n
    → Writes (λ f. write_from padding e n id f) (bytes_from padding e count id)
unfolding write_from int8_to_size get_element bytes_from
write_from-Writes padding e zero (suc n) id s last fuel =
    let passed : ltb (int8_to_size id) constant_pool_size ≡ false = ground arith in
    rw passed Writes-nothing
write_from-Writes padding e (suc count) (suc n) id s last fuel =
    let within : ltb (int8_to_size id) constant_pool_size ≡ true = ground arith in
    let next : (id + 1) % u8_mod ≡ id + 1 = omega arith in
    rw (within, next)
      (Writes-then (λ f. write_obj (padding id) e (e.constant_pool.elements id) id f)
        (λ f. write_from padding e n (id + 1) f) _ _
        (write_obj-Writes (padding id) e _ _ id (s id (omega arith)))
        (write_from-Writes padding e count n (id + 1) s (omega arith) (omega arith)))
write_from-Writes padding e count zero id s last fuel = absurd (omega arith)

-- The loop of WriteConstantPool appends the constants 0 to 127, and ends.
pub write_constant_pool-Writes :
    (padding : ℕ → Bytes) (e : AsmEncoder)
    → ((i : ℕ) → i < 128 → SupportedAt e i)
    → Writes (λ f. write_constant_pool padding e f) (bytes_from padding e 128 0)
unfolding write_constant_pool
write_constant_pool-Writes padding e s = write_from-Writes padding e 128 257 0 s refl (omega arith)

-- The number of bytes of the first `n` constants.
unfoldable pub size_below : (ℕ → Bytes) → AsmEncoder → ℕ → ℕ
size_below padding e zero = 0
size_below padding e (suc n) = size_below padding e n + length (bytes_at padding e n)

pub estimate_all-eq :
    (padding : ℕ → Bytes) (e : AsmEncoder) (n : ℕ)
    → ((i : ℕ) → length (padding i) ≡ 7)
    → ((i : ℕ) → i < n → SupportedAt e i)
    → estimate_all e n ≡ ok (size_below padding e n)
unfolding estimate_all get_element size_below
estimate_all-eq padding e zero p s = refl
estimate_all-eq padding e (suc n) p s =
    rw
      (
        estimate_all-eq padding e n p (λ i h. s i (omega arith)),
        estimate_encoding_size-length (padding n) e _ _ n (p n) (s n (omega arith)),
      )
      refl

pub length-bytes_from :
    (padding : ℕ → Bytes) (e : AsmEncoder) (count id n : ℕ)
    → n ≡ id + count
    → size_below padding e id + length (bytes_from padding e count id) ≡ size_below padding e n
unfolding bytes_from size_below
length-bytes_from padding e zero id n h = let k : n ≡ id = omega arith in rw k omega arith
length-bytes_from padding e (suc count) id n h =
    let ih = length-bytes_from padding e count (suc id) n (omega arith) in
    let next : id + 1 ≡ suc id = omega arith in
    rw next
      (omega (arith, length-append (bytes_at padding e id) (bytes_from padding e count (suc id))))

pub size_below-ge :
    (padding : ℕ → Bytes) (e : AsmEncoder) (i n : ℕ)
    → i < n
    → length (bytes_at padding e i) ≤ size_below padding e n
unfolding size_below
size_below-ge padding e i zero h = absurd (omega arith)
size_below-ge padding e i (suc n) h = elim (dec_lt i n) [
  | yes below ↦ omega (arith, size_below-ge padding e i n below)
  | no here ↦ let same : i ≡ n = omega arith in rw same (omega arith)
]

pub size_below-zero : (padding : ℕ → Bytes) (e : AsmEncoder) → size_below padding e 0 ≡ 0
unfolding size_below
size_below-zero padding e = refl
