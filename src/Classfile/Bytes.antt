-- ===== src/Classfile/Bytes.antt =====
-- Words in memory, least significant byte first, as classfile/class_file.cpp copies them.
use k3s_virtual_machine.Base.{
  ℕ, zero, suc, ◌+◌, ◌*◌, ◌/◌, ◌%◌, ◌^◌, ◌<◌, arith, ◌≡◌, refl, [], ◌∷◌, Bytes, length,
}

-- The lowest `k` bytes of a number, and the number that bytes stand for.
unfoldable pub to_bytes : ℕ → ℕ → Bytes
to_bytes zero n = []
to_bytes (suc k) n = n % 256 ∷ to_bytes k (n / 256)

unfoldable pub of_bytes : Bytes → ℕ
of_bytes [] = 0
of_bytes (b ∷ bs) = b + 256 * of_bytes bs

pub length-to_bytes : (k n : ℕ) → length (to_bytes k n) ≡ k
unfolding to_bytes
length-to_bytes zero n = refl
length-to_bytes (suc k) n = omega (arith, length-to_bytes k (n / 256))

pub of_bytes-to_bytes : (k n : ℕ) → n < 256 ^ k → of_bytes (to_bytes k n) ≡ n
unfolding to_bytes of_bytes
of_bytes-to_bytes zero n h = omega arith
of_bytes-to_bytes (suc k) n h =
    let h' : n < 256 * 256 ^ k = omega arith in
    let small : n / 256 < 256 ^ k = omega arith in
    let ih = of_bytes-to_bytes k (n / 256) small in omega arith
