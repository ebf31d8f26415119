-- ===== src/Base/Word.antt =====
-- Machine integers as native numbers.
use Prim.Native.Nat.{ℕ, zero, suc, ◌^◌, ◌<◌}
use mathlib.Core.Path.{◌≡◌}
use mathlib.Core.Bool.{Bool, true, ◌&&◌}
use native.Mathlib.Omega.{arith}

-- The moduli of `uint8_t`, `uint32_t` and `size_t`.
abbrev pub u8_mod : ℕ
u8_mod = 2 ^ 8

abbrev pub u32_mod : ℕ
u32_mod = 2 ^ 32

abbrev pub u64_mod : ℕ
u64_mod = 2 ^ 64

-- Does a test hold for every number below a bound? For tables of a byte's values, which evaluation
-- fills in.
unfoldable pub table : (ℕ → Bool) → ℕ → Bool
table test zero = true
table test (suc bound) = table test bound && test bound

pub table-entry :
    (test : ℕ → Bool) (bound i : ℕ) → i < bound → table test bound ≡ true → test i ≡ true
unfolding table
table-entry test (suc bound) i lt full = ground (arith, table-entry test bound i)
table-entry test zero i lt full = absurd (omega arith)
