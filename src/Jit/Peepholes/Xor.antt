-- ===== src/Jit/Peepholes/Xor.antt =====
-- The laws of the exclusive or that the peepholes of jit/ir/graph/optimizations/peepholes.h use.
use Prim.Native.Nat.{bit_xor, differ, digits, bit_xor-bitwise}
use k3s_virtual_machine.Base.{
  ℕ, zero, suc, ◌+◌, ◌-◌, ◌*◌, ◌/◌, ◌%◌, ◌^◌, ◌≤◌, ◌<◌, ◌≡◌, refl, sym, ◌∙◌, arith,
}

-- The digits' recursion, with more rounds than it needs.
abbrev rounds : ℕ → ℕ → ℕ → ℕ
rounds n x y = digits (λ rest. rest) differ n x y

rounds-zero : (n y : ℕ) → rounds n 0 y ≡ y
rounds-zero zero y = refl
rounds-zero (suc n) y = refl

rounds-enough : (n k x y : ℕ) → x ≤ n → x ≤ k → rounds n x y ≡ rounds k x y
rounds-enough n k zero y p q = rounds-zero n y ∙ sym (rounds-zero k y)
rounds-enough zero k (suc x) y p q = absurd (omega arith)
rounds-enough (suc n) zero (suc x) y p q = absurd (omega arith)
rounds-enough (suc n) (suc k) (suc x) y p q =
    omega (arith, rounds-enough n k (suc x / 2) (y / 2) (omega arith) (omega arith))

pub bit_xor-zero : (y : ℕ) → bit_xor 0 y ≡ y
bit_xor-zero y = bit_xor-bitwise 0 y

-- The lowest digit apart from the others.
pub bit_xor_step : (x y : ℕ) → bit_xor x y ≡ bit_xor (x / 2) (y / 2) * 2 + differ (x % 2) (y % 2)
bit_xor_step zero y = omega (arith, bit_xor-zero y, bit_xor-zero (y / 2))
bit_xor_step (suc x) y = omega (
  arith,
  bit_xor-bitwise (suc x) y,
  bit_xor-bitwise (suc x / 2) (y / 2),
  rounds-enough x (suc x / 2) (suc x / 2) (y / 2) (omega arith) (omega arith),
)

differ_self : (d : ℕ) → differ d d ≡ 0
differ_self zero = refl
differ_self (suc d) = differ_self d

xor_self_fuel : (n x : ℕ) → x ≤ n → bit_xor x x ≡ 0
xor_self_fuel n zero h = bit_xor-zero 0
xor_self_fuel zero (suc x) h = absurd (omega arith)
xor_self_fuel (suc n) (suc x) h = omega (
  arith,
  bit_xor_step (suc x) (suc x),
  xor_self_fuel n (suc x / 2) (omega arith),
  differ_self (suc x % 2),
)

pub bit_xor_self : (x : ℕ) → bit_xor x x ≡ 0
bit_xor_self x = xor_self_fuel x x (omega arith)

differ_comm : (a b : ℕ) → differ a b ≡ differ b a
differ_comm zero zero = refl
differ_comm zero (suc b) = refl
differ_comm (suc a) zero = refl
differ_comm (suc a) (suc b) = differ_comm a b

xor_comm_fuel : (n a b : ℕ) → a ≤ n → b ≤ n → bit_xor a b ≡ bit_xor b a
xor_comm_fuel zero a b p q =
    let a_zero : a ≡ 0 = omega arith in let b_zero : b ≡ 0 = omega arith in rw (a_zero, b_zero) refl
xor_comm_fuel (suc n) a b p q = omega (
  arith,
  bit_xor_step a b,
  bit_xor_step b a,
  xor_comm_fuel n (a / 2) (b / 2) (omega arith) (omega arith),
  differ_comm (a % 2) (b % 2),
)

pub bit_xor_comm : (a b : ℕ) → bit_xor a b ≡ bit_xor b a
bit_xor_comm a b = xor_comm_fuel (a + b) a b (omega arith) (omega arith)

-- A bit and its complement differ.
differ_complement : (d : ℕ) → d < 2 → differ (1 - d) d ≡ 1
differ_complement zero h = refl
differ_complement (suc zero) h = refl
differ_complement (suc (suc d)) h = absurd (omega arith)

-- The exclusive or of a word of `k` bits and its complement is all ones.
pub bit_xor-complement : (k x : ℕ) → x < 2 ^ k → bit_xor (2 ^ k - 1 - x) x ≡ 2 ^ k - 1
bit_xor-complement zero x h = let z : x ≡ 0 = omega arith in rw z (bit_xor-zero 0)
bit_xor-complement (suc k) x h =
    let half : x / 2 < 2 ^ k = omega arith in
    let high : (2 ^ suc k - 1 - x) / 2 ≡ 2 ^ k - 1 - x / 2 = omega arith in
    let low : (2 ^ suc k - 1 - x) % 2 ≡ 1 - x % 2 = omega arith in
    let rest : bit_xor ((2 ^ suc k - 1 - x) / 2) (x / 2) ≡ 2 ^ k - 1 =
      rw high (bit_xor-complement k (x / 2) half) in
    let digit : differ ((2 ^ suc k - 1 - x) % 2) (x % 2) ≡ 1 =
      rw low (differ_complement (x % 2) (omega arith)) in
    omega (arith, bit_xor_step (2 ^ suc k - 1 - x) x, rest, digit)
