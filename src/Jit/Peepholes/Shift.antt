-- ===== src/Jit/Peepholes/Shift.antt =====
-- The visit of ASHR in jit/ir/graph/optimizations/peepholes.h, and all visits together.
use Prim.Native.Nat.{bit_xor}
use k3s_virtual_machine.Base.{
  ℕ, ◌+◌, ◌-◌, ◌*◌, ◌%◌, ◌^◌, ◌<◌, ◌≡◌, refl, sym, ap, ap₂, ◌∙◌, true, ◌&&◌, some, ok, ltb, leb,
  ◌==◌, ==_iff, u64_mod, arith, Total, Total-if,
}
use k3s_virtual_machine.Jit.Graph.{
  Ir, Inst, Opcode, type_int32, type_int64, op_sub, op_xor, op_ashr, is_const, is_shl,
  get_size_in_bits, get_down_cast_type,
}
use k3s_virtual_machine.Jit.Graph.Users.{get_input}
use k3s_virtual_machine.Jit.Peepholes.{
  Rewrite, keep, shift_right, is_zero, ashr_cast, ashr_rewrite, rewrite_of,
}
use k3s_virtual_machine.Jit.Peepholes.Meaning.{
  Means, IsBinary, value_of, cast_value, and_true, zero_value, sub_rewrite-value, xor_rewrite-value,
}

shift_by_zero : (x : ℕ) → shift_right x 0 ≡ x
shift_by_zero x = ground arith

shift_back : (x : ℕ) → shift_right ((x * 2 ^ 32) % u64_mod) 32 ≡ cast_value type_int32 x
shift_back x = ground arith

-- A shift of a 64-bit number by less than 64, and by 32 if it takes back a shift to the left.
pub record CanShift (inst i0 : Inst) (amount : ℕ) : Type 0 where
  pub small : amount < 64
  pub size : get_size_in_bits i0.type ≡ ok 64
  pub long : inst.type ≡ type_int64
  pub half : is_shl i0 ≡ true → amount ≡ 32

ashr_cast_lem :
    (ir : Ir) (v : ℕ → ℕ) (i : ℕ) (inst : Inst) (a b : ℕ) (i0 i1 : Inst)
    → Means ir v
    → ir.insts a ≡ some i0
    → ir.insts b ≡ some i1
    → CanShift inst i0 (v b)
    → v i ≡ shift_right (v a) (v b)
    → Total (λ r. value_of v i r ≡ v i) (ashr_cast inst i0 i1 b)
unfolding ashr_cast get_down_cast_type
ashr_cast_lem ir v i inst a b i0 i1 m at_a at_b can e =
    Total-if (λ r. value_of v i r ≡ v i) (is_const i1 && is_shl i0) _ _
      (λ c.
        let (c1, s) = and_true (is_const i1) (is_shl i0) c in
        let (x, y, left, right, value) = m.shl a i0 at_a s in
        let amount : i1.imm ≡ 32 = sym (m.const b i1 at_b c1) ∙ can.half s in
        rw right (
          Total-if (λ r. value_of v i r ≡ v i) (y == b) _ _
            (λ same.
              rw (can.long, amount, left)
                (sym (
                  e
                  ∙ ap₂ shift_right (value ∙ shifted y x ((==_iff y b).0 same) (can.half s))
                      (can.half s)
                  ∙ shift_back (v x))))
            (λ _. refl)))
      (λ _. refl)
  where
    shifted : (y x : ℕ) → y ≡ b → v b ≡ 32 → (v x * 2 ^ v y) % u64_mod ≡ (v x * 2 ^ 32) % u64_mod
    shifted y x same half = ap (λ k. (v x * 2 ^ k) % u64_mod) (ap v same ∙ half)

ashr_rewrite-value :
    (ir : Ir) (v : ℕ → ℕ) (i : ℕ) (inst : Inst) (a b : ℕ)
    → Means ir v
    → (h : IsBinary ir inst a b) → CanShift inst h.i0 (v b)
    → v i ≡ shift_right (v a) (v b)
    → Total (λ r. value_of v i r ≡ v i) (ashr_rewrite ir inst)
unfolding ashr_rewrite
ashr_rewrite-value ir v i inst a b m h can e =
    rw (h.left, h.right, h.left_there, h.right_there)
      (Total-if (λ r. value_of v i r ≡ v i) (is_const h.i0 && is_const h.i1) _ _
        (λ c.
          let (c0, c1) = and_true (is_const h.i0) (is_const h.i1) c in
          let amount = m.const b h.i1 h.right_there c1 in
          let fits : leb h.i1.imm 64 ≡ true = ground (arith, amount, can.small) in
          let below : ltb h.i1.imm 64 ≡ true = ground (arith, amount, can.small) in
          rw (can.size, fits, below)
            (sym (e ∙ ap₂ shift_right (m.const a h.i0 h.left_there c0) amount)))
        (λ _.
          Total-if (λ r. value_of v i r ≡ v i) (is_zero h.i1) _ _
            (λ z. sym (
              e
              ∙ ap (shift_right (v a)) (zero_value ir v b h.i1 m h.right_there z)
              ∙ shift_by_zero (v a)))
            (λ _. ashr_cast_lem ir v i inst a b h.i0 h.i1 m h.left_there h.right_there can e)))

-- What the visit of an instruction asks for, by its opcode: two inputs that are set, with the value
-- that the opcode computes from theirs.
abbrev pub Visited : Ir → (ℕ → ℕ) → ℕ → Inst → Opcode → Type 0
Visited ir v i inst op_sub =
    (a b : ℕ) × IsBinary ir inst a b × (v i ≡ (v a + u64_mod - v b) % u64_mod)
Visited ir v i inst op_xor = (a b : ℕ) × IsBinary ir inst a b × (v i ≡ bit_xor (v a) (v b))
Visited ir v i inst op_ashr =
    (a b : ℕ) × (h : IsBinary ir inst a b) × CanShift inst h.i0 (v b)
    × (v i ≡ shift_right (v a) (v b))
Visited ir v i inst _ = Unit

-- What the visit decides: a replacement of the same value, or nothing.
abbrev pub Decision : (ℕ → ℕ) → ℕ → Opcode → Rewrite → Type 0
Decision v i op_sub r = value_of v i r ≡ v i
Decision v i op_xor r = value_of v i r ≡ v i
Decision v i op_ashr r = value_of v i r ≡ v i
Decision v i _ r = r ≡ keep

-- For 64-bit values of the instructions in which constants, negations, complements and left shifts
-- have the values that they compute, the visit of a SUB, XOR or ASHR whose two inputs are set and
-- whose value is what its opcode computes from theirs decides, without a fault, to keep it or on a
-- replacement whose value is the value of the instruction; the visit of an instruction of any
-- other opcode, whatever its inputs, succeeds and keeps it. For ASHR the shift is of a 64-bit
-- integer by less than 64, the first input's type has 64 bits, and if the first input is a left
-- shift then the amount is 32.
pub rewrite_of-value :
    (ir : Ir) (v : ℕ → ℕ) (i : ℕ) (inst : Inst)
    → Means ir v
    → Visited ir v i inst inst.opcode
    → Total (λ r. Decision v i inst.opcode r) (rewrite_of ir inst)
unfolding rewrite_of get_input
rewrite_of-value ir v i inst m h = go inst.opcode refl h
  where
    go :
        (op : Opcode)
        → inst.opcode ≡ op
        → Visited ir v i inst op
        → Total (λ r. Decision v i op r) (rewrite_of ir inst)
    go op_sub at_op (a, b, h, e) = rw at_op (sub_rewrite-value ir v i inst a b m h e)
    go op_xor at_op (a, b, h, e) = rw at_op (xor_rewrite-value ir v i inst a b m h e)
    go op_ashr at_op (a, b, h, can, e) = rw at_op (ashr_rewrite-value ir v i inst a b m h can e)
    go _ at_op h = rw at_op refl
