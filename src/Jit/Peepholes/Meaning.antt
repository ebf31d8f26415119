-- ===== src/Jit/Peepholes/Meaning.antt =====
-- The peepholes of jit/ir/graph/optimizations/peepholes.h keep the value of the instruction.
use Prim.Native.Nat.{bit_xor}
use k3s_virtual_machine.Base.{
  ℕ, ◌+◌, ◌-◌, ◌*◌, ◌%◌, ◌^◌, ◌<◌, ◌≡◌, refl, sym, ap, ap₂, ◌∙◌, inl, inr, Bool, true, false, ◌&&◌,
  some, ok, ltb, ◌==◌, ==_iff, if◌then◌else◌, u64_mod, arith, Total, Total-if, Total-bind,
  Bool-cases,
}
use k3s_virtual_machine.Jit.Graph.{
  Ir, Inst, IrType, type_int32, type_uint32, is_const, is_neg, is_not, is_shl,
}
use k3s_virtual_machine.Jit.Peepholes.{
  Rewrite, keep, to_const, to_inst, to_add, to_neg_add, to_neg, to_cast, the_input, is_zero,
  sub_zero, sub_neg, sub_rewrite, xor_not, xor_rewrite, all_ones,
}
use k3s_virtual_machine.Jit.Peepholes.Xor.{
  bit_xor-zero, bit_xor_self, bit_xor_comm, bit_xor-complement,
}

-- 64-bit words that each instruction may have as its value: those of constants, negations, complements and
-- shifts are what these compute.
pub record Means (ir : Ir) (v : ℕ → ℕ) : Type 0 where
  pub word : (i : ℕ) → v i < u64_mod
  pub const : (i : ℕ) (o : Inst) → ir.insts i ≡ some o → is_const o ≡ true → v i ≡ o.imm
  pub neg :
      (i : ℕ) (o : Inst)
      → ir.insts i ≡ some o
      → is_neg o ≡ true
      → (a : ℕ) × (the_input o 0 ≡ ok a) × (v i ≡ (u64_mod - v a) % u64_mod)
  pub complement :
      (i : ℕ) (o : Inst)
      → ir.insts i ≡ some o
      → is_not o ≡ true
      → (a : ℕ) × (the_input o 0 ≡ ok a) × (v i ≡ u64_mod - 1 - v a)
  pub shl :
      (i : ℕ) (o : Inst)
      → ir.insts i ≡ some o
      → is_shl o ≡ true
      → (a b : ℕ) × (the_input o 0 ≡ ok a)
        × (the_input o 1 ≡ ok b)
        × (v i ≡ (v a * 2 ^ v b) % u64_mod)

-- A word of 32 bits, as a word of 64 with its sign or without.
abbrev pub cast_value : IrType → ℕ → ℕ
cast_value type_int32 x =
    if ltb (x % 2 ^ 32) (2 ^ 31) then x % 2 ^ 32 else x % 2 ^ 32 + (2 ^ 64 - 2 ^ 32)
cast_value type_uint32 x = x % 2 ^ 32
cast_value _ x = x

-- The value of what the instruction `i` is replaced by.
abbrev pub value_of : (ℕ → ℕ) → ℕ → Rewrite → ℕ
value_of v i keep = v i
value_of v i (to_const c) = c
value_of v i (to_inst a) = v a
value_of v i (to_add a b) = (v a + v b) % u64_mod
value_of v i (to_neg_add a b) = (u64_mod - (v a + v b) % u64_mod) % u64_mod
value_of v i (to_neg a) = (u64_mod - v a) % u64_mod
value_of v i (to_cast t a) = cast_value t (v a)

-- Both inputs of an instruction, with the instructions that they come from.
pub record IsBinary (ir : Ir) (inst : Inst) (a b : ℕ) : Type 0 where
  pub i0 : Inst
  pub i1 : Inst
  pub left : the_input inst 0 ≡ ok a
  pub right : the_input inst 1 ≡ ok b
  pub left_there : ir.insts a ≡ some i0
  pub right_there : ir.insts b ≡ some i1

pub and_true : (x y : Bool) → (x && y) ≡ true → (x ≡ true) × (y ≡ true)
and_true true y h = (refl, h)
and_true false y h = cc

pub zero_value :
    (ir : Ir) (v : ℕ → ℕ) (i : ℕ) (o : Inst)
    → Means ir v
    → ir.insts i ≡ some o
    → is_zero o ≡ true
    → v i ≡ 0
zero_value ir v i o m there z =
    let (c, e) = and_true (is_const o) (o.imm == 0) z in m.const i o there c ∙ (==_iff o.imm 0).0 e

sub_zero_lem :
    (ir : Ir) (v : ℕ → ℕ) (i a b : ℕ) (i0 i1 : Inst)
    → Means ir v
    → ir.insts a ≡ some i0
    → ir.insts b ≡ some i1
    → v i ≡ (v a + u64_mod - v b) % u64_mod
    → value_of v i (sub_zero i0 i1 a b) ≡ v i
unfolding sub_zero
sub_zero_lem ir v i a b i0 i1 m at_a at_b e = elim (Bool-cases (is_zero i1)) [
  | inl z ↦ rw z (omega (arith, e, zero_value ir v b i1 m at_b z, m.word a))
  | inr z ↦ elim (Bool-cases (is_zero i0)) [
    | inl z' ↦ rw (z, z') (omega (arith, e, zero_value ir v a i0 m at_a z'))
    | inr z' ↦ rw (z, z') refl
  ]
]

sub_neg_lem :
    (ir : Ir) (v : ℕ → ℕ) (i a b : ℕ) (i0 i1 : Inst)
    → Means ir v
    → ir.insts a ≡ some i0
    → ir.insts b ≡ some i1
    → v i ≡ (v a + u64_mod - v b) % u64_mod
    → Total (λ r. value_of v i r ≡ v i) (sub_neg i0 i1 a b)
unfolding sub_neg
sub_neg_lem ir v i a b i0 i1 m at_a at_b e =
    Total-if _ (is_neg i1) _ _
      (λ n.
        let (x, input, value) = m.neg b i1 at_b n in
        rw input (omega (arith, e, value, m.word a, m.word x)))
      (λ _.
        Total-if _ (is_neg i0) _ _
          (λ n.
            let (x, input, value) = m.neg a i0 at_a n in
            rw input (omega (arith, e, value, m.word b, m.word x)))
          (λ _. sub_zero_lem ir v i a b i0 i1 m at_a at_b e))

pub sub_rewrite-value :
    (ir : Ir) (v : ℕ → ℕ) (i : ℕ) (inst : Inst) (a b : ℕ)
    → Means ir v
    → IsBinary ir inst a b
    → v i ≡ (v a + u64_mod - v b) % u64_mod
    → Total (λ r. value_of v i r ≡ v i) (sub_rewrite ir inst)
unfolding sub_rewrite
sub_rewrite-value ir v i inst a b m h e =
    rw (h.left, h.right, h.left_there, h.right_there)
      (Total-if (λ r. value_of v i r ≡ v i) (is_const h.i0 && is_const h.i1) _ _
        (λ c.
          let (c0, c1) = and_true (is_const h.i0) (is_const h.i1) c in
          omega (arith, e, m.const a h.i0 h.left_there c0, m.const b h.i1 h.right_there c1))
        (λ _.
          Total-if _ (a == b) _ _
            (λ same. let ab : a ≡ b = (==_iff a b).0 same in omega (arith, e, ap v ab, m.word b))
            (λ _. sub_neg_lem ir v i a b h.i0 h.i1 m h.left_there h.right_there e)))

xor_not_lem :
    (ir : Ir) (v : ℕ → ℕ) (i a b : ℕ) (i0 : Inst)
    → Means ir v
    → ir.insts a ≡ some i0
    → v i ≡ bit_xor (v a) (v b)
    → Total (λ found. found ≡ true → v i ≡ all_ones) (xor_not i0 b)
unfolding xor_not
xor_not_lem ir v i a b i0 m at_a e =
    Total-if _ (is_not i0) _ _
      (λ n.
        let (x, input, value) = m.complement a i0 at_a n in
        rw input (λ same. ones x value ((==_iff x b).0 same)))
      (λ _ h. cc)
  where
    ones : (x : ℕ) → v a ≡ u64_mod - 1 - v x → x ≡ b → v i ≡ all_ones
    ones x value same =
        let at_b : v a ≡ 2 ^ 64 - 1 - v b = value ∙ ap (λ y. u64_mod - 1 - v y) same in
        e ∙ ap (λ y. bit_xor y (v b)) at_b ∙ bit_xor-complement 64 (v b) (m.word b)

pub xor_rewrite-value :
    (ir : Ir) (v : ℕ → ℕ) (i : ℕ) (inst : Inst) (a b : ℕ)
    → Means ir v
    → IsBinary ir inst a b
    → v i ≡ bit_xor (v a) (v b)
    → Total (λ r. value_of v i r ≡ v i) (xor_rewrite ir inst)
unfolding xor_rewrite
xor_rewrite-value ir v i inst a b m h e =
    rw (h.left, h.right, h.left_there, h.right_there)
      (Total-if (λ r. value_of v i r ≡ v i) (is_const h.i0 && is_const h.i1) _ _
        (λ c.
          let (c0, c1) = and_true (is_const h.i0) (is_const h.i1) c in
          sym (
            e
            ∙ bit_xor_comm (v a) (v b)
            ∙ ap₂ bit_xor (m.const b h.i1 h.right_there c1) (m.const a h.i0 h.left_there c0)))
        (λ _.
          Total-if _ (a == b) _ _
            (λ same.
              let ab : a ≡ b = (==_iff a b).0 same in
              sym (e ∙ ap (λ y. bit_xor (v a) (v y)) (sym ab) ∙ bit_xor_self (v a)))
            (λ _.
              Total-bind (λ found. found ≡ true → v i ≡ all_ones) _ _ _
                (xor_not_lem ir v i a b h.i0 m h.left_there e)
                (λ left is_left.
                  Total-bind (λ found. found ≡ true → v i ≡ all_ones) _ _ _
                    (Total-if _ left _ _ (λ l _. is_left l)
                      (λ _.
                        xor_not_lem ir v i b a h.i1 m h.right_there (e ∙ bit_xor_comm (v a) (v b))))
                    (λ either is_ones. last either is_ones)))))
  where
    last :
        (found : Bool)
        → (found ≡ true → v i ≡ all_ones)
        → value_of v i
            (if found then to_const all_ones else (if is_zero h.i0 then to_inst b else keep))
          ≡ v i
    last true f = sym (f refl)
    last false f = elim (Bool-cases (is_zero h.i0)) [
      | inr z ↦ rw z refl
      | inl z ↦ rw z (
          sym (
            e
            ∙ ap (λ y. bit_xor y (v b)) (zero_value ir v a h.i0 m h.left_there z)
            ∙ bit_xor-zero (v b)))
    ]
