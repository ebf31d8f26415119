-- ===== src/Jit/Peepholes.antt =====
-- The peepholes of jit/ir/graph/optimizations/peepholes.h: what each visit finds, and how it rewrites
-- the graph.
pub mod Xor
pub mod Meaning
pub mod Shift
mod Tests
use Prim.Native.Nat.{bit_xor}
use k3s_virtual_machine.Base.{
  ℕ, zero, suc, ◌+◌, ◌-◌, ◌*◌, ◌/◌, ◌%◌, ◌^◌, Bool, true, false, ◌&&◌, ◌||◌, not, Option, none,
  some, List, [], ◌∷◌, Outcome, ok, err, ◌>>=◌, ◌>>◌, guard, from_option, assertion, undefined,
  out_of_fuel, ltb, leb, ◌==◌, if◌then◌else◌, u64_mod,
}
use k3s_virtual_machine.Jit.Graph.{
  Ir, Inst, IrType, type_unknown, op_const, op_add, op_neg, op_cast, op_sub, op_xor, op_ashr,
  load_inst, load_bb, new_inst, is_const, is_neg, is_not, is_shl, get_size_in_bits,
  get_down_cast_type,
}
use k3s_virtual_machine.Jit.Graph.Users.{get_input, set_input, replace_with}
use k3s_virtual_machine.Jit.Graph.Block.{prepend}

-- What a visit replaces its instruction by: nothing, a constant, an instruction that is there, or new
-- ones with the inputs named.
pub data Rewrite : Type 0 where
  keep : Rewrite
  to_const : ℕ → Rewrite
  to_inst : ℕ → Rewrite
  to_add : ℕ → ℕ → Rewrite
  to_neg_add : ℕ → ℕ → Rewrite
  to_neg : ℕ → Rewrite
  to_cast : IrType → ℕ → Rewrite

-- An input that has been set.
abbrev pub the_input : Inst → ℕ → Outcome ℕ
the_input o idx = do i ← get_input o idx; from_option undefined i

-- `std::bit_cast<int64_t>(x) >> k` as a word.
abbrev pub shift_right : ℕ → ℕ → ℕ
shift_right x k = if ltb x (2 ^ 63) then x / 2 ^ k else x / 2 ^ k + (2 ^ 64 - 2 ^ (64 - k))

abbrev pub is_zero : Inst → Bool
is_zero o = is_const o && (o.imm == 0)

-- SubZero
unfoldable pub sub_zero : Inst → Inst → ℕ → ℕ → Rewrite
sub_zero i0 i1 a b = if is_zero i1 then to_inst a else (if is_zero i0 then to_neg b else keep)

-- SubNeg
unfoldable pub sub_neg : Inst → Inst → ℕ → ℕ → Outcome Rewrite
unfolding sub_zero
sub_neg i0 i1 a b =
    if is_neg i1
    then (do n ← the_input i1 0; ok (to_add a n))
    else (if is_neg i0
        then (do n ← the_input i0 0; ok (to_neg_add n b))
        else ok (sub_zero i0 i1 a b))

-- `Visit<Inst::SUB>` with its ConstFold
unfoldable pub sub_rewrite : Ir → Inst → Outcome Rewrite
unfolding sub_neg
sub_rewrite ir inst = do
  a ← the_input inst 0
  b ← the_input inst 1
  i0 ← load_inst ir a
  i1 ← load_inst ir b
  if is_const i0 && is_const i1
      then ok (to_const ((i0.imm + u64_mod - i1.imm) % u64_mod))
      else (if a == b then ok (to_const 0) else sub_neg i0 i1 a b)

-- The test of XorNot.
unfoldable pub xor_not : Inst → ℕ → Outcome Bool
xor_not i0 b = if is_not i0 then (do n ← the_input i0 0; ok (n == b)) else ok false

abbrev pub all_ones : ℕ
all_ones = 0xffff_ffff_ffff_ffff

-- `Visit<Inst::XOR>`
unfoldable pub xor_rewrite : Ir → Inst → Outcome Rewrite
unfolding xor_not
xor_rewrite ir inst = do
  a ← the_input inst 0
  b ← the_input inst 1
  i0 ← load_inst ir a
  i1 ← load_inst ir b
  if is_const i0 && is_const i1
      then ok (to_const (bit_xor i1.imm i0.imm))
      else (if a == b then ok (to_const 0) else (do
        left ← xor_not i0 b
        either ← (if left then ok true else xor_not i1 a)
        ok (if either then to_const all_ones else (if is_zero i0 then to_inst b else keep))))

-- Cast
unfoldable pub ashr_cast : Inst → Inst → Inst → ℕ → Outcome Rewrite
ashr_cast inst i0 i1 b =
    if is_const i1 && is_shl i0
    then (do
      s ← the_input i0 1
      if s == b
          then (do t ← get_down_cast_type inst.type i1.imm; x ← the_input i0 0; ok (to_cast t x))
          else ok keep)
    else ok keep

-- `Visit<Inst::ASHR>`; a shift by 64 or more passes the assertion for some types and is undefined.
unfoldable pub ashr_rewrite : Ir → Inst → Outcome Rewrite
unfolding ashr_cast
ashr_rewrite ir inst = do
  a ← the_input inst 0
  b ← the_input inst 1
  i0 ← load_inst ir a
  i1 ← load_inst ir b
  if is_const i0 && is_const i1
      then (do
        size ← get_size_in_bits i0.type
        guard (leb i1.imm size) assertion
        guard (ltb i1.imm 64) undefined
        ok (to_const (shift_right i0.imm i1.imm)))
      else (if is_zero i1 then ok (to_inst a) else ashr_cast inst i0 i1 b)

-- The rewrite of the graph, with fuel for the lists of users.
unfoldable pub apply_rewrite : ℕ → Ir → ℕ → Inst → Rewrite → Outcome Ir
apply_rewrite n ir i inst keep = ok ir
apply_rewrite n ir i inst (to_const c) =
    let (k, ir1) = new_inst ir op_const inst.type c 0 in replace_with n ir1 i k
apply_rewrite n ir i inst (to_inst a) = replace_with n ir i a
apply_rewrite n ir i inst (to_add a b) = do
  let (add, ir1) = new_inst ir op_add inst.type 0 2
  ir2 ← replace_with n ir1 i add
  ir3 ← set_input n ir2 add 0 a
  set_input n ir3 add 1 b
apply_rewrite n ir i inst (to_neg_add a b) = do
  let (add, ir1) = new_inst ir op_add inst.type 0 2
  let (neg, ir2) = new_inst ir1 op_neg inst.type 0 1
  ir3 ← replace_with n ir2 i neg
  ir4 ← prepend ir3 neg add
  ir5 ← set_input n ir4 add 0 a
  ir6 ← set_input n ir5 add 1 b
  set_input n ir6 neg 0 add
apply_rewrite n ir i inst (to_neg a) = do
  let (neg, ir1) = new_inst ir op_neg type_unknown 0 1
  ir2 ← replace_with n ir1 i neg
  set_input n ir2 neg 0 a
apply_rewrite n ir i inst (to_cast t a) = do
  let (cast, ir1) = new_inst ir op_cast t 0 1
  ir2 ← replace_with n ir1 i cast
  set_input n ir2 cast 0 a

-- The decision of TryApply.
unfoldable pub rewrite_of : Ir → Inst → Outcome Rewrite
unfolding sub_rewrite xor_rewrite ashr_rewrite
rewrite_of ir inst = elim inst.opcode [
  | op_xor ↦ xor_rewrite ir inst
  | op_sub ↦ sub_rewrite ir inst
  | op_ashr ↦ ashr_rewrite ir inst
  | _ ↦ ok keep
]

unfoldable pub try_apply : ℕ → Ir → ℕ → Outcome Ir
unfolding rewrite_of apply_rewrite
try_apply n ir i = do inst ← load_inst ir i; r ← rewrite_of ir inst; apply_rewrite n ir i inst r

-- The constructor's loop over the instructions of a block, from `i` on, and over the blocks. The step to
-- the next instruction reads the one that was visited, which is in no block any more once replaced.
unfoldable pub apply_to_insts : ℕ → ℕ → Ir → Option ℕ → Outcome Ir
unfolding try_apply
apply_to_insts n rounds ir none = ok ir
apply_to_insts n zero ir (some i) = err out_of_fuel
apply_to_insts n (suc rounds) ir (some i) = do
  ir1 ← try_apply n ir i
  o ← load_inst ir1 i
  apply_to_insts n rounds ir1 o.next

unfoldable pub peepholes : ℕ → ℕ → Ir → List ℕ → Outcome Ir
unfolding apply_to_insts
peepholes n rounds ir [] = ok ir
peepholes n rounds ir (b ∷ bs) = do
  block ← load_bb ir b
  ir1 ← apply_to_insts n rounds ir block.first_inst
  peepholes n rounds ir1 bs
