-- ===== src/Interpreter/Decode.antt =====
-- CheckRegsType and CheckRegsTypeWithAcc of interpreter/interpreter.h, and the choice of an overload
-- by DecodeAndResolve: interpreter/templates/inst_decoder.cpp.erb over the groups of isa/isa.yaml.
pub mod Checks
use k3s_virtual_machine.Base.{
  ℕ, zero, suc, ◌+◌, Bool, true, false, ◌||◌, Option, none, some, List, [], ◌∷◌, Outcome, ok, err,
  ◌>>=◌, from_option, unresolved_overload, if◌then◌else◌,
}
use k3s_virtual_machine.Interpreter.Register.{
  Register, RegType, num, arr, str, obj, func, any, type_eq,
}
use k3s_virtual_machine.Interpreter.Isa.{
  BytecodeInstruction, Opcode, jump, ble, blt, bge, bne, call, ret, getthis, stnull, ldai, lda, sta,
  mov, add, sub, mul, div, mod_, add2, sub2, div2, mul2, deca, newarr, setelem, getelem, dump,
  dumpa, getarg0, getarg1, setret0, setarg0, setarg1, getret0, opcode_of, first_near_reg,
  second_near_reg, first_far_reg, immediate,
}
use k3s_virtual_machine.Interpreter.Machine.{Machine, get_reg, get_acc}

abbrev fits : RegType → Register → Bool
fits t r = type_eq t any || type_eq r.type t

-- The recursion over the template's types stops at the last register with `true`.
unfoldable pub check_regs_type : Machine → List (RegType × ℕ) → Outcome Bool
unfolding type_eq
check_regs_type m [] = ok true
check_regs_type m ((t, id) ∷ []) = do r ← get_reg m id; ok true
check_regs_type m ((t, id) ∷ s ∷ rest) = do
  r ← get_reg m id
  let tail = check_regs_type m (s ∷ rest)
  if fits t r then tail else ok false

unfoldable pub check_regs_type_with_acc : Machine → RegType → List (RegType × ℕ) → Outcome Bool
unfolding check_regs_type
check_regs_type_with_acc m acc_type regs = do
  acc ← get_acc m
  if fits acc_type acc then check_regs_type m regs else ok false

pub data Signature : Type 0 where
  opc_r4_r4 opc_r8 opc_i8 opc : Signature

-- The fields that the decoder holds after an instruction.
pub record Operands : Type 0 where
  pub first_reg : ℕ
  pub second_reg : ℕ
  pub imm : ℕ

abbrev operands : ℕ → ℕ → ℕ → Operands
operands a b i = record { first_reg = a; second_reg = b; imm = i }

-- A field that a signature does not set is not read by its handlers.
unfoldable pub decode_operands : Signature → ℕ → Operands
unfolding first_near_reg second_near_reg first_far_reg immediate
decode_operands opc_r4_r4 o = operands (first_near_reg o) (second_near_reg o) 0
decode_operands opc_r8 o = operands (first_far_reg o) 0 0
decode_operands opc_i8 o = operands 0 0 (immediate o)
decode_operands opc o = operands 0 0 0

unfoldable pub signature : Opcode → Signature
signature jump = opc_i8
signature ble = opc_i8
signature blt = opc_i8
signature bge = opc_i8
signature bne = opc_i8
signature call = opc
signature ret = opc
signature ldai = opc_i8
signature mov = opc_r4_r4
signature add = opc_r4_r4
signature sub = opc_r4_r4
signature mul = opc_r4_r4
signature div = opc_r4_r4
signature mod_ = opc_r4_r4
signature deca = opc
signature setelem = opc_r4_r4
signature getelem = opc_r4_r4
signature dumpa = opc
signature _ = opc_r8

-- What an overload asks of the accumulator and of the registers.
pub record Overload : Type 0 where
  pub acc : Option RegType
  pub regs : List RegType

abbrev on_regs : List RegType → Overload
on_regs ts = record { acc = none; regs = ts }

abbrev with_acc : RegType → List RegType → Overload
with_acc t ts = record { acc = some t; regs = ts }

unfoldable pub overloads : Opcode → List Overload
overloads ble = with_acc num [] ∷ []
overloads blt = with_acc num [] ∷ []
overloads bge = with_acc num [] ∷ []
overloads bne = with_acc num [] ∷ []
overloads call = with_acc func [] ∷ []
overloads lda = on_regs (any ∷ []) ∷ []
overloads sta = with_acc any [] ∷ []
overloads mov = on_regs (any ∷ []) ∷ []
overloads add = on_regs (num ∷ num ∷ []) ∷ on_regs (str ∷ str ∷ []) ∷ []
overloads sub = on_regs (num ∷ num ∷ []) ∷ []
overloads mul = on_regs (num ∷ num ∷ []) ∷ []
overloads div = on_regs (num ∷ num ∷ []) ∷ []
overloads mod_ = on_regs (num ∷ num ∷ []) ∷ []
overloads add2 = with_acc num (num ∷ []) ∷ with_acc str (str ∷ []) ∷ with_acc arr (num ∷ []) ∷ []
overloads sub2 = with_acc num (num ∷ []) ∷ with_acc arr (num ∷ []) ∷ []
overloads div2 = with_acc num (num ∷ []) ∷ with_acc arr (num ∷ []) ∷ []
overloads mul2 = with_acc num (num ∷ []) ∷ with_acc arr (num ∷ []) ∷ []
overloads deca = with_acc num [] ∷ []
overloads newarr = on_regs (num ∷ []) ∷ []
overloads setelem = with_acc any (arr ∷ num ∷ []) ∷ with_acc any (obj ∷ str ∷ []) ∷ []
overloads getelem = on_regs (arr ∷ num ∷ []) ∷ on_regs (obj ∷ str ∷ []) ∷ []
overloads dump = on_regs (any ∷ []) ∷ []
overloads dumpa = with_acc any [] ∷ []
overloads setret0 = on_regs (any ∷ []) ∷ []
overloads setarg0 = with_acc func (any ∷ []) ∷ []
overloads setarg1 = with_acc func (any ∷ []) ∷ []
overloads getret0 = with_acc func [] ∷ []
overloads _ = on_regs [] ∷ []

-- Registers are numbered in the order of the operands.
abbrev zip_regs : List RegType → ℕ → ℕ → List (RegType × ℕ)
zip_regs [] a b = []
zip_regs (t ∷ []) a b = (t, a) ∷ []
zip_regs (t ∷ u ∷ _) a b = (t, a) ∷ (u, b) ∷ []

unfoldable pub accepts : Machine → Operands → Overload → Outcome Bool
unfolding check_regs_type check_regs_type_with_acc
accepts m o v = elim v.acc [
  | none ↦ check_regs_type m (zip_regs v.regs o.first_reg o.second_reg)
  | some t ↦ check_regs_type_with_acc m t (zip_regs v.regs o.first_reg o.second_reg)
]

-- The first overload that the registers fit.
unfoldable pub first_overload : Machine → Operands → List Overload → Outcome ℕ
unfolding accepts
first_overload m o [] = err unresolved_overload
first_overload m o (v ∷ vs) = do
  fitting ← accepts m o v
  let rest = (do n ← first_overload m o vs; ok (suc n))
  if fitting then ok 0 else rest

unfoldable pub decode_and_resolve : Machine → BytecodeInstruction → Outcome (Opcode × ℕ × Operands)
unfolding opcode_of signature overloads decode_operands first_overload
decode_and_resolve m inst = do
  opcode ← from_option unresolved_overload (opcode_of inst.opcode)
  let o = decode_operands (signature opcode) inst.operands
  n ← first_overload m o (overloads opcode)
  ok (opcode, n, o)
