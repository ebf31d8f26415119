-- ===== src/Interpreter/Step.antt =====
-- The dispatch of Interpreter::Invoke (interpreter/interpreter.cpp).
use k3s_virtual_machine.Base.{
  ℕ, zero, suc, not, [], ◌∷◌, Outcome, ok, err, ◌>>=◌, undefined, unimplemented,
}
use k3s_virtual_machine.Interpreter.Isa.{
  Opcode, jump, ble, blt, bge, bne, call, ret, getthis, stnull, ldai, lda, sta, mov, add, sub, mul,
  div, mod_, add2, sub2, div2, mul2, deca, newarr, setelem, getelem, dump, dumpa, getarg0, getarg1,
  setret0, setarg0, setarg1, getret0,
}
use k3s_virtual_machine.Interpreter.Machine.{Machine, fetch, advance, get_acc, get_reg, push_frame}
use k3s_virtual_machine.Interpreter.Allocate.{new_function}
use k3s_virtual_machine.Interpreter.Decode.{Operands, decode_and_resolve}
use k3s_virtual_machine.Interpreter.Transfer.{
  handle_ldai, handle_lda, handle_sta, handle_stnull, handle_mov, handle_jump, handle_branch,
  handle_getarg, handle_getthis, handle_setarg, handle_getret0, handle_setret0, handle_call,
}
use k3s_virtual_machine.Interpreter.Values.{
  Doubles, handle_arith, handle_div, handle_arith2, handle_div2, handle_deca, handle_newarr,
  handle_setelem_array, handle_setelem_object, handle_getelem_array, handle_getelem_object,
}

-- RET pops the frame and goes on behind the call, or ends Invoke in the last frame.
pub data Result : Type 0 where
  running : Machine → Result
  returned : Machine → Result

unfoldable pub handle_ret : Machine → Outcome Result
unfolding advance
handle_ret m = elim m.state_stack [
  | [] ↦ err undefined
  | f ∷ fs ↦ elim fs [
    | [] ↦ ok (returned m)
    | g ∷ gs ↦ ok (running (advance (record m { pc = f.caller_pc; state_stack = g ∷ gs })))
  ]
]

-- A handler that ends in ADVANCE_FETCH_AND_DISPATCH.
abbrev pub then_advance : Outcome Machine → Outcome Result
then_advance o = do m ← o; ok (running (advance m))

abbrev pub then_fetch : Outcome Machine → Outcome Result
then_fetch o = do m ← o; ok (running m)

-- The dispatch table: the handler of an opcode and an overload. Dumps only print.
unfoldable pub dispatch : Doubles → Machine → Opcode → ℕ → Operands → Outcome Result
dispatch d m jump n o = then_fetch (handle_jump m o.imm)
dispatch d m ble n o = then_fetch (handle_branch d.le_zero m o.imm)
dispatch d m blt n o = then_fetch (handle_branch d.lt_zero m o.imm)
dispatch d m bge n o = then_fetch (handle_branch d.ge_zero m o.imm)
dispatch d m bne n o = then_fetch (handle_branch (λ x. not (d.eq_zero x)) m o.imm)
dispatch d m call n o = then_fetch (handle_call m)
dispatch d m ret n o = handle_ret m
dispatch d m getthis n o = then_advance (handle_getthis m o.first_reg)
dispatch d m stnull n o = then_advance (handle_stnull m o.first_reg)
dispatch d m ldai n o = then_advance (handle_ldai m o.imm)
dispatch d m lda n o = then_advance (handle_lda m o.first_reg)
dispatch d m sta n o = then_advance (handle_sta m o.first_reg)
dispatch d m mov n o = then_advance (handle_mov m o.first_reg o.second_reg)
dispatch d m add zero o = then_advance (handle_arith d.plus m o.first_reg o.second_reg)
dispatch d m add (suc n) o = err unimplemented
dispatch d m sub n o = then_advance (handle_arith d.minus m o.first_reg o.second_reg)
dispatch d m mul n o = then_advance (handle_arith d.times m o.first_reg o.second_reg)
dispatch d m div n o = then_advance (handle_div d d.over m o.first_reg o.second_reg)
dispatch d m mod_ n o = then_advance (handle_div d d.fmod m o.first_reg o.second_reg)
dispatch d m add2 zero o = then_advance (handle_arith2 d.plus m o.first_reg)
dispatch d m add2 (suc n) o = err unimplemented
dispatch d m sub2 zero o = then_advance (handle_arith2 d.minus m o.first_reg)
dispatch d m sub2 (suc n) o = err unimplemented
dispatch d m div2 zero o = then_advance (handle_div2 d m o.first_reg)
dispatch d m div2 (suc n) o = err unimplemented
dispatch d m mul2 zero o = then_advance (handle_arith2 d.times m o.first_reg)
dispatch d m mul2 (suc n) o = err unimplemented
dispatch d m deca n o = then_advance (handle_deca d m)
dispatch d m newarr n o = then_advance (handle_newarr d m o.first_reg)
dispatch d m setelem zero o = then_advance (handle_setelem_array d m o.first_reg o.second_reg)
dispatch d m setelem (suc n) o = then_advance (handle_setelem_object m o.first_reg o.second_reg)
dispatch d m getelem zero o = then_advance (handle_getelem_array d m o.first_reg o.second_reg)
dispatch d m getelem (suc n) o = then_advance (handle_getelem_object m o.first_reg o.second_reg)
dispatch d m dump n o = then_advance (get_reg m o.first_reg >>= λ _. ok m)
dispatch d m dumpa n o = then_advance (get_acc m >>= λ _. ok m)
dispatch d m getarg0 n o = then_advance (handle_getarg 0 m o.first_reg)
dispatch d m getarg1 n o = then_advance (handle_getarg 1 m o.first_reg)
dispatch d m setret0 n o = then_advance (handle_setret0 m o.first_reg)
dispatch d m setarg0 n o = then_advance (handle_setarg 0 m o.first_reg)
dispatch d m setarg1 n o = then_advance (handle_setarg 1 m o.first_reg)
dispatch d m getret0 n o = then_advance (handle_getret0 m o.first_reg)

-- One round: fetch, decode, dispatch.
unfoldable pub step : Doubles → Machine → Outcome Result
step d m = do inst ← fetch m; (opcode, n, o) ← decode_and_resolve m inst; dispatch d m opcode n o

-- The first instruction's state: Invoke makes a function object of the entry point and its frame.
unfoldable pub start : Machine → Outcome Machine
start m = do (main, m') ← new_function m m.pc; push_frame m' 18446744073709551615 main
