-- ===== src/Interpreter/Frames/Moves.antt =====
-- What one round of Interpreter::Invoke (interpreter/interpreter.cpp) does to the stack of frames.
use k3s_virtual_machine.Base.{
  ℕ, zero, suc, ◌+◌, ◌%◌, ◌≡◌, refl, not, List, [], ◌∷◌, Outcome, ok, err, Ensures, Ensures-bind,
  Ensures-guard, Ensures-any, Ensures-eq, u64_mod, oom, undefined, ltb, length,
}
use k3s_virtual_machine.Interpreter.Isa.{
  Opcode, jump, ble, blt, bge, bne, call, ret, getthis, stnull, ldai, lda, sta, mov, add, sub, mul,
  div, mod_, add2, sub2, div2, mul2, deca, newarr, setelem, getelem, dump, dumpa, getarg0, getarg1,
  setret0, setarg0, setarg1, getret0,
}
use k3s_virtual_machine.Interpreter.Register.{get_as_function}
use k3s_virtual_machine.Interpreter.Machine.{
  Machine, Frame, fetch, advance, get_acc, get_reg, new_frame, push_frame, stack_capacity,
  load_function,
}
use k3s_virtual_machine.Interpreter.Transfer.{handle_call}
use k3s_virtual_machine.Interpreter.Values.{Doubles}
use k3s_virtual_machine.Interpreter.Decode.{Operands, decode_and_resolve}
use k3s_virtual_machine.Interpreter.Step.{
  Result, running, returned, then_advance, then_fetch, dispatch, step, handle_ret,
}
use k3s_virtual_machine.Interpreter.Frames.Primitives.{Kept, Kept-refl}
use k3s_virtual_machine.Interpreter.Frames.Handlers.{
  handle_lda-Kept, handle_sta-Kept, handle_stnull-Kept, handle_mov-Kept, handle_ldai-Kept,
  handle_jump-Kept, handle_branch-Kept, handle_getarg-Kept, handle_getthis-Kept, handle_setarg-Kept,
  handle_getret0-Kept, handle_setret0-Kept,
}
use k3s_virtual_machine.Interpreter.Frames.Values.{
  handle_arith-Kept, handle_div-Kept, handle_arith2-Kept, handle_div2-Kept, handle_deca-Kept,
  handle_newarr-Kept, handle_setelem_array-Kept, handle_setelem_object-Kept,
  handle_getelem_array-Kept, handle_getelem_object-Kept,
}

-- The round keeps the frames below the top; or it pushes a frame that returns to this instruction;
-- or it drops the top frame and goes on behind the instruction that this frame returns to.
pub data Move (m : Machine) : Machine → Type 0 where
  inside : {m' : Machine} → Kept m m' → Move m m'
  entered :
      {m' : Machine} (f : Frame)
      → f.caller_pc ≡ m.pc
      → m'.state_stack ≡ f ∷ m.state_stack
      → Move m m'
  left :
      {m' : Machine} (f : Frame)
      → m.state_stack ≡ f ∷ m'.state_stack
      → m'.pc ≡ (f.caller_pc + 1) % u64_mod
      → Move m m'

-- RET in the last frame leaves the stack as it is.
MovedBy : Machine → Result → Type 0
MovedBy m (running m') = Move m m'
MovedBy m (returned m') = m' ≡ m

advance-MovedBy :
    (m : Machine) (o : Outcome Machine) → Ensures (Kept m) o → Ensures (MovedBy m) (then_advance o)
unfolding MovedBy advance
advance-MovedBy m (ok a) k = inside (record { below = k.below; back = k.back })
advance-MovedBy m (err e) k = tt

fetch-MovedBy :
    (m : Machine) (o : Outcome Machine) → Ensures (Kept m) o → Ensures (MovedBy m) (then_fetch o)
unfolding MovedBy
fetch-MovedBy m (ok a) k = inside k
fetch-MovedBy m (err e) k = tt

push_frame_lem :
    (m : Machine) (pc c : ℕ)
    → Ensures (λ m'. m'.state_stack ≡ new_frame pc c ∷ m.state_stack) (push_frame m pc c)
unfolding push_frame
push_frame_lem m pc c =
    Ensures-guard (λ m'. m'.state_stack ≡ new_frame pc c ∷ m.state_stack)
      (ltb (length m.state_stack) stack_capacity) oom _ λ _. refl

handle_call-Move : (m : Machine) → Ensures (Move m) (handle_call m)
unfolding handle_call new_frame
handle_call-Move m = Ensures-any (Move m) (get_acc m) _ λ acc.
    Ensures-any (Move m) (get_as_function acc) _ λ c.
      Ensures-bind (λ m'. m'.state_stack ≡ new_frame m.pc c ∷ m.state_stack) (Move m)
        (push_frame m m.pc c) _ (push_frame_lem m m.pc c)
        λ m' e. Ensures-any (Move m) (load_function m' c) _ λ f. entered (new_frame m.pc c) refl e

handle_call-MovedBy : (m : Machine) → Ensures (MovedBy m) (then_fetch (handle_call m))
unfolding MovedBy
handle_call-MovedBy m =
    Ensures-bind (Move m) (MovedBy m) (handle_call m) _ (handle_call-Move m) λ m' h. h

ret_frames :
    (m : Machine) (l : List Frame)
    → m.state_stack ≡ l
    → Ensures (MovedBy m) (elim l [
      | [] ↦ err undefined
      | f ∷ fs ↦ elim fs [
        | [] ↦ ok (returned m)
        | g ∷ gs ↦ ok (running (advance (record m { pc = f.caller_pc; state_stack = g ∷ gs })))
      ]
    ])
unfolding MovedBy advance
ret_frames m [] e = tt
ret_frames m (f ∷ []) e = refl
ret_frames m (f ∷ g ∷ gs) e = left f e refl

handle_ret-MovedBy : (m : Machine) → Ensures (MovedBy m) (handle_ret m)
unfolding handle_ret
handle_ret-MovedBy m = ret_frames m m.state_stack refl

dispatch-MovedBy :
    (d : Doubles) (m : Machine) (c : Opcode) (n : ℕ) (o : Operands)
    → Ensures (MovedBy m) (dispatch d m c n o)
unfolding dispatch
dispatch-MovedBy d m jump n o = fetch-MovedBy m _ (handle_jump-Kept m o.imm)
dispatch-MovedBy d m ble n o = fetch-MovedBy m _ (handle_branch-Kept d.le_zero m o.imm)
dispatch-MovedBy d m blt n o = fetch-MovedBy m _ (handle_branch-Kept d.lt_zero m o.imm)
dispatch-MovedBy d m bge n o = fetch-MovedBy m _ (handle_branch-Kept d.ge_zero m o.imm)
dispatch-MovedBy d m bne n o =
    fetch-MovedBy m _ (handle_branch-Kept (λ x. not (d.eq_zero x)) m o.imm)
dispatch-MovedBy d m call n o = handle_call-MovedBy m
dispatch-MovedBy d m ret n o = handle_ret-MovedBy m
dispatch-MovedBy d m getthis n o = advance-MovedBy m _ (handle_getthis-Kept m o.first_reg)
dispatch-MovedBy d m stnull n o = advance-MovedBy m _ (handle_stnull-Kept m o.first_reg)
dispatch-MovedBy d m ldai n o = advance-MovedBy m _ (handle_ldai-Kept m o.imm)
dispatch-MovedBy d m lda n o = advance-MovedBy m _ (handle_lda-Kept m o.first_reg)
dispatch-MovedBy d m sta n o = advance-MovedBy m _ (handle_sta-Kept m o.first_reg)
dispatch-MovedBy d m mov n o = advance-MovedBy m _ (handle_mov-Kept m o.first_reg o.second_reg)
dispatch-MovedBy d m add zero o =
    advance-MovedBy m _ (handle_arith-Kept d.plus m o.first_reg o.second_reg)
dispatch-MovedBy d m add (suc n) o = tt
dispatch-MovedBy d m sub n o =
    advance-MovedBy m _ (handle_arith-Kept d.minus m o.first_reg o.second_reg)
dispatch-MovedBy d m mul n o =
    advance-MovedBy m _ (handle_arith-Kept d.times m o.first_reg o.second_reg)
dispatch-MovedBy d m div n o =
    advance-MovedBy m _ (handle_div-Kept d d.over m o.first_reg o.second_reg)
dispatch-MovedBy d m mod_ n o =
    advance-MovedBy m _ (handle_div-Kept d d.fmod m o.first_reg o.second_reg)
dispatch-MovedBy d m add2 zero o = advance-MovedBy m _ (handle_arith2-Kept d.plus m o.first_reg)
dispatch-MovedBy d m add2 (suc n) o = tt
dispatch-MovedBy d m sub2 zero o = advance-MovedBy m _ (handle_arith2-Kept d.minus m o.first_reg)
dispatch-MovedBy d m sub2 (suc n) o = tt
dispatch-MovedBy d m div2 zero o = advance-MovedBy m _ (handle_div2-Kept d m o.first_reg)
dispatch-MovedBy d m div2 (suc n) o = tt
dispatch-MovedBy d m mul2 zero o = advance-MovedBy m _ (handle_arith2-Kept d.times m o.first_reg)
dispatch-MovedBy d m mul2 (suc n) o = tt
dispatch-MovedBy d m deca n o = advance-MovedBy m _ (handle_deca-Kept d m)
dispatch-MovedBy d m newarr n o = advance-MovedBy m _ (handle_newarr-Kept d m o.first_reg)
dispatch-MovedBy d m setelem zero o =
    advance-MovedBy m _ (handle_setelem_array-Kept d m o.first_reg o.second_reg)
dispatch-MovedBy d m setelem (suc n) o =
    advance-MovedBy m _ (handle_setelem_object-Kept m o.first_reg o.second_reg)
dispatch-MovedBy d m getelem zero o =
    advance-MovedBy m _ (handle_getelem_array-Kept d m o.first_reg o.second_reg)
dispatch-MovedBy d m getelem (suc n) o =
    advance-MovedBy m _ (handle_getelem_object-Kept m o.first_reg o.second_reg)
dispatch-MovedBy d m dump n o =
    advance-MovedBy m _ (Ensures-any (Kept m) (get_reg m o.first_reg) _ λ _. Kept-refl m)
dispatch-MovedBy d m dumpa n o =
    advance-MovedBy m _ (Ensures-any (Kept m) (get_acc m) _ λ _. Kept-refl m)
dispatch-MovedBy d m getarg0 n o = advance-MovedBy m _ (handle_getarg-Kept 0 m o.first_reg)
dispatch-MovedBy d m getarg1 n o = advance-MovedBy m _ (handle_getarg-Kept 1 m o.first_reg)
dispatch-MovedBy d m setret0 n o = advance-MovedBy m _ (handle_setret0-Kept m o.first_reg)
dispatch-MovedBy d m setarg0 n o = advance-MovedBy m _ (handle_setarg-Kept 0 m o.first_reg)
dispatch-MovedBy d m setarg1 n o = advance-MovedBy m _ (handle_setarg-Kept 1 m o.first_reg)
dispatch-MovedBy d m getret0 n o = advance-MovedBy m _ (handle_getret0-Kept m o.first_reg)

step-MovedBy : (d : Doubles) (m : Machine) → Ensures (MovedBy m) (step d m)
unfolding step
step-MovedBy d m =
    Ensures-any (MovedBy m) (fetch m) _
      λ i. Ensures-any (MovedBy m) (decode_and_resolve m i) _ λ r. dispatch-MovedBy d m r.0 r.1 r.2

-- A round that goes on and in which no allocation collects garbage (a round that collects ends the
-- model's run with a fault of its own) makes one of three moves: the frames below the top and the
-- return address of the top frame stay; or the whole stack stays below a new frame that returns to
-- this instruction; or the top frame is dropped and the counter is one behind the instruction that
-- this frame returns to, modulo 2^64.
pub step-Move : (d : Doubles) (m m' : Machine) → step d m ≡ ok (running m') → Move m m'
unfolding MovedBy
step-Move d m m' e = Ensures-eq (MovedBy m) (step d m) e (step-MovedBy d m)
