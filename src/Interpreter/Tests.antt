-- ===== src/Interpreter/Tests.antt =====
-- Runs of the interpreter on small programs.
use k3s_virtual_machine.Base.{
  ◌+◌, ◌%◌, ◌≡◌, refl, arith, none, some, [], ◌∷◌, ok, replicate, u64_mod, false, ◌==◌,
}
use k3s_virtual_machine.Base.{update}
use k3s_virtual_machine.Classfile.ConstantPool.{empty_pool}
use k3s_virtual_machine.Interpreter.Register.{
  register, empty, func, num, str, arr, type_eq, get_as_function,
}
use k3s_virtual_machine.Interpreter.Isa.{instruction, add}
use k3s_virtual_machine.Interpreter.Objects.{HeapObject, function}
use k3s_virtual_machine.Interpreter.Machine.{
  Machine, Frame, get_reg, fetch, get_acc, push_frame, load_function,
}
use k3s_virtual_machine.Interpreter.Values.{Doubles}
use k3s_virtual_machine.Interpreter.Decode.{
  check_regs_type, Operands, overloads, first_overload, decode_and_resolve,
}
use k3s_virtual_machine.Interpreter.Decode.Checks.{check_regs_type-last, first_overload-add}
use k3s_virtual_machine.Interpreter.Step.{running, step, dispatch, handle_ret}
use k3s_virtual_machine.Interpreter.Transfer.{handle_call}
use k3s_virtual_machine.Interpreter.Frames.Moves.{Move, step-Move}
use k3s_virtual_machine.Interpreter.Frames.Calls.{stop, call-returns}

-- Arithmetic on small whole numbers stands in for that on doubles.
abbrev doubles : Doubles
doubles = record {
  plus = λ a b. a + b;
  minus = λ a b. a;
  times = λ a b. a;
  over = λ a b. a;
  fmod = λ a b. a;
  le_zero = λ a. a == 0;
  lt_zero = λ a. false;
  ge_zero = λ a. a == 0;
  eq_zero = λ a. a == 0;
  one = 1;
  to_size = λ a. a;
}

-- The accumulator holds a function at address 500 that starts, and ends, at instruction 1.
abbrev caller : Frame
caller = record {
  acc = register func 500;
  regs = register num 7 ∷ register str 600 ∷ [];
  caller_pc = 90;
  callee = 400;
}

abbrev callee_object : HeapObject
callee_object = record {
  header = record { mark = 0; allocated_size = 0; relocated_ptr = 0 };
  body = function (record {
    target_pc = 1;
    this = empty;
    inputs = replicate 4 empty;
    outputs = replicate 4 empty;
  });
}

abbrev before : Machine
before = record {
  pc = 0;
  state_stack = caller ∷ [];
  program = instruction 5 0 ∷ instruction 6 0 ∷ [];
  constant_pool = empty_pool;
  texts = λ _. none;
  offsets = λ _. none;
  heap = update (λ _. none) 500 (some callee_object);
  region = record { start = 0; size = 1000; cursor = 8 };
  is_trigger_forbidden = false;
}

abbrev inside_callee : Machine
inside_callee = record before {
  pc = 1;
  state_stack =
      record { acc = empty; regs = replicate 16 empty; caller_pc = 0; callee = 500 } ∷ caller ∷ [];
}

abbrev after : Machine
after = record before { pc = 1 }

calls : step doubles before ≡ ok (running inside_callee)
unfolding step fetch decode_and_resolve get_acc dispatch handle_call get_as_function push_frame
    load_function
calls = refl

returns : step doubles inside_callee ≡ ok (running after)
unfolding step fetch decode_and_resolve dispatch handle_ret
returns = refl

step-Move_example : Move before inside_callee
step-Move_example = step-Move doubles before inside_callee calls

call-returns_example : (caller ∷ [] ≡ caller ∷ []) × (1 ≡ (0 + 1) % u64_mod)
call-returns_example =
    call-returns doubles before inside_callee inside_callee after calls (stop (omega arith)) returns
      (omega arith)

check_regs_type-last_example :
    check_regs_type before ((num, 0) ∷ (num, 1) ∷ [])
    ≡ check_regs_type before ((num, 0) ∷ (arr, 1) ∷ [])
check_regs_type-last_example = check_regs_type-last before ((num, 0) ∷ []) num arr 1

abbrev operands_0_1 : Operands
operands_0_1 = record { first_reg = 0; second_reg = 1; imm = 0 }

first_overload-add_example : first_overload before operands_0_1 (overloads add) ≡ ok 0
unfolding type_eq get_reg
first_overload-add_example =
    first_overload-add before operands_0_1 (register num 7) (register str 600) refl refl
