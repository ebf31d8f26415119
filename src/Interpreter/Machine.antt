-- ===== src/Interpreter/Machine.antt =====
-- The state of interpreter/interpreter.h and of the runtime around it (runtime/runtime.h).
use k3s_virtual_machine.Base.{
  ℕ, ◌+◌, ◌%◌, ◌-◌, ◌/◌, Bool, Option, some, List, [], ◌∷◌, Bytes, Outcome, ok, err, ◌>>=◌, ◌>>◌,
  guard, from_option, undefined, oom, ltb, length, get_elem?, set, replicate, u64_mod,
}
use k3s_virtual_machine.Allocator.Region.{Region, cursor_size}
use k3s_virtual_machine.Allocator.Layout.{stack_size}
use k3s_virtual_machine.Base.{update}
use k3s_virtual_machine.Classfile.ConstantPool.{ConstantPool}
use k3s_virtual_machine.Interpreter.Register.{Register, empty}
use k3s_virtual_machine.Interpreter.Isa.{BytecodeInstruction}
use k3s_virtual_machine.Interpreter.Objects.{HeapObject, Body, Function, function}

-- `InterpreterState`; `callee` is the address of the function object.
pub record Frame : Type 0 where
  pub acc : Register
  pub regs : List Register
  pub caller_pc : ℕ
  pub callee : ℕ

abbrev pub regs_count : ℕ
regs_count = 16

-- `heap` holds the object at each address, `region` is the survivor region that allocates, and the
-- constants that the class file holds in memory are `texts` and `offsets` by address. The top of the
-- state stack comes first.
pub record Machine : Type 0 where
  pub pc : ℕ
  pub state_stack : List Frame
  pub program : List BytecodeInstruction
  pub constant_pool : ConstantPool
  pub texts : ℕ → Option Bytes
  pub offsets : ℕ → Option (List ℕ)
  pub heap : ℕ → Option HeapObject
  pub region : Region
  pub is_trigger_forbidden : Bool

-- The capacity that the interpreter reserves: `MAX_ALLOC_SIZE / sizeof(InterpreterState)`. A stack
-- that outgrows it asks the stack region for more than it has.
abbrev pub stack_capacity : ℕ
stack_capacity = (stack_size - cursor_size) / 288

-- `InterpreterState(caller_pc, callee_obj)`
unfoldable pub new_frame : ℕ → ℕ → Frame
new_frame caller_pc callee_obj = record {
  acc = empty;
  regs = replicate regs_count empty;
  caller_pc = caller_pc;
  callee = callee_obj;
}

-- `GetStateStack()->emplace_back(caller_pc, callee)`
unfoldable pub push_frame : Machine → ℕ → ℕ → Outcome Machine
unfolding new_frame
push_frame m caller_pc callee =
    guard (ltb (length m.state_stack) stack_capacity) oom
    >> ok (record m { state_stack = new_frame caller_pc callee ∷ m.state_stack })

unfoldable pub fetch : Machine → Outcome BytecodeInstruction
fetch m = from_option undefined (get_elem? m.program m.pc)

-- `pc_++`
unfoldable pub advance : Machine → Machine
advance m = record m { pc = (m.pc + 1) % u64_mod }

-- `state_stack_.back()`
unfoldable pub top : Machine → Outcome Frame
top m = elim m.state_stack [ [] ↦ err undefined | f ∷ fs ↦ ok f ]

abbrev pub replace_top : Machine → Frame → Machine
replace_top m f = record m { state_stack = elim m.state_stack [ [] ↦ [] | g ∷ fs ↦ f ∷ fs ] }

unfoldable pub get_acc : Machine → Outcome Register
unfolding top
get_acc m = do f ← top m; ok f.acc

unfoldable pub set_acc : Machine → Register → Outcome Machine
unfolding top
set_acc m r = do f ← top m; ok (replace_top m (record f { acc = r }))

unfoldable pub get_reg : Machine → ℕ → Outcome Register
unfolding top
get_reg m id = do f ← top m; from_option undefined (get_elem? f.regs id)

unfoldable pub set_reg : Machine → ℕ → Register → Outcome Machine
unfolding top
set_reg m id r = do
  f ← top m
  guard (ltb id (length f.regs)) undefined
  ok (replace_top m (record f { regs = set f.regs id r }))

-- The object at an address; a read of anything else is undefined.
unfoldable pub load : Machine → ℕ → Outcome HeapObject
load m addr = from_option undefined (m.heap addr)

unfoldable pub load_function : Machine → ℕ → Outcome Function
unfolding load
load_function m addr = do o ← load m addr; elim o.body [ function f ↦ ok f | _ ↦ err undefined ]

-- A write into the body of an object that is there already.
unfoldable pub store_body : Machine → ℕ → Body → Outcome Machine
unfolding load
store_body m addr b = do
  o ← load m addr
  ok (record m { heap = update m.heap addr (some (record o { body = b })) })

-- `GetCallee()`
unfoldable pub get_callee : Machine → Outcome ℕ
unfolding top
get_callee m = do f ← top m; ok f.callee
