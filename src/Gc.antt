-- ===== src/Gc.antt =====
-- The garbage collector: allocator/gc.h and the collecting half of allocator/gc_region.cpp. Vectors
-- that are used as stacks hold their back first.
pub mod Move
pub mod Slots
pub mod Holders
pub mod Marking
pub mod Roots
pub mod Reach
mod Tests
use k3s_virtual_machine.Base.{
  ℕ, zero, suc, ◌+◌, ◌-◌, ◌%◌, Bool, true, false, not, ◌&&◌, Option, none, some, List, [], ◌∷◌,
  ◌++◌, map, Outcome, ok, err, ◌>>=◌, ◌>>◌, guard, from_option, undefined, assertion,
  unsupported_type, trigger_forbidden, out_of_fuel, ltb, leb, ◌==◌, if◌then◌else◌, length,
  get_elem?, set, take, drop, u64_mod,
}
use k3s_virtual_machine.Allocator.Region.{Region, contains, alloc_bytes, get_remaining_space, reset}
use k3s_virtual_machine.Base.{update}
use k3s_virtual_machine.Interpreter.Register.{
  Register, RegType, register, num, arr, str, obj, func, nil, any, is_primitive,
}
use k3s_virtual_machine.Interpreter.Objects.{
  HeapObject, Body, array, string, object, function, kind, fields, inputs_count, mark_object,
  is_marked, set_relocated_ptr, was_relocated,
}
use k3s_virtual_machine.Interpreter.Machine.{Frame}

-- An `ObjectHeader **` into a frame of the state stack, which is numbered from the top.
pub data Slot : Type 0 where
  callee_slot : ℕ → Slot
  acc_slot : ℕ → Slot
  reg_slot : ℕ → ℕ → Slot

-- `DanglingReference`: a slot of a frame, or the `n`th register of an object.
pub data DanglingReference : Type 0 where
  in_frame : Slot → DanglingReference
  in_object : ℕ → ℕ → DanglingReference

pub record GcStageState : Type 0 where
  pub target_objects : List ℕ
  pub estimating_realloc_size : ℕ
  pub references_to_targets : List DanglingReference

-- The collector with the memory that it works on.
pub record Gc : Type 0 where
  pub heap : ℕ → Option HeapObject
  pub state_stack : List Frame
  pub mark : ℕ
  pub stages_stack : List GcStageState
  pub is_trigger_forbidden : Bool

unfoldable pub load_header : Gc → ℕ → Outcome HeapObject
load_header g addr = from_option undefined (g.heap addr)

unfoldable pub prepare_new_stage : Gc → Gc
prepare_new_stage g = record g {
  stages_stack =
      record { target_objects = []; estimating_realloc_size = 0; references_to_targets = [] }
      ∷ g.stages_stack;
}

-- A change of `stages_stack_.back()`.
abbrev pub update_stage : Gc → (GcStageState → GcStageState) → Outcome Gc
update_stage g change = elim g.stages_stack [
  | [] ↦ err undefined
  | s ∷ ss ↦ ok (record g { stages_stack = change s ∷ ss })
]

unfoldable pub append_alive_object : Gc → ℕ → Outcome Gc
unfolding load_header
append_alive_object g addr = do
  guard (not (addr == 0)) assertion
  o ← load_header g addr
  update_stage g (λ s. record s {
    target_objects = addr ∷ s.target_objects;
    estimating_realloc_size = (s.estimating_realloc_size + o.header.allocated_size) % u64_mod;
  })

unfoldable pub append_ref_to_alive_object : Gc → DanglingReference → Outcome Gc
append_ref_to_alive_object g ref =
    update_stage g (λ s. record s { references_to_targets = ref ∷ s.references_to_targets })

unfoldable pub get_estimated_space : Gc → Outcome ℕ
get_estimated_space g = elim g.stages_stack [
  | [] ↦ err undefined
  | s ∷ ss ↦ ok s.estimating_realloc_size
]

unfoldable pub finalize_stage : Gc → Outcome Gc
finalize_stage g = elim g.stages_stack [
  | [] ↦ err assertion
  | s ∷ ss ↦ ok (record g { stages_stack = ss })
]

-- Marking: the visit of one register's object, given the visit of the registers inside it.
unfoldable pub mark_registers :
    (Register → Gc → Outcome (Bool × Gc)) → ℕ → ℕ → List Register → Gc → Outcome Gc
unfolding append_ref_to_alive_object
mark_registers visit holder n [] g = ok g
mark_registers visit holder n (r ∷ rs) g = do
  (moves, g1) ← visit r g
  g2 ← (if moves then append_ref_to_alive_object g1 (in_object holder n) else ok g1)
  mark_registers visit holder (n + 1) rs g2

-- MarkArray, MarkObject and MarkFunction on the registers of an object, in their order there.
unfoldable pub registers_of : RegType → Body → Outcome (List Register)
registers_of arr (array items) = ok items
registers_of obj (object mapping items) = ok items
registers_of func (function f) = ok (fields (function f))
registers_of str (string s) = ok []
registers_of arr _ = err undefined
registers_of obj _ = err undefined
registers_of func _ = err undefined
registers_of str _ = err undefined
registers_of _ _ = err unsupported_type

-- MarkAndFetchRecursively, as deep as the fuel.
unfoldable pub mark_and_fetch : ℕ → Region → Register → Gc → Outcome (Bool × Gc)
unfolding load_header append_alive_object mark_registers registers_of
mark_and_fetch zero this_region vreg g = err out_of_fuel
mark_and_fetch (suc n) this_region vreg g = if is_primitive vreg then ok (false, g) else (do
  o ← load_header g vreg.value
  let should_be_realocated = contains this_region vreg.value
  if is_marked o.header g.mark then ok (should_be_realocated, g) else (do
    let marked = record o { header = mark_object o.header g.mark }
    let g1 = record g { heap = update g.heap vreg.value (some marked) }
    g2 ← (if should_be_realocated then append_alive_object g1 vreg.value else ok g1)
    rs ← registers_of vreg.type o.body
    g3 ← mark_registers (mark_and_fetch n this_region) vreg.value 0 rs g2
    ok (should_be_realocated, g3)))

-- The loop of MoveObjects over the objects to move, into the next region.
unfoldable pub move_objects : List ℕ → Gc → Region → Outcome (Gc × Region)
unfolding load_header set_relocated_ptr was_relocated
move_objects [] g region = ok (g, region)
move_objects (addr ∷ rest) g region = do
  guard (not (addr == 0)) assertion
  o ← load_header g addr
  guard (not (was_relocated o.header)) assertion
  (new_ptr, region') ← alloc_bytes region o.header.allocated_size
  header ← set_relocated_ptr o.header new_ptr
  move_objects rest
      (record g {
        heap = update (update g.heap new_ptr (some o)) addr (some (record o { header = header }));
      })
      region'

-- The registers of an object, numbered as MarkArray, MarkObject and MarkFunction meet them.
unfoldable pub set_register : Body → ℕ → Register → Body
set_register (array items) n r = array (set items n r)
set_register (object mapping items) n r = object mapping (set items n r)
set_register (string s) n r = string s
set_register (function f) zero r = function (record f { this = r })
set_register (function f) (suc n) r =
    if ltb n inputs_count
    then function (record f { inputs = set f.inputs n r })
    else function (record f { outputs = set f.outputs (n - inputs_count) r })

unfoldable pub relocated : Gc → ℕ → Outcome ℕ
unfolding load_header
relocated g addr = do
  o ← load_header g addr
  guard (not (o.header.relocated_ptr == 0)) assertion
  ok o.header.relocated_ptr

unfoldable pub read_slot : Slot → List Frame → Outcome ℕ
read_slot (callee_slot i) fs = do f ← from_option undefined (get_elem? fs i); ok f.callee
read_slot (acc_slot i) fs = do f ← from_option undefined (get_elem? fs i); ok f.acc.value
read_slot (reg_slot i n) fs = do
  f ← from_option undefined (get_elem? fs i)
  r ← from_option undefined (get_elem? f.regs n)
  ok r.value

unfoldable pub write_slot : Slot → List Frame → ℕ → Outcome (List Frame)
write_slot (callee_slot i) fs v = do
  f ← from_option undefined (get_elem? fs i)
  ok (set fs i (record f { callee = v }))
write_slot (acc_slot i) fs v = do
  f ← from_option undefined (get_elem? fs i)
  ok (set fs i (record f { acc = register f.acc.type v }))
write_slot (reg_slot i n) fs v = do
  f ← from_option undefined (get_elem? fs i)
  r ← from_option undefined (get_elem? f.regs n)
  ok (set fs i (record f { regs = set f.regs n (register r.type v) }))

-- DanglingReference::Fix
unfoldable pub fix : DanglingReference → Gc → Outcome Gc
unfolding read_slot write_slot relocated load_header set_register was_relocated
fix (in_frame slot) g = do
  old_ref ← read_slot slot g.state_stack
  new_ref ← relocated g old_ref
  fs ← write_slot slot g.state_stack new_ref
  ok (record g { state_stack = fs })
fix (in_object holder n) g = do
  o ← load_header g holder
  r ← from_option undefined (get_elem? (fields o.body) n)
  new_ref ← relocated g r.value
  let target = if was_relocated o.header then o.header.relocated_ptr else holder
  o' ← load_header g target
  r' ← from_option undefined (get_elem? (fields o'.body) n)
  new_ref' ← relocated g r'.value
  guard (new_ref' == new_ref) assertion
  ok (record g {
    heap =
        update g.heap target
          (some (record o' { body = set_register o'.body n (register r'.type new_ref) }));
  })

-- RebindLinks
unfoldable pub rebind_links : List DanglingReference → Gc → Outcome Gc
unfolding fix
rebind_links [] g = ok g
rebind_links (ref ∷ refs) g = do g' ← fix ref g; rebind_links refs g'

-- The slots of one frame: the registers from the `n`th on, and all of them in the order of
-- MarkAndFetchTargetObjects.
unfoldable pub mark_slot : (Register → Gc → Outcome (Bool × Gc)) → Slot → Register → Gc → Outcome Gc
unfolding append_ref_to_alive_object
mark_slot visit slot r g = do
  (moves, g1) ← visit r g
  if moves then append_ref_to_alive_object g1 (in_frame slot) else ok g1

unfoldable pub mark_regs :
    (Register → Gc → Outcome (Bool × Gc)) → ℕ → ℕ → List Register → Gc → Outcome Gc
unfolding mark_slot
mark_regs visit i n [] g = ok g
mark_regs visit i n (r ∷ rs) g = do
  g' ← mark_slot visit (reg_slot i n) r g
  mark_regs visit i (n + 1) rs g'

unfoldable pub mark_frames :
    (Register → Gc → Outcome (Bool × Gc)) → ℕ → List Frame → Gc → Outcome Gc
unfolding mark_slot mark_regs
mark_frames visit i [] g = ok g
mark_frames visit i (f ∷ fs) g = do
  g1 ← mark_frames visit (i + 1) fs g
  g2 ← mark_slot visit (callee_slot i) (register func f.callee) g1
  g3 ← mark_slot visit (acc_slot i) f.acc g2
  mark_regs visit i 0 f.regs g3

-- MarkAndFetchTargetObjects
unfoldable pub mark_and_fetch_target_objects : ℕ → Region → Gc → Outcome Gc
unfolding mark_frames mark_and_fetch
mark_and_fetch_target_objects n this_region g =
    let g' = record g { mark = (g.mark + 1) % u64_mod } in
    mark_frames (mark_and_fetch n this_region) 0 g'.state_stack g'

-- The body of the loop of FixInvalidDanglingReferences, which reads the header behind a holder's address.
unfoldable pub fix_invalid_reference :
    (ℕ → Option HeapObject) → DanglingReference → Outcome DanglingReference
unfolding was_relocated
fix_invalid_reference heap (in_frame slot) = ok (in_frame slot)
fix_invalid_reference heap (in_object holder n) = do
  o ← from_option undefined (heap holder)
  ok (if was_relocated o.header then in_object o.header.relocated_ptr n else in_object holder n)

unfoldable pub fix_invalid_references :
    (ℕ → Option HeapObject) → List DanglingReference → Outcome (List DanglingReference)
unfolding fix_invalid_reference
fix_invalid_references heap [] = ok []
fix_invalid_references heap (ref ∷ refs) = do
  ref' ← fix_invalid_reference heap ref
  refs' ← fix_invalid_references heap refs
  ok (ref' ∷ refs')

unfoldable pub fix_invalid_stages :
    (ℕ → Option HeapObject) → List GcStageState → Outcome (List GcStageState)
unfolding fix_invalid_references
fix_invalid_stages heap [] = ok []
fix_invalid_stages heap (stage ∷ stages) = do
  refs ← fix_invalid_references heap stage.references_to_targets
  stages' ← fix_invalid_stages heap stages
  ok (record stage { references_to_targets = refs } ∷ stages')

-- FixInvalidDanglingReferences
unfoldable pub fix_invalid_dangling_references : Gc → Outcome Gc
unfolding fix_invalid_stages
fix_invalid_dangling_references g = do
  stages ← fix_invalid_stages g.heap g.stages_stack
  ok (record g { stages_stack = stages })

unfoldable pub targets : Gc → Outcome (List ℕ)
targets g = elim g.stages_stack [ [] ↦ err undefined | s ∷ ss ↦ ok s.target_objects ]

unfoldable pub references : Gc → Outcome (List DanglingReference)
references g = elim g.stages_stack [ [] ↦ err undefined | s ∷ ss ↦ ok s.references_to_targets ]

-- CleanupThis on a pool of regions, of which the last, the tenured one, is never cleaned; `n` bounds
-- the depth of the marking.
unfoldable pub cleanup_this : ℕ → List Region → Gc → Outcome (Gc × List Region)
unfolding prepare_new_stage mark_and_fetch_target_objects get_estimated_space targets references
    move_objects rebind_links fix_invalid_dangling_references finalize_stage
cleanup_this n [] g = err undefined
cleanup_this n (tenured ∷ []) g = ok (g, tenured ∷ [])
cleanup_this n (this_region ∷ next ∷ others) g = do
  guard (not g.is_trigger_forbidden) trigger_forbidden
  g1 ← mark_and_fetch_target_objects n this_region (prepare_new_stage g)
  space ← get_estimated_space g1
  (g2, pool) ←
      (if leb space (get_remaining_space next) then ok (g1, next ∷ others) else (do
        (g', pool) ← cleanup_this n (next ∷ others) g1
        first ← from_option undefined (get_elem? pool 0)
        guard (leb space (get_remaining_space first)) assertion
        g'' ← fix_invalid_dangling_references g'
        ok (g'', pool)))
  objects ← targets g2
  first ← from_option undefined (get_elem? pool 0)
  (g3, first') ← move_objects objects g2 first
  refs ← references g3
  g4 ← rebind_links refs g3
  g5 ← finalize_stage g4
  ok (g5, reset this_region ∷ first' ∷ drop 1 pool)
