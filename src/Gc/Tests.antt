-- ===== src/Gc/Tests.antt =====
-- Two strings and a closure that move into an empty region.
use k3s_virtual_machine.Base.{
  Bool-cases, ◌==◌, ==_iff, inr, ℕ, arith, ◌≡◌, ◌≢◌, refl, inl, none, some, [], ◌∷◌, ok, false, All,
}
use k3s_virtual_machine.Allocator.Region.{Region}
use k3s_virtual_machine.Base.{update}
use k3s_virtual_machine.Interpreter.Objects.{HeapObject, Body, Function, string, function, fields}
use k3s_virtual_machine.Interpreter.Register.{Register, register, str, any}
use k3s_virtual_machine.Gc.Marking.{Covers, Safe}
use k3s_virtual_machine.Gc.Roots.{mark_and_fetch_target_objects-Safe}
use k3s_virtual_machine.Gc.Holders.{fix-in_object}
use k3s_virtual_machine.Gc.Slots.{fix-IsMoved}
use k3s_virtual_machine.Gc.{
  Gc, move_objects, fix, mark_and_fetch_target_objects, in_frame, in_object, acc_slot, read_slot,
}
use k3s_virtual_machine.Gc.Move.{IsTarget, AllMoved, IsMoved, move_objects-AllMoved}

abbrev text : ℕ → HeapObject
text c = record {
  header = record { mark = 1; allocated_size = 48; relocated_ptr = 0 };
  body = string (c ∷ []);
}

abbrev memory : Gc
memory = record {
  heap = update (update (λ _. none) 100 (some (text 65))) 200 (some (text 66));
  state_stack = [];
  mark = 1;
  stages_stack = [];
  is_trigger_forbidden = false;
}

abbrev next_region : Region
next_region = record { start = 1000; size = 500; cursor = 8 }

two_targets : All (IsTarget memory.heap next_region) (100 ∷ 200 ∷ [])
two_targets = (
  record {
    object = text 65;
    there = refl;
    live = omega arith;
    sized = omega arith;
    unmoved = refl;
    outside = inl (omega arith);
  },
  (
    record {
      object = text 66;
      there = refl;
      live = omega arith;
      sized = omega arith;
      unmoved = refl;
      outside = inl (omega arith);
    },
    tt,
  ),
)

move_objects-AllMoved_example :
    (g : Gc) × (d : Region) × (move_objects (100 ∷ 200 ∷ []) memory next_region ≡ ok (g, d))
    × AllMoved memory g next_region d (100 ∷ 200 ∷ [])
move_objects-AllMoved_example =
    move_objects-AllMoved (100 ∷ 200 ∷ []) memory next_region ((omega arith, tt), (tt, tt))
      two_targets (omega arith) (omega arith)

-- A frame that holds the first string in its accumulator, after that string has moved.
abbrev with_root : Gc
with_root = record memory {
  heap =
      update
        (update (λ _. none) 100
          (some (record {
            header = record { mark = 1; allocated_size = 48; relocated_ptr = 1008 };
            body = string (65 ∷ []);
          })))
        1008 (some (text 65));
  state_stack = record { acc = register str 100; regs = []; caller_pc = 0; callee = 0 } ∷ [];
}

abbrev filled_region : Region
filled_region = record next_region { cursor = 56 }

abbrev first_moved : IsMoved memory.heap with_root.heap next_region filled_region 100
first_moved = record {
  object = text 65;
  copy = 1008;
  before = refl;
  forwards = refl;
  equal = refl;
  low = omega arith;
  high = omega arith;
}

root_reads : read_slot (acc_slot 0) with_root.state_stack ≡ ok 100
unfolding read_slot
root_reads = refl

fix-IsMoved_example :
    (fixed : Gc) × (fix (in_frame (acc_slot 0)) with_root ≡ ok fixed)
    × (read_slot (acc_slot 0) fixed.state_stack ≡ ok 1008)
    × (fixed.heap 1008 ≡ some (text 65))
    × (fixed.heap ≡ with_root.heap)
fix-IsMoved_example =
    fix-IsMoved memory with_root next_region filled_region (acc_slot 0) 100 (omega arith) root_reads
      first_moved

memory-Covers : Covers (100 ∷ 200 ∷ []) memory.heap
memory-Covers a o h = elim (Bool-cases (200 == a)) [
  | inl e ↦ inr (inl ((==_iff 200 a).0 e))
  | inr e ↦ elim (Bool-cases (100 == a)) [
    | inl e' ↦ inl ((==_iff 100 a).0 e')
    | inr e' ↦
        let none_there : none ≡ some o = rw (e, e') at h in
        let impossible : ⊥ = cc in elim impossible [ ]
  ]
]

abbrev rooted : Gc
rooted = record memory {
  state_stack = record { acc = register str 100; regs = []; caller_pc = 0; callee = 200 } ∷ [];
}

mark_and_fetch_target_objects-Safe_example :
    Safe
      (λ g. (g.mark ≡ 2) × Covers (100 ∷ 200 ∷ []) g.heap)
      (mark_and_fetch_target_objects 3 next_region rooted)
mark_and_fetch_target_objects-Safe_example =
    mark_and_fetch_target_objects-Safe (100 ∷ 200 ∷ []) 3 next_region rooted (omega arith)
      memory-Covers

-- A closure that has moved, whose first output holds a string that has moved too.
abbrev unset : Register
unset = register any 0

abbrev closure : Function
closure = record {
  target_pc = 7;
  this = unset;
  inputs = unset ∷ unset ∷ unset ∷ unset ∷ [];
  outputs = register str 200 ∷ [];
}

abbrev moved_to : ℕ → Body → HeapObject
moved_to copy b = record {
  header = record { mark = 1; allocated_size = 48; relocated_ptr = copy };
  body = b;
}

abbrev with_closure : Gc
with_closure = record memory {
  heap =
      update
        (update (update (λ _. none) 100 (some (moved_to 1008 (function closure)))) 200
          (some (moved_to 1056 (string (66 ∷ [])))))
        1008 (some (moved_to 0 (function closure)));
}

fix-in_object_example :
    (fixed : Gc) × (fix (in_object 100 5) with_closure ≡ ok fixed)
    × ((changed : HeapObject) × (fixed.heap 1008 ≡ some changed)
        × (fields changed.body ≡ unset ∷ unset ∷ unset ∷ unset ∷ unset ∷ register str 1056 ∷ [])
        × (changed.header ≡ (moved_to 0 (function closure)).header))
    × ((a : ℕ) → a ≢ 1008 → fixed.heap a ≡ with_closure.heap a)
    × (fixed.state_stack ≡ with_closure.state_stack)
fix-in_object_example =
    fix-in_object with_closure 100 5 (moved_to 1008 (function closure))
      (moved_to 0 (function closure)) (moved_to 1056 (string (66 ∷ []))) (register str 200) refl
      refl refl refl refl refl (omega arith)
