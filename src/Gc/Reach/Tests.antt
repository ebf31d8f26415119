-- ===== src/Gc/Reach/Tests.antt =====
-- A marking from one frame whose accumulator holds an array with a string in it.
use k3s_virtual_machine.Base.{
  cells, cells-All, ℕ, arith, ◌≡◌, ◌≢◌, refl, inl, inr, List, [], ◌∷◌, ok, All, false,
}
use k3s_virtual_machine.Allocator.Region.{Region}
use k3s_virtual_machine.Interpreter.Register.{Register, register, num, any, str, arr, is_primitive}
use k3s_virtual_machine.Interpreter.Objects.{HeapObject, Body, array, string, function, fields}
use k3s_virtual_machine.Gc.{Gc, mark_and_fetch_target_objects}
use k3s_virtual_machine.Base.{In}
use k3s_virtual_machine.Gc.Reach.{WellTyped}
use k3s_virtual_machine.Gc.Reach.Frames.{
  IsSound, IsComplete, mark_and_fetch_target_objects-IsComplete,
}

abbrev old : Body → HeapObject
old b = record { header = record { mark = 1; allocated_size = 48; relocated_ptr = 0 }; body = b }

abbrev unset : Register
unset = register any 0

abbrev objects : List (ℕ × HeapObject)
objects =
    (100, old (array (register str 200 ∷ register num 7 ∷ [])))
    ∷ (200, old (string (65 ∷ [])))
    ∷ (
      300,
      old (function (record { target_pc = 0; this = unset; inputs = unset ∷ []; outputs = [] })),
    )
    ∷ (400, old (string (66 ∷ [])))
    ∷ []

abbrev addresses : List ℕ
addresses = 100 ∷ 200 ∷ 300 ∷ 400 ∷ []

abbrev memory : Gc
memory = record {
  heap = cells objects;
  state_stack =
      record { acc = register arr 100; regs = unset ∷ []; caller_pc = 0; callee = 300 } ∷ [];
  mark = 1;
  stages_stack =
      record { target_objects = []; estimating_realloc_size = 0; references_to_targets = [] } ∷ [];
  is_trigger_forbidden = false;
}

memory-IsSound : IsSound addresses memory
unfolding is_primitive
memory-IsSound = record {
  covers =
      cells-All (λ a _. In a addresses) objects
        (inl refl, (inr (inl refl), (inr (inr (inl refl)), (inr (inr (inr (inl refl))), tt))));
  typed =
      cells-All (λ _ o. All (WellTyped memory.heap) (fields o.body)) objects
        (
          (inr (_, refl, refl, omega arith), (inl refl, tt)),
          (tt, ((inl refl, (inl refl, tt)), (tt, tt))),
        );
  frames =
      ((inr (_, refl, refl, omega arith), (inr (_, refl, refl, omega arith), (inl refl, tt))), tt);
  fresh =
      cells-All (λ _ o. o.header.mark ≢ 2) objects
        (λ e. omega arith, (λ e. omega arith, (λ e. omega arith, (λ e. omega arith, tt))));
  staged = λ e. cc;
}

abbrev young : Region
young = record { start = 0; size = 1000; cursor = 448 }

mark_and_fetch_target_objects-IsComplete_example :
    (g : Gc) × (mark_and_fetch_target_objects 5 young memory ≡ ok g) × IsComplete memory g
mark_and_fetch_target_objects-IsComplete_example =
    mark_and_fetch_target_objects-IsComplete addresses 5 young memory (omega arith) memory-IsSound
