-- ===== src/Jit/Peepholes/Tests.antt =====
-- A difference whose second operand is a negation.
use k3s_virtual_machine.Base.{
  ℕ, ◌-◌, ◌*◌, ◌%◌, ◌^◌, ◌≡◌, refl, true, Option, none, some, List, [], ◌∷◌, arith, ok, update,
  u64_mod, cells, cells-All, Total,
}
use k3s_virtual_machine.Jit.Graph.{
  Ir, Inst, Opcode, op_parameter, op_const, op_neg, op_sub, op_shl, type_int64, is_const, is_neg,
  is_not, is_shl,
}
use k3s_virtual_machine.Jit.Graph.Users.{get_input}
use k3s_virtual_machine.Jit.Peepholes.{the_input, rewrite_of}
use k3s_virtual_machine.Jit.Peepholes.Meaning.{Means, IsBinary, value_of}
use k3s_virtual_machine.Jit.Peepholes.Shift.{rewrite_of-value}

abbrev instruction : ℕ → Opcode → List (Option ℕ) → ℕ → Inst
instruction i op inputs imm = record {
  opcode = op;
  id = i;
  ln = 0;
  bb = none;
  first_user = none;
  prev = none;
  next = none;
  inputs = inputs;
  users = [];
  type = type_int64;
  imm = imm;
}

abbrev difference : Inst
difference = instruction 4 op_sub (some 1 ∷ some 3 ∷ []) 0

abbrev instructions : List (ℕ × Inst)
instructions =
    (1, instruction 1 op_parameter [] 0)
    ∷ (2, instruction 2 op_const [] 8)
    ∷ (3, instruction 3 op_neg (some 2 ∷ []) 0)
    ∷ (4, difference)
    ∷ (5, instruction 5 op_shl (some 1 ∷ some 2 ∷ []) 0)
    ∷ []

abbrev ir : Ir
ir = record { insts = cells instructions; bbs = λ _. none; inst_id = 6; block_id = 0 }

abbrev zero_everywhere : ℕ → ℕ
zero_everywhere _ = 0

-- The first instruction is worth 5.
abbrev values : ℕ → ℕ
values =
    update (update (update (update (update zero_everywhere 1 5) 2 8) 3 (2 ^ 64 - 8)) 4 13) 5 1280

values-Means : Means ir values
unfolding get_input
values-Means = record {
  word = λ i. ground arith;
  const =
      cells-All (λ i o. is_const o ≡ true → values i ≡ o.imm) instructions
        (λ h. cc, (λ h. refl, (λ h. cc, (λ h. cc, (λ h. cc, tt)))));
  neg =
      cells-All
        (λ i o.
          is_neg o ≡ true
          → (a : ℕ) × (the_input o 0 ≡ ok a) × (values i ≡ (u64_mod - values a) % u64_mod))
        instructions (λ h. cc, (λ h. cc, (λ h. (2, refl, refl), (λ h. cc, (λ h. cc, tt)))));
  complement =
      cells-All
        (λ i o.
          is_not o ≡ true → (a : ℕ) × (the_input o 0 ≡ ok a) × (values i ≡ u64_mod - 1 - values a))
        instructions (λ h. cc, (λ h. cc, (λ h. cc, (λ h. cc, (λ h. cc, tt)))));
  shl =
      cells-All
        (λ i o.
          is_shl o ≡ true
          → (a b : ℕ) × (the_input o 0 ≡ ok a)
            × (the_input o 1 ≡ ok b)
            × (values i ≡ (values a * 2 ^ values b) % u64_mod))
        instructions
        (λ h. cc, (λ h. cc, (λ h. cc, (λ h. cc, (λ h. (1, 2, refl, refl, refl), tt)))));
}

difference-IsBinary : IsBinary ir difference 1 3
unfolding get_input
difference-IsBinary = record {
  i0 = _;
  i1 = _;
  left = refl;
  right = refl;
  left_there = refl;
  right_there = refl;
}

rewrite_of-value_example : Total (λ r. value_of values 4 r ≡ 13) (rewrite_of ir difference)
rewrite_of-value_example =
    rewrite_of-value ir values 4 difference values-Means (1, 3, difference-IsBinary, refl)
