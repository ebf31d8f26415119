-- ===== src/Jit/Checks.antt =====
-- The elimination of checks: jit/ir/graph/optimizations/checks_elimination.h.
use k3s_virtual_machine.Base.{
  ℕ, zero, suc, Bool, true, false, ◌&&◌, Option, none, some, List, [], ◌∷◌, ◌++◌, Outcome, ok, err,
  ◌>>=◌, out_of_fuel, if◌then◌else◌,
}
use k3s_virtual_machine.Jit.Graph.{Ir, Inst, op_checknull, op_checkbounds, load_inst, load_bb}
use k3s_virtual_machine.Jit.Graph.Users.{replace_with}
use k3s_virtual_machine.Jit.Dominance.{pointers_eq, inst_dominates}

-- `unique_checks_`: one vector for each of the two opcodes.
pub record UniqueChecks : Type 0 where
  pub check_nulls : List ℕ
  pub check_bounds : List ℕ

-- `operator==` of instructions with a fixed number of inputs, on the inputs of one opcode.
unfoldable pub inputs_eq : List (Option ℕ) → List (Option ℕ) → Bool
inputs_eq [] [] = true
inputs_eq [] (y ∷ ys) = false
inputs_eq (x ∷ xs) [] = false
inputs_eq (x ∷ xs) (y ∷ ys) = pointers_eq x y && inputs_eq xs ys

-- The loop of `Visit`: the first check that is equal and dominates.
unfoldable pub find_visited : ℕ → (ℕ → Option ℕ) → Ir → Inst → ℕ → List ℕ → Outcome (Option ℕ)
find_visited n idoms ir inst i [] = ok none
find_visited n idoms ir inst i (c ∷ cs) = do
  visited ← load_inst ir c
  dominated ←
      (if inputs_eq inst.inputs visited.inputs then inst_dominates n idoms ir c i else ok false)
  if dominated then ok (some c) else find_visited n idoms ir inst i cs

-- `Visit`
unfoldable pub visit_check : ℕ → (ℕ → Option ℕ) → Ir → Inst → ℕ → List ℕ → Outcome (List ℕ × Ir)
visit_check n idoms ir inst i unique = do
  found ← find_visited n idoms ir inst i unique
  elim found [
    | some c ↦ (do ir1 ← replace_with n ir i c; ok (unique, ir1))
    | none ↦ ok (unique ++ i ∷ [], ir)
  ]

-- `TryApply`
unfoldable pub try_eliminate :
    ℕ → (ℕ → Option ℕ) → Ir → ℕ → UniqueChecks → Outcome (UniqueChecks × Ir)
try_eliminate n idoms ir i u = do
  inst ← load_inst ir i
  elim inst.opcode [
    | op_checknull ↦ (do
      (l, ir1) ← visit_check n idoms ir inst i u.check_nulls
      ok (record u { check_nulls = l }, ir1))
    | op_checkbounds ↦ (do
      (l, ir1) ← visit_check n idoms ir inst i u.check_bounds
      ok (record u { check_bounds = l }, ir1))
    | _ ↦ ok (u, ir)
  ]

-- The constructor's loop over the instructions of a block, which reads the next one before the visit.
unfoldable pub eliminate_in_block :
    ℕ → (ℕ → Option ℕ) → ℕ → Ir → Option ℕ → UniqueChecks → Outcome (UniqueChecks × Ir)
eliminate_in_block n idoms rounds ir none u = ok (u, ir)
eliminate_in_block n idoms zero ir (some i) u = err out_of_fuel
eliminate_in_block n idoms (suc rounds) ir (some i) u = do
  o ← load_inst ir i
  (u1, ir1) ← try_eliminate n idoms ir i u
  eliminate_in_block n idoms rounds ir1 o.next u1

unfoldable pub eliminate_checks :
    ℕ → (ℕ → Option ℕ) → ℕ → Ir → List ℕ → UniqueChecks → Outcome (UniqueChecks × Ir)
eliminate_checks n idoms rounds ir [] u = ok (u, ir)
eliminate_checks n idoms rounds ir (b ∷ bs) u = do
  block ← load_bb ir b
  (u1, ir1) ← eliminate_in_block n idoms rounds ir block.first_inst u
  eliminate_checks n idoms rounds ir1 bs u1
