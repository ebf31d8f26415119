-- ===== src/Interpreter/Decode/Checks.antt =====
-- What CheckRegsType of interpreter/interpreter.h looks at.
use k3s_virtual_machine.Base.{
  ℕ, ap, ◌≡◌, refl, ◌++◌, List, [], ◌∷◌, ok, err, ◌>>=◌, false, if◌then◌else◌, arith,
  unresolved_overload,
}
use k3s_virtual_machine.Interpreter.Register.{Register, RegType, num, str, type_eq}
use k3s_virtual_machine.Interpreter.Isa.{add}
use k3s_virtual_machine.Interpreter.Machine.{Machine, get_reg}
use k3s_virtual_machine.Interpreter.Decode.{
  check_regs_type, fits, Operands, overloads, first_overload, accepts,
}

-- Whatever registers come before it, the type that CheckRegsType is asked for in the last register
-- does not change its answer.
pub check_regs_type-last :
    (m : Machine) (before : List (RegType × ℕ)) (t u : RegType) (id : ℕ)
    → check_regs_type m (before ++ (t, id) ∷ []) ≡ check_regs_type m (before ++ (u, id) ∷ [])
unfolding check_regs_type
check_regs_type-last m [] t u id = refl
check_regs_type-last m ((s, i) ∷ []) t u id = refl
check_regs_type-last m ((s, i) ∷ (s', i') ∷ before) t u id =
    ap (λ tail. get_reg m i >>= λ r. if fits s r then tail else ok false)
      (check_regs_type-last m ((s', i') ∷ before) t u id)

-- When both registers can be read, the overload of ADD follows from the first register alone:
-- overload 0 for a number, overload 1 for a string, and otherwise the failure to resolve, whatever
-- the second register holds.
pub first_overload-add :
    (m : Machine) (o : Operands) (x y : Register)
    → get_reg m o.first_reg ≡ ok x
    → get_reg m o.second_reg ≡ ok y
    → first_overload m o (overloads add) ≡ (
        if type_eq x.type num
        then ok 0
        else if type_eq x.type str
        then ok 1
        else err unresolved_overload)
unfolding first_overload overloads accepts check_regs_type type_eq
first_overload-add m o x y h k = ground arith
