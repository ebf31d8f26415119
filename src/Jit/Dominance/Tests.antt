-- ===== src/Jit/Dominance/Tests.antt =====
-- A tree of four blocks: the entry 1, below it 2, and below that 3 and 0.
use k3s_virtual_machine.Base.{
  ℕ, ◌≡◌, ◌≢◌, ◌↔◌, refl, true, Bool, Option, none, some, arith, Bool-cases, inl, inr, sym, ◌==◌,
  ==_iff, ok, update,
}
use k3s_virtual_machine.Jit.Dominance.{is_dominator, bb_dominates}
use k3s_virtual_machine.Jit.Dominance.Chain.{Above, IsTree, is_dominator-Above}

-- Every block but 1 and 2 is below 2.
abbrev idoms : ℕ → Option ℕ
idoms = update (update (λ _. some 2) 2 (some 1)) 1 none

abbrev two_below : ℕ → ℕ
two_below _ = 2

abbrev depth : ℕ → ℕ
depth = update (update two_below 2 1) 1 0

idoms-IsTree : IsTree idoms 1 depth
idoms-IsTree = record {
  root = refl;
  parent = λ b ne. elim (Bool-cases (1 == b)) [
    | inl e ↦ absurd (ne (sym ((==_iff 1 b).0 e)))
    | inr e ↦ elim (Bool-cases (2 == b)) [
      | inl e' ↦ (1, rw (e, e') refl, rw (e, e') (omega arith))
      | inr e' ↦ (2, rw (e, e') refl, rw (e, e') (omega arith))
    ]
  ];
}

abbrev two : ℕ
two = 2

abbrev three : ℕ
three = 3

is_dominator-Above_example :
    (r : Bool) × (is_dominator 3 idoms 1 2 3 ≡ ok r)
    × ((r ≡ true) ↔ Above idoms 2 3)
    × (two ≢ three → bb_dominates 3 idoms 2 3 ≡ ok r)
is_dominator-Above_example = is_dominator-Above 3 idoms 1 depth 2 3 idoms-IsTree (omega arith)
