-- ===== src/Jit/LinearOrder/Numbers.antt =====
-- Life numbers of jit/ir/graph/analyses/linear_order.h: the walk along the instructions of a block.
use k3s_virtual_machine.Base.{
  ℕ, zero, suc, ◌+◌, ◌%◌, ◌≤◌, ◌<◌, ◌≡◌, refl, sym, ◌∙◌, subst, inl, inr, Option, none, some, ◌∷◌,
  arith, ◌==◌, ==_iff, ==_refl, Bool-cases, update, u32_mod, Settles, Settles-bind, Settles-map,
}
use k3s_virtual_machine.Jit.Graph.{Ir, Inst, BasicBlock}
use k3s_virtual_machine.Jit.LinearOrder.{Ordering, number_phis, number_insts, assign_life_numbers}

-- A list of instructions ends within some steps.
abbrev pub Ends : ℕ → Ir → Option ℕ → Type 0
Ends n ir none = Unit
Ends zero ir (some i) = ⊥
Ends (suc n) ir (some i) = (o : Inst) × (ir.insts i ≡ some o) × Ends n ir o.next

abbrev with_number : Ir → ℕ → Inst → ℕ → Ir
with_number ir i o ln = record ir {
  insts = update ir.insts i (some (record o { ln = ln % u32_mod }));
}

-- A change of numbers only.
pub record IsRenumbered (ir ir' : Ir) : Type 0 where
  pub bbs : ir'.bbs ≡ ir.bbs
  pub ends : (n : ℕ) (first : Option ℕ) → Ends n ir first → Ends n ir' first

inst-eq : {x y : Inst} → some x ≡ some y → x ≡ y
inst-eq h = cc

Ends-number :
    (ir : Ir) (i : ℕ) (o : Inst) (ln : ℕ)
    → ir.insts i ≡ some o
    → (n : ℕ) (first : Option ℕ) → Ends n ir first
    → Ends n (with_number ir i o ln) first
Ends-number ir i o ln at_i n none e = tt
Ends-number ir i o ln at_i zero (some j) e = e
Ends-number ir i o ln at_i (suc n) (some j) (p, at_j, rest) = elim (Bool-cases (i == j)) [
  | inl same ↦
      let at_same : ir.insts i ≡ some p =
        subst (λ k. ir.insts k ≡ some p) (sym ((==_iff i j).0 same)) at_j in
      let eq : o ≡ p = inst-eq (sym at_i ∙ at_same) in
      (
        record o { ln = ln % u32_mod },
        rw same refl,
        Ends-number ir i o ln at_i n o.next (subst (λ (k : Inst). Ends n ir k.next) (sym eq) rest),
      )
  | inr other ↦ (p, rw other at_j, Ends-number ir i o ln at_i n p.next rest)
]

number_one :
    (ir : Ir) (i : ℕ) (o : Inst) (ln : ℕ)
    → ir.insts i ≡ some o
    → IsRenumbered ir (with_number ir i o ln)
number_one ir i o ln at_i = record { bbs = refl; ends = Ends-number ir i o ln at_i }

IsRenumbered-trans : {a b c : Ir} → IsRenumbered a b → IsRenumbered b c → IsRenumbered a c
IsRenumbered-trans p q = record {
  bbs = q.bbs ∙ p.bbs;
  ends = λ n first e. q.ends n first (p.ends n first e);
}

number_phis-IsRenumbered :
    (n : ℕ) (ir : Ir) (first : Option ℕ) (ln : ℕ)
    → Ends n ir first
    → Settles (IsRenumbered ir) (number_phis n ir first ln)
unfolding number_phis
number_phis-IsRenumbered n ir none ln e = record { bbs = refl; ends = λ m f h. h }
number_phis-IsRenumbered zero ir (some i) ln e = elim e [ ]
number_phis-IsRenumbered (suc n) ir (some i) ln (o, at_i, rest) = rw at_i (
    rw (==_refl i) (
      let ir1 = with_number ir i o ln in
      let one = number_one ir i o ln at_i in
      Settles-map (IsRenumbered ir1) (IsRenumbered ir) (number_phis n ir1 o.next ln)
        (number_phis-IsRenumbered n ir1 o.next ln (one.ends n o.next rest))
        (λ ir2 r. IsRenumbered-trans one r)))

number_insts-IsRenumbered :
    (n : ℕ) (ir : Ir) (first : Option ℕ) (ln : ℕ)
    → Ends n ir first
    → Settles (λ r. IsRenumbered ir r.1 × (ln ≤ r.0)) (number_insts n ir first ln)
unfolding number_insts
number_insts-IsRenumbered n ir none ln e = (record { bbs = refl; ends = λ m f h. h }, omega arith)
number_insts-IsRenumbered zero ir (some i) ln e = elim e [ ]
number_insts-IsRenumbered (suc n) ir (some i) ln (o, at_i, rest) = rw at_i (
    rw (==_refl i) (
      let ir1 = with_number ir i o ln in
      let one = number_one ir i o ln at_i in
      Settles-map (λ r. IsRenumbered ir1 r.1 × (ln + 2 ≤ r.0))
        (λ r. IsRenumbered ir r.1 × (ln ≤ r.0)) (number_insts n ir1 o.next (ln + 2))
        (number_insts-IsRenumbered n ir1 o.next (ln + 2) (one.ends n o.next rest))
        (λ (k, ir2) (r, more). (IsRenumbered-trans one r, omega (arith, more)))))

-- A block is placed with the number that is next, and all later numbers are greater.
pub record IsAssigned (s : Ordering) (bb : ℕ) (s' : Ordering) : Type 0 where
  pub renumbered : IsRenumbered s.ir s'.ir
  pub placed : s'.linear_order ≡ (bb, s.life_number) ∷ s.linear_order
  pub later : s.life_number < s'.life_number

pub assign_life_numbers-IsAssigned :
    (n : ℕ) (s : Ordering) (bb : ℕ) (b : BasicBlock)
    → s.ir.bbs bb ≡ some b
    → Ends n s.ir b.first_phi
    → Ends n s.ir b.first_inst
    → Settles (IsAssigned s bb) (assign_life_numbers n s bb)
unfolding assign_life_numbers
assign_life_numbers-IsAssigned n s bb b there phis insts = rw there (
    Settles-bind (IsRenumbered s.ir) (IsAssigned s bb)
      (number_phis n s.ir b.first_phi s.life_number) _
      (number_phis-IsRenumbered n s.ir b.first_phi s.life_number phis)
      (λ ir1 r.
        Settles-bind (λ k. IsRenumbered ir1 k.1 × (s.life_number + 2 ≤ k.0)) (IsAssigned s bb)
          (number_insts n ir1 b.first_inst (s.life_number + 2)) _
          (number_insts-IsRenumbered n ir1 b.first_inst (s.life_number + 2)
            (r.ends n b.first_inst insts))
          (λ (ln, ir2) (q, more). record {
            renumbered = IsRenumbered-trans r q;
            placed = refl;
            later = omega (arith, more);
          })))
