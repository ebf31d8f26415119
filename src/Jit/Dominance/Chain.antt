-- ===== src/Jit/Dominance/Chain.antt =====
-- Dominance is the path along the immediate dominators.
use k3s_virtual_machine.Base.{
  ℕ, zero, suc, ◌<◌, ◌≡◌, ◌≢◌, refl, sym, ap, ◌∙◌, subst, ◌↔◌, inl, inr, Bool, true, false, Option,
  none, some, arith, ok, ◌==◌, ==_iff, Bool-cases,
}
use k3s_virtual_machine.Jit.Dominance.{
  is_dominator, is_dominator_from, bb_dominates, dominates_from,
}

-- `d` is `b`, or stands above it in the tree of immediate dominators.
pub data Above (idoms : ℕ → Option ℕ) (d : ℕ) : ℕ → Type 0 where
  same : Above idoms d d
  up : {b p : ℕ} → idoms b ≡ some p → Above idoms d p → Above idoms d b

-- A tree: only the entry has no immediate dominator, and every other block is deeper than its own.
pub record IsTree (idoms : ℕ → Option ℕ) (entry : ℕ) (depth : ℕ → ℕ) : Type 0 where
  pub root : idoms entry ≡ none
  pub parent : (b : ℕ) → b ≢ entry → (p : ℕ) × (idoms b ≡ some p) × (depth p < depth b)

parent-eq : {x y : ℕ} → some x ≡ some y → x ≡ y
parent-eq h = cc

-- Strictly above: the path has a first step.
Above-step :
    {idoms : ℕ → Option ℕ} {d b p : ℕ}
    → idoms b ≡ some p
    → d ≢ b
    → Above idoms d b
    → Above idoms d p
Above-step e n same = absurd (n refl)
Above-step {idoms} {d} e n (up e' a) = subst (Above idoms d) (parent-eq (sym e' ∙ e)) a

not-Above_root :
    {idoms : ℕ → Option ℕ} {d entry : ℕ} → idoms entry ≡ none → d ≢ entry → Above idoms d entry → ⊥
not-Above_root e n same = n refl
not-Above_root e n (up e' a) = let h : none ≡ some _ = sym e ∙ e' in cc

pub is_dominator_from-Above :
    (n : ℕ) (idoms : ℕ → Option ℕ) (entry : ℕ) (depth : ℕ → ℕ) (d b : ℕ)
    → IsTree idoms entry depth
    → depth b < n
    → d ≢ b
    → (r : Bool) × (is_dominator_from n idoms entry d b (idoms b) ≡ ok r)
      × ((r ≡ true) ↔ Above idoms d b)
unfolding is_dominator_from
is_dominator_from-Above zero idoms entry depth d b t few ne = absurd (omega arith)
is_dominator_from-Above (suc n) idoms entry depth d b t few ne = elim (Bool-cases (b == entry)) [
  | inl e ↦
      let at_entry : b ≡ entry = (==_iff b entry).0 e in
      (
        false,
        rw e refl,
        (
          (λ h. cc),
          (λ a.
              elim (not-Above_root t.root (λ h. ne (h ∙ sym at_entry))
                (subst (Above idoms d) at_entry a)) [ ]),
        ),
      )
  | inr e ↦
      let inside : b ≢ entry = ground (arith, ==_iff b entry) in
      let (p, parent, less) = t.parent b inside in
      elim (Bool-cases (p == d)) [
        | inl here ↦ (
          true,
          rw (e, parent, here) refl,
          ((λ _. up parent (subst (Above idoms d) (sym ((==_iff p d).0 here)) same)), (λ _. refl)),
        )
        | inr other ↦
            let apart : d ≢ p = ground (arith, ==_iff p d) in
            let (r, result, iff) =
              is_dominator_from-Above n idoms entry depth d p t (omega arith) apart in
            (
              r,
              rw (e, parent, other) result,
              ((λ h. up parent (iff.0 h)), (λ a. iff.1 (Above-step parent ne a))),
            )
      ]
]

-- Both loops give the same answer.
loops_agree :
    (n : ℕ) (idoms : ℕ → Option ℕ) (entry : ℕ) (depth : ℕ → ℕ) (d b : ℕ)
    → IsTree idoms entry depth
    → depth b < n
    → dominates_from n idoms d (some b) ≡ is_dominator_from n idoms entry d b (idoms b)
unfolding is_dominator_from dominates_from
loops_agree zero idoms entry depth d b t few = absurd (omega arith)
loops_agree (suc n) idoms entry depth d b t few = elim (Bool-cases (b == entry)) [
  | inl e ↦
      let none_above : idoms b ≡ none = ap idoms ((==_iff b entry).0 e) ∙ t.root in
      rw (e, none_above) refl
  | inr e ↦
      let inside : b ≢ entry = ground (arith, ==_iff b entry) in
      let (p, parent, less) = t.parent b inside in
      elim (Bool-cases (p == d)) [
        | inl here ↦ rw (e, parent, here) refl
        | inr other ↦ rw (e, parent, other) (loops_agree n idoms entry depth d p t (omega arith))
      ]
]

-- When every block but the entry has an immediate dominator of smaller depth, the entry has none,
-- and the fuel is above the depth of a block, then IsDominator returns an answer, it is true just
-- when the first block is reached from the second by immediate dominators, and for different
-- blocks BasicBlock::Dominates returns the same answer.
pub is_dominator-Above :
    (n : ℕ) (idoms : ℕ → Option ℕ) (entry : ℕ) (depth : ℕ → ℕ) (d b : ℕ)
    → IsTree idoms entry depth
    → depth b < n
    → (r : Bool) × (is_dominator n idoms entry d b ≡ ok r)
      × ((r ≡ true) ↔ Above idoms d b)
      × (d ≢ b → bb_dominates n idoms d b ≡ ok r)
unfolding is_dominator bb_dominates
is_dominator-Above n idoms entry depth d b t few = elim (Bool-cases (d == b)) [
  | inl e ↦ (
    true,
    rw e refl,
    ((λ _. subst (Above idoms d) ((==_iff d b).0 e) same), (λ _. refl)),
    (λ ne. absurd (ne ((==_iff d b).0 e))),
  )
  | inr e ↦
      let apart : d ≢ b = ground (arith, ==_iff d b) in
      let (r, result, iff) = is_dominator_from-Above n idoms entry depth d b t few apart in
      (r, rw e result, iff, (λ _. rw e (loops_agree n idoms entry depth d b t few ∙ result)))
]
