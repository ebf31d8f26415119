-- ===== src/Jit/Rpo/Marks.antt =====
-- The marks of the blocks, and the vector of jit/ir/graph/analyses/rpo.h.
use k3s_virtual_machine.Base.{
  ℕ, zero, suc, ◌+◌, ◌-◌, ◌≡◌, ◌≢◌, refl, sym, ap, ◌∙◌, subst, ◌⊎◌, inl, inr, Bool, true, false,
  Option, none, some, List, [], ◌∷◌, ◌++◌, arith, ok, ◌==◌, ==_iff, ==_refl, update, Bool-cases, In,
  NotIn, Distinct, In-NotIn, set, length, ltb,
}
use k3s_virtual_machine.Jit.Graph.{Ir, BasicBlock}
use k3s_virtual_machine.Jit.Rpo.{Rpo, place, nulls}

abbrev marked_block : ℕ → Option BasicBlock → Bool
marked_block mark none = false
marked_block mark (some b) = b.mark == mark

abbrev pub marked : ℕ → Ir → ℕ → Bool
marked mark ir a = marked_block mark (ir.bbs a)

abbrev one_if : Bool → ℕ
one_if true = 0
one_if false = 1

-- How many of the blocks have no mark.
abbrev pub unmarked : ℕ → Ir → List ℕ → ℕ
unmarked mark ir [] = 0
unmarked mark ir (a ∷ rest) = one_if (marked mark ir a) + unmarked mark ir rest

-- The blocks of a graph: each has the given successors, which are blocks too.
pub record Blocks (succs : ℕ → List ℕ) (addrs : List ℕ) (ir : Ir) : Type 0 where
  pub block : (a : ℕ) → In a addrs → (b : BasicBlock) × (ir.bbs a ≡ some b) × (b.succs ≡ succs a)
  pub closed : (a v : ℕ) → In a addrs → In v (succs a) → In v addrs

-- The graph after the mark of one block.
abbrev pub with_mark : ℕ → Ir → ℕ → BasicBlock → Ir
with_mark mark ir a b = record ir { bbs = update ir.bbs a (some (record b { mark = mark })) }

pub marked_self :
    (mark : ℕ) (ir : Ir) (a : ℕ) (b : BasicBlock) → marked mark (with_mark mark ir a b) a ≡ true
marked_self mark ir a b = rw (==_refl a, ==_refl mark) refl

pub marked-other :
    (mark : ℕ) (ir : Ir) (a : ℕ) (b : BasicBlock) (c : ℕ)
    → a ≢ c
    → marked mark (with_mark mark ir a b) c ≡ marked mark ir c
marked-other mark ir a b c n =
    let other : (a == c) ≡ false = ground (arith, ==_iff a c) in rw other refl

pub marked-or :
    (mark : ℕ) (ir : Ir) (a : ℕ) (b : BasicBlock) (c : ℕ)
    → (a ≡ c) ⊎ ((a ≢ c) × (marked mark (with_mark mark ir a b) c ≡ marked mark ir c))
marked-or mark ir a b c = elim (Bool-cases (a == c)) [
  | inl e ↦ inl ((==_iff a c).0 e)
  | inr e ↦ let n : a ≢ c = ground (arith, ==_iff a c) in inr (n, marked-other mark ir a b c n)
]

-- A block that is marked now was marked before or is the one.
pub marked-only :
    (mark : ℕ) (ir : Ir) (a : ℕ) (b : BasicBlock) (c : ℕ)
    → marked mark (with_mark mark ir a b) c ≡ true
    → (a ≡ c) ⊎ (marked mark ir c ≡ true)
marked-only mark ir a b c h = elim (marked-or mark ir a b c) [
  | inl e ↦ inl e
  | inr (n, e) ↦ inr (sym e ∙ h)
]

pub marked-old :
    (mark : ℕ) (ir : Ir) (a : ℕ) (b : BasicBlock) (c : ℕ)
    → marked mark ir c ≡ true
    → marked mark (with_mark mark ir a b) c ≡ true
marked-old mark ir a b c h = elim (marked-or mark ir a b c) [
  | inl e ↦ subst (λ x. marked mark (with_mark mark ir a b) x ≡ true) e (marked_self mark ir a b)
  | inr (n, e) ↦ e ∙ h
]

unmarked-out :
    (mark : ℕ) (ir : Ir) (a : ℕ) (b : BasicBlock) (addrs : List ℕ)
    → NotIn a addrs
    → unmarked mark (with_mark mark ir a b) addrs ≡ unmarked mark ir addrs
unmarked-out mark ir a b [] out = refl
unmarked-out mark ir a b (c ∷ rest) (n, out) =
    rw (marked-other mark ir a b c (λ e. n (sym e)), unmarked-out mark ir a b rest out) refl

-- The mark of a block that had none makes them one fewer.
pub unmarked-mark :
    (mark : ℕ) (ir : Ir) (a : ℕ) (b : BasicBlock) (addrs : List ℕ)
    → Distinct addrs
    → In a addrs
    → marked mark ir a ≡ false
    → suc (unmarked mark (with_mark mark ir a b) addrs) ≡ unmarked mark ir addrs
unmarked-mark mark ir a b [] d i f = elim i [ ]
unmarked-mark mark ir a b (c ∷ rest) (out, d) (inl e) f =
    let now : marked mark (with_mark mark ir a b) c ≡ true =
      subst (λ x. marked mark (with_mark mark ir a b) x ≡ true) (sym e) (marked_self mark ir a b) in
    let before : marked mark ir c ≡ false = rw e f in
    let out' : NotIn a rest = subst (λ x. NotIn x rest) e out in
    rw (now, before, unmarked-out mark ir a b rest out') (omega arith)
unmarked-mark mark ir a b (c ∷ rest) (out, d) (inr i) f =
    let n : a ≢ c = λ e. In-NotIn a rest i (subst (λ x. NotIn x rest) (sym e) out) in
    let later = unmarked-mark mark ir a b rest d i f in
    rw (marked-other mark ir a b c n) (omega (arith, later))

pub Blocks-mark :
    (succs : ℕ → List ℕ) (addrs : List ℕ) (mark : ℕ) (ir : Ir) (a : ℕ) (b : BasicBlock)
    → ir.bbs a ≡ some b
    → Blocks succs addrs ir
    → Blocks succs addrs (with_mark mark ir a b)
Blocks-mark succs addrs mark ir a b there h = record {
  closed = h.closed;
  block = λ c i. elim (Bool-cases (a == c)) [
    | inl e ↦
        let (b', at_c, ss) = h.block c i in
        let at_a : ir.bbs a ≡ some b' =
          subst (λ x. ir.bbs x ≡ some b') (sym ((==_iff a c).0 e)) at_c in
        let same : b ≡ b' = block-eq (sym there ∙ at_a) in
        (record b { mark = mark }, rw e refl, ap (λ (x : BasicBlock). x.succs) same ∙ ss)
    | inr e ↦ let (b', at_c, ss) = h.block c i in (b', rw e at_c, ss)
  ];
}
  where
    block-eq : {x y : BasicBlock} → some x ≡ some y → x ≡ y
    block-eq h = cc

abbrev pub somes : List ℕ → List (Option ℕ)
somes [] = []
somes (a ∷ l) = some a ∷ somes l

length-nulls : (n : ℕ) (l : List (Option ℕ)) → length (nulls n ++ l) ≡ n + length l
length-nulls zero l = omega arith
length-nulls (suc n) l = omega (arith, length-nulls n l)

set-nulls :
    (n : ℕ) (l : List (Option ℕ)) (v : ℕ)
    → set (nulls (suc n) ++ l) n (some v) ≡ nulls n ++ some v ∷ l
set-nulls zero l v = refl
set-nulls (suc n) l v = ap (λ (x : List (Option ℕ)). none ∷ x) (set-nulls n l v)

pub place-eq :
    (s : Rpo) (n : ℕ) (done : List ℕ) (a : ℕ)
    → s.idx ≡ suc n
    → s.rpo ≡ nulls (suc n) ++ somes done
    → place s a ≡ ok (record s { rpo = nulls n ++ somes (a ∷ done); idx = n })
unfolding place
place-eq s n done a at_n filled =
    let less : suc n - 1 ≡ n = omega arith in
    let pos : ltb 0 (suc n) ≡ true = ground arith in
    let inside : ltb n (length (nulls (suc n) ++ somes done)) ≡ true =
      ground (arith, length-nulls (suc n) (somes done)) in
    rw (at_n, less, filled, pos, inside, set-nulls n (somes done) a) refl
