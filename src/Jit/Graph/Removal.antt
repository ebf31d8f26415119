-- ===== src/Jit/Graph/Removal.antt =====
-- ReplaceInBB(nullptr) of jit/ir/graph/graph.cpp takes one instruction out of the list of its block.
use k3s_virtual_machine.Base.{
  ℕ, ◌≡◌, ◌≢◌, refl, sym, ap, ◌∙◌, inl, inr, true, false, Option, none, some, List, [], ◌∷◌, ◌++◌,
  arith, ok, ◌>>◌, guard, assertion, ◌==◌, ==_iff, ==_refl, update, In, NotIn, Distinct, Apart,
  In-ne, NotIn-append, Distinct-append, append-Distinct, snoc_cases, Apart-In, Apart-sym,
  if◌then◌else◌,
}
use k3s_virtual_machine.Jit.Graph.{Ir, Inst, BasicBlock, ptr_eq, is_null}
use k3s_virtual_machine.Jit.Graph.Block.{
  remove_in_bb, set_first_inst, set_last_inst, check_not_phi, update_at,
}
use k3s_virtual_machine.Jit.Graph.Chain.{
  Holds, Linked, Elsewhere, IsRelinked, IsRelinked-trans, write-IsRelinked, write_bb-IsRelinked,
  head_of, last_of, update-eq, update-ne, Linked-frame, Linked-update, Linked-append, append-Linked,
  relink_last, relink_first, last_of-append, head_of-append,
}
use k3s_virtual_machine.Jit.Graph.PushBack.{IsLoose, last_out}

-- What one half of the removal leaves: one end of the list changed, the rest as it was.
pub record IsHalf (ir ir' : Ir) (b : ℕ) (block' : BasicBlock) (changed : List ℕ) : Type 0 where
  pub there : ir'.bbs b ≡ some block'
  pub insts : (a : ℕ) → NotIn a changed → ir'.insts a ≡ ir.insts a
  pub blocks : (c : ℕ) → c ≢ b → ir'.bbs c ≡ ir.bbs c
  pub same : IsRelinked ir ir'

pub ptr_eq-ne : {p : Option ℕ} {a i : ℕ} → p ≡ some a → a ≢ i → ptr_eq p i ≡ false
ptr_eq-ne {a} {i} e n =
    let other : (a == i) ≡ false = ground (arith, ==_iff a i) in rw (e, other) refl

pub ptr_eq_self : {p : Option ℕ} {i : ℕ} → p ≡ some i → ptr_eq p i ≡ true
ptr_eq_self {p} {i} e = rw (e, ==_refl i) refl

pub Apart-rest : (xs : List ℕ) (i : ℕ) (ys : List ℕ) → Apart xs (i ∷ ys) → Apart xs ys
Apart-rest [] i ys a = tt
Apart-rest (x ∷ xs) i ys ((_, n), a) = (n, Apart-rest xs i ys a)

pub head_known :
    (ys : List ℕ) (p : ℕ)
    → (f : ℕ) × ((t : Option ℕ) → head_of t (ys ++ p ∷ []) ≡ some f) × In f (ys ++ p ∷ [])
head_known [] p = (p, λ t. refl, inl refl)
head_known (y ∷ ys) p = (y, λ t. refl, inl refl)

pub last_known : (q : ℕ) (ys : List ℕ) → (f : ℕ) × (last_of (some q) ys ≡ some f) × In f (q ∷ ys)
last_known q [] = (q, refl, inl refl)
last_known q (y ∷ ys) = let (f, e, m) = last_known y ys in (f, e, inr m)

-- The list before the instruction gets another end.
pub left-IsHalf :
    (ir : Ir) (b i : ℕ) (block : BasicBlock) (xs : List ℕ) (target : Option ℕ)
    → ir.bbs b ≡ some block
    → block.first_inst ≡ head_of (some i) xs
    → Linked ir.insts b none xs (some i)
    → NotIn i xs
    → Distinct xs
    → check_not_phi ir target ≡ ok tt
    → (ir' : Ir) × ((if ptr_eq block.first_inst i
          then guard (is_null (last_of none xs)) assertion >> set_first_inst ir b target
          else update_at ir (last_of none xs) (λ p. record p { next = target }))
        ≡ ok ir')
      × IsHalf ir ir' b (record block { first_inst = head_of target xs }) xs
      × Linked ir'.insts b none xs target
unfolding set_first_inst
left-IsHalf ir b i block xs target there first k out d plain = elim (snoc_cases xs) [
  | inl e ↦
      let at_i : block.first_inst ≡ some i = rw e at first in
      let block' : BasicBlock = record block { first_inst = target } in
      let ir' : Ir = record ir { bbs = update ir.bbs b (some block') } in
      rw e (
        ir',
        rw (ptr_eq_self at_i, plain, there) refl,
        record {
          there = update-eq ir.bbs b _;
          insts = λ a n. refl;
          blocks = λ c n. update-ne ir.bbs b c _ (λ e. n (sym e));
          same = write_bb-IsRelinked ir b block block' there refl;
        },
        tt,
      )
  | inr (ys, p, e) ↦ rw e (behind ys p (rw e at first) (rw e at k) (rw e at out) (rw e at d))
]
  where
    behind :
        (ys : List ℕ) (p : ℕ)
        → block.first_inst ≡ head_of (some i) (ys ++ p ∷ [])
        → Linked ir.insts b none (ys ++ p ∷ []) (some i)
        → NotIn i (ys ++ p ∷ [])
        → Distinct (ys ++ p ∷ [])
        → (ir' : Ir) × ((if ptr_eq block.first_inst i
              then guard (is_null (last_of none (ys ++ p ∷ []))) assertion
                >> set_first_inst ir b target
              else update_at ir (last_of none (ys ++ p ∷ [])) (λ p. record p { next = target }))
            ≡ ok ir')
          × IsHalf ir ir' b
              (record block { first_inst = head_of target (ys ++ p ∷ []) })
              (ys ++ p ∷ [])
          × Linked ir'.insts b none (ys ++ p ∷ []) target
    behind ys p first k out d =
        let (f, head, f_in) = head_known ys p in
        let not_i : f ≢ i = In-ne f i (ys ++ p ∷ []) f_in out in
        let (_, (q, _)) = append-Linked b ir.insts none (some i) ys (p ∷ []) k in
        let last : last_of none (ys ++ p ∷ []) ≡ some p = last_of-append none ys (p ∷ []) in
        let p' : Inst = record q.inst { next = target } in
        let same : block.first_inst ≡ head_of target (ys ++ p ∷ []) =
          first ∙ head (some i) ∙ sym (head target) in
        (
          record ir { insts = update ir.insts p (some p') },
          rw (ptr_eq-ne (first ∙ head (some i)) not_i, last, q.there) refl,
          record {
            there = there ∙ ap (λ (v : Option ℕ). some (record block { first_inst = v })) same;
            insts = λ a n.
                let (_, (np, _)) = NotIn-append a ys (p ∷ []) n in update-ne ir.insts p a _ np;
            blocks = λ c n. refl;
            same = write-IsRelinked ir p q.inst p' q.there refl;
          },
          relink_last b ir.insts none (some i) ys p q.inst target q.there (last_out ys p d) k,
        )

-- The list behind the instruction gets another front.
pub right-IsHalf :
    (ir : Ir) (b i : ℕ) (block : BasicBlock) (ys : List ℕ) (target : Option ℕ)
    → ir.bbs b ≡ some block
    → block.last_inst ≡ last_of (some i) ys
    → Linked ir.insts b (some i) ys none
    → NotIn i ys
    → Distinct ys
    → check_not_phi ir target ≡ ok tt
    → (ir' : Ir) × ((if ptr_eq block.last_inst i
          then guard (is_null (head_of none ys)) assertion >> set_last_inst ir b target
          else update_at ir (head_of none ys) (λ n. record n { prev = target }))
        ≡ ok ir')
      × IsHalf ir ir' b (record block { last_inst = last_of target ys }) ys
      × Linked ir'.insts b target ys none
unfolding set_last_inst
right-IsHalf ir b i block [] target there last k out d plain = (
  record ir { bbs = update ir.bbs b (some (record block { last_inst = target })) },
  rw (ptr_eq_self last, plain, there) refl,
  record {
    there = update-eq ir.bbs b _;
    insts = λ a n. refl;
    blocks = λ c n. update-ne ir.bbs b c _ (λ e. n (sym e));
    same = write_bb-IsRelinked ir b block (record block { last_inst = target }) there refl;
  },
  tt,
)
right-IsHalf ir b i block (q ∷ ys) target there last k out d plain =
    let (f, end, f_in) = last_known q ys in
    let not_i : f ≢ i = In-ne f i (q ∷ ys) f_in out in
    let (p, _) = k in
    let q' : Inst = record p.inst { prev = target } in
    let same : block.last_inst ≡ last_of target (q ∷ ys) = last in
    (
      record ir { insts = update ir.insts q (some q') },
      rw (ptr_eq-ne (last ∙ end) not_i, p.there) refl,
      record {
        there = there ∙ ap (λ (v : Option ℕ). some (record block { last_inst = v })) same;
        insts = λ a n. let (nq, _) = n in update-ne ir.insts q a _ nq;
        blocks = λ c n. refl;
        same = write-IsRelinked ir q p.inst q' p.there refl;
      },
      relink_first b ir.insts (some i) none q ys p.inst target p.there d.0 k,
    )

pub check-head :
    (ir : Ir) (b : ℕ) (before : Option ℕ) (ys : List ℕ)
    → Linked ir.insts b before ys none
    → check_not_phi ir (head_of none ys) ≡ ok tt
unfolding check_not_phi
check-head ir b before [] k = refl
check-head ir b before (y ∷ ys) (p, k) = rw (p.there, p.plain) refl

pub check-last :
    (ir : Ir) (b : ℕ) (behind : Option ℕ) (xs : List ℕ)
    → Linked ir.insts b none xs behind
    → check_not_phi ir (last_of none xs) ≡ ok tt
unfolding check_not_phi
check-last ir b behind xs k = elim (snoc_cases xs) [
  | inl e ↦ rw e refl
  | inr (ys, p, e) ↦
      let k' : Linked ir.insts b none (ys ++ p ∷ []) behind = rw e at k in
      let (_, (q, _)) = append-Linked b ir.insts none behind ys (p ∷ []) k' in
      let last : last_of none xs ≡ some p = rw e (last_of-append none ys (p ∷ [])) in
      rw (last, q.there, q.plain) refl
]

-- When the pointers of a block lead through a list of instructions in both directions,
-- ReplaceInBB(nullptr) of one of them, wherever it stands, succeeds and leaves the pointers
-- leading through the list without it; the removed instruction is in no block. No other block and
-- no instruction outside the list changes; in the list only the instructions' pointers prev, next
-- and bb change, and in the block only the pointers to the first and the last instruction.
pub remove_in_bb-Holds :
    (ir : Ir) (b i : ℕ) (xs ys : List ℕ)
    → Holds ir b (xs ++ i ∷ ys)
    → (ir' : Ir) × (remove_in_bb ir i ≡ ok ir')
      × Holds ir' b (xs ++ ys)
      × IsLoose ir' i
      × Elsewhere ir ir' b (xs ++ i ∷ ys)
      × IsRelinked ir ir'
unfolding remove_in_bb
remove_in_bb-Holds ir b i xs ys h =
    let (kl, (q, kr)) = append-Linked b ir.insts none none xs (i ∷ ys) h.linked in
    let (dx, (d, ap)) = Distinct-append xs (i ∷ ys) h.distinct in
    let (i_ys, dy) = d in
    let i_xs : NotIn i xs = Apart-sym xs (i ∷ ys) i ap (inl refl) in
    let first : h.block.first_inst ≡ head_of (some i) xs =
      h.first ∙ head_of-append none xs (i ∷ ys) in
    let last : h.block.last_inst ≡ last_of (some i) ys = h.last ∙ last_of-append none xs (i ∷ ys) in
    let (ir1, e1, half1, kl1) =
      left-IsHalf ir b i h.block xs (head_of none ys) h.there first kl i_xs dx
        (check-head ir b (some i) ys kr) in
    let kr1 =
      Linked-frame b ir.insts ir1.insts (some i) none ys
        (λ a m. half1.insts a (Apart-sym xs (i ∷ ys) a ap (inr m))) kr in
    let block1 : BasicBlock = record h.block { first_inst = head_of (head_of none ys) xs } in
    let (ir2, e2, half2, kr2) =
      right-IsHalf ir1 b i block1 ys (last_of none xs) half1.there last kr1 i_ys dy
        (check-last ir1 b (head_of none ys) xs kl1) in
    let kl2 =
      Linked-frame b ir1.insts ir2.insts none (head_of none ys) xs
        (λ a m. half2.insts a (snd_NotIn a (Apart-In xs (i ∷ ys) a ap m))) kl1 in
    let i_there : ir2.insts i ≡ some q.inst = half2.insts i i_ys ∙ half1.insts i i_xs ∙ q.there in
    let i' : Inst = record q.inst { bb = none; next = none; prev = none } in
    let ir' : Ir = record ir2 { insts = update ir2.insts i (some i') } in
    (
      ir',
      rw (q.there, q.in_block, h.there, q.prev, q.next, e1, half1.there, e2, i_there) refl,
      record {
        block = record block1 { last_inst = last_of (last_of none xs) ys };
        there = half2.there;
        first = sym (head_of-append none xs ys);
        last = sym (last_of-append none xs ys);
        linked =
            Linked-append b ir'.insts none none xs ys
              (Linked-update b ir2.insts none (head_of none ys) i _ xs i_xs kl2)
              (Linked-update b ir2.insts (last_of none xs) none i _ ys i_ys kr2);
        distinct = append-Distinct xs ys dx dy (Apart-rest xs i ys ap);
      },
      record {
        inst = i';
        there = update-eq ir2.insts i _;
        no_block = refl;
        no_prev = refl;
        no_next = refl;
        plain = q.plain;
      },
      (
        λ a n.
            let (nx, (ni, ny)) = NotIn-append a xs (i ∷ ys) n in
            update-ne ir2.insts i a _ ni ∙ half2.insts a ny ∙ half1.insts a nx,
        λ c n. half2.blocks c n ∙ half1.blocks c n,
      ),
      IsRelinked-trans half1.same
          (IsRelinked-trans half2.same (write-IsRelinked ir2 i q.inst i' i_there refl)),
    )
  where
    snd_NotIn : (a : ℕ) → NotIn a (i ∷ ys) → NotIn a ys
    snd_NotIn a (_, n) = n
