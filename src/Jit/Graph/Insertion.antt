-- ===== src/Jit/Graph/Insertion.antt =====
-- Prepend and ReplaceInBB(Inst *) of jit/ir/graph/graph.cpp put an instruction into the list of a block.
use k3s_virtual_machine.Base.{
  ℕ, ◌≡◌, ◌≢◌, refl, sym, ap, ◌∙◌, subst, ap₂, ◌⊎◌, inl, inr, false, Option, none, some, List, [],
  ◌∷◌, ◌++◌, arith, ok, err, undefined, ◌==◌, ==_iff, ==_refl, update, In, NotIn, Distinct, Apart,
  In-ne, NotIn-append, append-NotIn, Distinct-append, append-Distinct, snoc_cases, Apart-In,
  Apart-sym,
}
use k3s_virtual_machine.Jit.Graph.{Ir, Inst}
use k3s_virtual_machine.Jit.Graph.Block.{
  prepend, replace_in_bb, set_first_inst, set_last_inst, check_not_phi,
}
use k3s_virtual_machine.Jit.Graph.Chain.{
  Holds, Linked, Elsewhere, IsRelinked, IsRelinked-trans, write-IsRelinked, head_of, update-eq,
  update-ne, Linked-update, Linked-append, append-Linked, relink_last, relink_first, last_of-append,
  head_of-append,
}
use k3s_virtual_machine.Jit.Graph.PushBack.{IsLoose, last_out}
use k3s_virtual_machine.Jit.Graph.Removal.{
  Apart-rest, ptr_eq-ne, ptr_eq_self, head_known, last_known,
}

differ : {a b : ℕ} → b ≢ a → (a == b) ≡ false
differ {a} {b} n = ground (arith, ==_iff a b)

-- A new item between the two parts of a list.
Distinct-between :
    (xs : List ℕ) (n : ℕ) (ys : List ℕ)
    → Distinct xs
    → Distinct ys
    → Apart xs ys
    → NotIn n xs
    → NotIn n ys
    → Distinct (xs ++ n ∷ ys)
Distinct-between xs n ys dx dy ap nx ny = append-Distinct xs (n ∷ ys) dx (ny, dy) (apart xs ap nx)
  where
    apart : (l : List ℕ) → Apart l ys → NotIn n l → Apart l (n ∷ ys)
    apart [] a o = tt
    apart (x ∷ l) (a, as') (o, os) = ((λ e. o (sym e), a), apart l as' os)

-- What stands before an instruction that is not the first, and what the new one must not be.
record IsInside (ir : Ir) (b : ℕ) (zs : List ℕ) (p : ℕ) (rest : List ℕ) : Type 0 where
  inst : Inst
  there : ir.insts p ≡ some inst
  before : Linked ir.insts b none (zs ++ p ∷ []) (head_of none rest)
  behind : Linked ir.insts b (some p) rest none
  apart : Apart (zs ++ p ∷ []) rest
  front : Distinct (zs ++ p ∷ [])
  back : Distinct rest
  p_out : NotIn p rest

inside :
    (ir : Ir) (b : ℕ) (zs : List ℕ) (p : ℕ) (rest : List ℕ)
    → Holds ir b ((zs ++ p ∷ []) ++ rest)
    → IsInside ir b zs p rest
inside ir b zs p rest h =
    let (kl, kr) = append-Linked b ir.insts none none (zs ++ p ∷ []) rest h.linked in
    let (_, (q, _)) = append-Linked b ir.insts none (head_of none rest) zs (p ∷ []) kl in
    let (dx, (dy, ap)) = Distinct-append (zs ++ p ∷ []) rest h.distinct in
    record {
      inst = q.inst;
      there = q.there;
      before = kl;
      behind =
          subst (λ (v : Option ℕ). Linked ir.insts b v rest none) (last_of-append none zs (p ∷ []))
            kr;
      apart = ap;
      front = dx;
      back = dy;
      p_out = Apart-In (zs ++ p ∷ []) rest p ap (In-last zs);
    }
  where
    In-last : (l : List ℕ) → In p (l ++ p ∷ [])
    In-last [] = inl refl
    In-last (x ∷ l) = inr (In-last l)

-- When the pointers of a block lead through a list of instructions in both directions, Prepend of
-- a new instruction that is no phi and in no block before one that is not the first succeeds and
-- leaves the pointers leading through the list with the new one there. No other block and no
-- instruction but these and the new one changes; in these only the pointers prev, next and bb
-- change, and in the block only the pointers to the first and the last instruction.
pub prepend-Holds :
    (ir : Ir) (b i new : ℕ) (zs : List ℕ) (p : ℕ) (ys : List ℕ)
    → Holds ir b ((zs ++ p ∷ []) ++ i ∷ ys)
    → IsLoose ir new
    → NotIn new ((zs ++ p ∷ []) ++ i ∷ ys)
    → (ir' : Ir) × (prepend ir i new ≡ ok ir')
      × Holds ir' b ((zs ++ p ∷ []) ++ new ∷ i ∷ ys)
      × Elsewhere ir ir' b ((zs ++ p ∷ []) ++ new ∷ i ∷ ys)
      × IsRelinked ir ir'
unfolding prepend
prepend-Holds ir b i new zs p ys h loose out =
    let s = inside ir b zs p (i ∷ ys) h in
    let xs = zs ++ p ∷ [] in
    let (at_i, ki) = s.behind in
    let (i_ys, dy) = s.back in
    let i_xs : NotIn i xs = Apart-sym xs (i ∷ ys) i s.apart (inl refl) in
    let (new_xs, (i_ne, new_ys)) = NotIn-append new xs (i ∷ ys) out in
    let (new_zs, (p_ne, _)) = NotIn-append new zs (p ∷ []) new_xs in
    let (p_i, p_ys) = s.p_out in
    let n' : Inst = record loose.inst { bb = some b; next = some i; prev = some p } in
    let insts1 : ℕ → Option Inst = update ir.insts new (some n') in
    let i_there : insts1 i ≡ some at_i.inst =
      update-ne ir.insts new i _ (λ e. i_ne (sym e)) ∙ at_i.there in
    let i' : Inst = record at_i.inst { prev = some new } in
    let insts2 : ℕ → Option Inst = update insts1 i (some i') in
    let p_there : insts2 p ≡ some s.inst =
      update-ne insts1 i p _ p_i ∙ update-ne ir.insts new p _ (λ e. p_ne (sym e)) ∙ s.there in
    let p' : Inst = record s.inst { next = some new } in
    let insts3 : ℕ → Option Inst = update insts2 p (some p') in
    let (f, head, f_in) = head_known zs p in
    let not_i : f ≢ i = In-ne f i xs f_in i_xs in
    let first : h.block.first_inst ≡ some f =
      h.first ∙ head_of-append none xs (i ∷ ys) ∙ head (some i) in
    let ir' : Ir = record ir { insts = insts3 } in
    (
      ir',
      rw
          (
            loose.there,
            loose.no_block,
            loose.no_prev,
            loose.no_next,
            at_i.there,
            differ i_ne,
            at_i.in_block,
            at_i.prev,
            differ (λ e. p_i (sym e)),
            differ p_ne,
            s.there,
            h.there,
            ptr_eq-ne first not_i,
          )
          refl,
      record {
        block = h.block;
        there = h.there;
        first =
            h.first
            ∙ head_of-append none xs (i ∷ ys)
            ∙ head (some i)
            ∙ sym (head (some new))
            ∙ sym (head_of-append none xs (new ∷ i ∷ ys));
        last =
            h.last ∙ last_of-append none xs (i ∷ ys) ∙ sym (last_of-append none xs (new ∷ i ∷ ys));
        linked =
            Linked-append b insts3 none none xs (new ∷ i ∷ ys)
              (relink_last b insts2 none (some i) zs p s.inst (some new) p_there
                (last_out zs p s.front)
                (Linked-update b insts1 none (some i) i _ xs i_xs
                  (Linked-update b ir.insts none (some i) new _ xs new_xs s.before)))
              (
                record {
                  inst = n';
                  there =
                      update-ne insts2 p new _ p_ne
                      ∙ update-ne insts1 i new _ i_ne
                      ∙ update-eq ir.insts new _;
                  in_block = refl;
                  prev = sym (last_of-append none zs (p ∷ []));
                  next = refl;
                  plain = loose.plain;
                },
                Linked-update b insts2 (some new) none p _ (i ∷ ys) s.p_out (
                    relink_first b insts1 (some p) none i ys at_i.inst (some new) i_there i_ys (
                      Linked-update b ir.insts (some p) none new _ (i ∷ ys) (i_ne, new_ys)
                        s.behind)),
              );
        distinct = Distinct-between xs new (i ∷ ys) s.front s.back s.apart new_xs (i_ne, new_ys);
      },
      (
        λ a n.
            let (nx, (n_new, (n_i, _))) = NotIn-append a xs (new ∷ i ∷ ys) n in
            let (_, (n_p, _)) = NotIn-append a zs (p ∷ []) nx in
            update-ne insts2 p a _ n_p
            ∙ update-ne insts1 i a _ n_i
            ∙ update-ne ir.insts new a _ n_new,
        λ c n. refl,
      ),
      IsRelinked-trans (write-IsRelinked ir new loose.inst n' loose.there refl) (
          IsRelinked-trans
            (write-IsRelinked (record ir { insts = insts1 }) i at_i.inst i' i_there refl)
            (write-IsRelinked (record ir { insts = insts2 }) p s.inst p' p_there refl)),
    )

-- In front of the first instruction the code writes through the null `prev`.
pub prepend-first :
    (ir : Ir) (b i new : ℕ) (ys : List ℕ)
    → Holds ir b (i ∷ ys)
    → IsLoose ir new
    → i ≢ new
    → prepend ir i new ≡ err undefined
unfolding prepend
prepend-first ir b i new ys h loose ne =
    let (at_i, _) = h.linked in
    rw (loose.there, loose.no_block, loose.no_prev, loose.no_next, at_i.there, differ ne, at_i.prev)
      refl

-- When the pointers of a block lead through a list of instructions in both directions, ReplaceInBB
-- of one that is neither the first nor the last by a new instruction that is no phi and in no
-- block succeeds and leaves the pointers leading through the list with the new one in its place,
-- and the replaced one is in no block. No other block and no instruction but these and the new one
-- changes; in these only the pointers prev, next and bb change, and in the block only the pointers
-- to the first and the last instruction.
pub replace_in_bb-Holds :
    (ir : Ir) (b i new : ℕ) (zs : List ℕ) (p q : ℕ) (ys : List ℕ)
    → Holds ir b ((zs ++ p ∷ []) ++ i ∷ q ∷ ys)
    → IsLoose ir new
    → NotIn new ((zs ++ p ∷ []) ++ i ∷ q ∷ ys)
    → (ir' : Ir) × (replace_in_bb ir i new ≡ ok ir')
      × Holds ir' b ((zs ++ p ∷ []) ++ new ∷ q ∷ ys)
      × IsLoose ir' i
      × Elsewhere ir ir' b ((zs ++ p ∷ []) ++ i ∷ new ∷ q ∷ ys)
      × IsRelinked ir ir'
unfolding replace_in_bb
replace_in_bb-Holds ir b i new zs p q ys h loose out =
    let s = inside ir b zs p (i ∷ q ∷ ys) h in
    let xs = zs ++ p ∷ [] in
    let (at_i, (at_q, kq)) = s.behind in
    let ((q_i, i_ys), (q_ys, dy)) = s.back in
    let i_xs : NotIn i xs = Apart-sym xs (i ∷ q ∷ ys) i s.apart (inl refl) in
    let q_xs : NotIn q xs = Apart-sym xs (i ∷ q ∷ ys) q s.apart (inr (inl refl)) in
    let (new_xs, (i_ne, (q_ne, new_ys))) = NotIn-append new xs (i ∷ q ∷ ys) out in
    let (new_zs, (p_ne, _)) = NotIn-append new zs (p ∷ []) new_xs in
    let (p_i, (p_q, p_ys)) = s.p_out in
    let o' : Inst = record loose.inst { next = some q; prev = some p; bb = some b } in
    let insts1 : ℕ → Option Inst = update ir.insts new (some o') in
    let q_there : insts1 q ≡ some at_q.inst =
      update-ne ir.insts new q _ (λ e. q_ne (sym e)) ∙ at_q.there in
    let q' : Inst = record at_q.inst { prev = some new } in
    let insts2 : ℕ → Option Inst = update insts1 q (some q') in
    let p_there : insts2 p ≡ some s.inst =
      update-ne insts1 q p _ p_q ∙ update-ne ir.insts new p _ (λ e. p_ne (sym e)) ∙ s.there in
    let p' : Inst = record s.inst { next = some new } in
    let insts3 : ℕ → Option Inst = update insts2 p (some p') in
    let i' : Inst = record at_i.inst { bb = none; next = none; prev = none } in
    let i_there : insts3 i ≡ some at_i.inst =
      update-ne insts2 p i _ (λ e. p_i (sym e))
      ∙ update-ne insts1 q i _ q_i
      ∙ update-ne ir.insts new i _ (λ e. i_ne (sym e))
      ∙ at_i.there in
    let (f, head, f_in) = head_known zs p in
    let first : h.block.first_inst ≡ some f =
      h.first ∙ head_of-append none xs (i ∷ q ∷ ys) ∙ head (some i) in
    let (e, end, e_in) = last_known q ys in
    let last : h.block.last_inst ≡ some e = h.last ∙ last_of-append none xs (i ∷ q ∷ ys) ∙ end in
    let ir' : Ir = record ir { insts = update insts3 i (some i') } in
    (
      ir',
      rw
          (
            at_i.there,
            at_i.plain,
            loose.there,
            loose.no_block,
            loose.plain,
            at_i.in_block,
            h.there,
            ptr_eq-ne first (In-ne f i xs f_in i_xs),
            ptr_eq-ne last (In-ne e i (q ∷ ys) e_in (q_i, i_ys)),
            loose.there,
            at_i.next,
            at_i.prev,
            differ q_ne,
            at_q.there,
            differ (λ e. p_q (sym e)),
            differ p_ne,
            s.there,
            differ p_i,
            differ (λ e. q_i (sym e)),
            differ i_ne,
            at_i.there,
          )
          refl,
      record {
        block = h.block;
        there = h.there;
        first =
            h.first
            ∙ head_of-append none xs (i ∷ q ∷ ys)
            ∙ head (some i)
            ∙ sym (head (some new))
            ∙ sym (head_of-append none xs (new ∷ q ∷ ys));
        last =
            h.last
            ∙ last_of-append none xs (i ∷ q ∷ ys)
            ∙ sym (last_of-append none xs (new ∷ q ∷ ys));
        linked =
            Linked-update b insts3 none none i _ (xs ++ new ∷ q ∷ ys)
              (append-NotIn i xs (new ∷ q ∷ ys) i_xs ((λ e. i_ne (sym e)), (q_i, i_ys)))
              (Linked-append b insts3 none none xs (new ∷ q ∷ ys)
                (relink_last b insts2 none (some i) zs p s.inst (some new) p_there
                  (last_out zs p s.front)
                  (Linked-update b insts1 none (some i) q _ xs q_xs
                    (Linked-update b ir.insts none (some i) new _ xs new_xs s.before)))
                (
                  record {
                    inst = o';
                    there =
                        update-ne insts2 p new _ p_ne
                        ∙ update-ne insts1 q new _ q_ne
                        ∙ update-eq ir.insts new _;
                    in_block = refl;
                    prev = sym (last_of-append none zs (p ∷ []));
                    next = refl;
                    plain = loose.plain;
                  },
                  Linked-update b insts2 (some new) none p _ (q ∷ ys) (p_q, p_ys)
                      (relink_first b insts1 (some i) none q ys at_q.inst (some new) q_there q_ys (
                        Linked-update b ir.insts (some i) none new _ (q ∷ ys) (q_ne, new_ys)
                          (at_q, kq))),
                ));
        distinct =
            Distinct-between xs new (q ∷ ys) s.front (q_ys, dy) (Apart-rest xs i (q ∷ ys) s.apart)
              new_xs (q_ne, new_ys);
      },
      record {
        inst = i';
        there = update-eq insts3 i _;
        no_block = refl;
        no_prev = refl;
        no_next = refl;
        plain = at_i.plain;
      },
      (
        λ a n.
            let (nx, (n_i, (n_new, (n_q, _)))) = NotIn-append a xs (i ∷ new ∷ q ∷ ys) n in
            let (_, (n_p, _)) = NotIn-append a zs (p ∷ []) nx in
            update-ne insts3 i a _ n_i
            ∙ update-ne insts2 p a _ n_p
            ∙ update-ne insts1 q a _ n_q
            ∙ update-ne ir.insts new a _ n_new,
        λ c n. refl,
      ),
      IsRelinked-trans (write-IsRelinked ir new loose.inst o' loose.there refl) (
          IsRelinked-trans
            (write-IsRelinked (record ir { insts = insts1 }) q at_q.inst q' q_there refl)
            (IsRelinked-trans
              (write-IsRelinked (record ir { insts = insts2 }) p s.inst p' p_there refl)
              (write-IsRelinked (record ir { insts = insts3 }) i at_i.inst i' i_there refl))),
    )

replace-only :
    (ir : Ir) (b i new : ℕ)
    → Holds ir b (i ∷ [])
    → IsLoose ir new
    → replace_in_bb ir i new ≡ err undefined
unfolding replace_in_bb set_first_inst set_last_inst check_not_phi
replace-only ir b i new h loose =
    let (at_i, _) = h.linked in
    rw
      (
        at_i.there,
        at_i.plain,
        loose.there,
        loose.no_block,
        loose.plain,
        at_i.in_block,
        h.there,
        ptr_eq_self h.first,
        ptr_eq_self h.last,
        loose.there,
        loose.plain,
        ==_refl b,
        loose.there,
        at_i.next,
      )
      refl

replace-front :
    (ir : Ir) (b i new q : ℕ) (ys : List ℕ)
    → Holds ir b (i ∷ q ∷ ys)
    → IsLoose ir new
    → q ≢ new
    → replace_in_bb ir i new ≡ err undefined
unfolding replace_in_bb set_first_inst check_not_phi
replace-front ir b i new q ys h loose q_ne =
    let (at_i, (at_q, _)) = h.linked in
    let ((q_i, i_ys), _) = h.distinct in
    let (e, end, e_in) = last_known q ys in
    rw
      (
        at_i.there,
        at_i.plain,
        loose.there,
        loose.no_block,
        loose.plain,
        at_i.in_block,
        h.there,
        ptr_eq_self h.first,
        ptr_eq-ne (h.last ∙ end) (In-ne e i (q ∷ ys) e_in (q_i, i_ys)),
        loose.there,
        at_i.next,
        differ q_ne,
        at_q.there,
        at_i.prev,
      )
      refl

replace-back :
    (ir : Ir) (b i new : ℕ) (zs : List ℕ) (p : ℕ)
    → Holds ir b ((zs ++ p ∷ []) ++ i ∷ [])
    → IsLoose ir new
    → replace_in_bb ir i new ≡ err undefined
unfolding replace_in_bb set_last_inst check_not_phi
replace-back ir b i new zs p h loose =
    let s = inside ir b zs p (i ∷ []) h in
    let xs = zs ++ p ∷ [] in
    let (at_i, _) = s.behind in
    let i_xs : NotIn i xs = Apart-sym xs (i ∷ []) i s.apart (inl refl) in
    let (f, head, f_in) = head_known zs p in
    let first : h.block.first_inst ≡ some f =
      h.first ∙ head_of-append none xs (i ∷ []) ∙ head (some i) in
    let last : h.block.last_inst ≡ some i = h.last ∙ last_of-append none xs (i ∷ []) in
    rw
      (
        at_i.there,
        at_i.plain,
        loose.there,
        loose.no_block,
        loose.plain,
        at_i.in_block,
        h.there,
        ptr_eq-ne first (In-ne f i xs f_in i_xs),
        ptr_eq_self last,
        loose.there,
        loose.plain,
        h.there,
        loose.there,
        at_i.next,
      )
      refl

-- When the pointers of a block lead through a list of instructions in both directions, ReplaceInBB
-- of the first or of the last of them by a new instruction that is no phi and in no block writes
-- through a null pointer.
pub replace_in_bb-ends :
    (ir : Ir) (b i new : ℕ) (xs ys : List ℕ)
    → Holds ir b (xs ++ i ∷ ys)
    → IsLoose ir new
    → NotIn new (xs ++ i ∷ ys)
    → (xs ≡ []) ⊎ (ys ≡ [])
    → replace_in_bb ir i new ≡ err undefined
replace_in_bb-ends ir b i new [] [] h loose out e = replace-only ir b i new h loose
replace_in_bb-ends ir b i new [] (q ∷ ys) h loose (_, (q_ne, _)) e =
    replace-front ir b i new q ys h loose q_ne
replace_in_bb-ends ir b i new (x ∷ xs) ys h loose out (inl e) = cc
replace_in_bb-ends ir b i new (x ∷ xs) ys h loose out (inr e) = elim (snoc_cases (x ∷ xs)) [
  | inl e' ↦ cc
  | inr (zs, p, e') ↦
      let split : x ∷ xs ++ i ∷ ys ≡ (zs ++ p ∷ []) ++ i ∷ [] = ap₂ (λ l r. l ++ i ∷ r) e' e in
      replace-back ir b i new zs p (subst (Holds ir b) split h) loose
]
