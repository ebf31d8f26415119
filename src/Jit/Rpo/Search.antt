-- ===== src/Jit/Rpo/Search.antt =====
-- DFS of jit/ir/graph/analyses/rpo.h ends, and what it adds to the order.
use k3s_virtual_machine.Base.{
  ℕ, zero, suc, ◌+◌, ◌≤◌, ◌≡◌, refl, sym, subst, inl, inr, Bool, true, false, some, List, [], ◌∷◌,
  ◌++◌, append_assoc, arith, Bool-cases, Outcome, ◌>>=◌, ◌==◌, ==_refl, In, Distinct, NotIn-of,
  Total, Total-bind, Total-map,
}
use k3s_virtual_machine.Jit.Graph.{BasicBlock, mark_bb, is_marked}
use k3s_virtual_machine.Jit.Rpo.{Rpo, dfs, dfs_succs, place, nulls}
use k3s_virtual_machine.Jit.Rpo.Marks.{
  marked, unmarked, with_mark, somes, marked_self, marked-only, marked-old, unmarked-mark,
  Blocks-mark, place-eq,
}
use k3s_virtual_machine.Jit.Rpo.Part.{
  Leads, stay, go, Ready, Part, Part-none, Part-from, Part-append,
}

module _ (succs : ℕ → List ℕ) (addrs : List ℕ) (distinct : Distinct addrs) (mark : ℕ) where
  -- A part of the search with what it leaves.
  abbrev Adds : ℕ → ℕ → List ℕ → Rpo → Rpo → List ℕ → Type 0
  Adds root grey done s s' new =
      Ready succs addrs mark grey (new ++ done) s' × Part succs addrs mark root s s' new

  -- With fuel for all blocks without a mark, the visit of one of them returns and places it.
  abbrev pub Visits : ℕ → (ℕ → Rpo → Outcome Rpo) → Type 0
  Visits n visit =
      (bb grey : ℕ) (done : List ℕ) (s : Rpo)
      → In bb addrs
      → marked mark s.ir bb ≡ false
      → unmarked mark s.ir addrs ≤ n
      → Ready succs addrs mark grey done s
      → Total (λ s'. (new : List ℕ) × Adds bb grey done s s' new × In bb new) (visit bb s)

  abbrev MarksAll : List ℕ → Rpo → Type 0
  MarksAll ss s' = (v : ℕ) → In v ss → marked mark s'.ir v ≡ true

  dfs_succs-Adds :
      (n : ℕ) (visit : ℕ → Rpo → Outcome Rpo)
      → Visits n visit
      → (bb grey : ℕ) (ss : List ℕ) (done : List ℕ) (s : Rpo)
      → ((v : ℕ) → In v ss → In v (succs bb) × In v addrs)
      → unmarked mark s.ir addrs ≤ n
      → Ready succs addrs mark grey done s
      → Total
          (λ s'. (new : List ℕ) × Adds bb grey done s s' new × MarksAll ss s')
          (dfs_succs visit mark ss s)
  unfolding dfs_succs is_marked
  dfs_succs-Adds n visit v bb grey [] done s sub few ready =
      ([], (ready, Part-none succs addrs mark bb s), λ u i. elim i [ ])
  dfs_succs-Adds n visit v bb grey (c ∷ ss) done s sub few ready =
      let (c_succ, c_in) = sub c (inl refl) in
      let (b, there, _) = ready.blocks.block c c_in in
      elim (Bool-cases (b.mark == mark)) [
        | inl seen ↦
            rw (there, seen)
              (Total-map (λ s'. (new : List ℕ) × Adds bb grey done s s' new × MarksAll ss s') _ _
                (dfs_succs-Adds n visit v bb grey ss done s (λ u i. sub u (inr i)) few ready)
                (λ s' (new, (r, p), all). (
                  new,
                  (r, p),
                  λ u i. elim i [
                    | inl e ↦
                        subst (λ x. marked mark s'.ir x ≡ true) e (p.old c (rw (there, seen) refl))
                    | inr j ↦ all u j
                  ],
                )))
        | inr unseen ↦
            rw (there, unseen)
              (Total-bind (λ s1. (new : List ℕ) × Adds c grey done s s1 new × In c new) _ _ _
                (v c grey done s c_in (rw (there, unseen) refl) few ready)
                (λ s1 (first, (ready1, p), c_new).
                  Total-map
                    (λ s'. (new : List ℕ) × Adds bb grey (first ++ done) s1 s' new × MarksAll ss s')
                    _ _
                    (dfs_succs-Adds n visit v bb grey ss (first ++ done) s1 (λ u i. sub u (inr i))
                      (omega (arith, p.fewer)) ready1)
                    (λ s' (second, (ready2, q), all). (
                      second ++ first,
                      (
                        rw (append_assoc second first done) ready2,
                        Part-append succs addrs mark bb s s1 s' first second
                            (Part-from succs addrs mark bb c s s1 first (go stay c_succ) p) q,
                      ),
                      λ u i. elim i [
                        | inl e ↦
                            subst (λ x. marked mark s'.ir x ≡ true) e (q.old c (p.now c c_new))
                        | inr j ↦ all u j
                      ],
                    ))))
      ]

  dfs-unfold :
      (n bb : ℕ) (s : Rpo) (b : BasicBlock)
      → s.ir.bbs bb ≡ some b
      → b.succs ≡ succs bb
      → dfs (suc n) mark bb s ≡ (
          dfs_succs (dfs n mark) mark (succs bb) (record s { ir = with_mark mark s.ir bb b })
          >>= λ s'. place s' bb)
  unfolding dfs mark_bb
  dfs-unfold n bb s b there ss = rw (there, ==_refl bb, ss) refl

  -- The block itself stands before what its visit adds.
  whole-Part :
      (bb : ℕ) (s s2 : Rpo) (b : BasicBlock) (new : List ℕ) (s3 : Rpo)
      → s3.ir ≡ s2.ir
      → In bb addrs
      → marked mark s.ir bb ≡ false
      → Part succs addrs mark bb (record s { ir = with_mark mark s.ir bb b }) s2 new
      → MarksAll (succs bb) s2
      → Part succs addrs mark bb s s3 (bb ∷ new)
  whole-Part bb s s2 b new s3 same i f p all =
      let self = marked_self mark s.ir bb b in
      let less = unmarked-mark mark s.ir bb b addrs distinct i f in
      record {
        old = λ a h. rw same (p.old a (marked-old mark s.ir bb b a h));
        only = λ a h. elim (p.only a (rw same at h)) [
          | inr j ↦ inr (inr j)
          | inl m ↦ elim (marked-only mark s.ir bb b a m) [ inl e ↦ inr (inl e) | inr m' ↦ inl m' ]
        ];
        fresh = λ a j. elim j [
          | inl e ↦ subst (λ x. marked mark s.ir x ≡ false) e f
          | inr k ↦ before a (p.fresh a k)
        ];
        now = λ a j. elim j [
          | inl e ↦ rw same (subst (λ x. marked mark s2.ir x ≡ true) e (p.old bb self))
          | inr k ↦ rw same (p.now a k)
        ];
        distinct = (NotIn-of bb new (λ k. clash self (p.fresh bb k)), p.distinct);
        from = λ a j. elim j [ inl e ↦ subst (Leads succs bb) e stay | inr k ↦ p.from a k ];
        edges = λ u v j e. elim j [
          | inl at_u ↦
              let edge : In v (succs bb) = subst (λ x. In v (succs x)) (sym at_u) e in
              elim (p.only v (all v edge)) [
                | inr k ↦ inr (inl (inl (at_u, k)))
                | inl m ↦ elim (marked-only mark s.ir bb b v m) [
                  | inl at_v ↦
                      inr
                        (inr (subst (Leads succs v) at_u (subst (λ x. Leads succs x bb) at_v stay)))
                  | inr m' ↦ inl m'
                ]
              ]
          | inr k ↦ elim (p.edges u v k e) [
            | inl m ↦ elim (marked-only mark s.ir bb b v m) [
              | inl at_v ↦ inr (inr (subst (λ x. Leads succs x u) at_v (p.from u k)))
              | inr m' ↦ inl m'
            ]
            | inr (inl a) ↦ inr (inl (inr a))
            | inr (inr l) ↦ inr (inr l)
          ]
        ];
        closed = λ u v j e. elim j [
          | inl at_u ↦ rw same (all v (subst (λ x. In v (succs x)) (sym at_u) e))
          | inr k ↦ rw same (p.closed u v k e)
        ];
        fewer = rw same (omega (arith, p.fewer, less));
      }
    where
      clash : {x : Bool} → x ≡ true → x ≡ false → ⊥
      clash h k = cc

      before :
          (a : ℕ) → marked mark (with_mark mark s.ir bb b) a ≡ false → marked mark s.ir a ≡ false
      before a g = elim (Bool-cases (marked mark s.ir a)) [
        | inr e ↦ e
        | inl e ↦ elim (clash (marked-old mark s.ir bb b a e) g) [ ]
      ]

  pub dfs-Visits : (n : ℕ) → Visits n (dfs n mark)
  dfs-Visits zero bb grey done s i f few ready =
      let (b, there, _) = ready.blocks.block bb i in
      let less = unmarked-mark mark s.ir bb b addrs distinct i f in
      let impossible : ⊥ = omega (arith, less, few) in elim impossible [ ]
  dfs-Visits (suc n) bb grey done s i f few ready =
      let (b, there, ss) = ready.blocks.block bb i in
      let s1 : Rpo = record s { ir = with_mark mark s.ir bb b } in
      let less = unmarked-mark mark s.ir bb b addrs distinct i f in
      let ready1 : Ready succs addrs mark (grey + 1) done s1 = record {
        blocks = Blocks-mark succs addrs mark s.ir bb b there ready.blocks;
        room = omega (arith, ready.room, less);
        filled = ready.filled;
      } in
      rw (dfs-unfold n bb s b there ss) (
        Total-bind
          (λ s2. (new : List ℕ) × Adds bb (grey + 1) done s1 s2 new × MarksAll (succs bb) s2) _ _ _
          (dfs_succs-Adds n (dfs n mark) (dfs-Visits n) bb (grey + 1) (succs bb) done s1
            (λ v j. (j, ready.blocks.closed bb v i j)) (omega (arith, less, few)) ready1)
          (λ s2 (new, (ready2, p), all).
            let k = unmarked mark s2.ir addrs + grey in
            let at_k : s2.idx ≡ suc k = omega (arith, ready2.room) in
            let filled : s2.rpo ≡ nulls (suc k) ++ somes (new ++ done) = rw at_k at ready2.filled in
            rw (place-eq s2 k (new ++ done) bb at_k filled) (
              bb ∷ new,
              (
                record { blocks = ready2.blocks; room = refl; filled = refl },
                whole-Part bb s s2 b new
                    (record s2 { rpo = nulls k ++ somes (bb ∷ new ++ done); idx = k }) refl i f p
                    all,
              ),
              inl refl,
            )))
