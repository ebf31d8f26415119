-- ===== src/Jit/LinearOrder/Visits.antt =====
-- DFS of jit/ir/graph/analyses/linear_order.h places a block behind its predecessors.
use k3s_virtual_machine.Base.{
  ℕ, zero, suc, ◌≤◌, ◌<◌, ◌≡◌, refl, sym, ap, ◌∙◌, subst, inl, inr, Bool, true, false, ◌&&◌, ◌||◌,
  not, Option, none, some, List, [], ◌∷◌, arith, ◌==◌, ==_iff, ==_refl, Bool-cases, Option-cases,
  In, NotIn, NotIn-of, Distinct, Outcome, ok, ◌>>=◌, from_option, undefined, Settles, Settles-bind,
  Settles-map, Settles-load, Settles-assert, if◌then◌else◌,
}
use k3s_virtual_machine.Jit.Graph.{Ir, BasicBlock, mark_bb, is_marked, ptr_eq, load_bb}
use k3s_virtual_machine.Jit.Dominance.{pointers_eq}
use k3s_virtual_machine.Jit.Rpo.Marks.{
  marked, unmarked, with_mark, marked_self, marked-only, marked-old, unmarked-mark,
}
use k3s_virtual_machine.Jit.Loops.{Loop, Loops}
use k3s_virtual_machine.Jit.LinearOrder.{
  Ordering, counts, get_loop, is_header, preds_marked, all_side_preds_marked, all_back_edges_marked,
  visit_succs, visit_block, order_dfs, assign_life_numbers,
}
use k3s_virtual_machine.Jit.LinearOrder.Numbers.{
  Ends, IsRenumbered, IsAssigned, assign_life_numbers-IsAssigned,
}

abbrev pub placed : List (ℕ × ℕ) → List ℕ
placed [] = []
placed ((b, ln) ∷ l) = b ∷ placed l

-- The loop of a block begins with it.
abbrev pub header_of : Loops → Option ℕ → ℕ → Bool
header_of loops none bb = false
header_of loops (some l) bb = elim (loops l) [ none ↦ false | some k ↦ ptr_eq k.header bb ]

-- The graph as it is during the search: what each block has, and the loops.
pub record Shape : Type 0 where
  pub succs : ℕ → List ℕ
  pub preds : ℕ → List ℕ
  pub loop : ℕ → Option ℕ
  pub loops : Loops

-- A predecessor counts, unless the block is the header of a loop that both are in.
abbrev pub side : Shape → ℕ → ℕ → Bool
side g b p = not (header_of g.loops (g.loop b) b && pointers_eq (g.loop p) (g.loop b))

-- An order, from its back: each block once, behind the predecessors that count, with growing numbers.
abbrev pub IsLinear : Shape → List (ℕ × ℕ) → ℕ → Type 0
IsLinear g [] n = Unit
IsLinear g ((b, ln) ∷ l) n =
    (ln < n)
    × NotIn b (placed l)
    × ((p : ℕ) → In p (g.preds b) → side g b p ≡ true → In p (placed l))
    × IsLinear g l ln

module _ (g : Shape) (addrs : List ℕ) (distinct : Distinct addrs) (mark rounds : ℕ) where
  abbrev pub IsBlock : Ir → ℕ → BasicBlock → Type 0
  IsBlock ir a b =
      (ir.bbs a ≡ some b)
      × (b.succs ≡ g.succs a)
      × (b.preds ≡ g.preds a)
      × (b.loop ≡ g.loop a)
      × Ends rounds ir b.first_phi
      × Ends rounds ir b.first_inst

  pub record IsGraphOf (ir : Ir) : Type 0 where
    pub block : (a : ℕ) → In a addrs → (b : BasicBlock) × IsBlock ir a b
    pub succs_in : (a v : ℕ) → In a addrs → In v (g.succs a) → In v addrs
    pub preds_in : (a v : ℕ) → In a addrs → In v (g.preds a) → In v addrs

  pub record Sound (s : Ordering) : Type 0 where
    pub graph : IsGraphOf s.ir
    pub marks : (a : ℕ) → marked mark s.ir a ≡ true → In a (placed s.linear_order)
    pub placed_marked : (a : ℕ) → In a (placed s.linear_order) → marked mark s.ir a ≡ true
    pub placed_in : (a : ℕ) → In a (placed s.linear_order) → In a addrs
    pub linear : IsLinear g s.linear_order s.life_number

  -- The predecessors that count are marked, if the test says so.
  abbrev PredsMarked : Ir → Option (Option ℕ) → List ℕ → Bool → Type 0
  PredsMarked ir own ps r =
      r ≡ true → (p : ℕ) → In p ps → counts own (g.loop p) ≡ true → marked mark ir p ≡ true

  preds_marked-PredsMarked :
      (ir : Ir) (own : Option (Option ℕ)) (ps : List ℕ)
      → IsGraphOf ir
      → ((p : ℕ) → In p ps → In p addrs)
      → Settles (PredsMarked ir own ps) (preds_marked ir mark own ps)
  unfolding preds_marked is_marked
  preds_marked-PredsMarked ir own [] h sub = λ _ p i. elim i [ ]
  preds_marked-PredsMarked ir own (c ∷ ps) h sub =
      let (b, (there, succs, preds, loop, phis, insts)) = h.block c (sub c (inl refl)) in
      elim (Bool-cases (counts own (g.loop c) && not (b.mark == mark))) [
        | inl stop ↦ rw (there, loop, stop) (λ r. cc)
        | inr goes ↦
            rw (there, loop, goes)
              (Settles-map (PredsMarked ir own ps) (PredsMarked ir own (c ∷ ps))
                (preds_marked ir mark own ps)
                (preds_marked-PredsMarked ir own ps h (λ p i. sub p (inr i)))
                (λ r f at_r p i k. elim i [
                  | inr j ↦ f at_r p j k
                  | inl e ↦
                      let at_c : counts own (g.loop c) ≡ true =
                        subst (λ x. counts own (g.loop x) ≡ true) (sym e) k in
                      let seen : (b.mark == mark) ≡ true = ground (arith, goes, at_c) in
                      subst (λ x. marked mark ir x ≡ true) e (rw there seen)
                ]))
      ]

  -- What `AllSidePredsMarked` says of a block.
  abbrev SideMarked : Ir → ℕ → Bool → Type 0
  SideMarked ir bb r =
      r ≡ true → (p : ℕ) → In p (g.preds bb) → side g bb p ≡ true → marked mark ir p ≡ true

  side-counts :
      (bb p : ℕ)
      → side g bb p ≡ true
      → counts (if header_of g.loops (g.loop bb) bb then some (g.loop bb) else none) (g.loop p)
        ≡ true
  side-counts bb p s = elim (Bool-cases (header_of g.loops (g.loop bb) bb)) [
    | inl e ↦ rw e (rw e at s)
    | inr e ↦ rw e refl
  ]

  side_preds-SideMarked :
      (ir : Ir) (bb : ℕ) (b : BasicBlock)
      → IsGraphOf ir
      → In bb addrs
      → IsBlock ir bb b
      → Settles (SideMarked ir bb) (all_side_preds_marked g.loops ir mark bb b)
  unfolding all_side_preds_marked is_header
  side_preds-SideMarked ir bb b h i (there, succs, preds, loop, phis, insts) =
      elim (Option-cases (g.loop bb)) [
        | inl no_loop ↦ rw (loop, no_loop) (λ e. cc)
        | inr (l, at_loop) ↦ elim (Option-cases (g.loops l)) [
          | inl lost ↦ rw (loop, at_loop, lost) (λ e. cc)
          | inr (k, at_l) ↦
              let own = if header_of g.loops (g.loop bb) bb then some (g.loop bb) else none in
              let call : all_side_preds_marked g.loops ir mark bb b
                  ≡ preds_marked ir mark own (g.preds bb) =
                rw (loop, preds, at_loop) (rw (header_of, at_l) refl) in
              subst (λ o. Settles (SideMarked ir bb) o) (sym call)
                (Settles-map (PredsMarked ir own (g.preds bb)) (SideMarked ir bb)
                  (preds_marked ir mark own (g.preds bb))
                  (preds_marked-PredsMarked ir own (g.preds bb) h (λ p. h.preds_in bb p i))
                  (λ r f at_r p j s. f at_r p j (side-counts bb p s)))
        ]
      ]

  -- What a part of the search keeps, and that no mark is lost.
  abbrev pub Grows : Ordering → Ordering → Type 0
  Grows s s' = Sound s' × (unmarked mark s'.ir addrs ≤ unmarked mark s.ir addrs)

  abbrev pub Visits : ℕ → (ℕ → Ordering → Outcome Ordering) → Type 0
  Visits n visit =
      (bb : ℕ) (s : Ordering)
      → In bb addrs
      → marked mark s.ir bb ≡ false
      → unmarked mark s.ir addrs ≤ n
      → Sound s
      → Settles (Grows s) (visit bb s)

  visit_succs-Grows :
      (n : ℕ) (visit : ℕ → Ordering → Outcome Ordering) (outer : Option ℕ) (inside : Bool)
      (ss : List ℕ) (s : Ordering)
      → Visits n visit
      → ((v : ℕ) → In v ss → In v addrs)
      → unmarked mark s.ir addrs ≤ n
      → Sound s
      → Settles (Grows s) (visit_succs visit mark outer inside ss s)
  unfolding visit_succs is_marked
  visit_succs-Grows n visit outer inside [] s v sub few h = (h, omega arith)
  visit_succs-Grows n visit outer inside (c ∷ ss) s v sub few h =
      let (b, (there, succs, preds, loop, phis, insts)) = h.graph.block c (sub c (inl refl)) in
      let same = pointers_eq b.loop outer in
      let chosen = if inside then same else not same in
      let step : Settles (Grows s) (if chosen && not (b.mark == mark) then visit c s else ok s) =
        elim (Bool-cases (chosen && not (b.mark == mark))) [
          | inr passed ↦ rw passed (h, omega arith)
          | inl taken ↦
              let fresh : (b.mark == mark) ≡ false = ground (arith, taken) in
              rw taken (v c s (sub c (inl refl)) (rw there fresh) few h)
        ] in
      rw there (
        Settles-bind (Grows s) (Grows s) _ _ step (λ s1 (h1, fewer).
          Settles-map (Grows s1) (Grows s) (visit_succs visit mark outer inside ss s1)
            (visit_succs-Grows n visit outer inside ss s1 v (λ u i. sub u (inr i))
              (omega (arith, few, fewer)) h1)
            (λ s2 (h2, fewer2). (h2, omega (arith, fewer, fewer2)))))

  all_back_edges_Settles :
      (ir : Ir) (edges : List ℕ)
      → Settles (λ (_ : Bool). Unit) (all_back_edges_marked ir mark edges)
  unfolding all_back_edges_marked is_marked
  all_back_edges_Settles ir [] = tt
  all_back_edges_Settles ir (c ∷ edges) =
      Settles-load (λ (_ : Bool). Unit) (ir.bbs c) _
        (λ b there. elim (Bool-cases (b.mark == mark)) [
          | inl e ↦ rw e (all_back_edges_Settles ir edges)
          | inr e ↦ rw e tt
        ])

  Ends-mark :
      (ir : Ir) (a : ℕ) (b : BasicBlock) (n : ℕ) (first : Option ℕ)
      → Ends n ir first
      → Ends n (with_mark mark ir a b) first
  Ends-mark ir a b n none e = tt
  Ends-mark ir a b zero (some i) e = e
  Ends-mark ir a b (suc n) (some i) (o, at_i, rest) = (o, at_i, Ends-mark ir a b n o.next rest)

  unmarked-bbs :
      (ir ir' : Ir) (l : List ℕ) → ir'.bbs ≡ ir.bbs → unmarked mark ir' l ≡ unmarked mark ir l
  unmarked-bbs ir ir' [] e = refl
  unmarked-bbs ir ir' (c ∷ l) e = rw (e, unmarked-bbs ir ir' l e) refl

  block_eq : {x y : BasicBlock} → some x ≡ some y → x ≡ y
  block_eq h = cc

  IsGraphOf-assigned :
      (ir ir' : Ir) (bb : ℕ) (b : BasicBlock)
      → IsGraphOf ir
      → ir.bbs bb ≡ some b
      → IsRenumbered (with_mark mark ir bb b) ir'
      → IsGraphOf ir'
  IsGraphOf-assigned ir ir' bb b h there r = record {
    succs_in = h.succs_in;
    preds_in = h.preds_in;
    block = λ c i.
        let (x, (at_c, succs, preds, loop, phis, insts)) = h.block c i in
        let ends : (first : Option ℕ) → Ends rounds ir first → Ends rounds ir' first =
          λ first e. r.ends rounds first (Ends-mark ir bb b rounds first e) in
        elim (Bool-cases (bb == c)) [
          | inr other ↦ (
            x,
            (
              rw (r.bbs, other) at_c,
              succs,
              preds,
              loop,
              ends x.first_phi phis,
              ends x.first_inst insts,
            ),
          )
          | inl same ↦
              let at_same : ir.bbs bb ≡ some x =
                subst (λ k. ir.bbs k ≡ some x) (sym ((==_iff bb c).0 same)) at_c in
              let eq : b ≡ x = block_eq (sym there ∙ at_same) in
              (
                record b { mark = mark },
                (
                  rw (r.bbs, same) refl,
                  ap (λ (k : BasicBlock). k.succs) eq ∙ succs,
                  ap (λ (k : BasicBlock). k.preds) eq ∙ preds,
                  ap (λ (k : BasicBlock). k.loop) eq ∙ loop,
                  ends b.first_phi
                      (subst (λ (k : BasicBlock). Ends rounds ir k.first_phi) (sym eq) phis),
                  ends b.first_inst
                      (subst (λ (k : BasicBlock). Ends rounds ir k.first_inst) (sym eq) insts),
                ),
              )
        ];
  }

  -- A block is marked and placed.
  place_block :
      (s s1 : Ordering) (bb : ℕ) (b : BasicBlock)
      → Sound s
      → In bb addrs
      → s.ir.bbs bb ≡ some b
      → marked mark s.ir bb ≡ false
      → ((p : ℕ) → In p (g.preds bb) → side g bb p ≡ true → marked mark s.ir p ≡ true)
      → IsAssigned (record s { ir = with_mark mark s.ir bb b }) bb s1
      → Sound s1 × (suc (unmarked mark s1.ir addrs) ≡ unmarked mark s.ir addrs)
  place_block s s1 bb b h i there fresh ready a =
      let w = with_mark mark s.ir bb b in
      let now : (c : ℕ) → marked mark s1.ir c ≡ marked mark w c = λ c. rw a.renumbered.bbs refl in
      let fewer : suc (unmarked mark s1.ir addrs) ≡ unmarked mark s.ir addrs =
        ap suc (unmarked-bbs w s1.ir addrs a.renumbered.bbs)
        ∙ unmarked-mark mark s.ir bb b addrs distinct i fresh in
      (
        record {
          graph = IsGraphOf-assigned s.ir s1.ir bb b h.graph there a.renumbered;
          marks = λ c m. rw a.placed (elim (marked-only mark s.ir bb b c (sym (now c) ∙ m)) [
            | inl e ↦ inl e
            | inr k ↦ inr (h.marks c k)
          ]);
          placed_marked = λ c j. now c ∙ (elim (rw a.placed at j) [
            | inl e ↦ subst (λ x. marked mark w x ≡ true) e (marked_self mark s.ir bb b)
            | inr k ↦ marked-old mark s.ir bb b c (h.placed_marked c k)
          ]);
          placed_in = λ c j. elim (rw a.placed at j) [
            | inl e ↦ subst (λ x. In x addrs) e i
            | inr k ↦ h.placed_in c k
          ];
          linear = rw a.placed (
            a.later,
            NotIn-of bb (placed s.linear_order)
                (λ j. let clash : true ≡ false = sym (h.placed_marked bb j) ∙ fresh in cc),
            (λ p j k. h.marks p (ready p j k)),
            h.linear,
          );
        },
        fewer,
      )

  lookup_Settles : {A : Type 0} (o : Option A) → Settles (λ (_ : A). Unit) (from_option undefined o)
  lookup_Settles none = λ h. cc
  lookup_Settles (some a) = tt

  header_Settles :
      (ir : Ir) (root : Bool) (l : Loop)
      → Settles
          (λ (_ : Bool). Unit)
          (if root then ok true else (do
            header ← from_option undefined l.header
            hb ← load_bb ir header
            ok (is_marked hb mark || not l.reducible)))
  header_Settles ir true l = tt
  header_Settles ir false l =
      Settles-load (λ (_ : Bool). Unit) l.header _
        (λ h there. Settles-load (λ (_ : Bool). Unit) (ir.bbs h) _ (λ b at_h. tt))

  visit_block-Grows :
      (n : ℕ) (visit : ℕ → Ordering → Outcome Ordering) (root_loop : Option ℕ) (bb : ℕ)
      (s : Ordering)
      → Visits n visit
      → In bb addrs
      → marked mark s.ir bb ≡ false
      → unmarked mark s.ir addrs ≤ suc n
      → Sound s
      → ((p : ℕ) → In p (g.preds bb) → side g bb p ≡ true → marked mark s.ir p ≡ true)
      → Settles (Grows s) (visit_block visit rounds g.loops root_loop mark bb s)
  unfolding visit_block mark_bb is_marked
  visit_block-Grows n visit root_loop bb s v i fresh few h ready =
      let (b, (there, succs, preds, loop, phis, insts)) = h.graph.block bb i in
      let s0 : Ordering = record s { ir = with_mark mark s.ir bb b } in
      rw there (
        Settles-bind (IsAssigned s0 bb) (Grows s) (assign_life_numbers rounds s0 bb) _
          (assign_life_numbers-IsAssigned rounds s0 bb (record b { mark = mark })
            (rw (==_refl bb) refl) (Ends-mark s.ir bb b rounds b.first_phi phis)
            (Ends-mark s.ir bb b rounds b.first_inst insts))
          (λ s1 a.
            let (h1, fewer) = place_block s s1 bb b h i there fresh ready a in
            let (b1, (there1, succs1, preds1, loop1, phis1, insts1)) = h1.graph.block bb i in
            let inside : (x : ℕ) → In x b1.succs → In x addrs =
              λ x j. h.graph.succs_in bb x i (subst (In x) succs1 j) in
            rw there1 (
              Settles-bind (λ (_ : Loop). Unit) (Grows s) (get_loop g.loops b1) _
                (Settles-load (λ (_ : Loop). Unit) b1.loop _ (λ l at_l. lookup_Settles (g.loops l)))
                (λ loop' _.
                  Settles-bind (λ (_ : Bool). Unit) (Grows s) _ _
                    (header_Settles s1.ir (pointers_eq root_loop b1.loop) loop')
                    (λ allowed _. Settles-assert (Grows s) allowed _ (λ _.
                      Settles-bind (Grows s1) (Grows s)
                        (visit_succs visit mark loop'.outer false b1.succs s1) _
                        (visit_succs-Grows n visit loop'.outer false b1.succs s1 v inside
                          (omega (arith, few, fewer)) h1)
                        (λ s2 (h2, fewer2).
                          Settles-bind (λ (_ : Bool). Unit) (Grows s)
                            (all_back_edges_marked s2.ir mark loop'.back_edges) _
                            (all_back_edges_Settles s2.ir loop'.back_edges)
                            (λ closed _. Settles-assert (Grows s) closed _ (λ _.
                              Settles-map (Grows s2) (Grows s)
                                (visit_succs visit mark loop'.outer true b1.succs s2)
                                (visit_succs-Grows n visit loop'.outer true b1.succs s2 v inside
                                  (omega (arith, few, fewer, fewer2)) h2)
                                (λ s3 (h3, fewer3).
                                  (h3, omega (arith, fewer, fewer2, fewer3))))))))))))

  -- With fuel for all blocks without a mark, the visit of one of them ends and keeps the order.
  pub order_dfs-Visits :
      (n : ℕ) (root_loop : Option ℕ) → Visits n (order_dfs n rounds g.loops root_loop mark)
  unfolding order_dfs
  order_dfs-Visits zero root_loop bb s i fresh few h =
      let (b, (there, succs, preds, loop, phis, insts)) = h.graph.block bb i in
      let less = unmarked-mark mark s.ir bb b addrs distinct i fresh in
      let impossible : ⊥ = omega (arith, less, few) in elim impossible [ ]
  order_dfs-Visits (suc n) root_loop bb s i fresh few h =
      let (b, (there, succs, preds, loop, phis, insts)) = h.graph.block bb i in
      rw there (
        Settles-bind (SideMarked s.ir bb) (Grows s) (all_side_preds_marked g.loops s.ir mark bb b) _
          (side_preds-SideMarked s.ir bb b h.graph i (there, succs, preds, loop, phis, insts))
          (λ ready f. elim (Bool-cases ready) [
            | inr no_visit ↦ rw no_visit (h, omega arith)
            | inl all ↦ rw all (
                visit_block-Grows n (order_dfs n rounds g.loops root_loop mark) root_loop bb s
                  (order_dfs-Visits n root_loop) i fresh few h (f all))
          ]))
