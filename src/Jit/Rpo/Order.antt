-- ===== src/Jit/Rpo/Order.antt =====
-- BuildRPO: the order of the blocks that jit/ir/graph/analyses/rpo.h gives.
use k3s_virtual_machine.Base.{
  ℕ, ◌+◌, ◌-◌, ◌≤◌, ◌<◌, ◌≡◌, refl, sym, ap, ◌∙◌, ◌⊎◌, inl, inr, Bool, true, false, List, [], ◌∷◌,
  ◌++◌, append-nil, arith, ok, In, Distinct, length, Total-ok, ltb, u32_mod,
}
use k3s_virtual_machine.Jit.Graph.{Ir, Graph, get_blocks_count, get_entry_block, new_marker}
use k3s_virtual_machine.Jit.Rpo.{Rpo, dfs, build_rpo, nulls}
use k3s_virtual_machine.Jit.Rpo.Marks.{marked, unmarked, Blocks, somes}
use k3s_virtual_machine.Jit.Rpo.Part.{Leads, stay, go, After, Ready, Part}
use k3s_virtual_machine.Jit.Rpo.Search.{dfs-Visits}

-- A graph with its blocks and their successors, all reached from the entry, none with the next mark.
pub record IsGraph (succs : ℕ → List ℕ) (addrs : List ℕ) (entry : ℕ) (g : Graph) (ir : Ir)
    : Type 0 where
  pub distinct : Distinct addrs
  pub blocks : Blocks succs addrs ir
  pub count : get_blocks_count g.blocks ≡ length addrs
  pub first : get_entry_block g ir ≡ ok entry
  pub entry_in : In entry addrs
  pub marks_left : g.marker + 1 < u32_mod
  pub fresh : (a : ℕ) → In a addrs → marked (g.marker + 1) ir a ≡ false
  pub reached : (a : ℕ) → In a addrs → Leads succs entry a

-- An order of all blocks, each once, in which every edge that is on no cycle leads forward.
pub record IsReversePostOrder (succs : ℕ → List ℕ) (addrs l : List ℕ) : Type 0 where
  pub once : Distinct l
  pub all : (a : ℕ) → In a addrs → In a l
  pub only : (a : ℕ) → In a l → In a addrs
  pub forward : (u v : ℕ) → In u addrs → In v (succs u) → After l u v ⊎ Leads succs v u

unmarked-all :
    (mark : ℕ) (ir : Ir) (addrs : List ℕ)
    → ((a : ℕ) → In a addrs → marked mark ir a ≡ false)
    → unmarked mark ir addrs ≡ length addrs
unmarked-all mark ir [] f = refl
unmarked-all mark ir (a ∷ l) f =
    rw (f a (inl refl), unmarked-all mark ir l (λ c i. f c (inr i))) (omega arith)

unmarked-none :
    (mark : ℕ) (ir : Ir) (addrs : List ℕ)
    → ((a : ℕ) → In a addrs → marked mark ir a ≡ true)
    → unmarked mark ir addrs ≡ 0
unmarked-none mark ir [] f = refl
unmarked-none mark ir (a ∷ l) f =
    rw (f a (inl refl), unmarked-none mark ir l (λ c i. f c (inr i))) refl

Leads-induction :
    {succs : ℕ → List ℕ} {entry a : ℕ} (Q : ℕ → Type 0)
    → Q entry
    → ((u v : ℕ) → Q u → In v (succs u) → Q v)
    → Leads succs entry a
    → Q a
Leads-induction Q q step stay = q
Leads-induction Q q step (go path e) = step _ _ (Leads-induction Q q step path) e

clash : {b : Bool} → b ≡ true → b ≡ false → ⊥
clash h k = cc

-- For a graph whose blocks are all reached from its entry, none with the mark that comes next, and
-- fuel for all of them, the RPO constructor returns an order that holds every block of the graph
-- exactly once, in which each edge leads to a later block, except where its end leads back to its
-- beginning along a cycle.
pub build_rpo-IsReversePostOrder :
    (n : ℕ) (succs : ℕ → List ℕ) (addrs : List ℕ) (entry : ℕ) (g : Graph) (ir : Ir)
    → length addrs ≤ n
    → IsGraph succs addrs entry g ir
    → (l : List ℕ) × (end : Graph × Ir) × (build_rpo n g ir ≡ ok (somes l, end))
      × IsReversePostOrder succs addrs l
unfolding build_rpo new_marker get_entry_block
build_rpo-IsReversePostOrder n succs addrs entry g ir enough h =
    let mark = g.marker + 1 in
    let count = unmarked-all mark ir addrs h.fresh in
    let size = length addrs in
    let s : Rpo = record { ir = ir; rpo = nulls size; idx = size } in
    let ready : Ready succs addrs mark 0 [] s = record {
      blocks = h.blocks;
      room = omega (arith, count);
      filled = sym (append-nil (nulls size));
    } in
    let (s', returns, (l, (ready', p), first)) =
      Total-ok
        (λ s'.
          (new : List ℕ) × (Ready succs addrs mark 0 (new ++ []) s'
            × Part succs addrs mark entry s s' new)
          × In entry new)
        (dfs n mark entry s)
        (dfs-Visits succs addrs h.distinct mark n entry 0 [] s h.entry_in (h.fresh entry h.entry_in)
          (omega (arith, count, enough)) ready) in
    let found : (a : ℕ) → Leads succs entry a → In a l × In a addrs = λ a path.
      Leads-induction (λ x. In x l × In x addrs) (first, h.entry_in)
        (λ u v (u_l, u_in) e.
          let v_in = h.blocks.closed u v u_in e in
          (
            elim (p.only v (p.closed u v u_l e)) [
              | inl m ↦ elim (clash m (h.fresh v v_in)) [ ]
              | inr i ↦ i
            ],
            v_in,
          ))
        path in
    let none_left = unmarked-none mark s'.ir addrs (λ a i. p.now a (found a (h.reached a i)).0) in
    let at_end : s'.idx ≡ 0 = omega (arith, ready'.room, none_left) in
    let left : ltb g.marker (u32_mod - 1) ≡ true = ground (arith, h.marks_left) in
    let full : s'.rpo ≡ somes l =
      let filled : s'.rpo ≡ somes (l ++ []) = rw at_end at ready'.filled in
      filled ∙ ap somes (append-nil l) in
    (
      l,
      (record g { marker = mark }, s'.ir),
      rw (left, h.count, h.first, returns, at_end, full) refl,
      record {
        once = p.distinct;
        all = λ a i. (found a (h.reached a i)).0;
        only = λ a i. (found a (p.from a i)).1;
        forward = λ u v i e. elim (p.edges u v (found u (h.reached u i)).0 e) [
          | inl m ↦ elim (clash m (h.fresh v (h.blocks.closed u v i e))) [ ]
          | inr r ↦ r
        ];
      },
    )
