-- ===== src/Jit/LinearOrder/Order.antt =====
-- BuildLinearOrder: the order that the constructor of jit/ir/graph/analyses/linear_order.h gives.
use k3s_virtual_machine.Base.{
  ℕ, ◌+◌, ◌-◌, ◌≤◌, ◌<◌, ◌≡◌, refl, sym, ◌∙◌, true, false, Option, none, List, [], ◌∷◌, reverse,
  arith, In, Distinct, length, ltb, ◌==◌, ==_iff, ok, Settles, Settles-bind, Settles-assert,
  u32_mod,
}
use k3s_virtual_machine.Jit.Graph.{Ir, Graph, get_blocks_count, get_entry_block, new_marker}
use k3s_virtual_machine.Jit.Rpo.Marks.{marked, unmarked}
use k3s_virtual_machine.Jit.LinearOrder.{Ordering, elements, order_dfs, build_linear_order}
use k3s_virtual_machine.Jit.LinearOrder.Visits.{
  Shape, IsLinear, IsGraphOf, Sound, Grows, placed, order_dfs-Visits,
}

-- A graph with its blocks and its entry, none with the next mark; the lists of instructions end.
pub record IsOrderable (g : Shape) (addrs : List ℕ) (entry rounds : ℕ) (graph : Graph) (ir : Ir)
    : Type 0 where
  pub distinct : Distinct addrs
  pub blocks : IsGraphOf g addrs distinct (graph.marker + 1) rounds ir
  pub count : get_blocks_count graph.blocks ≡ length addrs
  pub first : get_entry_block graph ir ≡ ok entry
  pub entry_in : In entry addrs
  pub marks_left : graph.marker + 1 < u32_mod
  pub fresh : (a : ℕ) → marked (graph.marker + 1) ir a ≡ false

unmarked_few : (mark : ℕ) (ir : Ir) (addrs : List ℕ) → unmarked mark ir addrs ≤ length addrs
unmarked_few mark ir [] = omega arith
unmarked_few mark ir (a ∷ l) = ground (arith, unmarked_few mark ir l)

-- What the constructor returns: the end element with the last number, and before it an order of as many
-- blocks as there are.
abbrev pub IsLinearOrder : Shape → List ℕ → List (Option ℕ × ℕ) × (ℕ × (Graph × Ir)) → Type 0
IsLinearOrder g addrs r =
    (l : List (ℕ × ℕ)) × (r.0 ≡ reverse ((none, r.1.0) ∷ elements l))
    × IsLinear g l r.1.0
    × ((a : ℕ) → In a (placed l) → In a addrs)
    × (length l ≡ length addrs)

-- For a graph whose blocks have their successors and predecessors among them, none with the mark
-- that comes next, with instruction lists that end within the rounds given and fuel for all
-- blocks, the LinearOrder constructor ends, and unless it fails, with an assertion or a null
-- pointer, it returns an order of as many blocks as there are: each once, behind all its
-- predecessors (for the header of a loop, behind those of other loops), with life numbers that
-- grow strictly, and last the null block with a greater number than all.
pub build_linear_order-IsLinearOrder :
    (g : Shape) (addrs : List ℕ) (entry n rounds : ℕ) (root_loop : Option ℕ) (graph : Graph)
    (ir : Ir)
    → length addrs ≤ n
    → IsOrderable g addrs entry rounds graph ir
    → Settles (IsLinearOrder g addrs) (build_linear_order n rounds g.loops root_loop graph ir)
unfolding build_linear_order new_marker get_entry_block
build_linear_order-IsLinearOrder g addrs entry n rounds root_loop graph ir enough h =
    let mark = graph.marker + 1 in
    let s : Ordering = record { ir = ir; linear_order = []; life_number = 0 } in
    let left : ltb graph.marker (u32_mod - 1) ≡ true = ground (arith, h.marks_left) in
    let few = unmarked_few mark ir addrs in
    let start : Sound g addrs h.distinct mark rounds s = record {
      graph = h.blocks;
      marks = λ a m. let clash : true ≡ false = sym m ∙ h.fresh a in cc;
      placed_marked = λ a i. elim i [ ];
      placed_in = λ a i. elim i [ ];
      linear = tt;
    } in
    rw (left, h.first)
      (Settles-bind (Grows g addrs h.distinct mark rounds s) (IsLinearOrder g addrs)
        (order_dfs n rounds g.loops root_loop mark entry s) _
        (order_dfs-Visits g addrs h.distinct mark rounds n root_loop entry s h.entry_in
          (h.fresh entry) (omega (arith, few, enough)) start)
        (λ s' (sound, fewer).
          Settles-assert (IsLinearOrder g addrs)
            (get_blocks_count graph.blocks == length s'.linear_order) _
            (λ all.
              let size = (==_iff (get_blocks_count graph.blocks) (length s'.linear_order)).0 all in
              (s'.linear_order, refl, sound.linear, sound.placed_in, sym size ∙ h.count))))
