-- ===== src/Jit/Graph/PushBack.antt =====
-- PushBack of jit/ir/graph/basic_block.h appends to the list of a block's instructions.
use k3s_virtual_machine.Base.{
  ℕ, ◌≡◌, refl, sym, ◌∙◌, inl, inr, false, Option, none, some, List, [], ◌∷◌, ◌++◌, ok, update,
  NotIn, Distinct, NotIn-append, snoc_cases, append-Distinct, Apart,
}
use k3s_virtual_machine.Jit.Graph.{Ir, Inst, BasicBlock, is_phi}
use k3s_virtual_machine.Jit.Graph.Block.{push_back, init_empty_block, is_empty}
use k3s_virtual_machine.Jit.Graph.Chain.{
  Holds, Elsewhere, IsRelinked, IsRelinked-trans, write-IsRelinked, write_bb-IsRelinked, head_of,
  update-eq, update-ne, Linked-update, Linked-append, append-Linked, relink_last, last_of-append,
}

-- A new instruction, in no block.
pub record IsLoose (ir : Ir) (i : ℕ) : Type 0 where
  pub inst : Inst
  pub there : ir.insts i ≡ some inst
  pub no_block : inst.bb ≡ none
  pub no_prev : inst.prev ≡ none
  pub no_next : inst.next ≡ none
  pub plain : is_phi inst ≡ false

Distinct-snoc : (l : List ℕ) (i : ℕ) → NotIn i l → Distinct l → Distinct (l ++ i ∷ [])
Distinct-snoc l i out d = append-Distinct l (i ∷ []) d (tt, tt) (apart l out)
  where
    apart : (xs : List ℕ) → NotIn i xs → Apart xs (i ∷ [])
    apart [] n = tt
    apart (x ∷ xs) (n, ns) = ((λ e. n (sym e), tt), apart xs ns)

-- The list with an item at its end is not empty, and that item is not before.
pub head_some : (ys : List ℕ) (p : ℕ) → (first : ℕ) × (head_of none (ys ++ p ∷ []) ≡ some first)
head_some [] p = (p, refl)
head_some (y ∷ ys) p = (y, refl)

head_of-front :
    (ys : List ℕ) (p : ℕ) (zs : List ℕ)
    → head_of none ((ys ++ p ∷ []) ++ zs) ≡ head_of none (ys ++ p ∷ [])
head_of-front [] p zs = refl
head_of-front (y ∷ ys) p zs = refl

pub last_out : (ys : List ℕ) (p : ℕ) → Distinct (ys ++ p ∷ []) → NotIn p ys
last_out [] p d = tt
last_out (y ∷ ys) p (n, d) =
    let (_, (ne, _)) = NotIn-append y ys (p ∷ []) n in ((λ e. ne (sym e)), last_out ys p d)

is_empty-some :
    {first last : Option ℕ} {a b : ℕ}
    → first ≡ some a
    → last ≡ some b
    → is_empty first last ≡ ok false
unfolding is_empty
is_empty-some e f = rw (e, f) refl

push_first :
    (ir : Ir) (b i : ℕ)
    → Holds ir b []
    → IsLoose ir i
    → (ir' : Ir) × (push_back ir b i ≡ ok ir')
      × Holds ir' b (i ∷ [])
      × Elsewhere ir ir' b (i ∷ [])
      × IsRelinked ir ir'
unfolding push_back init_empty_block is_empty
push_first ir b i h new =
    let block' : BasicBlock = record h.block { first_inst = some i; last_inst = some i } in
    let inst' : Inst = record new.inst { bb = some b } in
    let ir' : Ir = record ir {
      insts = update ir.insts i (some inst');
      bbs = update ir.bbs b (some block');
    } in
    (
      ir',
      rw (new.there, new.plain, new.no_block, h.there, h.first, h.last) refl,
      record {
        block = block';
        there = update-eq ir.bbs b _;
        first = refl;
        last = refl;
        linked = (
          record {
            inst = inst';
            there = update-eq ir.insts i _;
            in_block = refl;
            prev = new.no_prev;
            next = new.no_next;
            plain = new.plain;
          },
          tt,
        );
        distinct = (tt, tt);
      },
      (λ a (n, _). update-ne ir.insts i a _ n, λ c n. update-ne ir.bbs b c _ (λ e. n (sym e))),
      IsRelinked-trans (write-IsRelinked ir i new.inst inst' new.there refl) (
          write_bb-IsRelinked (record ir { insts = update ir.insts i (some inst') }) b h.block
            block' h.there refl),
    )

push_behind :
    (ir : Ir) (b : ℕ) (ys : List ℕ) (p i : ℕ)
    → Holds ir b (ys ++ p ∷ [])
    → IsLoose ir i
    → NotIn i (ys ++ p ∷ [])
    → (ir' : Ir) × (push_back ir b i ≡ ok ir')
      × Holds ir' b ((ys ++ p ∷ []) ++ i ∷ [])
      × Elsewhere ir ir' b ((ys ++ p ∷ []) ++ i ∷ [])
      × IsRelinked ir ir'
unfolding push_back
push_behind ir b ys p i h new out =
    let (first, some_first) = head_some ys p in
    let last : h.block.last_inst ≡ some p = h.last ∙ last_of-append none ys (p ∷ []) in
    let (_, (q, _)) = append-Linked b ir.insts none none ys (p ∷ []) h.linked in
    let (_, (apart, _)) = NotIn-append i ys (p ∷ []) out in
    let p' : Inst = record q.inst { next = some i } in
    let insts1 : ℕ → Option Inst = update ir.insts p (some p') in
    let i_there : insts1 i ≡ some new.inst = update-ne ir.insts p i _ apart ∙ new.there in
    let i' : Inst = record new.inst { prev = some p; bb = some b } in
    let block' : BasicBlock = record h.block { last_inst = some i } in
    let ir' : Ir = record ir {
      insts = update insts1 i (some i');
      bbs = update ir.bbs b (some block');
    } in
    let relinked =
      relink_last b ir.insts none none ys p q.inst (some i) q.there (last_out ys p h.distinct)
        h.linked in
    (
      ir',
      rw
          (
            new.there,
            new.plain,
            new.no_block,
            h.there,
            is_empty-some (h.first ∙ some_first) last,
            last,
            q.there,
            i_there,
            h.there,
          )
          refl,
      record {
        block = block';
        there = update-eq ir.bbs b _;
        first = h.first ∙ sym (head_of-front ys p (i ∷ []));
        last = sym (last_of-append none (ys ++ p ∷ []) (i ∷ []));
        linked =
            Linked-append b _ none none (ys ++ p ∷ []) (i ∷ [])
              (Linked-update b insts1 none (some i) i _ (ys ++ p ∷ []) out relinked)
              (
                record {
                  inst = i';
                  there = update-eq insts1 i _;
                  in_block = refl;
                  prev = sym (last_of-append none ys (p ∷ []));
                  next = new.no_next;
                  plain = new.plain;
                },
                tt,
              );
        distinct = Distinct-snoc (ys ++ p ∷ []) i out h.distinct;
      },
      (
        λ a n.
            let (n1, (ni, _)) = NotIn-append a (ys ++ p ∷ []) (i ∷ []) n in
            let (_, (np, _)) = NotIn-append a ys (p ∷ []) n1 in
            update-ne insts1 i a _ ni ∙ update-ne ir.insts p a _ np,
        λ c n. update-ne ir.bbs b c _ (λ e. n (sym e)),
      ),
      IsRelinked-trans (write-IsRelinked ir p q.inst p' q.there refl) (
          IsRelinked-trans
            (write-IsRelinked (record ir { insts = insts1 }) i new.inst i' i_there refl)
            (write_bb-IsRelinked (record ir { insts = update insts1 i (some i') }) b h.block block'
              h.there refl)),
    )

-- When the pointers of a block lead through a list of instructions in both directions, PushBack of
-- a new instruction that is no phi and in no block succeeds and leaves the pointers leading
-- through the list with the new one at its end. No other block and no instruction but these and
-- the new one changes; in these only the pointers prev, next and bb change, and in the block only
-- the pointers to the first and the last instruction.
pub push_back-Holds :
    (ir : Ir) (b i : ℕ) (l : List ℕ)
    → Holds ir b l
    → IsLoose ir i
    → NotIn i l
    → (ir' : Ir) × (push_back ir b i ≡ ok ir')
      × Holds ir' b (l ++ i ∷ [])
      × Elsewhere ir ir' b (l ++ i ∷ [])
      × IsRelinked ir ir'
push_back-Holds ir b i l h new out = elim (snoc_cases l) [
  | inl e ↦ rw e (push_first ir b i (rw e at h) new)
  | inr (ys, p, e) ↦ rw e (push_behind ir b ys p i (rw e at h) new (rw e at out))
]
