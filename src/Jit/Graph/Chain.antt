-- ===== src/Jit/Graph/Chain.antt =====
-- The instructions of a block (jit/ir/graph/basic_block.h) as a list: the `prev` and `next` pointers
-- lead through it in both directions.
use mathlib.Core.Option.{map}
use k3s_virtual_machine.Base.{
  ℕ, ◌≡◌, ◌≢◌, refl, sym, ap, ◌∙◌, subst, inl, inr, false, Option, none, some, List, [], ◌∷◌, ◌++◌,
  arith, ◌==◌, ==_iff, ==_refl, update, In, NotIn, Distinct, In-ne, Bool-cases,
}
use k3s_virtual_machine.Jit.Graph.{Ir, Inst, BasicBlock, is_phi}

abbrev pub head_of : Option ℕ → List ℕ → Option ℕ
head_of stop [] = stop
head_of stop (i ∷ l) = some i

abbrev pub last_of : Option ℕ → List ℕ → Option ℕ
last_of start [] = start
last_of start (i ∷ l) = last_of (some i) l

pub record IsAt (insts : ℕ → Option Inst) (b i : ℕ) (before behind : Option ℕ) : Type 0 where
  pub inst : Inst
  pub there : insts i ≡ some inst
  pub in_block : inst.bb ≡ some b
  pub prev : inst.prev ≡ before
  pub next : inst.next ≡ behind
  pub plain : is_phi inst ≡ false

abbrev pub Linked : (ℕ → Option Inst) → ℕ → Option ℕ → List ℕ → Option ℕ → Type 0
Linked insts b before [] behind = Unit
Linked insts b before (i ∷ l) behind =
    IsAt insts b i before (head_of behind l) × Linked insts b (some i) l behind

-- The block `b` holds the instructions `l`, from the first to the last.
pub record Holds (ir : Ir) (b : ℕ) (l : List ℕ) : Type 0 where
  pub block : BasicBlock
  pub there : ir.bbs b ≡ some block
  pub first : block.first_inst ≡ head_of none l
  pub last : block.last_inst ≡ last_of none l
  pub linked : Linked ir.insts b none l none
  pub distinct : Distinct l

-- Nothing changes but the instructions of a list and one block.
abbrev pub Elsewhere : Ir → Ir → ℕ → List ℕ → Type 0
Elsewhere ir ir' b l =
    ((a : ℕ) → NotIn a l → ir'.insts a ≡ ir.insts a) × ((c : ℕ) → c ≢ b → ir'.bbs c ≡ ir.bbs c)

-- The data of an instruction and of a block, without the pointers of the lists.
abbrev pub unlinked : Inst → Inst
unlinked o = record o { bb = none; prev = none; next = none }

abbrev pub without_ends : BasicBlock → BasicBlock
without_ends b = record b { first_inst = none; last_inst = none }

-- No instruction and no block changes but in the pointers of the lists.
pub record IsRelinked (ir ir' : Ir) : Type 0 where
  pub insts : (a : ℕ) → map unlinked (ir'.insts a) ≡ map unlinked (ir.insts a)
  pub bbs : (c : ℕ) → map without_ends (ir'.bbs c) ≡ map without_ends (ir.bbs c)
  pub inst_id : ir'.inst_id ≡ ir.inst_id
  pub block_id : ir'.block_id ≡ ir.block_id

-- A write that keeps what `g` reads.
map-update {ℓ} :
    {A : Type ℓ} (g : A → A) (f : ℕ → Option A) (k : ℕ) (o o' : A)
    → f k ≡ some o
    → g o' ≡ g o
    → (a : ℕ) → map g (update f k (some o') a) ≡ map g (f a)
map-update g f k o o' there same a = elim (Bool-cases (k == a)) [
  | inl e ↦
      let at_a : k ≡ a = (==_iff k a).0 e in
      rw e (ap some same ∙ ap (map g) (sym there) ∙ ap (λ x. map g (f x)) at_a)
  | inr e ↦ rw e refl
]

pub write-IsRelinked :
    (ir : Ir) (k : ℕ) (o o' : Inst)
    → ir.insts k ≡ some o
    → unlinked o' ≡ unlinked o
    → IsRelinked ir (record ir { insts = update ir.insts k (some o') })
write-IsRelinked ir k o o' there same = record {
  insts = map-update unlinked ir.insts k o o' there same;
  bbs = λ c. refl;
  inst_id = refl;
  block_id = refl;
}

pub write_bb-IsRelinked :
    (ir : Ir) (k : ℕ) (b b' : BasicBlock)
    → ir.bbs k ≡ some b
    → without_ends b' ≡ without_ends b
    → IsRelinked ir (record ir { bbs = update ir.bbs k (some b') })
write_bb-IsRelinked ir k b b' there same = record {
  insts = λ a. refl;
  bbs = map-update without_ends ir.bbs k b b' there same;
  inst_id = refl;
  block_id = refl;
}

pub IsRelinked-trans :
    {ir ir1 ir2 : Ir} → IsRelinked ir ir1 → IsRelinked ir1 ir2 → IsRelinked ir ir2
IsRelinked-trans r s = record {
  insts = λ a. s.insts a ∙ r.insts a;
  bbs = λ c. s.bbs c ∙ r.bbs c;
  inst_id = s.inst_id ∙ r.inst_id;
  block_id = s.block_id ∙ r.block_id;
}

pub update-ne {ℓ} : {A : Type ℓ} (f : ℕ → A) (k a : ℕ) (v : A) → k ≢ a → update f k v a ≡ f a
update-ne f k a v ne = let other : (k == a) ≡ false = ground (arith, ==_iff k a) in rw other refl

pub update-eq {ℓ} : {A : Type ℓ} (f : ℕ → A) (k : ℕ) (v : A) → update f k v k ≡ v
update-eq f k v = rw (==_refl k) refl

pub inst-eq : {x y : Inst} → some x ≡ some y → x ≡ y
inst-eq h = cc

IsAt-same :
    {b : ℕ} {insts insts' : ℕ → Option Inst} {i : ℕ} {before behind : Option ℕ}
    → insts' i ≡ insts i
    → IsAt insts b i before behind
    → IsAt insts' b i before behind
IsAt-same e p = record {
  inst = p.inst;
  there = e ∙ p.there;
  in_block = p.in_block;
  prev = p.prev;
  next = p.next;
  plain = p.plain;
}

-- A new value of the pointers of one instruction.
IsAt-relinked :
    {b : ℕ} {insts : ℕ → Option Inst} {i : ℕ} {before behind : Option ℕ} (o : Inst)
    (prev next : Option ℕ)
    → insts i ≡ some o
    → IsAt insts b i before behind
    → IsAt (update insts i (some (record o { prev = prev; next = next }))) b i prev next
IsAt-relinked {insts} {i} o prev next there p =
    let same : o ≡ p.inst = inst-eq (sym there ∙ p.there) in
    record {
      inst = record o { prev = prev; next = next };
      there = update-eq insts i _;
      in_block = ap (λ (x : Inst). x.bb) same ∙ p.in_block;
      prev = refl;
      next = refl;
      plain = ap is_phi same ∙ p.plain;
    }

module _ (b : ℕ) where
  -- A change of other instructions.
  pub Linked-frame :
      (insts insts' : ℕ → Option Inst) (before behind : Option ℕ) (l : List ℕ)
      → ((a : ℕ) → In a l → insts' a ≡ insts a)
      → Linked insts b before l behind
      → Linked insts' b before l behind
  Linked-frame insts insts' before behind [] same k = tt
  Linked-frame insts insts' before behind (i ∷ l) same (p, k) = (
    IsAt-same (same i (inl refl)) p,
    Linked-frame insts insts' (some i) behind l (λ a m. same a (inr m)) k,
  )

  pub Linked-update :
      (insts : ℕ → Option Inst) (before behind : Option ℕ) (k : ℕ) (v : Option Inst) (l : List ℕ)
      → NotIn k l
      → Linked insts b before l behind
      → Linked (update insts k v) b before l behind
  Linked-update insts before behind k v l out s =
      Linked-frame insts (update insts k v) before behind l
        (λ a m. update-ne insts k a v (λ e. In-ne a k l m out (sym e))) s

  pub Linked-append :
      (insts : ℕ → Option Inst) (before behind : Option ℕ) (xs ys : List ℕ)
      → Linked insts b before xs (head_of behind ys)
      → Linked insts b (last_of before xs) ys behind
      → Linked insts b before (xs ++ ys) behind
  Linked-append insts before behind [] ys l r = r
  Linked-append insts before behind (x ∷ []) ys (p, l) r = (p, r)
  Linked-append insts before behind (x ∷ x' ∷ xs) ys (p, l) r =
      (p, Linked-append insts (some x) behind (x' ∷ xs) ys l r)

  pub append-Linked :
      (insts : ℕ → Option Inst) (before behind : Option ℕ) (xs ys : List ℕ)
      → Linked insts b before (xs ++ ys) behind
      → Linked insts b before xs (head_of behind ys) × Linked insts b (last_of before xs) ys behind
  append-Linked insts before behind [] ys k = (tt, k)
  append-Linked insts before behind (x ∷ []) ys (p, k) = ((p, tt), k)
  append-Linked insts before behind (x ∷ x' ∷ xs) ys (p, k) =
      let (l, r) = append-Linked insts (some x) behind (x' ∷ xs) ys k in ((p, l), r)

  -- The last of the instructions gets another `next`, the first another `prev`.
  pub relink_last :
      (insts : ℕ → Option Inst) (before behind : Option ℕ) (xs : List ℕ) (p : ℕ) (o : Inst)
      (new : Option ℕ)
      → insts p ≡ some o
      → NotIn p xs
      → Linked insts b before (xs ++ p ∷ []) behind
      → Linked (update insts p (some (record o { next = new }))) b before (xs ++ p ∷ []) new
  relink_last insts before behind xs p o new there out k =
      let (l, (q, _)) = append-Linked insts before behind xs (p ∷ []) k in
      let same : o ≡ q.inst = inst-eq (sym there ∙ q.there) in
      let prev : o.prev ≡ last_of before xs = ap (λ (x : Inst). x.prev) same ∙ q.prev in
      let at_p =
        subst (λ (v : Option ℕ). IsAt (update insts p (some (record o { next = new }))) b p v new)
          prev (IsAt-relinked o o.prev new there q) in
      Linked-append _ before new xs (p ∷ []) (Linked-update insts before (some p) p _ xs out l)
        (at_p, tt)

  pub relink_first :
      (insts : ℕ → Option Inst) (before behind : Option ℕ) (q : ℕ) (ys : List ℕ) (o : Inst)
      (new : Option ℕ)
      → insts q ≡ some o
      → NotIn q ys
      → Linked insts b before (q ∷ ys) behind
      → Linked (update insts q (some (record o { prev = new }))) b new (q ∷ ys) behind
  relink_first insts before behind q ys o new there out (p, k) =
      let same : o ≡ p.inst = inst-eq (sym there ∙ p.there) in
      let next : o.next ≡ head_of behind ys = ap (λ (x : Inst). x.next) same ∙ p.next in
      (
        subst (λ (v : Option ℕ). IsAt (update insts q (some (record o { prev = new }))) b q new v)
            next (IsAt-relinked o new o.next there p),
        Linked-update insts (some q) behind q _ ys out k,
      )

pub head_of-append :
    (stop : Option ℕ) (xs ys : List ℕ) → head_of stop (xs ++ ys) ≡ head_of (head_of stop ys) xs
head_of-append stop [] ys = refl
head_of-append stop (x ∷ xs) ys = refl

pub last_of-append :
    (start : Option ℕ) (xs ys : List ℕ) → last_of start (xs ++ ys) ≡ last_of (last_of start xs) ys
last_of-append start [] ys = refl
last_of-append start (x ∷ xs) ys = last_of-append (some x) xs ys
