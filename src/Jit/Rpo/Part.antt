-- ===== src/Jit/Rpo/Part.antt =====
-- What one part of the search of jit/ir/graph/analyses/rpo.h adds to the order.
use k3s_virtual_machine.Base.{
  ℕ, ◌+◌, ◌≤◌, ◌≡◌, refl, ◌⊎◌, inl, inr, Bool, true, false, List, [], ◌∷◌, ◌++◌, arith, Bool-cases,
  In, Distinct, Apart, NotIn-of, In-append_left, In-append_right, In-append_cases, append-Distinct,
}
use k3s_virtual_machine.Jit.Rpo.{Rpo, nulls}
use k3s_virtual_machine.Jit.Rpo.Marks.{marked, unmarked, Blocks, somes}

-- A path along the edges of a graph.
pub data Leads (succs : ℕ → List ℕ) (u : ℕ) : ℕ → Type 0 where
  stay : Leads succs u u
  go : {v w : ℕ} → Leads succs u v → In w (succs v) → Leads succs u w

pub Leads-trans :
    {succs : ℕ → List ℕ} {u v w : ℕ} → Leads succs u v → Leads succs v w → Leads succs u w
Leads-trans p stay = p
Leads-trans p (go q e) = go (Leads-trans p q) e

-- In a list, the second address stands somewhere behind the first.
abbrev pub After : List ℕ → ℕ → ℕ → Type 0
After [] u v = ⊥
After (x ∷ l) u v = ((x ≡ u) × In v l) ⊎ After l u v

pub After-append_left : (xs ys : List ℕ) (u v : ℕ) → After xs u v → After (xs ++ ys) u v
After-append_left (x ∷ xs) ys u v (inl (e, i)) = inl (e, In-append_left v xs ys i)
After-append_left (x ∷ xs) ys u v (inr a) = inr (After-append_left xs ys u v a)
After-append_left [] ys u v a = elim a [ ]

pub After-append_right : (xs ys : List ℕ) (u v : ℕ) → After ys u v → After (xs ++ ys) u v
After-append_right [] ys u v a = a
After-append_right (x ∷ xs) ys u v a = inr (After-append_right xs ys u v a)

pub After-across : (xs ys : List ℕ) (u v : ℕ) → In u xs → In v ys → After (xs ++ ys) u v
After-across (x ∷ xs) ys u v (inl e) j = inl (e, In-append_right v xs ys j)
After-across (x ∷ xs) ys u v (inr i) j = inr (After-across xs ys u v i j)
After-across [] ys u v i j = elim i [ ]

-- The vector and its filled part between two steps; `grey` visits have begun and not ended.
pub record Ready (succs : ℕ → List ℕ) (addrs : List ℕ) (mark grey : ℕ) (done : List ℕ) (s : Rpo)
    : Type 0 where
  pub blocks : Blocks succs addrs s.ir
  pub room : s.idx ≡ unmarked mark s.ir addrs + grey
  pub filled : s.rpo ≡ nulls s.idx ++ somes done

-- The blocks `new` that a part of the search below `root` has placed: they were not marked and are now,
-- each is reached from `root`, its successors are marked, and an edge from it leads to a block that was
-- marked before, to a later place, or back along a cycle.
pub record Part (succs : ℕ → List ℕ) (addrs : List ℕ) (mark root : ℕ) (s s' : Rpo) (new : List ℕ)
    : Type 0 where
  pub old : (a : ℕ) → marked mark s.ir a ≡ true → marked mark s'.ir a ≡ true
  pub only : (a : ℕ) → marked mark s'.ir a ≡ true → (marked mark s.ir a ≡ true) ⊎ In a new
  pub fresh : (a : ℕ) → In a new → marked mark s.ir a ≡ false
  pub now : (a : ℕ) → In a new → marked mark s'.ir a ≡ true
  pub distinct : Distinct new
  pub from : (a : ℕ) → In a new → Leads succs root a
  pub edges :
      (u v : ℕ)
      → In u new
      → In v (succs u)
      → (marked mark s.ir v ≡ true) ⊎ (After new u v ⊎ Leads succs v u)
  pub closed : (u v : ℕ) → In u new → In v (succs u) → marked mark s'.ir v ≡ true
  pub fewer : unmarked mark s'.ir addrs ≤ unmarked mark s.ir addrs

module _ (succs : ℕ → List ℕ) (addrs : List ℕ) (mark : ℕ) where
  pub Part-none : (root : ℕ) (s : Rpo) → Part succs addrs mark root s s []
  Part-none root s = record {
    old = λ a h. h;
    only = λ a h. inl h;
    fresh = λ a i. elim i [ ];
    now = λ a i. elim i [ ];
    distinct = tt;
    from = λ a i. elim i [ ];
    edges = λ u v i j. elim i [ ];
    closed = λ u v i j. elim i [ ];
    fewer = omega arith;
  }

  -- A part below a block that is itself reached.
  pub Part-from :
      (root root' : ℕ) (s s' : Rpo) (new : List ℕ)
      → Leads succs root root'
      → Part succs addrs mark root' s s' new
      → Part succs addrs mark root s s' new
  Part-from root root' s s' new l p = record {
    old = p.old;
    only = p.only;
    fresh = p.fresh;
    now = p.now;
    distinct = p.distinct;
    from = λ a i. Leads-trans l (p.from a i);
    edges = p.edges;
    closed = p.closed;
    fewer = p.fewer;
  }

  -- A later part stands before an earlier one.
  pub Part-append :
      (root : ℕ) (s t w : Rpo) (first second : List ℕ)
      → Part succs addrs mark root s t first
      → Part succs addrs mark root t w second
      → Part succs addrs mark root s w (second ++ first)
  Part-append root s t w first second p q = record {
    old = λ a h. q.old a (p.old a h);
    only = λ a h. elim (q.only a h) [
      | inr i ↦ inr (In-append_left a second first i)
      | inl m ↦ elim (p.only a m) [
        | inl m' ↦ inl m'
        | inr i ↦ inr (In-append_right a second first i)
      ]
    ];
    fresh = λ a i. elim (In-append_cases a second first i) [
      | inr j ↦ p.fresh a j
      | inl j ↦ not_before a (q.fresh a j)
    ];
    now = λ a i. elim (In-append_cases a second first i) [
      | inl j ↦ q.now a j
      | inr j ↦ q.old a (p.now a j)
    ];
    distinct = append-Distinct second first q.distinct p.distinct (apart second (λ a i. i));
    from =
        λ a i. elim (In-append_cases a second first i) [ inl j ↦ q.from a j | inr j ↦ p.from a j ];
    edges = λ u v i j. elim (In-append_cases u second first i) [
      | inl k ↦ elim (q.edges u v k j) [
        | inl m ↦ elim (p.only v m) [
          | inl m' ↦ inl m'
          | inr n ↦ inr (inl (After-across second first u v k n))
        ]
        | inr (inl a) ↦ inr (inl (After-append_left second first u v a))
        | inr (inr l) ↦ inr (inr l)
      ]
      | inr k ↦ elim (p.edges u v k j) [
        | inl m ↦ inl m
        | inr (inl a) ↦ inr (inl (After-append_right second first u v a))
        | inr (inr l) ↦ inr (inr l)
      ]
    ];
    closed = λ u v i j. elim (In-append_cases u second first i) [
      | inl k ↦ q.closed u v k j
      | inr k ↦ q.old v (p.closed u v k j)
    ];
    fewer = omega (arith, p.fewer, q.fewer);
  }
    where
      clash : {b : Bool} → b ≡ true → b ≡ false → ⊥
      clash h k = cc

      not_before : (a : ℕ) → marked mark t.ir a ≡ false → marked mark s.ir a ≡ false
      not_before a f = elim (Bool-cases (marked mark s.ir a)) [
        | inr e ↦ e
        | inl e ↦ elim (clash (p.old a e) f) [ ]
      ]

      apart : (l : List ℕ) → ((a : ℕ) → In a l → In a second) → Apart l first
      apart [] sub = tt
      apart (x ∷ l) sub = (
        NotIn-of x first (λ i. clash (p.now x i) (q.fresh x (sub x (inl refl)))),
        apart l (λ a i. sub a (inr i)),
      )
