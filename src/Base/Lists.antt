-- ===== src/Base/Lists.antt =====
-- Lists measured and indexed by native numbers, under the library's names.
use Prim.Native.Nat.{ℕ, zero, suc, ◌+◌, ◌<◌}
use mathlib.Core.Path.{◌≡◌, refl, ap, subst, ◌∙◌}
use mathlib.Core.Logic.{◌≢◌, ◌⊎◌, inl, inr}
use mathlib.Core.List.{List, [], ◌∷◌, ◌++◌}
use mathlib.Core.Option.{Option, none, some}
use native.Mathlib.Omega.{arith}

module _ {ℓ} {A : Type ℓ} where
  abbrev pub length : List A → ℕ
  length [] = 0
  length (x ∷ xs) = suc (length xs)

  abbrev pub get_elem? : List A → ℕ → Option A
  get_elem? [] i = none
  get_elem? (x ∷ xs) zero = some x
  get_elem? (x ∷ xs) (suc i) = get_elem? xs i

  abbrev pub set : List A → ℕ → A → List A
  set [] i v = []
  set (x ∷ xs) zero v = v ∷ xs
  set (x ∷ xs) (suc i) v = x ∷ set xs i v

  abbrev pub take : ℕ → List A → List A
  take zero xs = []
  take (suc n) [] = []
  take (suc n) (x ∷ xs) = x ∷ take n xs

  abbrev pub drop : ℕ → List A → List A
  drop zero xs = xs
  drop (suc n) [] = []
  drop (suc n) (x ∷ xs) = drop n xs

  abbrev pub replicate : ℕ → A → List A
  replicate zero a = []
  replicate (suc n) a = a ∷ replicate n a

  -- A predicate of every item.
  abbrev pub All {κ} : (A → Type κ) → List A → Type κ
  All P [] = Unit
  All P (x ∷ xs) = P x × All P xs

module _ {ℓ} {A : Type ℓ} where
  pub length-append : (xs ys : List A) → length (xs ++ ys) ≡ length xs + length ys
  length-append [] ys = omega arith
  length-append (x ∷ xs) ys = omega (arith, length-append xs ys)

  pub length-set : (xs : List A) (i : ℕ) (v : A) → length (set xs i v) ≡ length xs
  length-set [] i v = refl
  length-set (x ∷ xs) zero v = refl
  length-set (x ∷ xs) (suc i) v = ap suc (length-set xs i v)

  pub get_elem?-set_self :
      (xs : List A) (i : ℕ) (v : A) → i < length xs → get_elem? (set xs i v) i ≡ some v
  get_elem?-set_self [] i v h = elim h [ ]
  get_elem?-set_self (x ∷ xs) zero v h = refl
  get_elem?-set_self (x ∷ xs) (suc i) v h = get_elem?-set_self xs i v (omega arith)

  pub get_elem?-set_ne :
      (xs : List A) (i j : ℕ) (v : A) → i ≢ j → get_elem? (set xs i v) j ≡ get_elem? xs j
  get_elem?-set_ne [] i j v h = refl
  get_elem?-set_ne (x ∷ xs) zero zero v h = absurd (h refl)
  get_elem?-set_ne (x ∷ xs) zero (suc j) v h = refl
  get_elem?-set_ne (x ∷ xs) (suc i) zero v h = refl
  get_elem?-set_ne (x ∷ xs) (suc i) (suc j) v h = get_elem?-set_ne xs i j v (λ e. h (ap suc e))

  pub get_elem?-lt : (xs : List A) (i : ℕ) {v : A} → get_elem? xs i ≡ some v → i < length xs
  get_elem?-lt [] i h = cc
  get_elem?-lt (x ∷ xs) zero h = omega arith
  get_elem?-lt (x ∷ xs) (suc i) h = omega (arith, get_elem?-lt xs i h)

  pub get_elem?-append_left :
      (xs ys : List A) (i : ℕ) → i < length xs → get_elem? (xs ++ ys) i ≡ get_elem? xs i
  get_elem?-append_left [] ys i h = elim h [ ]
  get_elem?-append_left (x ∷ xs) ys zero h = refl
  get_elem?-append_left (x ∷ xs) ys (suc i) h = get_elem?-append_left xs ys i (omega arith)

  pub get_elem?-append_last : (xs : List A) (v : A) → get_elem? (xs ++ v ∷ []) (length xs) ≡ some v
  get_elem?-append_last [] v = refl
  get_elem?-append_last (x ∷ xs) v = get_elem?-append_last xs v

  pub drop-append : (xs ys : List A) → drop (length xs) (xs ++ ys) ≡ ys
  drop-append [] ys = refl
  drop-append (x ∷ xs) ys = drop-append xs ys

  pub take-append : (xs ys : List A) → take (length xs) (xs ++ ys) ≡ xs
  take-append [] ys = refl
  take-append (x ∷ xs) ys = ap (λ (l : List A). x ∷ l) (take-append xs ys)

  pub length-replicate : (n : ℕ) (a : A) → length (replicate n a) ≡ n
  length-replicate zero a = refl
  length-replicate (suc n) a = ap suc (length-replicate n a)

  pub List-cases : (xs : List A) → (xs ≡ []) ⊎ ((x : A) × (rest : List A) × (xs ≡ x ∷ rest))
  List-cases [] = inl refl
  List-cases (x ∷ xs) = inr (x, xs, refl)

-- Membership in lists of addresses.
abbrev pub In : ℕ → List ℕ → Type 0
In a [] = ⊥
In a (b ∷ bs) = (b ≡ a) ⊎ In a bs

abbrev pub NotIn : ℕ → List ℕ → Type 0
NotIn b ts = All (λ a. a ≢ b) ts

abbrev pub Distinct : List ℕ → Type 0
Distinct [] = Unit
Distinct (a ∷ ts) = NotIn a ts × Distinct ts

pub In-NotIn : (a : ℕ) (l : List ℕ) → In a l → NotIn a l → ⊥
In-NotIn a [] i n = i
In-NotIn a (b ∷ l) (inl e) (n, ns) = n e
In-NotIn a (b ∷ l) (inr i) (n, ns) = In-NotIn a l i ns

pub NotIn-of : (a : ℕ) (l : List ℕ) → (In a l → ⊥) → NotIn a l
NotIn-of a [] n = tt
NotIn-of a (b ∷ l) n = (λ e. n (inl e), NotIn-of a l (λ i. n (inr i)))

-- Two addresses, of which one is in a list and one is not.
pub In-ne : (a b : ℕ) (l : List ℕ) → In a l → NotIn b l → a ≢ b
In-ne a b (c ∷ l) (inl e) (n, ns) = λ h. n (e ∙ h)
In-ne a b (c ∷ l) (inr i) (n, ns) = In-ne a b l i ns
In-ne a b [] i n = elim i [ ]

pub In-append_left : (a : ℕ) (xs ys : List ℕ) → In a xs → In a (xs ++ ys)
In-append_left a [] ys i = elim i [ ]
In-append_left a (x ∷ xs) ys (inl e) = inl e
In-append_left a (x ∷ xs) ys (inr i) = inr (In-append_left a xs ys i)

pub In-append_right : (a : ℕ) (xs ys : List ℕ) → In a ys → In a (xs ++ ys)
In-append_right a [] ys i = i
In-append_right a (x ∷ xs) ys i = inr (In-append_right a xs ys i)

pub In-append_cases : (a : ℕ) (xs ys : List ℕ) → In a (xs ++ ys) → In a xs ⊎ In a ys
In-append_cases a [] ys i = inr i
In-append_cases a (x ∷ xs) ys (inl e) = inl (inl e)
In-append_cases a (x ∷ xs) ys (inr i) = elim (In-append_cases a xs ys i) [
  | inl j ↦ inl (inr j)
  | inr j ↦ inr j
]

pub NotIn-append : (a : ℕ) (xs ys : List ℕ) → NotIn a (xs ++ ys) → NotIn a xs × NotIn a ys
NotIn-append a [] ys n = (tt, n)
NotIn-append a (x ∷ xs) ys (n, ns) = let (l, r) = NotIn-append a xs ys ns in ((n, l), r)

pub append-NotIn : (a : ℕ) (xs ys : List ℕ) → NotIn a xs → NotIn a ys → NotIn a (xs ++ ys)
append-NotIn a [] ys l r = r
append-NotIn a (x ∷ xs) ys (n, l) r = (n, append-NotIn a xs ys l r)

-- Two lists of different addresses that share none.
abbrev pub Apart : List ℕ → List ℕ → Type 0
Apart xs ys = All (λ a. NotIn a ys) xs

pub Distinct-append :
    (xs ys : List ℕ) → Distinct (xs ++ ys) → Distinct xs × (Distinct ys × Apart xs ys)
Distinct-append [] ys d = (tt, (d, tt))
Distinct-append (x ∷ xs) ys (n, d) =
    let (nx, ny) = NotIn-append x xs ys n in
    let (dx, (dy, ap)) = Distinct-append xs ys d in ((nx, dx), (dy, (ny, ap)))

pub append-Distinct :
    (xs ys : List ℕ) → Distinct xs → Distinct ys → Apart xs ys → Distinct (xs ++ ys)
append-Distinct [] ys dx dy ap = dy
append-Distinct (x ∷ xs) ys (n, dx) dy (nx, ap) =
    (append-NotIn x xs ys n nx, append-Distinct xs ys dx dy ap)

pub Apart-In : (xs ys : List ℕ) (a : ℕ) → Apart xs ys → In a xs → NotIn a ys
Apart-In [] ys a ap i = elim i [ ]
Apart-In (x ∷ xs) ys a (n, ap) (inl e) = subst (λ x. NotIn x ys) e n
Apart-In (x ∷ xs) ys a (n, ap) (inr i) = Apart-In xs ys a ap i

pub Apart-sym : (xs ys : List ℕ) (a : ℕ) → Apart xs ys → In a ys → NotIn a xs
Apart-sym xs ys a ap i = NotIn-of a xs (λ j. In-NotIn a ys i (Apart-In xs ys a ap j))

-- No item, or a last one.
pub snoc_cases {ℓ} :
    {A : Type ℓ} (xs : List A) → (xs ≡ []) ⊎ ((ys : List A) × (p : A) × (xs ≡ ys ++ p ∷ []))
snoc_cases [] = inl refl
snoc_cases (x ∷ xs) = elim (snoc_cases xs) [
  | inl e ↦ inr ([], x, ap (λ l. x ∷ l) e)
  | inr (ys, p, e) ↦ inr (x ∷ ys, p, ap (λ l. x ∷ l) e)
]
