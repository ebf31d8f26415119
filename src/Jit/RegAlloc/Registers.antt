-- ===== src/Jit/RegAlloc/Registers.antt =====
-- The registers of the active intervals of jit/ir/graph/analyses/reg_alloc.h: each has one, which is
-- busy, and no two share one.
use k3s_virtual_machine.Base.{
  ℕ, zero, suc, ◌<◌, ◌≡◌, ◌≢◌, refl, sym, ap, ◌∙◌, subst, ◌⊎◌, inl, inr, Bool, true, false, Option,
  none, some, List, [], ◌∷◌, arith, ◌==◌, ==_iff, Bool-cases, Option-cases, In, NotIn, Distinct,
  In-NotIn, NotIn-of, length, get_elem?, set, get_elem?-set_ne,
}
use k3s_virtual_machine.Jit.LiveInterval.{insert_at}
use k3s_virtual_machine.Jit.RegAlloc.{Location, reg, last_item, set_rest, find_free, remove}

abbrev pub Locations : Type 0
Locations = ℕ → List (Option Location)

abbrev pub HasReg : Locations → ℕ → ℕ → Type 0
HasReg locations i r = last_item (locations i) ≡ some (some (reg r))

abbrev pub IsBusy : List Bool → ℕ → Type 0
IsBusy busy r = get_elem? busy r ≡ some true

pub record IsApart (active : List ℕ) (busy : List Bool) (locations : Locations) : Type 0 where
  pub distinct : Distinct active
  pub held : (i : ℕ) → In i active → (r : ℕ) × HasReg locations i r × IsBusy busy r
  pub apart :
      (i j r : ℕ) → In i active → In j active → HasReg locations i r → HasReg locations j r → i ≡ j

-- The list `l'` is `l` with `i` put in somewhere.
pub record IsInsert (i : ℕ) (l l' : List ℕ) : Type 0 where
  pub only : (x : ℕ) → In x l' → (i ≡ x) ⊎ In x l
  pub distinct : NotIn i l → Distinct l → Distinct l'

pub reg-eq : {r q : ℕ} → some (some (reg r)) ≡ some (some (reg q)) → r ≡ q
reg-eq h = cc

pub IsApart-insert :
    (active active' : List ℕ) (busy busy' : List Bool) (locations locations' : Locations) (i r : ℕ)
    → IsApart active busy locations
    → NotIn i active
    → ((j : ℕ) → In j active → HasReg locations j r → ⊥)
    → ((j : ℕ) → In j active → locations' j ≡ locations j)
    → HasReg locations' i r
    → ((q : ℕ) → IsBusy busy q → IsBusy busy' q)
    → IsBusy busy' r
    → IsInsert i active active'
    → IsApart active' busy' locations'
IsApart-insert active active' busy busy' locations locations' i r h out free same has keeps is_busy
      ins =
    record {
      distinct = ins.distinct out h.distinct;
      held = λ x m. elim (ins.only x m) [
        | inl e ↦ (r, subst (λ y. HasReg locations' y r) e has, is_busy)
        | inr n ↦ let (q, has_q, busy_q) = h.held x n in (q, now x q n has_q, keeps q busy_q)
      ];
      apart = λ x y q m n has_x has_y. elim (ins.only x m) [
        | inl e ↦ elim (ins.only y n) [
          | inl e' ↦ sym e ∙ e'
          | inr k ↦ elim (clash y q k (subst (λ z. HasReg locations' z q) (sym e) has_x) has_y) [ ]
        ]
        | inr k ↦ elim (ins.only y n) [
          | inl e' ↦
              elim (clash x q k (subst (λ z. HasReg locations' z q) (sym e') has_y) has_x) [ ]
          | inr l ↦ h.apart x y q k l (was x q k has_x) (was y q l has_y)
        ]
      ];
    }
  where
    now : (x q : ℕ) → In x active → HasReg locations x q → HasReg locations' x q
    now x q n e = ap last_item (same x n) ∙ e

    was : (x q : ℕ) → In x active → HasReg locations' x q → HasReg locations x q
    was x q n e = ap last_item (sym (same x n)) ∙ e

    clash : (y q : ℕ) → In y active → HasReg locations' i q → HasReg locations' y q → ⊥
    clash y q k at_i at_y =
        let e : r ≡ q = reg-eq (sym has ∙ at_i) in
        free y k (was y r k (subst (λ z. HasReg locations' y z) (sym e) at_y))

pub IsApart-shrink :
    (active active' : List ℕ) (busy : List Bool) (locations : Locations)
    → IsApart active busy locations
    → ((x : ℕ) → In x active' → In x active)
    → Distinct active'
    → IsApart active' busy locations
IsApart-shrink active active' busy locations h sub d = record {
  distinct = d;
  held = λ i m. h.held i (sub i m);
  apart = λ i j r m n. h.apart i j r (sub i m) (sub j n);
}

-- The register of the first active interval is given back with the interval.
pub IsApart-release :
    (i : ℕ) (rest : List ℕ) (busy : List Bool) (locations : Locations) (r : ℕ)
    → IsApart (i ∷ rest) busy locations
    → HasReg locations i r
    → IsApart rest (set busy r false) locations
IsApart-release i rest busy locations r h has = record {
  distinct = h.distinct.1;
  held = λ j m.
      let (q, has_q, busy_q) = h.held j (inr m) in
      let ne : r ≢ q = λ e.
        let same : i ≡ j =
          h.apart i j r (inl refl) (inr m) has (subst (λ z. HasReg locations j z) (sym e) has_q) in
        In-NotIn j rest m (subst (λ z. NotIn z rest) same h.distinct.0) in
      (q, has_q, get_elem?-set_ne busy r q false ne ∙ busy_q);
  apart = λ x y q m n. h.apart x y q (inr m) (inr n);
}

pub last_item-set_rest :
    (l : List (Option Location)) (pos : ℕ) (x : Location)
    → pos < length l
    → last_item (set_rest l pos x) ≡ some (some x)
unfolding last_item set_rest
last_item-set_rest [] pos x h = elim h [ ]
last_item-set_rest (a ∷ []) zero x h = refl
last_item-set_rest (a ∷ []) (suc pos) x h = absurd (omega arith)
last_item-set_rest (a ∷ b ∷ l) zero x h = last_item-set_rest (b ∷ l) zero x (omega arith)
last_item-set_rest (a ∷ b ∷ l) (suc zero) x h = last_item-set_rest (b ∷ l) zero x (omega arith)
last_item-set_rest (a ∷ b ∷ l) (suc (suc pos)) x h =
    last_item-set_rest (b ∷ l) (suc pos) x (omega arith)

pub length-set_rest :
    (l : List (Option Location)) (pos : ℕ) (x : Location) → length (set_rest l pos x) ≡ length l
unfolding set_rest
length-set_rest [] pos x = refl
length-set_rest (a ∷ l) zero x = ap suc (length-set_rest l zero x)
length-set_rest (a ∷ l) (suc pos) x = ap suc (length-set_rest l pos x)

pub length-insert_at {ℓ} :
    {A : Type ℓ} (l : List A) (n : ℕ) (a : A) → length (insert_at l n a) ≡ suc (length l)
unfolding insert_at
length-insert_at [] zero a = refl
length-insert_at (x ∷ l) zero a = refl
length-insert_at [] (suc n) a = refl
length-insert_at (x ∷ l) (suc n) a = ap suc (length-insert_at l n a)

pub find_free-some :
    (busy : List Bool) (r : ℕ) → find_free busy ≡ some r → get_elem? busy r ≡ some false
unfolding find_free
find_free-some [] r h = cc
find_free-some (false ∷ busy) zero h = refl
find_free-some (false ∷ busy) (suc r) h = let impossible : zero ≡ suc r = cc in absurd (omega arith)
find_free-some (true ∷ busy) r h = elim (Option-cases (find_free busy)) [
  | inl e ↦ let impossible : none ≡ some r = rw e at h in cc
  | inr (q, e) ↦
      let at_r : some (suc q) ≡ some r = rw e at h in
      let next : suc q ≡ r = cc in rw (sym next) (find_free-some busy q e)
]

pub In-remove : (l : List ℕ) (u x : ℕ) → In x (remove l u) → In x l
unfolding remove
In-remove [] u x i = i
In-remove (y ∷ l) u x i = elim (Bool-cases (y == u)) [
  | inl e ↦ inr (rw e at i)
  | inr e ↦ elim (rw e at i) [ inl e' ↦ inl e' | inr j ↦ inr (In-remove l u x j) ]
]

pub remove-Distinct :
    (l : List ℕ) (u : ℕ) → Distinct l → Distinct (remove l u) × NotIn u (remove l u)
unfolding remove
remove-Distinct [] u d = (tt, tt)
remove-Distinct (y ∷ l) u (n, d) = elim (Bool-cases (y == u)) [
  | inl e ↦ rw e (d, subst (λ z. NotIn z l) ((==_iff y u).0 e) n)
  | inr e ↦
      let ne : y ≢ u = ground (arith, ==_iff y u) in
      let (rest, out) = remove-Distinct l u d in
      rw e ((NotIn-of y (remove l u) (λ i. In-NotIn y l (In-remove l u y i) n), rest), (ne, out))
]
