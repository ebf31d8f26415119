-- ===== src/Base/Maps.antt =====
-- Texts as lists of bytes, and the `unordered_map`s from texts as association lists.
use Prim.Native.Nat.{ℕ}
use mathlib.Core.Path.{◌≡◌, refl, sym}
use mathlib.Core.Logic.{◌↔◌, inl, inr}
use mathlib.Core.Bool.{Bool, true, false, ◌&&◌}
use mathlib.Core.Option.{Option, none, some}
use mathlib.Core.List.{List, [], ◌∷◌}
use native.Mathlib.Omega.{arith}
use k3s_virtual_machine.Base.Tests.{◌==◌, ==_iff, Bool-cases, if◌then◌else◌}
use k3s_virtual_machine.Base.Lists.{All}

-- A memory of numbered cells with one cell written.
abbrev pub update {ℓ} : {A : Type ℓ} → (ℕ → A) → ℕ → A → ℕ → A
update f i a j = if i == j then a else f j

abbrev pub Bytes : Type 0
Bytes = List ℕ

unfoldable pub bytes_eq : Bytes → Bytes → Bool
bytes_eq [] [] = true
bytes_eq [] (y ∷ ys) = false
bytes_eq (x ∷ xs) [] = false
bytes_eq (x ∷ xs) (y ∷ ys) = (x == y) && bytes_eq xs ys

pub bytes_eq_iff : (a b : Bytes) → (bytes_eq a b ≡ true) ↔ (a ≡ b)
unfolding bytes_eq
bytes_eq_iff [] [] = (λ _. refl, λ _. refl)
bytes_eq_iff [] (y ∷ ys) = (λ h. cc, λ h. cc)
bytes_eq_iff (x ∷ xs) [] = (λ h. cc, λ h. cc)
bytes_eq_iff (x ∷ xs) (y ∷ ys) = ground (arith, bytes_eq_iff xs ys)

module _ {ℓ} {V : Type ℓ} where
  unfoldable pub lookup : Bytes → List (Bytes × V) → Option V
  lookup key [] = none
  lookup key ((first, value) ∷ table) = if bytes_eq first key then some value else lookup key table

  -- `table.erase(key)`
  unfoldable pub erase : Bytes → List (Bytes × V) → List (Bytes × V)
  erase key [] = []
  erase key ((first, value) ∷ table) =
      let rest = erase key table in if bytes_eq first key then rest else (first, value) ∷ rest

  -- `table[key] = value`
  unfoldable pub insert : Bytes → V → List (Bytes × V) → List (Bytes × V)
  insert key value [] = (key, value) ∷ []
  insert key value ((first, old) ∷ table) =
      let rest = insert key value table in
      if bytes_eq first key then (first, value) ∷ table else (first, old) ∷ rest

  pub lookup-erase :
      (key other : Bytes) (table : List (Bytes × V))
      → lookup other (erase key table) ≡ (if bytes_eq key other then none else lookup other table)
  unfolding lookup erase
  lookup-erase key other [] = ground arith
  lookup-erase key other ((first, old) ∷ table) = ground (
    arith,
    lookup-erase key other table,
    bytes_eq_iff key other,
    bytes_eq_iff first key,
    bytes_eq_iff first other,
  )

  pub lookup-insert :
      (key other : Bytes) (value : V) (table : List (Bytes × V))
      → lookup other (insert key value table)
        ≡ (if bytes_eq key other then some value else lookup other table)
  unfolding lookup insert
  lookup-insert key other value [] = refl
  lookup-insert key other value ((first, old) ∷ table) = ground (
    arith,
    lookup-insert key other value table,
    bytes_eq_iff key other,
    bytes_eq_iff first key,
    bytes_eq_iff first other,
  )

pub bytes_eq_refl : (k : Bytes) → bytes_eq k k ≡ true
bytes_eq_refl k = (bytes_eq_iff k k).1 refl

-- A map of size 0 has no key.
pub lookup-eq-nil {ℓ} : {V : Type ℓ} (k : Bytes) (m : List (Bytes × V)) → m ≡ [] → lookup k m ≡ none
unfolding lookup
lookup-eq-nil k m e = rw e

-- A memory with the cells of a list, the first of an address, and a property of all of them.
abbrev pub cells : {A : Type 0} → List (ℕ × A) → ℕ → Option A
cells [] = λ _. none
cells (e ∷ es) = update (cells es) e.0 (some e.1)

pub cells-All :
    {A : Type 0} (P : ℕ → A → Type 0) (es : List (ℕ × A))
    → All (λ (e : ℕ × A). P e.0 e.1) es
    → (a : ℕ) (o : A) → cells es a ≡ some o
    → P a o
cells-All P [] ps a o h = let b : ⊥ = cc in elim b [ ]
cells-All P ((b, x) ∷ es) (p, ps) a o h = elim (Bool-cases (b == a)) [
  | inr other ↦ cells-All P es ps a o (rw other at h)
  | inl same ↦
      let here : some x ≡ some o = rw same at h in
      let object : x ≡ o = cc in rw (sym ((==_iff b a).0 same), sym object) p
]
