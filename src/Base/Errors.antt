-- ===== src/Base/Errors.antt =====
-- What a call of the program comes to: a value, or the end of the process. `assertion` is a failed
-- `ASSERT`, `undefined` a read or write that the language leaves undefined, the other faults are the
-- `LOG_FATAL`s by the text that they print. `collection` is where a run of the model stops because the
-- program would collect garbage, `out_of_fuel` where a loop of the model used up its rounds.
use mathlib.Core.Path.{◌≡◌, refl}
use mathlib.Core.Logic.{◌≢◌}
use mathlib.Core.Bool.{Bool, true, false}
use k3s_virtual_machine.Base.Tests.{if◌then◌else◌}
use mathlib.Core.Option.{Option, none, some}

pub data Fault : Type 0 where
  oom trigger_forbidden type_error zero_division unimplemented missing_field : Fault
  overlapping_fields label_redeclared labels_unresolved missing_ret unknown_constant : Fault
  unsupported_type unresolved_overload assertion undefined : Fault
  collection out_of_fuel : Fault

pub data Outcome {ℓ} (A : Type ℓ) : Type ℓ where
  ok : A → Outcome A
  err : Fault → Outcome A

-- `ASSERT(b)`, and `if (!b) LOG_FATAL(fault)`.
abbrev pub guard : Bool → Fault → Outcome (Unit {0})
guard holds fault = elim holds [ false ↦ err fault | true ↦ ok tt ]

abbrev pub from_option {ℓ} : {A : Type ℓ} → Fault → Option A → Outcome A
from_option fault o = elim o [ none ↦ err fault | some value ↦ ok value ]

infixl 5 ◌>>=◌ ◌>>◌
abbrev pub ◌>>=◌ {ℓ κ} : {A : Type ℓ} {B : Type κ} → Outcome A → (A → Outcome B) → Outcome B
err fault >>= next = err fault
ok value >>= next = next value

abbrev pub ◌>>◌ {κ} : {B : Type κ} → Outcome (Unit {0}) → Outcome B → Outcome B
err fault >> rest = err fault
ok _ >> rest = rest

pub ok-injective {ℓ} : {A : Type ℓ} {a b : A} → ok a ≡ ok b → a ≡ b
ok-injective h = cc

-- A postcondition of a call that returns; nothing is said of one that ends the process.
abbrev pub Ensures {ℓ κ} : {A : Type ℓ} → (A → Type κ) → Outcome A → Type κ
Ensures P (ok a) = P a
Ensures P (err e) = Unit

pub Ensures-bind {ℓ κ μ ν} :
    {A : Type ℓ} {B : Type κ} (P : A → Type μ) (Q : B → Type ν) (m : Outcome A) (f : A → Outcome B)
    → Ensures P m
    → ((a : A) → P a → Ensures Q (f a))
    → Ensures Q (m >>= f)
Ensures-bind P Q (ok a) f p k = k a p
Ensures-bind P Q (err e) f p k = tt

pub Ensures-guard {κ} :
    {B : Type 0} (Q : B → Type κ) (b : Bool) (e : Fault) (m : Outcome B)
    → (b ≡ true → Ensures Q m)
    → Ensures Q (guard b e >> m)
Ensures-guard Q true e m k = k refl
Ensures-guard Q false e m k = tt

pub Ensures-eq {ℓ κ} :
    {A : Type ℓ} (P : A → Type κ) (m : Outcome A) {a : A} → m ≡ ok a → Ensures P m → P a
Ensures-eq P m e p = rw e at p

pub Ensures-of {ℓ κ} :
    {A : Type ℓ} (P : A → Type κ) (m : Outcome A) → ((a : A) → m ≡ ok a → P a) → Ensures P m
Ensures-of P (ok a) k = k a refl
Ensures-of P (err e) k = tt

pub Ensures-map {ℓ κ μ} :
    {A : Type ℓ} (P : A → Type κ) (Q : A → Type μ) (m : Outcome A)
    → Ensures P m
    → ((a : A) → P a → Q a)
    → Ensures Q m
Ensures-map P Q (ok a) p k = k a p
Ensures-map P Q (err e) p k = tt

-- A part of a call of which nothing needs to be known.
pub Ensures-any {ℓ} :
    {A B : Type 0} (Q : B → Type ℓ) (m : Outcome A) (f : A → Outcome B)
    → ((a : A) → Ensures Q (f a))
    → Ensures Q (m >>= f)
Ensures-any Q (ok a) f k = k a
Ensures-any Q (err e) f k = tt

-- A call that returns, with what holds of its value.
abbrev pub Total : {A : Type 0} → (A → Type 0) → Outcome A → Type 0
Total Q (ok a) = Q a
Total Q (err e) = ⊥

pub Total-bind :
    {A B : Type 0} (P : A → Type 0) (Q : B → Type 0) (o : Outcome A) (f : A → Outcome B)
    → Total P o
    → ((a : A) → P a → Total Q (f a))
    → Total Q (o >>= f)
Total-bind P Q (ok a) f p k = k a p
Total-bind P Q (err e) f p k = elim p [ ]

pub Total-map :
    {A : Type 0} (P Q : A → Type 0) (o : Outcome A) → Total P o → ((a : A) → P a → Q a) → Total Q o
Total-map P Q (ok a) p k = k a p
Total-map P Q (err e) p k = elim p [ ]

pub Total-if :
    {A : Type 0} (Q : A → Type 0) (b : Bool) (x y : Outcome A)
    → (b ≡ true → Total Q x)
    → (b ≡ false → Total Q y)
    → Total Q (if b then x else y)
Total-if Q true x y f g = f refl
Total-if Q false x y f g = g refl

pub Total-ok :
    {A : Type 0} (Q : A → Type 0) (o : Outcome A) → Total Q o → (a : A) × (o ≡ ok a) × Q a
Total-ok Q (ok a) q = (a, refl, q)
Total-ok Q (err e) q = elim q [ ]

-- A call that does not use up its fuel, with what holds of its value if it returns one.
abbrev pub Settles : {A : Type 0} → (A → Type 0) → Outcome A → Type 0
Settles Q (ok a) = Q a
Settles Q (err e) = e ≢ out_of_fuel

pub Settles-bind :
    {A B : Type 0} (P : A → Type 0) (Q : B → Type 0) (o : Outcome A) (f : A → Outcome B)
    → Settles P o
    → ((a : A) → P a → Settles Q (f a))
    → Settles Q (o >>= f)
Settles-bind P Q (ok a) f p k = k a p
Settles-bind P Q (err e) f p k = p

pub Settles-map :
    {A : Type 0} (P Q : A → Type 0) (o : Outcome A)
    → Settles P o
    → ((a : A) → P a → Q a)
    → Settles Q o
Settles-map P Q (ok a) p k = k a p
Settles-map P Q (err e) p k = p

pub Settles-load :
    {A B : Type 0} (Q : B → Type 0) (o : Option A) (f : A → Outcome B)
    → ((a : A) → o ≡ some a → Settles Q (f a))
    → Settles Q (from_option undefined o >>= f)
Settles-load Q (some a) f k = k a refl
Settles-load Q none f k = λ h. cc

pub Settles-assert :
    {B : Type 0} (Q : B → Type 0) (b : Bool) (m : Outcome B)
    → (b ≡ true → Settles Q m)
    → Settles Q (guard b assertion >> m)
Settles-assert Q true m k = k refl
Settles-assert Q false m k = λ h. cc
