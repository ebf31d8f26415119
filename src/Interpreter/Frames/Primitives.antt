-- ===== src/Interpreter/Frames/Primitives.antt =====
-- What the operations of interpreter/interpreter.h and the New functions do to the stack of frames.
use k3s_virtual_machine.Base.{
  ℕ, arith, ◌≡◌, refl, ◌∙◌, Option, none, some, List, [], ◌∷◌, Outcome, ◌>>=◌, Ensures,
  Ensures-bind, Ensures-guard, Ensures-of, Bytes, leb, length, assertion, Ensures-eq,
}
use k3s_virtual_machine.Interpreter.Register.{Register}
use k3s_virtual_machine.Interpreter.Objects.{Body}
use k3s_virtual_machine.Interpreter.Machine.{Machine, Frame, set_acc, set_reg, store_body}
use k3s_virtual_machine.Classfile.ConstantPool.{Mapping}
use k3s_virtual_machine.Interpreter.Allocate.{
  new_function, new_array, new_string, new_object, new_methods, pool_alloc_bytes,
  prepare_for_sequent_allocations,
}

-- The frames below the top, and the way back that the top frame holds.
abbrev pub callers : List Frame → List Frame
callers [] = []
callers (f ∷ fs) = fs

abbrev pub link : List Frame → Option (ℕ × ℕ)
link [] = none
link (f ∷ fs) = some (f.caller_pc, f.callee)

-- The frames below the top are the same, and the top frame returns to the same place.
pub record Kept (m m' : Machine) : Type 0 where
  pub below : callers m'.state_stack ≡ callers m.state_stack
  pub back : link m'.state_stack ≡ link m.state_stack

pub Kept-refl : (m : Machine) → Kept m m
Kept-refl m = record { below = refl; back = refl }

pub Kept-trans : {m n o : Machine} → Kept m n → Kept n o → Kept m o
Kept-trans h k = record { below = k.below ∙ h.below; back = k.back ∙ h.back }

pub set_acc-Kept : (m : Machine) (r : Register) → Ensures (Kept m) (set_acc m r)
unfolding set_acc
set_acc-Kept m r = Ensures-of (Kept m) (set_acc m r) (λ m' e. ground arith)

pub set_reg-Kept : (m : Machine) (id : ℕ) (r : Register) → Ensures (Kept m) (set_reg m id r)
unfolding set_reg
set_reg-Kept m id r = Ensures-of (Kept m) (set_reg m id r) (λ m' e. ground arith)

pub store_body-Kept : (m : Machine) (a : ℕ) (b : Body) → Ensures (Kept m) (store_body m a b)
unfolding store_body
store_body-Kept m a b = Ensures-of (Kept m) (store_body m a b) (λ m' e. ground arith)

-- The machine that an allocation returns.
abbrev pub KeptBy : Machine → ℕ × Machine → Type 0
KeptBy m r = Kept m r.1

pool_alloc_bytes-Kept : (m : Machine) (n : ℕ) → Ensures (KeptBy m) (pool_alloc_bytes m n)
unfolding pool_alloc_bytes
pool_alloc_bytes-Kept m n = Ensures-of (KeptBy m) (pool_alloc_bytes m n) (λ r e. ground arith)

pub new_function-Kept : (m : Machine) (n : ℕ) → Ensures (KeptBy m) (new_function m n)
unfolding new_function
new_function-Kept m n = Ensures-of (KeptBy m) (new_function m n) (λ r e. ground arith)

pub new_array-Kept : (m : Machine) (n : ℕ) → Ensures (KeptBy m) (new_array m n)
unfolding new_array
new_array-Kept m n = Ensures-of (KeptBy m) (new_array m n) (λ r e. ground arith)

pub new_string-Kept : (m : Machine) (s : Bytes) → Ensures (KeptBy m) (new_string m s)
unfolding new_string
new_string-Kept m s = Ensures-of (KeptBy m) (new_string m s) (λ r e. ground arith)

new_methods-Kept :
    (m : Machine) (l : List ℕ)
    → Ensures (λ (r : List Register × Machine). Kept m r.1) (new_methods m l)
unfolding new_methods
new_methods-Kept m [] = Kept-refl m
new_methods-Kept m (n ∷ l) =
    Ensures-bind (KeptBy m) _ (new_function m n) _ (new_function-Kept m n) λ r k.
      Ensures-bind (λ (q : List Register × Machine). Kept r.1 q.1) _ (new_methods r.1 l) _
        (new_methods-Kept r.1 l) λ q k'. Kept-trans k k'

prepare-Kept : (m : Machine) (n : ℕ) → Ensures (Kept m) (prepare_for_sequent_allocations m n)
unfolding prepare_for_sequent_allocations
prepare-Kept m n = Ensures-of (Kept m) (prepare_for_sequent_allocations m n) (λ m' e. ground arith)

pub new_object-Kept :
    (m : Machine) (t : Mapping) (l : List ℕ) → Ensures (KeptBy m) (new_object m t l)
unfolding new_object
new_object-Kept m t l =
    Ensures-bind (Kept m) (KeptBy m) (prepare_for_sequent_allocations m _) _ (prepare-Kept m _)
      λ m1 k1.
        Ensures-bind (KeptBy m1) (KeptBy m) (pool_alloc_bytes m1 _) _ (pool_alloc_bytes-Kept m1 _)
          λ r k2. Ensures-guard (KeptBy m) (leb (length l) (length t)) assertion _ λ _.
            Ensures-bind (λ q. Kept r.1 q.1) (KeptBy m) (new_methods r.1 l) _
              (new_methods-Kept r.1 l)
              λ q k3.
                let k = Kept-trans (Kept-trans k1 k2) k3 in
                record { below = k.below; back = k.back }

-- An allocation whose address goes into the accumulator.
pub alloc-set_acc :
    (m : Machine) (a : Outcome (ℕ × Machine)) (r : ℕ → Register)
    → Ensures (KeptBy m) a
    → Ensures (Kept m) (a >>= λ q. set_acc q.1 (r q.0))
alloc-set_acc m a r k = Ensures-bind (KeptBy m) (Kept m) a _ k λ q h.
    Ensures-of (Kept m) (set_acc q.1 (r q.0))
      (λ m' e. Kept-trans h (Ensures-eq (Kept q.1) _ e (set_acc-Kept q.1 (r q.0))))
