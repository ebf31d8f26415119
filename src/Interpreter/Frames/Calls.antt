-- ===== src/Interpreter/Frames/Calls.antt =====
-- A CALL of interpreter/interpreter.cpp and the RET that answers it.
use k3s_virtual_machine.Base.{
  ap, ℕ, suc, ◌+◌, ◌%◌, ◌<◌, ◌≤◌, arith, ◌≡◌, refl, subst, List, [], ◌∷◌, ok, u64_mod, length, ◌⊎◌,
  inl, inr,
}
use k3s_virtual_machine.Interpreter.Machine.{Machine, Frame}
use k3s_virtual_machine.Interpreter.Values.{Doubles}
use k3s_virtual_machine.Interpreter.Step.{running, step}
use k3s_virtual_machine.Interpreter.Frames.Primitives.{callers, link}
use k3s_virtual_machine.Interpreter.Frames.Moves.{Move, inside, entered, left, step-Move}

-- Rounds in each of which, the first and the last machine included, more than `n` frames are stacked. No
-- allocation of theirs collects garbage, since `step` ends such a round with the fault `collection`.
pub data Above (d : Doubles) (n : ℕ) : Machine → Machine → Type 0 where
  stop : {m : Machine} → n < length m.state_stack → Above d n m m
  round :
      {m m' m'' : Machine}
      → n < length m.state_stack
      → step d m ≡ ok (running m')
      → Above d n m' m''
      → Above d n m m''

-- Frames that stand on `s`; the lowest of them returns to `pc`.
Owes : List Frame → ℕ → List Frame → Type 0
Owes s pc [] = ⊥
Owes s pc (f ∷ fs) = ((f.caller_pc ≡ pc) × (fs ≡ s)) ⊎ Owes s pc fs

Owes-length : (s : List Frame) (pc : ℕ) (l : List Frame) → Owes s pc l → length s < length l
unfolding Owes
Owes-length s pc [] o = elim o [ ]
Owes-length s pc (f ∷ fs) (inl h) = rw h.1 omega arith
Owes-length s pc (f ∷ fs) (inr o) = let h = Owes-length s pc fs o in omega arith

-- A stack with the same frames below the top and the same way back.
Owes-link :
    (s : List Frame) (pc : ℕ) (l l' : List Frame)
    → callers l' ≡ callers l
    → link l' ≡ link l
    → Owes s pc l
    → Owes s pc l'
unfolding Owes
Owes-link s pc [] l' h k o = elim o [ ]
Owes-link s pc (f ∷ fs) (g ∷ gs) h k (inl o) = inl (cc, cc)
Owes-link s pc (f ∷ fs) (g ∷ gs) h k (inr o) = inr (rw h o)
Owes-link s pc (f ∷ fs) [] h k o = cc

step-Owes :
    (s : List Frame) (pc : ℕ) (m m' : Machine)
    → Move m m'
    → Owes s pc m.state_stack
    → Owes s pc m'.state_stack ⊎ ((m'.state_stack ≡ s) × (m'.pc ≡ (pc + 1) % u64_mod))
unfolding Owes
step-Owes s pc m m' (inside k) o =
    inl (Owes-link s pc m.state_stack m'.state_stack k.below k.back o)
step-Owes s pc m m' (entered f e k) o = inl (rw k (inr o))
step-Owes s pc m m' (left f e k) o =
    let o' : Owes s pc (f ∷ m'.state_stack) = subst (Owes s pc) e o in
    elim o' [ inl h ↦ inr (h.1, rw k rw h.0 refl) | inr h ↦ inl h ]

Above-length : (d : Doubles) (n : ℕ) (m m' : Machine) → Above d n m m' → n < length m.state_stack
Above-length d n m m' (stop h) = h
Above-length d n m m' (round h e r) = h

not_back : (n : ℕ) (s l : List Frame) → length s < length l → l ≡ s → Owes s n l
not_back n s l h e =
    let h' : length s < length s = rw e at h in let b : ⊥ = omega arith in elim b [ ]

run-Owes :
    (d : Doubles) (s : List Frame) (pc : ℕ) (m m' : Machine)
    → Above d (length s) m m'
    → Owes s pc m.state_stack
    → Owes s pc m'.state_stack
run-Owes d s pc m m' (stop h) o = o
run-Owes d s pc m m' (round {m' = n} h e r) o =
    let k : Owes s pc n.state_stack = elim (step-Owes s pc m n (step-Move d m n e) o) [
      | inl k ↦ k
      | inr k ↦ not_back pc s n.state_stack (Above-length d _ n m' r) k.0
    ] in
    run-Owes d s pc n m' r k

kept-length : (l l' : List Frame) → callers l' ≡ callers l → link l' ≡ link l → length l' ≡ length l
kept-length [] [] h k = refl
kept-length [] (g ∷ gs) h k = cc
kept-length (f ∷ fs) [] h k = cc
kept-length (f ∷ fs) (g ∷ gs) h k = ap (λ l. suc (length l)) h

-- The round that deepens the stack is a call.
enter-Owes :
    (m m' : Machine)
    → Move m m'
    → length m.state_stack < length m'.state_stack
    → Owes m.state_stack m.pc m'.state_stack
unfolding Owes
enter-Owes m m' (inside k) h =
    let e = kept-length m.state_stack m'.state_stack k.below k.back in
    let b : ⊥ = omega arith in elim b [ ]
enter-Owes m m' (entered f e k) h = rw k (inl (e, refl))
enter-Owes m m' (left f e k) h =
    let e' : length m.state_stack ≡ suc (length m'.state_stack) = rw e refl in
    let b : ⊥ = omega arith in elim b [ ]

-- For a round that goes on and deepens the stack of frames, any number of rounds at that depth or
-- deeper, and a round that comes back to the first depth or less, in none of which an allocation
-- collects garbage (a round that collects ends the model's run with a fault of its own), the stack
-- is afterwards exactly the first one, with the registers of all its frames, and the program
-- counter is one behind the call, modulo 2^64.
pub call-returns :
    (d : Doubles) (m m1 m2 m3 : Machine)
    → step d m ≡ ok (running m1)
    → Above d (length m.state_stack) m1 m2
    → step d m2 ≡ ok (running m3)
    → length m3.state_stack ≤ length m.state_stack
    → (m3.state_stack ≡ m.state_stack) × (m3.pc ≡ (m.pc + 1) % u64_mod)
call-returns d m m1 m2 m3 e r e' h =
    let o = enter-Owes m m1 (step-Move d m m1 e) (Above-length d _ m1 m2 r) in
    elim (step-Owes _ _ m2 m3 (step-Move d m2 m3 e') (run-Owes d _ _ m1 m2 r o)) [
      | inl k ↦ let h' = Owes-length _ _ _ k in let b : ⊥ = omega arith in elim b [ ]
      | inr k ↦ k
    ]
