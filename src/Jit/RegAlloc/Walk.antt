-- ===== src/Jit/RegAlloc/Walk.antt =====
-- A walk of jit/ir/graph/analyses/reg_alloc.h over the instructions, one step at a time.
use k3s_virtual_machine.Base.{
  ℕ, ◌<◌, ◌≡◌, ◌≢◌, refl, sym, ap, ◌∙◌, subst, inl, inr, Bool, true, false, ◌&&◌, ◌||◌, not, Option,
  some, List, [], ◌∷◌, ◌==◌, ltb, leb, Bool-cases, Option-cases, NotIn, Distinct, In-NotIn,
  NotIn-of, length, get_elem?, set, get_elem?-set_self, get_elem?-set_ne, get_elem?-lt,
  if◌then◌else◌, ok, from_option, assertion, Ensures, Ensures-bind, Ensures-guard, Ensures-any,
  Ensures-map,
}
use k3s_virtual_machine.Jit.LiveInterval.{LiveInterval, endpoint, startpoint}
use k3s_virtual_machine.Jit.RegAlloc.{
  RegAlloc, Location, reg, Step, last_item, current_location, get_interval, split, set_from,
  found_in_active, is_reg, bool_eq, is_active, recycle, expire_old_intervals, find_free,
  allocate_free_reg, insert_active, before, fill_input, fill_inputs, allocate_dst, allocate_inst,
  regs_count,
}
use k3s_virtual_machine.Jit.RegAlloc.Registers.{
  HasReg, IsBusy, IsApart, reg-eq, IsApart-release, find_free-some,
}
use k3s_virtual_machine.Jit.RegAlloc.Splits.{IsSync, IsSplit, split-IsSplit}
use k3s_virtual_machine.Jit.RegAlloc.Choice.{IsInsertion, insert_active-IsInsertion}
use k3s_virtual_machine.Jit.RegAlloc.Scan.{
  Holds, activate-Holds, set_from-HasReg, set_from_other, set_from-IsSync, spill-Holds,
}

-- A register that is not busy, and is from now on.
record IsFree (s : RegAlloc) (r : ℕ) (s' : RegAlloc) : Type 0 where
  was : get_elem? s.busy_regs r ≡ some false
  now : s' ≡ record s { busy_regs = set s.busy_regs r true }

allocate_free_reg-IsFree : (s : RegAlloc) → Ensures (λ p. IsFree s p.0 p.1) (allocate_free_reg s)
unfolding allocate_free_reg
allocate_free_reg-IsFree s = elim (Option-cases (find_free s.busy_regs)) [
  | inl e ↦ rw e tt
  | inr (r, e) ↦ rw e (record { was = find_free-some s.busy_regs r e; now = refl })
]

set-keeps-IsBusy :
    (busy : List Bool) (r q : ℕ)
    → get_elem? busy r ≡ some false
    → IsBusy busy q
    → IsBusy (set busy r true) q
set-keeps-IsBusy busy r q free b =
    let ne : r ≢ q = λ e.
      let same : some false ≡ some true = sym free ∙ (ap (λ k. get_elem? busy k) e ∙ b) in cc in
    get_elem?-set_ne busy r q true ne ∙ b

-- The state before InsertActive, when a register is free: only `i` has other locations than before.
take-Holds :
    (later : List ℕ) (s s4 : RegAlloc) (i r : ℕ)
    → Holds later s
    → NotIn i s.active
    → NotIn i later
    → get_elem? s.busy_regs r ≡ some false
    → s4.busy_regs ≡ set s.busy_regs r true
    → s4.active ≡ s.active
    → ((j : ℕ) → i ≢ j → s4.locations j ≡ s.locations j)
    → ((v : LiveInterval)
        → s4.intervals i ≡ some v
        → 0 < length v.intervals
        → HasReg s4.locations i r)
    → IsSync s4.intervals s4.locations
    → Ensures (Holds later) (insert_active s4 i)
take-Holds later s s4 i r h out not_later free busy active others has sync =
    Ensures-map (IsInsertion s4 i) (Holds later) (insert_active s4 i)
      (insert_active-IsInsertion s4 i)
      (λ s' ins.
        let (v, at_i, inside) = ins.found in
        activate-Holds later s s4 s' s.active i r h h.apart out
          (λ j m has_j.
            let (q, has_q, busy_q) = h.apart.held j m in
            let e : q ≡ r = reg-eq (sym has_q ∙ has_j) in
            let clash : some true ≡ some false =
              sym busy_q ∙ (ap (λ k. get_elem? s.busy_regs k) e ∙ free) in
            cc)
          (λ j m. others j (elim m [
            | inl a ↦ λ e. In-NotIn j s.active a (subst (λ k. NotIn k s.active) e out)
            | inr n ↦ λ e. In-NotIn j later n (subst (λ k. NotIn k later) e not_later)
          ]))
          (has v at_i inside)
          (λ q b. ap (λ k. get_elem? k q) busy ∙ set-keeps-IsBusy s.busy_regs r q free b)
          (ap (λ k. get_elem? k r) busy
            ∙ get_elem?-set_self s.busy_regs r true (get_elem?-lt s.busy_regs r free))
          active sync ins)

-- IsActive returns whether the location is a register.
is_active-Ensures :
    (s : RegAlloc) (i ln : ℕ)
    → Ensures
        (λ b. (l : Location) × (last_item (s.locations i) ≡ some (some l)) × (b ≡ is_reg l))
        (is_active s i ln)
unfolding is_active current_location
is_active-Ensures s i ln = elim (Option-cases (last_item (s.locations i))) [
  | inl e ↦ rw e tt
  | inr (o, e) ↦ elim (Option-cases o) [
    | inl n ↦ rw (e, n) tt
    | inr (l, at_l) ↦
        let here : last_item (s.locations i) ≡ some (some l) = e ∙ ap some at_l in
        rw here (
          Ensures-any (At (some (some l))) (get_interval s i) _ (λ v.
            Ensures-any (At (some (some l))) (endpoint v) _ (λ end.
              Ensures-guard (At (some (some l)))
                (bool_eq (found_in_active s.active i) (is_reg l)
                  || end == ln && (is_reg l && not (found_in_active s.active i)))
                assertion _ (λ _. (l, refl, refl)))))
  ]
]
  where
    At : Option (Option Location) → Bool → Type 0
    At o b = (l : Location) × (o ≡ some (some l)) × (b ≡ is_reg l)

-- An interval without a register is not active, and one with a location is not to come.
out_of_active :
    (later : List ℕ) (s : RegAlloc) (i : ℕ) (l : Location)
    → Holds later s
    → last_item (s.locations i) ≡ some (some l)
    → is_reg l ≡ false
    → NotIn i s.active
out_of_active later s i l h at_l no_reg = NotIn-of i s.active (λ m.
    let (r, has, busy) = h.apart.held i m in
    let e : reg r ≡ l = let both : some (some (reg r)) ≡ some (some l) = sym has ∙ at_l in cc in
    let clash : true ≡ false = ap (λ k. is_reg k) e ∙ no_reg in cc)

-- The body of the loop of FillInputs
fill_input-Holds :
    (later : List ℕ) (s : RegAlloc) (ln input : ℕ)
    → Holds later s
    → Ensures (Holds later) (fill_input s ln input)
unfolding fill_input set_from
fill_input-Holds later s ln input h =
    Ensures-bind
      (λ b. (l : Location) × (last_item (s.locations input) ≡ some (some l)) × (b ≡ is_reg l))
      (Holds later) (is_active s input ln) _ (is_active-Ensures s input ln)
      (λ active (l, at_l, is).
        let not_later = NotIn-of input later (λ n. h.fresh input n l at_l) in
        elim (Bool-cases active) [
          | inl yes_reg ↦ rw yes_reg h
          | inr no_reg ↦
              let out = out_of_active later s input l h at_l (sym is ∙ no_reg) in
              elim (Bool-cases (length s.active == regs_count)) [
                | inl full ↦ rw (no_reg, full) (spill-Holds later s input ln h out not_later)
                | inr room ↦
                    rw (no_reg, room)
                      (Ensures-guard (Holds later) (ltb (length s.active) regs_count) assertion _
                        (λ _.
                          Ensures-bind (λ p. IsFree s p.0 p.1) (Holds later) (allocate_free_reg s) _
                            (allocate_free_reg-IsFree s)
                            (λ (r, s1) free.
                              let sync1 : IsSync s1.intervals s1.locations =
                                subst (λ z. IsSync z.intervals z.locations) (sym free.now) h.sync in
                              Ensures-bind (λ p. IsSplit s1 input p.0 p.1) (Holds later)
                                (split s1 input (before ln)) _
                                (split-IsSplit s1 input (before ln) sync1)
                                (λ (pos, s2) a.
                                  take-Holds later s (set_from s2 input pos (reg r)) input r h out
                                    not_later free.was (a.busy ∙ ap (λ z. z.busy_regs) free.now)
                                    (a.active ∙ ap (λ z. z.active) free.now)
                                    (λ j ne.
                                      set_from_other s2 input pos (reg r) j ne
                                      ∙ (a.others j ne ∙ ap (λ z. z.locations j) free.now))
                                    (λ v at_i some_range. set_from-HasReg s2 input pos r a.inside)
                                    (set_from-IsSync s2 input pos (reg r) a.sync)))))
              ]
        ])

-- The body of the loop of AllocateRegisters, for the instruction itself
allocate_dst-Holds :
    (later : List ℕ) (s : RegAlloc) (i : ℕ)
    → Holds (i ∷ later) s
    → NotIn i later
    → Ensures (Holds later) (allocate_dst s i)
unfolding allocate_dst set_from
allocate_dst-Holds later s i h not_later =
    Ensures-any (Holds later) (from_option assertion (s.intervals i)) _ (λ v.
      elim (Bool-cases (length s.active == regs_count)) [
        | inl full ↦ rw full (
            Ensures-any (Holds later) (startpoint v) _
              (λ start. spill-Holds later s i start rest out not_later))
        | inr room ↦ rw room (
            Ensures-guard (Holds later) (ltb (length s.active) regs_count) assertion _ (λ _.
              Ensures-bind (λ p. IsFree s p.0 p.1) (Holds later) (allocate_free_reg s) _
                (allocate_free_reg-IsFree s)
                (λ (r, s1) free.
                  let sync1 : IsSync s1.intervals s1.locations =
                    subst (λ z. IsSync z.intervals z.locations) (sym free.now) h.sync in
                  take-Holds later s (set_from s1 i 0 (reg r)) i r rest out not_later free.was
                    (ap (λ z. z.busy_regs) free.now) (ap (λ z. z.active) free.now)
                    (λ j ne. set_from_other s1 i 0 (reg r) j ne ∙ ap (λ z. z.locations j) free.now)
                    (λ w at_i some_range.
                      set_from-HasReg s1 i 0 r
                        (subst (λ n. 0 < n) (sym (sync1 i w at_i)) some_range))
                    (set_from-IsSync s1 i 0 (reg r) sync1))))
      ])
  where
    rest : Holds later s
    rest = record { apart = h.apart; sync = h.sync; fresh = λ j n. h.fresh j (inr n) }

    out : NotIn i s.active
    out =
        NotIn-of i s.active
          (λ m. let (r, has, busy) = h.apart.held i m in h.fresh i (inl refl) (reg r) has)

fill_inputs-Holds :
    (later : List ℕ) (s : RegAlloc) (ln : ℕ) (inputs : List ℕ)
    → Holds later s
    → Ensures (Holds later) (fill_inputs s ln inputs)
unfolding fill_inputs
fill_inputs-Holds later s ln [] h = h
fill_inputs-Holds later s ln (input ∷ inputs) h =
    Ensures-bind (Holds later) (Holds later) (fill_input s ln input) _
      (fill_input-Holds later s ln input h) (λ s' h'. fill_inputs-Holds later s' ln inputs h')

-- ExpireOldIntervals, from the front of the active intervals
recycle-Holds :
    (later : List ℕ) (s : RegAlloc) (i : ℕ) (rest : List ℕ)
    → Holds later s
    → s.active ≡ i ∷ rest
    → Ensures (λ s'. Holds later s' × (s'.active ≡ rest)) (recycle s i rest)
unfolding recycle current_location
recycle-Holds later s i rest h e =
    let apart : IsApart (i ∷ rest) s.busy_regs s.locations =
      subst (λ l. IsApart l s.busy_regs s.locations) e h.apart in
    let (r, has, busy) = apart.held i (inl refl) in
    rw (has, busy)
      (
        record {
          apart = IsApart-release i rest s.busy_regs s.locations r apart has;
          sync = h.sync;
          fresh = h.fresh;
        },
        refl,
      )

expire-Holds :
    (later : List ℕ) (s : RegAlloc) (l : List ℕ) (point : ℕ)
    → Holds later s
    → s.active ≡ l
    → Ensures (Holds later) (expire_old_intervals s l point)
unfolding expire_old_intervals
expire-Holds later s [] point h e = h
expire-Holds later s (i ∷ rest) point h e = Ensures-any (Holds later) (get_interval s i) _ (λ v.
    Ensures-any (Holds later) (endpoint v) _ (λ end. elim (Bool-cases (leb end point)) [
      | inl past ↦ rw past (
          Ensures-bind (λ s'. Holds later s' × (s'.active ≡ rest)) (Holds later) (recycle s i rest)
            _ (recycle-Holds later s i rest h e)
            (λ s' (h', e'). expire-Holds later s' rest point h' e'))
      | inr stays ↦ rw stays h
    ]))

-- The instructions that get a first register.
abbrev pub dsts : List Step → List ℕ
dsts [] = []
dsts (step ∷ steps) = if step.has_dst then step.inst ∷ dsts steps else dsts steps

pub allocate_inst-Holds :
    (s : RegAlloc) (step : Step) (steps : List Step)
    → Holds (dsts (step ∷ steps)) s
    → Distinct (dsts (step ∷ steps))
    → Ensures (Holds (dsts steps)) (allocate_inst s step)
unfolding allocate_inst
allocate_inst-Holds s step steps h d =
    Ensures-bind (Holds all) (Holds (dsts steps)) (expire_old_intervals s s.active step.ln) _
      (expire-Holds all s s.active step.ln h refl)
      (λ s1 h1.
        Ensures-bind (Holds all) (Holds (dsts steps))
          (if step.phi then ok s1 else fill_inputs s1 step.ln step.inputs) _
          (elim (Bool-cases step.phi) [
            | inl e ↦ rw e h1
            | inr e ↦ rw e (fill_inputs-Holds all s1 step.ln step.inputs h1)
          ])
          (λ s2 h2. elim (Bool-cases step.has_dst) [
            | inl e ↦
                let of_all : all ≡ step.inst ∷ dsts steps = rw e refl in
                let d' : Distinct (step.inst ∷ dsts steps) = subst Distinct of_all d in
                rw e (
                  allocate_dst-Holds (dsts steps) s2 step.inst (subst (λ l. Holds l s2) of_all h2)
                    d'.0)
            | inr e ↦
                let of_all : all ≡ dsts steps = rw e refl in
                rw e (subst (λ l. Holds l s2) of_all h2)
          ]))
  where
    all : List ℕ
    all = dsts (step ∷ steps)
