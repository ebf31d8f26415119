-- ===== src/Jit/RegAlloc/Scan.antt =====
-- The scan of jit/ir/graph/analyses/reg_alloc.h keeps the registers of the active intervals apart.
use k3s_virtual_machine.Base.{
  ℕ, ◌+◌, ◌<◌, ◌≡◌, ◌≢◌, refl, sym, ap, ◌∙◌, subst, ◌⊎◌, inl, inr, Bool, true, Option, none, some,
  List, ◌==◌, ==_iff, ltb, Bool-cases, In, NotIn, Distinct, In-NotIn, NotIn-of, length, get_elem?,
  set, ok, err, ◌>>=◌, from_option, assertion, undefined, Ensures, Ensures-bind, Ensures-guard,
  Ensures-any, Ensures-map,
}
use k3s_virtual_machine.Jit.RegAlloc.{
  RegAlloc, Location, undef, reg, slot, last_item, located, current_location, get_reg, split,
  set_rest, set_from, remove, get_unused_interval_to_spill, insert_active, before,
  spill_unused_and_activate,
}
use k3s_virtual_machine.Jit.RegAlloc.Registers.{
  Locations, HasReg, IsBusy, IsApart, IsInsert, reg-eq, IsApart-insert, IsApart-shrink,
  last_item-set_rest, length-set_rest, In-remove, remove-Distinct,
}
use k3s_virtual_machine.Jit.RegAlloc.Splits.{
  IsSync, update_here, update_other, IsSplit, split-IsSplit,
}
use k3s_virtual_machine.Jit.RegAlloc.Choice.{
  IsChoice, get_unused-IsChoice, IsInsertion, insert_active-IsInsertion,
}

abbrev pub Fresh : Locations → ℕ → Type 0
Fresh locations i = (l : Location) → last_item (locations i) ≢ some (some l)

-- The state between two steps, with the instructions that are still to get their first register.
pub record Holds (later : List ℕ) (s : RegAlloc) : Type 0 where
  pub apart : IsApart s.active s.busy_regs s.locations
  pub sync : IsSync s.intervals s.locations
  pub fresh : (i : ℕ) → In i later → Fresh s.locations i

pub active_ne_later :
    (later : List ℕ) (s : RegAlloc) (i j : ℕ) → Holds later s → In i s.active → In j later → i ≢ j
active_ne_later later s i j h a n e =
    let (r, has, busy) = h.apart.held i a in
    h.fresh j n (reg r) (subst (λ k. HasReg s.locations k r) e has)

located_reg :
    (o : Option (Option Location))
    → Ensures
        (λ r. o ≡ some (some (reg r)))
        (located o >>= λ l. elim l [
          | undef ↦ err assertion
          | slot n ↦ err assertion
          | reg n ↦ ok n
        ])
located_reg none = tt
located_reg (some none) = tt
located_reg (some (some undef)) = tt
located_reg (some (some (slot n))) = tt
located_reg (some (some (reg r))) = refl

get_reg-HasReg : (s : RegAlloc) (i : ℕ) → Ensures (HasReg s.locations i) (get_reg s i)
unfolding get_reg current_location
get_reg-HasReg s i = located_reg (last_item (s.locations i))

-- The registers of an interval from a place on.
pub set_from-HasReg :
    (s : RegAlloc) (i pos r : ℕ)
    → pos < length (s.locations i)
    → HasReg ((set_from s i pos (reg r)).locations) i r
unfolding set_from
set_from-HasReg s i pos r inside =
    ap last_item (update_here s.locations i (set_rest (s.locations i) pos (reg r)))
    ∙ last_item-set_rest (s.locations i) pos (reg r) inside

pub set_from-IsSync :
    (s : RegAlloc) (i pos : ℕ) (l : Location)
    → IsSync s.intervals s.locations
    → IsSync s.intervals ((set_from s i pos l).locations)
unfolding set_from
set_from-IsSync s i pos l sync = λ j v e. elim (Bool-cases (i == j)) [
  | inl on ↦ rw on (
      length-set_rest (s.locations i) pos l
      ∙ sync i v (subst (λ k. s.intervals k ≡ some v) (sym ((==_iff i j).0 on)) e))
  | inr off ↦ rw off (sync j v e)
]

-- An interval that is not active takes a register that no active interval has.
pub activate-Holds :
    (later : List ℕ) (s s4 s' : RegAlloc) (l : List ℕ) (i r : ℕ)
    → Holds later s
    → IsApart l s.busy_regs s.locations
    → NotIn i l
    → ((j : ℕ) → In j l → HasReg s.locations j r → ⊥)
    → ((j : ℕ) → In j l ⊎ In j later → s4.locations j ≡ s.locations j)
    → HasReg s4.locations i r
    → ((q : ℕ) → IsBusy s.busy_regs q → IsBusy s4.busy_regs q)
    → IsBusy s4.busy_regs r
    → s4.active ≡ l
    → IsSync s4.intervals s4.locations
    → IsInsertion s4 i s'
    → Holds later s'
activate-Holds later s s4 s' l i r h apart out free same has keeps busy active sync ins = record {
  apart =
      IsApart-insert l s'.active s.busy_regs s'.busy_regs s.locations s'.locations i r apart out
        free (λ j m. moved j ∙ same j (inl m)) (ap last_item (moved i) ∙ has)
        (λ q b. regs q ∙ keeps q b) (regs r ∙ busy)
        (subst (λ k. IsInsert i k s'.active) active ins.active);
  sync = λ j v e. ap length (moved j) ∙ sync j v (ap (λ f. f j) (sym ins.intervals) ∙ e);
  fresh = λ j n k e. h.fresh j n k (ap last_item (sym (moved j ∙ same j (inr n))) ∙ e);
}
  where
    moved : (j : ℕ) → s'.locations j ≡ s4.locations j
    moved j = ap (λ f. f j) ins.locations

    regs : (q : ℕ) → get_elem? s'.busy_regs q ≡ get_elem? s4.busy_regs q
    regs q = ap (λ f. get_elem? f q) ins.busy

pub set_from_other :
    (s : RegAlloc) (i pos : ℕ) (l : Location) (j : ℕ)
    → i ≢ j
    → (set_from s i pos l).locations j ≡ s.locations j
unfolding set_from
set_from_other s i pos l j ne = update_other s.locations i (set_rest (s.locations i) pos l) j ne

-- The registers after the spill, in the state on which InsertActive is called.
abbrev spilled : RegAlloc → ℕ → ℕ → ℕ → ℕ → ℕ → Location → List Bool → ℕ → RegAlloc
spilled s3 used u up pos r l slots n =
    let s5 = set_from (set_from s3 used pos (reg r)) u up l in
    record s5 { busy_slots = slots; slots_used = n; active = remove s5.active u }

spilled-Holds :
    (later : List ℕ) (s s1 s2 s3 : RegAlloc) (used u up pos r : ℕ) (l : Location)
    (slots : List Bool) (n : ℕ)
    → Holds later s
    → NotIn used s.active
    → NotIn used later
    → In u s.active
    → IsChoice s s.active u u s1
    → HasReg s1.locations u r
    → IsSplit s1 u up s2
    → IsSplit s2 used pos s3
    → Ensures (Holds later) (insert_active (spilled s3 used u up pos r l slots n) used)
unfolding set_from
spilled-Holds later s s1 s2 s3 used u up pos r l slots n h out not_later member c has a b =
    Ensures-map (IsInsertion s6 used) (Holds later) (insert_active s6 used)
      (insert_active-IsInsertion s6 used)
      (λ s' ins.
        activate-Holds later s s6 s' rest used r h
          (IsApart-shrink s.active rest s.busy_regs s.locations h.apart
            (λ x m. In-remove s.active u x m) gone.0)
          (NotIn-of used rest (λ m. In-NotIn used s.active (In-remove s.active u used m) out))
          (λ j m has_j.
            let e : u ≡ j = h.apart.apart u j r member (In-remove s.active u j m) has_u has_j in
            In-NotIn j rest m (subst (λ k. NotIn k rest) e gone.1))
          (λ j m. others j (not_u j m) (not_used j m))
          (ap last_item (set_from_other s4 u up l used (λ e. ne (sym e)))
            ∙ set_from-HasReg s3 used pos r b.inside)
          (λ q e. ap (λ k. get_elem? k q) busy ∙ e) (ap (λ k. get_elem? k r) busy ∙ busy_r)
          (ap (λ k. remove k u) active)
          (set_from-IsSync s4 u up l (set_from-IsSync s3 used pos (reg r) b.sync)) ins)
  where
    s4 : RegAlloc
    s4 = set_from s3 used pos (reg r)

    s6 : RegAlloc
    s6 = spilled s3 used u up pos r l slots n

    rest : List ℕ
    rest = remove s.active u

    gone : Distinct rest × NotIn u rest
    gone = remove-Distinct s.active u h.apart.distinct

    has_u : HasReg s.locations u r
    has_u = ap (λ f. last_item (f u)) (sym c.locations) ∙ has

    ne : used ≢ u
    ne e = In-NotIn u s.active member (subst (λ k. NotIn k s.active) e out)

    not_u : (j : ℕ) → In j rest ⊎ In j later → u ≢ j
    not_u j (inl m) = λ e. In-NotIn j rest m (subst (λ k. NotIn k rest) e gone.1)
    not_u j (inr m) = active_ne_later later s u j h member m

    not_used : (j : ℕ) → In j rest ⊎ In j later → used ≢ j
    not_used j (inl m) =
        λ e. In-NotIn j s.active (In-remove s.active u j m) (subst (λ k. NotIn k s.active) e out)
    not_used j (inr m) = λ e. In-NotIn j later m (subst (λ k. NotIn k later) e not_later)

    others : (j : ℕ) → u ≢ j → used ≢ j → s6.locations j ≡ s.locations j
    others j n m =
        set_from_other s4 u up l j n
        ∙ (set_from_other s3 used pos (reg r) j m
            ∙ (b.others j m ∙ (a.others j n ∙ ap (λ f. f j) c.locations)))

    busy : s3.busy_regs ≡ s.busy_regs
    busy = b.busy ∙ (a.busy ∙ c.busy)

    active : s3.active ≡ s.active
    active = b.active ∙ (a.active ∙ c.active)

    busy_r : IsBusy s.busy_regs r
    busy_r =
        let (q, has_q, busy_q) = h.apart.held u member in
        subst (IsBusy s.busy_regs) (reg-eq (sym has_q ∙ has_u)) busy_q

-- SpillUnusedAndActivate
pub spill-Holds :
    (later : List ℕ) (s : RegAlloc) (used point : ℕ)
    → Holds later s
    → NotIn used s.active
    → NotIn used later
    → Ensures (Holds later) (spill_unused_and_activate s used point)
unfolding spill_unused_and_activate set_from
spill-Holds later s used point h out not_later =
    Ensures-bind (λ r. IsChoice s s.active r.0 r.0 r.1 × In r.0 s.active) (Holds later)
      (get_unused_interval_to_spill s point) _ (get_unused-IsChoice s point h.sync)
      (λ (u, s1) (c, member).
        Ensures-bind (HasReg s1.locations u) (Holds later) (get_reg s1 u) _ (get_reg-HasReg s1 u)
          (λ r has.
            Ensures-any (Holds later) (from_option undefined (get_elem? s1.busy_regs r)) _ (λ busy.
              Ensures-guard (Holds later) busy assertion _ (λ _.
                Ensures-bind (λ p. IsSplit s1 u p.0 p.1) (Holds later) (split s1 u (before point)) _
                  (split-IsSplit s1 u (before point) c.sync)
                  (λ (up, s2) a.
                    Ensures-bind (λ p. IsSplit s2 used p.0 p.1) (Holds later) (split s2 used point)
                      _ (split-IsSplit s2 used point a.sync)
                      (λ (pos, s3) b.
                        let s4 = set_from s3 used pos (reg r) in
                        let s5 = set_from s4 u up (slot s4.slots_used) in
                        Ensures-guard (Holds later) (ltb s5.slots_used (length s5.busy_slots))
                          undefined _
                          (λ _.
                            spilled-Holds later s s1 s2 s3 used u up pos r (slot s4.slots_used)
                              (set s5.busy_slots s5.slots_used true) (s5.slots_used + 1) h out
                              not_later member c has a b)))))))
