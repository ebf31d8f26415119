-- ===== src/Jit/RegAlloc/Splits.antt =====
-- What a split of an interval leaves alone in the state of jit/ir/graph/analyses/reg_alloc.h.
use k3s_virtual_machine.Base.{
  ℕ, suc, ◌+◌, ◌%◌, get_elem?-append_last, ◌<◌, ◌≡◌, ◌≢◌, refl, sym, ap, ◌∙◌, subst, ◌⊎◌, inl, inr,
  true, false, Option, none, some, List, [], ◌∷◌, arith, ◌==◌, ==_iff, ==_refl, ltb, leb,
  Bool-cases, Option-cases, length, get_elem?, set, if◌then◌else◌, update, assertion, Ensures,
  Ensures-bind, Ensures-guard, Ensures-any, u32_mod, length-append, length-set, get_elem?-lt,
}
use k3s_virtual_machine.Jit.LiveInterval.{
  LiveInterval, LiveRange, split_at, cut_range, find_range_covering_or_after, startpoint, endpoint,
  new_range, insert_at, set_end, set_begin,
}
use k3s_virtual_machine.Jit.RegAlloc.{RegAlloc, Location, split}
use k3s_virtual_machine.Jit.RegAlloc.Registers.{Locations, length-insert_at}

-- Each range of an interval has a place in the list of its locations.
abbrev pub IsSync : (ℕ → Option LiveInterval) → Locations → Type 0
IsSync intervals locations =
    (i : ℕ) (v : LiveInterval) → intervals i ≡ some v → length (locations i) ≡ length v.intervals

-- A range was found or made, and there is one range more at most.
abbrev Grows : ℕ → ℕ × LiveInterval → Type 0
Grows n r =
    (r.0 < length r.1.intervals) × ((length r.1.intervals ≡ n) ⊎ (length r.1.intervals ≡ suc n))

cut_range-Grows :
    (i : LiveInterval) (pos point : ℕ)
    → Ensures (Grows (length i.intervals)) (cut_range i pos point)
unfolding cut_range new_range
cut_range-Grows i pos point = elim (Option-cases (get_elem? i.intervals pos)) [
  | inl e ↦ rw e tt
  | inr (r, e) ↦
      let inside : pos < length i.intervals = get_elem?-lt i.intervals pos e in
      elim (Bool-cases (ltb r.begin point)) [
        | inl cut ↦
            rw (e, cut)
              (Ensures-any (Grows (length i.intervals)) (new_range point r.end) _ (λ tail.
                let rs = set i.intervals pos (set_end r point) in
                let grown : length (insert_at rs (pos + 1) tail) ≡ suc (length i.intervals) =
                  length-insert_at rs (pos + 1) tail
                  ∙ ap suc (length-set i.intervals pos (set_end r point)) in
                (omega (arith, grown), inr grown)))
        | inr keep ↦
            let kept = length-set i.intervals pos (set_begin r point) in
            rw (e, keep) (omega (arith, kept), inl kept)
      ]
]

-- Either no range was made, or the last one begins at the point.
abbrev Found : LiveInterval → ℕ → ℕ × LiveInterval → Type 0
Found i point r =
    (length r.1.intervals ≡ length i.intervals)
    ⊎ ((length r.1.intervals ≡ suc (length i.intervals))
        × ((e : ℕ) × (get_elem? r.1.intervals r.0 ≡ some (record { begin = point; end = e }))))

find-Found :
    (i : LiveInterval) (point : ℕ) → Ensures (Found i point) (find_range_covering_or_after i point)
unfolding find_range_covering_or_after new_range
find-Found i point = Ensures-any (Found i point) (startpoint i) _ (λ first.
    Ensures-guard (Found i point) (leb first point) assertion _ (λ _.
      Ensures-any (Found i point) (endpoint i) _ (λ last. elim (Bool-cases (leb last point)) [
        | inl past ↦ rw past (
            Ensures-bind (λ r. r ≡ made) (Found i point) (new_range point ((point + 2) % u32_mod)) _
              (Ensures-guard (λ r. r ≡ made) (ltb point ((point + 2) % u32_mod)) assertion _
                (λ _. refl))
              (λ r e. inr (
                omega (arith, length-append i.intervals (r ∷ [])),
                ((point + 2) % u32_mod, get_elem?-append_last i.intervals r ∙ ap some e),
              )))
        | inr inside ↦ rw inside (inl refl)
      ])))
  where
    made : LiveRange
    made = record { begin = point; end = (point + 2) % u32_mod }

ltb_self : (n : ℕ) → ltb n n ≡ false
ltb_self n = ground arith

split_at-Grows :
    (i : LiveInterval) (point : ℕ) → Ensures (Grows (length i.intervals)) (split_at i point)
unfolding split_at cut_range
split_at-Grows i point =
    Ensures-bind (Found i point) (Grows (length i.intervals)) (find_range_covering_or_after i point)
      _ (find-Found i point)
      (λ (pos, v) found. elim found [
        | inl e ↦
            subst (λ n. Ensures (Grows n) (cut_range v pos point)) e (cut_range-Grows v pos point)
        | inr (e, (end, here)) ↦
            rw (here, ltb_self point)
              (let kept =
                  length-set v.intervals pos
                    (set_begin (record { begin = point; end = end }) point) in
                let inside = get_elem?-lt v.intervals pos here in
                (omega (arith, kept, inside), inr (omega (arith, kept, e))))
      ])

pub update_here {ℓ} : {A : Type ℓ} (f : ℕ → A) (i : ℕ) (a : A) → update f i a i ≡ a
update_here f i a = rw (==_refl i) refl

pub update_other {ℓ} :
    {A : Type ℓ} (f : ℕ → A) (i : ℕ) (a : A) (j : ℕ) → i ≢ j → update f i a j ≡ f j
update_other f i a j ne = let off : (i == j) ≡ false = ground (arith, ==_iff i j) in rw off refl

-- One interval and its locations are written.
pub IsSync-update :
    (intervals : ℕ → Option LiveInterval) (locations : Locations) (i : ℕ) (v : LiveInterval)
    (l : List (Option Location))
    → IsSync intervals locations
    → length l ≡ length v.intervals
    → IsSync (update intervals i (some v)) (update locations i l)
IsSync-update intervals locations i v l sync same = λ j w h. elim (Bool-cases (i == j)) [
  | inl on ↦
      let at_j : some v ≡ some w = rw on at h in
      let eq : v ≡ w = cc in rw on (same ∙ ap (λ u. length u.intervals) eq)
  | inr off ↦ rw off (sync j w (rw off at h))
]

-- What a split keeps, and that it finds a place at which the interval has a range.
pub record IsSplit (s : RegAlloc) (i : ℕ) (pos : ℕ) (s' : RegAlloc) : Type 0 where
  pub active : s'.active ≡ s.active
  pub busy : s'.busy_regs ≡ s.busy_regs
  pub others : (j : ℕ) → i ≢ j → s'.locations j ≡ s.locations j
  pub sync : IsSync s'.intervals s'.locations
  pub inside : pos < length (s'.locations i)

split_locations :
    (l : List (Option Location)) (n m pos : ℕ)
    → length l ≡ n
    → (m ≡ n) ⊎ (m ≡ suc n)
    → length (if ltb n m then insert_at l pos none else l) ≡ m
split_locations l n m pos same (inl e) =
    let none_new : ltb n m ≡ false = ground arith in rw none_new (same ∙ sym e)
split_locations l n m pos same (inr e) =
    let one_new : ltb n m ≡ true = ground arith in
    rw one_new (length-insert_at l pos none ∙ ap suc same ∙ sym e)

pub split-IsSplit :
    (s : RegAlloc) (i point : ℕ)
    → IsSync s.intervals s.locations
    → Ensures (λ r. IsSplit s i r.0 r.1) (split s i point)
unfolding split
split-IsSplit s i point sync = elim (Option-cases (s.intervals i)) [
  | inl e ↦ rw e tt
  | inr (v, e) ↦ rw e (
      Ensures-bind (Grows (length v.intervals)) (λ r. IsSplit s i r.0 r.1) (split_at v point) _
        (split_at-Grows v point)
        (λ (pos, v') (inside, grown).
          let l =
            if ltb (length v.intervals) (length v'.intervals)
            then insert_at (s.locations i) pos none
            else s.locations i in
          let same =
            split_locations (s.locations i) (length v.intervals) (length v'.intervals) pos
              (sync i v e) grown in
          record {
            active = refl;
            busy = refl;
            others = update_other s.locations i l;
            sync = IsSync-update s.intervals s.locations i v' l sync same;
            inside =
                subst (λ n. pos < n) (sym (ap length (update_here s.locations i l) ∙ same)) inside;
          }))
]
