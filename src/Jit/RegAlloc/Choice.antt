-- ===== src/Jit/RegAlloc/Choice.antt =====
-- The choice of the interval to spill, and the place of an interval among the active ones, of
-- jit/ir/graph/analyses/reg_alloc.h.
use k3s_virtual_machine.Base.{
  ℕ, ◌<◌, ◌≡◌, refl, sym, ap, ◌∙◌, subst, ◌⊎◌, inl, inr, Option, some, List, [], ◌∷◌, arith, ◌==◌,
  ==_iff, leb, Bool-cases, Option-cases, In, In-NotIn, NotIn-of, length, get_elem?, update, Outcome,
  ok, err, from_option, assertion, undefined, Ensures, Ensures-bind, Ensures-guard, Ensures-any,
  Ensures-map, List-cases,
}
use k3s_virtual_machine.Jit.LiveInterval.{LiveInterval, endpoint, back, set_usepoints}
use k3s_virtual_machine.Jit.RegAlloc.{
  RegAlloc, get_interval, find_unused, drop_expired, get_unused_interval_to_spill, insert_behind,
  insert_active, regs_count,
}
use k3s_virtual_machine.Jit.RegAlloc.Registers.{Locations, IsInsert}
use k3s_virtual_machine.Jit.RegAlloc.Splits.{IsSync}

-- The choice of an interval to spill only drops use points, and chooses among the active ones.
pub record IsChoice (s : RegAlloc) (l : List ℕ) (best : ℕ) (u : ℕ) (s' : RegAlloc) : Type 0 where
  pub active : s'.active ≡ s.active
  pub busy : s'.busy_regs ≡ s.busy_regs
  pub locations : s'.locations ≡ s.locations
  pub sync : IsSync s'.intervals s'.locations
  pub chosen : (best ≡ u) ⊎ In u l

IsChoice-later :
    (s s1 : RegAlloc) (i : ℕ) (l : List ℕ) (best b : ℕ) (o : Outcome (ℕ × RegAlloc))
    → s1.active ≡ s.active
    → s1.busy_regs ≡ s.busy_regs
    → s1.locations ≡ s.locations
    → (best ≡ b) ⊎ (i ≡ b)
    → Ensures (λ r. IsChoice s1 l b r.0 r.1) o
    → Ensures (λ r. IsChoice s (i ∷ l) best r.0 r.1) o
IsChoice-later s s1 i l best b (err f) a r c from h = tt
IsChoice-later s s1 i l best b (ok (u, s')) a r c from h = record {
  active = h.active ∙ a;
  busy = h.busy ∙ r;
  locations = h.locations ∙ c;
  sync = h.sync;
  chosen = elim h.chosen [
    | inl e ↦ elim from [ inl f ↦ inl (f ∙ e) | inr f ↦ inr (inl (f ∙ e)) ]
    | inr n ↦ inr (inr n)
  ];
}

-- An interval keeps the number of its ranges.
IsSync-same :
    (intervals : ℕ → Option LiveInterval) (locations : Locations) (i : ℕ) (v v' : LiveInterval)
    → IsSync intervals locations
    → intervals i ≡ some v
    → length v'.intervals ≡ length v.intervals
    → IsSync (update intervals i (some v')) locations
IsSync-same intervals locations i v v' sync e same = λ j w h. elim (Bool-cases (i == j)) [
  | inl on ↦
      let at_j : some v' ≡ some w = rw on at h in
      let eq : v' ≡ w = cc in
      subst (λ k. length (locations k) ≡ length w.intervals) ((==_iff i j).0 on)
        (sync i v e ∙ (sym same ∙ ap (λ u. length u.intervals) eq))
  | inr off ↦ sync j w (rw off at h)
]

find_unused-IsChoice :
    (s : RegAlloc) (l : List ℕ) (point furthest best : ℕ)
    → IsSync s.intervals s.locations
    → Ensures (λ r. IsChoice s l best r.0 r.1) (find_unused s l point furthest best)
unfolding find_unused set_usepoints
find_unused-IsChoice s [] point furthest best sync = record {
  active = refl;
  busy = refl;
  locations = refl;
  sync = sync;
  chosen = inl refl;
}
find_unused-IsChoice s (i ∷ l) point furthest best sync = elim (Option-cases (s.intervals i)) [
  | inl e ↦ rw e tt
  | inr (v, e) ↦
      let uses = drop_expired v.use_points point in
      let s1 = record s { intervals = update s.intervals i (some (set_usepoints v uses)) } in
      let sync1 : IsSync s1.intervals s.locations =
        IsSync-same s.intervals s.locations i v (set_usepoints v uses) sync e refl in
      let rest : (f b : ℕ)
          → (best ≡ b) ⊎ (i ≡ b)
          → Ensures (λ r. IsChoice s (i ∷ l) best r.0 r.1) (find_unused s1 l point f b) =
        λ f b from.
          IsChoice-later s s1 i l best b (find_unused s1 l point f b) refl refl refl from
            (find_unused-IsChoice s1 l point f b sync1) in
      elim (List-cases uses) [
        | inl none_left ↦ rw e (rw (Ensures, none_left) (rest furthest i (inr refl)))
        | inr (w, ws, some_left) ↦ elim (Bool-cases (leb furthest w)) [
          | inl further ↦ rw e (rw (Ensures, some_left, further) (rest w i (inr refl)))
          | inr nearer ↦ rw e (rw (Ensures, some_left, nearer) (rest furthest best (inl refl)))
        ]
      ]
]

IsInsert-here : (i : ℕ) (l : List ℕ) → IsInsert i l (i ∷ l)
IsInsert-here i l = record { only = λ x m. m; distinct = λ n d. (n, d) }

IsInsert-cons : (i j : ℕ) (l l' : List ℕ) → IsInsert i l l' → IsInsert i (j ∷ l) (j ∷ l')
IsInsert-cons i j l l' h = record {
  only = λ x m. elim m [
    | inl e ↦ inr (inl e)
    | inr n ↦ elim (h.only x n) [ inl e ↦ inl e | inr k ↦ inr (inr k) ]
  ];
  distinct = λ (ne, n) (out, d). (
    NotIn-of j l' (λ m. elim (h.only j m) [ inl e ↦ ne (sym e) | inr k ↦ In-NotIn j l k out ]),
    h.distinct n d,
  );
}

insert_behind-IsInsert :
    (s : RegAlloc) (i end : ℕ) (l : List ℕ)
    → Ensures (λ o. (l' : List ℕ) → o ≡ some l' → IsInsert i l l') (insert_behind s i end l)
unfolding insert_behind
insert_behind-IsInsert s i end [] = λ l' h. cc
insert_behind-IsInsert s i end (j ∷ l) =
    Ensures-bind (λ o. (l' : List ℕ) → o ≡ some l' → IsInsert i l l')
      (λ o. (l' : List ℕ) → o ≡ some l' → IsInsert i (j ∷ l) l') (insert_behind s i end l) _
      (insert_behind-IsInsert s i end l)
      (λ r h. elim (Option-cases r) [
        | inr (k, found) ↦ rw found (λ l' e.
            let eq : j ∷ k ≡ l' = cc in
            subst (IsInsert i (j ∷ l)) eq (IsInsert-cons i j l k (h k found)))
        | inl absent ↦ rw absent (
            Ensures-any (λ o. (l' : List ℕ) → o ≡ some l' → IsInsert i (j ∷ l) l')
              (get_interval s j) _
              (λ v.
                Ensures-any (λ o. (l' : List ℕ) → o ≡ some l' → IsInsert i (j ∷ l) l') (endpoint v)
                  _
                  (λ end_j. elim (Bool-cases (leb end_j end)) [
                    | inl later ↦ rw later (λ l' e.
                        let eq : j ∷ i ∷ l ≡ l' = cc in
                        subst (IsInsert i (j ∷ l)) eq
                          (IsInsert-cons i j l (i ∷ l) (IsInsert-here i l)))
                    | inr sooner ↦ rw sooner (λ l' e. cc)
                  ])))
      ])

-- InsertActive puts the interval among the active ones and changes nothing else.
pub record IsInsertion (s : RegAlloc) (i : ℕ) (s' : RegAlloc) : Type 0 where
  pub active : IsInsert i s.active s'.active
  pub busy : s'.busy_regs ≡ s.busy_regs
  pub locations : s'.locations ≡ s.locations
  pub intervals : s'.intervals ≡ s.intervals
  pub found : (v : LiveInterval) × (s.intervals i ≡ some v) × (0 < length v.intervals)

endpoint_inside : (v : LiveInterval) → Ensures (λ _. 0 < length v.intervals) (endpoint v)
unfolding endpoint back
endpoint_inside v = elim (List-cases v.intervals) [
  | inl empty ↦ rw empty tt
  | inr (r, rs, e) ↦
      Ensures-any (λ _. 0 < length v.intervals) (back v.intervals) _ (λ last. rw e (omega arith))
]

pub insert_active-IsInsertion :
    (s : RegAlloc) (i : ℕ) → Ensures (IsInsertion s i) (insert_active s i)
unfolding insert_active
insert_active-IsInsertion s i = elim (Option-cases (s.intervals i)) [
  | inl absent ↦ rw absent tt
  | inr (v, at_i) ↦ rw at_i (
      Ensures-bind (λ _. 0 < length v.intervals) (IsInsertion s i) (endpoint v) _
        (endpoint_inside v)
        (λ end inside.
          Ensures-bind (λ o. (l' : List ℕ) → o ≡ some l' → IsInsert i s.active l') (IsInsertion s i)
            (insert_behind s i end s.active) _ (insert_behind-IsInsert s i end s.active)
            (λ r h. record {
              active = elim (Option-cases r) [
                | inr (l, found) ↦ rw found (h l found)
                | inl absent ↦ rw absent (IsInsert-here i s.active)
              ];
              busy = refl;
              locations = refl;
              intervals = refl;
              found = (v, at_i, inside);
            })))
]

first-In : (l : List ℕ) → Ensures (λ a. In a l) (from_option undefined (get_elem? l 0))
first-In [] = tt
first-In (x ∷ l) = inl refl

-- GetUnusedIntervalToSpill returns an active interval.
pub get_unused-IsChoice :
    (s : RegAlloc) (point : ℕ)
    → IsSync s.intervals s.locations
    → Ensures
        (λ r. IsChoice s s.active r.0 r.0 r.1 × In r.0 s.active)
        (get_unused_interval_to_spill s point)
unfolding get_unused_interval_to_spill
get_unused-IsChoice s point sync = Ensures-guard Q (length s.active == regs_count) assertion _ (λ _.
    Ensures-bind (λ a. In a s.active) Q (from_option undefined (get_elem? s.active 0)) _
      (first-In s.active)
      (λ first at_first.
        Ensures-map (λ r. IsChoice s s.active first r.0 r.1) Q
          (find_unused s s.active point 0 first)
          (find_unused-IsChoice s s.active point 0 first sync)
          (λ (u, s') h. (
            record {
              active = h.active;
              busy = h.busy;
              locations = h.locations;
              sync = h.sync;
              chosen = inl refl;
            },
            elim h.chosen [ inl e ↦ subst (λ x. In x s.active) e at_first | inr m ↦ m ],
          ))))
  where
    Q : ℕ × RegAlloc → Type 0
    Q r = IsChoice s s.active r.0 r.0 r.1 × In r.0 s.active
