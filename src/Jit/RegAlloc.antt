-- ===== src/Jit/RegAlloc.antt =====
-- The linear scan of jit/ir/graph/analyses/reg_alloc.h with the registers of reg_descr.h. A range is known
-- by its place in its interval, so `locations_` is a list along the ranges of each interval, in which a
-- range that is new has no location.
pub mod Registers
pub mod Splits
pub mod Choice
pub mod Phis
pub mod Scan
pub mod Walk
pub mod Allocation
mod Tests
use k3s_virtual_machine.Base.{
  ℕ, zero, suc, ◌+◌, ◌-◌, ◌%◌, Bool, true, false, ◌&&◌, ◌||◌, not, Option, none, some, List, [],
  ◌∷◌, ◌++◌, Outcome, ok, err, ◌>>=◌, ◌>>◌, guard, from_option, assertion, undefined, out_of_fuel,
  ltb, leb, ◌==◌, if◌then◌else◌, u32_mod, update, length, get_elem?, set, replicate,
}
use k3s_virtual_machine.Jit.LiveInterval.{
  LiveInterval, LiveRange, split_at, endpoint, startpoint, insert_at, set_usepoints,
}

pub data Location : Type 0 where
  undef : Location
  reg : ℕ → Location
  slot : ℕ → Location

abbrev pub regs_count : ℕ
regs_count = 4

abbrev pub slots_count : ℕ
slots_count = 255

-- Intervals and their locations are found by the number of their instruction.
pub record RegAlloc : Type 0 where
  pub intervals : ℕ → Option LiveInterval
  pub locations : ℕ → List (Option Location)
  pub active : List ℕ
  pub busy_regs : List Bool
  pub busy_slots : List Bool
  pub slots_used : ℕ

abbrev pub no_locations : List LiveRange → List (Option Location)
no_locations [] = []
no_locations (r ∷ rs) = none ∷ no_locations rs

-- The constructor's state, on the intervals that the graph has.
unfoldable pub new_reg_alloc : (ℕ → Option LiveInterval) → RegAlloc
new_reg_alloc intervals = record {
  intervals = intervals;
  locations = λ i. elim (intervals i) [ none ↦ [] | some v ↦ no_locations v.intervals ];
  active = [];
  busy_regs = replicate regs_count false;
  busy_slots = replicate slots_count false;
  slots_used = 0;
}

-- `at` of a missing key throws, which nothing catches.
abbrev pub get_interval : RegAlloc → ℕ → Outcome LiveInterval
get_interval s i = from_option undefined (s.intervals i)

unfoldable pub last_item {ℓ} : {A : Type ℓ} → List A → Option A
last_item [] = none
last_item (x ∷ []) = some x
last_item (x ∷ y ∷ l) = last_item (y ∷ l)

-- `CurrentLocation`, `FirstLocation` and `Get` at a range.
abbrev pub located : Option (Option Location) → Outcome Location
located l = do o ← from_option undefined l; from_option undefined o

unfoldable pub current_location : RegAlloc → ℕ → Outcome Location
current_location s i = located (last_item (s.locations i))

unfoldable pub first_location : RegAlloc → ℕ → Outcome Location
first_location s i = located (get_elem? (s.locations i) 0)

unfoldable pub get_location : RegAlloc → ℕ → ℕ → Outcome Location
get_location s i pos = located (get_elem? (s.locations i) pos)

-- `Get<Location::REG>` of an interval
unfoldable pub get_reg : RegAlloc → ℕ → Outcome ℕ
get_reg s i = do
  l ← current_location s i
  elim l [ undef ↦ err assertion | slot n ↦ err assertion | reg n ↦ ok n ]

-- `SplitAt` of an interval: the place of the range behind, and a range that is new there or nowhere.
unfoldable pub split : RegAlloc → ℕ → ℕ → Outcome (ℕ × RegAlloc)
split s i point = do
  interval ← get_interval s i
  (pos, interval') ← split_at interval point
  let locs = s.locations i
  ok (
    pos,
    record s {
      intervals = update s.intervals i (some interval');
      locations = update s.locations i (
          if ltb (length interval.intervals) (length interval'.intervals)
          then insert_at locs pos none
          else locs);
    },
  )

-- `Set` from a place on, and at one place.
unfoldable pub set_rest : List (Option Location) → ℕ → Location → List (Option Location)
set_rest [] pos l = []
set_rest (x ∷ xs) zero l = some l ∷ set_rest xs zero l
set_rest (x ∷ xs) (suc pos) l = x ∷ set_rest xs pos l

unfoldable pub set_from : RegAlloc → ℕ → ℕ → Location → RegAlloc
set_from s i pos l = record s { locations = update s.locations i (set_rest (s.locations i) pos l) }

unfoldable pub set_one : RegAlloc → ℕ → ℕ → Location → RegAlloc
set_one s i pos l = record s { locations = update s.locations i (set (s.locations i) pos (some l)) }

unfoldable pub found_in_active : List ℕ → ℕ → Bool
found_in_active [] i = false
found_in_active (x ∷ xs) i = x == i || found_in_active xs i

unfoldable pub remove : List ℕ → ℕ → List ℕ
remove [] i = []
remove (x ∷ xs) i = let rest = remove xs i in if x == i then xs else x ∷ rest

abbrev pub is_reg : Location → Bool
is_reg l = elim l [ reg n ↦ true | undef ↦ false | slot n ↦ false ]

abbrev pub bool_eq : Bool → Bool → Bool
bool_eq a b = if a then b else not b

unfoldable pub is_active : RegAlloc → ℕ → ℕ → Outcome Bool
is_active s i ln = do
  l ← current_location s i
  interval ← get_interval s i
  end ← endpoint interval
  let found = found_in_active s.active i
  guard (bool_eq found (is_reg l) || (end == ln && (is_reg l && not found))) assertion
  ok (is_reg l)

-- `Recycle` of the first active interval
unfoldable pub recycle : RegAlloc → ℕ → List ℕ → Outcome RegAlloc
recycle s i rest = do
  l ← current_location s i
  elim l [
    | undef ↦ ok (record s { active = rest })
    | reg r ↦ (do
      busy ← from_option undefined (get_elem? s.busy_regs r)
      guard busy assertion
      ok (record s { active = rest; busy_regs = set s.busy_regs r false }))
    | slot n ↦ (do
      busy ← from_option undefined (get_elem? s.busy_slots n)
      guard busy assertion
      ok (record s { active = rest; busy_slots = set s.busy_slots n false }))
  ]

-- `ExpireOldIntervals`, over the active intervals from the front.
unfoldable pub expire_old_intervals : RegAlloc → List ℕ → ℕ → Outcome RegAlloc
expire_old_intervals s [] point = ok s
expire_old_intervals s (i ∷ rest) point = do
  interval ← get_interval s i
  end ← endpoint interval
  if leb end point then (do s' ← recycle s i rest; expire_old_intervals s' rest point) else ok s

-- The index of the first register that is not busy.
unfoldable pub find_free : List Bool → Option ℕ
find_free [] = none
find_free (b ∷ bs) =
    if b then (elim (find_free bs) [ none ↦ none | some i ↦ some (suc i) ]) else some 0

unfoldable pub allocate_free_reg : RegAlloc → Outcome (ℕ × RegAlloc)
allocate_free_reg s = do
  r ← from_option assertion (find_free s.busy_regs)
  ok (r, record s { busy_regs = set s.busy_regs r true })

-- The use points behind a point.
unfoldable pub drop_expired : List ℕ → ℕ → List ℕ
drop_expired [] point = []
drop_expired (u ∷ us) point =
    let rest = drop_expired us point in if leb u point then rest else u ∷ us

-- The loop of `GetUnusedIntervalToSpill` over the active intervals, with the best so far.
unfoldable pub find_unused : RegAlloc → List ℕ → ℕ → ℕ → ℕ → Outcome (ℕ × RegAlloc)
find_unused s [] point furthest best = ok (best, s)
find_unused s (i ∷ rest) point furthest best = do
  interval ← get_interval s i
  let uses = drop_expired interval.use_points point
  let s' = record s { intervals = update s.intervals i (some (set_usepoints interval uses)) }
  elim uses [
    | [] ↦ find_unused s' rest point furthest i
    | u ∷ us ↦
        if leb furthest u
        then find_unused s' rest point u i
        else find_unused s' rest point furthest best
  ]

unfoldable pub get_unused_interval_to_spill : RegAlloc → ℕ → Outcome (ℕ × RegAlloc)
get_unused_interval_to_spill s point = do
  guard (length s.active == regs_count) assertion
  first ← from_option undefined (get_elem? s.active 0)
  find_unused s s.active point 0 first

-- `InsertActive`: behind the last interval that ends no later, if there is one.
unfoldable pub insert_behind : RegAlloc → ℕ → ℕ → List ℕ → Outcome (Option (List ℕ))
insert_behind s i end [] = ok none
insert_behind s i end (j ∷ js) = do
  r ← insert_behind s i end js
  elim r [
    | some l ↦ ok (some (j ∷ l))
    | none ↦ (do
      interval ← get_interval s j
      end_j ← endpoint interval
      if leb end_j end then ok (some (j ∷ i ∷ js)) else ok none)
  ]

unfoldable pub insert_active : RegAlloc → ℕ → Outcome RegAlloc
insert_active s i = do
  interval ← get_interval s i
  end ← endpoint interval
  r ← insert_behind s i end s.active
  ok (record s { active = elim r [ some l ↦ l | none ↦ i ∷ s.active ] })

-- `spill_point - 1` on uint32_t
abbrev pub before : ℕ → ℕ
before point = (point + (u32_mod - 1)) % u32_mod

unfoldable pub spill_unused_and_activate : RegAlloc → ℕ → ℕ → Outcome RegAlloc
spill_unused_and_activate s used point = do
  (unused, s1) ← get_unused_interval_to_spill s point
  r ← get_reg s1 unused
  busy ← from_option undefined (get_elem? s1.busy_regs r)
  guard busy assertion
  (unused_pos, s2) ← split s1 unused (before point)
  (used_pos, s3) ← split s2 used point
  let s4 = set_from s3 used used_pos (reg r)
  let s5 = set_from s4 unused unused_pos (slot s4.slots_used)
  guard (ltb s5.slots_used (length s5.busy_slots)) undefined
  insert_active
      (record s5 {
        busy_slots = set s5.busy_slots s5.slots_used true;
        slots_used = s5.slots_used + 1;
        active = remove s5.active unused;
      })
      used

-- The body of the loop of `FillInputs`.
unfoldable pub fill_input : RegAlloc → ℕ → ℕ → Outcome RegAlloc
fill_input s ln input = do
  active ← is_active s input ln
  if active
      then ok s
      else (if length s.active == regs_count then spill_unused_and_activate s input ln else (do
        guard (ltb (length s.active) regs_count) assertion
        (r, s1) ← allocate_free_reg s
        (pos, s2) ← split s1 input (before ln)
        insert_active (set_from s2 input pos (reg r)) input))

unfoldable pub fill_inputs : RegAlloc → ℕ → List ℕ → Outcome RegAlloc
fill_inputs s ln [] = ok s
fill_inputs s ln (input ∷ inputs) = do s' ← fill_input s ln input; fill_inputs s' ln inputs

-- What the scan reads of an instruction.
pub record Step : Type 0 where
  pub inst : ℕ
  pub ln : ℕ
  pub phi : Bool
  pub has_dst : Bool
  pub inputs : List ℕ

-- The body of the loop of `AllocateRegisters`.
unfoldable pub allocate_dst : RegAlloc → ℕ → Outcome RegAlloc
allocate_dst s i = do
  interval ← from_option assertion (s.intervals i)
  if length s.active == regs_count
      then (do start ← startpoint interval; spill_unused_and_activate s i start)
      else (do
        guard (ltb (length s.active) regs_count) assertion
        (r, s1) ← allocate_free_reg s
        insert_active (set_from s1 i 0 (reg r)) i)

unfoldable pub allocate_inst : RegAlloc → Step → Outcome RegAlloc
allocate_inst s step = do
  s1 ← expire_old_intervals s s.active step.ln
  s2 ← (if step.phi then ok s1 else fill_inputs s1 step.ln step.inputs)
  if step.has_dst then allocate_dst s2 step.inst else ok s2

unfoldable pub allocate_registers : RegAlloc → List Step → Outcome RegAlloc
allocate_registers s [] = ok s
allocate_registers s (step ∷ steps) = do s' ← allocate_inst s step; allocate_registers s' steps
