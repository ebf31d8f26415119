-- ===== src/Jit/RegAlloc/Phis.antt =====
-- The pass over the inputs of phis of jit/ir/graph/analyses/reg_alloc.h.
use k3s_virtual_machine.Base.{
  ℕ, zero, suc, ◌-◌, Option, some, List, [], ◌∷◌, Outcome, ok, err, ◌>>=◌, ◌>>◌, guard, from_option,
  assertion, undefined, ltb, ◌==◌, if◌then◌else◌, update, length, get_elem?,
}
use k3s_virtual_machine.Jit.RegAlloc.{
  RegAlloc, Location, undef, reg, slot, split, get_interval, get_location, first_location, set_one,
  before,
}

-- `Set` between two places.
unfoldable pub set_between : List (Option Location) → ℕ → ℕ → Location → List (Option Location)
set_between [] begin end l = []
set_between (x ∷ xs) zero zero l = x ∷ xs
set_between (x ∷ xs) zero (suc end) l = some l ∷ set_between xs zero end l
set_between (x ∷ xs) (suc begin) end l = x ∷ set_between xs begin (end - 1) l

-- `ProcessPhiInput`, with the life number at which the predecessor ends.
unfoldable pub process_phi_input : RegAlloc → ℕ → ℕ → Location → Outcome RegAlloc
process_phi_input s input split_point first = do
  r ← elim first [ reg r ↦ ok r | undef ↦ err assertion | slot n ↦ err assertion ]
  (begin, s1) ← split s input (before split_point)
  interval ← get_interval s1 input
  range ← from_option undefined (get_elem? interval.intervals begin)
  if range.end == split_point then ok (set_one s1 input begin (reg r)) else (do
    (end, s2) ← split s1 input split_point
    guard (ltb 0 begin) undefined
    l ← get_location s2 input (begin - 1)
    let locs = set_between (s2.locations input) begin end (reg r)
    let s3 = record s2 { locations = update s2.locations input locs }
    guard (ltb end (length locs)) undefined
    ok (set_one s3 input end l))

-- A phi, by its inputs with the life number at which each predecessor ends.
pub record Phi : Type 0 where
  pub phi : ℕ
  pub phi_inputs : List (ℕ × ℕ)

-- The loop of `MergePhis` over the inputs of a phi.
unfoldable pub merge_inputs : RegAlloc → ℕ → List (ℕ × ℕ) → Outcome RegAlloc
merge_inputs s phi [] = ok s
merge_inputs s phi ((input, end) ∷ inputs) = do
  first ← first_location s phi
  s' ← process_phi_input s input end first
  merge_inputs s' phi inputs

unfoldable pub merge_phis : RegAlloc → List Phi → Outcome RegAlloc
merge_phis s [] = ok s
merge_phis s (p ∷ ps) = do s' ← merge_inputs s p.phi p.phi_inputs; merge_phis s' ps
