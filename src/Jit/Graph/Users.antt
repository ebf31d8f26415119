-- ===== src/Jit/Graph/Users.antt =====
-- The users of an instruction, a list through the instructions that use it: `User` and the inputs of
-- jit/ir/graph/instructions.h, and the operations of graph.cpp on them.
use k3s_virtual_machine.Base.{
  ℕ, zero, suc, ◌+◌, not, Option, none, some, Outcome, ok, err, ◌>>=◌, ◌>>◌, guard, from_option,
  assertion, undefined, out_of_fuel, ltb, if◌then◌else◌, length, get_elem?, set,
}
use k3s_virtual_machine.Jit.Graph.{
  Ir, Inst, User, user, user_eq, load_inst, store_inst, update_inst, ptr_eq, is_null,
}
use k3s_virtual_machine.Jit.Graph.Block.{replace_in_bb, remove_in_bb}

-- `GetInput`
unfoldable pub get_input : Inst → ℕ → Outcome (Option ℕ)
get_input o idx = from_option assertion (get_elem? o.inputs idx)

-- A user's own input: `GetCorrespondingInputInst`.
unfoldable pub get_corresponding_input_inst : Ir → User → Outcome (Option ℕ)
get_corresponding_input_inst ir u = do o ← load_inst ir u.inst; get_input o u.idx

unfoldable pub get_next : Ir → User → Outcome (Option User)
get_next ir u = do o ← load_inst ir u.inst; from_option undefined (get_elem? o.users u.idx)

unfoldable pub set_next : Ir → User → Option User → Outcome Ir
set_next ir u next = update_inst ir u.inst (λ o. record o { users = set o.users u.idx next })

-- `SetInput<false>` of an instruction
unfoldable pub write_input : Ir → ℕ → ℕ → ℕ → Outcome Ir
write_input ir i idx input = do
  o ← load_inst ir i
  guard (ltb idx (length o.inputs)) assertion
  ok (store_inst ir i (record o { inputs = set o.inputs idx (some input) }))

-- `User::SetInput`
unfoldable pub user_set_input : Ir → User → ℕ → Outcome Ir
user_set_input ir u input = do
  o ← load_inst ir u.inst
  old ← get_input o u.idx
  guard (not (ptr_eq old u.inst)) assertion
  write_input ir u.inst u.idx input

-- The walk of `GetPrev` from a user to the one before `u`.
unfoldable pub get_prev_from : ℕ → Ir → User → User → Outcome User
get_prev_from zero ir at_user u = err out_of_fuel
get_prev_from (suc n) ir at_user u = do
  next ← get_next ir at_user
  n' ← from_option assertion next
  if user_eq n' u then ok at_user else get_prev_from n ir n' u

unfoldable pub get_prev : ℕ → Ir → Option User → User → Outcome (Option User)
get_prev n ir first u = do
  user1 ← from_option undefined first
  if user_eq user1 u then ok none else (do p ← get_prev_from n ir user1 u; ok (some p))

abbrev pub set_first_user : Ir → ℕ → Option User → Outcome Ir
set_first_user ir i u = update_inst ir i (λ o. record o { first_user = u })

unfoldable pub replace_user_with : ℕ → Ir → User → ℕ → Outcome Ir
replace_user_with n ir u new = do
  next ← get_next ir u
  input ← get_corresponding_input_inst ir u
  old ← from_option undefined input
  o ← load_inst ir old
  prev ← get_prev n ir o.first_user u
  ir1 ← (if is_null prev then set_first_user ir old next else ok ir)
  p ← from_option undefined prev
  ir2 ← set_next ir1 p next
  target ← load_inst ir2 new
  ir3 ← set_next ir2 u target.first_user
  set_first_user ir3 new (some u)

unfoldable pub append_use_of : Ir → User → ℕ → Outcome Ir
append_use_of ir u i = do
  next ← get_next ir u
  guard (is_null next) assertion
  input ← get_corresponding_input_inst ir u
  guard (is_null input) assertion
  o ← load_inst ir i
  ir1 ← set_next ir u o.first_user
  set_first_user ir1 i (some u)

-- `SetInput` of an instruction; the fuel is for the list of users of the old input.
unfoldable pub set_input : ℕ → Ir → ℕ → ℕ → ℕ → Outcome Ir
set_input n ir i idx input = do
  o ← load_inst ir i
  old ← get_input o idx
  ir1 ←
      (if is_null old
        then append_use_of ir (user i idx) input
        else replace_user_with n ir (user i idx) input)
  write_input ir1 i idx input

unfoldable pub find_and_remove_from_chain : ℕ → Ir → User → User → Outcome Ir
find_and_remove_from_chain zero ir at_user u = err out_of_fuel
find_and_remove_from_chain (suc n) ir at_user u = do
  next ← get_next ir at_user
  n' ← from_option undefined next
  if user_eq n' u
      then (do after ← get_next ir n'; set_next ir at_user after)
      else find_and_remove_from_chain n ir n' u

unfoldable pub remove_user : ℕ → Ir → ℕ → User → Outcome Ir
remove_user n ir i u = do
  o ← load_inst ir i
  first ← from_option undefined o.first_user
  if user_eq first u
      then (do next ← get_next ir u; set_first_user ir i next)
      else find_and_remove_from_chain n ir first u

-- The loop of ClearInputs over the inputs from the `idx`th on, of which `k` are left.
unfoldable pub clear_inputs_from : ℕ → ℕ → ℕ → Ir → ℕ → Outcome Ir
clear_inputs_from n zero idx ir i = ok ir
clear_inputs_from n (suc k) idx ir i = do
  o ← load_inst ir i
  input ← get_input o idx
  target ← from_option undefined input
  ir1 ← remove_user n ir target (user i idx)
  clear_inputs_from n k (idx + 1) ir1 i

unfoldable pub clear_inputs : ℕ → Ir → ℕ → Outcome Ir
clear_inputs n ir i = do o ← load_inst ir i; clear_inputs_from n (length o.inputs) 0 ir i

-- The loop of ReplaceUsersTo, with the user before.
unfoldable pub replace_users_from :
    ℕ → Ir → Option User → Option User → ℕ → Outcome (Option User × Ir)
replace_users_from n ir none prev_user new = ok (prev_user, ir)
replace_users_from zero ir (some u) prev_user new = err out_of_fuel
replace_users_from (suc n) ir (some u) prev_user new = do
  ir1 ← user_set_input ir u new
  next ← get_next ir1 u
  replace_users_from n ir1 next (some u) new

unfoldable pub replace_users_to : ℕ → Ir → ℕ → ℕ → Outcome Ir
replace_users_to n ir i new = do
  o ← load_inst ir i
  (prev_user, ir1) ← replace_users_from n ir o.first_user none new
  elim prev_user [
    | none ↦ ok ir1
    | some p ↦ (do
      next ← get_next ir1 p
      guard (is_null next) assertion
      target ← load_inst ir1 new
      ir2 ← set_next ir1 p target.first_user
      o1 ← load_inst ir2 i
      set_first_user ir2 new o1.first_user)
  ]

-- `ReplaceWith(Inst *)` and `ReplaceWith(nullptr)`
unfoldable pub replace_with : ℕ → Ir → ℕ → ℕ → Outcome Ir
replace_with n ir i new = do
  ir1 ← clear_inputs n ir i
  ir2 ← replace_in_bb ir1 i new
  replace_users_to n ir2 i new

unfoldable pub drop_inst : ℕ → Ir → ℕ → Outcome Ir
drop_inst n ir i = do ir1 ← clear_inputs n ir i; remove_in_bb ir1 i
