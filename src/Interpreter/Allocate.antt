-- ===== src/Interpreter/Allocate.antt =====
-- The `New` functions of interpreter/types over the runtime region. A request that does not fit
-- collects garbage in the program; the model stops there with `collection`.
use k3s_virtual_machine.Base.{
  ℕ, ◌+◌, ◌*◌, ◌-◌, ◌%◌, true, false, some, List, [], ◌∷◌, ◌++◌, Bytes, Outcome, ok, err, ◌>>=◌,
  ◌>>◌, guard, undefined, assertion, trigger_forbidden, collection, ltb, leb, if◌then◌else◌, length,
  replicate, u64_mod,
}
use k3s_virtual_machine.Allocator.Region.{alloc_bytes, get_remaining_space}
use k3s_virtual_machine.Base.{update}
use k3s_virtual_machine.Classfile.ConstantPool.{Mapping}
use k3s_virtual_machine.Interpreter.Register.{Register, empty, set_function}
use k3s_virtual_machine.Interpreter.Objects.{
  Body, array, string, object, function, new_header, construct_function, construct_array,
  sizeof_array, sizeof_string, sizeof_object, sizeof_function, sizeof_register,
}
use k3s_virtual_machine.Interpreter.Machine.{Machine}

-- The test at the front of `CleanupThis`; the collection behind it is in Gc, and ends the run here.
unfoldable pub cleanup_this {ℓ} : {A : Type ℓ} → Machine → Outcome A
cleanup_this m = if m.is_trigger_forbidden then err trigger_forbidden else err collection

-- `RegionsPool::AllocBytes`
unfoldable pub pool_alloc_bytes : Machine → ℕ → Outcome (ℕ × Machine)
unfolding cleanup_this get_remaining_space alloc_bytes
pool_alloc_bytes m n_bytes =
    if leb n_bytes (get_remaining_space m.region)
    then (do (addr, r) ← alloc_bytes m.region n_bytes; ok (addr, record m { region = r }))
    else cleanup_this m

-- Placement new of an object with a body, and `SetAllocatedSize`.
abbrev place : Machine → ℕ → ℕ → Body → Machine
place m addr size b = record m {
  heap = update m.heap addr (some (record { header = new_header size; body = b }));
}

abbrev alloc_object : Machine → ℕ → Body → Outcome (ℕ × Machine)
alloc_object m size b = do (addr, m') ← pool_alloc_bytes m size; ok (addr, place m' addr size b)

unfoldable pub new_function : Machine → ℕ → Outcome (ℕ × Machine)
unfolding pool_alloc_bytes construct_function
new_function m bc_offs = alloc_object m sizeof_function (function (construct_function bc_offs))

-- The items of an array whose size in bytes is not a `size_t` are written outside the block.
unfoldable pub new_array : Machine → ℕ → Outcome (ℕ × Machine)
unfolding pool_alloc_bytes construct_array
new_array m size =
    let allocated_size = (sizeof_array + sizeof_register * size) % u64_mod in
    do
      (addr, m') ← pool_alloc_bytes m allocated_size
      guard (ltb (sizeof_array + sizeof_register * size) u64_mod) undefined
      ok (addr, place m' addr allocated_size (array (construct_array size)))

unfoldable pub new_string : Machine → Bytes → Outcome (ℕ × Machine)
unfolding pool_alloc_bytes
new_string m c_str = alloc_object m (sizeof_string + length c_str + 1) (string c_str)

-- `PrepareForSequentAllocations` and `EndSequentAllocations`
unfoldable pub prepare_for_sequent_allocations : Machine → ℕ → Outcome Machine
unfolding cleanup_this get_remaining_space
prepare_for_sequent_allocations m n_bytes =
    if leb (get_remaining_space m.region) n_bytes
    then cleanup_this m
    else ok (record m { is_trigger_forbidden = true })

unfoldable pub end_sequent_allocations : Machine → Machine
end_sequent_allocations m = record m { is_trigger_forbidden = false }

-- The loop of the constructor over the methods: their function objects.
unfoldable pub new_methods : Machine → List ℕ → Outcome (List Register × Machine)
unfolding new_function
new_methods m [] = ok ([], m)
new_methods m (bc_offset ∷ rest) = do
  (addr, m1) ← new_function m bc_offset
  (methods, m2) ← new_methods m1 rest
  ok (set_function addr ∷ methods, m2)

-- `Object::New`; `bc_offsets` is the vector behind its length.
unfoldable pub new_object : Machine → Mapping → List ℕ → Outcome (ℕ × Machine)
unfolding prepare_for_sequent_allocations end_sequent_allocations pool_alloc_bytes new_methods
new_object m mapping bc_offsets =
    let obj_allocated_size = sizeof_object + sizeof_register * length mapping in
    let methods_n = length bc_offsets in
    do
      m1 ← prepare_for_sequent_allocations m (sizeof_function * methods_n + obj_allocated_size)
      (addr, m2) ← pool_alloc_bytes m1 obj_allocated_size
      guard (leb methods_n (length mapping)) assertion
      (methods, m3) ← new_methods m2 bc_offsets
      let items = replicate (length mapping - methods_n) empty ++ methods
      ok (addr, end_sequent_allocations (place m3 addr obj_allocated_size (object mapping items)))
