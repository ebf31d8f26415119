-- ===== src/Allocator/Region.antt =====
-- allocator/region.h. `start` and `size` are the template's arguments; `cursor` is the word that the
-- region keeps at its first address.
pub mod Bounds
use k3s_virtual_machine.Base.{
  ℕ, ◌+◌, ◌-◌, ◌*◌, ◌%◌, Bool, ◌&&◌, Outcome, ok, err, oom, ltb, leb, if◌then◌else◌, u64_mod,
}

pub record Region : Type 0 where
  pub start : ℕ
  pub size : ℕ
  pub cursor : ℕ

-- `sizeof(*GetCursor())`
abbrev pub cursor_size : ℕ
cursor_size = 8

unfoldable pub contains : Region → ℕ → Bool
contains r ptr = leb r.start ptr && ltb ptr (r.start + r.size)

unfoldable pub reset : Region → Region
reset r = record r { cursor = cursor_size }

-- The address of the block, and the region after the call.
unfoldable pub alloc_bytes : Region → ℕ → Outcome (ℕ × Region)
alloc_bytes r n_bytes =
    let new_cursor = (r.cursor + n_bytes) % u64_mod in
    if ltb r.size new_cursor
    then err oom
    else ok (r.start + r.cursor, record r { cursor = new_cursor })

-- `Alloc<T>(n_elems)`, where `elem_size` is `sizeof(T)`.
unfoldable pub alloc : Region → ℕ → ℕ → Outcome (ℕ × Region)
unfolding alloc_bytes
alloc r elem_size n_elems = alloc_bytes r ((n_elems * elem_size) % u64_mod)

unfoldable pub get_remaining_space : Region → ℕ
get_remaining_space r = (r.size + u64_mod - r.cursor) % u64_mod

unfoldable pub max_alloc_size : Region → ℕ
max_alloc_size r = r.size - cursor_size
