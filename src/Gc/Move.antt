-- ===== src/Gc/Move.antt =====
-- MoveObjects of allocator/gc_region.cpp: every object to move is copied whole, and leaves behind the
-- address of its copy.
use k3s_virtual_machine.Base.{
  NotIn, Distinct, ℕ, ◌+◌, ◌%◌, ◌≤◌, ◌<◌, arith, ◌≡◌, ◌≢◌, refl, ap, sym, ◌∙◌, ◌⊎◌, inl, inr, false,
  Option, none, some, List, [], ◌∷◌, ok, ltb, ◌==◌, u64_mod, All, ==_iff, ==_refl,
}
use k3s_virtual_machine.Allocator.Region.{Region, alloc_bytes}
use k3s_virtual_machine.Base.{update}
use k3s_virtual_machine.Interpreter.Objects.{HeapObject, set_relocated_ptr, was_relocated}
use k3s_virtual_machine.Gc.{Gc, move_objects, load_header}

-- `b` is none of the addresses.
-- `b` lies outside the free part of a region.
abbrev pub Outside : Region → ℕ → Type 0
Outside d b = (b < d.start + d.cursor) ⊎ (d.start + d.size ≤ b)

-- An object to move: it is there, has a size, was not moved, and does not lie where copies go.
pub record IsTarget (heap : ℕ → Option HeapObject) (d : Region) (a : ℕ) : Type 0 where
  pub object : HeapObject
  pub there : heap a ≡ some object
  pub live : 0 < a
  pub sized : 0 < object.header.allocated_size
  pub unmoved : object.header.relocated_ptr ≡ 0
  pub outside : Outside d a

-- The bytes that the objects take up.
abbrev size_at : Option HeapObject → ℕ
size_at none = 0
size_at (some o) = o.header.allocated_size

abbrev pub total : (ℕ → Option HeapObject) → List ℕ → ℕ
total heap [] = 0
total heap (a ∷ ts) = size_at (heap a) + total heap ts

-- The old object holds the address of its copy, which lies in the part of the region that the moves
-- have filled, and is equal to the object before the move.
pub record IsMoved (old new : ℕ → Option HeapObject) (d d' : Region) (a : ℕ) : Type 0 where
  pub object : HeapObject
  pub copy : ℕ
  pub before : old a ≡ some object
  pub forwards :
      new a ≡ some (record object { header = record object.header { relocated_ptr = copy } })
  pub equal : new copy ≡ some object
  pub low : d.start + d.cursor ≤ copy
  pub high : copy + object.header.allocated_size ≤ d'.start + d'.cursor

pub record AllMoved (g g' : Gc) (d d' : Region) (ts : List ℕ) : Type 0 where
  pub start : d'.start ≡ d.start
  pub size : d'.size ≡ d.size
  pub cursor : d'.cursor ≡ d.cursor + total g.heap ts
  pub moved : All (IsMoved g.heap g'.heap d d') ts
  pub kept : (b : ℕ) → NotIn b ts → Outside d b → g'.heap b ≡ g.heap b
  pub frames : g'.state_stack ≡ g.state_stack

-- The memory after one object has moved.
abbrev after : Gc → Region → ℕ → HeapObject → Gc
after g d a o = record g {
  heap =
      update (update g.heap (d.start + d.cursor) (some o)) a
        (some (record o { header = record o.header { relocated_ptr = d.start + d.cursor } }));
}

abbrev filled : Region → ℕ → Region
filled d n = record d { cursor = d.cursor + n }

move_one :
    (g : Gc) (d : Region) (a : ℕ) (rest : List ℕ) (t : IsTarget g.heap d a)
    → d.cursor + t.object.header.allocated_size ≤ d.size
    → d.size < u64_mod
    → move_objects (a ∷ rest) g d
      ≡ move_objects rest (after g d a t.object) (filled d t.object.header.allocated_size)
unfolding move_objects load_header set_relocated_ptr was_relocated alloc_bytes
move_one g d a rest t fits small =
    let n = t.object.header.allocated_size in
    let wrap : (d.cursor + n) % u64_mod ≡ d.cursor + n = omega arith in
    let room : ltb d.size (d.cursor + n) ≡ false = ground arith in
    let not_null : (a == 0) ≡ false = ground (arith, t.live) in
    rw (not_null, t.there, t.unmoved, wrap, room) refl

after-other :
    (g : Gc) (d : Region) (a b : ℕ) (o : HeapObject)
    → b ≢ a
    → b ≢ d.start + d.cursor
    → (after g d a o).heap b ≡ g.heap b
after-other g d a b o ne ne' = ground (arith, ==_iff a b, ==_iff (d.start + d.cursor) b)

after-copy :
    (g : Gc) (d : Region) (a : ℕ) (o : HeapObject)
    → a ≢ d.start + d.cursor
    → (after g d a o).heap (d.start + d.cursor) ≡ some o
after-copy g d a o ne = ground (arith, ==_iff a (d.start + d.cursor), ==_refl (d.start + d.cursor))

not_free :
    (d : Region) (b n : ℕ) → Outside d b → 0 < n → d.cursor + n ≤ d.size → b ≢ d.start + d.cursor
not_free d b n (inl h) pos fits e = omega arith
not_free d b n (inr h) pos fits e = omega arith

filled-Outside : (d : Region) (b n : ℕ) → Outside d b → Outside (filled d n) b
filled-Outside d b n (inl h) = inl (omega arith)
filled-Outside d b n (inr h) = inr h

rest-IsTarget :
    (g : Gc) (d : Region) (a n : ℕ) (o : HeapObject) (rest : List ℕ)
    → 0 < n
    → d.cursor + n ≤ d.size
    → NotIn a rest
    → All (IsTarget g.heap d) rest
    → All (IsTarget (after g d a o).heap (filled d n)) rest
rest-IsTarget g d a n o [] pos fits ne ts = tt
rest-IsTarget g d a n o (c ∷ rest) pos fits (ne, nes) (t, ts) = (
  record {
    object = t.object;
    there = after-other g d a c o ne (not_free d c n t.outside pos fits) ∙ t.there;
    live = t.live;
    sized = t.sized;
    unmoved = t.unmoved;
    outside = filled-Outside d c n t.outside;
  },
  rest-IsTarget g d a n o rest pos fits nes ts,
)

rest-total :
    (g : Gc) (d : Region) (a n : ℕ) (o : HeapObject) (rest : List ℕ)
    → 0 < n
    → d.cursor + n ≤ d.size
    → NotIn a rest
    → All (IsTarget g.heap d) rest
    → total (after g d a o).heap rest ≡ total g.heap rest
rest-total g d a n o [] pos fits ne ts = refl
rest-total g d a n o (c ∷ rest) pos fits (ne, nes) (t, ts) =
    rw (after-other g d a c o ne (not_free d c n t.outside pos fits))
      (ap (λ m. size_at (g.heap c) + m) (rest-total g d a n o rest pos fits nes ts))

-- What is moved later was as well moved from the memory before.
earlier-IsMoved :
    (g g' : Gc) (d d' : Region) (a n : ℕ) (o : HeapObject) (rest : List ℕ)
    → 0 < n
    → d.cursor + n ≤ d.size
    → NotIn a rest
    → All (IsTarget g.heap d) rest
    → All (IsMoved (after g d a o).heap g'.heap (filled d n) d') rest
    → All (IsMoved g.heap g'.heap d d') rest
earlier-IsMoved g g' d d' a n o [] pos fits ne ts ms = tt
earlier-IsMoved g g' d d' a n o (c ∷ rest) pos fits (ne, nes) (t, ts) (m, ms) = (
  record {
    object = m.object;
    copy = m.copy;
    before = sym (after-other g d a c o ne (not_free d c n t.outside pos fits)) ∙ m.before;
    forwards = m.forwards;
    equal = m.equal;
    low = omega (arith, m.low);
    high = m.high;
  },
  earlier-IsMoved g g' d d' a n o rest pos fits nes ts ms,
)

copy-NotIn :
    (heap : ℕ → Option HeapObject) (d : Region) (n : ℕ) (rest : List ℕ)
    → 0 < n
    → d.cursor + n ≤ d.size
    → All (IsTarget heap d) rest
    → NotIn (d.start + d.cursor) rest
copy-NotIn heap d n [] pos fits ts = tt
copy-NotIn heap d n (c ∷ rest) pos fits (t, ts) =
    (not_free d c n t.outside pos fits, copy-NotIn heap d n rest pos fits ts)

-- For distinct addresses of objects that have a size, were not moved, do not lie at 0 and lie
-- outside the free part of the next region, which has room for all of them and fewer than 2^64
-- bytes, the loop of MoveObjects succeeds: each object holds the address of a copy that is equal
-- to it as it was, the copies lie in the part that the region's cursor passed over, the cursor
-- moves by the sum of the sizes, and every other address outside the free part keeps its object,
-- as the frames keep their registers.
pub move_objects-AllMoved :
    (ts : List ℕ) (g : Gc) (d : Region)
    → Distinct ts
    → All (IsTarget g.heap d) ts
    → d.cursor + total g.heap ts ≤ d.size
    → d.size < u64_mod
    → (g' : Gc) × (d' : Region) × (move_objects ts g d ≡ ok (g', d')) × AllMoved g g' d d' ts
unfolding move_objects
move_objects-AllMoved [] g d dist ts fits small = (
  g,
  d,
  refl,
  record {
    start = refl;
    size = refl;
    cursor = omega arith;
    moved = tt;
    kept = λ b n o. refl;
    frames = refl;
  },
)
move_objects-AllMoved (a ∷ rest) g d (ne, dist) (t, ts) fits small =
    let n = t.object.header.allocated_size in
    let size : size_at (g.heap a) ≡ n = rw t.there refl in
    let here : d.cursor + n ≤ d.size = omega arith in
    let g1 = after g d a t.object in
    let same = rest-total g d a n t.object rest t.sized here ne ts in
    let (g', d', run, m) =
      move_objects-AllMoved rest g1 (filled d n) dist
        (rest-IsTarget g d a n t.object rest t.sized here ne ts) (omega arith) small in
    let copy = d.start + d.cursor in
    let low_copy : copy < d.start + (d.cursor + n) = omega (arith, t.sized) in
    (
      g',
      d',
      move_one g d a rest t here small ∙ run,
      record {
        start = m.start;
        size = m.size;
        cursor = omega (arith, m.cursor);
        moved = (
          record {
            object = t.object;
            copy = copy;
            before = t.there;
            forwards = m.kept a ne (filled-Outside d a n t.outside) ∙ rw (==_refl a) refl;
            equal =
                m.kept copy (copy-NotIn g.heap d n rest t.sized here ts) (inl low_copy)
                ∙ after-copy g d a t.object (not_free d a n t.outside t.sized here);
            low = omega arith;
            high = omega (arith, m.cursor, m.start);
          },
          earlier-IsMoved g g' d d' a n t.object rest t.sized here ne ts m.moved,
        );
        kept = λ b (ne_a, nes) out.
            m.kept b nes (filled-Outside d b n out)
            ∙ after-other g d a b t.object (λ e. ne_a (sym e)) (not_free d b n out t.sized here);
        frames = m.frames;
      },
    )
