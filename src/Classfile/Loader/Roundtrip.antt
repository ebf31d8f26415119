-- ===== src/Classfile/Loader/Roundtrip.antt =====
-- What the loader of classfile/class_file.cpp makes of the constants that the writer wrote.
use k3s_virtual_machine.Base.{
  ℕ, zero, suc, ◌+◌, ◌≤◌, ◌<◌, arith, ◌≡◌, refl, ◌∙◌, Option, [], ◌∷◌, ◌++◌, append_assoc, Bytes,
  ok, length, length-append,
}
use native.Mathlib.Decide.{dec_lt}
use k3s_virtual_machine.Classfile.ConstantPool.{Element}
use k3s_virtual_machine.Interpreter.Register.{RegType, num, arr, str, obj, func, nil, any}
use k3s_virtual_machine.Assembler.{AsmEncoder}
use k3s_virtual_machine.Classfile.Writer.{word_record}
use k3s_virtual_machine.Classfile.Writer.Records.{record_bytes}
use k3s_virtual_machine.Classfile.Writer.Pool.{bytes_from}
use k3s_virtual_machine.Classfile.Loader.{Loaded, load_constant_pool}
use k3s_virtual_machine.Classfile.Loader.Rounds.{
  Plain, StandsFor, Stepped, LoadsTo, load_num, load_func, load_str, length-text,
}

-- The constants from `id` on are not touched yet, and those before it are loaded.
pub record Progress (e : AsmEncoder) (id addr : ℕ) (st : Loaded) : Type 0 where
  pub fresh : (i : ℕ) → id ≤ i → (st.pool.elements i).type ≡ any
  pub loaded :
      (i : ℕ)
      → i < id
      → StandsFor e
          (e.constant_pool.elements i).type
          (e.constant_pool.elements i).val
          (st.pool.elements i)
          st.texts
          addr

abbrev pub PlainAt : AsmEncoder → ℕ → Type 0
PlainAt e i = Plain e (e.constant_pool.elements i).type (e.constant_pool.elements i).val

StandsFor-mono :
    (e : AsmEncoder) (t : RegType) (val : ℕ) (el el' : Element) (texts texts' : ℕ → Option Bytes)
    (bound bound' : ℕ)
    → el' ≡ el
    → bound ≤ bound'
    → ((a : ℕ) → a < bound → texts' a ≡ texts a)
    → StandsFor e t val el texts bound
    → StandsFor e t val el' texts' bound'
StandsFor-mono e num val el el' texts texts' bound bound' same le kept s = same ∙ s
StandsFor-mono e func val el el' texts texts' bound bound' same le kept s = same ∙ s
StandsFor-mono e any val el el' texts texts' bound bound' same le kept s = rw same s
StandsFor-mono e str val el el' texts texts' bound bound' same le kept (t, text, lt) =
    rw same (t, kept el.val lt ∙ text, omega arith)
StandsFor-mono e arr val el el' texts texts' bound bound' same le kept s = s
StandsFor-mono e obj val el el' texts texts' bound bound' same le kept s = s
StandsFor-mono e nil val el el' texts texts' bound bound' same le kept s = s

load_any :
    (e : AsmEncoder) (rest : Bytes) (val id fuel addr : ℕ) (st : Loaded)
    → length rest ≤ fuel
    → (st.pool.elements id).type ≡ any
    → LoadsTo e any val id fuel addr st rest rest
unfolding LoadsTo
load_any e rest val id fuel addr st enough fresh = (
  fuel,
  addr,
  st,
  refl,
  enough,
  record { forward = omega arith; stored = fresh; others = λ i ne. refl; below = λ a lt. refl },
)

-- The bytes of one constant, whatever its kind.
load_one :
    (e : AsmEncoder) (padding rest : Bytes) (t : RegType) (val id fuel addr : ℕ) (st : Loaded)
    → length padding ≡ 7
    → Plain e t val
    → (st.pool.elements id).type ≡ any
    → length (record_bytes padding e t val id ++ rest) ≤ fuel
    → LoadsTo e t val id fuel addr st (record_bytes padding e t val id ++ rest) rest
load_one e padding rest num val id fuel addr st h plain fresh enough =
    load_num e padding rest val id fuel addr st h plain
      (omega (arith, length-append (word_record padding val id) rest))
load_one e padding rest func val id fuel addr st h plain fresh enough =
    load_func e padding rest val id fuel addr st h plain
      (omega (arith, length-append (word_record padding val id) rest))
load_one e padding rest any val id fuel addr st h plain fresh enough =
    load_any e rest val id fuel addr st enough fresh
load_one e padding rest str val id fuel addr st h (s, at_val, small, no_nul) fresh enough =
    let same : record_bytes padding e str val id ++ rest
        ≡ 2 ∷ (word_record padding (length s) id ++ (s ++ 0 ∷ rest)) =
      rw
        (
          at_val,
          append_assoc (word_record padding (length s) id) (s ++ 0 ∷ []) rest,
          append_assoc s (0 ∷ []) rest,
        )
        refl in
    let enough' : length (2 ∷ (word_record padding (length s) id ++ (s ++ 0 ∷ rest))) ≤ fuel =
      rw same at enough in
    let size = length-text padding s rest id h in
    rw same (load_str e padding s rest val id fuel addr st h small no_nul at_val (omega arith))
load_one e padding rest arr val id fuel addr st h plain fresh enough = elim plain [ ]
load_one e padding rest obj val id fuel addr st h plain fresh enough = elim plain [ ]
load_one e padding rest nil val id fuel addr st h plain fresh enough = elim plain [ ]

step-Progress :
    (e : AsmEncoder) (id addr addr' : ℕ) (st st' : Loaded)
    → Progress e id addr st
    → Stepped e
        (e.constant_pool.elements id).type
        (e.constant_pool.elements id).val
        id
        addr
        addr'
        st
        st'
    → Progress e (id + 1) addr' st'
step-Progress e id addr addr' st st' p s = record {
  fresh = λ i le. rw (s.others i (omega arith)) (p.fresh i (omega arith));
  loaded = λ i lt. elim (dec_lt i id) [
    | yes before ↦
        StandsFor-mono e _ _ (st.pool.elements i) (st'.pool.elements i) st.texts st'.texts addr
          addr' (s.others i (omega arith)) s.forward s.below (p.loaded i before)
    | no here ↦ let same : i ≡ id = omega arith in rw same s.stored
  ];
}

-- The loop over the constants from `id` to 127.
pub load_from :
    (padding : ℕ → Bytes) (e : AsmEncoder) (count id fuel addr : ℕ) (st : Loaded)
    → ((i : ℕ) → length (padding i) ≡ 7)
    → ((i : ℕ) → i < 128 → PlainAt e i)
    → id + count ≡ 128
    → length (bytes_from padding e count id) ≤ fuel
    → Progress e id addr st
    → (addr' : ℕ) × (st' : Loaded) × (load_constant_pool fuel addr
          (bytes_from padding e count id)
          st
        ≡ ok st')
      × Progress e 128 addr' st'
unfolding bytes_from LoadsTo load_constant_pool
load_from padding e zero id fuel addr st p plain last enough prog =
    let same : id ≡ 128 = omega arith in (addr, st, refl, rw same at prog)
load_from padding e (suc count) id fuel addr st p plain last enough prog =
    let (fuel', addr1, st1, run, enough', s) =
      load_one e (padding id) (bytes_from padding e count (id + 1)) _ _ id fuel addr st (p id)
        (plain id (omega arith)) (prog.fresh id (omega arith)) enough in
    let (addr2, st2, run', done) =
      load_from padding e count (id + 1) fuel' addr1 st1 p plain (omega arith) enough'
        (step-Progress e id addr addr1 st st1 prog s) in
    (addr2, st2, run ∙ run', done)
