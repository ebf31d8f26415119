-- ===== src/Classfile/Writer/Buffer.antt =====
-- The bytes that the writing half of classfile/class_file.cpp puts into its buffer.
use k3s_virtual_machine.Base.{
  ℕ, zero, suc, ◌+◌, ◌≤◌, arith, ◌≡◌, refl, sym, ap, ◌∙◌, [], ◌∷◌, ◌++◌, append_assoc, append-nil,
  Bytes, Outcome, ok, ◌>>=◌, leb, length, drop, replicate, length-append, length-replicate,
  take-append, true,
}
use k3s_virtual_machine.Classfile.Writer.{FileBuffer, write_buf}

abbrev pub zeros : ℕ → Bytes
zeros n = replicate n 0

drop-zeros : (m a b : ℕ) → m ≡ a + b → drop a (zeros m) ≡ zeros b
drop-zeros m zero b e = ap zeros (omega arith)
drop-zeros zero (suc a) b e = absurd (omega arith)
drop-zeros (suc m) (suc a) b e = drop-zeros m a b (omega arith)

pub length-zeros : (n : ℕ) → length (zeros n) ≡ n
length-zeros n = length-replicate {A = ℕ} n 0

drop-length_append : (m n : ℕ) (w r : Bytes) → m ≡ length w + n → drop m (w ++ r) ≡ drop n r
drop-length_append m n [] r e = ap (λ n. drop n r) (omega arith)
drop-length_append zero n (x ∷ w) r e = absurd (omega arith)
drop-length_append (suc m) n (x ∷ w) r e = drop-length_append m n w r (omega arith)

-- A buffer of which `w` is written and `n` bytes are left.
abbrev pub at : Bytes → ℕ → FileBuffer
at w n = record { file_buffer = w ++ zeros n; buf_pos = length w }

pub write_buf-at :
    (w src : Bytes) (n k : ℕ) → n ≡ length src + k → write_buf (at w n) src ≡ ok (at (w ++ src) k)
unfolding write_buf
write_buf-at w src n k e =
    let fits : length w + length src ≤ length (w ++ zeros n) =
      omega (arith, length-append w (zeros n), length-zeros n) in
    let back : drop (length w + length src) (w ++ zeros n) ≡ zeros k =
      drop-length_append _ (length src) w (zeros n) refl ∙ drop-zeros n (length src) k e in
    let passes : leb (length w + length src) (length (w ++ zeros n)) ≡ true =
      ground (arith, fits) in
    rw (passes, back, take-append w (zeros n), length-append w src, append_assoc w src (zeros k))
      refl

-- A part of the writer appends `src` to what is written, wherever the buffer has room for it.
abbrev pub Writes : (FileBuffer → Outcome FileBuffer) → Bytes → Type 0
Writes g src = (w : Bytes) (n k : ℕ) → n ≡ length src + k → g (at w n) ≡ ok (at (w ++ src) k)

pub Writes-nothing : Writes (λ f. ok f) []
Writes-nothing w n k e = let h : n ≡ k = omega arith in rw (h, append-nil w) refl

pub Writes-buf : (src : Bytes) → Writes (λ f. write_buf f src) src
Writes-buf src w n k e = write_buf-at w src n k e

pub Writes-then :
    (g h : FileBuffer → Outcome FileBuffer) (a b : Bytes)
    → Writes g a
    → Writes h b
    → Writes (λ f. g f >>= h) (a ++ b)
Writes-then g h a b first second w n k e =
    let room : n ≡ length a + (length b + k) = omega (arith, length-append a b) in
    rw (first w n _ room, sym (append_assoc w a b)) (second (w ++ a) _ k refl)
