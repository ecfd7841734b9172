-- ===== src/Buffers/Slice/Lawful.antt =====
-- A byte slice keeps the promises of a reader: what it has not read is the slice itself.
use thubo.Prelude.{
  ℕ, suc, ◌≤◌, ◌<◌, min, ◌≡◌, refl, [], ◌∷◌, some, none, arith, length, take, drop, append-nil, inl,
  inr,
}
use thubo.Buffers.Interface.{LawfulReader}
use thubo.Buffers.Slice.{SliceReader, read_exact, read_u8, read_chunks, slice_reader, read_chunk}
use native.Mathlib.Decide.{dec_le}

pub read_exact_fits :
    (n : ℕ) (s : SliceReader) → n ≤ length s → read_exact n s ≡ (some (take n s), drop n s)
unfolding read_exact
read_exact_fits n s h = ground arith

pub read_exact_short : (n : ℕ) (s : SliceReader) → length s < n → read_exact n s ≡ (none, s)
unfolding read_exact
read_exact_short n s h = ground arith

pub read_u8_cons : (b : ℕ) (t : SliceReader) → read_u8 (b ∷ t) ≡ (some b, t)
unfolding read_u8
read_u8_cons b t = ground (arith, one)
  where
    one : min (suc (length t)) 1 ≡ 1
    one = omega arith

pub read_chunks_fits :
    (n : ℕ) (s : SliceReader) → n ≤ length s → read_chunks n s ≡ (some (take n s ∷ []), drop n s)
unfolding read_chunks
read_chunks_fits n s h = ground (arith, read_exact_fits n s h)

pub read_chunks_short : (n : ℕ) (s : SliceReader) → length s < n → read_chunks n s ≡ (none, s)
unfolding read_chunks
read_chunks_short n s h = ground (arith, read_exact_short n s h)

unfoldable pub slice_lawful : LawfulReader slice_reader
unfolding read_chunk read_u8
slice_lawful = record {
  IsValid = λ s. Unit {0};
  rest = λ s. s;
  remaining-eq-length = λ s v. refl;
  read_u8-cons = λ s b t v e. rw (e, read_u8_cons) (refl, refl, tt);
  read_u8-nil = λ s v e. rw e (unfold read_u8 in refl);
  read_exact-fits = λ n s v pos h. rw (read_exact_fits n s h) (refl, refl, tt);
  read_exact-short = λ n s v h. rw (read_exact_short n s h);
  read_chunks-fits = λ n s v h.
      (take n s ∷ [], append-nil (take n s), rw (read_chunks_fits n s h) (refl, refl, tt));
  read_chunks-short = λ n s v h. rw (read_chunks_short n s h);
  read_chunk_contiguous-cases = λ n s v pos. elim (dec_le n (length s)) [
    | yes h ↦ inl (h, rw (read_exact_fits n s h) (refl, refl, tt))
    | no h ↦ inr (rw (read_exact_short n s (omega arith)) (refl, refl, tt))
  ];
}
