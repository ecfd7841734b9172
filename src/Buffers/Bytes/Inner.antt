-- ===== src/Buffers/Bytes/Inner.antt =====
-- A reader of a buffer stays a reader of that buffer.
use thubo.Prelude.{
  ℕ, zero, suc, ◌+◌, ◌-◌, min, ◌≡◌, refl, ◌∙◌, inl, inr, List, Option-cases, length, drop,
  get_elem?, arith,
}
use thubo.Buffers.Interface.{LawfulReader}
use thubo.Buffers.Bytes.{
  Bytes, BytesReader, current, move_by, copy_loop, rounds, read, read_exact, read_u8, view_loop,
  read_chunks, read_chunk_contiguous, bytes_reader,
}
use thubo.Buffers.Bytes.Cursor.{IsValid}
use thubo.Buffers.Bytes.Lawful.{bytes_lawful}

inner-move_by : (n : ℕ) (c : List ℕ) (s : BytesReader) → (move_by n c s).inner ≡ s.inner
unfolding move_by
inner-move_by n c s = ground arith

inner-copy_loop : (fuel n : ℕ) (s : BytesReader) → (copy_loop fuel n s).1.inner ≡ s.inner
unfolding copy_loop
inner-copy_loop zero n s = refl
inner-copy_loop (suc fuel) n s = elim (Option-cases (current s)) [
  | inl e ↦ ground (arith, e)
  | inr (c, e) ↦
      let k = min (length (drop s.byte c)) n in
      let moved = inner-move_by k c s in
      let more = inner-copy_loop fuel (n - k) (move_by k c s) in ground (arith, e, moved, more)
]

inner-read : (n : ℕ) (s : BytesReader) → (read n s).1.inner ≡ s.inner
unfolding read
inner-read n s = inner-copy_loop (rounds s) n s

pub inner-read_exact : (n : ℕ) (s : BytesReader) → (read_exact n s).1.inner ≡ s.inner
unfolding read_exact
inner-read_exact n s = elim (Option-cases (read n s).0) [
  | inl e ↦ ground (arith, e, inner-read n s)
  | inr (bs, e) ↦ ground (arith, e, inner-read n s)
]

pub inner-read_u8 : (s : BytesReader) → (read_u8 s).1.inner ≡ s.inner
unfolding read_u8
inner-read_u8 s = elim (Option-cases (current s)) [
  | inl e ↦ ground (arith, e)
  | inr (c, e) ↦ elim (Option-cases (get_elem? c s.byte)) [
    | inl f ↦ ground (arith, e, f)
    | inr (b, f) ↦ ground (arith, e, f, inner-move_by 1 c s)
  ]
]

inner-view_loop : (fuel n : ℕ) (s : BytesReader) → (view_loop fuel n s).1.inner ≡ s.inner
unfolding view_loop
inner-view_loop zero n s = refl
inner-view_loop (suc fuel) n s = elim (Option-cases (current s)) [
  | inl e ↦ ground (arith, e)
  | inr (c, e) ↦
      let a = length c - s.byte in
      let ih1 = inner-view_loop fuel 0 (record s { byte = s.byte + n }) in
      let ih2 = inner-view_loop fuel 0 (record s { slice = s.slice + 1; byte = 0 }) in
      let ih3 = inner-view_loop fuel (n - a) (record s { slice = s.slice + 1; byte = 0 }) in
      ground (arith, e, ih1, ih2, ih3)
]

pub inner-read_chunks : (n : ℕ) (s : BytesReader) → (read_chunks n s).1.inner ≡ s.inner
unfolding read_chunks
inner-read_chunks n s = ground (arith, inner-view_loop (rounds s) n s)

pub inner-read_chunk_contiguous :
    (n : ℕ) (s : BytesReader) → (read_chunk_contiguous n s).1.inner ≡ s.inner
unfolding read_chunk_contiguous
inner-read_chunk_contiguous n s = elim (Option-cases (current s)) [
  | inl e ↦ ground (arith, e)
  | inr (c, e) ↦ ground (arith, e)
]

-- The readers of `b` keep the promises of readers.
unfoldable pub bytes_lawful_of : Bytes → LawfulReader bytes_reader
unfolding bytes_lawful
bytes_lawful_of b = record {
  IsValid = λ s. IsValid s × (s.inner ≡ b);
  rest = bytes_lawful.rest;
  remaining-eq-length = λ s v. bytes_lawful.remaining-eq-length s v.0;
  read_u8-cons = λ s x t v e.
      let (r, l, k) = bytes_lawful.read_u8-cons s x t v.0 e in (r, l, (k, inner-read_u8 s ∙ v.1));
  read_u8-nil = λ s v e. bytes_lawful.read_u8-nil s v.0 e;
  read_exact-fits = λ n s v pos le.
      let (r, l, k) = bytes_lawful.read_exact-fits n s v.0 pos le in
      (r, l, (k, inner-read_exact n s ∙ v.1));
  read_exact-short = λ n s v lt. bytes_lawful.read_exact-short n s v.0 lt;
  read_chunks-fits = λ n s v le.
      let (cs, j, (r, l, k)) = bytes_lawful.read_chunks-fits n s v.0 le in
      (cs, j, (r, l, (k, inner-read_chunks n s ∙ v.1)));
  read_chunks-short = λ n s v lt. bytes_lawful.read_chunks-short n s v.0 lt;
  read_chunk_contiguous-cases = λ n s v pos.
      elim (bytes_lawful.read_chunk_contiguous-cases n s v.0 pos) [
        | inl (room, (got, left, ok)) ↦
            inl (room, (got, left, (ok, inner-read_chunk_contiguous n s ∙ v.1)))
        | inr (got, left, ok) ↦ inr (got, left, (ok, inner-read_chunk_contiguous n s ∙ v.1))
      ];
}
