-- ===== src/Buffers/Bytes/Lawful.antt =====
-- A reader of chunks keeps the promises of the interface.
use thubo.Prelude.{
  ℕ, ◌+◌, ◌-◌, ◌≤◌, ◌<◌, ◌≡◌, refl, ap, sym, ◌∙◌, ◌⊎◌, inl, inr, List, [], ◌∷◌, some, none, arith,
  length, take, drop, get_elem?, get_elem?-drop, length-append, length-drop, length-take,
}
use native.Mathlib.Decide.{dec_le}
use thubo.Buffers.Interface.{joined, LawfulReader, Taken}
use thubo.Buffers.Bytes.{
  BytesReader, current, move_by, copy_loop, view_loop, read, read_exact, read_u8, read_chunks,
  read_chunk_contiguous, remaining, rounds, bytes_reader,
}
use thubo.Buffers.Bytes.Walk.{Moved, take-Inside, Moved-Inside, copy_loop_lem}
use thubo.Buffers.Bytes.Views.{chunk_view_lem, view_loop_lem}
use thubo.Buffers.Bytes.Cursor.{
  IsValid, Inside, rest, cursor-cases, move_by-full, move_by-part, remaining-eq-length,
}

-- All slices are seen within the rounds of a reader.
pub enough : (s : BytesReader) → length (drop s.slice s.inner) < rounds s
enough s = omega (arith, length-drop s.slice s.inner)

walk :
    (n : ℕ) (s : BytesReader)
    → IsValid s
    → ((copy_loop (rounds s) n s).0 ≡ take n (rest s)) × Moved n s (copy_loop (rounds s) n s).1
walk n s v = copy_loop_lem (rounds s) n s v (enough s)

read_exact-result :
    (n : ℕ) (s : BytesReader)
    → 0 < n
    → length (copy_loop (rounds s) n s).0 ≡ n
    → read_exact n s ≡ (some (copy_loop (rounds s) n s).0, (copy_loop (rounds s) n s).1)
unfolding read_exact read
read_exact-result n s pos e = ground arith

-- For a reader whose cursor is in its chunks, none of them empty, and no more bytes asked for than there
-- are, and at least one: `read_exact` copies the next bytes, and moves the cursor behind them.
pub read_exact-fits :
    (n : ℕ) (s : BytesReader)
    → IsValid s
    → 0 < n
    → n ≤ length (rest s)
    → Taken rest IsValid n (rest s) (take n (rest s)) (read_exact n s)
read_exact-fits n s v pos fits =
    let (bytes, (left, ok)) = walk n s v in
    let size : length (copy_loop (rounds s) n s).0 ≡ n =
      omega (arith, ap length bytes, length-take n (rest s)) in
    rw (read_exact-result n s pos size) (ap some bytes, left, ok)

pub read_exact-short :
    (n : ℕ) (s : BytesReader) → IsValid s → length (rest s) < n → (read_exact n s).0 ≡ none
unfolding read_exact read
read_exact-short n s v short =
    let (bytes, (left, ok)) = walk n s v in
    let size : length (copy_loop (rounds s) n s).0 ≡ length (rest s) =
      omega (arith, ap length bytes, length-take n (rest s)) in
    ground arith

read_u8-result :
    (b : ℕ) (s : BytesReader) (i : Inside s)
    → get_elem? i.chunk s.byte ≡ some b
    → read_u8 s ≡ (some b, move_by 1 i.chunk s)
unfolding read_u8
read_u8-result b s i e = ground (arith, i.found)

pub read_u8-cons :
    (s : BytesReader) (b : ℕ) (t : List ℕ)
    → IsValid s
    → rest s ≡ b ∷ t
    → ((read_u8 s).0 ≡ some b) × (rest (read_u8 s).1 ≡ t) × IsValid (read_u8 s).1
read_u8-cons s b t v e = elim (cursor-cases s v) [
  | inl (nothing, _, e') ↦ absurd (omega (arith, ap length e, ap length e'))
  | inr i ↦
      let (left, ok) = Moved-Inside 1 s i (omega (arith, i.within)) in
      let byte : get_elem? i.chunk s.byte ≡ some b =
        sym (get_elem?-drop i.chunk (joined i.behind) s.byte i.within)
        ∙ ap (λ l. get_elem? l 0) (sym i.rest-eq ∙ e) in
      rw (read_u8-result b s i byte) (refl, left ∙ ap (drop 1) e, ok)
]

pub read_u8-nil : (s : BytesReader) → IsValid s → rest s ≡ [] → (read_u8 s).0 ≡ none
unfolding read_u8
read_u8-nil s v e = elim (cursor-cases s v) [
  | inl (nothing, _, _) ↦ ground (arith, nothing)
  | inr i ↦ absurd (
      omega (
        arith,
        ap length e,
        ap length i.rest-eq,
        i.within,
        length-append (drop s.byte i.chunk) (joined i.behind),
        length-drop s.byte i.chunk,
      ))
]

read_chunks-result :
    (n : ℕ) (s : BytesReader)
    → n ≤ remaining s
    → read_chunks n s ≡ (some (view_loop (rounds s) n s).0, (view_loop (rounds s) n s).1)
unfolding read_chunks
read_chunks-result n s h = ground arith

-- For a reader whose cursor is in its chunks, none of them empty, and no more bytes asked for than there
-- are: `read_chunks` calls the closure for views that are the next bytes together, and moves the cursor
-- behind them.
pub read_chunks-fits :
    (n : ℕ) (s : BytesReader)
    → IsValid s
    → n ≤ length (rest s)
    → (cs : List (List ℕ)) × (joined cs ≡ take n (rest s))
      × Taken rest IsValid n (rest s) cs (read_chunks n s)
read_chunks-fits n s v fits =
    let (bytes, (left, ok)) = view_loop_lem (rounds s) n s v fits (enough s) in
    let room = remaining-eq-length s v in
    (
      (view_loop (rounds s) n s).0,
      bytes,
      rw (read_chunks-result n s (omega arith)) (refl, left, ok),
    )

pub read_chunks-short :
    (n : ℕ) (s : BytesReader) → IsValid s → length (rest s) < n → (read_chunks n s).0 ≡ none
unfolding read_chunks
read_chunks-short n s v short = ground (arith, remaining-eq-length s v)

read_chunk_contiguous-result :
    (n : ℕ) (s : BytesReader) (i : Inside s)
    → s.byte + n ≤ length i.chunk
    → read_chunk_contiguous n s ≡ (some (take n (drop s.byte i.chunk)), move_by n i.chunk s)
unfolding read_chunk_contiguous
read_chunk_contiguous-result n s i h = elim (dec_le (length i.chunk) (s.byte + n)) [
  | yes g ↦
      let len : length i.chunk - s.byte ≡ n = omega arith in
      ground (
        arith,
        i.found,
        chunk_view_lem s.byte (length i.chunk) i.chunk (omega arith) (omega arith),
        len,
        move_by-full n i.chunk s (omega arith),
      )
  | no g ↦
      let len : s.byte + n - s.byte ≡ n = omega arith in
      ground (
        arith,
        i.found,
        chunk_view_lem s.byte (s.byte + n) i.chunk (omega arith) h,
        len,
        move_by-part n i.chunk s (omega arith),
      )
]

read_chunk_contiguous-none :
    (n : ℕ) (s : BytesReader) (i : Inside s)
    → length i.chunk < s.byte + n
    → read_chunk_contiguous n s ≡ (none, s)
unfolding read_chunk_contiguous
read_chunk_contiguous-none n s i h = ground (arith, i.found)

read_chunk_contiguous-end :
    (n : ℕ) (s : BytesReader) → current s ≡ none → read_chunk_contiguous n s ≡ (none, s)
unfolding read_chunk_contiguous
read_chunk_contiguous-end n s e = ground (arith, e)

-- For a reader whose cursor is in its chunks, none of them empty, and at least one byte asked for:
-- `read_chunk_contiguous` views the next bytes and moves the cursor behind them, or fails and leaves the
-- bytes in front of the cursor as they are.
pub read_chunk_contiguous-cases :
    (n : ℕ) (s : BytesReader)
    → IsValid s
    → 0 < n
    → (n ≤ length (rest s))
        × Taken rest IsValid n (rest s) (take n (rest s)) (read_chunk_contiguous n s)
      ⊎ ((read_chunk_contiguous n s).0 ≡ none)
        × (rest (read_chunk_contiguous n s).1 ≡ rest s)
        × IsValid (read_chunk_contiguous n s).1
read_chunk_contiguous-cases n s v pos = elim (cursor-cases s v) [
  | inl (nothing, _, _) ↦ inr (rw (read_chunk_contiguous-end n s nothing) (refl, refl, v))
  | inr i ↦ elim (dec_le (s.byte + n) (length i.chunk)) [
    | yes h ↦
        let (left, ok) = Moved-Inside n s i h in
        inl (
          omega (
            arith,
            ap length i.rest-eq,
            length-append (drop s.byte i.chunk) (joined i.behind),
            length-drop s.byte i.chunk,
          ),
          rw (read_chunk_contiguous-result n s i h) (ap some (take-Inside n s i h), left, ok),
        )
    | no g ↦ inr (rw (read_chunk_contiguous-none n s i (omega arith)) (refl, refl, v))
  ]
]

-- How many bytes the chunk at the cursor has left.
abbrev pub left_in_chunk : BytesReader → ℕ
left_in_chunk s = elim (current s) [ none ↦ 0 | some chunk ↦ length chunk - s.byte ]

-- For a reader whose cursor is in its chunks, none of them empty, and at least one byte asked for:
-- `read_chunk_contiguous` succeeds exactly if the chunk at the cursor has that many bytes left. Then it views
-- the next bytes and moves the cursor behind them; otherwise it returns nothing and the reader is as it was.
pub read_chunk_contiguous-exact :
    (n : ℕ) (s : BytesReader)
    → IsValid s
    → 0 < n
    → (n ≤ left_in_chunk s)
        × Taken rest IsValid n (rest s) (take n (rest s)) (read_chunk_contiguous n s)
      ⊎ (left_in_chunk s < n) × (read_chunk_contiguous n s ≡ (none, s))
read_chunk_contiguous-exact n s v pos = elim (cursor-cases s v) [
  | inl (nothing, _, _) ↦
      inr (rw (left_in_chunk, nothing) pos, read_chunk_contiguous-end n s nothing)
  | inr i ↦
      let k : left_in_chunk s ≡ length i.chunk - s.byte = rw (left_in_chunk, i.found) refl in
      elim (dec_le (s.byte + n) (length i.chunk)) [
        | yes h ↦
            let (left, ok) = Moved-Inside n s i h in
            inl (
              omega (arith, k),
              rw (read_chunk_contiguous-result n s i h) (ap some (take-Inside n s i h), left, ok),
            )
        | no g ↦ inr (omega (arith, k), read_chunk_contiguous-none n s i (omega arith))
      ]
]

unfoldable pub bytes_lawful : LawfulReader bytes_reader
bytes_lawful = record {
  IsValid = IsValid;
  rest = rest;
  remaining-eq-length = remaining-eq-length;
  read_u8-cons = read_u8-cons;
  read_u8-nil = read_u8-nil;
  read_exact-fits = read_exact-fits;
  read_exact-short = read_exact-short;
  read_chunks-fits = read_chunks-fits;
  read_chunks-short = read_chunks-short;
  read_chunk_contiguous-cases = read_chunk_contiguous-cases;
}
