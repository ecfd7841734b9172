-- ===== src/Buffers/Slice.antt =====
-- src/buffers/slice.rs: a byte slice as a writer and as a reader.
pub mod Lawful
use thubo.Prelude.{
  ℕ, min, List, [], ◌∷◌, ◌++◌, some, none, Op, length, take, drop, ltb, ◌==◌, get_or, if◌then◌else◌,
}
use thubo.Buffers.Interface.{Writer, write_u8_default, Reader}

-- `&mut [u8]` as a writer: the slice is what lies behind the bytes written, which are kept as the
-- memory that the caller sees.
pub record SliceWriter : Type 0 where
  pub written : List ℕ
  pub slice : List ℕ

-- `Writer::write` for `&mut [u8]`: as many bytes as fit; none at all is an error.
unfoldable pub write : List ℕ → Op SliceWriter ℕ
write bytes w =
    let len = min (length bytes) (length w.slice) in
    if len == 0
    then (none, w)
    else (some len, record { written = w.written ++ take len bytes; slice = drop len w.slice })

-- `Writer::write_exact` for `&mut [u8]`
unfoldable pub write_exact : List ℕ → Op SliceWriter (Unit {0})
unfolding write
write_exact bytes w =
    if ltb (length w.slice) (length bytes) then (none, w) else (some tt, (write bytes w).1)

-- `Writer::with_slot` for `&mut [u8]`; `self[written..]` is the rest of the slice, as the closure left it.
unfoldable pub with_slot : ℕ → (List ℕ → List ℕ × ℕ) → Op SliceWriter ℕ
with_slot len f w =
    if ltb (length w.slice) len
    then (none, w)
    else let (slot, n) = f (take len w.slice) in
      let slice = slot ++ drop len w.slice in
      (
        if n == 0 then none else some n,
        record { written = w.written ++ take n slice; slice = drop n slice },
      )

instance abbrev pub slice_writer : Writer SliceWriter
slice_writer = record {
  write = write;
  write_exact = write_exact;
  write_u8 = write_u8_default write_exact;
  remaining = λ w. length w.slice;
  with_slot = with_slot;
}

-- `&[u8]` as a reader: the slice is what has not been read.
abbrev pub SliceReader : Type 0
SliceReader = List ℕ

-- `Reader::read`: as many bytes as there are, up to the room of the caller.
unfoldable pub read : ℕ → Op SliceReader (List ℕ)
read room s =
    let len = min (length s) room in if len == 0 then (none, s) else (some (take len s), drop len s)

-- `Reader::read_exact`
unfoldable pub read_exact : ℕ → Op SliceReader (List ℕ)
read_exact len s = if ltb (length s) len then (none, s) else (some (take len s), drop len s)

-- `Reader::read_u8`: a `read` into an array of one byte
unfoldable pub read_u8 : Op SliceReader ℕ
unfolding read
read_u8 s =
    let (r, s') = read 1 s in elim r [ none ↦ (none, s') | some buf ↦ (some (get_or buf 0 0), s') ]

-- `Reader::read_chunk` and `Reader::read_chunk_contiguous`: the bytes are copied to a new chunk.
unfoldable pub read_chunk : ℕ → Op SliceReader (List ℕ)
unfolding read_exact
read_chunk len = read_exact len

-- `Reader::read_chunks`: the closure is called once.
unfoldable pub read_chunks : ℕ → Op SliceReader (List (List ℕ))
unfolding read_chunk
read_chunks len s =
    let (r, s') = read_chunk len s in elim r [ none ↦ (none, s') | some c ↦ (some (c ∷ []), s') ]

instance abbrev pub slice_reader : Reader SliceReader
slice_reader = record {
  read_exact = read_exact;
  read_u8 = read_u8;
  remaining = λ s. length s;
  read_chunk = read_chunk;
  read_chunks = read_chunks;
  read_chunk_contiguous = read_chunk;
}
