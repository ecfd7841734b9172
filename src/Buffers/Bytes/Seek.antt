-- ===== src/Buffers/Bytes/Seek.antt =====
-- src/buffers/bytes.rs: `SeekableReader` of BytesReader, whose mark is the cursor.
use thubo.Prelude.{
  ℕ, ◌≡◌, some, none, Bool, true, false, leb, length, get_elem?, if◌then◌else◌, arith,
}
use thubo.Buffers.Bytes.{Bytes, BytesReader, reader, current}
use thubo.Buffers.Bytes.Cursor.{Inside}

-- `BytesPos`
pub record BytesPos : Type 0 where
  pub slice : ℕ
  pub byte : ℕ

-- `BytesPos::zero`
abbrev pub start : BytesPos
start = record { slice = 0; byte = 0 }

unfoldable pub mark : BytesReader → BytesPos
mark s = record { slice = s.slice; byte = s.byte }

unfoldable pub seek : BytesPos → BytesReader → Bool × BytesReader
seek pos s = elim (get_elem? s.inner pos.slice) [
  | some c ↦
      if leb pos.byte (length c)
      then (true, record s { slice = pos.slice; byte = pos.byte })
      else (false, s)
  | none ↦ (false, s)
]

-- The reader of a buffer at a mark.
abbrev pub reader_at : Bytes → BytesPos → BytesReader
reader_at b pos = record { inner = b; slice = pos.slice; byte = pos.byte }

-- At a mark that is the cursor of a valid reader, `seek` is back there if bytes are left, and fails if
-- the cursor is behind the last chunk.
pub seek-Inside :
    (b : Bytes) (pos : BytesPos)
    → Inside (reader_at b pos)
    → seek pos (reader b) ≡ (true, reader_at b pos)
unfolding seek current reader
seek-Inside b pos i = ground (arith, i.found, i.within)

pub seek-behind :
    (b : Bytes) (pos : BytesPos)
    → current (reader_at b pos) ≡ none
    → seek pos (reader b) ≡ (false, reader b)
unfolding seek current reader
seek-behind b pos n = ground (arith, n)
