-- ===== src/Buffers/BoxBuf.antt =====
-- src/buffers/boxbuf.rs: a buffer of a fixed capacity, with the length of what is written to it.
pub mod Lawful
use thubo.Prelude.{
  ℕ, ◌+◌, ◌-◌, List, [], ◌∷◌, ◌++◌, Option, some, none, Op, length, take, drop, replicate, ltb,
  ◌==◌, if◌then◌else◌,
}
use thubo.Buffers.Interface.{Writer, write_u8_default}
use thubo.Buffers.Slice
use thubo.Buffers.Slice.{SliceWriter}

pub record BoxBuf : Type 0 where
  pub buffer : List ℕ
  pub len : ℕ

unfoldable pub with_capacity : ℕ → BoxBuf
with_capacity capacity = record { buffer = replicate capacity 0; len = 0 }

unfoldable pub capacity : BoxBuf → ℕ
capacity b = length b.buffer

-- `as_slice` and `as_mut_slice`; `unsafe` code relies on `len` being at most the capacity.
unfoldable pub as_slice : BoxBuf → List ℕ
as_slice b = take b.len b.buffer

unfoldable pub clear : BoxBuf → BoxBuf
clear b = record b { len = 0 }

-- `as_writable_slice().writer()`: a writer on what lies behind `len`
unfoldable pub as_writable_slice : BoxBuf → SliceWriter
as_writable_slice b = record { written = take b.len b.buffer; slice = drop b.len b.buffer }

-- The memory of the buffer after its slice has been written to.
abbrev pub memory : SliceWriter → List ℕ
memory w = w.written ++ w.slice

unfoldable pub write : List ℕ → Op BoxBuf ℕ
unfolding as_writable_slice Slice.write
write bytes b =
    let (r, w) = Slice.write bytes (as_writable_slice b) in
    elim r [
      | none ↦ (none, record b { buffer = memory w })
      | some n ↦ (some n, record { buffer = memory w; len = b.len + n })
    ]

unfoldable pub write_exact : List ℕ → Op BoxBuf (Unit {0})
unfolding as_writable_slice Slice.write_exact
write_exact bytes b =
    let (r, w) = Slice.write_exact bytes (as_writable_slice b) in
    elim r [
      | none ↦ (none, record b { buffer = memory w })
      | some u ↦ (some tt, record { buffer = memory w; len = b.len + length bytes })
    ]

unfoldable pub remaining : BoxBuf → ℕ
unfolding capacity
remaining b = capacity b - b.len

unfoldable pub with_slot : ℕ → (List ℕ → List ℕ × ℕ) → Op BoxBuf ℕ
unfolding remaining
with_slot n f b =
    if ltb (remaining b) n
    then (none, b)
    else let slice = drop b.len b.buffer in
      let (slot, written) = f (take n slice) in
      let b' : BoxBuf = record {
        buffer = take b.len b.buffer ++ (slot ++ drop n slice);
        len = b.len + written;
      } in
      (if written == 0 then none else some written, b')

-- `BacktrackableWriter`
unfoldable pub mark : BoxBuf → ℕ
mark b = b.len

unfoldable pub rewind : ℕ → BoxBuf → BoxBuf
rewind m b = record b { len = m }

instance abbrev pub box_buf_writer : Writer BoxBuf
box_buf_writer = record {
  write = write;
  write_exact = write_exact;
  write_u8 = write_u8_default write_exact;
  remaining = remaining;
  with_slot = with_slot;
}
