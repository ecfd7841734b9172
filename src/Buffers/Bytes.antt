-- ===== src/Buffers/Bytes.antt =====
-- src/buffers/bytes.rs and the views of chunk.rs: a buffer of chunks, and the reader whose cursor is a
-- chunk and a byte in it. The list of the chunks stands for `SingleOrVec<Chunk>`.
pub mod Cursor
pub mod Walk
pub mod Views
pub mod Lawful
pub mod View
pub mod Inner
pub mod Seek
use Prim.Native.Nat.{compare, Ordering}
use thubo.Prelude.{
  ℕ, zero, suc, ◌+◌, ◌-◌, min, List, [], ◌∷◌, ◌++◌, Option, some, none, Bool, true, false, Op,
  length, take, drop, get_elem?, ltb, leb, ◌==◌, ◌&&◌, if◌then◌else◌, ◌>>=◌, ◌>>◌, pure,
}
use thubo.Buffers.Interface.{Reader}

abbrev pub Bytes : Type 0
Bytes = List (List ℕ)

-- `Bytes::push`: an empty chunk is left out.
unfoldable pub push : Bytes → List ℕ → Bytes
push b [] = b
push b (x ∷ c) = b ++ ((x ∷ c) ∷ [])

-- `Extend::extend`
unfoldable pub extend : Bytes → Bytes → Bytes
unfolding push
extend b [] = b
extend b (c ∷ cs) = extend (push b c) cs

-- `Bytes::len`
unfoldable pub len : Bytes → ℕ
len [] = 0
len (c ∷ cs) = length c + len cs

-- `Bytes::is_empty`
unfoldable pub is_empty : Bytes → Bool
is_empty [] = true
is_empty (c ∷ cs) = false

-- `Chunk::view` of the bytes from `start` up to `end`
unfoldable pub chunk_view : ℕ → ℕ → List ℕ → Option (List ℕ)
chunk_view start end c =
    if leb start end && leb end (length c) then some (take (end - start) (drop start c)) else none

pub record BytesReader : Type 0 where
  pub inner : Bytes
  pub slice : ℕ
  pub byte : ℕ

unfoldable pub reader : Bytes → BytesReader
reader b = record { inner = b; slice = 0; byte = 0 }

-- `self.inner.chunks.get(self.cursor.slice)`
unfoldable pub current : BytesReader → Option (List ℕ)
current s = get_elem? s.inner s.slice

abbrev pub next_slice : BytesReader → BytesReader
next_slice s = record s { slice = s.slice + 1; byte = 0 }

-- Moves the byte cursor, and on to the next slice once all of the slice is consumed.
unfoldable pub move_by : ℕ → List ℕ → BytesReader → BytesReader
move_by n c s = if s.byte + n == length c then next_slice s else record s { byte = s.byte + n }

-- The loop of `read`. Every round but the last consumes a slice, so a round more than there are slices
-- is enough.
unfoldable pub copy_loop : ℕ → ℕ → BytesReader → List ℕ × BytesReader
unfolding current move_by
copy_loop zero room s = ([], s)
copy_loop (suc fuel) room s = elim (current s) [
  | none ↦ ([], s)
  | some c ↦
      let from = drop s.byte c in
      let n = min (length from) room in
      let s' = move_by n c s in
      let more = copy_loop fuel (room - n) s' in
      if room - n == 0 then (take n from, s') else (take n from ++ more.0, more.1)
]

abbrev pub rounds : BytesReader → ℕ
rounds s = length s.inner + 1

unfoldable pub read : ℕ → Op BytesReader (List ℕ)
unfolding copy_loop
read room s =
    let (bs, s') = copy_loop (rounds s) room s in (if length bs == 0 then none else some bs, s')

unfoldable pub read_exact : ℕ → Op BytesReader (List ℕ)
unfolding read
read_exact n s =
    let (r, s') = read n s in
    elim r [ none ↦ (none, s') | some bs ↦ (if length bs == n then some bs else none, s') ]

unfoldable pub read_u8 : Op BytesReader ℕ
unfolding current move_by
read_u8 s = elim (current s) [
  | none ↦ (none, s)
  | some c ↦ elim (get_elem? c s.byte) [ none ↦ (none, s) | some b ↦ (some b, move_by 1 c s) ]
]

unfoldable pub remaining : BytesReader → ℕ
unfolding len
remaining s = len (drop s.slice s.inner) - s.byte

-- The loop over `BytesSliceIterator`, whose `next` is the body. A cursor behind the last slice while
-- bytes remain would be undefined behaviour; here the loop ends.
unfoldable pub view_loop : ℕ → ℕ → BytesReader → List (List ℕ) × BytesReader
unfolding current chunk_view
view_loop zero n s = ([], s)
view_loop (suc fuel) n s =
    let rest : ℕ → BytesReader → Option (List ℕ) → List (List ℕ) × BytesReader = λ n' s' v.
      let more = view_loop fuel n' s' in
      elim v [ none ↦ ([], s') | some chunk ↦ (chunk ∷ more.0, more.1) ] in
    if n == 0 then ([], s) else elim (current s) [
      | none ↦ ([], s)
      | some c ↦
          let available = length c - s.byte in
          elim (compare n available) [
            | Ordering.lt ↦
                rest 0 (record s { byte = s.byte + n }) (chunk_view s.byte (s.byte + n) c)
            | Ordering.eq ↦ rest 0 (next_slice s) (chunk_view s.byte (s.byte + n) c)
            | Ordering.gt ↦
                rest (n - available) (next_slice s) (chunk_view s.byte (s.byte + available) c)
          ]
    ]

unfoldable pub read_chunks : ℕ → Op BytesReader (List (List ℕ))
unfolding remaining view_loop
read_chunks n s =
    if ltb (remaining s) n
    then (none, s)
    else let (cs, s') = view_loop (rounds s) n s in (some cs, s')

unfoldable pub read_chunk : ℕ → Op BytesReader (List ℕ)
unfolding current chunk_view read_exact
read_chunk n s = elim (current s) [
  | none ↦ (none, s)
  | some c ↦ elim (compare (length c - s.byte) n) [
    | Ordering.lt ↦ read_exact n s
    | Ordering.eq ↦ elim (chunk_view s.byte (length c) c) [
      | none ↦ (none, s)
      | some v ↦ (some v, next_slice s)
    ]
    | Ordering.gt ↦ (chunk_view s.byte (s.byte + n) c, record s { byte = s.byte + n })
  ]
]

unfoldable pub read_chunk_contiguous : ℕ → Op BytesReader (List ℕ)
unfolding current chunk_view
read_chunk_contiguous n s = elim (current s) [
  | none ↦ (none, s)
  | some c ↦ elim (compare (length c - s.byte) n) [
    | Ordering.lt ↦ (none, s)
    | Ordering.eq ↦ elim (chunk_view s.byte (length c) c) [
      | none ↦ (none, s)
      | some v ↦ (some v, next_slice s)
    ]
    | Ordering.gt ↦ elim (chunk_view s.byte (s.byte + n) c) [
      | none ↦ (none, s)
      | some v ↦ (some v, record s { byte = s.byte + n })
    ]
  ]
]

instance abbrev pub bytes_reader : Reader BytesReader
bytes_reader = record {
  read_exact = read_exact;
  read_u8 = read_u8;
  remaining = remaining;
  read_chunk = read_chunk;
  read_chunks = read_chunks;
  read_chunk_contiguous = read_chunk_contiguous;
}

-- The loop of `skip`
unfoldable pub skip_loop : ℕ → ℕ → Op BytesReader (Unit {0})
unfolding current move_by
skip_loop zero offset s = (none, s)
skip_loop (suc fuel) offset s = elim (current s) [
  | none ↦ (if offset == 0 then some tt else none, s)
  | some c ↦
      let n = min offset (length c - s.byte) in
      let more = skip_loop fuel (offset - n) (move_by n c s) in
      if offset == 0 then (some tt, s) else more
]

unfoldable pub skip : ℕ → Op BytesReader (Unit {0})
unfolding skip_loop
skip offset s = skip_loop (rounds s) offset s

-- `Bytes::view` of the bytes from `start` on
unfoldable pub view_from : ℕ → Bytes → Option Bytes
unfolding reader skip read_chunks len
view_from start b = ((skip start >> read_chunks (len b - start)) (reader b)).0
