-- ===== src/Pipeline/Rx/Out/Messages.antt =====
-- The messages that a batch of the receiving side still holds, and that reading takes the first.
use thubo.Prelude.{
  ℕ, ◌<◌, ◌≡◌, refl, ap, sym, ◌∙◌, inl, inr, List, [], ◌∷◌, ◌++◌, some, none, length, drop, arith,
  length-append, length-drop,
}
use thubo.Buffers.Interface.{joined}
use thubo.Buffers.Bytes.{Bytes, BytesReader, bytes_reader}
use thubo.Buffers.Bytes.Cursor.{IsValid, Inside, rest, cursor-cases}
use thubo.Buffers.Bytes.Inner.{bytes_lawful_of}
use thubo.Buffers.Bytes.Lawful.{bytes_lawful}
use thubo.Buffers.Bytes.Seek.{BytesPos, reader_at, mark, seek-Inside, seek-behind}
use thubo.Codec.Values.{read_bytes}
use thubo.Codec.Values.RoundTrip.{encode_slice, read_bytes-encoding}
use thubo.Codec.Vle.Encoding.{IsU64, encoding, length-groups}
use thubo.Pipeline.Rx.{ReadBatch}
use thubo.Pipeline.Rx.Out.{read_at, read_next}

-- Messages, one encoded behind the other.
abbrev pub encode_all : List (List ℕ) → List ℕ
encode_all [] = []
encode_all (m ∷ ms) = encode_slice m ++ encode_all ms

abbrev pub AllSmall : List (List ℕ) → Type 0
AllSmall [] = Unit {0}
AllSmall (m ∷ ms) = IsU64 (length m) × AllSmall ms

abbrev pub pos_of : ReadBatch → BytesPos
pos_of b = record { slice = b.slice; byte = b.byte }

-- What stands behind the position of the batch are these messages.
pub record Holds (b : ReadBatch) (ms : List (List ℕ)) : Type 0 where
  pub valid : IsValid (reader_at b.bytes (pos_of b))
  pub ahead : rest (reader_at b.bytes (pos_of b)) ≡ encode_all ms
  pub small : AllSmall ms

-- A cursor in a chunk has a byte in front of it.
rest-Inside : (s : BytesReader) → Inside s → 0 < length (rest s)
rest-Inside s i = omega (
  arith,
  i.within,
  ap length i.rest-eq,
  length-append (drop s.byte i.chunk) (joined i.behind),
  length-drop s.byte i.chunk,
)

-- A batch of no more messages gives none.
pub read_next-nil : (b : ReadBatch) → Holds b [] → read_next b ≡ none
unfolding read_next read_at
read_next-nil b h = elim (cursor-cases (reader_at b.bytes (pos_of b)) h.valid) [
  | inl (n, e, f) ↦ rw (seek-behind b.bytes (pos_of b) n) refl
  | inr i ↦ absurd (omega (arith, rest-Inside (reader_at b.bytes (pos_of b)) i, ap length h.ahead))
]

-- The first message is read, and the others are what the batch then holds.
pub record TookMessage (b : ReadBatch) (m : List ℕ) (ms : List (List ℕ)) : Type 0 where
  pub bytes : Bytes
  pub next : ReadBatch
  pub result : read_next b ≡ some (bytes, next)
  pub message : joined bytes ≡ m
  pub same_qos : next.qos ≡ b.qos
  pub holds : Holds next ms

pub Holds-cursor :
    (b : ReadBatch) (r : BytesReader) (ms : List (List ℕ))
    → IsValid r
    → r.inner ≡ b.bytes
    → rest r ≡ encode_all ms
    → AllSmall ms
    → Holds (record b { slice = r.slice; byte = r.byte }) ms
Holds-cursor b r ms v e a small = record { valid = rw (← e) v; ahead = rw (← e) a; small = small }

length-encode_all-pos : (m : List ℕ) (ms : List (List ℕ)) → 0 < length (encode_all (m ∷ ms))
length-encode_all-pos m ms = omega (
  arith,
  (length-groups 8 (length m)).0,
  length-append (encoding (length m)) m,
  length-append (encode_slice m) (encode_all ms),
)

pub read_next-cons :
    (b : ReadBatch) (m : List ℕ) (ms : List (List ℕ)) → Holds b (m ∷ ms) → TookMessage b m ms
unfolding read_next read_at bytes_lawful bytes_lawful_of mark
read_next-cons b m ms h = elim (cursor-cases (reader_at b.bytes (pos_of b)) h.valid) [
  | inl (n, e, f) ↦ absurd (omega (arith, length-encode_all-pos m ms, ap length (sym f ∙ h.ahead)))
  | inr i ↦
      let s = reader_at b.bytes (pos_of b) in
      let (cs, j, y) =
        read_bytes-encoding (bytes_lawful_of b.bytes) m s (encode_all ms) h.small.0 (h.valid, refl)
          h.ahead in
      let r = (read_bytes s).1 in
      record {
        bytes = cs;
        next = record b { slice = r.slice; byte = r.byte };
        result = rw (seek-Inside b.bytes (pos_of b) i, y.result) refl;
        message = j;
        same_qos = refl;
        holds = Holds-cursor b r ms y.valid.0 y.valid.1 y.rest h.small.1;
      }
]
