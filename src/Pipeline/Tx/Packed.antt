-- ===== src/Pipeline/Tx/Packed.antt =====
-- src/pipeline/tx.rs: a batch that holds a frame with messages, and a write to it that may be taken back.
use thubo.Prelude.{
  ℕ, ◌+◌, ◌^◌, ◌≤◌, ◌<◌, ◌≡◌, ap, sym, ◌∙◌, List, [], ◌∷◌, ◌++◌, Bool, true, false, Op, length,
  take, drop, arith, length-append, length-take, length-drop, take-append_le, drop-append,
  drop-append_le, append_assoc, append-nil, take-append, take-append-drop,
}
use thubo.Protocol.SeqNum.{SeqNum, IsSeqNum}
use thubo.Buffers.Interface.{joined}
use thubo.Buffers.BoxBuf.{BoxBuf, as_slice, remaining, capacity, mark, rewind, box_buf_writer}
use thubo.Buffers.BoxBuf.Lawful.{IsValid, box_buf_lawful}
use thubo.Buffers.Bytes
use thubo.Buffers.Bytes.{Bytes}
use thubo.Codec.Outcome
use thubo.Codec.Values.RoundTrip.{encode_slice}
use thubo.Codec.Vle.Encoding.{IsU64}
use thubo.Codec.Messages.RoundTrip.{encode_message}
use thubo.Pipeline.Rx.Fragment.{frame_message}
use thubo.Pipeline.Rx.Out.Messages.{encode_all, AllSmall}
use thubo.Pipeline.Rx.In.Frames.{IsFrame}
use thubo.Pipeline.Tx.Ready.{IsReady}
use thubo.Pipeline.Tx.{WriteBatch, batch_len, len, is_empty}
use thubo.Pipeline.Tx.Encode.{write_or_rewind}
use thubo.Pipeline.Tx.Push.Steps.{IsFresh, payload}

-- The batch holds the header of a frame, and then these messages.
pub record Packed (b : WriteBatch) (ms : List (List ℕ)) : Type 0 where
  pub seq : SeqNum
  pub hseq : IsSeqNum seq
  pub valid : IsValid b.frame
  pub no_chunks : b.fragment ≡ []
  pub long : batch_len ≤ length (as_slice b.frame)
  pub size : length (as_slice b.frame) + remaining b.frame < batch_len + 2 ^ 16
  pub bytes :
      drop batch_len (as_slice b.frame) ≡ encode_message (frame_message b.qos seq) ++ encode_all ms
  pub small : AllSmall ms

pub length-as_slice : (f : BoxBuf) → IsValid f → length (as_slice f) ≡ f.len
unfolding as_slice
length-as_slice f v = omega (arith, length-take f.len f.buffer)

-- What `write_or_rewind` leaves, with the flag that it returns.
pub record Rewritten (b : WriteBatch) (bs : List ℕ) (done : Bool) (o : Bool × WriteBatch)
    : Type 0 where
  pub frame : BoxBuf
  pub result : o ≡ (done, record b { frame = frame })
  pub bytes : as_slice frame ≡ as_slice b.frame ++ bs
  pub space : remaining frame + length bs ≡ remaining b.frame
  pub valid : IsValid frame

module _ (encode : Op BoxBuf (Unit {0})) (b : WriteBatch) (bs : List ℕ) (v : IsValid b.frame)
    (w : Outcome.Writes box_buf_lawful b.frame bs (encode b.frame) tt) where
  pub write_or_rewind-fits :
      length bs ≤ remaining b.frame → Rewritten b bs true (write_or_rewind encode b)
  unfolding write_or_rewind box_buf_lawful
  write_or_rewind-fits h =
      let a = w.fits h in
      record {
        frame = (encode b.frame).1;
        result = ground (arith, a.result);
        bytes = a.bytes;
        space = a.space;
        valid = a.valid;
      }

  -- A write that fails is taken back, though it has left some bytes.
  pub write_or_rewind-full :
      remaining b.frame < length bs → Rewritten b [] false (write_or_rewind encode b)
  unfolding write_or_rewind box_buf_lawful mark rewind as_slice remaining capacity
  write_or_rewind-full h =
      let a = w.full h in
      let f = (encode b.frame).1 in
      let g : BoxBuf = record f { len = b.frame.len } in
      let before = length-as_slice b.frame v in
      let after = length-as_slice f a.valid in
      let size = length-append (as_slice b.frame) a.behind in
      let le : b.frame.len ≤ f.len = omega (arith, before, after, size, ap length a.bytes) in
      record {
        frame = g;
        result = ground (arith, a.result);
        bytes =
            ap (take b.frame.len) (sym (take-append-drop f.len f.buffer))
            ∙ take-append_le b.frame.len (take f.len f.buffer) (drop f.len f.buffer)
                (omega (arith, after, le))
            ∙ ap (take b.frame.len) a.bytes
            ∙ take-append b.frame.len (as_slice b.frame) a.behind before
            ∙ sym (append-nil (as_slice b.frame));
        space = omega (arith, a.space, a.valid, v, before, after, size, ap length a.bytes);
        valid = omega (arith, a.valid, le);
      }

-- One more message behind the others.
encode_all-append :
    (ms : List (List ℕ)) (m : List ℕ)
    → encode_all (ms ++ (m ∷ [])) ≡ encode_all ms ++ encode_slice m
encode_all-append [] m = append-nil (encode_slice m)
encode_all-append (x ∷ ms) m =
    ap (λ t. encode_slice x ++ t) (encode_all-append ms m)
    ∙ sym (append_assoc (encode_slice x) (encode_all ms) (encode_slice m))

AllSmall-append :
    (ms : List (List ℕ)) (m : List ℕ) → AllSmall ms → IsU64 (length m) → AllSmall (ms ++ (m ∷ []))
AllSmall-append [] m h u = (u, tt)
AllSmall-append (x ∷ ms) m h u = (h.0, AllSmall-append ms m h.1 u)

pub Packed-IsReady : (b : WriteBatch) (ms : List (List ℕ)) → Packed b ms → IsReady b
Packed-IsReady b ms k =
    let d = length-drop batch_len (as_slice b.frame) in
    let headers = encode_message (frame_message b.qos k.seq) in
    let none_behind : length (joined b.fragment) ≡ 0 = ap (λ c. length (joined c)) k.no_chunks in
    record {
      valid = k.valid;
      long = k.long;
      some_bytes = omega (arith, ap length k.bytes, length-append headers (encode_all ms));
      small = omega (arith, d, k.long, k.size, none_behind);
    }

pub Packed-append :
    (b : WriteBatch) (ms : List (List ℕ)) (m : List ℕ) (o : Bool × WriteBatch)
    → Packed b ms
    → IsU64 (length m)
    → (r : Rewritten b (encode_slice m) true o)
    → Packed (record b { frame = r.frame }) (ms ++ (m ∷ []))
Packed-append b ms m o k u r =
    let n = length-append (as_slice b.frame) (encode_slice m) in
    record {
      seq = k.seq;
      hseq = k.hseq;
      valid = r.valid;
      no_chunks = k.no_chunks;
      long = omega (arith, k.long, n, ap length r.bytes);
      size = omega (arith, k.size, r.space, n, ap length r.bytes);
      bytes =
          ap (drop batch_len) r.bytes
          ∙ drop-append_le batch_len (as_slice b.frame) (encode_slice m) k.long
          ∙ ap (λ t. t ++ encode_slice m) k.bytes
          ∙ append_assoc (encode_message (frame_message b.qos k.seq)) (encode_all ms)
              (encode_slice m)
          ∙ ap (λ t. encode_message (frame_message b.qos k.seq) ++ t)
              (sym (encode_all-append ms m));
      small = AllSmall-append ms m k.small u;
    }

-- A write that was taken back changes nothing that counts.
pub Packed-same :
    (b : WriteBatch) (ms : List (List ℕ)) (o : Bool × WriteBatch)
    → Packed b ms
    → (r : Rewritten b [] false o) → Packed (record b { frame = r.frame }) ms
Packed-same b ms o k r =
    let same = r.bytes ∙ append-nil (as_slice b.frame) in
    record {
      seq = k.seq;
      hseq = k.hseq;
      valid = r.valid;
      no_chunks = k.no_chunks;
      long = omega (arith, k.long, ap length same);
      size = omega (arith, k.size, r.space, ap length same);
      bytes = ap (drop batch_len) same ∙ k.bytes;
      small = k.small;
    }

pub IsFresh-same :
    (b : WriteBatch) (o : Bool × WriteBatch)
    → IsFresh b
    → (r : Rewritten b [] false o) → IsFresh (record b { frame = r.frame })
IsFresh-same b o k r =
    let same = r.bytes ∙ append-nil (as_slice b.frame) in
    record {
      valid = r.valid;
      no_bytes = ap length same ∙ k.no_bytes;
      no_chunks = k.no_chunks;
      room = omega (arith, k.room, r.space);
      fits = omega (arith, k.fits, r.space);
    }

-- A fresh batch with the header of a frame and a message.
pub IsFresh-Packed :
    (b : WriteBatch) (seq : SeqNum) (m : List ℕ) (o : Bool × WriteBatch)
    → IsFresh b
    → IsSeqNum seq
    → IsU64 (length m)
    → (r : Rewritten b (encode_message (frame_message b.qos seq) ++ encode_slice m) true o)
    → Packed (record b { frame = r.frame }) (m ∷ [])
IsFresh-Packed b seq m o k hseq u r =
    let header = encode_message (frame_message b.qos seq) in
    let n = length-append (as_slice b.frame) (header ++ encode_slice m) in
    record {
      seq = seq;
      hseq = hseq;
      valid = r.valid;
      no_chunks = k.no_chunks;
      long = omega (arith, k.no_bytes, n, ap length r.bytes);
      size = omega (arith, k.no_bytes, k.fits, r.space, n, ap length r.bytes);
      bytes =
          ap (drop batch_len) r.bytes
          ∙ drop-append batch_len (as_slice b.frame) (header ++ encode_slice m) k.no_bytes
          ∙ ap (λ t. header ++ t) (sym (append-nil (encode_slice m)));
      small = (u, tt);
    }

-- What goes over the wire is a frame with the messages.
pub payload-IsFrame :
    (b : WriteBatch) (ms : List (List ℕ)) (k : Packed b ms) → IsFrame b.qos k.seq (payload b) ms
payload-IsFrame b ms k =
    let e : joined (payload b) ≡ encode_message (frame_message b.qos k.seq) ++ encode_all ms =
      append-nil (drop batch_len (as_slice b.frame) ++ joined b.fragment)
      ∙ ap (λ c. drop batch_len (as_slice b.frame) ++ joined c) k.no_chunks
      ∙ append-nil (drop batch_len (as_slice b.frame))
      ∙ k.bytes in
    (
      (
        omega (
          arith,
          ap length k.bytes,
          length-append (drop batch_len (as_slice b.frame)) (joined b.fragment),
        ),
        tt,
      ),
      e,
      k.small,
    )

-- A batch with a frame is not empty.
pub is_empty-Packed : (b : WriteBatch) (ms : List (List ℕ)) → Packed b ms → is_empty b ≡ false
unfolding is_empty len Bytes.len
is_empty-Packed b ms k =
    let no_chunks : Bytes.len b.fragment ≡ 0 = ap Bytes.len k.no_chunks in
    let size : b.frame.len ≡ length (as_slice b.frame) = sym (length-as_slice b.frame k.valid) in
    let pos : 0 < length (drop batch_len (as_slice b.frame)) = omega (arith, ap length k.bytes) in
    let n : 0 < len b =
      omega (arith, no_chunks, size, pos, k.size, length-drop batch_len (as_slice b.frame)) in
    ground (arith, n)
