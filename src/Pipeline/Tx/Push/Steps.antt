-- ===== src/Pipeline/Tx/Push/Steps.antt =====
-- One fragment of a message, when there is a free batch.
use thubo.Prelude.{
  ℕ, ◌+◌, ◌-◌, ◌%◌, ◌^◌, ◌≤◌, ◌<◌, ◌≡◌, refl, ap, ap₂, sym, ◌∙◌, min, List, [], ◌∷◌, ◌++◌, Option,
  some, none, Bool, true, arith, ◌⊎◌, Op, length, drop, leb, if◌then◌else◌, drop-append, append-nil,
}
use thubo.Protocol.Qos
use thubo.Protocol.Qos.{Qos}
use thubo.Protocol.SeqNum.{SeqNum, IsSeqNum}
use thubo.Protocol.Message.{FragmentKind, more, last, new_fragment}
use thubo.Buffers.Interface.{joined}
use thubo.Buffers.BoxBuf.{BoxBuf, as_slice, remaining, box_buf_writer}
use thubo.Buffers.BoxBuf.Lawful.{IsValid, box_buf_lawful}
use thubo.Buffers.Bytes
use thubo.Buffers.Bytes.{Bytes, BytesReader, bytes_reader}
use thubo.Buffers.Bytes.Cursor
use thubo.Buffers.Bytes.Cursor.{rest, remaining-eq-length}
use thubo.Buffers.Bytes.View.{joined-extend}
use thubo.Codec.Vle.{vle_len}
use thubo.Codec.Values.{w_len_seq_num}
use thubo.Codec.Messages.{write_message, w_len_message}
use thubo.Codec.Messages.RoundTrip.{encode_message, write_message-Writes, w_len_message-eq-length}
use thubo.Pipeline.Rx.Fragment.{IsFragment, fragment_message, fragment_message-IsMessage}
use thubo.Pipeline.Tx.{WriteBatch, AtomicBackoff, batch_len}
use thubo.Pipeline.Tx.Ready.{IsReady, IsReady-written}
use thubo.Pipeline.Tx.Stage.{
  StageInPrio, SeqNumPool, Round, free, Run, Outcome, ok, err, waiting, SendError, internal, ◌>>=◌,
  ◌>>◌, pure, batch_or_return, acquire, move_batch, notify,
}
use thubo.Pipeline.Tx.Push.{
  set_generator, set_seq, write_frame, keep_frame, take_chunks, add_chunks, push_next,
  fragment_headers,
}

-- A batch as `alloc` and `refill` hand it over, with some room.
pub record IsFresh (b : WriteBatch) : Type 0 where
  pub valid : IsValid b.frame
  pub no_bytes : length (as_slice b.frame) ≡ batch_len
  pub no_chunks : b.fragment ≡ []
  pub room : 30 ≤ remaining b.frame
  pub fits : remaining b.frame < 2 ^ 16

-- The bytes of a batch behind its length.
abbrev pub payload : WriteBatch → Bytes
payload b = (drop batch_len (as_slice b.frame) ++ joined b.fragment) ∷ []

-- A stage with no batch booked, all of whose notifications find a receiver.
abbrev pub at_rest :
    SeqNumPool → List WriteBatch → AtomicBackoff → List Round → Bool → List ℕ → ℕ → StageInPrio
at_rest pool sent back rounds flush cg fs = record {
  seq_num = pool;
  booked = none;
  sent = sent;
  backoff = back;
  rounds = rounds;
  receivers = [];
  flush_flag = flush;
  congested = cg;
  flags = fs;
}

pub >>=-ok :
    {A B : Type 0} (m : Run A) (f : A → Run B) (s : StageInPrio) (a : A) (s' : StageInPrio)
    → m s ≡ (ok a, s')
    → (m >>= f) s ≡ f a s'
>>=-ok {A = A} {B = B} m f s a s' e = ap after e
  where
    after : Outcome A × StageInPrio → Outcome B × StageInPrio
    after o = elim o.0 [ ok x ↦ f x o.1 | err x ↦ (err x, o.1) | waiting ↦ (waiting, o.1) ]

pub write_frame-ok :
    (encode : Op BoxBuf (Unit {0})) (b : WriteBatch) (s : StageInPrio)
    → (encode b.frame).0 ≡ some tt
    → write_frame encode b s ≡ (
      ok (record b { frame = (encode b.frame).1 }),
      record s { booked = some (record b { frame = (encode b.frame).1 }) },
    )
unfolding write_frame keep_frame
write_frame-ok encode b s e = rw e refl

pub take_chunks-ok :
    (x : SendError) (n : ℕ) (r : BytesReader) (b : WriteBatch) (s : StageInPrio) (cs : Bytes)
    → (Bytes.read_chunks n r).0 ≡ some cs
    → let b' = record b { fragment = Bytes.extend b.fragment cs } in
      take_chunks x n r b s ≡ (ok (b', (Bytes.read_chunks n r).1), record s { booked = some b' })
unfolding take_chunks add_chunks
take_chunks-ok x n r b s cs e = rw e refl

pub vle_len-le : (x : ℕ) → vle_len x ≤ 9
unfolding vle_len
vle_len-le x = ground arith

-- What one fragment does: the state is at rest again, with one batch more that was sent.
pub record Next (qos : Qos) (id seq : SeqNum) (r r' : BytesReader) (f : WriteBatch) : Type 0 where
  pub valid : Cursor.IsValid r'
  pub content :
      (IsFragment qos last id seq (payload f) (rest r) × (rest r' ≡ []))
      ⊎ ((p : List ℕ) × IsFragment qos more id seq (payload f) p
          × (rest r ≡ p ++ rest r')
          × (0 < length p)
          × (0 < length (rest r')))
  pub ready : IsReady f

module _ (qos : Qos) (df : Option ℕ) (id seq : SeqNum) (hid : IsSeqNum id) (hseq : IsSeqNum seq)
    (r : BytesReader) (v : Cursor.IsValid r) (b : WriteBatch) (fresh : IsFresh b) where
  abbrev pub w_len : ℕ
  w_len = w_len_message (fragment_headers qos seq more id)

  pub w_len-le : w_len ≤ 20
  unfolding w_len_message w_len_seq_num vle_len new_fragment
  w_len-le = omega (arith, vle_len-le seq, vle_len-le id)

  abbrev pub space : ℕ
  space = (remaining b.frame + 2 ^ 64 - w_len) % 2 ^ 64

  pub space-eq : space ≡ remaining b.frame - w_len
  space-eq = omega (arith, w_len-le, fresh.room, fresh.fits)

  -- The batch with the headers of a kind and some chunks.
  abbrev pub filled : FragmentKind → Bytes → WriteBatch
  filled k cs = record b {
    qos = qos;
    drop_flag = df;
    frame = (write_message (fragment_headers qos seq k id) b.frame).1;
    fragment = Bytes.extend b.fragment cs;
  }

  same_len : (k : FragmentKind) → w_len_message (fragment_headers qos seq k id) ≡ w_len
  unfolding w_len_message new_fragment
  same_len k = refl

  headers_written :
      (k : FragmentKind)
      → ((write_message (fragment_headers qos seq k id) b.frame).0 ≡ some tt)
        × (as_slice (write_message (fragment_headers qos seq k id) b.frame).1
            ≡ as_slice b.frame ++ encode_message (fragment_message qos k id seq))
        × IsValid (write_message (fragment_headers qos seq k id) b.frame).1
  unfolding box_buf_lawful
  headers_written k =
      let msg = fragment_message-IsMessage qos k id seq hid hseq in
      let size : length (encode_message (fragment_message qos k id seq)) ≤ remaining b.frame =
        omega (
          arith,
          w_len-le,
          same_len k,
          w_len_message-eq-length (fragment_message qos k id seq) msg,
          fresh.room,
        ) in
      let w =
        (write_message-Writes box_buf_lawful (fragment_message qos k id seq) b.frame msg
            fresh.valid).fits
          size in
      (w.result, w.bytes, w.valid)

  -- The batch carries the next bytes of the message behind the headers.
  pub filled-IsFragment :
      (k : FragmentKind) (cs : Bytes) (p : List ℕ)
      → joined cs ≡ p
      → IsFragment qos k id seq (payload (filled k cs)) p
  filled-IsFragment k cs p e =
      let front : drop batch_len (as_slice (filled k cs).frame)
          ≡ encode_message (fragment_message qos k id seq) =
        ap (drop batch_len) (headers_written k).1
        ∙ drop-append batch_len (as_slice b.frame) _ fresh.no_bytes in
      let back : joined (filled k cs).fragment ≡ p =
        joined-extend b.fragment cs ∙ ap (λ c. joined c ++ joined cs) fresh.no_chunks ∙ e in
      let all = ap₂ (λ x y. x ++ y) front back in ((rw all (omega arith), tt), append-nil _ ∙ all)

  -- It fits the two bytes of its length.
  pub filled-IsReady :
      (k : FragmentKind) (cs : Bytes) → length (joined cs) ≤ space → IsReady (filled k cs)
  filled-IsReady k cs h =
      let (result, bytes, valid) = headers_written k in
      let headers = encode_message (fragment_message qos k id seq) in
      let chunks : length (joined (filled k cs).fragment) ≡ length (joined cs) =
        ap length (joined-extend b.fragment cs ∙ ap (λ c. joined c ++ joined cs) fresh.no_chunks) in
      let size : w_len ≡ length headers =
        sym (same_len k)
        ∙ w_len_message-eq-length (fragment_message qos k id seq)
            (fragment_message-IsMessage qos k id seq hid hseq) in
      IsReady-written b (filled k cs) headers fresh.no_bytes valid bytes (omega arith)
        (omega (arith, size, chunks, space-eq, w_len-le, fresh.room, fresh.fits))

  -- The call of `push_next`, when what it takes from the message is known.
  pub push_next-eq :
      (k : FragmentKind) (n : ℕ) (cs : Bytes) (now : ℕ) (pool : SeqNumPool) (sent : List WriteBatch)
      (back : AtomicBackoff) (rs : List Round) (flush : Bool) (cg : List ℕ) (fs : ℕ)
      → (if leb (Bytes.remaining r) space then last else more) ≡ k
      → min (Bytes.remaining r) space ≡ n
      → (Bytes.read_chunks n r).0 ≡ some cs
      → push_next qos df id seq r (at_rest pool sent back (free b now true ∷ rs) flush cg fs) ≡ (
        ok (Bytes.read_chunks n r).1,
        at_rest
            (set_generator (Qos.congestion_control qos) seq pool)
            (sent ++ (filled k cs ∷ []))
            0
            rs
            flush
            cg
            fs,
      )
  unfolding push_next batch_or_return acquire move_batch notify
  push_next-eq k n cs now pool sent back rs flush cg fs ek en ec =
      let b' = record b { qos = qos; drop_flag = df } in
      let finish : WriteBatch × BytesReader → Run BytesReader =
        λ br. set_seq qos seq >> (move_batch br.0 >> pure br.1) in
      rw (ek, en)
        (>>=-ok (write_frame (write_message (fragment_headers qos seq k id)) b')
            (λ b2. take_chunks internal n r b2 >>= finish) _ _ _
            (write_frame-ok (write_message (fragment_headers qos seq k id)) b' _
              ((headers_written k).0))
          ∙ >>=-ok (take_chunks internal n r _) finish _ _ _
              (take_chunks-ok internal n r _ _ cs ec))
