-- ===== src/Pipeline/Rx/Fragment.antt =====
-- A fragment is decoded, and added to the buffer that waits for it.
use thubo.Prelude.{
  ℕ, ◌+◌, ◌-◌, ◌≤◌, ◌≡◌, ap, sym, ◌∙◌, List, [], ◌++◌, some, none, arith, length, drop, drop-append,
  length-append,
}
use thubo.Protocol.Qos.{Qos}
use thubo.Protocol.SeqNum
use thubo.Protocol.SeqNum.{SeqNum, IsSeqNum}
use thubo.Protocol.Message.{
  Message, FragmentKind, first, more, last, frame, fragment, new_frame, new_fragment, new_header,
  kind-new_fragment, fragment-id,
}
use thubo.Buffers.Interface.{joined}
use thubo.Buffers.Bytes
use thubo.Buffers.Bytes.{Bytes, BytesReader, reader, len, remaining, view_from, bytes_reader}
use thubo.Buffers.Bytes.Cursor.{NonEmpty, NonEmpty-IsCursor, remaining-eq-length, len-joined}
use thubo.Buffers.Bytes.Lawful.{bytes_lawful}
use thubo.Buffers.Bytes.View.{joined-view_from}
use thubo.Codec.Messages.{read_message}
use thubo.Codec.Messages.RoundTrip.{IsMessage, encode_message, read_message-encoding}
use thubo.Pipeline.Rx.{
  DefragBuffer, Defragmentation, stored, complete, get_buffer, set_buffer, extend, add_view,
  push_first, push_more, push_last, push_fragment, push_body, push, clear, sync, take,
}

-- The headers of a fragment.
abbrev pub fragment_message : Qos → FragmentKind → SeqNum → SeqNum → Message
fragment_message q k id seq = record {
  header = new_header q seq;
  body = fragment (new_fragment k id);
}

-- The headers of a new frame.
abbrev pub frame_message : Qos → SeqNum → Message
frame_message qos seq = record { header = new_header qos seq; body = frame new_frame }

-- A batch that has the headers of a fragment, and then the bytes `p`.
abbrev pub IsFragment : Qos → FragmentKind → SeqNum → SeqNum → Bytes → List ℕ → Type 0
IsFragment q k id seq b p =
    NonEmpty b × (joined b ≡ encode_message (fragment_message q k id seq) ++ p)

-- A buffer that waits for the fragment `seq` of the message `id`.
abbrev pub waiting : SeqNum → SeqNum → Bytes → DefragBuffer
waiting seq id bytes = record { seq_num = seq; frag_id = id; buffer = bytes }

pub fragment_message-IsMessage :
    (q : Qos) (k : FragmentKind) (id seq : SeqNum)
    → IsSeqNum id
    → IsSeqNum seq
    → IsMessage (fragment_message q k id seq)
unfolding new_fragment
fragment_message-IsMessage q k id seq hid hseq = (hseq, (fragment-id k id, hid))

pub push-message :
    (max : ℕ) (bytes : Bytes) (d : Defragmentation) (m : Message)
    → (read_message (reader bytes)).0 ≡ some m
    → push max bytes d ≡ push_body max bytes (read_message (reader bytes)).1 m.header m.body d
unfolding push
push-message max bytes d m e = ground (arith, e)

-- A fragment is decoded, and its payload viewed.
pub push-IsFragment :
    (max : ℕ) (q : Qos) (k : FragmentKind) (id seq : SeqNum) (b : Bytes) (p : List ℕ)
    (d : Defragmentation)
    → IsSeqNum id
    → IsSeqNum seq
    → IsFragment q k id seq b p
    → (start : ℕ) × (view : Bytes) × (view_from start b ≡ some view)
      × (joined view ≡ p)
      × (push max b d ≡ (
          let (step, buf) =
            push_fragment max start b (new_header q seq) (new_fragment k id) (get_buffer q d) in
          (step, set_buffer q buf d)))
unfolding push_body bytes_lawful reader
push-IsFragment max q k id seq b p d hid hseq (full, e) =
    let m = fragment_message q k id seq in
    let y =
      read_message-encoding bytes_lawful m (reader b) p
        (fragment_message-IsMessage q k id seq hid hseq) (NonEmpty-IsCursor b full) e in
    let r = (read_message (reader b)).1 in
    let start = len b - remaining r in
    let size : start ≡ length (encode_message m) = omega (
      arith,
      len-joined b,
      ap length e,
      length-append (encode_message m) p,
      remaining-eq-length r y.valid,
      ap length y.rest,
    ) in
    let (view, got, bytes) = joined-view_from start b full (omega (arith, len-joined b)) in
    (
      start,
      view,
      got,
      bytes ∙ ap (λ t. drop start t) e ∙ drop-append start (encode_message m) p (sym size),
      push-message max b d m y.result,
    )

-- An `extend` that is accepted.
extend-waiting :
    (max : ℕ) (id seq : SeqNum) (acc view : Bytes)
    → len acc + len view ≤ max
    → extend seq id view max (waiting seq id acc)
      ≡ (none, waiting (SeqNum.next seq) id (Bytes.extend acc view))
unfolding extend SeqNum.increment
extend-waiting max id seq acc view fits = ground arith

-- The three kinds of fragments, at a buffer that waits for them.
module _ (max start : ℕ) (q : Qos) (id seq : SeqNum) (b view : Bytes)
    (got : view_from start b ≡ some view) where
  pub push_first_lem :
      (buf : DefragBuffer)
      → len view ≤ max
      → push_fragment max start b (new_header q seq) (new_fragment first id) buf
        ≡ (stored, waiting (SeqNum.next seq) id (Bytes.extend [] view))
  unfolding push_fragment push_first add_view sync clear new_fragment
  push_first_lem buf fits =
      ground (arith, kind-new_fragment first id, got, extend-waiting max id seq [] view)

  pub push_more_lem :
      (acc : Bytes)
      → len acc + len view ≤ max
      → push_fragment max start b (new_header q seq) (new_fragment more id) (waiting seq id acc)
        ≡ (stored, waiting (SeqNum.next seq) id (Bytes.extend acc view))
  unfolding push_fragment push_more new_fragment
  push_more_lem acc fits =
      ground (arith, kind-new_fragment more id, got, extend-waiting max id seq acc view fits)

  pub push_last_lem :
      (acc : Bytes)
      → len acc + len view ≤ max
      → push_fragment max start b (new_header q seq) (new_fragment last id) (waiting seq id acc) ≡ (
        complete (record { bytes = Bytes.extend acc view; qos = q; slice = 0; byte = 0 }),
        waiting (SeqNum.next seq) id [],
      )
  unfolding push_fragment push_last add_view take new_fragment
  push_last_lem acc fits =
      ground (arith, kind-new_fragment last id, got, extend-waiting max id seq acc view fits)
