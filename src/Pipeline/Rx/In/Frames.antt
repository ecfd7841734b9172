-- ===== src/Pipeline/Rx/In/Frames.antt =====
-- What comes in as a frame, or as fragments, is queued as messages.
use thubo.Prelude.{ℕ, ◌≡◌, refl, ap, sym, ◌∙◌, List, [], ◌∷◌, ◌++◌, append_assoc, append-nil}
use thubo.Protocol.Priority
use thubo.Protocol.Priority.{Priority, PerPriority}
use thubo.Protocol.Qos
use thubo.Protocol.Qos.{Qos}
use thubo.Protocol.SeqNum.{SeqNum, IsSeqNum}
use thubo.Buffers.Interface.{joined}
use thubo.Buffers.Bytes.{Bytes, reader, bytes_reader}
use thubo.Buffers.Bytes.Cursor.{NonEmpty, NonEmpty-IsCursor}
use thubo.Buffers.Bytes.Inner.{bytes_lawful_of}
use thubo.Buffers.Bytes.Lawful.{bytes_lawful}
use thubo.Codec.Messages.{read_message}
use thubo.Codec.Messages.RoundTrip.{IsMessage, encode_message, read_message-encoding}
use thubo.Pipeline.RingBuf.Fifo.{Queue}
use thubo.Pipeline.RingBuf.Fifo.First.{items_at}
use thubo.Pipeline.RingBuf.Views.{index_set-both}
use thubo.Pipeline.Rx
use thubo.Pipeline.Rx.{ReadBatch, Defragmentation, complete, push_body}
use thubo.Pipeline.Rx.Fragment.{frame_message, push-message}
use thubo.Pipeline.Rx.Out.{Shared}
use thubo.Pipeline.Rx.Out.Messages.{Holds, Holds-cursor, AllSmall, encode_all}
use thubo.Pipeline.Rx.Out.View.{Received, tagged, Carries, View}
use thubo.Pipeline.Rx.In.Delivered.{appended}

-- A batch that has the header of a frame, and messages behind it.
abbrev pub IsFrame : Qos → SeqNum → Bytes → List (List ℕ) → Type 0
IsFrame q seq b ms =
    NonEmpty b × (joined b ≡ encode_message (frame_message q seq) ++ encode_all ms) × AllSmall ms

pub frame_message-IsMessage :
    (q : Qos) (seq : SeqNum) → IsSeqNum seq → IsMessage (frame_message q seq)
frame_message-IsMessage q seq h = (h, refl)

-- A frame is a batch with its messages ahead.
pub push-IsFrame :
    (max : ℕ) (q : Qos) (seq : SeqNum) (bytes : Bytes) (ms : List (List ℕ)) (d : Defragmentation)
    → IsSeqNum seq
    → IsFrame q seq bytes ms
    → (b : ReadBatch) × (b.qos ≡ q) × Holds b ms × (Rx.push max bytes d ≡ (complete b, d))
unfolding push_body bytes_lawful bytes_lawful_of reader
push-IsFrame max q seq bytes ms d hseq (full, e, small) =
    let m = frame_message q seq in
    let y =
      read_message-encoding (bytes_lawful_of bytes) m (reader bytes) (encode_all ms)
        (frame_message-IsMessage q seq hseq) (NonEmpty-IsCursor bytes full, refl) e in
    let r = (read_message (reader bytes)).1 in
    let b : ReadBatch = record { bytes = bytes; qos = q; slice = r.slice; byte = r.byte } in
    (
      b,
      refl,
      Holds-cursor b r ms y.valid.0 y.valid.1 y.rest small,
      push-message max bytes d m y.result,
    )

Carries-append :
    (p : Priority) (bs : List ReadBatch) (out : List Received) (b : ReadBatch) (ms : List (List ℕ))
    → Carries p bs out
    → Qos.priority b.qos ≡ p
    → Holds b ms
    → Carries p (bs ++ (b ∷ [])) (out ++ tagged b.qos ms)
Carries-append p [] out b ms c own h =
    rw c (ms, [], sym (append-nil (tagged b.qos ms)), own, h, refl)
Carries-append p (b' ∷ bs) out b ms (ms', rest, e, own', h', c) own h = (
  ms',
  rest ++ tagged b.qos ms,
  ap (λ l. l ++ tagged b.qos ms) e ∙ append_assoc (tagged b'.qos ms') rest (tagged b.qos ms),
  own',
  h',
  Carries-append p bs rest b ms c own h,
)

-- Messages behind the others of their priority.
abbrev pub queued :
    Qos → List (List ℕ) → PerPriority (Queue Received) → PerPriority (Queue Received)
queued q ms vs =
    let p = Qos.priority q in
    let a = Priority.index vs p in
    Priority.index_set vs p (record a { items = a.items ++ tagged q ms })

pub appended-View :
    (s : Shared) (vs : PerPriority (Queue Received)) (b : ReadBatch) (ms : List (List ℕ))
    → View s vs
    → Holds b ms
    → View (appended b s) (queued b.qos ms vs)
appended-View s vs b ms v h = record {
  calm = v.calm;
  carries =
      let p = Qos.priority b.qos in
      index_set-both (λ q a c. Carries q a.items c.items) s.ring_buf vs p _ _
        (Carries-append p (items_at s.ring_buf p) (items_at vs p) b ms (v.carries p) refl h)
        (λ q ne. v.carries q);
}
