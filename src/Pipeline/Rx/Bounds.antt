-- ===== src/Pipeline/Rx/Bounds.antt =====
-- A fragment touches only the buffer of its QoS, and no buffer outgrows the limit.
use thubo.Prelude.{
  ℕ, ◌+◌, ◌-◌, ◌≤◌, ◌≡◌, ◌≢◌, refl, ap, ◌∙◌, ◌⊎◌, inl, inr, some, Option-cases, arith, length,
  length-append,
}
use thubo.Protocol.Qos.{Qos, priority, congestion_control}
use thubo.Protocol.SeqNum.{SeqNum}
use thubo.Protocol.Message.{
  Message, MessageHeader, MessageBody, FragmentHeader, frame, fragment, first, more, last, qos,
  kind,
}
use thubo.Buffers.Interface.{joined}
use thubo.Buffers.Bytes
use thubo.Buffers.Bytes.{Bytes, BytesReader, reader, len, remaining, view_from, bytes_reader}
use thubo.Buffers.Bytes.Cursor.{len-joined}
use thubo.Buffers.Bytes.View.{joined-extend}
use thubo.Codec.Messages.{read_message}
use thubo.Pipeline.Rx.{
  DefragBuffer, Defragmentation, get_buffer, extend, add_view, push_first, push_more, push_last,
  push_fragment, push_body, push, clear, sync, take,
}
use thubo.Pipeline.Rx.Slots.{get_buffer_other, set_buffer-cases}
use thubo.Pipeline.Rx.Fragment.{push-message}

-- For a batch whose headers are decoded, and a QoS with another priority or another congestion control:
-- `push` leaves the reassembly buffer of that QoS as it is.
pub push-get_buffer :
    (max : ℕ) (bytes : Bytes) (d : Defragmentation) (m : Message) (r : Qos)
    → (read_message (reader bytes)).0 ≡ some m
    → (priority (qos m.header) ≢ priority r)
      ⊎ (congestion_control (qos m.header) ≢ congestion_control r)
    → get_buffer r (push max bytes d).1 ≡ get_buffer r d
unfolding push_body
push-get_buffer max bytes d m r e other =
    ap (λ t. get_buffer r t.1) (push-message max bytes d m e) ∙ body m.body
  where
    body :
        (b : MessageBody)
        → get_buffer r (push_body max bytes (read_message (reader bytes)).1 m.header b d).1
          ≡ get_buffer r d
    body (frame f) = refl
    body (fragment f) = get_buffer_other (qos m.header) r _ d other

-- A buffer within the limit.
abbrev pub Within : ℕ → DefragBuffer → Type 0
Within max b = len b.buffer ≤ max

abbrev pub IsBounded : ℕ → Defragmentation → Type 0
IsBounded max d = (r : Qos) → Within max (get_buffer r d)

len-extend : (b cs : Bytes) → len (Bytes.extend b cs) ≡ len b + len cs
len-extend b cs = omega (
  arith,
  len-joined b,
  len-joined cs,
  len-joined (Bytes.extend b cs),
  ap length (joined-extend b cs),
  length-append (joined b) (joined cs),
)

extend-Within :
    (max : ℕ) (seq id : SeqNum) (view : Bytes) (b : DefragBuffer)
    → Within max b
    → Within max (extend seq id view max b).1
unfolding extend
extend-Within max seq id view b h = ground (arith, len-extend b.buffer view)

add_view-Within :
    (max start : ℕ) (bytes : Bytes) (h : MessageHeader) (f : FragmentHeader) (b : DefragBuffer)
    → Within max b
    → Within max (add_view max start bytes h f b).1
unfolding add_view
add_view-Within max start bytes h f b k = elim (Option-cases (view_from start bytes)) [
  | inl e ↦ rw (e, add_view) k
  | inr (view, e) ↦ rw (e, add_view) (extend-Within max h.seq_num f.frag_id view b k)
]

-- The three kinds of fragments.
module _ (max start : ℕ) (bytes : Bytes) (h : MessageHeader) (f : FragmentHeader)
    (b : DefragBuffer) where
  push_first-Within : Within max (push_first max start bytes h f b).1
  unfolding push_first
  push_first-Within =
      let b' = sync h.seq_num f.frag_id (clear b) in
      let k = add_view-Within max start bytes h f b' empty in
      elim (Option-cases (add_view max start bytes h f b').0) [
        | inl e ↦ rw (e, push_first) k
        | inr (_, e) ↦ rw (e, push_first) k
      ]
    where
      empty : Within max (sync h.seq_num f.frag_id (clear b))
      empty = unfold sync clear len in omega arith

  push_more-Within : Within max b → Within max (push_more max start bytes h f b).1
  unfolding push_more clear len
  push_more-Within k = elim (Option-cases (view_from start bytes)) [
    | inl e ↦ rw (e, push_more) k
    | inr (view, e) ↦
        let w = extend-Within max h.seq_num f.frag_id view b k in
        elim (Option-cases (extend h.seq_num f.frag_id view max b).0) [
          | inl e' ↦ rw (e, e', push_more) w
          | inr (_, e') ↦ rw (e, e', push_more) (omega arith)
        ]
  ]

  push_last-Within : Within max b → Within max (push_last max start bytes h f b).1
  unfolding push_last take len
  push_last-Within k =
      let w = add_view-Within max start bytes h f b k in
      elim (Option-cases (add_view max start bytes h f b).0) [
        | inl e ↦ rw (e, push_last) (omega arith)
        | inr (_, e) ↦ rw (e, push_last) w
      ]

  push_fragment-Within : Within max b → Within max (push_fragment max start bytes h f b).1
  unfolding push_fragment
  push_fragment-Within k = elim (Option-cases (kind f)) [
    | inl e ↦ rw (e, push_fragment) k
    | inr (first, e) ↦ rw (e, push_fragment) push_first-Within
    | inr (more, e) ↦ rw (e, push_fragment) (push_more-Within k)
    | inr (last, e) ↦ rw (e, push_fragment) (push_last-Within k)
  ]

push_body-IsBounded :
    (max : ℕ) (bytes : Bytes) (r : BytesReader) (h : MessageHeader) (b : MessageBody)
    (d : Defragmentation)
    → IsBounded max d
    → IsBounded max (push_body max bytes r h b d).1
unfolding push_body
push_body-IsBounded max bytes r h (frame f) d k q = k q
push_body-IsBounded max bytes r h (fragment f) d k q =
    let start = len bytes - remaining r in
    let buf = (push_fragment max start bytes h f (get_buffer (qos h) d)).1 in
    let w = push_fragment-Within max start bytes h f (get_buffer (qos h) d) (k (qos h)) in
    elim (set_buffer-cases (qos h) q buf d) [ inl e ↦ rw e w | inr e ↦ rw e (k q) ]

-- For reassembly buffers that are all within the limit: after `push` of any batch, well-formed or not,
-- all are within the limit again.
pub push-IsBounded :
    (max : ℕ) (bytes : Bytes) (d : Defragmentation)
    → IsBounded max d
    → IsBounded max (push max bytes d).1
unfolding push
push-IsBounded max bytes d k q = elim (Option-cases (read_message (reader bytes)).0) [
  | inl e ↦ rw (e, push) (k q)
  | inr (m, e) ↦
      rw (e, push)
        (push_body-IsBounded max bytes (read_message (reader bytes)).1 m.header m.body d k q)
]
