-- ===== src/Pipeline/Rx.antt =====
-- src/pipeline/rx.rs: batches that come in are decoded, and fragments are put together.
pub mod Slots
pub mod Fragment
pub mod Reassembly
pub mod Bounds
pub mod Out
pub mod In
use thubo.Prelude.{ℕ, ◌+◌, ◌-◌, List, [], ◌∷◌, Option, some, none, ltb, ◌==◌, not, if◌then◌else◌}
use thubo.Protocol.Priority
use thubo.Protocol.Priority.{Priority, PerPriority}
use thubo.Protocol.CongestionControl.{CongestionControl, block, drop}
use thubo.Protocol.Qos.{Qos, priority, congestion_control}
use thubo.Protocol.SeqNum
use thubo.Protocol.SeqNum.{SeqNum}
use thubo.Protocol.Message.{
  MessageHeader, MessageBody, FragmentHeader, FragmentKind, first, more, last, frame, fragment,
  kind, qos,
}
use thubo.Buffers.Bytes
use thubo.Buffers.Bytes.{Bytes, BytesReader, reader, len, remaining, view_from, bytes_reader}
use thubo.Buffers.Interface.{Reader}
use thubo.Codec.Messages.{read_message}

pub data SendError : Type 0 where
  decoding_failed invalid_seq_num invalid_frag_id capacity_limit channel_closed timeout
        internal_error :
      SendError

pub record DefragBuffer : Type 0 where
  pub seq_num : SeqNum
  pub frag_id : SeqNum
  pub buffer : Bytes

-- `DefragBuffer::new`
unfoldable pub new_defrag : DefragBuffer
unfolding SeqNum.new
new_defrag = record { seq_num = SeqNum.new 0; frag_id = SeqNum.new 0; buffer = [] }

unfoldable pub clear : DefragBuffer → DefragBuffer
clear b = record b { buffer = [] }

unfoldable pub sync : SeqNum → SeqNum → DefragBuffer → DefragBuffer
sync seq_num frag_id b = record b { seq_num = seq_num; frag_id = frag_id }

-- `none` is `Ok(())`.
unfoldable pub extend : SeqNum → SeqNum → Bytes → ℕ → DefragBuffer → Option SendError × DefragBuffer
unfolding len SeqNum.increment Bytes.extend
extend seq_num frag_id bytes capacity b =
    if not (seq_num == b.seq_num)
    then (some invalid_seq_num, b)
    else if not (frag_id == b.frag_id)
    then (some invalid_frag_id, b)
    else if ltb capacity (len b.buffer + len bytes)
    then (some capacity_limit, b)
    else (
      none,
      record b { seq_num = (SeqNum.increment b.seq_num).1; buffer = Bytes.extend b.buffer bytes },
    )

unfoldable pub take : DefragBuffer → Bytes × DefragBuffer
take b = (b.buffer, record b { buffer = [] })

pub record ReadBatch : Type 0 where
  pub bytes : Bytes
  pub qos : Qos
  -- `BytesPos`
  pub slice : ℕ
  pub byte : ℕ

-- What `push` has made of a batch before it turns to the ring buffer: it returns an error, or
-- `Ok(true)` with the fragment stored, or it goes on with a complete message. `undefined` is the
-- undefined behaviour of a fragment kind that is none.
pub data Step : Type 0 where
  failed : SendError → Step
  stored : Step
  complete : ReadBatch → Step
  undefined : Step

-- `struct Defragmentation`, and its buffer for a congestion control and a priority
pub record Defragmentation : Type 0 where
  pub block_bufs : PerPriority DefragBuffer
  pub drop_bufs : PerPriority DefragBuffer

unfoldable pub slot : CongestionControl → Defragmentation → PerPriority DefragBuffer
slot block d = d.block_bufs
slot drop d = d.drop_bufs

unfoldable pub get_buffer : Qos → Defragmentation → DefragBuffer
unfolding slot Priority.index
get_buffer q d = Priority.index (slot (congestion_control q) d) (priority q)

unfoldable pub set_at :
    CongestionControl → Priority → DefragBuffer → Defragmentation → Defragmentation
unfolding Priority.index_set
set_at block p b d = record d { block_bufs = Priority.index_set d.block_bufs p b }
set_at drop p b d = record d { drop_bufs = Priority.index_set d.drop_bufs p b }

unfoldable pub set_buffer : Qos → DefragBuffer → Defragmentation → Defragmentation
unfolding set_at
set_buffer q b d = set_at (congestion_control q) (priority q) b d

-- `extend` with the view of the payload, which starts at `start`.
unfoldable pub add_view :
    ℕ → ℕ → Bytes → MessageHeader → FragmentHeader → DefragBuffer → Option SendError × DefragBuffer
unfolding extend
add_view frag_max_size start bytes header f b = elim (view_from start bytes) [
  | none ↦ (some internal_error, b)
  | some view ↦ extend header.seq_num f.frag_id view frag_max_size b
]

-- The three arms of `match f.kind()`
unfoldable pub push_first :
    ℕ → ℕ → Bytes → MessageHeader → FragmentHeader → DefragBuffer → Step × DefragBuffer
unfolding add_view sync clear
push_first frag_max_size start bytes header f b =
    let (e, b') =
      add_view frag_max_size start bytes header f (sync header.seq_num f.frag_id (clear b)) in
    elim e [ some err ↦ (failed err, b') | none ↦ (stored, b') ]

-- Only an error of `extend` clears the buffer: `ok_or(InternalError)?` comes before it.
unfoldable pub push_more :
    ℕ → ℕ → Bytes → MessageHeader → FragmentHeader → DefragBuffer → Step × DefragBuffer
unfolding extend clear
push_more frag_max_size start bytes header f b = elim (view_from start bytes) [
  | none ↦ (failed internal_error, b)
  | some view ↦
      let (e, b') = extend header.seq_num f.frag_id view frag_max_size b in
      elim e [ some err ↦ (failed err, clear b') | none ↦ (stored, b') ]
]

unfoldable pub push_last :
    ℕ → ℕ → Bytes → MessageHeader → FragmentHeader → DefragBuffer → Step × DefragBuffer
unfolding add_view take
push_last frag_max_size start bytes header f b =
    let (e, b') = add_view frag_max_size start bytes header f b in
    let (whole, b'') = take b' in
    elim e [
      | some err ↦ (failed err, b')
      | none ↦ (complete (record { bytes = whole; qos = qos header; slice = 0; byte = 0 }), b'')
    ]

unfoldable pub push_fragment :
    ℕ → ℕ → Bytes → MessageHeader → FragmentHeader → DefragBuffer → Step × DefragBuffer
unfolding push_first push_more push_last
push_fragment frag_max_size start bytes header f b = elim (kind f) [
  | none ↦ (undefined, b)
  | some k ↦ elim k [
    | first ↦ push_first frag_max_size start bytes header f b
    | more ↦ push_more frag_max_size start bytes header f b
    | last ↦ push_last frag_max_size start bytes header f b
  ]
]

-- The `match` on the body of the message, with the reader behind the headers
unfoldable pub push_body :
    ℕ → Bytes → BytesReader → MessageHeader → MessageBody → Defragmentation → Step × Defragmentation
unfolding len remaining get_buffer set_buffer push_fragment
push_body frag_max_size bytes r header (frame f) d =
    (complete (record { bytes = bytes; qos = qos header; slice = r.slice; byte = r.byte }), d)
push_body frag_max_size bytes r header (fragment f) d =
    let start = len bytes - remaining r in
    let (step, b) = push_fragment frag_max_size start bytes header f (get_buffer (qos header) d) in
    (step, set_buffer (qos header) b d)

-- `PipelineRxIn::push`, up to the ring buffer
unfoldable pub push : ℕ → Bytes → Defragmentation → Step × Defragmentation
unfolding reader push_body
push frag_max_size bytes d =
    let (m, r) = read_message (reader bytes) in
    elim m [
      | none ↦ (failed decoding_failed, d)
      | some message ↦ push_body frag_max_size bytes r message.header message.body d
    ]

-- Batches that come in one after the other.
unfoldable pub push_all : ℕ → List Bytes → Defragmentation → List Step × Defragmentation
unfolding push
push_all frag_max_size [] d = ([], d)
push_all frag_max_size (bytes ∷ batches) d =
    let (step, d') = push frag_max_size bytes d in
    let (steps, d'') = push_all frag_max_size batches d' in (step ∷ steps, d'')
