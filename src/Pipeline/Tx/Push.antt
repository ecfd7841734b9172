-- ===== src/Pipeline/Tx/Push.antt =====
-- src/pipeline/tx.rs: `StageInPrio::push`, which puts a message into the booked batch, into a new frame,
-- or into fragments.
pub mod Steps
pub mod Pool
pub mod Rest
pub mod Whole
pub mod Stream
pub mod Framed
pub mod Frames
pub mod Added
pub mod Messages
use thubo.Prelude.{
  Op, ◌++◌, ℕ, zero, suc, ◌+◌, ◌-◌, ◌%◌, ◌^◌, min, List, [], ◌∷◌, Option, some, none, Bool, true,
  false, not, ◌==◌, leb, ltb, if◌then◌else◌,
}
use thubo.Protocol.CongestionControl
use thubo.Protocol.CongestionControl.{CongestionControl, cc_eq}
use thubo.Protocol.Qos
use thubo.Protocol.Qos.{Qos}
use thubo.Protocol.SeqNum
use thubo.Protocol.SeqNum.{SeqNum}
use thubo.Protocol.Message.{
  Message, FragmentKind, first, more, last, frame, fragment, new_header, new_frame, new_fragment,
}
use thubo.Buffers.BoxBuf.{BoxBuf, remaining, box_buf_writer}
use thubo.Buffers.Bytes
use thubo.Buffers.Bytes.{Bytes, BytesReader, reader}
use thubo.Codec.Values.{write_bytes}
use thubo.Codec.Messages.{write_message, w_len_message}
use thubo.Pipeline.Tx.{WriteBatch, update, len, is_empty}
use thubo.Pipeline.Tx.Encode.{encode_frame, encode_first, write_or_rewind}
use thubo.Pipeline.Tx.Stage.{
  SendError, encoding_failed, internal, SeqNumPool, StageInPrio, Run, ok, err, waiting, ◌>>=◌, ◌>>◌,
  pure, raise, modify, store, batch_or_return, move_batch,
}

-- `seq_num_gen`, and the pool after its `set`
unfoldable pub generator : CongestionControl → SeqNumPool → SeqNum
generator CongestionControl.drop pool = pool.best_effort
generator CongestionControl.block pool = pool.reliable

unfoldable pub set_generator : CongestionControl → SeqNum → SeqNumPool → SeqNumPool
set_generator CongestionControl.drop n pool = record pool { best_effort = n }
set_generator CongestionControl.block n pool = record pool { reliable = n }

abbrev pub set_seq : Qos → SeqNum → Run (Unit {0})
set_seq qos n =
    modify (λ s. record s { seq_num = set_generator (Qos.congestion_control qos) n s.seq_num })

abbrev pub next_seq : Qos → Run SeqNum
next_seq qos s = (ok (SeqNum.next (generator (Qos.congestion_control qos) s.seq_num)), s)

-- `express || flush()`
unfoldable pub to_move : Bool → Run Bool
to_move true s = (ok true, s)
to_move false s = (ok s.flush_flag, record s { flush_flag = false })

-- `return_notify!`
unfoldable pub return_notify : Qos → WriteBatch → Run Bool
unfolding to_move move_batch
return_notify qos b = do
  now ← to_move (Qos.express qos)
  let send : Run Bool = (do move_batch b; pure false)
  let keep : Run Bool = (do
    modify (λ s. record s { backoff = update (len b) s.backoff })
    pure true)
  if now then send else keep

-- The frame of a batch is written, and stays as it is left when the write fails.
unfoldable pub keep_frame : Option (Unit {0}) → WriteBatch → Run WriteBatch
keep_frame (some u) b = do store b; pure b
keep_frame none b = do store b; raise encoding_failed

unfoldable pub write_frame : Op BoxBuf (Unit {0}) → WriteBatch → Run WriteBatch
unfolding keep_frame
write_frame encode b = let (r, f) = encode b.frame in keep_frame r (record b { frame = f })

-- The next `n` bytes of the message become chunks of the batch.
unfoldable pub add_chunks :
    SendError → Option (List (List ℕ)) → BytesReader → WriteBatch → Run (WriteBatch × BytesReader)
add_chunks e (some chunks) r b =
    let b' = record b { fragment = Bytes.extend b.fragment chunks } in (do store b'; pure (b', r))
add_chunks e none r b = raise e

unfoldable pub take_chunks :
    SendError → ℕ → BytesReader → WriteBatch → Run (WriteBatch × BytesReader)
unfolding add_chunks
take_chunks e n r b = let (cs, r') = Bytes.read_chunks n r in add_chunks e cs r' b

abbrev pub fragment_headers : Qos → SeqNum → FragmentKind → SeqNum → Message
fragment_headers qos seq kind id = record {
  header = new_header qos seq;
  body = fragment (new_fragment kind id);
}

-- One more fragment: the last one if what remains fits. The subtraction of `usize` wraps.
unfoldable pub push_next : Qos → Option ℕ → SeqNum → SeqNum → BytesReader → Run BytesReader
unfolding write_frame take_chunks move_batch batch_or_return
push_next qos df id seq r = do
  b ← batch_or_return qos df
  let w_capacity =
      (remaining b.frame + 2 ^ 64 - w_len_message (fragment_headers qos seq more id)) % 2 ^ 64
  let r_capacity = Bytes.remaining r
  let kind = if leb r_capacity w_capacity then last else more
  b' ← write_frame (write_message (fragment_headers qos seq kind id)) b
  br ← take_chunks internal (min r_capacity w_capacity) r b'
  set_seq qos seq
  move_batch br.0
  pure br.1

-- The loop `while reader.can_read()`, for so many rounds at most.
unfoldable pub push_rest : ℕ → Qos → Option ℕ → SeqNum → SeqNum → BytesReader → Run Bool
unfolding push_next
push_rest zero qos df id seq r = λ s. (waiting, s)
push_rest (suc fuel) qos df id seq r =
    let more_rounds : Run Bool = (do
      r' ← push_next qos df id seq r
      seq' ← next_seq qos
      push_rest fuel qos df id seq' r') in
    if Bytes.remaining r == 0 then pure false else more_rounds

-- `AtomicBool::new(false)` in an `Arc`, and `frag_id.increment()`
unfoldable pub new_flag : Run ℕ
new_flag s = (ok s.flags, record s { flags = s.flags + 1 })

unfoldable pub new_id : Run SeqNum
unfolding SeqNum.increment
new_id s =
    let (id, pool) = SeqNum.increment s.seq_num.frag_id in
    (ok id, record s { seq_num = record s.seq_num { frag_id = pool } })

-- STEP 3: the message in fragments.
unfoldable pub push_fragments : Bytes → Qos → SeqNum → WriteBatch → Run Bool
unfolding write_frame take_chunks move_batch push_rest new_flag new_id
push_fragments msg qos seq b = do
  df ← new_flag
  let b1 = record b { drop_flag = some df }
  store b1
  id ← new_id
  b2 ← write_frame (encode_first (fragment_headers qos seq first id) (Bytes.len msg)) b1
  br ← take_chunks encoding_failed (remaining b2.frame) (reader msg) b2
  set_seq qos seq
  move_batch br.0
  seq' ← next_seq qos
  push_rest (suc (Bytes.len msg)) qos (some df) id seq' br.1

-- STEP 2: the message in a new frame, if there is room in the batch.
unfoldable pub push_frame : Bytes → Qos → WriteBatch → Run Bool
unfolding write_or_rewind return_notify push_fragments
push_frame msg qos b = do
  seq ← next_seq qos
  let m : Message = record { header = new_header qos seq; body = frame new_frame }
  let wb = write_or_rewind (encode_frame m msg) b
  store wb.1
  let done : Run Bool = (do set_seq qos seq; return_notify qos wb.1)
  let split = push_fragments msg qos seq wb.1
  if wb.0 then done else split

-- The booked batch is sent, and a new one taken.
abbrev pub fresh_frame : Bytes → Qos → WriteBatch → Run Bool
fresh_frame msg qos b = do move_batch b; b' ← batch_or_return qos none; push_frame msg qos b'

-- STEP 1: the message behind the others of the booked batch, if there is room in it.
unfoldable pub push_append : Bytes → Qos → WriteBatch → Run Bool
unfolding write_or_rewind return_notify move_batch batch_or_return push_frame
push_append msg qos b =
    let wb = write_or_rewind (write_bytes msg) b in
    let again = if wb.0 then return_notify qos wb.1 else fresh_frame msg qos wb.1 in
    let append : Run Bool = (do store wb.1; again) in
    if cc_eq (Qos.congestion_control b.qos) (Qos.congestion_control qos)
    then append
    else fresh_frame msg qos b

-- `StageInPrio::push`
unfoldable pub push : Bytes → Qos → Run Bool
unfolding batch_or_return push_append push_frame is_empty
push msg qos = do
  b ← batch_or_return qos none
  if is_empty b then push_frame msg qos b else push_append msg qos b

-- `StageInPrio::flush`
unfoldable pub flush : StageInPrio → Bool × StageInPrio
flush s = elim s.booked [
  | some b ↦ (true, record s { booked = none; sent = s.sent ++ (b ∷ []) })
  | none ↦ (false, s)
]
