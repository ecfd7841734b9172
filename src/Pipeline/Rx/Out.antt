-- ===== src/Pipeline/Rx/Out.antt =====
-- src/pipeline/rx.rs: PipelineRxOut, from which the application pulls messages.
pub mod Messages
pub mod View
pub mod Pulls
pub mod Meanwhile
pub mod Congested
use thubo.Prelude.{
  ℕ, zero, suc, ◌+◌, List, [], ◌∷◌, ◌++◌, Option, some, none, Op, Bool, true, false, ◌&&◌,
  if◌then◌else◌,
}
use thubo.Protocol.CongestionControl.{is_drop}
use thubo.Protocol.Priority
use thubo.Protocol.Priority.{Priority, PerPriority}
use thubo.Protocol.Qos
use thubo.Protocol.Qos.{Qos}
use thubo.Buffers.Bytes.{Bytes, BytesReader, reader, bytes_reader}
use thubo.Buffers.Bytes.Seek.{BytesPos, mark, seek}
use thubo.Codec.Values.{read_bytes}
use thubo.Pipeline.Status
use thubo.Pipeline.Status.{Status}
use thubo.Pipeline.RingBuf.Fifo
use thubo.Pipeline.RingBuf.Fifo.{Queue}
use thubo.Pipeline.Rx.{ReadBatch}

-- What the two ends of the receiving pipeline share: the ring buffer, as the queues that it promises, of
-- `capacity` slots, the status, the notifications of free slots, the last one first, and whether the end
-- that pulls is still there to be notified.
pub record Shared : Type 0 where
  pub capacity : ℕ
  pub ring_buf : PerPriority (Queue ReadBatch)
  pub status : Status
  pub can_send : List Priority
  pub receiver : Bool

-- The next message of a batch, and the batch with its position behind it.
unfoldable pub read_at : ReadBatch → Bool × BytesReader → Option (Bytes × ReadBatch)
unfolding mark
read_at batch (false, r) = none
read_at batch (true, r) =
    let (t, r') = read_bytes r in
    let pos = mark r' in
    elim t [ none ↦ none | some m ↦ some (m, record batch { slice = pos.slice; byte = pos.byte }) ]

unfoldable pub read_next : ReadBatch → Option (Bytes × ReadBatch)
unfolding read_at seek reader
read_next batch =
    read_at batch (seek (record { slice = batch.slice; byte = batch.byte }) (reader batch.bytes))

-- The congested flag of its priority is taken back, and a batch that may be dropped is given up for it.
unfoldable pub look : ReadBatch → Status → Option (Bytes × ReadBatch) × Status
unfolding read_next
look batch status =
    let cf = Status.congested (Qos.priority batch.qos) in
    let (old, status') = Status.unset cf status in
    let m = read_next batch in
    (if Status.any old cf && is_drop (Qos.congestion_control batch.qos) then none else m, status')

-- Batches that the other end pushes; one for which there is no room stays with it.
unfoldable pub arrive :
    ℕ → List ReadBatch → PerPriority (Queue ReadBatch) → PerPriority (Queue ReadBatch)
arrive c [] qs = qs
arrive c (b ∷ bs) qs =
    let p = Qos.priority b.qos in
    arrive c bs (Priority.index_set qs p (Fifo.push c b (Priority.index qs p)).1)

-- `ring_buf.pull()`, which looks for the first priority anew, and the notification. `arrivals` are the
-- batches that have come in since `peek_mut`.
unfoldable pub discard : List ReadBatch → Priority → Shared → Shared
unfolding arrive
discard arrivals p s = record s {
  ring_buf = (Fifo.pull_first Priority.all (arrive s.capacity arrivals s.ring_buf)).1;
  can_send = p ∷ s.can_send;
}

abbrev pub first_of : List (List ReadBatch) → List ReadBatch
first_of [] = []
first_of (bs ∷ more) = bs

abbrev pub others_of : List (List ReadBatch) → List (List ReadBatch)
others_of [] = []
others_of (bs ∷ more) = more

-- The loop of `try_pull`, for so many rounds at most. `arrivals` are the batches that come in between
-- `peek_mut` and `pull` in each round.
unfoldable pub try_pull : ℕ → List (List ReadBatch) → Shared → Option (Bytes × Qos) × Shared
unfolding look discard
try_pull zero arrivals s = (none, s)
try_pull (suc fuel) arrivals s = elim (Fifo.peek_first Priority.all s.ring_buf) [
  | none ↦ (none, s)
  | some pb ↦
      let batch = pb.1 in
      let (m, status) = look batch s.status in
      let s' = record s { status = status } in
      let rest =
        try_pull fuel (others_of arrivals)
          (discard (first_of arrivals) (Qos.priority batch.qos) s') in
      elim m [
        | some t ↦ (
          some (t.0, batch.qos),
          record s' {
            ring_buf =
                Priority.index_set s'.ring_buf pb.0
                  (Fifo.write_first t.1 (Priority.index s'.ring_buf pb.0));
          },
        )
        | none ↦ rest
      ]
]

pub data RecvError : Type 0 where
  decoding_failed timeout closed : RecvError

-- How the wait of `pull` ends.
pub data Heard : Type 0 where
  notified gone timed_out : Heard

-- What `pull` returns: a message, an error, or nothing yet.
pub data Answer : Type 0 where
  message : Bytes × Qos → Answer
  failed : RecvError → Answer
  waiting : Answer

unfoldable pub or_wait :
    Option (Bytes × Qos) × Shared → (Shared → Answer × Shared) → Answer × Shared
or_wait (some t, s) k = (message t, s)
or_wait (none, s) k = k s

unfoldable pub after_heard : Heard → Shared → (Shared → Answer × Shared) → Answer × Shared
after_heard notified s k = k s
after_heard gone s k = (failed closed, s)
after_heard timed_out s k = (failed timeout, s)

-- The loop of `pull`, for the waits to come: the batches that come in during each, and how it ends.
-- `fuel` is the rounds that each `try_pull` has.
unfoldable pub pull : ℕ → List (List ReadBatch × Heard) → Shared → Answer × Shared
unfolding try_pull arrive or_wait after_heard
pull fuel [] s = or_wait (try_pull fuel [] s) (λ s'. (waiting, s'))
pull fuel ((bs, heard) ∷ rounds) s = or_wait (try_pull fuel [] s) (λ s'.
    after_heard heard (record s' { ring_buf = arrive s'.capacity bs s'.ring_buf })
      (λ s''. pull fuel rounds s''))
