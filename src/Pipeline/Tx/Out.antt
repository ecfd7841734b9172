-- ===== src/Pipeline/Tx/Out.antt =====
-- src/pipeline/tx.rs: StageOut and PipelineTxOut, from which the link takes batches, without the waits
-- of `pull`.
pub mod Recycled
pub mod Skips
pub mod Drained
pub mod Pulling
pub mod Unchanged
pub mod Booked
use thubo.Prelude.{
  ℕ, zero, suc, List, [], ◌∷◌, Option, some, none, Bool, true, false, ◌&&◌, ◌||◌, ◌==◌,
  if◌then◌else◌,
}
use thubo.Protocol.CongestionControl.{is_drop}
use thubo.Protocol.Priority
use thubo.Protocol.Priority.{Priority, PerPriority}
use thubo.Protocol.Qos
use thubo.Pipeline.Status
use thubo.Pipeline.Status.{Status}
use thubo.Pipeline.RingBuf.Fifo
use thubo.Pipeline.RingBuf.Fifo.{Queue}
use thubo.Pipeline.RingBuf.Fifo.First.{total}
use thubo.Pipeline.RingBuf.Reader.{Pull, got, booked, nothing}
use thubo.Pipeline.Tx.{WriteBatch, write_len}
use thubo.Pipeline.Tx.Refill.{refill}

-- The two ring buffers, as the queues that they promise, the one of empty batches with `capacity` slots;
-- the status; the drop flags that are set; and the notifications of `refill`, the last one first.
pub record StageOut : Type 0 where
  pub ringbuf_inout : PerPriority (Queue WriteBatch)
  pub ringbuf_outrefill : PerPriority (Queue WriteBatch)
  pub capacity : ℕ
  pub status : Status
  pub drop_flags : List ℕ
  pub can_refill : List Priority

unfoldable pub is_set : ℕ → List ℕ → Bool
is_set f [] = false
is_set f (g ∷ gs) = (f == g) || is_set f gs

-- `batch.drop.as_ref().is_some_and(..)`
unfoldable pub is_given_up : WriteBatch → List ℕ → Bool
unfolding is_set
is_given_up b flags = elim b.drop_flag [ none ↦ false | some f ↦ is_set f flags ]

-- `StageOut::refill`, with the notification
unfoldable pub refill_notify : WriteBatch → StageOut → StageOut
refill_notify b s = record s {
  ringbuf_outrefill = refill s.capacity b s.ringbuf_outrefill;
  can_refill = Qos.priority b.qos ∷ s.can_refill;
}

unfoldable pub or_next :
    Pull WriteBatch
    → PerPriority (Queue WriteBatch)
    → Pull WriteBatch × PerPriority (Queue WriteBatch)
    → Pull WriteBatch × PerPriority (Queue WriteBatch)
or_next (got b) qs rest = (got b, qs)
or_next booked qs rest = (booked, qs)
or_next nothing qs rest = rest

-- `for p in Priority::ALL`, up to the first priority with a batch, or with one that is booked
unfoldable pub scan :
    List Priority
    → PerPriority (Queue WriteBatch)
    → Pull WriteBatch × PerPriority (Queue WriteBatch)
unfolding or_next
scan [] qs = (nothing, qs)
scan (p ∷ ps) qs =
    let (x, q) = Fifo.pull_priority (Priority.index qs p) in
    or_next x (Priority.index_set qs p q) (scan ps (Priority.index_set qs p q))

-- The flag of its priority is taken back; whether the batch is dropped.
unfoldable pub is_dropped : WriteBatch → StageOut → Bool × StageOut
unfolding is_given_up
is_dropped b s =
    let cf = Status.congested (Qos.priority b.qos) in
    let (old, status) = Status.unset cf s.status in
    (
      (Status.any old cf && is_drop (Qos.congestion_control b.qos)) || is_given_up b s.drop_flags,
      record s { status = status },
    )

unfoldable pub take_or_drop :
    WriteBatch
    → Bool × StageOut
    → (StageOut → Option WriteBatch × StageOut)
    → Option WriteBatch × StageOut
take_or_drop b (true, s) continue_outer = continue_outer (refill_notify b s)
take_or_drop b (false, s) continue_outer = (some (write_len b), s)

unfoldable pub found :
    Pull WriteBatch
    → StageOut
    → (StageOut → Option WriteBatch × StageOut)
    → Option WriteBatch × StageOut
unfolding take_or_drop is_dropped
found (got b) s continue_outer = take_or_drop b (is_dropped b s) continue_outer
found booked s continue_outer = (none, s)
found nothing s continue_outer = (none, s)

-- The loop of `PipelineTxOut::try_pull`, for so many rounds at most.
unfoldable pub try_pull : ℕ → StageOut → Option WriteBatch × StageOut
unfolding scan found
try_pull zero s = (none, s)
try_pull (suc fuel) s =
    let (x, qs) = scan Priority.all s.ringbuf_inout in
    if Status.any s.status Status.disabled
    then (none, s)
    else found x (record s { ringbuf_inout = qs }) (try_pull fuel)

-- The body of the loop of `drain`; it ends at the first `None`.
unfoldable pub drain_next :
    Option WriteBatch
    → PerPriority (Queue WriteBatch)
    → List WriteBatch × PerPriority (Queue WriteBatch)
    → List WriteBatch × PerPriority (Queue WriteBatch)
drain_next none qs rest = ([], qs)
drain_next (some b) qs rest = (write_len b ∷ rest.0, rest.1)

-- `while let Some(mut batch) = self.stage_out.ringbuf_inout_r.pull()` of `drain`, for so many rounds
unfoldable pub drain_loop :
    ℕ → PerPriority (Queue WriteBatch) → List WriteBatch × PerPriority (Queue WriteBatch)
unfolding drain_next
drain_loop zero qs = ([], qs)
drain_loop (suc fuel) qs =
    let (t, qs') = Fifo.pull_first Priority.all qs in drain_next t qs' (drain_loop fuel qs')

-- The flushes of the stages, whose locks `drain` has.
unfoldable pub flush_all : PerPriority (Queue WriteBatch) → PerPriority (Queue WriteBatch)
flush_all qs = record {
  at_high = Fifo.commit qs.at_high;
  at_medium = Fifo.commit qs.at_medium;
  at_low = Fifo.commit qs.at_low;
  at_background = Fifo.commit qs.at_background;
}

-- `PipelineTxOut::drain`, when it has the locks of all stages
unfoldable pub drain : StageOut → List WriteBatch × StageOut
unfolding flush_all drain_loop
drain s =
    let qs = flush_all s.ringbuf_inout in
    let (batches, qs') = drain_loop (suc (total qs)) qs in
    (batches, record s { ringbuf_inout = qs' })
