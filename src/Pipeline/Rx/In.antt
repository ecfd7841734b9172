-- ===== src/Pipeline/Rx/In.antt =====
-- src/pipeline/rx.rs: PipelineRxIn::push as a whole, with the loop that waits for room in the ring buffer.
pub mod Delivered
pub mod Frames
pub mod Queues
use thubo.Prelude.{
  ℕ, zero, suc, List, [], ◌∷◌, Option, some, none, Bool, true, false, ◌&&◌, if◌then◌else◌,
}
use thubo.Protocol.CongestionControl.{CongestionControl, block, drop, is_drop}
use thubo.Protocol.Priority
use thubo.Protocol.Qos
use thubo.Buffers.Bytes.{Bytes}
use thubo.Pipeline.Status
use thubo.Pipeline.RingBuf.Fifo
use thubo.Pipeline.Rx
use thubo.Pipeline.Rx.{
  SendError, timeout, channel_closed, ReadBatch, Step, failed, stored, complete, undefined,
  Defragmentation,
}
use thubo.Pipeline.Rx.Out.{Shared}

-- How a wait for a free slot ends: by a notification, since the other end is gone, or by its timeout.
pub data Wait : Type 0 where
  woken gone elapsed : Wait

-- A round of the loop in which the ring is full: whether the time for the message is over before the
-- wait, what the other end leaves of the shared state during the wait, and how the wait ends.
pub record Round : Type 0 where
  pub late : Bool
  pub meanwhile : Shared → Shared
  pub wait : Wait

-- What `push` returns: `Ok` with whether the batch was taken, an error, nothing yet, or undefined
-- behaviour.
pub data Outcome : Type 0 where
  ok : Bool → Outcome
  err : SendError → Outcome
  waiting : Outcome
  unsound : Outcome

-- The result, or another round.
pub data Next : Type 0 where
  done : Outcome → Next
  again : Next

-- `can_recv.notify()`
unfoldable pub notify : Shared → Outcome
notify s = if s.receiver then ok true else err channel_closed

-- A batch that the ring takes, or that is dropped at once, needs no wait.
unfoldable pub attempt : ReadBatch → Shared → Next × Shared
unfolding notify
attempt b s =
    let p = Qos.priority b.qos in
    let (back, q) = Fifo.push s.capacity b (Priority.index s.ring_buf p) in
    elim back [
      | none ↦ (done (notify s), record s { ring_buf = Priority.index_set s.ring_buf p q })
      | some zb ↦
          if is_drop (Qos.congestion_control b.qos) && Status.any s.status (Status.congested p)
          then (done (ok false), s)
          else (again, s)
    ]

-- What the end of the wait makes of it.
unfoldable pub after_wait : Wait → ReadBatch → Shared → Next × Shared
after_wait woken b s = (again, s)
after_wait gone b s = (done (err channel_closed), s)
after_wait elapsed b s =
    let s' = record s {
      status = (Status.set (Status.congested (Qos.priority b.qos)) s.status).1;
    } in
    (if is_drop (Qos.congestion_control b.qos) then done (ok false) else again, s')

unfoldable pub wait_room : Round → ReadBatch → Shared → Next × Shared
unfolding after_wait
wait_room r b s = if r.late then (done (err timeout), s) else after_wait r.wait b (r.meanwhile s)

unfoldable pub resume : Next × Shared → (Shared → Outcome × Shared) → Outcome × Shared
resume (done o, s) k = (o, s)
resume (again, s) k = k s

-- The loop that pushes to the ring, and waits between one attempt and the next.
unfoldable pub push_ring : List Round → ReadBatch → Shared → Outcome × Shared
unfolding attempt wait_room resume
push_ring [] b s = resume (attempt b s) (λ s'. (waiting, s'))
push_ring (r ∷ rounds) b s =
    resume (attempt b s) (λ s'. resume (wait_room r b s') (λ s''. push_ring rounds b s''))

-- What becomes of the batch that came in.
unfoldable pub deliver : List Round → Step → Shared → Outcome × Shared
unfolding push_ring
deliver rounds (failed e) s = (err e, s)
deliver rounds stored s = (ok true, s)
deliver rounds (complete b) s = push_ring rounds b s
deliver rounds undefined s = (unsound, s)

-- `PipelineRxIn::push`
unfoldable pub push :
    ℕ → List Round → Bytes → Defragmentation × Shared → Outcome × (Defragmentation × Shared)
unfolding Rx.push deliver
push frag_max_size rounds bytes (d, s) =
    let (step, d') = Rx.push frag_max_size bytes d in
    let (o, s') = deliver rounds step s in (o, (d', s'))

-- Batches that come in one after the other, with no wait for any.
unfoldable pub push_all :
    ℕ → List Bytes → Defragmentation × Shared → List Outcome × (Defragmentation × Shared)
unfolding push
push_all frag_max_size [] x = ([], x)
push_all frag_max_size (bytes ∷ batches) x =
    let (o, x') = push frag_max_size [] bytes x in
    let (os, x'') = push_all frag_max_size batches x' in (o ∷ os, x'')
