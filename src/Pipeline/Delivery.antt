-- ===== src/Pipeline/Delivery.antt =====
-- src/pipeline/tx.rs and rx.rs together: from `push` on one side to `try_pull` on the other.
pub mod Lines
pub mod Receives
pub mod Messages
pub mod Order
use mathlib.Core.Option
use thubo.Prelude.{
  ℕ, ◌≤◌, ◌<◌, ◌+◌, ◌^◌, ◌≡◌, ap, sym, ◌∙◌, List, [], ◌∷◌, ◌++◌, Option, some, Bool, true, false,
  map, length, replicate, append-nil,
}
use thubo.Protocol.Priority
use thubo.Protocol.Priority.{Priority, PerPriority, high, medium, low, background}
use thubo.Protocol.Qos
use thubo.Protocol.Qos.{Qos}
use thubo.Protocol.SeqNum.{SeqNum, IsSeqNum}
use thubo.Buffers.Interface.{joined}
use thubo.Buffers.BoxBuf.{remaining}
use thubo.Buffers.Bytes.{Bytes}
use thubo.Buffers.Bytes.Cursor.{NonEmpty, NonEmpty-IsCursor}
use thubo.Codec.Values.RoundTrip.{encode_slice}
use thubo.Codec.Messages.RoundTrip.{encode_message}
use thubo.Pipeline.Transfer.{transfer-Transferred}
use thubo.Pipeline.RingBuf.Rep.Storage.{index-index_set_self}
use thubo.Pipeline.RingBuf.Fifo.{Queue}
use thubo.Pipeline.RingBuf.Fifo.First.{NoneOf, First, here, behind, pull_first-First, total}
use thubo.Pipeline.Delivery.Lines.{pull_first-added}
use thubo.Pipeline.Rx.{Defragmentation, ReadBatch}
use thubo.Pipeline.Rx.Fragment.{frame_message}
use thubo.Pipeline.Rx.Out.{Shared, try_pull}
use thubo.Pipeline.Rx.Out.Messages.{Holds}
use thubo.Pipeline.Rx.Out.View.{Received, tagged, View}
use thubo.Pipeline.Rx.Out.Pulls.{flat, try_pull-Pulled}
use thubo.Pipeline.Rx.In
use thubo.Pipeline.Rx.In.{push_all}
use thubo.Pipeline.Rx.In.Delivered.{appended}
use thubo.Pipeline.Rx.In.Frames.{queued, appended-View}
use thubo.Pipeline.Rx.In.Queues.{IsOpen, push_all-stored}
use thubo.Pipeline.Tx.{WriteBatch, AtomicBackoff}
use thubo.Pipeline.Tx.Stage.{SeqNumPool, StageInPrio, Outcome, ok}
use thubo.Pipeline.Tx.Push.{push_fragments}
use thubo.Pipeline.Tx.Push.Steps.{IsFresh, payload, at_rest}
use thubo.Pipeline.Tx.Push.Rest.{all_free, AllFresh}

-- The messages are there to be pulled.
pub record Waits (q : Qos) (m : List ℕ) (ms : List (List ℕ)) (vs : PerPriority (Queue Received))
    (s : Shared) : Type 0 where
  pub view : View s (queued q (m ∷ ms) vs)
  pub first :
      NoneOf Priority.all vs
      → (fuel : ℕ) → total s.ring_buf < fuel
      → Option.map flat (try_pull fuel [] s).0 ≡ some (m, q)

pub View-Waits :
    (q : Qos) (m : List ℕ) (ms : List (List ℕ)) (vs : PerPriority (Queue Received)) (s : Shared)
    → View s (queued q (m ∷ ms) vs)
    → Waits q m ms vs s
View-Waits q m ms vs s v = record {
  view = v;
  first = λ n fuel enough.
      (try_pull-Pulled fuel s (queued q (m ∷ ms) vs) v enough).result
      ∙ ap (λ o. o.0) (pull_first-added (Qos.priority q) (m, q) (tagged q ms) vs n);
}

-- The sender has returned, the receiver has taken all that was sent, and the message waits to be pulled.
pub record Delivered (max : ℕ) (qos : Qos) (msg : Bytes) (d : Defragmentation) (s : Shared)
    (vs : PerPriority (Queue Received)) (o : Outcome Bool × StageInPrio) : Type 0 where
  pub result : o.0 ≡ ok false
  pub shared : Shared
  pub taken :
      (push_all max (map payload o.1.sent) (d, s)).0 ≡ replicate (length o.1.sent) (In.ok true)
  pub shared_eq : (push_all max (map payload o.1.sent) (d, s)).1.1 ≡ shared
  pub waits : Waits qos (joined msg) [] vs shared

-- For a message of fewer than 2 ^ 64 bytes in chunks that are not empty, which does not fit a fresh
-- batch with the header of a frame, as many free batches as it has bytes, a receiver whose limit its
-- encoding keeps, with room for a batch of its priority, and whose batches hold the messages of these
-- queues: the sending stage sends fragments and returns, the receiver takes each with `Ok(true)`, and
-- the message with its QoS stands behind the others of its priority. If there are no others of any
-- priority, `try_pull` with more rounds than batches returns it.
pub transfer-Delivered :
    (max : ℕ) (d : Defragmentation) (s : Shared) (vs : PerPriority (Queue Received)) (msg : Bytes)
    (qos : Qos) (seq : SeqNum) (b : WriteBatch) (o : Option WriteBatch) (pool : SeqNumPool)
    (back : AtomicBackoff) (frees : List (WriteBatch × ℕ)) (flush : Bool) (cg : List ℕ) (fs : ℕ)
    → View s vs
    → IsOpen qos s
    → length (encode_slice (joined msg)) ≤ max
    → NonEmpty msg
    → length (joined msg) < 2 ^ 64
    → IsSeqNum pool.frag_id
    → IsSeqNum seq
    → IsFresh b
    → remaining b.frame
      < length (encode_message (frame_message qos seq)) + length (encode_slice (joined msg))
    → AllFresh frees
    → length (joined msg) ≤ length frees
    → Delivered max qos msg d s vs (
        push_fragments msg qos seq b
          (record (at_rest pool [] back (all_free frees) flush cg fs) { booked = o }))
transfer-Delivered max d s vs msg qos seq b o pool back frees flush cg fs v room limit full small
      hpool hseq fresh big free_ones enough =
    let t =
      transfer-Transferred max d msg qos seq b o pool back frees flush cg fs limit full small hpool
        hseq fresh big free_ones enough in
    let whole : ReadBatch = record { bytes = t.message; qos = qos; slice = 0; byte = 0 } in
    let run = push_all-stored max t.before_last _ whole d s t.received room in
    let holds : Holds whole (joined msg ∷ []) = record {
      valid = NonEmpty-IsCursor t.message t.no_empty;
      ahead = t.message_eq ∙ sym (append-nil (encode_slice (joined msg)));
      small = (small, tt);
    } in
    record {
      result = t.result;
      shared = appended whole s;
      taken = ap (λ x. x.0) run ∙ ap (λ n. replicate n (In.ok true)) (sym t.all_sent);
      shared_eq = ap (λ x. x.1.1) run;
      waits =
          View-Waits qos (joined msg) [] vs (appended whole s)
            (appended-View s vs whole (joined msg ∷ []) v holds);
    }
