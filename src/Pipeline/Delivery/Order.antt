-- ===== src/Pipeline/Delivery/Order.antt =====
-- Messages of a priority are received as they were sent, all of them and in order.
use mathlib.Core.Option
use thubo.Prelude.{
  ℕ, suc, ◌+◌, ◌≤◌, ◌≡◌, refl, ap, sym, ◌∙◌, List, [], ◌∷◌, map, some, true, length, replicate,
}
use thubo.Protocol.Priority
use thubo.Protocol.Priority.{Priority, PerPriority}
use thubo.Protocol.Qos.{Qos}
use thubo.Buffers.Interface.{joined}
use thubo.Buffers.Bytes.{Bytes}
use thubo.Codec.Values.RoundTrip.{encode_slice}
use thubo.Pipeline.RingBuf.Fifo.{Queue}
use thubo.Pipeline.RingBuf.Fifo.First.{NoneOf, items_at}
use thubo.Pipeline.Rx.{Defragmentation}
use thubo.Pipeline.Rx.Out.{Shared}
use thubo.Pipeline.Rx.Out.View.{Received, View}
use thubo.Pipeline.Rx.Out.Pulls.{flat}
use thubo.Pipeline.Rx.In
use thubo.Pipeline.Rx.In.{push_all}
use thubo.Pipeline.Tx.{WriteBatch}
use thubo.Pipeline.Tx.Ready.{AllReady}
use thubo.Pipeline.Tx.Stage.{StageInPrio}
use thubo.Pipeline.Tx.Push.{flush}
use thubo.Pipeline.Tx.Push.Steps.{payload}
use thubo.Pipeline.Tx.Push.Stream.{Stage, Carried-AllReady}
use thubo.Pipeline.Delivery.Receives.{AllWithin, Carried-Receives}
use thubo.Pipeline.Delivery.Messages.{
  pushes, pulls, cost, AllSendable, Same, AllOk, pushes-Pushes, flush-Carried, pulls-added,
}

-- The encodings of the messages keep the limit of the receiver.
abbrev pub AllLimited : ℕ → List (Bytes × Qos) → Type 0
AllLimited max [] = Unit {0}
AllLimited max (m ∷ ms) = (length (encode_slice (joined m.0)) ≤ max) × AllLimited max ms

Same-AllWithin :
    (max : ℕ) (ms : List (Bytes × Qos)) (out : List Received)
    → Same ms out
    → AllLimited max ms
    → AllWithin max out
Same-AllWithin max [] [] e h = tt
Same-AllWithin max [] (x ∷ out) e h = absurd e
Same-AllWithin max (m ∷ ms) [] e h = tt
Same-AllWithin max (m ∷ ms) (x ∷ out) e h = (rw e.0 h.0, Same-AllWithin max ms out e.3 h.1)

length-Same : (ms : List (Bytes × Qos)) (out : List Received) → Same ms out → length out ≡ length ms
length-Same [] [] e = refl
length-Same [] (x ∷ out) e = absurd e
length-Same (m ∷ ms) [] e = absurd e
length-Same (m ∷ ms) (x ∷ out) e = ap suc (length-Same ms out e.3)

-- The batches that a stage has sent when the messages have been pushed to it and it has been flushed.
abbrev pub sent_of : List (Bytes × Qos) → StageInPrio → List WriteBatch
sent_of ms s = (flush (pushes ms s).1).1.sent

-- What the receiving side returns for them, and the state that it is left in.
abbrev pub received_of :
    ℕ
    → List (Bytes × Qos)
    → StageInPrio
    → Defragmentation × Shared
    → List In.Outcome × (Defragmentation × Shared)
received_of max ms s x = push_all max (map payload (sent_of ms s)) x

-- All calls succeed, and the messages are pulled in order.
pub record InOrder (max : ℕ) (ms : List (Bytes × Qos)) (s : StageInPrio)
    (x : Defragmentation × Shared) : Type 0 where
  pub all_ok : AllOk (pushes ms s).0
  pub all_taken : (received_of max ms s x).0 ≡ replicate (length (sent_of ms s)) (In.ok true)
  pub all_ready : AllReady (sent_of ms s)
  pub got : List Received
  pub same : Same ms got
  pub pulled :
      map (Option.map flat) (pulls (length ms) (received_of max ms s x).1.1).0 ≡ map some got

-- For messages of one priority, each of fewer than 2 ^ 64 bytes in chunks that are not empty and within
-- the limit of the receiver; a stage of that priority that has taken none yet, with a free batch for
-- each byte of the messages and one more for each message; and a receiver that is there, with no
-- messages and with room for the batches that are sent: each `push` returns `Ok`; the batches that are
-- sent can be sent, with lengths of two bytes; when the stage has been flushed, the receiver takes
-- every batch that was sent with `Ok(true)`; and as many calls of `try_pull` return the messages in
-- order, each with its bytes, its priority and its congestion control. The messages may be of any
-- sizes, and of both congestion controls.
pub delivery-InOrder :
    (max : ℕ) (p : Priority) (ms : List (Bytes × Qos)) (frees : List (WriteBatch × ℕ))
    (s : StageInPrio) (d : Defragmentation) (r : Shared) (vs : PerPriority (Queue Received))
    → Stage p frees [] s
    → AllSendable p ms
    → AllLimited max ms
    → cost ms ≤ length frees
    → View r vs
    → NoneOf Priority.all vs
    → r.receiver ≡ true
    → length (items_at r.ring_buf p) + length (sent_of ms s) ≤ r.capacity
    → InOrder max ms s (d, r)
delivery-InOrder max p ms frees s d r vs st sendable limited enough v nothing there room =
    let t = pushes-Pushes p ms frees [] s st sendable enough in
    let carried = flush-Carried p t.left t.more (pushes ms s).1 t.stage in
    let q =
      Carried-Receives max p (sent_of ms s) t.more d r vs carried
        (Same-AllWithin max ms t.more t.same limited) v there room in
    let n = length-Same ms t.more t.same in
    record {
      all_ok = t.all_ok;
      all_taken = ap (λ x. x.0) q.run;
      all_ready = Carried-AllReady p (sent_of ms s) t.more carried;
      got = t.more;
      same = t.same;
      pulled =
          ap (λ k. map (Option.map flat) (pulls k (received_of max ms s (d, r)).1.1).0) (sym n)
          ∙ ap (λ x. map (Option.map flat) (pulls (length t.more) x.1.1).0) q.run
          ∙ pulls-added p t.more q.shared vs nothing q.view;
    }
