-- ===== src/Api/Link/Order.antt =====
-- Messages are received over a byte stream as they were sent.
use mathlib.Core.Option
use mathlib.Core.Path.{subst}
use thubo.Prelude.{
  ℕ, zero, suc, ◌+◌, ◌/◌, ◌≤◌, ◌≡◌, ap, sym, ◌∙◌, List, [], ◌++◌, map, some, true, length,
  replicate, append-nil,
}
use thubo.Protocol.Priority
use thubo.Protocol.Priority.{Priority, PerPriority}
use thubo.Protocol.Qos.{Qos}
use thubo.Buffers.Bytes.{Bytes}
use thubo.Pipeline.RingBuf.Fifo.{Queue}
use thubo.Pipeline.RingBuf.Fifo.First.{NoneOf, items_at}
use thubo.Pipeline.Rx.{Defragmentation}
use thubo.Pipeline.Rx.Out.{Shared}
use thubo.Pipeline.Rx.Out.View.{Received, View}
use thubo.Pipeline.Rx.Out.Pulls.{flat}
use thubo.Pipeline.Rx.In
use thubo.Pipeline.Rx.In.{push_all}
use thubo.Pipeline.Tx.{WriteBatch}
use thubo.Pipeline.Tx.Out.{StageOut}
use thubo.Pipeline.Tx.Ready.{AllReady}
use thubo.Pipeline.Tx.Stage.{StageInPrio}
use thubo.Pipeline.Tx.Push.Steps.{payload}
use thubo.Pipeline.Tx.Push.Stream.{Stage}
use thubo.Pipeline.Delivery.Messages.{pushes, pulls, cost, AllSendable, Same, AllOk}
use thubo.Pipeline.Delivery.Order.{AllLimited, sent_of, delivery-InOrder}
use thubo.Api.Io.{AsyncWrite, IsLawfulWrite, IsOpen, AsyncRead, IsLawfulRead}
use thubo.Api.Sender.Task.{Event, main_loop}
use thubo.Api.Sender.Rounds.{traffic, wire_out, AllFrames, main_loop-Leaves}
use thubo.Api.Receiver.{read_task}
use thubo.Api.Receiver.Frames.{framed_all, AllPassing, read_task-Received}
use thubo.Api.Link.Served.{
  Holds, Rounds, events_of, parcels_of, traffic-parcels_of, batches_of-parcels_of,
}
use thubo.Api.Link.{
  Parcel, out_of, item_of, batches_of, wire_out-framed_all, item_of-AllItems, out_of-AllFrames,
  batches-item_of,
}

pub replicate-AllPassing : (n : ℕ) → AllPassing (replicate n (In.ok true))
replicate-AllPassing zero = tt
replicate-AllPassing (suc n) = (tt, replicate-AllPassing n)

module _ {W R : Type 0} (writer : AsyncWrite W) (written : W → List ℕ)
    (lw : IsLawfulWrite writer written) (open_writer : IsOpen writer) (reader : AsyncRead R)
    (ahead : R → List ℕ) (lr : IsLawfulRead reader ahead) where
  -- What the rounds of the sending task put on a new stream is what the rounds of the receiving task push.
  pub record Crossed (max : ℕ) (us : List Parcel) (r : R) (x : Defragmentation × Shared)
      : Type 0 where
    pub log :
        (read_task reader max (replicate (length (item_of us)) []) (r, x)).0
        ≡ (push_all max (map payload (batches_of us)) x).0
    pub state :
        (read_task reader max (replicate (length (item_of us)) []) (r, x)).1.1
        ≡ (push_all max (map payload (batches_of us)) x).1

  pub link-Crossed :
      (max : ℕ) (events : List Event) (us : List Parcel) (w : W) (s : StageOut) (r : R)
      (x : Defragmentation × Shared)
      → written w ≡ []
      → (traffic events s).0 ≡ out_of us
      → AllReady (batches_of us)
      → ahead r ≡ written (main_loop writer events (w, s)).1.0
      → AllPassing (push_all max (map payload (batches_of us)) x).0
      → Crossed max us r x
  link-Crossed max events us w s r x new same ready stream on =
      let full : AllFrames (traffic events s).0 =
        subst AllFrames (sym same) (out_of-AllFrames us ready) in
      let (out, left) = main_loop-Leaves writer written lw open_writer events w s full in
      let e =
        stream
        ∙ out
        ∙ ap (λ l. l ++ wire_out (traffic events s).0) new
        ∙ ap wire_out same
        ∙ wire_out-framed_all us ready
        ∙ sym (append-nil (framed_all (item_of us))) in
      let b = batches-item_of us in
      let i =
        read_task-Received reader ahead lr max (item_of us) [] r x e (item_of-AllItems us ready)
          (subst (λ l. AllPassing (push_all max l x).0) (sym b) on) in
      record {
        log = i.log ∙ ap (λ l. (push_all max l x).0) b;
        state = i.state ∙ ap (λ l. (push_all max l x).1) b;
      }

  -- All calls succeed, and the messages are pulled in order.
  pub record InOrder (max : ℕ) (ms : List (Bytes × Qos)) (st : StageInPrio) (us : List Parcel)
      (r : R) (x : Defragmentation × Shared) : Type 0 where
    pub all_ok : AllOk (pushes ms st).0
    pub all_taken :
        (read_task reader max (replicate (length (item_of us)) []) (r, x)).0
        ≡ replicate (length (sent_of ms st)) (In.ok true)
    pub got : List Received
    pub same : Same ms got
    pub pulled :
        map
          (Option.map flat)
          (pulls
            (length ms)
            (read_task reader max (replicate (length (item_of us)) []) (r, x)).1.1.1).0
        ≡ map some got

  -- For the messages, the stage and the receiver of `delivery-InOrder`, with its conditions: a free
  -- batch for each byte of the messages and one for each message, messages within the limit of the
  -- receiver, and a receiver that is there and has room for all batches. The ring between the stage and
  -- the sending task holds the batches of the stage, with nothing booked, congested, disabled or given
  -- up. The rounds of the sending task are as many pulls as take all these batches at up to eight each,
  -- whatever else a pull meets, with keep-alives before, between and behind them; the writer and the
  -- reader keep their promises, the writer is new and stays open, and the reader gets the bytes that
  -- were written. Then each `push` returns `Ok`, as many rounds of the receiving task as there are
  -- batches and keep-alives take every batch with `Ok(true)`, and as many calls of `try_pull` as there
  -- are messages return them in order, each with its bytes, its priority and its congestion control.
  pub link-InOrder :
      (max : ℕ) (p : Priority) (ms : List (Bytes × Qos)) (frees : List (WriteBatch × ℕ))
      (st : StageInPrio) (d : Defragmentation) (shared : Shared) (vs : PerPriority (Queue Received))
      (age : ℕ) (rs : Rounds) (idle : ℕ) (w : W) (s : StageOut) (r : R)
      → Stage p frees [] st
      → AllSendable p ms
      → AllLimited max ms
      → cost ms ≤ length frees
      → View shared vs
      → NoneOf Priority.all vs
      → shared.receiver ≡ true
      → length (items_at shared.ring_buf p) + length (sent_of ms st) ≤ shared.capacity
      → Holds p (sent_of ms st) s
      → length rs ≡ (length (sent_of ms st) + 7) / 8
      → written w ≡ []
      → ahead r ≡ written (main_loop writer (events_of age rs idle) (w, s)).1.0
      → InOrder max ms st (parcels_of rs idle (sent_of ms st)) r (d, shared)
  link-InOrder max p ms frees st d shared vs age rs idle w s r stage sendable limited enough view
        nothing there room held count new stream =
      let us = parcels_of rs idle (sent_of ms st) in
      let batches : batches_of us ≡ sent_of ms st =
        batches_of-parcels_of rs idle (sent_of ms st) count in
      let same = traffic-parcels_of age rs idle p (sent_of ms st) s held count in
      let i =
        delivery-InOrder max p ms frees st d shared vs stage sendable limited enough view nothing
          there room in
      let x : Defragmentation × Shared = (d, shared) in
      let e : push_all max (map payload (batches_of us)) x
          ≡ push_all max (map payload (sent_of ms st)) x =
        ap (λ l. push_all max (map payload l) x) batches in
      let on =
        subst AllPassing (sym (ap (λ t. t.0) e ∙ i.all_taken))
          (replicate-AllPassing (length (sent_of ms st))) in
      let c =
        link-Crossed max (events_of age rs idle) us w s r x new same
          (subst AllReady (sym batches) i.all_ready) stream on in
      record {
        all_ok = i.all_ok;
        all_taken = c.log ∙ ap (λ t. t.0) e ∙ i.all_taken;
        got = i.got;
        same = i.same;
        pulled =
            ap (λ t. map (Option.map flat) (pulls (length ms) t.1).0) (c.state ∙ ap (λ t. t.1) e)
            ∙ i.pulled;
      }
