-- ===== src/Tests/Links.antt =====
-- A writer that takes ten bytes at a time, as the one of the tests in sender.rs, a reader over bytes that
-- are there, and the theorems on the two tasks applied.
use mathlib.Core.Path.{subst}
use thubo.Prelude.{
  replicate, length-replicate, ◌≢◌, ◌+◌, ◌/◌, ℕ, ◌-◌, ◌<◌, ◌≡◌, refl, ap, sym, ◌∙◌, min, List, [],
  ◌∷◌, ◌++◌, some, none, true, false, map, length, take, drop, leb, if◌then◌else◌, arith,
  length-append, take-append, drop-append,
}
use thubo.Buffers.BoxBuf.{as_slice}
use thubo.Buffers.Interface.{joined}
use thubo.Protocol.Priority
use thubo.Protocol.Priority.{Priority, PerPriority, high, medium, low, background}
use thubo.Protocol.Qos
use thubo.Collections.SingleOrVec
use thubo.Collections.SingleOrVec.{SingleOrVec}
use thubo.Collections.SingleOrVec.View.{
  Op, Reads, push_op, truncate_op, extend_op, write_op, run, run-Reads,
}
use thubo.Pipeline.Status
use thubo.Pipeline.RingBuf.Fifo
use thubo.Pipeline.RingBuf.Fifo.{Queue, empty}
use thubo.Pipeline.Tx.{WriteBatch, alloc, clear, write_len}
use thubo.Pipeline.Rx.In.{push_all}
use thubo.Pipeline.Tx.Ready.{AllReady}
use thubo.Pipeline.Tx.Push.Steps.{payload}
use thubo.Pipeline.Tx.Out.{StageOut, try_pull}
use thubo.Api.Io.{AsyncWrite, IsLawfulWrite, IsOpen, AsyncRead, IsLawfulRead}
use thubo.Api.Sender.Slices.{write_all_vectored}
use thubo.Api.Sender.Wire.{Ends, write_all_vectored-Ends}
use thubo.Api.Sender.Task.{Event, pulled, idle, write_batches, main_loop}
use thubo.Api.Sender.Traffic.{Sent, write_batches-Sent}
use thubo.Api.Sender.Rounds
use thubo.Api.Sender.Rounds.{sent, traffic, Leaves, main_loop-Leaves}
use thubo.Api.Receiver.{read_task}
use thubo.Api.Receiver.Frames.{
  Item, AllItems, AllPassing, framed_all, batches, Received, read_task-Received,
}
use thubo.Api.Link.{ready, alive, batches_of, item_of, item_of-AllItems, batches-item_of}
use thubo.Api.Link.Served.{Holds, Rounds, events_of, parcels_of}
use thubo.Api.Link.Order.{InOrder, link-InOrder, replicate-AllPassing}
use thubo.Pipeline.Delivery.Order.{sent_of}
use thubo.Tests.Transfers.{no_buffers, no_messages}
use thubo.Tests.Streams

abbrev short_writer : AsyncWrite (List ℕ)
short_writer = record {
  write_vectored = λ slices w. (
    some (min 10 (length (joined slices))),
    w ++ take (min 10 (length (joined slices))) (joined slices),
  );
  write_all = λ bytes w. (true, w ++ bytes);
  flush = λ w. (true, w);
}

abbrev written : List ℕ → List ℕ
written w = w

short_writer-IsLawfulWrite : IsLawfulWrite short_writer written
short_writer-IsLawfulWrite = record {
  taken = λ slices w n e.
      let k : min 10 (length (joined slices)) ≡ n = cc in
      (omega arith, ap (λ m. w ++ take m (joined slices)) k);
  not_taken = λ slices w e. absurd (cc);
  all_taken = λ bytes w e. refl;
  flushed = λ w. refl;
}

short_writer-IsOpen : IsOpen short_writer
short_writer-IsOpen = record {
  accepts = λ slices w h. (min 10 (length (joined slices)) - 1, ap some (omega arith));
  accepts_all = λ bytes w. refl;
  flushes = λ w. refl;
}

abbrev byte_reader : AsyncRead (List ℕ)
byte_reader = record {
  read_exact = λ n r. if leb n (length r) then (some (take n r), drop n r) else (none, []);
}

byte_reader-filled :
    (xs ys r : List ℕ)
    → r ≡ xs ++ ys
    → ((byte_reader.read_exact (length xs) r).0 ≡ some xs)
      × ((byte_reader.read_exact (length xs) r).1 ≡ ys)
byte_reader-filled xs ys r e =
    let le : leb (length xs) (length (xs ++ ys)) ≡ true = ground (arith, length-append xs ys) in
    rw (e, le) (ap some (take-append (length xs) xs ys refl), drop-append (length xs) xs ys refl)

byte_reader-IsLawfulRead : IsLawfulRead byte_reader written
byte_reader-IsLawfulRead = record {
  filled = byte_reader-filled;
  ended = λ n r h. let e : leb n (length r) ≡ false = ground arith in rw e refl;
}

abbrev no_batches : PerPriority (Queue WriteBatch)
no_batches = record { at_high = empty; at_medium = empty; at_low = empty; at_background = empty }

-- A stage with no batches to take.
abbrev stage_of : PerPriority (Queue WriteBatch) → List Priority → StageOut
stage_of q n = record {
  ringbuf_inout = no_batches;
  ringbuf_outrefill = q;
  capacity = 2;
  status = 0;
  drop_flags = [];
  can_refill = n;
}

abbrev three_sent : List WriteBatch
three_sent = sent_of Streams.three Streams.new_stage

-- The ring with the batches that the stage has sent.
abbrev link_stage : StageOut
link_stage = record (stage_of no_batches []) {
  ringbuf_inout = record no_batches { at_medium = record { items = three_sent; held = none } };
}

link_stage-Holds : Holds medium three_sent link_stage
unfolding Priority.index Status.any Status.congested Priority.to_u8
link_stage-Holds = record {
  queue = refl;
  others = λ q ne.
      elim q as (λ q. medium ≢ q → Priority.index link_stage.ringbuf_inout q ≡ empty) [
        | high ↦ λ n. refl
        | medium ↦ λ n. absurd (n refl)
        | low ↦ λ n. refl
        | background ↦ λ n. refl
      ]
        ne;
  enabled = refl;
  calm = λ q. elim q as (λ q. Status.any 0 (Status.congested q) ≡ false) [
    | high ↦ refl
    | medium ↦ refl
    | low ↦ refl
    | background ↦ refl
  ];
  no_flags = refl;
}

-- A keep-alive before each pull, and one at the end.
abbrev link_rounds : Rounds
link_rounds = replicate ((length three_sent + 7) / 8) (
  1,
  (
    record { meanwhile = λ x. x; elapsed = 5; locked = true; woken = true },
    record { at_high = 0; at_medium = 10; at_low = 0; at_background = 0 },
  ),
)

abbrev link_bytes : List ℕ
link_bytes = (main_loop short_writer (events_of 100 link_rounds 1) ([], link_stage)).1.0

link-InOrder_example :
    InOrder short_writer written short_writer-IsLawfulWrite short_writer-IsOpen byte_reader written
      byte_reader-IsLawfulRead 100 Streams.three Streams.new_stage
      (parcels_of link_rounds 1 three_sent)
      link_bytes
      (no_buffers, Streams.ready)
link-InOrder_example =
    link-InOrder short_writer written short_writer-IsLawfulWrite short_writer-IsOpen byte_reader
      written byte_reader-IsLawfulRead 100 medium Streams.three Streams.frees Streams.new_stage
      no_buffers Streams.ready no_messages 100 link_rounds 1 [] link_stage link_bytes
      Streams.new_stage-Stage Streams.three-AllSendable Streams.three-AllLimited Streams.three-cost
      Streams.ready-View Streams.nothing refl Streams.ready_room link_stage-Holds
      (length-replicate ((length three_sent + 7) / 8) _) refl refl

batches_of-ready : (l : List WriteBatch) → batches_of (map ready l) ≡ l
batches_of-ready [] = refl
batches_of-ready (b ∷ l) = ap (λ t. b ∷ t) (batches_of-ready l)

write_all_vectored-Ends_example :
    Ends short_writer written short_writer-IsLawfulWrite 0 []
      (1 ∷ 2 ∷ 3 ∷ [])
      (write_all_vectored short_writer 4 ((1 ∷ 2 ∷ []) ∷ (3 ∷ []) ∷ []) 0 [])
write_all_vectored-Ends_example =
    write_all_vectored-Ends short_writer written short_writer-IsLawfulWrite 4
      ((1 ∷ 2 ∷ []) ∷ (3 ∷ []) ∷ []) 0 [] (omega arith)

write_batches-Sent_example :
    Sent short_writer written short_writer-IsLawfulWrite
      (SingleOrVec.as_slice (SingleOrVec.single (alloc 30)))
      []
      (stage_of no_batches [])
      (write_batches short_writer (SingleOrVec.single (alloc 30)) ([], stage_of no_batches []))
write_batches-Sent_example =
    write_batches-Sent short_writer written short_writer-IsLawfulWrite
      (SingleOrVec.single (alloc 30)) [] (stage_of no_batches [])

-- Two batches, which one pull takes together.
abbrev two_stage : StageOut
two_stage = record (stage_of no_batches []) {
  ringbuf_inout = record no_batches {
    at_medium = record { items = alloc 30 ∷ alloc 30 ∷ []; held = none };
  };
}

abbrev two_events : List Event
two_events = idle ∷ pulled (try_pull 3) ∷ []

two_traffic :
    (traffic two_events two_stage).0
    ≡ Rounds.keep_alive ∷ sent (write_len (alloc 30)) ∷ sent (write_len (alloc 30)) ∷ []
unfolding try_pull Status.any Fifo.pull_priority Priority.index Priority.index_set Status.unset
    Status.congested Qos.priority Priority.from_u8 alloc
two_traffic = refl

frame_bytes : 0 < length (as_slice (write_len (alloc 30)).frame)
unfolding write_len alloc clear
frame_bytes = omega arith

main_loop-Leaves_example :
    Leaves short_writer written short_writer-IsLawfulWrite short_writer-IsOpen []
      (traffic two_events two_stage)
      (main_loop short_writer two_events ([], two_stage))
main_loop-Leaves_example =
    main_loop-Leaves short_writer written short_writer-IsLawfulWrite short_writer-IsOpen two_events
      [] two_stage (rw two_traffic (frame_bytes, (frame_bytes, tt)))

-- A keep-alive, and the batches of three messages, with a byte behind them.
abbrev items : List Item
items = item_of (alive ∷ map ready three_sent)

abbrev arrived : List ℕ
arrived = framed_all items ++ (9 ∷ [])

items-AllItems : AllItems items
items-AllItems =
    item_of-AllItems (alive ∷ map ready three_sent)
      (subst AllReady (sym (batches_of-ready three_sent)) Streams.three-InOrder.all_ready)

items-AllPassing : AllPassing (push_all 100 (batches items) (no_buffers, Streams.ready)).0
items-AllPassing =
    subst (λ l. AllPassing (push_all 100 l (no_buffers, Streams.ready)).0)
      (sym (
        batches-item_of (alive ∷ map ready three_sent)
        ∙ ap (map payload) (batches_of-ready three_sent)))
      (subst AllPassing (sym Streams.three-InOrder.all_taken)
        (replicate-AllPassing (length three_sent)))

read_task-Received_example :
    Received byte_reader written byte_reader-IsLawfulRead 100 items
      (9 ∷ [])
      (no_buffers, Streams.ready)
      (read_task byte_reader 100
        (replicate (length items) [])
        (arrived, (no_buffers, Streams.ready)))
read_task-Received_example =
    read_task-Received byte_reader written byte_reader-IsLawfulRead 100 items (9 ∷ []) arrived
      (no_buffers, Streams.ready) refl items-AllItems items-AllPassing

abbrev ops : List (Op ℕ)
ops = push_op 1 ∷ extend_op (2 ∷ 3 ∷ 4 ∷ []) ∷ write_op 1 9 ∷ truncate_op 3 ∷ []

run-Reads_example : Reads (run ops SingleOrVec.new) (1 ∷ 9 ∷ 3 ∷ [])
run-Reads_example = run-Reads ops
