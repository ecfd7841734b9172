-- ===== src/Tests/Pulling.antt =====
-- A receiving pipeline with two messages in a batch, and the theorems on its two ends applied.
use thubo.Prelude.{ℕ, ◌≡◌, ◌≢◌, refl, List, [], ◌∷◌, ◌++◌, none, true, false, append-nil, arith}
use thubo.Protocol.Priority
use thubo.Protocol.Priority.{Priority, PerPriority, high, medium, low, background}
use thubo.Protocol.CongestionControl.{is_drop}
use thubo.Protocol.Qos
use thubo.Protocol.Qos.{Qos}
use thubo.Codec.Vle.Encoding.{groups}
use thubo.Codec.Messages.RoundTrip.{encode_message}
use thubo.Buffers.Bytes.{Bytes}
use thubo.Pipeline.Status
use thubo.Pipeline.Status.Flags.{Calm}
use thubo.Pipeline.RingBuf.Fifo
use thubo.Pipeline.RingBuf.Fifo.{Queue, empty}
use thubo.Pipeline.RingBuf.Fifo.First.{items_at}
use thubo.Pipeline.Rx.{ReadBatch, DefragBuffer, Defragmentation, new_defrag}
use thubo.Pipeline.Rx.Fragment.{frame_message}
use thubo.Pipeline.Rx.Out.{Shared, try_pull, discard}
use thubo.Pipeline.Rx.Out.Messages.{Holds, encode_all}
use thubo.Pipeline.Rx.Out.View.{Received, Carries, View}
use thubo.Pipeline.Rx.Out.Pulls.{Pulled, try_pull-Pulled}
use thubo.Pipeline.Rx.Out.Meanwhile.{NoneAbove, discard-arrival}
use thubo.Pipeline.Rx.Out.Congested.{try_pull-congested}
use thubo.Pipeline.Rx.In.{Round, woken, ok, push, push_ring}
use thubo.Pipeline.Rx.In.Delivered.{Led, Ended, push_ring-Ended}
use thubo.Pipeline.Rx.In.Frames.{IsFrame, queued}
use thubo.Pipeline.Rx.In.Queues.{IsOpen, push-View}

abbrev messages : List (List ℕ)
messages = (5 ∷ 6 ∷ []) ∷ (7 ∷ []) ∷ []

-- A batch at its start, of priority High or Medium.
abbrev batch : Qos → ReadBatch
batch q = record { bytes = encode_all messages ∷ []; qos = q; slice = 0; byte = 0 }

batch-Holds : (q : Qos) → Holds (batch q) messages
unfolding groups
batch-Holds q = record {
  valid = (omega arith, tt);
  ahead = append-nil (encode_all messages);
  small = (omega arith, (omega arith, tt));
}

abbrev no_batches : PerPriority (Queue ReadBatch)
no_batches = record { at_high = empty; at_medium = empty; at_low = empty; at_background = empty }

abbrev no_messages : PerPriority (Queue Received)
no_messages = record { at_high = empty; at_medium = empty; at_low = empty; at_background = empty }

abbrev idle : Shared
idle = record { capacity = 1; ring_buf = no_batches; status = 0; can_send = []; receiver = true }

-- One batch of priority Medium.
abbrev filled : Shared
filled = record idle {
  ring_buf = record no_batches { at_medium = record { items = batch 13 ∷ []; held = none } };
}

abbrev waiting_messages : PerPriority (Queue Received)
waiting_messages = record no_messages {
  at_medium = record { items = (5 ∷ 6 ∷ [], 13) ∷ (7 ∷ [], 13) ∷ []; held = none };
}

zero-Calm : Calm 0
unfolding Status.any Status.congested Priority.to_u8
zero-Calm high = refl
zero-Calm medium = refl
zero-Calm low = refl
zero-Calm background = refl

of_medium : Qos.priority 13 ≡ medium
unfolding Qos.priority Priority.from_u8
of_medium = refl

filled-View : View filled waiting_messages
unfolding Priority.index
filled-View = record {
  calm = zero-Calm;
  carries = λ p.
      elim p as (λ p. Carries p (items_at filled.ring_buf p) (items_at waiting_messages p)) [
        | high ↦ refl
        | medium ↦ (messages, [], refl, of_medium, batch-Holds 13, refl)
        | low ↦ refl
        | background ↦ refl
      ];
}

try_pull-Pulled_example :
    Pulled (Fifo.pull_first Priority.all waiting_messages) (try_pull 2 [] filled)
try_pull-Pulled_example = try_pull-Pulled 2 filled waiting_messages filled-View (omega arith)

medium-NoneAbove : NoneAbove medium filled.ring_buf
unfolding Priority.index Priority.to_u8
medium-NoneAbove high lt = refl
medium-NoneAbove medium lt = absurd (omega arith)
medium-NoneAbove low lt = absurd (omega arith)
medium-NoneAbove background lt = absurd (omega arith)

-- The batch of priority High comes in, and it is the one that is lost.
discard-arrival_example :
    (items_at (discard (batch 12 ∷ []) medium filled).ring_buf (Qos.priority 12) ≡ [])
    × (items_at (discard (batch 12 ∷ []) medium filled).ring_buf medium
        ≡ items_at filled.ring_buf medium)
unfolding Qos.priority Priority.from_u8 Priority.to_u8
discard-arrival_example =
    discard-arrival filled medium (batch 12) (λ e. absurd (omega (arith, e))) medium-NoneAbove
      (omega arith)

abbrev congested_medium : Shared
congested_medium = record filled { status = 2 }

other_flags :
    (q : Priority)
    → Qos.priority 13 ≢ q
    → Status.any congested_medium.status (Status.congested q) ≡ false
unfolding Status.any Status.congested Priority.to_u8 Qos.priority Priority.from_u8
other_flags high ne = refl
other_flags medium ne = absurd (ne refl)
other_flags low ne = refl
other_flags background ne = refl

other_queues :
    (q : Priority)
    → Qos.priority 13 ≢ q
    → Carries q (items_at filled.ring_buf q) (items_at waiting_messages q)
unfolding Priority.index Qos.priority Priority.from_u8
other_queues high ne = refl
other_queues medium ne = absurd (ne refl)
other_queues low ne = refl
other_queues background ne = refl

try_pull-congested_example :
    Pulled
      (Fifo.pull_first Priority.all (
        Priority.index_set waiting_messages
          (Qos.priority 13)
          (record (Priority.index waiting_messages (Qos.priority 13)) { items = [] })))
      (try_pull 2 [] congested_medium)
unfolding Priority.index Qos.priority Priority.from_u8 Status.any Status.congested Priority.to_u8
    is_drop Qos.congestion_control
try_pull-congested_example =
    try_pull-congested 1 congested_medium waiting_messages (batch 13) [] [] refl medium-NoneAbove
      refl refl other_flags other_queues refl (omega arith)

-- The ring is full, and a pull by the other end makes room while the sender waits.
abbrev one_wait : List Round
one_wait =
    record { late = false; meanwhile = λ s. record s { ring_buf = no_batches }; wait = woken } ∷ []

push_ring-Ended_example :
    (left : List Round) × (t : Shared) × Led (batch 13) one_wait filled left t
    × Ended (batch 13) left t (push_ring one_wait (batch 13) filled)
push_ring-Ended_example = push_ring-Ended one_wait (batch 13) filled

abbrev frame_bytes : Bytes
frame_bytes = (encode_message (frame_message 13 5) ++ encode_all messages) ∷ []

frame_bytes-IsFrame : IsFrame 13 5 frame_bytes messages
unfolding groups
frame_bytes-IsFrame = ((omega arith, tt), append-nil _, (omega arith, (omega arith, tt)))

idle-View : View idle no_messages
unfolding Priority.index
idle-View = record {
  calm = zero-Calm;
  carries = λ p. elim p as (λ p. Carries p (items_at idle.ring_buf p) (items_at no_messages p)) [
    | high ↦ refl
    | medium ↦ refl
    | low ↦ refl
    | background ↦ refl
  ];
}

idle-IsOpen : IsOpen 13 idle
unfolding Qos.priority Priority.from_u8 Priority.index
idle-IsOpen = record { room = λ e. absurd (omega (arith, e)); there = refl }

abbrev empty_buffers : PerPriority DefragBuffer
empty_buffers = record {
  at_high = new_defrag;
  at_medium = new_defrag;
  at_low = new_defrag;
  at_background = new_defrag;
}

abbrev no_fragments : Defragmentation
no_fragments = record { block_bufs = empty_buffers; drop_bufs = empty_buffers }

push-View_example :
    (s : Shared) × (push 100 [] frame_bytes (no_fragments, idle) ≡ (ok true, (no_fragments, s)))
    × View s (queued 13 messages no_messages)
push-View_example =
    push-View 100 [] 13 5 frame_bytes messages no_fragments idle no_messages (omega arith)
      frame_bytes-IsFrame idle-IsOpen idle-View
