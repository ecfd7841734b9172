-- ===== src/Tests/Transfers.antt =====
-- A message of 40 bytes and batches of 30, and the theorems on the sending stage applied.
use thubo.Prelude.{
  ℕ, zero, suc, ◌+◌, ◌<◌, ◌≡◌, refl, ap, List, [], ◌∷◌, none, true, false, length, replicate, arith,
}
use thubo.Protocol.SeqNum
use thubo.Buffers.BoxBuf.{remaining}
use thubo.Buffers.Bytes.{Bytes, reader}
use thubo.Codec.Vle.Encoding.{groups}
use thubo.Codec.Values.RoundTrip.{encode_slice}
use thubo.Codec.Messages.RoundTrip.{encode_message}
use thubo.Buffers.Interface.{joined}
use thubo.Pipeline.Rx.{DefragBuffer, Defragmentation, new_defrag}
use thubo.Protocol.Priority
use thubo.Protocol.Priority.{PerPriority, high, medium, low, background}
use thubo.Protocol.Qos
use thubo.Pipeline.Status
use thubo.Pipeline.RingBuf.Fifo.{Queue}
use thubo.Pipeline.RingBuf.Fifo.First.{items_at}
use thubo.Pipeline.RingBuf.Mpsc.{no_elements}
use thubo.Pipeline.Rx.Out.{Shared}
use thubo.Pipeline.Rx.Out.View.{Received, Carries, View}
use thubo.Pipeline.Rx.In.Queues.{IsOpen}
use thubo.Pipeline.Tx.{WriteBatch, alloc, clear}
use thubo.Pipeline.Tx.Batch.{alloc_lem}
use thubo.Pipeline.Tx.Stage.{SeqNumPool, StageInPrio}
use thubo.Pipeline.Tx.Push.{push_fragments, push_rest}
use thubo.Pipeline.Tx.Push.Steps.{IsFresh, at_rest}
use thubo.Pipeline.Tx.Push.Rest.{all_free, AllFresh, SentRest, push_rest-SentRest}
use thubo.Pipeline.Rx.Fragment.{frame_message}
use thubo.Pipeline.Tx.Push.Whole.{Fragmented, push_fragments-Fragmented}

abbrev pub message : Bytes
message = replicate 40 7 ∷ []

abbrev pub pool : SeqNumPool
pool = record { reliable = 5; best_effort = 6; frag_id = 7 }

abbrev pub idle : PerPriority DefragBuffer
idle = record {
  at_high = new_defrag;
  at_medium = new_defrag;
  at_low = new_defrag;
  at_background = new_defrag;
}

abbrev pub no_buffers : Defragmentation
no_buffers = record { block_bufs = idle; drop_bufs = idle }

abbrev frees : List (WriteBatch × ℕ)
frees = replicate 40 (alloc 30, 0)

alloc-IsFresh : IsFresh (alloc 30)
unfolding alloc clear
alloc-IsFresh =
    let (a, b, c, d) = alloc_lem 30 in
    record {
      valid = d;
      no_bytes = ap length b;
      no_chunks = refl;
      room = omega (arith, c);
      fits = omega (arith, c);
    }

pub replicate-AllFresh : (n : ℕ) → AllFresh (replicate n (alloc 30, 0))
replicate-AllFresh zero = tt
replicate-AllFresh (suc n) = (alloc-IsFresh, replicate-AllFresh n)

abbrev stage : StageInPrio
stage = record (at_rest pool [] 0 (all_free frees) false [] 0) { booked = none }

room_of_thirty : remaining (alloc 30).frame ≡ 30
room_of_thirty = let (a, b, c, d) = alloc_lem 30 in c

too_big : 30 < length (encode_message (frame_message 1 6)) + length (encode_slice (joined message))
unfolding groups
too_big = omega arith

push_fragments-Fragmented_example :
    Fragmented 1 8 6 message pool frees [] (push_fragments message 1 6 (alloc 30) stage)
unfolding SeqNum.next
push_fragments-Fragmented_example =
    push_fragments-Fragmented message 1 6 (alloc 30) none pool [] 0 frees false [] 0
      (omega arith, tt) (omega arith) (omega arith) (omega arith) alloc-IsFresh
      (omega (arith, room_of_thirty, too_big)) (replicate-AllFresh 40) (omega arith)

push_rest-SentRest_example :
    SentRest 1 none 8
      (omega arith)
      false
      []
      0
      7
      (reader message)
      frees
      pool
      []
      (push_rest 41 1 none 8 7 (reader message) (at_rest pool [] 0 (all_free frees) false [] 0))
unfolding reader
push_rest-SentRest_example =
    push_rest-SentRest 1 none 8 (omega arith) false [] 0 41 7 (reader message) frees pool [] 0
      (omega arith) (omega arith, tt) (replicate-AllFresh 40) (omega arith) (omega arith)
      (omega arith)

abbrev pub idle_ring : Shared
idle_ring = record {
  capacity = 1;
  ring_buf = no_elements;
  status = 0;
  can_send = [];
  receiver = true;
}

abbrev pub no_messages : PerPriority (Queue Received)
no_messages = no_elements

pub idle-View : View idle_ring no_messages
unfolding Priority.index Status.any Status.congested Priority.to_u8
idle-View = record {
  calm = λ p. elim p as (λ p. Status.any 0 (Status.congested p) ≡ false) [
    | high ↦ refl
    | medium ↦ refl
    | low ↦ refl
    | background ↦ refl
  ];
  carries = λ p.
      elim p as (λ p. Carries p (items_at idle_ring.ring_buf p) (items_at no_messages p)) [
        | high ↦ refl
        | medium ↦ refl
        | low ↦ refl
        | background ↦ refl
      ];
}

idle-IsOpen : IsOpen 1 idle_ring
unfolding Qos.priority Priority.from_u8 Priority.index
idle-IsOpen = record { room = λ e. absurd (omega (arith, e)); there = refl }
