-- ===== src/Tests/Receiving.antt =====
-- Concrete batches, and the theorems on buffers of chunks and on reassembly applied to them.
use thubo.Prelude.{
  ℕ, ◌≤◌, ◌<◌, ◌≡◌, ◌≢◌, ap, ◌++◌, ◌⊎◌, inl, List, [], ◌∷◌, some, none, take, replicate, arith,
  append-nil,
}
use thubo.Protocol.Priority
use thubo.Protocol.Priority.{Priority, PerPriority, high, medium, low, background}
use thubo.Protocol.CongestionControl.{CongestionControl}
use thubo.Protocol.Qos.{priority, congestion_control}
use thubo.Protocol.SeqNum
use thubo.Protocol.SeqNum.{SeqNum}
use thubo.Protocol.SeqNum.Order.{advance}
use thubo.Protocol.Message.{FragmentKind, first, more, last}
use thubo.Buffers.Interface.{joined, Taken}
use thubo.Buffers.Bytes.{
  Bytes, BytesReader, reader, read_chunks, read_exact, read_chunk_contiguous, bytes_reader, len,
}
use thubo.Buffers.Bytes.Cursor.{IsValid, NonEmpty, rest}
use thubo.Buffers.Bytes.Lawful.{
  bytes_lawful, read_chunks-fits, read_exact-fits, read_chunk_contiguous-exact, left_in_chunk,
}
use thubo.Codec.Messages.{read_message}
use thubo.Codec.Messages.RoundTrip.{encode_message, read_message-encoding}
use thubo.Pipeline.Rx.{
  DefragBuffer, Defragmentation, stored, new_defrag, push, push_all, get_buffer, set_buffer, slot,
}
use thubo.Pipeline.Rx.Fragment.{IsFragment, fragment_message, fragment_message-IsMessage}
use thubo.Pipeline.Rx.Reassembly.{end_with, go_on, push_all-fragments, whole_message}
use thubo.Pipeline.Rx.Bounds.{push-get_buffer, IsBounded, Within, push-IsBounded}

abbrev chunks : Bytes
chunks = (5 ∷ 6 ∷ []) ∷ (7 ∷ []) ∷ []

-- In the first chunk, behind its first byte.
abbrev inside : BytesReader
inside = record { inner = chunks; slice = 0; byte = 1 }

inside-IsValid : IsValid inside
inside-IsValid = (omega arith, (omega arith, tt))

read_chunks-fits_example :
    (cs : List (List ℕ)) × (joined cs ≡ take 2 (rest inside))
    × Taken rest IsValid 2 (rest inside) cs (read_chunks 2 inside)
read_chunks-fits_example = read_chunks-fits 2 inside inside-IsValid (omega arith)

read_exact-fits_example :
    Taken rest IsValid 2 (rest inside) (take 2 (rest inside)) (read_exact 2 inside)
read_exact-fits_example = read_exact-fits 2 inside inside-IsValid (omega arith) (omega arith)

read_chunk_contiguous-exact_example :
    (2 ≤ left_in_chunk inside)
      × Taken rest IsValid 2 (rest inside) (take 2 (rest inside)) (read_chunk_contiguous 2 inside)
    ⊎ (left_in_chunk inside < 2) × (read_chunk_contiguous 2 inside ≡ (none, inside))
read_chunk_contiguous-exact_example =
    read_chunk_contiguous-exact 2 inside inside-IsValid (omega arith)

-- Batches with a fragment of message 7, priority High.
abbrev batch : FragmentKind → SeqNum → List ℕ → Bytes
batch k seq p = (encode_message (fragment_message 12 k 7 seq) ++ p) ∷ []

batch-IsFragment :
    (k : FragmentKind) (seq : SeqNum) (p : List ℕ) → IsFragment 12 k 7 seq (batch k seq p) p
batch-IsFragment k seq p =
    ((omega arith, tt), append-nil (encode_message (fragment_message 12 k 7 seq) ++ p))

abbrev empty : PerPriority DefragBuffer
empty = record {
  at_high = new_defrag;
  at_medium = new_defrag;
  at_low = new_defrag;
  at_background = new_defrag;
}

abbrev idle : Defragmentation
idle = record { block_bufs = empty; drop_bufs = empty }

push_all-fragments_example :
    (bytes : Bytes) × NonEmpty bytes
    × (joined bytes ≡ (5 ∷ 6 ∷ []) ++ ((7 ∷ []) ++ (8 ∷ [])))
    × (push_all 100
          (batch first 300 (5 ∷ 6 ∷ [])
            ∷ batch more (SeqNum.next 300) (7 ∷ [])
            ∷ batch last (SeqNum.next (SeqNum.next 300)) (8 ∷ [])
            ∷ [])
          idle
        ≡ (
          stored ∷ (replicate 1 stored ++ (whole_message 12 bytes ∷ [])),
          set_buffer 12 (record { seq_num = advance 3 300; frag_id = 7; buffer = [] }) idle,
        ))
push_all-fragments_example =
    push_all-fragments 100 12 7 300 (batch first 300 (5 ∷ 6 ∷ []))
      (batch more (SeqNum.next 300) (7 ∷ []))
      (batch last (SeqNum.next (SeqNum.next 300)) (8 ∷ []) ∷ []) (5 ∷ 6 ∷ []) ((7 ∷ []) ++ (8 ∷ []))
      idle (omega arith) (omega arith) (batch-IsFragment first 300 (5 ∷ 6 ∷ []))
      (go_on (SeqNum.next 300) _ _ [] (7 ∷ []) (8 ∷ [])
        (batch-IsFragment more (SeqNum.next 300) (7 ∷ []))
        (end_with (SeqNum.next (SeqNum.next 300)) _ (8 ∷ [])
          (batch-IsFragment last (SeqNum.next (SeqNum.next 300)) (8 ∷ []))))
      (omega arith)

decoded :
    (read_message (reader (batch first 300 (5 ∷ [])))).0 ≡ some (fragment_message 12 first 7 300)
unfolding bytes_lawful reader
decoded =
    (read_message-encoding bytes_lawful (fragment_message 12 first 7 300)
      (reader (batch first 300 (5 ∷ []))) (5 ∷ [])
      (fragment_message-IsMessage 12 first 7 300 (omega arith) (omega arith)) (omega arith, tt)
      (append-nil (encode_message (fragment_message 12 first 7 300) ++ (5 ∷ [])))).result

other_priority : priority 12 ≢ priority 13
unfolding priority Priority.from_u8 Priority.to_u8
other_priority e = absurd (omega (arith, ap Priority.to_u8 e))

push-get_buffer_example :
    get_buffer 13 (push 100 (batch first 300 (5 ∷ [])) idle).1 ≡ get_buffer 13 idle
push-get_buffer_example =
    push-get_buffer 100 (batch first 300 (5 ∷ [])) idle (fragment_message 12 first 7 300) 13 decoded
      (inl other_priority)

idle-IsBounded : IsBounded 100 idle
unfolding get_buffer slot Priority.index new_defrag len
idle-IsBounded r = go (congestion_control r) (priority r)
  where
    go : (c : CongestionControl) (p : Priority) → Within 100 (Priority.index (slot c idle) p)
    go CongestionControl.block high = omega arith
    go CongestionControl.block medium = omega arith
    go CongestionControl.block low = omega arith
    go CongestionControl.block background = omega arith
    go CongestionControl.drop high = omega arith
    go CongestionControl.drop medium = omega arith
    go CongestionControl.drop low = omega arith
    go CongestionControl.drop background = omega arith

push-IsBounded_example : IsBounded 100 (push 100 (batch first 300 (5 ∷ [])) idle).1
push-IsBounded_example = push-IsBounded 100 (batch first 300 (5 ∷ [])) idle idle-IsBounded
