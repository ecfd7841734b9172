-- ===== src/Tests.antt =====
-- Concrete inputs, and the theorems of the development applied to them.
pub mod Receiving
pub mod Sending
pub mod Rings
pub mod Entry
pub mod Signals
pub mod Transfers
pub mod Pulling
pub mod Streams
pub mod Outgoing
pub mod Links
use Prim.Native.Nat.{Ordering}
use thubo.Prelude.{
  ℕ, ◌+◌, ◌≤◌, ◌<◌, ◌≡◌, refl, ◌++◌, ◌⊎◌, List, [], ◌∷◌, some, none, true, false, length, arith,
  ◌↔◌, if◌then◌else◌, ltb, ◌^◌, replicate,
}
use thubo.Buffers.Interface.{joined}
use thubo.Buffers.BoxBuf.{
  BoxBuf, box_buf_writer, with_capacity, as_slice, remaining, mark, rewind, write_exact,
}
use thubo.Buffers.BoxBuf.Lawful.{IsValid, box_buf_lawful, as_slice-write_exact, rewind-write_exact}
use thubo.Buffers.Slice.{slice_reader}
use thubo.Buffers.Slice.Lawful.{slice_lawful}
use thubo.Protocol.Priority.{low}
use thubo.Protocol.CongestionControl
use thubo.Protocol.Qos.{IsQos, with_priority, with_express, with_congestion_control}
use thubo.Protocol.Qos.Fields.{
  settings, settings-with_priority, settings-with_express, settings-with_congestion_control,
  settings-injective,
}
use thubo.Protocol.SeqNum.{cmp, distance}
use thubo.Protocol.SeqNum.Order.{advance, cmp-advance, cmp_antisymm}
use thubo.Protocol.Message
use thubo.Protocol.Message.{Message, new_header, new_fragment, fragment}
use thubo.Codec.Outcome.{Yields, Written}
use thubo.Codec.Vle.{vle_len, fill, read_u64}
use thubo.Codec.Vle.Encoding.{encoding, vle_len-eq-length}
use thubo.Codec.Vle.Fill.{fill-eq-encoding}
use thubo.Codec.Vle.Decode.{read_u64-encoding}
use thubo.Codec.Values.{write_bytes, read_bytes, w_len_seq_num}
use thubo.Codec.Values.RoundTrip.{encode_slice, write_bytes-Written, read_bytes-encoding}
use thubo.Codec.Messages.{write_message, read_message, w_len_message}
use thubo.Codec.Messages.RoundTrip.{
  IsMessage, encode_message, w_len_message-eq-length, write_message-Written, read_message-encoding,
}
use thubo.Codec.Messages.Wire.{read_message-write_message}

-- The last fragment of a message.
abbrev last_fragment : Message
last_fragment = record { header = new_header 12 300; body = fragment (new_fragment Message.last 7) }

last_fragment-IsMessage : IsMessage last_fragment
unfolding new_fragment
last_fragment-IsMessage = (omega arith, (Message.fragment-id Message.last 7, small))
  where
    small : (new_fragment Message.last 7).frag_id < 2 ^ 28
    small = omega arith

-- A buffer of 16 bytes, with three written.
abbrev used : BoxBuf
used = record { buffer = 1 ∷ 2 ∷ 3 ∷ replicate 13 0; len = 3 }

used-IsValid : IsValid used
used-IsValid = omega arith

read_message-write_message_example :
    read_message (as_slice (write_message last_fragment (with_capacity 16)).1)
    ≡ (some last_fragment, [])
unfolding w_len_message w_len_seq_num vle_len new_fragment
read_message-write_message_example =
    read_message-write_message last_fragment 16 last_fragment-IsMessage (omega arith)

w_len_message-eq-length_example :
    w_len_message last_fragment ≡ length (encode_message last_fragment)
w_len_message-eq-length_example = w_len_message-eq-length last_fragment last_fragment-IsMessage

write_message-Written_example :
    Written box_buf_lawful used (encode_message last_fragment) (write_message last_fragment used) tt
unfolding box_buf_lawful
write_message-Written_example =
    write_message-Written box_buf_lawful last_fragment used last_fragment-IsMessage used-IsValid

read_message-encoding_example :
    Yields slice_lawful
      (read_message (encode_message last_fragment ++ (9 ∷ [])))
      last_fragment
      (9 ∷ [])
unfolding slice_lawful
read_message-encoding_example =
    read_message-encoding slice_lawful last_fragment (encode_message last_fragment ++ (9 ∷ []))
      (9 ∷ []) last_fragment-IsMessage tt refl

read_bytes-encoding_example :
    (cs : List (List ℕ)) × (joined cs ≡ 5 ∷ 6 ∷ 7 ∷ [])
    × Yields slice_lawful (read_bytes (encode_slice (5 ∷ 6 ∷ 7 ∷ []) ++ (9 ∷ []))) cs (9 ∷ [])
unfolding slice_lawful
read_bytes-encoding_example =
    read_bytes-encoding slice_lawful (5 ∷ 6 ∷ 7 ∷ []) (encode_slice (5 ∷ 6 ∷ 7 ∷ []) ++ (9 ∷ []))
      (9 ∷ []) (omega arith) tt refl

read_u64-encoding_example :
    Yields slice_lawful (read_u64 (encoding 16384 ++ (9 ∷ []))) 16384 (9 ∷ [])
unfolding slice_lawful
read_u64-encoding_example =
    read_u64-encoding slice_lawful 16384 (encoding 16384 ++ (9 ∷ [])) (9 ∷ []) (omega arith) tt refl

fill-eq-encoding_example : fill 300 (0 ∷ 0 ∷ []) ≡ (encoding 300, vle_len 300)
unfolding vle_len
fill-eq-encoding_example = fill-eq-encoding 300 (0 ∷ 0 ∷ []) (omega arith) refl

cmp-advance_example :
    cmp 268435455 (advance 2 268435455) ≡ (if ltb 2 (2 ^ 27) then Ordering.lt else Ordering.gt)
cmp-advance_example = cmp-advance 2 268435455 (omega arith) (omega arith) (omega arith)
