-- ===== src/Codec/Messages/Wire.antt =====
-- A batch that is written to a `BoxBuf` and read back as a slice.
use thubo.Prelude.{
  ℕ, ◌≤◌, ◌≡◌, ap₂, ◌∙◌, [], some, arith, length, sym, append-nil, length-replicate,
}
use thubo.Buffers.BoxBuf.{box_buf_writer, with_capacity, as_slice, remaining, capacity}
use thubo.Buffers.BoxBuf.Lawful.{box_buf_lawful}
use thubo.Buffers.Slice.Lawful.{slice_lawful}
use thubo.Buffers.Slice.{slice_reader}
use thubo.Protocol.Message.{Message}
use thubo.Codec.Messages.{write_message, read_message, w_len_message}
use thubo.Codec.Messages.RoundTrip.{
  IsMessage, write_message-Writes, read_message-encoding, encode_message, w_len_message-eq-length,
}

-- For the headers that the source builds and a capacity of at least `w_len` bytes: a message that is
-- written to a new buffer is what `read` returns of the contents, with nothing behind it.
pub read_message-write_message :
    (m : Message) (n : ℕ)
    → IsMessage m
    → w_len_message m ≤ n
    → read_message (as_slice (write_message m (with_capacity n)).1) ≡ (some m, [])
unfolding with_capacity remaining capacity as_slice box_buf_lawful slice_lawful
read_message-write_message m n h fits =
    let room : length (encode_message m) ≤ remaining (with_capacity n) =
      omega (arith, w_len_message-eq-length m h, length-replicate {A = ℕ} n 0) in
    let w = (write_message-Writes box_buf_lawful m (with_capacity n) h (omega arith)).fits room in
    let y =
      read_message-encoding slice_lawful m (as_slice (write_message m (with_capacity n)).1) [] h tt
        (w.bytes ∙ sym (append-nil (encode_message m))) in
    ap₂ (λ a b. (a, b)) y.result y.rest
