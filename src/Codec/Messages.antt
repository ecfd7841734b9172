-- ===== src/Codec/Messages.antt =====
-- src/codec/mod.rs, frame.rs and fragment.rs: the headers of a batch.
pub mod RoundTrip
pub mod Wire
use thubo.Prelude.{
  ℕ, ◌+◌, bit_and, some, none, Op, ◌>>=◌, ◌>>◌, pure, fail, not, ◌==◌, if◌then◌else◌,
}
use thubo.Buffers.Interface.{Writer, Reader}
use thubo.Protocol.Message.{
  FrameHeader, FragmentHeader, MessageHeader, MessageBody, Message, frame, fragment, id_mask,
  frame_id, fragment_id, frame_from_u8, fragment_from_parts, header_from_parts,
}
use thubo.Codec.Vle.{write_u8, read_u8}
use thubo.Codec.Values.{w_len_seq_num, write_seq_num, read_seq_num}

-- `LCodec`
unfoldable pub w_len_frame : FrameHeader → ℕ
w_len_frame f = 1

unfoldable pub w_len_fragment : FragmentHeader → ℕ
w_len_fragment f = 1 + w_len_seq_num f.frag_id

unfoldable pub w_len_header : MessageHeader → ℕ
w_len_header h = 1 + w_len_seq_num h.seq_num

unfoldable pub w_len_body : MessageBody → ℕ
unfolding w_len_frame w_len_fragment
w_len_body (frame f) = w_len_frame f
w_len_body (fragment f) = w_len_fragment f

unfoldable pub w_len_message : Message → ℕ
unfolding w_len_header w_len_body
w_len_message m = w_len_header m.header + w_len_body m.body

module _ {W : Type 0} ⦃w : Writer W⦄ where
  unfoldable pub write_frame : FrameHeader → Op W (Unit {0})
  write_frame f = do write_u8 f.header; pure tt

  unfoldable pub write_fragment : FragmentHeader → Op W (Unit {0})
  write_fragment f = do write_u8 f.header; write_seq_num f.frag_id; pure tt

  unfoldable pub write_header : MessageHeader → Op W (Unit {0})
  write_header h = do write_u8 h.header; write_seq_num h.seq_num; pure tt

  unfoldable pub write_body : MessageBody → Op W (Unit {0})
  unfolding write_frame write_fragment
  write_body (frame f) = write_frame f
  write_body (fragment f) = write_fragment f

  unfoldable pub write_message : Message → Op W (Unit {0})
  unfolding write_header write_body
  write_message m = do write_header m.header; write_body m.body; pure tt

module _ {R : Type 0} ⦃r : Reader R⦄ where
  -- `RCodec<FrameHeader>` and `RCodec<FragmentHeader>` for `ThuboCodecHeader`, which holds the byte
  -- that was read.
  unfoldable pub read_frame_body : ℕ → Op R FrameHeader
  read_frame_body header = pure (frame_from_u8 header)

  unfoldable pub read_fragment_body : ℕ → Op R FragmentHeader
  read_fragment_body header = do frag_id ← read_seq_num; pure (fragment_from_parts header frag_id)

  -- The same for `ThuboCodec`
  unfoldable pub read_frame : Op R FrameHeader
  unfolding read_frame_body
  read_frame = do
    header ← read_u8
    if not (bit_and header id_mask == frame_id) then fail else read_frame_body header

  unfoldable pub read_fragment : Op R FragmentHeader
  unfolding read_fragment_body
  read_fragment = do
    header ← read_u8
    if not (bit_and header id_mask == fragment_id) then fail else read_fragment_body header

  unfoldable pub read_header : Op R MessageHeader
  read_header = do header ← read_u8; seq_num ← read_seq_num; pure (header_from_parts header seq_num)

  unfoldable pub read_frame_case : ℕ → Op R MessageBody
  unfolding read_frame_body
  read_frame_case header = do f ← read_frame_body header; pure (frame f)

  unfoldable pub read_fragment_case : ℕ → Op R MessageBody
  unfolding read_fragment_body
  read_fragment_case header = do f ← read_fragment_body header; pure (fragment f)

  -- The `match` on the message type
  unfoldable pub read_body_case : ℕ → Op R MessageBody
  unfolding read_frame_case read_fragment_case
  read_body_case header =
      if bit_and header id_mask == frame_id
      then read_frame_case header
      else if bit_and header id_mask == fragment_id
      then read_fragment_case header
      else fail

  unfoldable pub read_body : Op R MessageBody
  unfolding read_body_case
  read_body = do header ← read_u8; read_body_case header

  unfoldable pub read_message : Op R Message
  unfolding read_header read_body
  read_message = do
    header ← read_header
    body ← read_body
    pure (record { header = header; body = body })
