-- ===== src/Pipeline/Tx/Encode.antt =====
-- src/pipeline/tx.rs: what `StageInPrio::push` writes to the frame of a batch.
use thubo.Prelude.{ℕ, some, none, Bool, true, false, Op, ◌>>◌}
use thubo.Protocol.Message.{Message}
use thubo.Buffers.BoxBuf.{BoxBuf, mark, rewind, box_buf_writer}
use thubo.Buffers.Bytes.{Bytes}
use thubo.Codec.Vle.{write_u64}
use thubo.Codec.Values.{write_bytes}
use thubo.Codec.Messages.{write_message}
use thubo.Pipeline.Tx.{WriteBatch}

-- A frame header, and the message.
abbrev pub encode_frame : Message → Bytes → Op BoxBuf (Unit {0})
encode_frame m msg = write_message m >> write_bytes msg

-- A fragment header, and the length of the whole message.
abbrev pub encode_first : Message → ℕ → Op BoxBuf (Unit {0})
encode_first m n = write_message m >> write_u64 n

-- A write that is taken back when it fails.
unfoldable pub write_or_rewind : Op BoxBuf (Unit {0}) → WriteBatch → Bool × WriteBatch
write_or_rewind encode b =
    let (r, f) = encode b.frame in
    elim r [
      | some u ↦ (true, record b { frame = f })
      | none ↦ (false, record b { frame = rewind (mark b.frame) f })
    ]
