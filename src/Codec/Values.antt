-- ===== src/Codec/Values.antt =====
-- src/codec/core: sequence numbers, byte slices and vectors, chunks and buffers of chunks.
pub mod RoundTrip
use thubo.Prelude.{
  ℕ, ◌+◌, List, [], ◌∷◌, some, none, Op, ◌>>=◌, ◌>>◌, pure, length, ◌==◌, if◌then◌else◌,
}
use thubo.Buffers.Interface.{Writer, Reader}
use thubo.Buffers.Bytes
use thubo.Protocol.SeqNum
use thubo.Protocol.SeqNum.{SeqNum}
use thubo.Codec.Vle.{vle_len, write_u64, read_u32, read_usize}

-- `LCodec` for sequence numbers and for slices
unfoldable pub w_len_seq_num : SeqNum → ℕ
w_len_seq_num x = vle_len x

unfoldable pub w_len_slice : List ℕ → ℕ
w_len_slice x = vle_len (length x) + length x

unfoldable pub w_len_bytes : List (List ℕ) → ℕ
unfolding Bytes.len
w_len_bytes cs = vle_len (Bytes.len cs) + Bytes.len cs

module _ {W : Type 0} ⦃w : Writer W⦄ where
  unfoldable pub write_seq_num : SeqNum → Op W (Unit {0})
  write_seq_num x = write_u64 x

  -- `WCodec<&[u8]>`
  unfoldable pub write_slice : List ℕ → Op W (Unit {0})
  write_slice x = do write_u64 (length x); if length x == 0 then pure tt else w.write_exact x

  -- `Writer::write_chunk`, the default of the trait
  unfoldable pub write_chunk_data : List ℕ → Op W (Unit {0})
  write_chunk_data c = w.write_exact c

  -- `WCodec<&Chunk>`
  unfoldable pub write_chunk : List ℕ → Op W (Unit {0})
  unfolding write_chunk_data
  write_chunk c = do write_u64 (length c); write_chunk_data c

  -- The loop of `WCodec<&Bytes>`
  unfoldable pub write_chunks : List (List ℕ) → Op W (Unit {0})
  unfolding write_chunk_data
  write_chunks [] = pure tt
  write_chunks (c ∷ cs) = write_chunk_data c >> write_chunks cs

  -- `WCodec<&Bytes>`
  unfoldable pub write_bytes : List (List ℕ) → Op W (Unit {0})
  unfolding write_chunks Bytes.len
  write_bytes cs = do write_u64 (Bytes.len cs); write_chunks cs

module _ {R : Type 0} ⦃r : Reader R⦄ where
  unfoldable pub read_seq_num : Op R SeqNum
  read_seq_num = do x ← read_u32; pure (SeqNum.new x)

  -- `RCodec<Vec<u8>>`
  unfoldable pub read_vec : Op R (List ℕ)
  read_vec = do len ← read_usize; if len == 0 then pure [] else r.read_exact len

  -- `RCodec<Chunk>`
  unfoldable pub read_chunk : Op R (List ℕ)
  read_chunk = do len ← read_usize; r.read_chunk len

  -- `RCodec<Bytes>`: one view of the reader's current chunk if it holds all of it, and otherwise the
  -- chunks one by one. A reader that fails to take a contiguous chunk is used as it is left.
  unfoldable pub read_payload : ℕ → Op R (List (List ℕ))
  unfolding Bytes.extend
  read_payload len s =
      if len == 0
      then (some [], s)
      else let (c, s') = r.read_chunk_contiguous len s in
        elim c [
          | some chunk ↦ (some (chunk ∷ []), s')
          | none ↦
              let (cs, s'') = r.read_chunks len s' in
              elim cs [ none ↦ (none, s'') | some chunks ↦ (some (Bytes.extend [] chunks), s'') ]
        ]

  unfoldable pub read_bytes : Op R (List (List ℕ))
  unfolding read_payload
  read_bytes = do len ← read_usize; read_payload len
