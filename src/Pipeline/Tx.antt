-- ===== src/Pipeline/Tx.antt =====
-- src/pipeline/tx.rs: the backoff word and the batches of the sending side.
pub mod Batch
pub mod Encode
pub mod Stage
pub mod Push
pub mod Packed
pub mod Acquire
pub mod In
pub mod Refill
pub mod Out
pub mod Ready
use thubo.Prelude.{
  ℕ, ◌+◌, ◌-◌, ◌*◌, ◌/◌, ◌%◌, ◌^◌, bit_or, Bool, List, [], ◌∷◌, ◌++◌, Option, none, ◌==◌, drop,
}
use thubo.Protocol.Qos
use thubo.Protocol.Qos.{Qos}
use thubo.Buffers.Slice
use thubo.Buffers.BoxBuf
use thubo.Buffers.BoxBuf.{BoxBuf, with_capacity, as_slice, memory}
use thubo.Buffers.Bytes
use thubo.Buffers.Bytes.{Bytes}

-- `AtomicBackoff`: the time of the first write in microseconds, above the 16 bits of a batch's length.
abbrev pub AtomicBackoff : Type 0
AtomicBackoff = ℕ

abbrev pub clear_backoff : AtomicBackoff → AtomicBackoff
clear_backoff v = 0

-- `as_micros() as u64` and the shift drop what is above 64 bits.
unfoldable pub start : ℕ → AtomicBackoff → AtomicBackoff
start micros v = micros % 2 ^ 64 * 2 ^ 16 % 2 ^ 64

unfoldable pub update : ℕ → AtomicBackoff → AtomicBackoff
update bytes v = bit_or v bytes

unfoldable pub load : AtomicBackoff → ℕ × ℕ
load v = (v % 2 ^ 16, v / 2 ^ 16)

-- `WriteBatchHeap`; the flag that the fragments of a message share is the name of it.
pub record WriteBatch : Type 0 where
  pub frame : BoxBuf
  pub fragment : Bytes
  pub qos : Qos
  pub drop_flag : Option ℕ

-- `WriteBatch::BATCH_LEN`
abbrev pub batch_len : ℕ
batch_len = 2

-- `to_le_bytes` of a u16
abbrev pub to_le_bytes : ℕ → List ℕ
to_le_bytes x = x % 256 ∷ x / 256 ∷ []

-- `unwrap` on the write of the two bytes panics on a buffer of fewer, which `alloc` does not make.
unfoldable pub clear : WriteBatch → WriteBatch
unfolding BoxBuf.clear BoxBuf.write_exact
clear b = record b {
  frame = (BoxBuf.write_exact (to_le_bytes 0) (BoxBuf.clear b.frame)).1;
  fragment = [];
  drop_flag = none;
}

unfoldable pub alloc : ℕ → WriteBatch
unfolding clear with_capacity Qos.default
alloc capacity = clear (record {
  frame = with_capacity (batch_len + capacity);
  fragment = [];
  qos = Qos.default;
  drop_flag = none;
})

-- `WriteBatch::len`, cut to a `BatchSize`
unfoldable pub len : WriteBatch → ℕ
unfolding Bytes.len
len b = (b.frame.len - batch_len + Bytes.len b.fragment) % 2 ^ 16

unfoldable pub is_empty : WriteBatch → Bool
unfolding len
is_empty b = len b == 0

-- `WriteBatch::write_len`: the length is written over the first bytes of the frame.
unfoldable pub write_len : WriteBatch → WriteBatch
unfolding len as_slice Slice.write_exact
write_len b =
    let w =
      (Slice.write_exact (to_le_bytes (len b))
        (record { written = []; slice = as_slice b.frame })).1 in
    record b { frame = record b.frame { buffer = memory w ++ drop b.frame.len b.frame.buffer } }
