-- ===== src/Pipeline/Tx/Batch.antt =====
-- What a batch is on the wire, and what the backoff word holds.
use thubo.Prelude.{
  ℕ, ◌+◌, ◌-◌, ◌*◌, ◌/◌, ◌%◌, ◌^◌, ◌≤◌, ◌<◌, bit_or, ◌≡◌, ap, ap₂, ◌∙◌, [], ◌∷◌, ◌++◌, some, arith,
  length, take, drop, length-append, length-take, length-drop, length-replicate, take-append,
  replicate,
}
use thubo.Prelude.Bits.{bit_or_low}
use thubo.Buffers.Bytes
use thubo.Buffers.BoxBuf.{BoxBuf, as_slice, remaining, capacity, with_capacity}
use thubo.Buffers.BoxBuf
use thubo.Buffers.BoxBuf.Lawful.{
  IsValid, slice-write_exact-fits, written, written_facts, write_exact_result,
}
use thubo.Pipeline.Tx.{
  AtomicBackoff, start, update, load, WriteBatch, to_le_bytes, batch_len, len, write_len, clear,
  alloc,
}

-- For a time below 2 ^ 48 microseconds and a length below 2 ^ 16: the first `update` after `start` is what
-- `load` returns, with the time.
pub load-update :
    (micros bytes : ℕ) (v : AtomicBackoff)
    → micros < 2 ^ 48
    → bytes < 2 ^ 16
    → load (update bytes (start micros v)) ≡ (bytes, micros)
unfolding load update start
load-update micros bytes v hm hb =
    let word : start micros v ≡ micros * 2 ^ 16 = unfold start in omega arith in
    let sum = ap (λ t. bit_or t bytes) word ∙ bit_or_low 16 micros bytes hb in
    ap₂ (λ a b. (a, b)) (ap (λ t. t % 2 ^ 16) sum ∙ omega arith)
      (ap (λ t. t / 2 ^ 16) sum ∙ omega arith)

-- For a batch whose frame is within its capacity and has at least the two bytes of the length: `write_len`
-- puts the length of the batch there, low byte first, and leaves what is behind them.
pub as_slice-write_len :
    (b : WriteBatch)
    → IsValid b.frame
    → batch_len ≤ b.frame.len
    → as_slice (write_len b).frame ≡ to_le_bytes (len b) ++ drop batch_len (as_slice b.frame)
unfolding write_len as_slice
as_slice-write_len b v h =
    let w =
      slice-write_exact-fits (to_le_bytes (len b))
        (record { written = []; slice = take b.frame.len b.frame.buffer })
        (omega (arith, length-take b.frame.len b.frame.buffer)) in
    let front = to_le_bytes (len b) ++ drop batch_len (take b.frame.len b.frame.buffer) in
    ap (λ o. take b.frame.len (BoxBuf.memory o.1 ++ drop b.frame.len b.frame.buffer)) w
    ∙ take-append b.frame.len front _ (
        omega (
          arith,
          length-append (to_le_bytes (len b)) (drop batch_len (take b.frame.len b.frame.buffer)),
          length-drop batch_len (take b.frame.len b.frame.buffer),
          length-take b.frame.len b.frame.buffer,
        ))

-- A new batch is empty, its frame has only the room for the length in it, and as much room as the
-- capacity behind that.
pub alloc_lem :
    (n : ℕ)
    → (len (alloc n) ≡ 0)
      × (as_slice (alloc n).frame ≡ 0 ∷ 0 ∷ [])
      × (remaining (alloc n).frame ≡ n)
      × IsValid (alloc n).frame
unfolding alloc clear len with_capacity BoxBuf.clear as_slice remaining capacity Bytes.len
alloc_lem n =
    let b : BoxBuf = record { buffer = replicate (batch_len + n) 0; len = 0 } in
    let size : length b.buffer ≡ batch_len + n = length-replicate {A = ℕ} (batch_len + n) 0 in
    let room : length (to_le_bytes 0) ≤ remaining b = omega arith in
    let (bytes, left, valid) = written_facts (to_le_bytes 0) b (omega arith) room in
    let frame : BoxBuf.write_exact (to_le_bytes 0) b ≡ (some tt, written (to_le_bytes 0) b) =
      write_exact_result (to_le_bytes 0) b room in
    let at : (alloc n).frame ≡ written (to_le_bytes 0) b = ap (λ o. o.1) frame in
    (
      ap (λ f. (f.len - batch_len + 0) % 2 ^ 16) at,
      ap as_slice at ∙ bytes,
      ap remaining at ∙ omega arith,
      rw at valid,
    )
