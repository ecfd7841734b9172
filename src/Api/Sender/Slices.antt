-- ===== src/Api/Sender/Slices.antt =====
-- src/api/sender.rs: `write_all_vectored`, and the slices of batches.
use thubo.Prelude.{
  ℕ, zero, suc, ◌+◌, ◌-◌, List, [], ◌∷◌, Option, some, none, if◌then◌else◌, ◌==◌, leb, length, drop,
}
use thubo.Buffers.BoxBuf.{as_slice}
use thubo.Buffers.Bytes
use thubo.Collections.SingleOrVec
use thubo.Collections.SingleOrVec.{SingleOrVec}
use thubo.Pipeline.Tx.{WriteBatch}
use thubo.Api.Io.{AsyncWrite}

pub data IoError : Type 0 where
  write_zero failed : IoError

-- `Ok`, an error or the end of the timeout, or still at it
pub data Io : Type 0 where
  ok : ℕ → Io
  err : IoError → Io
  running : Io

-- `IoSlice::advance_slices`, which panics for more bytes than there are.
unfoldable pub advance_slices : ℕ → List (List ℕ) → List (List ℕ)
advance_slices n [] = []
advance_slices n (s ∷ slices) =
    let rest = advance_slices (n - length s) slices in
    if leb (length s) n then rest else drop n s ∷ slices

module _ {W : Type 0} (io : AsyncWrite W) where
  -- A round of the loop: the writer's answer, and the rounds after it.
  unfoldable pub wrote : Option ℕ × W → (ℕ → W → Io × W) → Io × W
  wrote (none, w) rest = (err failed, w)
  wrote (some n, w) rest = if n == 0 then (err write_zero, w) else rest n w

  unfoldable pub write_all_vectored : ℕ → List (List ℕ) → ℕ → W → Io × W
  unfolding wrote advance_slices
  write_all_vectored fuel [] written w = (ok written, w)
  write_all_vectored zero (s ∷ slices) written w = (running, w)
  write_all_vectored (suc fuel) (s ∷ slices) written w =
      wrote (io.write_vectored (s ∷ slices) w)
        (λ n w'. write_all_vectored fuel (advance_slices n (s ∷ slices)) (written + n) w')

-- The slices of a batch: its frame, and those of its fragment.
unfoldable pub add_slices : WriteBatch → SingleOrVec (List ℕ) → SingleOrVec (List ℕ)
unfolding as_slice
add_slices batch slices =
    let slices' = SingleOrVec.push (as_slice batch.frame) slices in
    if Bytes.is_empty batch.fragment then slices' else SingleOrVec.extend batch.fragment slices'

unfoldable pub gather : List WriteBatch → SingleOrVec (List ℕ) → SingleOrVec (List ℕ)
unfolding add_slices
gather [] slices = slices
gather (batch ∷ batches) slices = gather batches (add_slices batch slices)
