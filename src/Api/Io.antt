-- ===== src/Api/Io.antt =====
-- The asynchronous byte streams of the runtime that src/api writes to and reads from: an interface, and
-- what its documentation promises.
use thubo.Prelude.{ℕ, suc, ◌≤◌, ◌<◌, ◌≡◌, List, ◌++◌, Option, some, none, Bool, true, length, take}
use thubo.Buffers.Interface.{joined}

-- What `AsyncWriteExt` gives on a writer with the state `W`. A call that fails, or whose timeout ends
-- first, has no result.
pub record AsyncWrite (W : Type 0) : Type 0 where
  pub write_vectored : List (List ℕ) → W → Option ℕ × W
  pub write_all : List ℕ → W → Bool × W
  pub flush : W → Bool × W

-- `written` are the bytes that the stream has taken.
pub record IsLawfulWrite {W : Type 0} (io : AsyncWrite W) (written : W → List ℕ) : Type 0 where
  -- The bytes that it counts are the next ones of the slices.
  pub taken :
      (slices : List (List ℕ)) (w : W) (n : ℕ)
      → (io.write_vectored slices w).0 ≡ some n
      → (n ≤ length (joined slices))
        × (written (io.write_vectored slices w).1 ≡ written w ++ take n (joined slices))
  -- With no result, none was written.
  pub not_taken :
      (slices : List (List ℕ)) (w : W)
      → (io.write_vectored slices w).0 ≡ none
      → written (io.write_vectored slices w).1 ≡ written w
  pub all_taken :
      (bytes : List ℕ) (w : W)
      → (io.write_all bytes w).0 ≡ true
      → written (io.write_all bytes w).1 ≡ written w ++ bytes
  pub flushed : (w : W) → written (io.flush w).1 ≡ written w

-- A writer that stays open and takes at least a byte, if there is one.
pub record IsOpen {W : Type 0} (io : AsyncWrite W) : Type 0 where
  pub accepts :
      (slices : List (List ℕ)) (w : W)
      → 0 < length (joined slices)
      → (n : ℕ) × ((io.write_vectored slices w).0 ≡ some (suc n))
  pub accepts_all : (bytes : List ℕ) (w : W) → (io.write_all bytes w).0 ≡ true
  pub flushes : (w : W) → (io.flush w).0 ≡ true

-- What `AsyncReadExt` gives on a reader with the state `R`; no bytes at the end of the stream, on an
-- error, a timeout or when the task is cancelled.
pub record AsyncRead (R : Type 0) : Type 0 where
  pub read_exact : ℕ → R → Option (List ℕ) × R

-- `ahead` are the bytes that are still to come.
pub record IsLawfulRead {R : Type 0} (io : AsyncRead R) (ahead : R → List ℕ) : Type 0 where
  pub filled :
      (xs ys : List ℕ) (r : R)
      → ahead r ≡ xs ++ ys
      → ((io.read_exact (length xs) r).0 ≡ some xs) × (ahead (io.read_exact (length xs) r).1 ≡ ys)
  pub ended : (n : ℕ) (r : R) → length (ahead r) < n → (io.read_exact n r).0 ≡ none
