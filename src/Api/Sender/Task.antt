-- ===== src/Api/Sender/Task.antt =====
-- src/api/sender.rs: `write_task`, with its macro `write_batches`.
use thubo.Prelude.{
  ℕ, zero, suc, List, [], ◌∷◌, Option, some, none, Bool, true, false, if◌then◌else◌, ltb, length,
}
use thubo.Buffers.Interface.{joined}
use thubo.Collections.SingleOrVec
use thubo.Collections.SingleOrVec.{SingleOrVec}
use thubo.Collections.SingleOrVec.Iter.{collect, into_iter}
use thubo.Pipeline.RingBuf.Fifo.First.{total}
use thubo.Pipeline.Tx.{WriteBatch, to_le_bytes}
use thubo.Pipeline.Tx.Out.{StageOut, refill_notify, try_pull, drain}
use thubo.Api.Io.{AsyncWrite}
use thubo.Api.Sender.Slices.{Io, ok, err, failed, gather, write_all_vectored}

-- What `select!` gives in a round: the batch that `pull` returns, if it returns before the time for a
-- keep-alive is over, which depends on what the other tasks do meanwhile; that time is over; or the task is
-- cancelled.
pub data Event : Type 0 where
  pulled : (StageOut → Option WriteBatch × StageOut) → Event
  idle : Event
  cancelled : Event

-- `COALESCE_MAX_BATCHES`
abbrev pub coalesce_max_batches : ℕ
coalesce_max_batches = 8

unfoldable pub keep_batch :
    Option WriteBatch × StageOut
    → SingleOrVec WriteBatch
    → (SingleOrVec WriteBatch → StageOut → SingleOrVec WriteBatch × StageOut)
    → SingleOrVec WriteBatch × StageOut
keep_batch (none, s) batches rest = (batches, s)
keep_batch (some batch, s) batches rest = rest (SingleOrVec.push batch batches) s

-- The loop that takes the batches that are ready, in so many rounds at most. A pull goes through the
-- batches that are there at most once.
unfoldable pub coalesce : ℕ → SingleOrVec WriteBatch → StageOut → SingleOrVec WriteBatch × StageOut
unfolding keep_batch
coalesce zero batches s = (batches, s)
coalesce (suc rounds) batches s =
    if ltb (SingleOrVec.len batches) coalesce_max_batches
    then keep_batch (try_pull (suc (total s.ringbuf_inout)) s) batches (coalesce rounds)
    else (batches, s)

-- `for batch in $batches { pipeline_out.refill(batch) }`
unfoldable pub refill_each : List WriteBatch → StageOut → StageOut
unfolding refill_notify
refill_each [] s = s
refill_each (batch ∷ batches) s = refill_each batches (refill_notify batch s)

module _ {W : Type 0} (io : AsyncWrite W) where
  -- `flush`, and the batches go back to the pool.
  unfoldable pub flush_refill :
      Bool × W → SingleOrVec WriteBatch → ℕ → StageOut → Io × (W × StageOut)
  unfolding refill_each
  flush_refill (true, w) batches n s =
      (ok n, (w, refill_each (collect (suc (SingleOrVec.len batches)) (into_iter batches)) s))
  flush_refill (false, w) batches n s = (err failed, (w, s))

  unfoldable pub after_write : Io × W → SingleOrVec WriteBatch → StageOut → Io × (W × StageOut)
  unfolding flush_refill
  after_write (ok n, w) batches s = flush_refill (io.flush w) batches n s
  after_write (r, w) batches s = (r, (w, s))

  -- `write_batches!`
  unfoldable pub write_batches : SingleOrVec WriteBatch → W × StageOut → Io × (W × StageOut)
  unfolding gather write_all_vectored after_write
  write_batches batches (w, s) =
      let slices = SingleOrVec.as_slice (gather (SingleOrVec.as_slice batches) SingleOrVec.new) in
      after_write (write_all_vectored io (suc (length (joined slices))) slices 0 w) batches s

  -- Whether the loop has ended, or waits for what comes next.
  unfoldable pub after_batches :
      Io × (W × StageOut) → (W × StageOut → Bool × (W × StageOut)) → Bool × (W × StageOut)
  after_batches (ok n, x) rest = rest x
  after_batches (r, x) rest = (true, x)

  unfoldable pub send_pulled :
      Option WriteBatch × StageOut
      → W
      → (W × StageOut → Bool × (W × StageOut))
      → Bool × (W × StageOut)
  unfolding coalesce write_batches after_batches
  send_pulled (none, s) w rest = (true, (w, s))
  send_pulled (some batch, s) w rest =
      let (batches, s') = coalesce coalesce_max_batches (SingleOrVec.single batch) s in
      after_batches (write_batches batches (w, s')) rest

  unfoldable pub after_keep_alive :
      Bool × W → StageOut → (W × StageOut → Bool × (W × StageOut)) → Bool × (W × StageOut)
  after_keep_alive (true, w) s rest = rest (w, s)
  after_keep_alive (false, w) s rest = (true, (w, s))

  -- The main loop of `write_task`.
  unfoldable pub main_loop : List Event → W × StageOut → Bool × (W × StageOut)
  unfolding send_pulled after_keep_alive
  main_loop [] x = (false, x)
  main_loop (pulled pull ∷ events) x = send_pulled (pull x.1) x.0 (main_loop events)
  main_loop (idle ∷ events) x =
      after_keep_alive (io.write_all (to_le_bytes 0) x.0) x.1 (main_loop events)
  main_loop (cancelled ∷ events) x = (true, x)

  unfoldable pub next_drained : Io × (W × StageOut) → (W × StageOut → W × StageOut) → W × StageOut
  next_drained (ok n, x) rest = rest x
  next_drained (r, x) rest = x

  -- The loop over the batches that are left; it ends at the first that cannot be written.
  unfoldable pub write_drained : List WriteBatch → W × StageOut → W × StageOut
  unfolding write_batches next_drained
  write_drained [] x = x
  write_drained (batch ∷ batches) x =
      next_drained (write_batches (SingleOrVec.single batch) x) (write_drained batches)

  unfoldable pub finish : Bool × (W × StageOut) → (StageOut → StageOut) → Option (W × StageOut)
  unfolding write_drained drain
  finish (false, x) meanwhile = none
  finish (true, (w, s)) meanwhile =
      let (batches, s') = drain (meanwhile s) in some (write_drained batches (w, s'))

  -- `write_task`, with what the other tasks do of the stage until `drain` has all locks. It returns only
  -- when the main loop has ended.
  unfoldable pub write_task :
      List Event → (StageOut → StageOut) → W × StageOut → Option (W × StageOut)
  unfolding main_loop finish
  write_task events meanwhile x = finish (main_loop events x) meanwhile
