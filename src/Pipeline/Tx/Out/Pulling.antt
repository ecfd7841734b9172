-- ===== src/Pipeline/Tx/Out/Pulling.antt =====
-- src/pipeline/tx.rs: PipelineTxOut::pull, with its backoff.
use Prim.Native.Nat.{compare, Ordering}
use thubo.Prelude.{
  ℕ, ◌+◌, ◌-◌, ◌%◌, ◌^◌, List, [], ◌∷◌, Option, some, none, Bool, true, false, ◌&&◌, if◌then◌else◌,
  ltb,
}
use thubo.Protocol.Priority
use thubo.Protocol.Priority.{Priority, PerPriority}
use thubo.Pipeline.Status
use thubo.Pipeline.RingBuf.Fifo
use thubo.Pipeline.RingBuf.Fifo.{Queue}
use thubo.Pipeline.RingBuf.Reader.{Pull, got, booked, nothing}
use thubo.Pipeline.Tx
use thubo.Pipeline.Tx.{WriteBatch, AtomicBackoff, write_len}
use thubo.Pipeline.Tx.Out.{StageOut, is_dropped, refill_notify}

-- What the loop works on: the queues, the backoff words, and its own variables.
pub record State : Type 0 where
  pub out : StageOut
  pub words : PerPriority AtomicBackoff
  pub booked_len : PerPriority ℕ
  pub backoff : Bool
  pub backoff_num : PerPriority ℕ

abbrev pub zeros : PerPriority ℕ
zeros = record { at_high = 0; at_medium = 0; at_low = 0; at_background = 0 }

-- The variables as they are at the start, and when no priority has anything.
unfoldable pub reset : State → State
reset s = record s { booked_len = zeros; backoff = false; backoff_num = zeros }

-- What a round meets: what the other tasks do of the queues and the words while it yields or waits, the
-- time in microseconds, whether `try_lock` gets the lock, and whether the wait ends by a notification.
pub record Turn : Type 0 where
  pub meanwhile : StageOut × PerPriority AtomicBackoff → StageOut × PerPriority AtomicBackoff
  pub elapsed : ℕ
  pub locked : Bool
  pub woken : Bool

-- What the other tasks do, which see nothing of the loop's own variables
unfoldable pub others_do : Turn → State → State
others_do t s =
    let (out, words) = t.meanwhile (s.out, s.words) in record s { out = out; words = words }

pub data Next : Type 0 where
  returned : Option WriteBatch → Next
  again : Next

unfoldable pub pulled : WriteBatch → Bool × StageOut → State → Next × State
pulled b (true, out) s = (again, record s { out = refill_notify b out })
pulled b (false, out) s = (returned (some (write_len b)), record s { out = out })

-- The lock, and the flush of the stage
unfoldable pub flush_stage : Bool → Priority → State → State
flush_stage false p s = s
flush_stage true p s =
    let q = Fifo.commit (Priority.index s.out.ringbuf_inout p) in
    record s { out = record s.out { ringbuf_inout = Priority.index_set s.out.ringbuf_inout p q } }

-- A batch that has not grown is pulled at once, and one that has when it is too old, which sets its
-- flush flag.
unfoldable pub check_age : ℕ → ℕ → ℕ → Priority → State → Bool × State
check_age max_batch_age elapsed first_write p s =
    if ltb max_batch_age (elapsed - first_write)
    then (
      true,
      record s { out = record s.out { status = (Status.set (Status.flush p) s.out.status).1 } },
    )
    else (false, s)

-- `match len.cmp(&old_len)`
unfoldable pub to_pull : ℕ → Turn → ℕ → Ordering → Priority → State → Bool × State
unfolding check_age
to_pull max_batch_age t first_write Ordering.lt p s = (false, s)
to_pull max_batch_age t first_write Ordering.eq p s = (true, s)
to_pull max_batch_age t first_write Ordering.gt p s =
    check_age max_batch_age t.elapsed first_write p s

-- `if !backoff`
unfoldable pub backoff_from : Bool → State → State
backoff_from true s = s
backoff_from false s = record s {
  backoff = true;
  out = record s.out { status = (Status.set Status.backoff s.out.status).1 };
}

-- The first booked batch of a row of rounds sets the flag.
unfoldable pub set_backoff : State → State
unfolding backoff_from
set_backoff s = backoff_from s.backoff s

-- A priority with a booked batch, after the yields
unfoldable pub after_yield : ℕ → Turn → Priority → State → Next × State
unfolding to_pull flush_stage Tx.load
after_yield max_batch_age t p s =
    let (len, first_write) = Tx.load (Priority.index s.words p) in
    let old_len = Priority.index s.booked_len p in
    let s' = record s {
      backoff_num =
          Priority.index_set s.backoff_num p ((Priority.index s.backoff_num p + 1) % 2 ^ 16);
      booked_len = Priority.index_set s.booked_len p len;
    } in
    let (pull, s'') = to_pull max_batch_age t first_write (compare len old_len) p s' in
    (again, flush_stage (pull && t.locked) p s'')

unfoldable pub waited : Bool → State → Next × State
waited true s = (again, s)
waited false s = (returned none, s)

-- No priority has a batch.
unfoldable pub wait : Turn → State → Next × State
unfolding reset waited others_do
wait t s =
    let s' = reset s in
    let status = (Status.unset Status.backoff s'.out.status).1 in
    waited t.woken (others_do t (record s' { out = record s'.out { status = status } }))

unfoldable pub at_priority :
    Pull WriteBatch × Queue WriteBatch
    → Priority
    → ℕ
    → Turn
    → State
    → (State → Next × State)
    → Next × State
unfolding pulled set_backoff after_yield others_do
at_priority (got b, q) p max_batch_age t s others =
    let out = record s.out { ringbuf_inout = Priority.index_set s.out.ringbuf_inout p q } in
    pulled b (is_dropped b out) s
at_priority (booked, q) p max_batch_age t s others =
    after_yield max_batch_age t p (others_do t (set_backoff s))
at_priority (nothing, q) p max_batch_age t s others = others s

-- `for p in Priority::ALL`
unfoldable pub visit : List Priority → ℕ → Turn → State → Next × State
unfolding at_priority wait
visit [] max_batch_age t s = wait t s
visit (p ∷ ps) max_batch_age t s =
    at_priority (Fifo.pull_priority (Priority.index s.out.ringbuf_inout p)) p max_batch_age t s
      (visit ps max_batch_age t)

unfoldable pub round : ℕ → Turn → State → Next × State
unfolding visit
round max_batch_age t s =
    if Status.any s.out.status Status.disabled
    then (returned none, s)
    else visit Priority.all max_batch_age t s

unfoldable pub and_then : Next × State → (State → Next × State) → Next × State
and_then (returned b, s) rest = (returned b, s)
and_then (again, s) rest = rest s

-- `PipelineTxOut::pull`, a round for each turn; `again` when it is still at it
unfoldable pub rounds : ℕ → List Turn → State → Next × State
unfolding round and_then
rounds max_batch_age [] s = (again, s)
rounds max_batch_age (t ∷ ts) s = and_then (round max_batch_age t s) (rounds max_batch_age ts)

unfoldable pub pull : ℕ → List Turn → State → Next × State
unfolding reset rounds
pull max_batch_age ts s = rounds max_batch_age ts (reset s)
