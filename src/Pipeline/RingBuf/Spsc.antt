-- ===== src/Pipeline/RingBuf/Spsc.antt =====
-- src/pipeline/ringbuf/spsc.rs: one writer and one reader, each for all priorities.
pub mod View
use mathlib.Core.Option
use thubo.Prelude.{ℕ, List, [], ◌∷◌, Option, some, none}
use thubo.Protocol.Priority
use thubo.Protocol.Priority.{Priority, PerPriority}
use thubo.Pipeline.RingBuf.Fifo
use thubo.Pipeline.RingBuf.Fifo.{Queue, initialised}
use thubo.Pipeline.RingBuf.Ring
use thubo.Pipeline.RingBuf.Ring.{MaybeUninit, RingBuffer, s}
use thubo.Pipeline.RingBuf.Writer
use thubo.Pipeline.RingBuf.Writer.{RingBufferWriter}
use thubo.Pipeline.RingBuf.Reader
use thubo.Pipeline.RingBuf.Reader.{RingBufferReader}

pub record Spsc (T : Type 0) : Type 0 where
  pub ring : RingBuffer T
  pub writer : RingBufferWriter
  pub reader : RingBufferReader

abbrev pub ends : {T : Type 0} → RingBuffer T → Spsc T
ends ring = record { ring = ring; writer = Writer.new s; reader = Reader.new s }

unfoldable pub ringbuffer_spsc : {T : Type 0} → ℕ → Option (Spsc T)
ringbuffer_spsc capacity = Option.map ends (Ring.new capacity)

pub data Call (T : Type 0) : Type 0 where
  push : Priority → T → Call T
  pull : Call T

pub data Answer (T : Type 0) : Type 0 where
  given_back : Option T → Answer T
  pulled : Option (MaybeUninit T) → Answer T

module _ {T : Type 0} where
  unfoldable pub step : Call T → Spsc T → Answer T × Spsc T
  step (push p t) x =
      let (back, y) = Writer.push p t x.writer x.ring in
      (given_back back, record x { writer = y.0; ring = y.1 })
  step pull x =
      let (t, y) = Reader.pull x.reader x.ring in (pulled t, record x { reader = y.0; ring = y.1 })

  unfoldable pub run : List (Call T) → Spsc T → List (Answer T) × Spsc T
  run [] x = ([], x)
  run (c ∷ cs) x = let (a, y) = step c x in let (as', z) = run cs y in (a ∷ as', z)

  -- The same calls on four queues of at most `c` elements.
  unfoldable pub fifo_step : ℕ → Call T → PerPriority (Queue T) → Answer T × PerPriority (Queue T)
  fifo_step c (push p t) qs =
      let (back, q) = Fifo.push c t (Priority.index qs p) in
      (given_back back, Priority.index_set qs p q)
  fifo_step c pull qs =
      let (t, qs') = Fifo.pull_first Priority.all qs in (pulled (initialised t), qs')

  unfoldable pub fifo_run :
      ℕ → List (Call T) → PerPriority (Queue T) → List (Answer T) × PerPriority (Queue T)
  fifo_run c [] qs = ([], qs)
  fifo_run c (x ∷ xs) qs =
      let (a, qs') = fifo_step c x qs in let (as', z) = fifo_run c xs qs' in (a ∷ as', z)
