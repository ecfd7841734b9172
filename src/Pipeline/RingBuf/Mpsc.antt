-- ===== src/Pipeline/RingBuf/Mpsc.antt =====
-- src/pipeline/ringbuf/mpsc.rs: a writer for each priority, and one reader of all. A run is a sequence of
-- calls of the five handles in the order in which they take effect.
pub mod View
pub mod Run
use mathlib.Core.Option
use thubo.Prelude.{ℕ, List, [], ◌∷◌, Option, some, none, Bool, true, false, if◌then◌else◌}
use thubo.Protocol.Priority
use thubo.Protocol.Priority.{Priority, PerPriority}
use thubo.Pipeline.RingBuf.Fifo
use thubo.Pipeline.RingBuf.Fifo.{Queue, initialised, pull_initialised}
use thubo.Pipeline.RingBuf.Ring
use thubo.Pipeline.RingBuf.Ring.{MaybeUninit, RingBuffer, s, m}
use thubo.Pipeline.RingBuf.Writer
use thubo.Pipeline.RingBuf.Writer.{RingBufferWriter}
use thubo.Pipeline.RingBuf.Reader
use thubo.Pipeline.RingBuf.Reader.{RingBufferReader, Pull}

pub record Mpsc (T : Type 0) : Type 0 where
  pub ring : RingBuffer T
  pub writers : PerPriority RingBufferWriter
  pub reader : RingBufferReader

abbrev pub handles : {T : Type 0} → RingBuffer T → Mpsc T
handles ring = record {
  ring = ring;
  writers = record {
    at_high = Writer.new m;
    at_medium = Writer.new m;
    at_low = Writer.new m;
    at_background = Writer.new m;
  };
  reader = Reader.new s;
}

unfoldable pub ringbuffer_mpsc : {T : Type 0} → ℕ → Option (Mpsc T)
ringbuffer_mpsc capacity = Option.map handles (Ring.new capacity)

-- `modify` and `commit` go through the reference that `peek` gives, when it gives one.
pub data Call (T : Type 0) : Type 0 where
  book : Priority → T → Call T
  modify : Priority → T → Call T
  commit : Priority → Call T
  pull : Call T
  pull_priority : Priority → Call T

pub data Answer (T : Type 0) : Type 0 where
  given_back : Option T → Answer T
  present : Bool → Answer T
  pulled : Option (MaybeUninit T) → Answer T
  looked : Pull (MaybeUninit T) → Answer T

module _ {T : Type 0} where
  -- The state after a call of the writer of `p`, and after one of the reader.
  abbrev pub by_writer : Priority → Mpsc T → RingBufferWriter → RingBuffer T → Mpsc T
  by_writer p x w ring = record x { writers = Priority.index_set x.writers p w; ring = ring }

  abbrev pub by_reader : Mpsc T → RingBufferReader → RingBuffer T → Mpsc T
  by_reader x r ring = record x { reader = r; ring = ring }

  unfoldable pub step : Call T → Mpsc T → Answer T × Mpsc T
  step (book p t) x =
      let (back, y) = Writer.book p t (Priority.index x.writers p) x.ring in
      (given_back back, by_writer p x y.0 y.1)
  step (modify p t) x =
      let w = Priority.index x.writers p in
      if Writer.peek p w
      then (present true, by_writer p x w (Writer.deref_mut p t w x.ring))
      else (present false, x)
  step (commit p) x =
      let w = Priority.index x.writers p in
      let y = Writer.commit p w x.ring in
      if Writer.peek p w then (present true, by_writer p x y.0 y.1) else (present false, x)
  step pull x = let (t, y) = Reader.pull x.reader x.ring in (pulled t, by_reader x y.0 y.1)
  step (pull_priority p) x =
      let (t, y) = Reader.pull_priority p x.reader x.ring in (looked t, by_reader x y.0 y.1)

  unfoldable pub run : List (Call T) → Mpsc T → List (Answer T) × Mpsc T
  run [] x = ([], x)
  run (c ∷ cs) x = let (a, y) = step c x in let (as', z) = run cs y in (a ∷ as', z)

  -- The same calls on four queues of at most `c` elements.
  unfoldable pub fifo_step : ℕ → Call T → PerPriority (Queue T) → Answer T × PerPriority (Queue T)
  fifo_step c (book p t) qs =
      let (back, q) = Fifo.book c t (Priority.index qs p) in
      (given_back back, Priority.index_set qs p q)
  fifo_step c (modify p t) qs = (
    present (Fifo.is_held (Priority.index qs p)),
    Priority.index_set qs p (Fifo.modify t (Priority.index qs p)),
  )
  fifo_step c (commit p) qs = (
    present (Fifo.is_held (Priority.index qs p)),
    Priority.index_set qs p (Fifo.commit (Priority.index qs p)),
  )
  fifo_step c pull qs =
      let (t, qs') = Fifo.pull_first Priority.all qs in (pulled (initialised t), qs')
  fifo_step c (pull_priority p) qs =
      let (t, q) = Fifo.pull_priority (Priority.index qs p) in
      (looked (pull_initialised t), Priority.index_set qs p q)

  unfoldable pub fifo_run :
      ℕ → List (Call T) → PerPriority (Queue T) → List (Answer T) × PerPriority (Queue T)
  fifo_run c [] qs = ([], qs)
  fifo_run c (x ∷ xs) qs =
      let (a, qs') = fifo_step c x qs in let (as', z) = fifo_run c xs qs' in (a ∷ as', z)

  abbrev pub no_elements : PerPriority (Queue T)
  no_elements = record {
    at_high = Fifo.empty;
    at_medium = Fifo.empty;
    at_low = Fifo.empty;
    at_background = Fifo.empty;
  }
