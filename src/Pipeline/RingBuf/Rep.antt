-- ===== src/Pipeline/RingBuf/Rep.antt =====
-- What a ring buffer and its handles stand for: a queue for each priority, and whether an element is booked.
pub mod Words
pub mod Storage
pub mod Steps
pub mod Writing
pub mod Publish
pub mod Calls
pub mod Reading
pub mod Pulls
pub mod Start
use thubo.Prelude.{ℕ, ◌-◌, ◌≡◌}
use thubo.Protocol.Priority
use thubo.Protocol.Priority.{Priority}
use thubo.Pipeline.RingBuf.{Idx}
use thubo.Pipeline.RingBuf.Word.{IsIdx, lane}
use thubo.Pipeline.RingBuf.Slots.{IsCap}
use thubo.Pipeline.RingBuf.Fifo.{Queue}
use thubo.Pipeline.RingBuf.Lane.{Lane}
use thubo.Pipeline.RingBuf.Ring.{RingBuffer, Update, s, m, capacity}
use thubo.Pipeline.RingBuf.Writer.{RingBufferWriter}
use thubo.Pipeline.RingBuf.Reader.{RingBufferReader}

-- The storage has `c` slots for each priority.
pub record IsSound {T : Type 0} (c : ℕ) (ring : RingBuffer T) : Type 0 where
  pub cap : IsCap c
  pub mask_eq : ring.mask ≡ c - 1
  pub capacity_eq : capacity ring ≡ c
  pub fits_r : IsIdx ring.idx_r
  pub fits_w : IsIdx ring.idx_w

-- The ring of `p`, seen through the handles that write and read it, stands for the queue.
pub record Rep {T : Type 0} (c : ℕ) (ring : RingBuffer T) (w : RingBufferWriter)
    (r : RingBufferReader) (p : Priority) (a : Queue T) : Type 0 where
  pub lanes :
      Lane c
        (Priority.index ring.ptr p)
        (lane p ring.idx_r)
        (lane p ring.idx_w)
        (lane p w.cached_idx_r)
        (lane p r.cached_idx_w)
        a.items
        a.held
  pub writer_agrees : lane p w.local_idx_w ≡ lane p ring.idx_w
  pub reader_agrees : lane p r.local_idx_r ≡ lane p ring.idx_r

-- A handle that is alone on its side has the whole word, one of several has its lane.
abbrev pub Owns : Update → Priority → Idx → Idx → Type 0
Owns s p x y = x ≡ y
Owns m p x y = IsIdx x × (lane p x ≡ lane p y)
