-- ===== src/Pipeline/RingBuf/Writer.antt =====
-- src/pipeline/ringbuf/common.rs: the writer of a ring buffer. Each call takes its reference to the
-- shared storage, and hands over what it has made of it.
use thubo.Prelude.{Option, some, none, Bool, false, if◌then◌else◌}
use thubo.Protocol.Priority.{Priority}
use thubo.Pipeline.RingBuf.{Idx, increment, flag_prio, booked_bit, any, set_flag, unset_flag}
use thubo.Pipeline.RingBuf.Ring
use thubo.Pipeline.RingBuf.Ring.{MaybeUninit, RingBuffer, Update, capacity, get_elem, set_elem}

pub record RingBufferWriter : Type 0 where
  pub cached_idx_r : Idx
  pub local_idx_w : Idx
  pub update : Update

unfoldable pub new : Update → RingBufferWriter
new u = record { cached_idx_r = 0; local_idx_w = 0; update = u }

-- `peek`: whether there is a `WriterPeek` to be had.
unfoldable pub peek : Priority → RingBufferWriter → Bool
peek p w = any (flag_prio p booked_bit) w.local_idx_w

module _ {T : Type 0} where
  -- A full ring is looked at again with the reader's index of now.
  unfoldable pub is_full : Priority → RingBufferWriter → RingBuffer T → Bool × RingBufferWriter
  is_full p w ring =
      if Ring.is_full w.cached_idx_r w.local_idx_w p (capacity ring)
      then (let w' = record w { cached_idx_r = ring.idx_r } in
          (Ring.is_full w'.cached_idx_r w'.local_idx_w p (capacity ring), w'))
      else (false, w)

  -- The end of `push` and of `commit`: the index goes up, and is published.
  unfoldable pub advance :
      Priority → Idx → RingBufferWriter → RingBuffer T → RingBufferWriter × RingBuffer T
  advance p idx w ring =
      let idx' = increment p idx in
      (
        record w { local_idx_w = idx' },
        record ring { idx_w = Ring.update w.update p idx' ring.idx_w },
      )

  -- An element that does not fit is given back.
  unfoldable pub push :
      Priority → T → RingBufferWriter → RingBuffer T → Option T × (RingBufferWriter × RingBuffer T)
  unfolding is_full
  push p t w ring =
      let (full, w') = is_full p w ring in
      if full
      then (some t, (w', ring))
      else (none, advance p w'.local_idx_w w' (set_elem p w'.local_idx_w (some t) ring))

  -- `book`: whether the element is in the ring; one that is not is given back.
  unfoldable pub book :
      Priority → T → RingBufferWriter → RingBuffer T → Option T × (RingBufferWriter × RingBuffer T)
  unfolding is_full
  book p t w ring =
      let flag = flag_prio p booked_bit in
      if any flag w.local_idx_w
      then (some t, (w, ring))
      else (let (full, w') = is_full p w ring in
          if full
          then (some t, (w', ring))
          else (let ring' = set_elem p w'.local_idx_w (some t) ring in
              (
                none,
                (
                  record w' { local_idx_w = set_flag flag w'.local_idx_w },
                  record ring' { idx_w = set_flag flag ring'.idx_w },
                ),
              )))

  -- `WriterPeek::commit`
  unfoldable pub commit :
      Priority → RingBufferWriter → RingBuffer T → RingBufferWriter × RingBuffer T
  unfolding advance
  commit p w ring = advance p (unset_flag (flag_prio p booked_bit) w.local_idx_w) w ring

  -- `WriterPeek::deref`
  unfoldable pub deref : Priority → RingBufferWriter → RingBuffer T → MaybeUninit T
  deref p w ring = get_elem p w.local_idx_w ring

  -- What is assigned through `WriterPeek::deref_mut`.
  unfoldable pub deref_mut : Priority → T → RingBufferWriter → RingBuffer T → RingBuffer T
  deref_mut p t w ring = set_elem p w.local_idx_w (some t) ring
