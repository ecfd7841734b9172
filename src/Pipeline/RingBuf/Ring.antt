-- ===== src/Pipeline/RingBuf/Ring.antt =====
-- src/pipeline/ringbuf/common.rs: the storage that a writer and a reader share.
use thubo.Prelude.{
  ℕ, ◌+◌, ◌-◌, ◌%◌, ◌^◌, List, Option, some, none, Bool, ◌==◌, leb, ◌&&◌, not, if◌then◌else◌,
  bit_and, length, get_or, set, replicate,
}
use thubo.Protocol.Priority
use thubo.Protocol.Priority.{Priority, PerPriority, high}
use thubo.Pipeline.RingBuf.{Idx, index, merge}

-- `MaybeUninit`: `none` is a slot with nothing in it, and to take an element out of it is undefined.
abbrev pub MaybeUninit : Type 0 → Type 0
MaybeUninit T = Option T

pub record RingBuffer (T : Type 0) : Type 0 where
  pub ptr : PerPriority (List (MaybeUninit T))
  pub mask : ℕ
  pub idx_r : Idx
  pub idx_w : Idx

-- `usize::is_power_of_two`
abbrev pub is_power_of_two : ℕ → Bool
is_power_of_two n = not (n == 0) && (bit_and n (n - 1) == 0)

-- The functions of the module `update`: the word is stored, or only the lane of a priority.
pub data Update : Type 0 where
  s m : Update

unfoldable pub update : Update → Priority → Idx → Idx → Idx
update s p idx old = idx
update m p idx old = merge p idx old

module _ {T : Type 0} where
  -- `RingBuffer::new`: the assertions fail, or there is a buffer for each priority.
  unfoldable pub new : ℕ → Option (RingBuffer T)
  new capacity =
      let buf = replicate capacity none in
      if is_power_of_two capacity && leb capacity (2 ^ 7)
      then some (record {
        ptr = record { at_high = buf; at_medium = buf; at_low = buf; at_background = buf };
        mask = (capacity - 1) % 2 ^ 8;
        idx_r = 0;
        idx_w = 0;
      })
      else none

  unfoldable pub capacity : RingBuffer T → ℕ
  unfolding Priority.index
  capacity ring = length (Priority.index ring.ptr high) % 2 ^ 8

  -- `get_elem_mut`, to read and to write the slot.
  abbrev pub slot : Priority → Idx → RingBuffer T → ℕ
  slot p idx ring = bit_and (index p idx) ring.mask

  unfoldable pub get_elem : Priority → Idx → RingBuffer T → MaybeUninit T
  get_elem p idx ring = get_or (Priority.index ring.ptr p) (slot p idx ring) none

  unfoldable pub set_elem : Priority → Idx → MaybeUninit T → RingBuffer T → RingBuffer T
  set_elem p idx v ring = record ring {
    ptr = Priority.index_set ring.ptr p (set (Priority.index ring.ptr p) (slot p idx ring) v);
  }

unfoldable pub is_empty : Idx → Idx → Priority → Bool
is_empty r w p = index p r == index p w

-- A `wrapping_sub` of bytes.
unfoldable pub is_full : Idx → Idx → Priority → ℕ → Bool
is_full r w p c = (index p w + 2 ^ 8 - index p r) % 2 ^ 8 == c
