-- ===== src/Pipeline/RingBuf/Reader.antt =====
-- src/pipeline/ringbuf/common.rs: the reader of a ring buffer. An element that is taken out of a slot
-- with nothing in it is `some none`: that would be undefined behaviour.
use thubo.Prelude.{Option, some, none, Bool, true, false, List, [], ◌∷◌, if◌then◌else◌}
use thubo.Protocol.Priority
use thubo.Protocol.Priority.{Priority}
use thubo.Pipeline.RingBuf.{Idx, increment, flag_prio, booked_bit, any}
use thubo.Pipeline.RingBuf.Ring
use thubo.Pipeline.RingBuf.Ring.{MaybeUninit, RingBuffer, Update, get_elem, set_elem}

pub record RingBufferReader : Type 0 where
  pub local_idx_r : Idx
  pub cached_idx_w : Idx
  pub update : Update

unfoldable pub new : Update → RingBufferReader
new u = record { local_idx_r = 0; cached_idx_w = 0; update = u }

pub data Pull (T : Type 0) : Type 0 where
  got : T → Pull T
  booked : Pull T
  nothing : Pull T

module _ {T : Type 0} where
  -- An empty ring is looked at again with the writer's index of now.
  unfoldable pub is_empty : Priority → RingBufferReader → RingBuffer T → Bool × RingBufferReader
  is_empty p r ring =
      if Ring.is_empty r.local_idx_r r.cached_idx_w p
      then (let r' = record r { cached_idx_w = ring.idx_w } in
          (Ring.is_empty r'.local_idx_r r'.cached_idx_w p, r'))
      else (false, r)

  unfoldable pub pull_priority_inner :
      Priority
      → RingBufferReader
      → RingBuffer T
      → Option (MaybeUninit T) × (RingBufferReader × RingBuffer T)
  unfolding is_empty
  pull_priority_inner p r ring =
      let (empty, r') = is_empty p r ring in
      if empty
      then (none, (r', ring))
      else (let t = get_elem p r'.local_idx_r ring in
          let ring' = set_elem p r'.local_idx_r none ring in
          let idx = increment p r'.local_idx_r in
          (
            some t,
            (
              record r' { local_idx_r = idx },
              record ring' { idx_r = Ring.update r'.update p idx ring'.idx_r },
            ),
          ))

  unfoldable pub or_rest :
      Option (MaybeUninit T)
      → RingBufferReader × RingBuffer T
      → Option (MaybeUninit T) × (RingBufferReader × RingBuffer T)
      → Option (MaybeUninit T) × (RingBufferReader × RingBuffer T)
  or_rest (some v) y rest = (some v, y)
  or_rest none y rest = rest

  -- The loop of `pull`: the first priority that has an element.
  unfoldable pub pull_first :
      List Priority
      → RingBufferReader
      → RingBuffer T
      → Option (MaybeUninit T) × (RingBufferReader × RingBuffer T)
  unfolding or_rest
  pull_first [] r ring = (none, (r, ring))
  pull_first (p ∷ ps) r ring =
      let (t, y) = pull_priority_inner p r ring in
      let rest = pull_first ps y.0 y.1 in or_rest t y rest

  unfoldable pub pull :
      RingBufferReader → RingBuffer T → Option (MaybeUninit T) × (RingBufferReader × RingBuffer T)
  pull r ring = pull_first Priority.all r ring

  -- The flag of a priority with no element is looked at.
  unfoldable pub or_flag :
      Priority
      → Option (MaybeUninit T)
      → RingBufferReader
      → RingBuffer T
      → Pull (MaybeUninit T) × (RingBufferReader × RingBuffer T)
  or_flag p (some v) r ring = (got v, (r, ring))
  or_flag p none r ring =
      (if any (flag_prio p booked_bit) r.cached_idx_w then booked else nothing, (r, ring))

  unfoldable pub pull_priority :
      Priority
      → RingBufferReader
      → RingBuffer T
      → Pull (MaybeUninit T) × (RingBufferReader × RingBuffer T)
  unfolding or_flag
  pull_priority p r ring = let (t, s) = pull_priority_inner p r ring in or_flag p t s.0 s.1

  -- `peek_mut`: the slot that the reference is to.
  unfoldable pub peek_first :
      List Priority
      → RingBufferReader
      → RingBuffer T
      → Option (Priority × MaybeUninit T) × RingBufferReader
  peek_first [] r ring = (none, r)
  peek_first (p ∷ ps) r ring =
      let (empty, r') = is_empty p r ring in
      elim empty [
        | false ↦ (some (p, get_elem p r'.local_idx_r ring), r')
        | true ↦ peek_first ps r' ring
      ]

  unfoldable pub peek_mut :
      RingBufferReader → RingBuffer T → Option (Priority × MaybeUninit T) × RingBufferReader
  peek_mut r ring = peek_first Priority.all r ring

-- `RingBufferReaderSPMC::pull`
unfoldable pub pull_some : {T : Type 0} → Pull T → Option T
pull_some (got t) = some t
pull_some booked = none
pull_some nothing = none
