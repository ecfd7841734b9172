-- ===== src/Pipeline/RingBuf.antt =====
-- src/pipeline/ringbuf/common.rs: a ring buffer for each priority, whose indices share two words.
pub mod Word
pub mod Slots
pub mod Lane
pub mod Ring
pub mod Writer
pub mod Reader
pub mod Fifo
pub mod Rep
pub mod Views
pub mod Mpsc
pub mod Spsc
use thubo.Prelude.{
  ℕ, ◌+◌, ◌-◌, ◌*◌, ◌/◌, ◌%◌, ◌^◌, bit_and, bit_or, List, [], ◌∷◌, Option, some, none, Bool, true,
  false, not, ◌==◌, if◌then◌else◌, length, get_elem?, replicate,
}
use thubo.Protocol.Priority
use thubo.Protocol.Priority.{Priority, PerPriority, high, medium, low, background}

-- `Idx(u64)`: a lane of 16 bits for each priority, the low eight the index, the next the flag BOOKED.
abbrev pub Idx : Type 0
Idx = ℕ

abbrev pub not_u64 : ℕ → ℕ
not_u64 m = 2 ^ 64 - 1 - m

unfoldable pub shift : Priority → ℕ
unfolding Priority.to_u8
shift p = 16 * Priority.to_u8 p

unfoldable pub mask : Priority → ℕ
unfolding shift
mask p = 65535 * 2 ^ shift p % 2 ^ 64

unfoldable pub index : Priority → Idx → ℕ
unfolding shift
index p x = x / 2 ^ shift p % 2 ^ 8

unfoldable pub increment : Priority → Idx → Idx
unfolding shift index
increment p x =
    let field = 255 * 2 ^ shift p % 2 ^ 64 in
    let v = (index p x + 1) % 2 ^ 8 * 2 ^ shift p % 2 ^ 64 in bit_or (bit_and x (not_u64 field)) v

abbrev pub booked_bit : ℕ
booked_bit = 1

-- `flag::prio`
unfoldable pub flag_prio : Priority → ℕ → ℕ
unfolding shift
flag_prio p flag = flag * 2 ^ (8 + shift p) % 2 ^ 64

unfoldable pub any : ℕ → Idx → Bool
any flag x = not (bit_and x flag == 0)

unfoldable pub set_flag : ℕ → Idx → Idx
set_flag flag x = bit_or x flag

unfoldable pub unset_flag : ℕ → Idx → Idx
unset_flag flag x = bit_and x (not_u64 flag)

-- `AtomicIdx::update`: the loop ends with a compare-exchange that succeeds, and puts the lane of `idx`
-- into what the word is then.
unfoldable pub merge : Priority → Idx → Idx → Idx
unfolding mask
merge p idx old = bit_or (bit_and old (not_u64 (mask p))) (bit_and idx (mask p))
