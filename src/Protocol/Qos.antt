-- ===== src/Protocol/Qos.antt =====
-- src/protocol/core/qos.rs: priority, congestion control and express flag, packed into one byte.
pub mod Fields
use thubo.Prelude.{
  ℕ, ◌+◌, ◌-◌, ◌<◌, ◌%◌, bit_and, bit_or, ◌≡◌, refl, arith, Bool, true, false, not, ◌==◌,
  if◌then◌else◌,
}
use thubo.Prelude.Bits.{bit_and_ones}
use thubo.Protocol.Priority
use thubo.Protocol.Priority.{Priority, medium}
use thubo.Protocol.CongestionControl.{CongestionControl, block, drop, from_bool}

-- `struct QoS(u8)`
abbrev pub Qos : Type 0
Qos = ℕ

abbrev pub IsQos : Qos → Type 0
IsQos q = q < 256

-- `!m` on u8
abbrev pub not_u8 : ℕ → ℕ
not_u8 m = 255 - m

-- `Priority::MASK`
abbrev pub priority_mask : ℕ
priority_mask = 3

-- `QoS::DROPPABLE` and `QoS::EXPRESS`, the bits above the two of the priority
abbrev pub droppable : ℕ
droppable = 4

abbrev pub express_flag : ℕ
express_flag = 8

-- `QoS::DEFAULT`: the default priority is Medium.
unfoldable pub default : Qos
unfolding Priority.to_u8
default = Priority.to_u8 medium

pub priority_masked : (q : Qos) → bit_and q priority_mask < Priority.num
priority_masked q = omega (arith, bit_and_ones 2 q 3 refl)

unfoldable pub priority : Qos → Priority
priority q = Priority.from_u8 (bit_and q priority_mask) (priority_masked q)

unfoldable pub with_priority : Priority → Qos → Qos
unfolding Priority.to_u8
with_priority p q = bit_or (bit_and q (not_u8 priority_mask)) (Priority.to_u8 p)

unfoldable pub express : Qos → Bool
express q = not (bit_and q express_flag == 0)

unfoldable pub with_express : Bool → Qos → Qos
with_express e q = if e then bit_or q express_flag else bit_and q (not_u8 express_flag)

unfoldable pub congestion_control : Qos → CongestionControl
unfolding from_bool
congestion_control q = from_bool (bit_and q droppable == droppable)

unfoldable pub with_congestion_control : CongestionControl → Qos → Qos
with_congestion_control block q = bit_and q (not_u8 droppable)
with_congestion_control drop q = bit_or q droppable
