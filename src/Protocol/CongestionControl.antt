-- ===== src/Protocol/CongestionControl.antt =====
-- src/protocol/core/congestion_control.rs: wait for room in a full queue, or drop the message.
use thubo.Prelude.{Bool, true, false}

-- `CongestionControl::Drop` and `CongestionControl::Block`
pub data CongestionControl : Type 0 where
  block drop : CongestionControl

-- `CongestionControl::from_bool`: a transmute, and both Booleans are values of the type.
unfoldable pub from_bool : Bool → CongestionControl
from_bool false = block
from_bool true = drop

-- `==` on the strategies
unfoldable pub is_drop : CongestionControl → Bool
is_drop block = false
is_drop drop = true

unfoldable pub cc_eq : CongestionControl → CongestionControl → Bool
cc_eq block block = true
cc_eq drop drop = true
cc_eq _ _ = false
