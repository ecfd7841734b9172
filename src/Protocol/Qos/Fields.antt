-- ===== src/Protocol/Qos/Fields.antt =====
-- The three settings of a QoS byte are independent fields of it.
use thubo.Prelude.{
  ℕ, ◌+◌, ◌*◌, ◌/◌, ◌%◌, bit_and, bit_or, ◌≡◌, refl, arith, Bool, true, false, ◌==◌, if◌then◌else◌,
  ◌∙◌, sym,
}
use thubo.Prelude.Bits.{bit_and_ones, bit_or-zero}
use thubo.Prelude.Table.{agree_below, agree_below→eq}
use thubo.Protocol.Priority
use thubo.Protocol.Priority.{Priority, high, medium, low, background}
use thubo.Protocol.CongestionControl.{CongestionControl, block, drop, is_drop}
use thubo.Protocol.Qos.{
  Qos, IsQos, priority, with_priority, express, with_express, congestion_control,
  with_congestion_control,
}

-- What the masks do to a byte.
express_bit : (q : Qos) → IsQos q → bit_and q 8 ≡ q / 8 % 2 * 8
unfolding agree_below
express_bit = agree_below→eq _ _ 256 refl

set_express : (q : Qos) → IsQos q → bit_or q 8 ≡ q / 16 * 16 + 8 + q % 8
unfolding agree_below
set_express = agree_below→eq _ _ 256 refl

clear_express : (q : Qos) → IsQos q → bit_and q 247 ≡ q / 16 * 16 + q % 8
unfolding agree_below
clear_express = agree_below→eq _ _ 256 refl

drop_bit : (q : Qos) → IsQos q → bit_and q 4 ≡ q / 4 % 2 * 4
unfolding agree_below
drop_bit = agree_below→eq _ _ 256 refl

set_drop : (q : Qos) → IsQos q → bit_or q 4 ≡ q / 8 * 8 + 4 + q % 4
unfolding agree_below
set_drop = agree_below→eq _ _ 256 refl

clear_drop : (q : Qos) → IsQos q → bit_and q 251 ≡ q / 8 * 8 + q % 4
unfolding agree_below
clear_drop = agree_below→eq _ _ 256 refl

clear_priority : (q : Qos) → IsQos q → bit_and q 252 ≡ q / 4 * 4
unfolding agree_below
clear_priority = agree_below→eq _ _ 256 refl

set_medium : (q : Qos) → IsQos q → bit_or (bit_and q 252) 1 ≡ q / 4 * 4 + 1
unfolding agree_below
set_medium = agree_below→eq _ _ 256 refl

set_low : (q : Qos) → IsQos q → bit_or (bit_and q 252) 2 ≡ q / 4 * 4 + 2
unfolding agree_below
set_low = agree_below→eq _ _ 256 refl

set_background : (q : Qos) → IsQos q → bit_or (bit_and q 252) 3 ≡ q / 4 * 4 + 3
unfolding agree_below
set_background = agree_below→eq _ _ 256 refl

-- The settings that a byte holds, as the getters read them; `rest` is the four bits above them.
pub record Settings : Type 0 where
  pub level : Priority
  pub strategy : CongestionControl
  pub is_express : Bool
  pub rest : ℕ

abbrev pub settings : Qos → Settings
settings q = record {
  level = priority q;
  strategy = congestion_control q;
  is_express = express q;
  rest = q / 16;
}

-- The number of the priority level of a byte.
pub to_u8-priority : (q : Qos) → Priority.to_u8 (priority q) ≡ q % 4
unfolding priority
to_u8-priority q = Priority.to_u8-from_u8 _ _ ∙ bit_and_ones 2 q 3 refl

priority_of_mod : (p : Priority) (q : Qos) → q % 4 ≡ Priority.to_u8 p → priority q ≡ p
priority_of_mod p q e = Priority.to_u8-injective (priority q) p (to_u8-priority q ∙ e)

same_priority : (q r : Qos) → r % 4 ≡ q % 4 → priority r ≡ priority q
same_priority q r e = priority_of_mod (priority q) r (e ∙ sym (to_u8-priority q))

strategy-eq : (q : Qos) → IsQos q → congestion_control q ≡ (if q / 4 % 2 == 1 then drop else block)
unfolding congestion_control
strategy-eq q h = ground (arith, drop_bit q h)

express-eq : (q : Qos) → IsQos q → express q ≡ (q / 8 % 2 == 1)
unfolding express
express-eq q h = ground (arith, express_bit q h)

-- `with_priority` as arithmetic.
with_priority-eq :
    (p : Priority) (q : Qos) → IsQos q → with_priority p q ≡ q / 4 * 4 + Priority.to_u8 p
unfolding with_priority Priority.to_u8
with_priority-eq high q h = omega (arith, clear_priority q h, bit_or-zero (bit_and q 252))
with_priority-eq medium q h = set_medium q h
with_priority-eq low q h = set_low q h
with_priority-eq background q h = set_background q h

with_express-eq :
    (e : Bool) (q : Qos) → IsQos q → with_express e q ≡ q / 16 * 16 + (if e then 8 else 0) + q % 8
unfolding with_express
with_express-eq true q h = omega (arith, set_express q h)
with_express-eq false q h = omega (arith, clear_express q h)

with_cc-eq :
    (c : CongestionControl) (q : Qos)
    → IsQos q
    → with_congestion_control c q ≡ q / 8 * 8 + (if is_drop c then 4 else 0) + q % 4
unfolding with_congestion_control is_drop
with_cc-eq block q h = omega (arith, clear_drop q h)
with_cc-eq drop q h = omega (arith, set_drop q h)

drop_or_block : (c : CongestionControl) → (if is_drop c then drop else block) ≡ c
unfolding is_drop
drop_or_block block = refl
drop_or_block drop = refl

-- `with_priority` keeps the byte a byte, sets the priority, and leaves every other setting and the
-- unused bits as they are.
pub settings-with_priority :
    (p : Priority) (q : Qos)
    → IsQos q
    → IsQos (with_priority p q) × (settings (with_priority p q) ≡ record (settings q) { level = p })
settings-with_priority p q h =
    let r = with_priority p q in
    let e = with_priority-eq p q h in
    let small = Priority.to_u8-lt p in
    let byte : IsQos r = omega arith in
    (
      byte,
      ground (
        arith,
        priority_of_mod p r (omega arith),
        strategy-eq q h,
        strategy-eq r byte,
        express-eq q h,
        express-eq r byte,
      ),
    )

-- `with_express` keeps the byte a byte, sets the flag, and leaves every other setting and the unused
-- bits as they are.
pub settings-with_express :
    (e : Bool) (q : Qos)
    → IsQos q
    → IsQos (with_express e q)
      × (settings (with_express e q) ≡ record (settings q) { is_express = e })
settings-with_express e q h =
    let r = with_express e q in
    let eq = with_express-eq e q h in
    let byte : IsQos r = ground arith in
    (
      byte,
      ground (
        arith,
        same_priority q r (ground arith),
        strategy-eq q h,
        strategy-eq r byte,
        express-eq r byte,
      ),
    )

-- `with_congestion_control` keeps the byte a byte, sets the strategy, and leaves every other setting
-- and the unused bits as they are.
pub settings-with_congestion_control :
    (c : CongestionControl) (q : Qos)
    → IsQos q
    → IsQos (with_congestion_control c q)
      × (settings (with_congestion_control c q) ≡ record (settings q) { strategy = c })
settings-with_congestion_control c q h =
    let r = with_congestion_control c q in
    let e = with_cc-eq c q h in
    let byte : IsQos r = ground arith in
    (
      byte,
      ground (
        arith,
        same_priority q r (ground arith),
        express-eq q h,
        strategy-eq r byte,
        express-eq r byte,
        drop_or_block c,
      ),
    )

-- The settings and the unused bits make up the byte.
pub settings-injective : (q r : Qos) → IsQos q → IsQos r → settings q ≡ settings r → q ≡ r
settings-injective q r hq hr e = ground (
  arith,
  to_u8-priority q,
  to_u8-priority r,
  strategy-eq q hq,
  strategy-eq r hr,
  express-eq q hq,
  express-eq r hr,
)
