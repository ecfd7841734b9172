-- ===== src/Tests/Outgoing.antt =====
-- A batch whose message was dropped, in front of one that is sent.
use thubo.Prelude.{◌<◌, ◌≡◌, refl, [], ◌∷◌, some, none, true, false, arith}
use thubo.Protocol.Priority
use thubo.Protocol.Priority.{Priority, PerPriority, high, medium, low, background}
use thubo.Protocol.Qos
use thubo.Protocol.CongestionControl.{is_drop}
use thubo.Pipeline.Status
use thubo.Pipeline.RingBuf.Fifo.{Queue, empty}
use thubo.Pipeline.Tx.{WriteBatch, alloc, clear, write_len}
use thubo.Pipeline.Tx.Out.{StageOut, is_given_up, is_set, try_pull}
use thubo.Pipeline.Tx.Out.Pulling.{State, returned, pull, zeros}
use thubo.Pipeline.Tx.Out.Booked.{At, held_one, quiet, pull-booked}
use thubo.Pipeline.Tx.Out.Recycled.{recycled}
use thubo.Pipeline.Tx.Out.Skips.{ClearAbove, Handed, try_pull-skips}

abbrev sent : WriteBatch
sent = record (alloc 30) { qos = 13 }

abbrev flagged : WriteBatch
flagged = record (alloc 30) { qos = 13; drop_flag = some 7 }

abbrev no_batches : PerPriority (Queue WriteBatch)
no_batches = record { at_high = empty; at_medium = empty; at_low = empty; at_background = empty }

abbrev outgoing : StageOut
outgoing = record {
  ringbuf_inout = record no_batches {
    at_medium = record { items = flagged ∷ sent ∷ []; held = none };
  };
  ringbuf_outrefill = no_batches;
  capacity = 2;
  status = 0;
  drop_flags = 7 ∷ [];
  can_refill = [];
}

outgoing-ClearAbove : ClearAbove medium outgoing.ringbuf_inout
unfolding Priority.index Priority.to_u8
outgoing-ClearAbove q lt =
    elim q as (λ q. Priority.to_u8 q < 1 → Priority.index outgoing.ringbuf_inout q ≡ empty) [
      | high ↦ λ h. refl
      | medium ↦ λ h. absurd (omega (arith, h))
      | low ↦ λ h. absurd (omega (arith, h))
      | background ↦ λ h. absurd (omega (arith, h))
    ]
      lt

items_of_medium : (Priority.index outgoing.ringbuf_inout medium).items ≡ flagged ∷ sent ∷ []
unfolding Priority.index
items_of_medium = refl

not_disabled : Status.any 0 Status.disabled ≡ false
unfolding Status.any
not_disabled = refl

not_congested : Status.any 0 (Status.congested (Qos.priority 13)) ≡ false
unfolding Status.any Status.congested Qos.priority Priority.from_u8 Priority.to_u8
not_congested = refl

flagged_lem : is_given_up flagged (7 ∷ []) ≡ true
unfolding is_given_up is_set
flagged_lem = refl

sent_lem : is_given_up sent (7 ∷ []) ≡ false
unfolding is_given_up alloc
sent_lem = refl

try_pull-skips_example :
    Handed medium sent [] (recycled 2 (flagged ∷ []) no_batches) (try_pull 2 outgoing)
try_pull-skips_example =
    try_pull-skips medium (flagged ∷ []) sent [] outgoing outgoing-ClearAbove items_of_medium
      not_disabled not_congested (flagged_lem, tt) sent_lem

-- A batch of priority Medium that is booked, with ten bytes in its word.
abbrev written_to : WriteBatch
written_to = record (alloc 30) { qos = 1 }

abbrev booking : State
booking = record {
  out = record outgoing { ringbuf_inout = record no_batches { at_medium = held_one written_to } };
  words = record { at_high = 0; at_medium = 10; at_low = 0; at_background = 0 };
  booked_len = zeros;
  backoff = false;
  backoff_num = zeros;
}

booking-ClearAbove : ClearAbove medium booking.out.ringbuf_inout
unfolding Priority.index Priority.to_u8
booking-ClearAbove q lt =
    elim q as (λ q. Priority.to_u8 q < 1 → Priority.index booking.out.ringbuf_inout q ≡ empty) [
      | high ↦ λ h. refl
      | medium ↦ λ h. absurd (omega (arith, h))
      | low ↦ λ h. absurd (omega (arith, h))
      | background ↦ λ h. absurd (omega (arith, h))
    ]
      lt

booking-At : At medium (held_one written_to) written_to booking
unfolding Priority.index is_given_up alloc clear Qos.congestion_control is_drop
booking-At = record {
  clear = booking-ClearAbove;
  queue = refl;
  enabled = not_disabled;
  kept = (refl, refl);
}

pull-booked_example :
    (pull 100 (quiet 5 true ∷ quiet 6 true ∷ quiet 7 true ∷ []) booking).0
    ≡ returned (some (write_len written_to))
pull-booked_example = pull-booked 100 medium written_to 5 6 7 true true true booking booking-At
