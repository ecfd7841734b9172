-- ===== src/Tests/Streams.antt =====
-- Three messages, the last of them in fragments, and the theorems from one side to the other applied.
use thubo.Prelude.{ℕ, ◌+◌, ◌≤◌, ◌≡◌, refl, List, [], ◌∷◌, true, length, replicate, arith}
use thubo.Protocol.Priority
use thubo.Protocol.Priority.{Priority, medium}
use thubo.Protocol.Qos
use thubo.Protocol.Qos.{Qos}
use thubo.Codec.Vle.Encoding.{groups}
use thubo.Buffers.Interface.{joined}
use thubo.Buffers.Bytes.{Bytes}
use thubo.Pipeline.Rx.Out.{Shared}
use thubo.Pipeline.Tx.{WriteBatch, alloc}
use thubo.Pipeline.Tx.Stage.{StageInPrio}
use thubo.Pipeline.Tx.Push.{push}
use thubo.Pipeline.Tx.Push.Steps.{at_rest}
use thubo.Pipeline.Tx.Push.Rest.{all_free}
use thubo.Pipeline.Tx.Push.Stream.{Stage, no_more}
use thubo.Pipeline.Tx.Push.Added.{Added}
use thubo.Pipeline.Tx.Push.Messages.{push-Added}
use thubo.Pipeline.RingBuf.Fifo.First.{NoneOf, items_at}
use thubo.Pipeline.Rx.Out.View.{View}
use thubo.Pipeline.Delivery.Messages.{cost, AllSendable}
use thubo.Pipeline.Delivery.Order.{AllLimited, InOrder, sent_of, delivery-InOrder}
use thubo.Tests.Transfers.{
  message, pool, no_buffers, no_messages, idle_ring, idle-View, replicate-AllFresh,
}

abbrev pub frees : List (WriteBatch × ℕ)
frees = replicate 50 (alloc 30, 0)

abbrev pub new_stage : StageInPrio
new_stage = at_rest pool [] 0 (all_free frees) true [] 0

pub new_stage-Stage : Stage medium frees [] new_stage
new_stage-Stage = record {
  rounds_eq = refl;
  receivers_eq = refl;
  fresh = replicate-AllFresh 50;
  pool = (omega arith, omega arith, omega arith);
  done = [];
  held = [];
  out_eq = refl;
  sent = no_more;
  booked = refl;
}

of_medium : Qos.priority 1 ≡ medium
unfolding Qos.priority Priority.from_u8
of_medium = refl

-- A QoS of the same priority, of messages that may be dropped.
of_medium_drop : Qos.priority 5 ≡ medium
unfolding Qos.priority Priority.from_u8
of_medium_drop = refl

abbrev rest_free : List (WriteBatch × ℕ)
rest_free = replicate 49 (alloc 30, 0)

push-Added_example :
    Added medium 1 (joined message) ((alloc 30, 0) ∷ rest_free) [] (push message 1 new_stage)
push-Added_example =
    push-Added medium (alloc 30, 0) rest_free [] message 1 new_stage new_stage-Stage of_medium
      (omega arith) (omega arith, tt) (omega arith)

abbrev pub three : List (Bytes × Qos)
three = ((5 ∷ 6 ∷ []) ∷ [], 1) ∷ ((7 ∷ []) ∷ (8 ∷ []) ∷ [], 5) ∷ (message, 1) ∷ []

-- A receiver with room for what is sent.
abbrev pub ready : Shared
ready = record idle_ring { capacity = length (sent_of three new_stage) }

pub three-AllSendable : AllSendable medium three
unfolding groups
three-AllSendable = (
  of_medium,
  omega arith,
  (omega arith, tt),
  (
    of_medium_drop,
    omega arith,
    (omega arith, (omega arith, tt)),
    (of_medium, omega arith, (omega arith, tt), tt),
  ),
)

pub three-AllLimited : AllLimited 100 three
unfolding groups
three-AllLimited = (omega arith, (omega arith, (omega arith, tt)))

pub three-cost : cost three ≤ length frees
three-cost = omega arith

pub ready-View : View ready no_messages
ready-View = record { carries = idle-View.carries; calm = idle-View.calm }

pub nothing : NoneOf Priority.all no_messages
unfolding Priority.index
nothing = (refl, (refl, (refl, (refl, tt))))

pub ready_room :
    length (items_at ready.ring_buf medium) + length (sent_of three new_stage) ≤ ready.capacity
unfolding Priority.index
ready_room = omega arith

pub three-InOrder : InOrder 100 three new_stage (no_buffers, ready)
three-InOrder =
    delivery-InOrder 100 medium three frees new_stage no_buffers ready no_messages new_stage-Stage
      three-AllSendable three-AllLimited three-cost ready-View nothing refl ready_room

delivery-InOrder_example : InOrder 100 three new_stage (no_buffers, ready)
delivery-InOrder_example =
    delivery-InOrder 100 medium three frees new_stage no_buffers ready no_messages new_stage-Stage
      three-AllSendable three-AllLimited three-cost ready-View nothing refl ready_room
