-- ===== src/Pipeline/Rx/Out/View.antt =====
-- The receiving side as queues of messages, one for each priority.
use thubo.Prelude.{ℕ, ◌≡◌, List, [], ◌∷◌, ◌++◌, map}
use thubo.Protocol.Priority.{Priority, PerPriority}
use thubo.Protocol.Qos
use thubo.Protocol.Qos.{Qos}
use thubo.Pipeline.Status.Flags.{Calm}
use thubo.Pipeline.RingBuf.Fifo.{Queue}
use thubo.Pipeline.RingBuf.Fifo.First.{items_at}
use thubo.Pipeline.Rx.{ReadBatch}
use thubo.Pipeline.Rx.Out.{Shared}
use thubo.Pipeline.Rx.Out.Messages.{Holds}

-- The bytes of a message, and its QoS.
abbrev pub Received : Type 0
Received = List ℕ × Qos

abbrev pub tagged : Qos → List (List ℕ) → List Received
tagged q ms = map (λ m. (m, q)) ms

-- The batches of a priority hold these messages, in order.
abbrev pub Carries : Priority → List ReadBatch → List Received → Type 0
Carries p [] out = out ≡ []
Carries p (b ∷ bs) out =
    (ms : List (List ℕ)) × (rest : List Received) × (out ≡ tagged b.qos ms ++ rest)
    × (Qos.priority b.qos ≡ p)
    × Holds b ms
    × Carries p bs rest

pub record View (s : Shared) (vs : PerPriority (Queue Received)) : Type 0 where
  pub carries : (p : Priority) → Carries p (items_at s.ring_buf p) (items_at vs p)
  pub calm : Calm s.status

-- A queue with no batch holds no message.
pub Carries-nil :
    (p : Priority) (bs : List ReadBatch) (out : List Received)
    → bs ≡ []
    → Carries p bs out
    → out ≡ []
Carries-nil p [] out e c = c
Carries-nil p (b ∷ bs) out e c = absurd (cc)
