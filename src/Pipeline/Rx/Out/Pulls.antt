-- ===== src/Pipeline/Rx/Out/Pulls.antt =====
-- `try_pull` of the receiving side takes the first message of the first priority that has one.
use mathlib.Core.Option
use thubo.Prelude.{
  ℕ, zero, suc, ◌<◌, ◌≡◌, refl, ap, ap₂, ◌∙◌, inl, inr, List, [], ◌∷◌, ◌++◌, Option, some, none,
  length, arith,
}
use thubo.Protocol.Priority
use thubo.Protocol.Priority.{Priority, PerPriority}
use thubo.Protocol.Qos
use thubo.Protocol.Qos.{Qos}
use thubo.Buffers.Interface.{joined}
use thubo.Buffers.Bytes.{Bytes}
use thubo.Pipeline.Status
use thubo.Pipeline.Status.{Status}
use thubo.Pipeline.RingBuf.Fifo
use thubo.Pipeline.RingBuf.Fifo.{Queue}
use thubo.Pipeline.RingBuf.Fifo.First.{
  items_at, List-cases, NoneOf, First, peek_first-cases, pull_first-NoneOf, pull_first-First, total,
  total-index_set, First-where, NoneOf-where,
}
use thubo.Pipeline.RingBuf.Views.{index_set-all, index_set-both}
use thubo.Pipeline.Rx.{ReadBatch}
use thubo.Pipeline.Rx.Out.{Shared, look, read_next, discard, try_pull, first_of, others_of, arrive}
use thubo.Pipeline.Rx.Out.Messages.{Holds, read_next-nil, read_next-cons}
use thubo.Pipeline.Status.Flags.{Calm, unset-Calm}
use thubo.Pipeline.Rx.Out.View.{Received, tagged, Carries, View, Carries-nil}

-- The rounds of `try_pull`.
pub try_pull-empty :
    (fuel : ℕ) (arrivals : List (List ReadBatch)) (s : Shared)
    → Fifo.peek_first Priority.all s.ring_buf ≡ none
    → try_pull (suc fuel) arrivals s ≡ (none, s)
unfolding try_pull
try_pull-empty fuel arrivals s e = ground (arith, e)

pub try_pull-read :
    (fuel : ℕ) (arrivals : List (List ReadBatch)) (s : Shared) (p : Priority) (b b' : ReadBatch)
    (bytes : Bytes) (st : Status)
    → Fifo.peek_first Priority.all s.ring_buf ≡ some (p, b)
    → look b s.status ≡ (some (bytes, b'), st)
    → try_pull (suc fuel) arrivals s ≡ (
      some (bytes, b.qos),
      record s {
        status = st;
        ring_buf =
            Priority.index_set s.ring_buf p (Fifo.write_first b' (Priority.index s.ring_buf p));
      },
    )
unfolding try_pull
try_pull-read fuel arrivals s p b b' bytes st e f = ground (arith, e, f)

pub try_pull-next :
    (fuel : ℕ) (arrivals : List (List ReadBatch)) (s : Shared) (p : Priority) (b : ReadBatch)
    (st : Status)
    → Fifo.peek_first Priority.all s.ring_buf ≡ some (p, b)
    → look b s.status ≡ (none, st)
    → try_pull (suc fuel) arrivals s
      ≡ try_pull fuel
          (others_of arrivals)
          (discard (first_of arrivals) (Qos.priority b.qos) (record s { status = st }))
unfolding try_pull
try_pull-next fuel arrivals s p b st e f = ground (arith, e, f)

-- With no congestion a batch is read.
pub look-Calm :
    (b : ReadBatch) (st : Status)
    → Calm st
    → look b st ≡ (read_next b, (Status.unset (Status.congested (Qos.priority b.qos)) st).1)
unfolding look Status.unset
look-Calm b st h = rw (h (Qos.priority b.qos)) refl

abbrev pub flat : Bytes × Qos → Received
flat t = (joined t.0, t.1)

-- The result is what the queues of messages give, and they are what is left.
pub record Pulled (spec : Option Received × PerPriority (Queue Received))
    (o : Option (Bytes × Qos) × Shared) : Type 0 where
  pub result : Option.map flat o.0 ≡ spec.0
  pub view : View o.1 spec.1

try_pull-none-Pulled :
    (fuel : ℕ) (s : Shared) (vs : PerPriority (Queue Received))
    → View s vs
    → Fifo.peek_first Priority.all s.ring_buf ≡ none
    → NoneOf Priority.all s.ring_buf
    → Pulled (Fifo.pull_first Priority.all vs) (try_pull (suc fuel) [] s)
try_pull-none-Pulled fuel s vs v e n =
    let empty =
      NoneOf-where s.ring_buf vs Priority.all (λ q f. Carries-nil q _ _ f (v.carries q)) n in
    rw (try_pull-empty fuel [] s e, pull_first-NoneOf Priority.all vs empty)
      (record { result = refl; view = v })

items-write_first :
    {T : Type 0} (t u : T) (q : List T) (a : Queue T)
    → a.items ≡ u ∷ q
    → (Fifo.write_first t a).items ≡ t ∷ q
unfolding Fifo.write_first
items-write_first t u q a e = ground (arith, e)

module _ (s : Shared) (vs : PerPriority (Queue Received)) (v : View s vs) (p : Priority)
    (b : ReadBatch) (bs : List ReadBatch)
    (peeked : Fifo.peek_first Priority.all s.ring_buf ≡ some (p, b))
    (at : items_at s.ring_buf p ≡ b ∷ bs) (first : First s.ring_buf p Priority.all) where
  -- The status after the look at the batch, and the queue without it.
  abbrev seen : Status
  seen = (Status.unset (Status.congested (Qos.priority b.qos)) s.status).1

  abbrev removed : PerPriority (Queue ReadBatch)
  removed = Priority.index_set s.ring_buf p (record (Priority.index s.ring_buf p) { items = bs })

  seen-Calm : Calm seen
  seen-Calm = unset-Calm (Status.congested (Qos.priority b.qos)) s.status v.calm

  -- A batch with a message left gives it.
  try_pull-message-Pulled :
      (fuel : ℕ) (m : List ℕ) (ms : List (List ℕ)) (rest : List Received)
      → items_at vs p ≡ tagged b.qos (m ∷ ms) ++ rest
      → Qos.priority b.qos ≡ p
      → Holds b (m ∷ ms)
      → Carries p bs rest
      → Pulled (Fifo.pull_first Priority.all vs) (try_pull (suc fuel) [] s)
  try_pull-message-Pulled fuel m ms rest out own holds more =
      let t = read_next-cons b m ms holds in
      let got =
        try_pull-read fuel [] s p b t.next t.bytes seen peeked
          (look-Calm b s.status v.calm ∙ ap (λ r. (r, seen)) t.result) in
      let spec =
        pull_first-First vs p (m, b.qos) (tagged b.qos ms ++ rest) Priority.all
          (First-where s.ring_buf vs p Priority.all (λ q f. Carries-nil q _ _ f (v.carries q))
            first)
          out in
      rw (got, spec)
        (record {
          result = ap (λ x. some (x, b.qos)) t.message;
          view = record {
            calm = seen-Calm;
            carries =
                index_set-both (λ q a c. Carries q a.items c.items) s.ring_buf vs p _ _
                  (rw (items-write_first t.next b bs (Priority.index s.ring_buf p) at)
                    (ms, rest, rw t.same_qos refl, rw t.same_qos own, t.holds, more))
                  (λ q ne. v.carries q);
          };
        })

  -- A batch with none is removed.
  removed-View :
      (rest : List Received)
      → items_at vs p ≡ rest
      → Carries p bs rest
      → View (record s { ring_buf = removed; status = seen; can_send = p ∷ s.can_send }) vs
  removed-View rest out more = record {
    calm = seen-Calm;
    carries =
        index_set-all (λ q a. Carries q a.items (items_at vs q)) s.ring_buf p _ (rw out more)
          (λ q ne. v.carries q);
  }

  try_pull-removed :
      (fuel : ℕ)
      → Holds b []
      → Qos.priority b.qos ≡ p
      → try_pull (suc fuel) [] s
        ≡ try_pull fuel []
            (record s { ring_buf = removed; status = seen; can_send = p ∷ s.can_send })
  unfolding discard arrive
  try_pull-removed fuel holds own =
      try_pull-next fuel [] s p b seen peeked
        (look-Calm b s.status v.calm ∙ ap (λ r. (r, seen)) (read_next-nil b holds))
      ∙ ap₂
          (λ x q.
            try_pull fuel [] (record s { ring_buf = x; status = seen; can_send = q ∷ s.can_send }))
          (ap (λ x. x.1) (pull_first-First s.ring_buf p b bs Priority.all first at)) own

  total-removed : suc (total removed) ≡ total s.ring_buf
  total-removed = omega (
    arith,
    total-index_set s.ring_buf p (record (Priority.index s.ring_buf p) { items = bs }),
    ap length at,
  )

-- For batches that hold the messages of these queues, with no priority congested, no batch coming in
-- meanwhile and more rounds than there are batches: `try_pull` returns the first message of the first
-- priority that has one, with its QoS, or `None` if there is no message, and the batches that it leaves
-- hold the others.
pub try_pull-Pulled :
    (fuel : ℕ) (s : Shared) (vs : PerPriority (Queue Received))
    → View s vs
    → total s.ring_buf < fuel
    → Pulled (Fifo.pull_first Priority.all vs) (try_pull fuel [] s)
try_pull-Pulled zero s vs v enough = absurd (omega arith)
try_pull-Pulled (suc fuel) s vs v enough = elim (peek_first-cases Priority.all s.ring_buf) [
  | inl (e, n) ↦ try_pull-none-Pulled fuel s vs v e n
  | inr (p, b, bs, e, at, first) ↦
      let (ms, rest, out, own, holds, more) = rw at at (v.carries p) in
      elim (List-cases ms) [
        | inl f ↦
            let s' = record s {
              ring_buf = removed s vs v p b bs e at first;
              status = seen s vs v p b bs e at first;
              can_send = p ∷ s.can_send;
            } in
            let out' : items_at vs p ≡ rest = out ∙ ap (λ l. tagged b.qos l ++ rest) f in
            rw (try_pull-removed s vs v p b bs e at first fuel (rw f at holds) own) (
              try_pull-Pulled fuel s' vs (removed-View s vs v p b bs e at first rest out' more)
                (omega (arith, total-removed s vs v p b bs e at first)))
        | inr (m, ms', f) ↦
            try_pull-message-Pulled s vs v p b bs e at first fuel m ms' rest
              (out ∙ ap (λ l. tagged b.qos l ++ rest) f) own (rw f at holds) more
      ]
]
