-- ===== src/Pipeline/Rx/In/Delivered.antt =====
-- How the loop that pushes to the ring ends, whatever happens while it waits.
use thubo.Prelude.{
  Bool, if◌then◌else◌, ap, ◌≡◌, ◌≢◌, refl, ◌⊎◌, inl, inr, List, [], ◌∷◌, ◌++◌, true, false,
  Bool-cases, ◌==◌, length, arith,
}
use thubo.Protocol.CongestionControl.{is_drop}
use thubo.Protocol.Priority
use thubo.Protocol.Qos
use thubo.Pipeline.Status
use thubo.Pipeline.Status.Flags.{set-congested}
use thubo.Pipeline.RingBuf.Fifo
use thubo.Pipeline.RingBuf.Fifo.First.{items_at}
use thubo.Pipeline.Rx.{timeout, channel_closed, ReadBatch}
use thubo.Pipeline.Rx.Out.{Shared}
use thubo.Pipeline.Rx.In.{
  Wait, woken, gone, elapsed, Round, Outcome, ok, err, waiting, done, again, notify, attempt,
  after_wait, wait_room, resume, push_ring,
}

abbrev pub IsFull : ReadBatch → Shared → Type 0
IsFull b s = length (items_at s.ring_buf (Qos.priority b.qos)) ≡ s.capacity

-- The batch behind the others of its priority.
abbrev pub appended : ReadBatch → Shared → Shared
appended b s =
    let p = Qos.priority b.qos in
    let a = Priority.index s.ring_buf p in
    record s {
      ring_buf = Priority.index_set s.ring_buf p (record a { items = a.items ++ (b ∷ []) });
    }

abbrev pub IsCongested : ReadBatch → Shared → Type 0
IsCongested b s = Status.any s.status (Status.congested (Qos.priority b.qos)) ≡ true

-- The state in which the wait of a round has ended: the others have done what they do, and when the time of
-- the wait is over the priority is marked as congested.
abbrev pub behind_wait : ReadBatch → Wait → Shared → Shared
behind_wait b woken s = s
behind_wait b gone s = s
behind_wait b elapsed s = record s {
  status = (Status.set (Status.congested (Qos.priority b.qos)) s.status).1;
}

-- A wait after which the loop makes another attempt: it ends by a notification, or by its timeout when
-- the batch may not be dropped.
abbrev pub Resumes : ReadBatch → Round → Type 0
Resumes b r =
    (r.late ≡ false)
    × ((r.wait ≡ woken) ⊎ ((r.wait ≡ elapsed) × (is_drop (Qos.congestion_control b.qos) ≡ false)))

-- The rounds that are left, and the state, after attempts that found the ring full and waits after
-- which the loop goes on.
pub data Led (b : ReadBatch) : List Round → Shared → List Round → Shared → Type 0 where
  start : (rounds : List Round) (s : Shared) → Led b rounds s rounds s
  waited :
      (r : Round) (rounds left : List Round) (s t : Shared)
      → IsFull b s
      → Resumes b r
      → Led b rounds (behind_wait b r.wait (r.meanwhile s)) left t
      → Led b (r ∷ rounds) s left t

-- The result for a batch that the ring has taken, when the other end is there or not.
abbrev pub notified : Bool → Outcome
notified true = ok true
notified false = err channel_closed

notify-notified : (s : Shared) → notify s ≡ notified s.receiver
unfolding notify
notify-notified s =
    elim s.receiver as (λ r. (if r then ok true else err channel_closed) ≡ notified r) [
      | true ↦ refl
      | false ↦ refl
    ]

-- The wait of a round ends the loop, and this is how.
abbrev pub Stopped : ReadBatch → Round → Shared → Outcome × Shared → Type 0
Stopped b r t o =
    ((r.late ≡ true) × (o ≡ (err timeout, t)))
    ⊎ ((r.late ≡ false) × (r.wait ≡ gone) × (o ≡ (err channel_closed, r.meanwhile t)))
    ⊎ ((r.late ≡ false)
        × (r.wait ≡ elapsed)
        × (is_drop (Qos.congestion_control b.qos) ≡ true)
        × IsCongested b (behind_wait b elapsed (r.meanwhile t))
        × (o ≡ (ok false, behind_wait b elapsed (r.meanwhile t))))

-- The last attempt is made in `t`, with these rounds of waiting left.
abbrev pub Ended : ReadBatch → List Round → Shared → Outcome × Shared → Type 0
Ended b left t o =
    ((length (items_at t.ring_buf (Qos.priority b.qos)) ≢ t.capacity)
      × (o ≡ (notified t.receiver, appended b t)))
    ⊎ (IsFull b t
        × (is_drop (Qos.congestion_control b.qos) ≡ true)
        × IsCongested b t
        × (o ≡ (ok false, t)))
    ⊎ (IsFull b t × (left ≡ []) × (o ≡ (waiting, t)))
    ⊎ (IsFull b t × ((r : Round) × (rest : List Round) × (left ≡ r ∷ rest) × Stopped b r t o))

pub attempt-room :
    (b : ReadBatch) (s : Shared)
    → length (items_at s.ring_buf (Qos.priority b.qos)) ≢ s.capacity
    → attempt b s ≡ (done (notify s), appended b s)
unfolding attempt Fifo.push
attempt-room b s room = ground (arith, room)

-- What an attempt comes to.
attempt-cases :
    (b : ReadBatch) (s : Shared)
    → (length (items_at s.ring_buf (Qos.priority b.qos)) ≢ s.capacity)
        × (attempt b s ≡ (done (notify s), appended b s))
      ⊎ IsFull b s
        × (is_drop (Qos.congestion_control b.qos) ≡ true)
        × IsCongested b s
        × (attempt b s ≡ (done (ok false), s))
      ⊎ IsFull b s × (attempt b s ≡ (again, s))
unfolding attempt Fifo.push
attempt-cases b s =
    let p = Qos.priority b.qos in
    let n = length (items_at s.ring_buf p) in
    elim (Bool-cases (n == s.capacity)) [
      | inr f ↦
          let room : n ≢ s.capacity = λ e. absurd (ground (arith, e, f)) in
          inl (room, attempt-room b s room)
      | inl f ↦ elim (Bool-cases (is_drop (Qos.congestion_control b.qos))) [
        | inr g ↦ inr (inr (ground (arith, f), ground (arith, f, g)))
        | inl g ↦ elim (Bool-cases (Status.any s.status (Status.congested p))) [
          | inl h ↦ inr (inl (ground (arith, f), g, h, ground (arith, f, g, h)))
          | inr h ↦ inr (inr (ground (arith, f), ground (arith, f, g, h)))
        ]
      ]
    ]

-- What a wait comes to: another attempt, or the end of the loop.
wait-cases :
    (r : Round) (b : ReadBatch) (s : Shared)
    → (Resumes b r × (wait_room r b s ≡ (again, behind_wait b r.wait (r.meanwhile s))))
      ⊎ ((o : Outcome) × (s' : Shared) × (wait_room r b s ≡ (done o, s')) × Stopped b r s (o, s'))
unfolding wait_room after_wait
wait-cases r b s = elim (Bool-cases r.late) [
  | inl e ↦ inr (err timeout, s, rw e refl, inl (e, refl))
  | inr e ↦ go e r.wait refl
]
  where
    go :
        r.late ≡ false
        → (w : Wait) → r.wait ≡ w
        → (Resumes b r × (wait_room r b s ≡ (again, behind_wait b r.wait (r.meanwhile s))))
          ⊎ ((o : Outcome) × (s' : Shared) × (wait_room r b s ≡ (done o, s'))
              × Stopped b r s (o, s'))
    go e woken f = inl ((e, inl f), rw (e, f) refl)
    go e gone f = inr (err channel_closed, r.meanwhile s, rw (e, f) refl, inr (inl (e, f, refl)))
    go e elapsed f = elim (Bool-cases (is_drop (Qos.congestion_control b.qos))) [
      | inl g ↦ inr (
        ok false,
        behind_wait b elapsed (r.meanwhile s),
        rw (e, f, g) refl,
        inr (inr (e, f, g, set-congested (Qos.priority b.qos) (r.meanwhile s).status, refl)),
      )
      | inr g ↦ inl ((e, inr (f, g)), rw (e, f, g) refl)
    ]

-- For any rounds of waiting, and whatever the other end does in them, the loop makes its last attempt
-- in a state that they lead to, each with the ring full and a wait after which it goes on. That attempt
-- finds room, and then the batch is put behind the others of its priority and the result is `Ok(true)`,
-- or ChannelClosed if the receiver is gone. Or the ring is full. Then the batch is dropped when it may
-- be and its priority is congested; the loop still waits when there are no more rounds; and otherwise
-- the next wait ends the loop: with Timeout if the time was over before it, with ChannelClosed if the
-- other end is gone, and with the batch dropped and its priority congested if it may be dropped and the
-- wait has timed out.
pub push_ring-Ended :
    (rounds : List Round) (b : ReadBatch) (s : Shared)
    → (left : List Round) × (t : Shared) × Led b rounds s left t
      × Ended b left t (push_ring rounds b s)
unfolding push_ring resume
push_ring-Ended [] b s = elim (attempt-cases b s) [
  | inl (room, e) ↦
      ([], s, start [] s, inl (room, rw e (ap (λ x. (x, appended b s)) (notify-notified s))))
  | inr (inl (f, d, g, e)) ↦ ([], s, start [] s, inr (inl (f, d, g, rw e refl)))
  | inr (inr (f, e)) ↦ ([], s, start [] s, inr (inr (inl (f, refl, rw e refl))))
]
push_ring-Ended (r ∷ rounds) b s = elim (attempt-cases b s) [
  | inl (room, e) ↦ (
    r ∷ rounds,
    s,
    start (r ∷ rounds) s,
    inl (room, rw e (ap (λ x. (x, appended b s)) (notify-notified s))),
  )
  | inr (inl (f, d, g, e)) ↦ (r ∷ rounds, s, start (r ∷ rounds) s, inr (inl (f, d, g, rw e refl)))
  | inr (inr (f, e)) ↦ elim (wait-cases r b s) [
    | inl (on, w) ↦
        let (left, t, led, end) = push_ring-Ended rounds b (behind_wait b r.wait (r.meanwhile s)) in
        (left, t, waited r rounds left s t f on led, rw (e, w) end)
    | inr (o, s', w, stop) ↦ (
      r ∷ rounds,
      s,
      start (r ∷ rounds) s,
      inr (inr (inr (f, (r, rounds, refl, rw (e, w) stop)))),
    )
  ]
]
