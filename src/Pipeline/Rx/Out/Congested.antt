-- ===== src/Pipeline/Rx/Out/Congested.antt =====
-- A batch that may be dropped is given up when its priority is congested.
use thubo.Prelude.{
  ℕ, suc, ◌<◌, ◌≡◌, ◌≢◌, refl, ap, sym, ◌∙◌, inl, inr, List, [], ◌∷◌, none, true, false, length,
  arith,
}
use thubo.Protocol.CongestionControl.{is_drop}
use thubo.Protocol.Priority
use thubo.Protocol.Priority.{Priority, PerPriority}
use thubo.Protocol.Qos
use thubo.Pipeline.Status
use thubo.Pipeline.Status.Flags.{Calm, unset-any, unset-congested}
use thubo.Pipeline.RingBuf.Fifo
use thubo.Pipeline.RingBuf.Fifo.{Queue}
use thubo.Pipeline.RingBuf.Fifo.First.{
  items_at, peek_first-First, pull_first-First, total, total-index_set,
}
use thubo.Pipeline.RingBuf.Views.{Priority-cases, index_set-both}
use thubo.Pipeline.Rx.{ReadBatch}
use thubo.Pipeline.Rx.Out.{Shared, look, discard, arrive, try_pull}
use thubo.Pipeline.Rx.Out.View.{Received, Carries, View}
use thubo.Pipeline.Rx.Out.Meanwhile.{NoneAbove, NoneAbove-First}
use thubo.Pipeline.Rx.Out.Pulls.{Pulled, try_pull-next, try_pull-Pulled}

look-congested :
    (b : ReadBatch) (st : Status.Status)
    → Status.any st (Status.congested (Qos.priority b.qos)) ≡ true
    → is_drop (Qos.congestion_control b.qos) ≡ true
    → look b st ≡ (none, (Status.unset (Status.congested (Qos.priority b.qos)) st).1)
unfolding look Status.unset
look-congested b st e f = rw (e, f) refl

-- Only this priority is congested: with its flag taken back, none is.
unset_only :
    (p : Priority) (st : Status.Status)
    → ((q : Priority) → p ≢ q → Status.any st (Status.congested q) ≡ false)
    → Calm (Status.unset (Status.congested p) st).1
unset_only p st h q = elim (Priority-cases p q) [
  | inl e ↦ rw (sym e) (unset-congested p st)
  | inr ne ↦ unset-any (Status.congested p) (Status.congested q) st (h q ne)
]

-- For the first batch of the first priority that has one, which may be dropped, with this priority
-- congested and no other, the other batches holding the messages of these queues, no batch coming in
-- meanwhile and more rounds than there are batches: `try_pull` gives the first message of the queues
-- without those of that batch, whatever is left in it, and leaves batches that hold the others and no
-- priority congested.
pub try_pull-congested :
    (fuel : ℕ) (s : Shared) (vs : PerPriority (Queue Received)) (b : ReadBatch)
    (bs : List ReadBatch) (rest : List Received)
    → let p = Qos.priority b.qos in
      items_at s.ring_buf p ≡ b ∷ bs
      → NoneAbove p s.ring_buf
      → is_drop (Qos.congestion_control b.qos) ≡ true
      → Status.any s.status (Status.congested p) ≡ true
      → ((q : Priority) → p ≢ q → Status.any s.status (Status.congested q) ≡ false)
      → ((q : Priority) → p ≢ q → Carries q (items_at s.ring_buf q) (items_at vs q))
      → Carries p bs rest
      → total s.ring_buf < suc fuel
      → Pulled
          (Fifo.pull_first Priority.all
            (Priority.index_set vs p (record (Priority.index vs p) { items = rest })))
          (try_pull (suc fuel) [] s)
unfolding discard arrive
try_pull-congested fuel s vs b bs rest at none_above drops flagged calm others more enough =
    let p = Qos.priority b.qos in
    let first = NoneAbove-First p s.ring_buf none_above in
    let st = (Status.unset (Status.congested p) s.status).1 in
    let a = record (Priority.index s.ring_buf p) { items = bs } in
    let s' = record s {
      ring_buf = Priority.index_set s.ring_buf p a;
      status = st;
      can_send = p ∷ s.can_send;
    } in
    let step : try_pull (suc fuel) [] s ≡ try_pull fuel [] s' =
      try_pull-next fuel [] s p b st (peek_first-First s.ring_buf p b bs Priority.all first at)
        (look-congested b s.status flagged drops)
      ∙ ap
          (λ x.
            try_pull fuel [] (record s { ring_buf = x; status = st; can_send = p ∷ s.can_send }))
          (ap (λ x. x.1) (pull_first-First s.ring_buf p b bs Priority.all first at)) in
    let v : View s' (Priority.index_set vs p (record (Priority.index vs p) { items = rest })) =
      record {
        calm = unset_only p s.status calm;
        carries =
            index_set-both (λ q x y. Carries q x.items y.items) s.ring_buf vs p _ _ more others;
      } in
    rw step
      (try_pull-Pulled fuel s' _ v (omega (arith, total-index_set s.ring_buf p a, ap length at)))
