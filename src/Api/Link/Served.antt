-- ===== src/Api/Link/Served.antt =====
-- The rounds of the sending task take every batch that waits in the ring, in order.
use thubo.Prelude.{
  ℕ, zero, suc, ◌≡◌, ◌≢◌, refl, ap, ap₂, sym, ◌∙◌, List, [], ◌∷◌, ◌++◌, Option, some, none, false,
  map, take, drop, replicate, arith, length, ◌+◌, ◌/◌, length-drop, take-append-drop, inl, inr,
}
use thubo.Protocol.Priority
use thubo.Protocol.Priority.{Priority, PerPriority, high, medium, low, background}
use thubo.Protocol.Qos
use thubo.Pipeline.Status
use thubo.Pipeline.Status.Flags.{Calm, unset-Calm, unset-any}
use thubo.Pipeline.RingBuf.Fifo
use thubo.Pipeline.RingBuf.Fifo.{Queue, empty}
use thubo.Pipeline.RingBuf.Fifo.First.{above_ne, total}
use thubo.Pipeline.RingBuf.Reader.{got, nothing}
use thubo.Pipeline.RingBuf.Views.{Priority-cases}
use thubo.Pipeline.RingBuf.Rep.Storage.{index-index_set_self, index-index_set_ne}
use thubo.Pipeline.Tx.{WriteBatch, AtomicBackoff, write_len}
use thubo.Pipeline.Tx.Out.{
  StageOut, is_given_up, is_dropped, scan, or_next, take_or_drop, found, try_pull,
}
use thubo.Pipeline.Tx.Out.Skips.{ClearAbove, scan-first}
use thubo.Pipeline.Tx.Out.Booked.{visit-first}
use thubo.Pipeline.Tx.Out.Pulling.{
  State, Turn, returned, again, pulled, at_priority, round, rounds, and_then, pull, reset, zeros,
}
use thubo.Api.Sender.Traffic.{given_back}
use thubo.Api.Sender.Rounds.{sent, keep_alive, outs, ready, traffic, traffic_pulled}
use thubo.Api.Sender.Task
use thubo.Api.Sender.Task.{Event}
use thubo.Api.Link
use thubo.Api.Link.{Parcel, out_of, batches_of}

-- The ring of `p` has these batches and none that is booked, and those of the others are empty; nothing is
-- congested, disabled or given up.
pub record Holds (p : Priority) (bs : List WriteBatch) (s : StageOut) : Type 0 where
  pub queue : Priority.index s.ringbuf_inout p ≡ record { items = bs; held = none }
  pub others : (q : Priority) → p ≢ q → Priority.index s.ringbuf_inout q ≡ empty
  pub enabled : Status.any s.status Status.disabled ≡ false
  pub calm : Calm s.status
  pub no_flags : s.drop_flags ≡ []

-- The stage when the first batch of `p` was taken.
abbrev behind : Priority → WriteBatch → List WriteBatch → StageOut → StageOut
behind p b bs s = record s {
  ringbuf_inout = Priority.index_set s.ringbuf_inout p (record { items = bs; held = none });
  status = (Status.unset (Status.congested (Qos.priority b.qos)) s.status).1;
}

behind-Holds :
    (p : Priority) (b : WriteBatch) (bs : List WriteBatch) (s : StageOut)
    → Holds p (b ∷ bs) s
    → Holds p bs (behind p b bs s)
behind-Holds p b bs s h =
    let q : Queue WriteBatch = record { items = bs; held = none } in
    let f = Status.congested (Qos.priority b.qos) in
    record {
      queue = index-index_set_self s.ringbuf_inout p q;
      others = λ r ne. index-index_set_ne s.ringbuf_inout p r q ne ∙ h.others r ne;
      enabled = unset-any f Status.disabled s.status h.enabled;
      calm = unset-Calm f s.status h.calm;
      no_flags = h.no_flags;
    }

kept_lem : (b : WriteBatch) (flags : List ℕ) → flags ≡ [] → is_given_up b flags ≡ false
unfolding is_given_up
kept_lem b flags e = rw e (go b.drop_flag)
  where
    go : (o : Option ℕ) → is_given_up (record b { drop_flag = o }) [] ≡ false
    go none = refl
    go (some f) = refl

Holds-ClearAbove :
    (p : Priority) (bs : List WriteBatch) (s : StageOut)
    → Holds p bs s
    → ClearAbove p s.ringbuf_inout
Holds-ClearAbove p bs s h q lt = h.others q (λ e. above_ne p q lt (sym e))

is_dropped-Holds :
    (p : Priority) (b : WriteBatch) (bs : List WriteBatch) (s : StageOut)
    → Holds p (b ∷ bs) s
    → is_dropped b (record s {
      ringbuf_inout = Priority.index_set s.ringbuf_inout p (record { items = bs; held = none });
    })
      ≡ (false, behind p b bs s)
unfolding is_dropped Status.unset
is_dropped-Holds p b bs s h =
    rw (h.calm (Qos.priority b.qos), kept_lem b s.drop_flags h.no_flags) refl

scan-next :
    (p : Priority) (b : WriteBatch) (bs : List WriteBatch) (s : StageOut)
    → Holds p (b ∷ bs) s
    → scan Priority.all s.ringbuf_inout
      ≡ (got b, Priority.index_set s.ringbuf_inout p (record { items = bs; held = none }))
scan-next p b bs s h =
    scan-first p s.ringbuf_inout b bs (Holds-ClearAbove p (b ∷ bs) s h) (ap (λ q. q.items) h.queue)
    ∙ ap (λ q. (got b, Priority.index_set s.ringbuf_inout p (record { items = bs; held = q.held })))
        h.queue

try_pull-next :
    (fuel : ℕ) (p : Priority) (b : WriteBatch) (bs : List WriteBatch) (s : StageOut)
    → Holds p (b ∷ bs) s
    → try_pull (suc fuel) s ≡ (some (write_len b), behind p b bs s)
unfolding try_pull found take_or_drop
try_pull-next fuel p b bs s h =
    rw (scan-next p b bs s h, h.enabled, is_dropped-Holds p b bs s h) refl

-- `pull`, in whose first round there is a batch: its clock, its lock and the other tasks do not matter.
abbrev pub pull_once :
    ℕ → Turn → PerPriority AtomicBackoff → StageOut → Option WriteBatch × StageOut
pull_once max t words s =
    let (r, x) = pull max (t ∷ []) (record {
      out = s;
      words = words;
      booked_len = zeros;
      backoff = false;
      backoff_num = zeros;
    }) in
    (elim r [ returned b ↦ b | again ↦ none ], x.out)

round-next :
    (max : ℕ) (t : Turn) (p : Priority) (b : WriteBatch) (bs : List WriteBatch) (x : State)
    → Holds p (b ∷ bs) x.out
    → round max t x ≡ (returned (some (write_len b)), record x { out = behind p b bs x.out })
unfolding round at_priority Fifo.pull_priority pulled
round-next max t p b bs x h =
    let (others, e) = visit-first max t p x (Holds-ClearAbove p (b ∷ bs) x.out h) in
    rw (h.enabled, e, h.queue, is_dropped-Holds p b bs x.out h) refl

pull_once-next :
    (max : ℕ) (t : Turn) (words : PerPriority AtomicBackoff) (p : Priority) (b : WriteBatch)
    (bs : List WriteBatch) (s : StageOut)
    → Holds p (b ∷ bs) s
    → pull_once max t words s ≡ (some (write_len b), behind p b bs s)
unfolding pull rounds and_then reset
pull_once-next max t words p b bs s h =
    let x : State = record {
      out = s;
      words = words;
      booked_len = zeros;
      backoff = false;
      backoff_num = zeros;
    } in
    rw (round-next max t p b bs x h) refl

scan-none :
    (p : Priority) (s : StageOut)
    → Holds p [] s
    → scan Priority.all s.ringbuf_inout ≡ (nothing, s.ringbuf_inout)
unfolding scan or_next Fifo.pull_priority Priority.index Priority.index_set
scan-none p s h =
    let all : (q : Priority) → Priority.index s.ringbuf_inout q ≡ empty = λ q.
      elim (Priority-cases p q) [
        | inl e ↦ ap (Priority.index s.ringbuf_inout) (sym e) ∙ h.queue
        | inr ne ↦ h.others q ne
      ] in
    rw (all high, all medium, all low, all background) refl

try_pull-none :
    (fuel : ℕ) (p : Priority) (s : StageOut) → Holds p [] s → try_pull (suc fuel) s ≡ (none, s)
unfolding try_pull found
try_pull-none fuel p s h = rw (scan-none p s h, h.enabled) refl

-- The batches that are ready are the next of the ring.
ready-Holds :
    (n : ℕ) (p : Priority) (bs : List WriteBatch) (s : StageOut)
    → Holds p bs s
    → ((ready n s).0 ≡ map write_len (take n bs)) × Holds p (drop n bs) (ready n s).1
ready-Holds zero p bs s h = (refl, h)
ready-Holds (suc n) p [] s h = rw (try_pull-none (total s.ringbuf_inout) p s h) (refl, h)
ready-Holds (suc n) p (b ∷ bs) s h =
    let (e, k) = ready-Holds n p bs (behind p b bs s) (behind-Holds p b bs s h) in
    rw (try_pull-next (total s.ringbuf_inout) p b bs s h) (ap (λ l. write_len b ∷ l) e, k)

-- Each round of the sending task: so many keep-alives, and then a pull, with what it meets.
abbrev pub Rounds : Type 0
Rounds = List (ℕ × (Turn × PerPriority AtomicBackoff))

-- The keep-alives behind the last pull come last.
abbrev pub events_of : ℕ → Rounds → ℕ → List Event
events_of max [] idle = replicate idle Task.idle
events_of max ((k, (t, words)) ∷ rs) idle =
    replicate k Task.idle ++ (Task.pulled (pull_once max t words) ∷ events_of max rs idle)

-- A pull takes a batch, and up to seven more.
abbrev pub parcels_of : Rounds → ℕ → List WriteBatch → List Parcel
parcels_of [] idle bs = replicate idle Link.alive
parcels_of ((k, x) ∷ rs) idle bs =
    replicate k Link.alive ++ (map Link.ready (take 8 bs) ++ parcels_of rs idle (drop 8 bs))

out_of-++ : (us vs : List Parcel) → out_of (us ++ vs) ≡ out_of us ++ out_of vs
out_of-++ [] vs = refl
out_of-++ (Link.ready b ∷ us) vs = ap (λ l. sent (write_len b) ∷ l) (out_of-++ us vs)
out_of-++ (Link.alive ∷ us) vs = ap (λ l. keep_alive ∷ l) (out_of-++ us vs)

out_of-ready :
    (bs : List WriteBatch) (vs : List Parcel)
    → out_of (map Link.ready bs ++ vs) ≡ outs (map write_len bs) (out_of vs)
out_of-ready [] vs = refl
out_of-ready (b ∷ bs) vs = ap (λ l. sent (write_len b) ∷ l) (out_of-ready bs vs)

traffic-idle :
    (k : ℕ) (events : List Event) (s : StageOut) (us : List Parcel)
    → (traffic events s).0 ≡ out_of us
    → (traffic (replicate k Task.idle ++ events) s).0 ≡ out_of (replicate k Link.alive ++ us)
traffic-idle zero events s us e = e
traffic-idle (suc k) events s us e = ap (λ l. keep_alive ∷ l) (traffic-idle k events s us e)

traffic-idle_end :
    (k : ℕ) (s : StageOut) → (traffic (replicate k Task.idle) s).0 ≡ out_of (replicate k Link.alive)
traffic-idle_end zero s = refl
traffic-idle_end (suc k) s = ap (λ l. keep_alive ∷ l) (traffic-idle_end k s)

given_back-Holds :
    (p : Priority) (bs cs : List WriteBatch) (s : StageOut)
    → Holds p bs s
    → Holds p bs (given_back cs s)
given_back-Holds p bs cs s h = record {
  queue = h.queue;
  others = h.others;
  enabled = h.enabled;
  calm = h.calm;
  no_flags = h.no_flags;
}

pub traffic-parcels_of :
    (max : ℕ) (rs : Rounds) (idle : ℕ) (p : Priority) (bs : List WriteBatch) (s : StageOut)
    → Holds p bs s
    → length rs ≡ (length bs + 7) / 8
    → (traffic (events_of max rs idle) s).0 ≡ out_of (parcels_of rs idle bs)
traffic-parcels_of max [] idle p bs s h e = traffic-idle_end idle s
traffic-parcels_of max ((k, (t, words)) ∷ rs) idle p [] s h e = absurd (omega arith)
traffic-parcels_of max ((k, (t, words)) ∷ rs) idle p (b ∷ bs) s h e =
    let (f, held) = ready-Holds 7 p bs (behind p b bs s) (behind-Holds p b bs s h) in
    let more = ready 7 (behind p b bs s) in
    let s' = given_back (write_len b ∷ more.0) more.1 in
    let ih =
      traffic-parcels_of max rs idle p (drop 7 bs) s'
        (given_back-Holds p (drop 7 bs) (write_len b ∷ more.0) more.1 held)
        (omega (arith, e, length-drop 7 bs)) in
    let us = map Link.ready (take 8 (b ∷ bs)) ++ parcels_of rs idle (drop 7 bs) in
    traffic-idle k (Task.pulled (pull_once max t words) ∷ events_of max rs idle) s us (
      ap (λ a. (traffic_pulled a (traffic (events_of max rs idle))).0)
        (pull_once-next max t words p b bs s h)
      ∙ ap₂ (λ l os. outs (write_len b ∷ l) os) f ih
      ∙ sym (out_of-ready (b ∷ take 7 bs) (parcels_of rs idle (drop 7 bs))))

batches_of-idle :
    (k : ℕ) (us : List Parcel) → batches_of (replicate k Link.alive ++ us) ≡ batches_of us
batches_of-idle zero us = refl
batches_of-idle (suc k) us = batches_of-idle k us

batches_of-idle_end : (k : ℕ) → batches_of (replicate k Link.alive) ≡ []
batches_of-idle_end zero = refl
batches_of-idle_end (suc k) = batches_of-idle_end k

batches_of-ready :
    (bs : List WriteBatch) (us : List Parcel)
    → batches_of (map Link.ready bs ++ us) ≡ bs ++ batches_of us
batches_of-ready [] us = refl
batches_of-ready (b ∷ bs) us = ap (λ l. b ∷ l) (batches_of-ready bs us)

pub batches_of-parcels_of :
    (rs : Rounds) (idle : ℕ) (bs : List WriteBatch)
    → length rs ≡ (length bs + 7) / 8
    → batches_of (parcels_of rs idle bs) ≡ bs
batches_of-parcels_of [] idle [] e = batches_of-idle_end idle
batches_of-parcels_of [] idle (b ∷ bs) e = absurd (omega arith)
batches_of-parcels_of ((k, x) ∷ rs) idle bs e =
    batches_of-idle k (map Link.ready (take 8 bs) ++ parcels_of rs idle (drop 8 bs))
    ∙ batches_of-ready (take 8 bs) (parcels_of rs idle (drop 8 bs))
    ∙ ap (λ l. take 8 bs ++ l)
        (batches_of-parcels_of rs idle (drop 8 bs) (omega (arith, e, length-drop 8 bs)))
    ∙ take-append-drop 8 bs
