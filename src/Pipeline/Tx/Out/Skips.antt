-- ===== src/Pipeline/Tx/Out/Skips.antt =====
-- `PipelineTxOut::try_pull` takes the batches that were given up off the ring.
use thubo.Prelude.{
  ℕ, suc, ◌<◌, ◌≡◌, refl, ap, sym, ◌∙◌, List, [], ◌∷◌, ◌++◌, Option, some, Bool, true, false, ◌||◌,
  length, arith,
}
use thubo.Protocol.Priority
use thubo.Protocol.Priority.{Priority, PerPriority, high, medium, low, background}
use thubo.Protocol.Qos
use thubo.Pipeline.Status
use thubo.Pipeline.Status.Flags.{unset-any}
use thubo.Pipeline.RingBuf.Fifo
use thubo.Pipeline.RingBuf.Fifo.{Queue, empty}
use thubo.Pipeline.RingBuf.Fifo.First.{items_at, above_ne}
use thubo.Pipeline.RingBuf.Reader.{got}
use thubo.Pipeline.RingBuf.Rep.Storage.{index-index_set_self, index-index_set_ne}
use thubo.Pipeline.Tx.{WriteBatch, write_len}
use thubo.Pipeline.Tx.Out.Recycled.{recycled, refill-recycled}
use thubo.Pipeline.Tx.Out.{
  StageOut, is_given_up, is_dropped, refill_notify, scan, or_next, take_or_drop, found, try_pull,
}

-- No priority above `p` has a batch, nor one that is booked.
abbrev pub ClearAbove : Priority → PerPriority (Queue WriteBatch) → Type 0
ClearAbove p qs = (q : Priority) → Priority.to_u8 q < Priority.to_u8 p → Priority.index qs q ≡ empty

pub scan-first :
    (p : Priority) (qs : PerPriority (Queue WriteBatch)) (b : WriteBatch) (bs : List WriteBatch)
    → ClearAbove p qs
    → items_at qs p ≡ b ∷ bs
    → scan Priority.all qs
      ≡ (got b, Priority.index_set qs p (record (Priority.index qs p) { items = bs }))
unfolding scan or_next Fifo.pull_priority Priority.to_u8 Priority.index Priority.index_set
scan-first high qs b bs n e = rw e refl
scan-first medium qs b bs n e = rw (n high (omega arith), e) refl
scan-first low qs b bs n e = rw (n high (omega arith), n medium (omega arith), e) refl
scan-first background qs b bs n e =
    rw (n high (omega arith), n medium (omega arith), n low (omega arith), e) refl

-- The flag of its priority is not set, nor its own: the batch is kept.
is_dropped-kept :
    (b : WriteBatch) (s : StageOut)
    → Status.any s.status (Status.congested (Qos.priority b.qos)) ≡ false
    → is_given_up b s.drop_flags ≡ false
    → (is_dropped b s).0 ≡ false
unfolding is_dropped Status.unset
is_dropped-kept b s c e = rw (c, e) refl

or_true : (b : Bool) → (b || true) ≡ true
or_true true = refl
or_true false = refl

is_dropped-given_up :
    (b : WriteBatch) (s : StageOut)
    → is_given_up b s.drop_flags ≡ true
    → is_dropped b s ≡ (
      true,
      record s { status = (Status.unset (Status.congested (Qos.priority b.qos)) s.status).1 },
    )
unfolding is_dropped Status.unset
is_dropped-given_up b s e = rw (e, or_true _) refl

-- Every one of these has a drop flag that is set.
abbrev pub AllGivenUp : List WriteBatch → List ℕ → Type 0
AllGivenUp [] flags = Unit {0}
AllGivenUp (b ∷ bs) flags = (is_given_up b flags ≡ true) × AllGivenUp bs flags

-- The state after the first batch of `p` was taken.
abbrev taken : Priority → List WriteBatch → StageOut → StageOut
taken p items s = record s {
  ringbuf_inout =
      Priority.index_set s.ringbuf_inout p
        (record (Priority.index s.ringbuf_inout p) { items = items });
}

-- The state after it was given up.
abbrev given_up : Priority → WriteBatch → List WriteBatch → StageOut → StageOut
given_up p g items s = refill_notify g (record (taken p items s) {
  status = (Status.unset (Status.congested (Qos.priority g.qos)) s.status).1;
})

try_pull-given_up :
    (fuel : ℕ) (p : Priority) (g : WriteBatch) (items : List WriteBatch) (s : StageOut)
    → ClearAbove p s.ringbuf_inout
    → items_at s.ringbuf_inout p ≡ g ∷ items
    → Status.any s.status Status.disabled ≡ false
    → is_given_up g s.drop_flags ≡ true
    → try_pull (suc fuel) s ≡ try_pull fuel (given_up p g items s)
unfolding try_pull found take_or_drop
try_pull-given_up fuel p g items s clear at enabled up =
    rw
      (
        scan-first p s.ringbuf_inout g items clear at,
        enabled,
        is_dropped-given_up g (taken p items s) up,
      )
      refl

-- What `try_pull` gives, what is left in the ring of `p`, and the ring of empty batches.
abbrev pub Handed :
    Priority
    → WriteBatch
    → List WriteBatch
    → PerPriority (Queue WriteBatch)
    → Option WriteBatch × StageOut
    → Type 0
Handed p b rest empties (r, s) =
    (r ≡ some (write_len b)) × (items_at s.ringbuf_inout p ≡ rest) × (s.ringbuf_outrefill ≡ empties)

try_pull-kept :
    (fuel : ℕ) (p : Priority) (b : WriteBatch) (rest : List WriteBatch) (s : StageOut)
    → ClearAbove p s.ringbuf_inout
    → items_at s.ringbuf_inout p ≡ b ∷ rest
    → Status.any s.status Status.disabled ≡ false
    → Status.any s.status (Status.congested (Qos.priority b.qos)) ≡ false
    → is_given_up b s.drop_flags ≡ false
    → Handed p b rest s.ringbuf_outrefill (try_pull (suc fuel) s)
unfolding try_pull found take_or_drop is_dropped Status.unset
try_pull-kept fuel p b rest s clear at enabled calm up =
    rw (scan-first p s.ringbuf_inout b rest clear at, enabled, calm, up)
      (
        refl,
        ap (λ q. q.items)
            (index-index_set_self s.ringbuf_inout p
              (record (Priority.index s.ringbuf_inout p) { items = rest })),
        refl,
      )

ClearAbove-index_set :
    (p : Priority) (qs : PerPriority (Queue WriteBatch)) (x : Queue WriteBatch)
    → ClearAbove p qs
    → ClearAbove p (Priority.index_set qs p x)
ClearAbove-index_set p qs x clear q lt =
    index-index_set_ne qs p q x (λ e. above_ne p q lt (sym e)) ∙ clear q lt

-- When the pipeline is not disabled, no priority above `p` has a batch or one that is booked, and the
-- batches of `p` are some whose drop flags are set and then one that has none set, of a priority that
-- is not congested: with one round more than there are flagged batches, `try_pull` gives that one, with
-- its length written, leaves those behind it, and gives the flagged ones back: each goes behind the
-- empty batches of its priority if one of the slots is free, in their order, with nothing but its
-- length in its frame, no chunks and no drop flag.
pub try_pull-skips :
    (p : Priority) (flagged : List WriteBatch) (b : WriteBatch) (rest : List WriteBatch)
    (s : StageOut)
    → ClearAbove p s.ringbuf_inout
    → items_at s.ringbuf_inout p ≡ flagged ++ (b ∷ rest)
    → Status.any s.status Status.disabled ≡ false
    → Status.any s.status (Status.congested (Qos.priority b.qos)) ≡ false
    → AllGivenUp flagged s.drop_flags
    → is_given_up b s.drop_flags ≡ false
    → Handed p b rest
        (recycled s.capacity flagged s.ringbuf_outrefill)
        (try_pull (suc (length flagged)) s)
unfolding refill_notify
try_pull-skips p [] b rest s clear at enabled calm all up =
    try_pull-kept 0 p b rest s clear at enabled calm up
try_pull-skips p (g ∷ gs) b rest s clear at enabled calm all up =
    let f = Status.congested (Qos.priority g.qos) in
    let items = gs ++ (b ∷ rest) in
    let x = record (Priority.index s.ringbuf_inout p) { items = items } in
    let (handed, left, given) =
      try_pull-skips p gs b rest (given_up p g items s)
        (ClearAbove-index_set p s.ringbuf_inout x clear)
        (ap (λ q. q.items) (index-index_set_self s.ringbuf_inout p x))
        (unset-any f Status.disabled s.status enabled)
        (unset-any f (Status.congested (Qos.priority b.qos)) s.status calm) all.1 up in
    rw (try_pull-given_up (suc (length gs)) p g items s clear at enabled all.0) (
      handed,
      left,
      given ∙ ap (recycled s.capacity gs) (refill-recycled s.capacity g s.ringbuf_outrefill),
    )
