-- ===== src/Pipeline/Tx/Out/Drained.antt =====
-- The last loop of `PipelineTxOut::drain`.
use thubo.Prelude.{ℕ, zero, suc, ◌<◌, ◌≡◌, refl, ap, List, [], ◌∷◌, ◌++◌, inl, inr, length, arith}
use thubo.Protocol.Priority
use thubo.Protocol.Priority.{Priority, PerPriority, high, medium, low, background}
use thubo.Pipeline.RingBuf.Fifo.{Queue}
use thubo.Pipeline.RingBuf.Fifo.First.{
  items_at, First, here, behind, NoneOf, peek_first-cases, pull_first-First, pull_first-NoneOf,
  total, total-index_set,
}
use thubo.Pipeline.Tx.{WriteBatch, write_len}
use thubo.Pipeline.Tx.Out.{StageOut, flush_all, drain, drain_loop, drain_next}

-- The lengths of these are written.
abbrev pub written : List WriteBatch → List WriteBatch
written [] = []
written (b ∷ bs) = write_len b ∷ written bs

-- All batches, by priority.
abbrev pub all_items : PerPriority (Queue WriteBatch) → List WriteBatch
all_items qs =
    qs.at_high.items ++ (qs.at_medium.items ++ (qs.at_low.items ++ qs.at_background.items))

all_items-First :
    (qs : PerPriority (Queue WriteBatch)) (p : Priority) (b : WriteBatch) (bs : List WriteBatch)
    → First qs p Priority.all
    → items_at qs p ≡ b ∷ bs
    → all_items qs
      ≡ b ∷ all_items (Priority.index_set qs p (record (Priority.index qs p) { items = bs }))
unfolding Priority.index Priority.index_set
all_items-First qs _ b bs (here _) e = rw e refl
all_items-First qs _ b bs (behind _ _ n (here _)) e = rw (n, e) refl
all_items-First qs _ b bs (behind _ _ n (behind _ _ n' (here _))) e = rw (n, n', e) refl
all_items-First qs _ b bs (behind _ _ n (behind _ _ n' (behind _ _ n'' (here _)))) e =
    rw (n, n', n'', e) refl
all_items-First qs _ b bs (behind _ _ n (behind _ _ n' (behind _ _ n'' (behind _ _ _ x)))) e =
    elim x [ ]

all_items-NoneOf :
    (qs : PerPriority (Queue WriteBatch)) → NoneOf Priority.all qs → all_items qs ≡ []
unfolding Priority.index
all_items-NoneOf qs n = rw (n.0, n.1.0, n.1.1.0, n.1.1.1.0) refl

-- With more rounds than there are batches, the loop gives them all, by priority and in the order of the
-- queues, with their lengths written.
pub drain_loop-all :
    (fuel : ℕ) (qs : PerPriority (Queue WriteBatch))
    → total qs < fuel
    → (drain_loop fuel qs).0 ≡ written (all_items qs)
unfolding drain_loop drain_next
drain_loop-all zero qs lt = absurd (omega (arith, lt))
drain_loop-all (suc fuel) qs lt = elim (peek_first-cases Priority.all qs) [
  | inl (f, n) ↦ rw (pull_first-NoneOf Priority.all qs n, all_items-NoneOf qs n) refl
  | inr (p, b, bs, f, at, first) ↦
      let a = record (Priority.index qs p) { items = bs } in
      rw (pull_first-First qs p b bs Priority.all first at, all_items-First qs p b bs first at)
        (ap (λ l. write_len b ∷ l)
          (drain_loop-all fuel (Priority.index_set qs p a)
            (omega (arith, total-index_set qs p a, ap length at))))
]

-- `drain` gives all batches, with those that were booked, by priority and in the order of the queues, with
-- their lengths written.
pub drain-all : (s : StageOut) → (drain s).0 ≡ written (all_items (flush_all s.ringbuf_inout))
unfolding drain
drain-all s = let qs = flush_all s.ringbuf_inout in drain_loop-all (suc (total qs)) qs (omega arith)
