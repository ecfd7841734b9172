-- ===== src/Pipeline/RingBuf/Rep/Pulls.antt =====
-- The calls on a reader do to the queue of their priority what the queue's operations do.
use thubo.Prelude.{ℕ, ◌≡◌, inl, inr, refl, ap, List, [], ◌∷◌, Option, some, none, true, arith}
use thubo.Protocol.Priority.{Priority}
use thubo.Pipeline.RingBuf.Word.{any-lane}
use thubo.Pipeline.RingBuf.Fifo
use thubo.Pipeline.RingBuf.Fifo.{Queue, initialised, pull_initialised}
use thubo.Pipeline.RingBuf.Ring.{RingBuffer}
use thubo.Pipeline.RingBuf.Writer.{RingBufferWriter}
use thubo.Pipeline.RingBuf.Reader.{RingBufferReader, pull_priority_inner, pull_priority, or_flag}
use thubo.Pipeline.RingBuf.Rep.{IsSound, Rep, Owns}
use thubo.Pipeline.RingBuf.Rep.Reading.{Took, is_empty-Seen, unmoved, taken}

module _ {T : Type 0} {c : ℕ} {p : Priority} {ring : RingBuffer T} {w : RingBufferWriter}
    {r : RingBufferReader} (sound : IsSound c ring)
    (owns : Owns r.update p r.local_idx_r ring.idx_r) where
  pub pull_empty-Took :
      (b : Option T)
      → Rep c ring w r p (record { items = []; held = b })
      → ((pull_priority_inner p r ring).0 ≡ none)
        × Took c p ring w r
            (pull_priority_inner p r ring).1.1
            (pull_priority_inner p r ring).1.0
            (record { items = []; held = b })
        × ((pull_priority_inner p r ring).1.0.cached_idx_w ≡ ring.idx_w)
  unfolding pull_priority_inner
  pull_empty-Took b rep =
      let sn = is_empty-Seen sound owns rep in
      elim sn.verdict [
        | inl (e, f, g) ↦ rw e (refl, unmoved sound owns rep true _ (rw e at sn), g)
        | inr (e, ne, f) ↦ absurd (omega arith)
      ]

  pub pull_some-Took :
      (t : T) (q : List T) (b : Option T)
      → Rep c ring w r p (record { items = t ∷ q; held = b })
      → ((pull_priority_inner p r ring).0 ≡ some (some t))
        × Took c p ring w r
            (pull_priority_inner p r ring).1.1
            (pull_priority_inner p r ring).1.0
            (record { items = q; held = b })
  unfolding pull_priority_inner
  pull_some-Took t q b rep =
      let sn = is_empty-Seen sound owns rep in
      elim sn.verdict [
        | inl (e, f, g) ↦ absurd (omega arith)
        | inr (e, ne, f) ↦
            let (got_it, k) = taken sound owns _ (rw e at sn) ne in rw e (ap some got_it, k)
      ]

  -- `pull_priority` is the queue's.
  pub pull_priority-Took :
      (q : List T) (b : Option T)
      → Rep c ring w r p (record { items = q; held = b })
      → ((pull_priority p r ring).0
          ≡ pull_initialised (Fifo.pull_priority (record { items = q; held = b })).0)
        × Took c p ring w r
            (pull_priority p r ring).1.1
            (pull_priority p r ring).1.0
            (Fifo.pull_priority (record { items = q; held = b })).1
  unfolding pull_priority or_flag Fifo.pull_priority
  pull_priority-Took (t ∷ q) b rep = let (e, k) = pull_some-Took t q b rep in rw e (refl, k)
  pull_priority-Took [] none rep =
      let (e, k, f) = pull_empty-Took none rep in
      rw (e, f, any-lane p ring.idx_w, rep.lanes.flag) (refl, k)
  pull_priority-Took [] (some u) rep =
      let (e, k, f) = pull_empty-Took (some u) rep in
      rw (e, f, any-lane p ring.idx_w, rep.lanes.flag) (refl, k)

  pub pull_priority_inner-Took :
      (q : List T) (b : Option T)
      → Rep c ring w r p (record { items = q; held = b })
      → ((pull_priority_inner p r ring).0
          ≡ initialised (Fifo.take_first (record { items = q; held = b })).0)
        × Took c p ring w r
            (pull_priority_inner p r ring).1.1
            (pull_priority_inner p r ring).1.0
            (Fifo.take_first (record { items = q; held = b })).1
  unfolding Fifo.take_first
  pull_priority_inner-Took [] b rep = let (e, k, f) = pull_empty-Took b rep in (e, k)
  pull_priority_inner-Took (t ∷ q) b rep = pull_some-Took t q b rep

pub take_first-none :
    {T : Type 0} (q : List T) (b : Option T)
    → (Fifo.take_first (record { items = q; held = b })).0 ≡ none
    → (Fifo.take_first (record { items = q; held = b })).1 ≡ record { items = q; held = b }
unfolding Fifo.take_first
take_first-none [] b e = refl
take_first-none (t ∷ q) b e = absurd (cc)
