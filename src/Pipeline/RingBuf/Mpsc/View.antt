-- ===== src/Pipeline/RingBuf/Mpsc/View.antt =====
-- The writers of four priorities and their reader are four queues.
use thubo.Prelude.{ℕ, ◌≡◌, ◌⊎◌, inl, inr, refl, ap, sym, ◌∙◌, List, Option, some, none, true, false}
use thubo.Protocol.Priority
use thubo.Protocol.Priority.{Priority, PerPriority, high, medium, low, background}
use thubo.Pipeline.RingBuf.Fifo
use thubo.Pipeline.RingBuf.Fifo.{Queue, initialised}
use thubo.Pipeline.RingBuf.Ring.{RingBuffer, m}
use thubo.Pipeline.RingBuf.Writer
use thubo.Pipeline.RingBuf.Writer.{RingBufferWriter}
use thubo.Pipeline.RingBuf.Reader
use thubo.Pipeline.RingBuf.Reader.{RingBufferReader}
use thubo.Pipeline.RingBuf.Rep.{Rep, Owns}
use thubo.Pipeline.RingBuf.Rep.Storage.{index-index_set_self, index-index_set_ne}
use thubo.Pipeline.RingBuf.Rep.Steps.{Rep-written_by}
use thubo.Pipeline.RingBuf.Rep.Writing.{Wrote}
use thubo.Pipeline.RingBuf.Rep.Calls.{book-Wrote, peek-is_held, deref_mut-Wrote, commit-Wrote}
use thubo.Pipeline.RingBuf.Rep.Pulls.{pull_priority-Took}
use thubo.Pipeline.RingBuf.Views.{
  Priority-cases, index_set-all, ReaderView, ReaderView-Owns, Took-ReaderView,
  pull_first-ReaderView, index_set-same,
}
use thubo.Pipeline.RingBuf.Mpsc.{
  Mpsc, by_writer, by_reader, Call, book, modify, commit, pull, pull_priority, step, fifo_step,
  given_back, pulled, looked,
}

module _ {T : Type 0} where
  pub record MpscView (c : ℕ) (x : Mpsc T) (qs : PerPriority (Queue T)) : Type 0 where
    pub readers : ReaderView c (Priority.index x.writers) x.ring x.reader qs
    pub multi : (p : Priority) → (Priority.index x.writers p).update ≡ m
    pub owned : (p : Priority) → Owns m p (Priority.index x.writers p).local_idx_w x.ring.idx_w

  whole_lane :
      (w : RingBufferWriter) (p : Priority) (ring : RingBuffer T)
      → w.update ≡ m
      → Owns w.update p w.local_idx_w ring.idx_w
      → Owns m p w.local_idx_w ring.idx_w
  whole_lane w p ring e o = rw e at o

module _ {T : Type 0} {c : ℕ} {x : Mpsc T} {qs : PerPriority (Queue T)} (v : MpscView c x qs) where
  Owns-of :
      (p : Priority)
      → Owns
          (Priority.index x.writers p).update
          p
          (Priority.index x.writers p).local_idx_w
          x.ring.idx_w
  Owns-of p = rw (v.multi p) (v.owned p)

  Wrote-MpscView :
      (p : Priority) {ring' : RingBuffer T} {w' : RingBufferWriter} (b : Queue T)
      → Wrote c p x.ring (Priority.index x.writers p) x.reader ring' w' b
      → MpscView c (by_writer p x w' ring') (Priority.index_set qs p b)
  Wrote-MpscView p {ring' = ring'} {w' = w'} b k = record {
    readers = record {
      sound = k.sound;
      single = v.readers.single;
      whole = v.readers.whole ∙ sym k.writes.reader_word;
      reps = λ q. elim (Priority-cases p q) [
        | inl e ↦ rw (sym e, index-index_set_self qs p b, index-index_set_self x.writers p w') k.rep
        | inr ne ↦
            rw (index-index_set_ne qs p q b ne, index-index_set_ne x.writers p q w' ne)
              (Rep-written_by ne (Priority.index x.writers q) x.reader k.writes (v.readers.reps q))
      ];
    };
    multi =
        index_set-all (λ q w. w.update ≡ m) x.writers p w' (k.same_update ∙ v.multi p)
          (λ q ne. v.multi q);
    owned =
        index_set-all (λ q w. Owns m q w.local_idx_w ring'.idx_w) x.writers p w'
          (whole_lane w' p ring' (k.same_update ∙ v.multi p) k.owns)
          (λ q ne. ((v.owned q).0, (v.owned q).1 ∙ sym (k.writes.word q ne)));
  }

  -- The reader does not move the writers' word.
  Read-MpscView :
      {ring' : RingBuffer T} {r' : RingBufferReader} {qs' : PerPriority (Queue T)}
      → ReaderView c (Priority.index x.writers) ring' r' qs'
      → ring'.idx_w ≡ x.ring.idx_w
      → MpscView c (by_reader x r' ring') qs'
  Read-MpscView k e = record { readers = k; multi = v.multi; owned = λ p. rw e (v.owned p) }

module _ {T : Type 0} {c : ℕ} {x : Mpsc T} {qs : PerPriority (Queue T)} (v : MpscView c x qs)
    (p : Priority) where
  -- What goes through the reference to the booked element.
  through-MpscView :
      (q : List T) (b : Option T) (f : Queue T → Queue T) (y : RingBufferWriter × RingBuffer T)
      → Priority.index qs p ≡ record { items = q; held = b }
      → f (record { items = q; held = none }) ≡ record { items = q; held = none }
      → ((u : T)
          → Rep c x.ring
              (Priority.index x.writers p)
              x.reader
              p
              (record { items = q; held = some u })
          → Wrote c p x.ring
              (Priority.index x.writers p)
              x.reader
              y.1
              y.0
              (f (record { items = q; held = some u })))
      → ((Writer.peek p (Priority.index x.writers p) ≡ true)
          × (Fifo.is_held (Priority.index qs p) ≡ true)
          × MpscView c (by_writer p x y.0 y.1) (Priority.index_set qs p (f (Priority.index qs p))))
        ⊎ ((Writer.peek p (Priority.index x.writers p) ≡ false)
            × (Fifo.is_held (Priority.index qs p) ≡ false)
            × (Priority.index_set qs p (f (Priority.index qs p)) ≡ qs))
  through-MpscView q none f y e same k =
      let rep = rw e at (v.readers.reps p) in
      inr (
        peek-is_held v.readers.sound (Owns-of v p) q none rep,
        rw e refl,
        ap (λ a. Priority.index_set qs p (f a)) e
            ∙ ap (Priority.index_set qs p) (same ∙ sym e)
            ∙ index_set-same qs p,
      )
  through-MpscView q (some u) f y e same k =
      let rep = rw e at (v.readers.reps p) in
      inl (
        peek-is_held v.readers.sound (Owns-of v p) q (some u) rep,
        rw e refl,
        rw e (Wrote-MpscView v p _ (k u rep)),
      )

-- A call does to the four queues what it should, and answers as they do.
pub step-MpscView :
    {T : Type 0} {c : ℕ} (call : Call T) (x : Mpsc T) (qs : PerPriority (Queue T))
    → MpscView c x qs
    → ((step call x).0 ≡ (fifo_step c call qs).0)
      × MpscView c (step call x).1 (fifo_step c call qs).1
unfolding step fifo_step Reader.pull Fifo.modify Fifo.commit
step-MpscView (book p t) x qs v =
    let a = Priority.index qs p in
    let (e, k) = book-Wrote v.readers.sound (Owns-of v p) t a.items a.held (v.readers.reps p) in
    (ap given_back e, Wrote-MpscView v p _ k)
step-MpscView (pull_priority p) x qs v =
    let a = Priority.index qs p in
    let (e, k) =
      pull_priority-Took v.readers.sound (ReaderView-Owns p v.readers) a.items a.held
        (v.readers.reps p) in
    (ap looked e, Read-MpscView v (Took-ReaderView p _ v.readers k) k.reads.writer_word)
step-MpscView pull x qs v =
    let (e, k, f) = pull_first-ReaderView Priority.all x.ring x.reader qs v.readers in
    (ap pulled e, Read-MpscView v k f)
step-MpscView (modify p t) x qs v =
    let a = Priority.index qs p in
    let w = Priority.index x.writers p in
    elim (through-MpscView v p a.items a.held (Fifo.modify t) (w, Writer.deref_mut p t w x.ring)
      refl refl (λ u rep. deref_mut-Wrote v.readers.sound (Owns-of v p) a.items u rep t)) [
        | inl (e, f, k) ↦ rw (e, f) (refl, k)
        | inr (e, f, k) ↦ rw (e, f, k) (refl, v)
      ]
step-MpscView (commit p) x qs v =
    let a = Priority.index qs p in
    let w = Priority.index x.writers p in
    elim (through-MpscView v p a.items a.held Fifo.commit (Writer.commit p w x.ring) refl refl
      (λ u rep. commit-Wrote v.readers.sound (Owns-of v p) a.items u rep)) [
        | inl (e, f, k) ↦ rw (e, f) (refl, k)
        | inr (e, f, k) ↦ rw (e, f, k) (refl, v)
      ]
