-- ===== src/Pipeline/RingBuf/Views.antt =====
-- All the priorities at once, for a reader that is alone on its side.
use thubo.Prelude.{◌≡◌, ◌≢◌, ◌⊎◌, inl, inr, refl, sym, ◌∙◌, List, [], ◌∷◌, ℕ, Option-cases}
use thubo.Protocol.Priority
use thubo.Protocol.Priority.{Priority, PerPriority, high, medium, low, background}
use thubo.Pipeline.RingBuf.Fifo
use thubo.Pipeline.RingBuf.Fifo.{Queue, initialised}
use thubo.Pipeline.RingBuf.Ring.{RingBuffer, s}
use thubo.Pipeline.RingBuf.Writer.{RingBufferWriter}
use thubo.Pipeline.RingBuf.Reader.{RingBufferReader, pull_first, or_rest}
use thubo.Pipeline.RingBuf.Rep.{IsSound, Rep, Owns}
use thubo.Pipeline.RingBuf.Rep.Storage.{index-index_set_self, index-index_set_ne}
use thubo.Pipeline.RingBuf.Rep.Steps.{Rep-read}
use thubo.Pipeline.RingBuf.Rep.Reading.{Took}
use thubo.Pipeline.RingBuf.Rep.Pulls.{pull_priority_inner-Took, take_first-none}

pub Priority-cases : (p q : Priority) → (p ≡ q) ⊎ (p ≢ q)
Priority-cases high high = inl refl
Priority-cases medium medium = inl refl
Priority-cases low low = inl refl
Priority-cases background background = inl refl
Priority-cases high medium = inr (λ e. absurd (cc))
Priority-cases high low = inr (λ e. absurd (cc))
Priority-cases high background = inr (λ e. absurd (cc))
Priority-cases medium high = inr (λ e. absurd (cc))
Priority-cases medium low = inr (λ e. absurd (cc))
Priority-cases medium background = inr (λ e. absurd (cc))
Priority-cases low high = inr (λ e. absurd (cc))
Priority-cases low medium = inr (λ e. absurd (cc))
Priority-cases low background = inr (λ e. absurd (cc))
Priority-cases background high = inr (λ e. absurd (cc))
Priority-cases background medium = inr (λ e. absurd (cc))
Priority-cases background low = inr (λ e. absurd (cc))

-- What holds of all the entries of a changed array.
pub index_set-all :
    {A : Type 0} (P : Priority → A → Type 0) (a : PerPriority A) (p : Priority) (v : A)
    → P p v
    → ((q : Priority) → p ≢ q → P q (Priority.index a q))
    → (q : Priority) → P q (Priority.index (Priority.index_set a p v) q)
index_set-all P a p v own other q = elim (Priority-cases p q) [
  | inl e ↦ rw (sym e, index-index_set_self a p v) own
  | inr ne ↦ rw (index-index_set_ne a p q v ne) (other q ne)
]

module _ {T : Type 0} where
  pub record ReaderView (c : ℕ) (w : Priority → RingBufferWriter) (ring : RingBuffer T)
      (r : RingBufferReader) (qs : PerPriority (Queue T)) : Type 0 where
    pub sound : IsSound c ring
    pub single : r.update ≡ s
    pub whole : r.local_idx_r ≡ ring.idx_r
    pub reps : (q : Priority) → Rep c ring (w q) r q (Priority.index qs q)

module _ {T : Type 0} where
  whole_of :
      (r : RingBufferReader) (p : Priority) (ring : RingBuffer T)
      → r.update ≡ s
      → Owns r.update p r.local_idx_r ring.idx_r
      → r.local_idx_r ≡ ring.idx_r
  whole_of r p ring e o = rw e at o

module _ {T : Type 0} {c : ℕ} {w : Priority → RingBufferWriter} where
  pub ReaderView-Owns :
      {ring : RingBuffer T} {r : RingBufferReader} {qs : PerPriority (Queue T)} (p : Priority)
      → ReaderView c w ring r qs
      → Owns r.update p r.local_idx_r ring.idx_r
  ReaderView-Owns p v = rw v.single v.whole

  pub Took-ReaderView :
      {ring ring' : RingBuffer T} {r r' : RingBufferReader} {qs : PerPriority (Queue T)}
      (p : Priority) (b : Queue T)
      → ReaderView c w ring r qs
      → Took c p ring (w p) r ring' r' b
      → ReaderView c w ring' r' (Priority.index_set qs p b)
  Took-ReaderView {ring' = ring'} {r' = r'} {qs = qs} p b v t = record {
    sound = t.sound;
    single = t.same_update ∙ v.single;
    whole = whole_of r' p ring' (t.same_update ∙ v.single) t.owns;
    reps =
        index_set-all (λ q a. Rep c ring' (w q) r' q a) qs p b t.rep
          (λ q ne. Rep-read ne (w q) t.reads (v.reps q));
  }

pub index_set-same :
    {A : Type 0} (a : PerPriority A) (p : Priority)
    → Priority.index_set a p (Priority.index a p) ≡ a
unfolding Priority.index_set Priority.index
index_set-same a high = refl
index_set-same a medium = refl
index_set-same a low = refl
index_set-same a background = refl

module _ {T : Type 0} {c : ℕ} {w : Priority → RingBufferWriter} where
  -- The loop of `pull` is the queues'.
  pub pull_first-ReaderView :
      (ps : List Priority) (ring : RingBuffer T) (r : RingBufferReader) (qs : PerPriority (Queue T))
      → ReaderView c w ring r qs
      → ((pull_first ps r ring).0 ≡ initialised (Fifo.pull_first ps qs).0)
        × ReaderView c w
            (pull_first ps r ring).1.1
            (pull_first ps r ring).1.0
            (Fifo.pull_first ps qs).1
        × ((pull_first ps r ring).1.1.idx_w ≡ ring.idx_w)
  unfolding pull_first or_rest Fifo.pull_first Fifo.or_rest
  pull_first-ReaderView [] ring r qs v = (refl, v, refl)
  pull_first-ReaderView (p ∷ ps) ring r qs v =
      let a = Priority.index qs p in
      let (e, k) =
        pull_priority_inner-Took v.sound (ReaderView-Owns p v) a.items a.held (v.reps p) in
      let v' = Took-ReaderView p _ v k in
      elim (Option-cases (Fifo.take_first a).0) [
        | inr (t, f) ↦ rw (e, f) (refl, v', k.reads.writer_word)
        | inl f ↦
            let w' = rw (take_first-none a.items a.held f, index_set-same qs p) at v' in
            let (g, h, i) = pull_first-ReaderView ps _ _ qs w' in
            rw (e, f) (g, h, i ∙ k.reads.writer_word)
      ]

-- What holds of all the entries of two arrays that change together.
pub index_set-both :
    {A B : Type 0} (P : Priority → A → B → Type 0) (a : PerPriority A) (b : PerPriority B)
    (p : Priority) (v : A) (w : B)
    → P p v w
    → ((q : Priority) → p ≢ q → P q (Priority.index a q) (Priority.index b q))
    → (q : Priority)
    → P q
        (Priority.index (Priority.index_set a p v) q)
        (Priority.index (Priority.index_set b p w) q)
index_set-both P a b p v w own other q = elim (Priority-cases p q) [
  | inl e ↦ rw (sym e, index-index_set_self a p v, index-index_set_self b p w) own
  | inr ne ↦ rw (index-index_set_ne a p q v ne, index-index_set_ne b p q w ne) (other q ne)
]
