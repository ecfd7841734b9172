-- ===== src/Pipeline/RingBuf/Spsc/View.antt =====
-- One writer and one reader of four priorities are four queues.
use thubo.Prelude.{
  ℕ, ◌≡◌, inl, inr, refl, ap, ap₂, sym, ◌∙◌, List, [], ◌∷◌, Option, some, none, Option-cases,
  Bool-cases, ◌==◌, length,
}
use thubo.Protocol.Priority
use thubo.Protocol.Priority.{Priority, PerPriority, high, medium, low, background}
use thubo.Pipeline.RingBuf.Slots.{IsCap}
use thubo.Pipeline.RingBuf.Fifo
use thubo.Pipeline.RingBuf.Fifo.{Queue}
use thubo.Pipeline.RingBuf.Ring
use thubo.Pipeline.RingBuf.Ring.{RingBuffer, s}
use thubo.Pipeline.RingBuf.Writer
use thubo.Pipeline.RingBuf.Writer.{RingBufferWriter}
use thubo.Pipeline.RingBuf.Reader
use thubo.Pipeline.RingBuf.Rep.{Rep, Owns}
use thubo.Pipeline.RingBuf.Rep.Steps.{Rep-written}
use thubo.Pipeline.RingBuf.Rep.Writing.{Wrote}
use thubo.Pipeline.RingBuf.Rep.Calls.{push-Wrote}
use thubo.Pipeline.RingBuf.Rep.Start.{fresh, new_lem, fresh-IsSound, fresh-Rep}
use thubo.Pipeline.RingBuf.Views.{index_set-all, ReaderView, pull_first-ReaderView}
use thubo.Pipeline.RingBuf.Mpsc.{no_elements}
use thubo.Pipeline.RingBuf.Spsc.{
  Spsc, ends, ringbuffer_spsc, Call, push, pull, step, fifo_step, run, fifo_run, given_back, pulled,
}

module _ {T : Type 0} where
  -- `push` is not used together with `book`.
  abbrev pub Unheld : PerPriority (Queue T) → Type 0
  Unheld qs = (p : Priority) → (Priority.index qs p).held ≡ none

  pub record SpscView (c : ℕ) (x : Spsc T) (qs : PerPriority (Queue T)) : Type 0 where
    pub readers : ReaderView c (λ p. x.writer) x.ring x.reader qs
    pub single : x.writer.update ≡ s
    pub whole : x.writer.local_idx_w ≡ x.ring.idx_w
    pub unheld : Unheld qs

  whole_of :
      (w : RingBufferWriter) (p : Priority) (ring : RingBuffer T)
      → w.update ≡ s
      → Owns w.update p w.local_idx_w ring.idx_w
      → w.local_idx_w ≡ ring.idx_w
  whole_of w p ring e o = rw e at o

  push-held :
      (c : ℕ) (t : T) (q : List T)
      → (Fifo.push c t (record { items = q; held = none })).1.held ≡ none
  unfolding Fifo.push
  push-held c t q = elim (Bool-cases (length q == c)) [ inl e ↦ rw e refl | inr e ↦ rw e refl ]

  take_first-held : (a : Queue T) → (Fifo.take_first a).1.held ≡ a.held
  unfolding Fifo.take_first
  take_first-held a = go a.items a.held
    where
      go :
          (q : List T) (b : Option T)
          → (Fifo.take_first (record { items = q; held = b })).1.held ≡ b
      go [] b = refl
      go (t ∷ q) b = refl

  pull_first-Unheld :
      (ps : List Priority) (qs : PerPriority (Queue T))
      → Unheld qs
      → Unheld (Fifo.pull_first ps qs).1
  unfolding Fifo.pull_first Fifo.or_rest
  pull_first-Unheld [] qs h = h
  pull_first-Unheld (p ∷ ps) qs h = elim (Option-cases (Fifo.take_first (Priority.index qs p)).0) [
    | inl f ↦ rw f (pull_first-Unheld ps qs h)
    | inr (t, f) ↦ rw f (
        index_set-all (λ q a. a.held ≡ none) qs p (Fifo.take_first (Priority.index qs p)).1
          (take_first-held (Priority.index qs p) ∙ h p) (λ q ne. h q))
  ]

module _ {T : Type 0} {c : ℕ} {x : Spsc T} {qs : PerPriority (Queue T)} (v : SpscView c x qs) where
  Wrote-SpscView :
      (p : Priority) {ring' : RingBuffer T} {w' : RingBufferWriter} (b : Queue T)
      → b.held ≡ none
      → Wrote c p x.ring x.writer x.reader ring' w' b
      → SpscView c (record x { writer = w'; ring = ring' }) (Priority.index_set qs p b)
  Wrote-SpscView p {ring' = ring'} {w' = w'} b h k = record {
    readers = record {
      sound = k.sound;
      single = v.readers.single;
      whole = v.readers.whole ∙ sym k.writes.reader_word;
      reps =
          index_set-all (λ q a. Rep c ring' w' x.reader q a) qs p b k.rep
            (λ q ne. Rep-written ne x.reader k.writes (v.readers.reps q));
    };
    single = k.same_update ∙ v.single;
    whole = whole_of w' p ring' (k.same_update ∙ v.single) k.owns;
    unheld = index_set-all (λ q a. a.held ≡ none) qs p b h (λ q ne. v.unheld q);
  }

pub step-SpscView :
    {T : Type 0} {c : ℕ} (call : Call T) (x : Spsc T) (qs : PerPriority (Queue T))
    → SpscView c x qs
    → ((step call x).0 ≡ (fifo_step c call qs).0)
      × SpscView c (step call x).1 (fifo_step c call qs).1
unfolding step fifo_step Reader.pull
step-SpscView {c = c} (push p t) x qs v =
    let a = Priority.index qs p in
    let same : a ≡ record { items = a.items; held = none } =
      ap (λ b. record { items = a.items; held = b }) (v.unheld p) in
    let (e, k) =
      push-Wrote v.readers.sound (rw v.single v.whole) t a.items (rw same at (v.readers.reps p)) in
    rw same (ap given_back e, Wrote-SpscView v p _ (push-held c t a.items) k)
step-SpscView pull x qs v =
    let (e, k, f) = pull_first-ReaderView Priority.all x.ring x.reader qs v.readers in
    (
      ap pulled e,
      record {
        readers = k;
        single = v.single;
        whole = v.whole ∙ sym f;
        unheld = pull_first-Unheld Priority.all qs v.unheld;
      },
    )

run-SpscView :
    {T : Type 0} (c : ℕ) (calls : List (Call T)) (x : Spsc T) (qs : PerPriority (Queue T))
    → SpscView c x qs
    → ((run calls x).0 ≡ (fifo_run c calls qs).0)
      × SpscView c (run calls x).1 (fifo_run c calls qs).1
unfolding run fifo_run
run-SpscView c [] x qs v = (refl, v)
run-SpscView c (call ∷ calls) x qs v =
    let (e, k) = step-SpscView call x qs v in
    let (f, l) = run-SpscView c calls (step call x).1 (fifo_step c call qs).1 k in
    (ap₂ (λ a as'. a ∷ as') e f, l)

fresh-SpscView : {T : Type 0} (n : ℕ) → IsCap n → SpscView {T = T} n (ends (fresh n)) no_elements
unfolding Writer.new Reader.new Priority.index
fresh-SpscView {T = T} n cap = record {
  readers = record {
    sound = fresh-IsSound n cap;
    single = refl;
    whole = refl;
    reps = λ q.
        elim q
          as (λ q.
            Rep {T = T} n (fresh n) (Writer.new s) (Reader.new s) q
              (Priority.index no_elements q)) [
                | high ↦ fresh-Rep n s s high cap
                | medium ↦ fresh-Rep n s s medium cap
                | low ↦ fresh-Rep n s s low cap
                | background ↦ fresh-Rep n s s background cap
              ];
  };
  single = refl;
  whole = refl;
  unheld = λ q. elim q as (λ q. (Priority.index (no_elements {T = T}) q).held ≡ none) [
    | high ↦ refl
    | medium ↦ refl
    | low ↦ refl
    | background ↦ refl
  ];
}

pub spsc-run :
    {T : Type 0} (capacity : ℕ) (calls : List (Call T)) (x : Spsc T)
    → ringbuffer_spsc capacity ≡ some x
    → ((run calls x).0 ≡ (fifo_run capacity calls no_elements).0)
      × SpscView capacity (run calls x).1 (fifo_run capacity calls no_elements).1
unfolding ringbuffer_spsc
spsc-run {T = T} capacity calls x e = elim (Option-cases (Ring.new {T = T} capacity)) [
  | inl f ↦ absurd (cc (rw f at e))
  | inr (ring, f) ↦
      let (cap, g) = new_lem capacity ring f in
      let h : ends (fresh capacity) ≡ x = ap ends (sym g) ∙ cc (rw f at e) in
      rw (sym h) (
        run-SpscView capacity calls (ends (fresh capacity)) no_elements
          (fresh-SpscView capacity cap))
]
