-- ===== src/Pipeline/RingBuf/Mpsc/Run.antt =====
-- Runs of the writers of four priorities and their reader.
use thubo.Prelude.{
  ℕ, ◌≡◌, refl, ap, ap₂, sym, ◌∙◌, List, [], ◌∷◌, some, Option-cases, inl, inr, arith,
}
use thubo.Protocol.Priority
use thubo.Protocol.Priority.{Priority, PerPriority, high, medium, low, background}
use thubo.Pipeline.RingBuf.Slots.{IsCap}
use thubo.Pipeline.RingBuf.Fifo.{Queue}
use thubo.Pipeline.RingBuf.Ring
use thubo.Pipeline.RingBuf.Ring.{RingBuffer, s, m, update}
use thubo.Pipeline.RingBuf.Writer
use thubo.Pipeline.RingBuf.Writer.{RingBufferWriter}
use thubo.Pipeline.RingBuf.Reader
use thubo.Pipeline.RingBuf.Rep.{Rep, Owns}
use thubo.Pipeline.RingBuf.Rep.Start.{fresh, new_lem, fresh-IsSound, fresh-Rep}
use thubo.Pipeline.RingBuf.Mpsc.{
  Mpsc, handles, ringbuffer_mpsc, no_elements, Call, step, fifo_step, run, fifo_run,
}
use thubo.Pipeline.RingBuf.Mpsc.View.{MpscView, step-MpscView}

all_the_same :
    {A : Type 0} (P : Priority → A → Type 0) (v : A)
    → ((q : Priority) → P q v)
    → (q : Priority)
    → P q (Priority.index (record { at_high = v; at_medium = v; at_low = v; at_background = v }) q)
unfolding Priority.index
all_the_same P v h high = h high
all_the_same P v h medium = h medium
all_the_same P v h low = h low
all_the_same P v h background = h background

fresh-MpscView : {T : Type 0} (n : ℕ) → IsCap n → MpscView {T = T} n (handles (fresh n)) no_elements
unfolding Writer.new Reader.new Priority.index
fresh-MpscView {T = T} n cap = record {
  readers = record {
    sound = fresh-IsSound n cap;
    single = refl;
    whole = refl;
    reps = λ q.
        elim q
          as (λ q.
            Rep {T = T} n (fresh n) (Priority.index (handles {T = T} (fresh n)).writers q)
              (Reader.new s) q (Priority.index no_elements q)) [
                | high ↦ fresh-Rep n m s high cap
                | medium ↦ fresh-Rep n m s medium cap
                | low ↦ fresh-Rep n m s low cap
                | background ↦ fresh-Rep n m s background cap
              ];
  };
  multi = all_the_same (λ q w. w.update ≡ m) (Writer.new m) (λ q. refl);
  owned = all_the_same (λ q w. Owns m q w.local_idx_w 0) (Writer.new m) (λ q. (omega arith, refl));
}

run-MpscView :
    {T : Type 0} (c : ℕ) (calls : List (Call T)) (x : Mpsc T) (qs : PerPriority (Queue T))
    → MpscView c x qs
    → ((run calls x).0 ≡ (fifo_run c calls qs).0)
      × MpscView c (run calls x).1 (fifo_run c calls qs).1
unfolding run fifo_run
run-MpscView c [] x qs v = (refl, v)
run-MpscView c (call ∷ calls) x qs v =
    let (e, k) = step-MpscView call x qs v in
    let (f, l) = run-MpscView c calls (step call x).1 (fifo_step c call qs).1 k in
    (ap₂ (λ a as'. a ∷ as') e f, l)

pub mpsc-run :
    {T : Type 0} (capacity : ℕ) (calls : List (Call T)) (x : Mpsc T)
    → ringbuffer_mpsc capacity ≡ some x
    → ((run calls x).0 ≡ (fifo_run capacity calls no_elements).0)
      × MpscView capacity (run calls x).1 (fifo_run capacity calls no_elements).1
unfolding ringbuffer_mpsc
mpsc-run {T = T} capacity calls x e = elim (Option-cases (Ring.new {T = T} capacity)) [
  | inl f ↦ absurd (cc (rw f at e))
  | inr (ring, f) ↦
      let (cap, g) = new_lem capacity ring f in
      let h : handles (fresh capacity) ≡ x = ap handles (sym g) ∙ cc (rw f at e) in
      rw (sym h) (
        run-MpscView capacity calls (handles (fresh capacity)) no_elements
          (fresh-MpscView capacity cap))
]
