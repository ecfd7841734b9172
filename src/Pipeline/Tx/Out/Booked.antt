-- ===== src/Pipeline/Tx/Out/Booked.antt =====
-- A batch that is booked and no longer written to is flushed, and `pull` returns it.
use Prim.Native.Nat.{compare, Ordering}
use thubo.Prelude.{
  ℕ, ◌%◌, ◌^◌, ◌+◌, ◌≡◌, ◌⊎◌, inl, inr, refl, ap, sym, ◌∙◌, List, [], ◌∷◌, Option, some, none, Bool,
  true, false, ◌&&◌, ◌||◌, arith,
}
use thubo.Protocol.CongestionControl.{is_drop}
use thubo.Protocol.Priority
use thubo.Protocol.Priority.{Priority, PerPriority, high, medium, low, background}
use thubo.Protocol.Qos
use thubo.Pipeline.Status
use thubo.Pipeline.RingBuf.Fifo
use thubo.Pipeline.RingBuf.Fifo.{Queue, empty}
use thubo.Pipeline.RingBuf.Fifo.First.{above_ne}
use thubo.Pipeline.RingBuf.Rep.Storage.{index-index_set_self, index-index_set_ne}
use thubo.Pipeline.Tx
use thubo.Pipeline.Tx.{WriteBatch, write_len}
use thubo.Pipeline.Tx.Out.{StageOut, is_given_up, is_dropped}
use thubo.Pipeline.Tx.Out.Skips.{ClearAbove}
use thubo.Pipeline.Tx.Out.Unchanged.{SameBut, backoff_from-SameBut, to_pull-SameBut}
use thubo.Pipeline.Tx.Out.Pulling.{
  State, Turn, Next, returned, again, pulled, flush_stage, to_pull, set_backoff, others_do,
  after_yield, at_priority, visit, round, rounds, and_then, reset, pull, zeros,
}

-- The other tasks do nothing of the state in this round, and the lock is free.
abbrev pub quiet : ℕ → Bool → Turn
quiet elapsed woken = record { meanwhile = λ x. x; elapsed = elapsed; locked = true; woken = woken }

-- A batch that is kept when it is pulled.
abbrev pub Kept : WriteBatch → List ℕ → Type 0
Kept b flags = (is_drop (Qos.congestion_control b.qos) ≡ false) × (is_given_up b flags ≡ false)

-- The queue of `p` is the first with anything, and is this one; the pipeline is not disabled.
pub record At (p : Priority) (q : Queue WriteBatch) (b : WriteBatch) (s : State) : Type 0 where
  pub clear : ClearAbove p s.out.ringbuf_inout
  pub queue : Priority.index s.out.ringbuf_inout p ≡ q
  pub enabled : Status.any s.out.status Status.disabled ≡ false
  pub kept : Kept b s.out.drop_flags

pub visit-first :
    (max : ℕ) (t : Turn) (p : Priority) (s : State)
    → ClearAbove p s.out.ringbuf_inout
    → (others : State → Next × State) × (visit Priority.all max t s
        ≡ at_priority (Fifo.pull_priority (Priority.index s.out.ringbuf_inout p)) p max t s others)
unfolding visit at_priority Fifo.pull_priority Priority.to_u8
visit-first max t high s n = (visit (medium ∷ low ∷ background ∷ []) max t, refl)
visit-first max t medium s n = (visit (low ∷ background ∷ []) max t, rw (n high (omega arith)) refl)
visit-first max t low s n =
    (visit (background ∷ []) max t, rw (n high (omega arith), n medium (omega arith)) refl)
visit-first max t background s n =
    (visit [] max t, rw (n high (omega arith), n medium (omega arith), n low (omega arith)) refl)

and_false : (x : Bool) → (x && false || false) ≡ false
and_false true = refl
and_false false = refl

is_dropped-Kept :
    (b : WriteBatch) (out : StageOut) → Kept b out.drop_flags → (is_dropped b out).0 ≡ false
unfolding is_dropped
is_dropped-Kept b out k = rw (k.0, k.1) (and_false _)

pulled-kept :
    (b : WriteBatch) (r : Bool × StageOut) (s : State)
    → r.0 ≡ false
    → (pulled b r s).0 ≡ returned (some (write_len b))
unfolding pulled
pulled-kept b (true, out) s e = absurd (cc)
pulled-kept b (false, out) s e = refl

-- A batch that is there is returned in the round.
round-got :
    (max : ℕ) (t : Turn) (p : Priority) (b : WriteBatch) (o : Option WriteBatch) (s : State)
    → At p (record { items = b ∷ []; held = o }) b s
    → (round max t s).0 ≡ returned (some (write_len b))
unfolding round at_priority Fifo.pull_priority
round-got max t p b o s a =
    let (others, e) = visit-first max t p s a.clear in
    rw (a.enabled, e, a.queue) (pulled-kept b (is_dropped b _) s (is_dropped-Kept b _ a.kept))

compare_self : (n : ℕ) → compare n n ≡ Ordering.eq
compare_self n = ground arith

abbrev pub held_one : WriteBatch → Queue WriteBatch
held_one b = record { items = []; held = some b }

abbrev flushed_one : WriteBatch → Queue WriteBatch
flushed_one b = record { items = b ∷ []; held = none }

-- The length that the loop has seen is that of the word.
abbrev Seen : Priority → State → Type 0
Seen p s = Priority.index s.booked_len p ≡ (Tx.load (Priority.index s.words p)).0

At-SameBut :
    (p : Priority) (q : Queue WriteBatch) (b : WriteBatch) (s s' : State)
    → SameBut s s'
    → At p q b s
    → At p q b s'
At-SameBut p q b s s' k a = record {
  clear = rw k.inout a.clear;
  queue = rw k.inout a.queue;
  enabled = k.still a.enabled;
  kept = rw k.flags a.kept;
}

flush_stage-At :
    (p : Priority) (b : WriteBatch) (s : State)
    → At p (held_one b) b s
    → At p (flushed_one b) b (flush_stage true p s)
unfolding flush_stage Fifo.commit
flush_stage-At p b s a =
    let qs = s.out.ringbuf_inout in
    let q = Fifo.commit (Priority.index qs p) in
    record {
      clear = λ r lt. index-index_set_ne qs p r q (λ e. above_ne p r lt (sym e)) ∙ a.clear r lt;
      queue = index-index_set_self qs p q ∙ ap Fifo.commit a.queue;
      enabled = a.enabled;
      kept = a.kept;
    }

-- How a round with the booked batch ends: it is flushed, or its length is known; and it is flushed if the
-- length was known before.
record Looked (p : Priority) (b : WriteBatch) (s : State) (r : Next × State) : Type 0 where
  goes_on : r ≡ (again, r.1)
  state : At p (flushed_one b) b r.1 ⊎ (At p (held_one b) b r.1 × Seen p r.1)
  known : Seen p s → At p (flushed_one b) b r.1

looked :
    (p : Priority) (b : WriteBatch) (s s' s'' : State) (pull : Bool)
    → SameBut s' s''
    → At p (held_one b) b s'
    → Seen p s'
    → (Seen p s → pull ≡ true)
    → Looked p b s (again, flush_stage (pull && true) p s'')
looked p b s s' s'' true k a seen same =
    let f = flush_stage-At p b s'' (At-SameBut p (held_one b) b s' s'' k a) in
    record { goes_on = refl; state = inl f; known = λ h. f }
looked p b s s' s'' false k a seen same =
    unfold flush_stage in
    record {
      goes_on = refl;
      state = inr (
        At-SameBut p (held_one b) b s' s'' k a,
        ap (λ l. Priority.index l p) k.lens
            ∙ seen
            ∙ sym (ap (λ w. (Tx.load (Priority.index w p)).0) k.all_words),
      );
      known = λ h. absurd (cc (same h));
    }

after_yield-Looked :
    (max elapsed : ℕ) (woken : Bool) (p : Priority) (b : WriteBatch) (s : State)
    → At p (held_one b) b s
    → Looked p b s (after_yield max (quiet elapsed woken) p s)
unfolding after_yield
after_yield-Looked max elapsed woken p b s a =
    let x = Tx.load (Priority.index s.words p) in
    let s' = record s {
      backoff_num =
          Priority.index_set s.backoff_num p ((Priority.index s.backoff_num p + 1) % 2 ^ 16);
      booked_len = Priority.index_set s.booked_len p x.0;
    } in
    let c = compare x.0 (Priority.index s.booked_len p) in
    let r = to_pull max (quiet elapsed woken) x.1 c p s' in
    looked p b s s' r.1 r.0 (to_pull-SameBut max (quiet elapsed woken) x.1 c p s')
      (record { clear = a.clear; queue = a.queue; enabled = a.enabled; kept = a.kept })
      (index-index_set_self s.booked_len p x.0)
      (λ h.
        unfold to_pull in
        ap (λ o. (to_pull max (quiet elapsed woken) x.1 o p s').0)
          (ap (compare x.0) h ∙ compare_self x.0))

round-Looked :
    (max elapsed : ℕ) (woken : Bool) (p : Priority) (b : WriteBatch) (s : State)
    → At p (held_one b) b s
    → Looked p b s (round max (quiet elapsed woken) s)
unfolding round at_priority Fifo.pull_priority set_backoff others_do
round-Looked max elapsed woken p b s a =
    let (others, e) = visit-first max (quiet elapsed woken) p s a.clear in
    let k = backoff_from-SameBut s.backoff s in
    let l =
      after_yield-Looked max elapsed woken p b (set_backoff s)
        (At-SameBut p (held_one b) b s (set_backoff s) k a) in
    rw (a.enabled, e, a.queue)
      (record {
        goes_on = l.goes_on;
        state = l.state;
        known = λ h. l.known (
            ap (λ y. Priority.index y p) k.lens
            ∙ h
            ∙ sym (ap (λ w. (Tx.load (Priority.index w p)).0) k.all_words));
      })

and_then-returned :
    (x : Next × State) (b : Option WriteBatch) (rest : State → Next × State)
    → x.0 ≡ returned b
    → (and_then x rest).0 ≡ returned b
unfolding and_then
and_then-returned (returned c, s) b rest e = e
and_then-returned (again, s) b rest e = absurd (cc)

module _ (max : ℕ) (p : Priority) (b : WriteBatch) where
  rounds-got :
      (t : Turn) (ts : List Turn) (s : State)
      → At p (flushed_one b) b s
      → (rounds max (t ∷ ts) s).0 ≡ returned (some (write_len b))
  unfolding rounds
  rounds-got t ts s a =
      and_then-returned (round max t s) (some (write_len b)) (rounds max ts)
        (round-got max t p b none s a)

  rounds-again :
      (t : Turn) (ts : List Turn) (s : State)
      → round max t s ≡ (again, (round max t s).1)
      → rounds max (t ∷ ts) s ≡ rounds max ts (round max t s).1
  unfolding rounds and_then
  rounds-again t ts s e = ap (λ x. and_then x (rounds max ts)) e

  rounds-Seen :
      (elapsed : ℕ) (woken : Bool) (t : Turn) (ts : List Turn) (s : State)
      → At p (held_one b) b s
      → Seen p s
      → (rounds max (quiet elapsed woken ∷ t ∷ ts) s).0 ≡ returned (some (write_len b))
  rounds-Seen elapsed woken t ts s a seen =
      let k = round-Looked max elapsed woken p b s a in
      ap (λ x. x.0) (rounds-again (quiet elapsed woken) (t ∷ ts) s k.goes_on)
      ∙ rounds-got t ts (round max (quiet elapsed woken) s).1 (k.known seen)

  -- For a priority `p` above which nothing is queued or booked, with one batch booked and no other,
  -- that is not given up and must not be dropped, on a pipeline that is not disabled: when the other
  -- tasks do nothing with it and its lock is free, `pull` flushes it and returns it, with its length
  -- written, in the third round at the latest, whatever the ages and the lengths in the backoff word
  -- are.
  pub pull-booked :
      (elapsed elapsed' elapsed'' : ℕ) (woken woken' woken'' : Bool) (s : State)
      → At p (held_one b) b s
      → (pull max (quiet elapsed woken ∷ quiet elapsed' woken' ∷ quiet elapsed'' woken'' ∷ []) s).0
        ≡ returned (some (write_len b))
  unfolding pull reset
  pull-booked elapsed elapsed' elapsed'' woken woken' woken'' s a =
      let s0 = record s { booked_len = zeros; backoff = false; backoff_num = zeros } in
      let k =
        round-Looked max elapsed woken p b s0
          (record { clear = a.clear; queue = a.queue; enabled = a.enabled; kept = a.kept }) in
      let s1 = (round max (quiet elapsed woken) s0).1 in
      ap (λ x. x.0)
        (rounds-again (quiet elapsed woken) (quiet elapsed' woken' ∷ quiet elapsed'' woken'' ∷ [])
          s0 k.goes_on)
      ∙ elim k.state [
        | inl flushed ↦ rounds-got (quiet elapsed' woken') (quiet elapsed'' woken'' ∷ []) s1 flushed
        | inr (held, seen) ↦ rounds-Seen elapsed' woken' (quiet elapsed'' woken'') [] s1 held seen
      ]
