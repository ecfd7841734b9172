-- ===== src/Api/Sender/Rounds.antt =====
-- The rounds of `write_task` on a writer that stays open.
use mathlib.Core.Path.{subst}
use thubo.Prelude.{
  ℕ, ◌≤◌, length-append, zero, suc, ◌+◌, ◌<◌, ◌≡◌, refl, ap, sym, ◌∙◌, List, [], ◌∷◌, ◌++◌, Option,
  some, none, Bool, true, false, length, arith, append_assoc, append-nil, ltb,
}
use thubo.Buffers.BoxBuf.{as_slice}
use thubo.Buffers.Interface.{joined}
use thubo.Collections.SingleOrVec
use thubo.Collections.SingleOrVec.{SingleOrVec}
use thubo.Collections.SingleOrVec.View
use thubo.Collections.SingleOrVec.View.{as_slice-push}
use thubo.Pipeline.RingBuf.Fifo.First.{total}
use thubo.Pipeline.Tx.{WriteBatch, to_le_bytes}
use thubo.Pipeline.Tx.Out.{StageOut, try_pull}
use thubo.Api.Io.{AsyncWrite, IsLawfulWrite, IsOpen}
use thubo.Api.Sender.Slices.{Io, ok, err, running, gather, write_all_vectored}
use thubo.Api.Sender.Wire.{wire, wire_all, slices_all, write_all_vectored-ok, Starts}
use thubo.Api.Sender.Traffic.{given_back, gathered, Sent, write_batches-Sent}
use thubo.Api.Sender.Task.{
  Event, pulled, idle, cancelled, coalesce, coalesce_max_batches, keep_batch, write_batches,
  after_write, flush_refill, after_batches, send_pulled, after_keep_alive, main_loop,
}

-- What is put on the wire: a batch, or a keep-alive.
pub data Out : Type 0 where
  sent : WriteBatch → Out
  keep_alive : Out

abbrev pub wire_out : List Out → List ℕ
wire_out [] = []
wire_out (sent b ∷ os) = wire b ++ wire_out os
wire_out (keep_alive ∷ os) = to_le_bytes 0 ++ wire_out os

abbrev pub outs : List WriteBatch → List Out → List Out
outs [] os = os
outs (b ∷ bs) os = sent b ∷ outs bs os

wire_out-outs :
    (bs : List WriteBatch) (os : List Out) → wire_out (outs bs os) ≡ wire_all bs ++ wire_out os
wire_out-outs [] os = refl
wire_out-outs (b ∷ bs) os =
    ap (λ l. wire b ++ l) (wire_out-outs bs os)
    ∙ sym (append_assoc (wire b) (wire_all bs) (wire_out os))

-- The batches that `try_pull` gives, one after the other, up to so many.
abbrev pub ready_behind :
    Option WriteBatch × StageOut
    → (StageOut → List WriteBatch × StageOut)
    → List WriteBatch × StageOut
ready_behind (none, s) rest = ([], s)
ready_behind (some b, s) rest = let (bs, s') = rest s in (b ∷ bs, s')

abbrev pub ready : ℕ → StageOut → List WriteBatch × StageOut
ready zero s = ([], s)
ready (suc n) s = ready_behind (try_pull (suc (total s.ringbuf_inout)) s) (ready n)

-- The rounds without the writer: for a pull, its batch and up to seven more that are ready, and for the
-- end of the wait a keep-alive.
abbrev pub traffic_pulled :
    Option WriteBatch × StageOut → (StageOut → List Out × StageOut) → List Out × StageOut
traffic_pulled (none, s) rest = ([], s)
traffic_pulled (some b, s) rest =
    let (more, s') = ready 7 s in
    let (os, s'') = rest (given_back (b ∷ more) s') in (outs (b ∷ more) os, s'')

abbrev pub traffic : List Event → StageOut → List Out × StageOut
traffic [] s = ([], s)
traffic (pulled pull ∷ events) s = traffic_pulled (pull s) (traffic events)
traffic (idle ∷ events) s = let (os, s') = traffic events s in (keep_alive ∷ os, s')
traffic (cancelled ∷ events) s = ([], s)

-- The frames have bytes, as those of batches do, which have their lengths.
abbrev pub AllFrames : List Out → Type 0
AllFrames [] = Unit {0}
AllFrames (sent b ∷ os) = (0 < length (as_slice b.frame)) × AllFrames os
AllFrames (keep_alive ∷ os) = AllFrames os

abbrev AllFull : List WriteBatch → Type 0
AllFull [] = Unit {0}
AllFull (b ∷ bs) = (0 < length (as_slice b.frame)) × AllFull bs

AllFrames-outs :
    (bs : List WriteBatch) (os : List Out) → AllFrames (outs bs os) → AllFull bs × AllFrames os
AllFrames-outs [] os h = (tt, h)
AllFrames-outs (b ∷ bs) os h = let (f, g) = AllFrames-outs bs os h.1 in ((h.0, f), g)

-- What the loop that takes more batches leaves, behind those that were there.
abbrev Gathers :
    List WriteBatch → List WriteBatch × StageOut → SingleOrVec WriteBatch × StageOut → Type 0
Gathers bs more c = (SingleOrVec.as_slice c.0 ≡ bs ++ more.0) × (c.1 ≡ more.1)

keep_batch-Gathers :
    (a : Option WriteBatch × StageOut) (bs : SingleOrVec WriteBatch)
    (rest : SingleOrVec WriteBatch → StageOut → SingleOrVec WriteBatch × StageOut)
    (more : StageOut → List WriteBatch × StageOut)
    → View.IsValid bs
    → ((b : WriteBatch) (s : StageOut)
        → View.IsValid (SingleOrVec.push b bs)
        → SingleOrVec.as_slice (SingleOrVec.push b bs) ≡ SingleOrVec.as_slice bs ++ (b ∷ [])
        → Gathers
            (SingleOrVec.as_slice (SingleOrVec.push b bs))
            (more s)
            (rest (SingleOrVec.push b bs) s))
    → Gathers (SingleOrVec.as_slice bs) (ready_behind a more) (keep_batch a bs rest)
unfolding keep_batch
keep_batch-Gathers (none, s) bs rest more v f = (sym (append-nil (SingleOrVec.as_slice bs)), refl)
keep_batch-Gathers (some b, s) bs rest more v f =
    let (e, u) = as_slice-push b bs v in
    let (g, h) = f b s u e in
    (
      g ∙ ap (λ l. l ++ (more s).0) e ∙ append_assoc (SingleOrVec.as_slice bs) (b ∷ []) (more s).0,
      h,
    )

coalesce-Gathers :
    (n m : ℕ) (bs : SingleOrVec WriteBatch) (s : StageOut)
    → View.IsValid bs
    → length (SingleOrVec.as_slice bs) + m ≡ coalesce_max_batches
    → m ≤ n
    → Gathers (SingleOrVec.as_slice bs) (ready m s) (coalesce n bs s)
unfolding coalesce
coalesce-Gathers zero (suc m) bs s v size le = absurd (omega arith)
coalesce-Gathers zero zero bs s v size le = (sym (append-nil (SingleOrVec.as_slice bs)), refl)
coalesce-Gathers (suc n) zero bs s v size le =
    let full : ltb (SingleOrVec.len bs) coalesce_max_batches ≡ false =
      ground (arith, View.len-as_slice bs) in
    rw full (sym (append-nil (SingleOrVec.as_slice bs)), refl)
coalesce-Gathers (suc n) (suc m) bs s v size le =
    let room : ltb (SingleOrVec.len bs) coalesce_max_batches ≡ true =
      ground (arith, View.len-as_slice bs) in
    rw room (
      keep_batch-Gathers (try_pull (suc (total s.ringbuf_inout)) s) bs (coalesce n) (ready m) v
        (λ b s' u e.
          coalesce-Gathers n m (SingleOrVec.push b bs) s' u
            (omega (arith, ap length e, length-append (SingleOrVec.as_slice bs) (b ∷ [])))
            (omega arith)))

Starts-slices_all :
    (b : WriteBatch) (bs t : List WriteBatch) → bs ≡ b ∷ t → AllFull bs → Starts (slices_all bs)
Starts-slices_all b [] t e h = tt
Starts-slices_all b (c ∷ bs) t e h = h.0

module _ {W : Type 0} (io : AsyncWrite W) (written : W → List ℕ) (l : IsLawfulWrite io written)
    (o : IsOpen io) where
  flush_refill_open :
      (a : Bool × W) (bs : SingleOrVec WriteBatch) (n : ℕ) (s : StageOut)
      → a.0 ≡ true
      → (flush_refill io a bs n s).0 ≡ ok n
  unfolding flush_refill
  flush_refill_open (true, w) bs n s e = refl
  flush_refill_open (false, w) bs n s e = absurd (cc)

  after_write_open :
      (r : Io × W) (bs : SingleOrVec WriteBatch) (n : ℕ) (s : StageOut)
      → r.0 ≡ ok n
      → (after_write io r bs s).0 ≡ ok n
  unfolding after_write
  after_write_open (ok m, w) bs n s e = flush_refill_open (io.flush w) bs m s (o.flushes w) ∙ e
  after_write_open (err x, w) bs n s e = absurd (cc)
  after_write_open (running, w) bs n s e = absurd (cc)

  write_batches_open :
      (batches : SingleOrVec WriteBatch) (w : W) (s : StageOut)
      → Starts (slices_all (SingleOrVec.as_slice batches))
      → (n : ℕ) × ((write_batches io batches (w, s)).0 ≡ ok n)
  unfolding write_batches
  write_batches_open batches w s st =
      let slices = SingleOrVec.as_slice (gather (SingleOrVec.as_slice batches) SingleOrVec.new) in
      let n : ℕ = 0 + length (joined slices) in
      (
        n,
        after_write_open (write_all_vectored io (suc (length (joined slices))) slices 0 w) batches n
            s
            (write_all_vectored-ok io written l o (suc (length (joined slices))) slices 0 w
              (omega arith) (rw (gathered (SingleOrVec.as_slice batches)) st)),
      )

  after_batches_open :
      (bs : List WriteBatch) (w : W) (s : StageOut) (r : Io × (W × StageOut)) (n : ℕ)
      (rest : W × StageOut → Bool × (W × StageOut))
      → r.0 ≡ ok n
      → Sent io written l bs w s r
      → (after_batches io r rest ≡ rest r.1)
        × (written r.1.0 ≡ written w ++ wire_all bs)
        × (r.1.1 ≡ given_back bs s)
  unfolding after_batches
  after_batches_open bs w s (ok m, x) n rest e (a, b, c) = (refl, b, c)
  after_batches_open bs w s (err x, y) n rest e h = absurd (cc)
  after_batches_open bs w s (running, x) n rest e h = absurd h

  -- What the rounds leave: these bytes on the wire, and this state of the stage.
  abbrev pub Leaves : List ℕ → List Out × StageOut → Bool × (W × StageOut) → Type 0
  Leaves before t r = (written r.1.0 ≡ before ++ wire_out t.0) × (r.1.1 ≡ t.1)

  send_pulled-Leaves :
      (a : Option WriteBatch × StageOut) (w : W) (rest : W × StageOut → Bool × (W × StageOut))
      (others : StageOut → List Out × StageOut)
      → ((w' : W) (s : StageOut)
          → AllFrames (others s).0
          → Leaves (written w') (others s) (rest (w', s)))
      → AllFrames (traffic_pulled a others).0
      → Leaves (written w) (traffic_pulled a others) (send_pulled io a w rest)
  unfolding send_pulled
  send_pulled-Leaves (none, s) w rest others ih h = (sym (append-nil (written w)), refl)
  send_pulled-Leaves (some b, s) w rest others ih h =
      let c = coalesce coalesce_max_batches (SingleOrVec.single b) s in
      let bs = b ∷ (ready 7 s).0 in
      let s' = given_back bs (ready 7 s).1 in
      let (e, f0) =
        coalesce-Gathers coalesce_max_batches 7 (SingleOrVec.single b) s tt
          (unfold SingleOrVec.as_slice in refl) (omega arith) in
      let all : SingleOrVec.as_slice c.0 ≡ bs = unfold SingleOrVec.as_slice in e in
      let (full, more) = AllFrames-outs bs (others s').0 h in
      let r = write_batches io c.0 (w, c.1) in
      let (n, done) = write_batches_open c.0 w c.1 (
        Starts-slices_all b (SingleOrVec.as_slice c.0) (ready 7 s).0 all
          (subst AllFull (sym all) full)) in
      let (f, g, k) = after_batches_open bs w c.1 r n rest done (
        subst (λ t. Sent io written l t w c.1 r) all (write_batches-Sent io written l c.0 w c.1)) in
      let (p, q) = ih r.1.0 s' more in
      let at : r.1 ≡ (r.1.0, s') = ap (λ x. (r.1.0, x)) (k ∙ ap (given_back bs) f0) in
      let run : after_batches io r rest ≡ rest (r.1.0, s') = f ∙ ap rest at in
      (
        ap (λ x. written x.1.0) run
            ∙ p
            ∙ ap (λ x. x ++ wire_out (others s').0) g
            ∙ append_assoc (written w) (wire_all bs) (wire_out (others s').0)
            ∙ ap (λ x. written w ++ x) (sym (wire_out-outs bs (others s').0)),
        ap (λ x. x.1.1) run ∙ q,
      )

  after_keep_alive_open :
      (a : Bool × W) (s : StageOut) (rest : W × StageOut → Bool × (W × StageOut))
      → a.0 ≡ true
      → after_keep_alive io a s rest ≡ rest (a.1, s)
  unfolding after_keep_alive
  after_keep_alive_open (true, w) s rest e = refl
  after_keep_alive_open (false, w) s rest e = absurd (cc)

  -- For a writer that keeps its promises and stays open, and batches whose frames are not empty: the
  -- main loop of `write_task` puts on the wire, behind what was there, the batch of every pull with up
  -- to seven more that `try_pull` gives behind it, and a keep-alive for every wait that ends without
  -- one, all of them whole and in order; every batch that was written is given back empty, to the ring
  -- of its priority if that has a slot for it, and the refill of its priority is notified.
  pub main_loop-Leaves :
      (events : List Event) (w : W) (s : StageOut)
      → AllFrames (traffic events s).0
      → Leaves (written w) (traffic events s) (main_loop io events (w, s))
  unfolding main_loop
  main_loop-Leaves [] w s h = (sym (append-nil (written w)), refl)
  main_loop-Leaves (pulled pull ∷ events) w s h =
      send_pulled-Leaves (pull s) w (main_loop io events) (traffic events)
        (λ w' s' f. main_loop-Leaves events w' s' f) h
  main_loop-Leaves (idle ∷ events) w s h =
      let a = io.write_all (to_le_bytes 0) w in
      let yes = o.accepts_all (to_le_bytes 0) w in
      let e = after_keep_alive_open a s (main_loop io events) yes in
      let (p, q) = main_loop-Leaves events a.1 s h in
      (
        ap (λ x. written x.1.0) e
            ∙ p
            ∙ ap (λ x. x ++ wire_out (traffic events s).0) (l.all_taken (to_le_bytes 0) w yes)
            ∙ append_assoc (written w) (to_le_bytes 0) (wire_out (traffic events s).0),
        ap (λ x. x.1.1) e ∙ q,
      )
  main_loop-Leaves (cancelled ∷ events) w s h = (sym (append-nil (written w)), refl)
