-- ===== src/Api/Sender/Traffic.antt =====
-- What the rounds of `write_task` put on the wire.
use mathlib.Core.Path.{subst}
use thubo.Prelude.{
  ℕ, suc, ◌≡◌, refl, ap, sym, ◌∙◌, List, [], ◌∷◌, ◌++◌, Bool, true, false, length, arith,
  append-nil,
}
use thubo.Buffers.Interface.{joined}
use thubo.Collections.SingleOrVec
use thubo.Collections.SingleOrVec.{SingleOrVec}
use thubo.Collections.SingleOrVec.Iter.{collect-into_iter}
use thubo.Pipeline.Tx.{WriteBatch}
use thubo.Pipeline.Tx.Out.{StageOut, refill_notify}
use thubo.Pipeline.Tx.Out.Recycled.{recycled, refill-recycled}
use thubo.Protocol.Priority.{Priority}
use thubo.Protocol.Qos
use thubo.Api.Io.{AsyncWrite, IsLawfulWrite}
use thubo.Api.Sender.Slices.{Io, ok, err, running, gather, write_all_vectored}
use thubo.Api.Sender.Wire.{
  wire_all, slices_all, joined-slices_all, as_slice-gather, Ends, write_all_vectored-Ends,
}
use thubo.Api.Sender.Task.{refill_each, write_batches, after_write, flush_refill}

-- The stage when these have been given back: each is behind the empty batches of its priority, if there was a
-- slot for it, and the refill of its priority has been notified, the last one first.
abbrev pub back_of : List WriteBatch → List Priority → List Priority
back_of [] ps = ps
back_of (b ∷ bs) ps = back_of bs (Qos.priority b.qos ∷ ps)

abbrev pub given_back : List WriteBatch → StageOut → StageOut
given_back bs s = record s {
  ringbuf_outrefill = recycled s.capacity bs s.ringbuf_outrefill;
  can_refill = back_of bs s.can_refill;
}

refill_each-given_back : (bs : List WriteBatch) (s : StageOut) → refill_each bs s ≡ given_back bs s
unfolding refill_each refill_notify
refill_each-given_back [] s = refl
refill_each-given_back (b ∷ bs) s =
    refill_each-given_back bs (refill_notify b s)
    ∙ ap
        (λ q. record s {
          ringbuf_outrefill = recycled s.capacity bs q;
          can_refill = back_of bs (Qos.priority b.qos ∷ s.can_refill);
        })
        (refill-recycled s.capacity b s.ringbuf_outrefill)

pub gathered :
    (bs : List WriteBatch) → SingleOrVec.as_slice (gather bs SingleOrVec.new) ≡ slices_all bs
unfolding SingleOrVec.as_slice SingleOrVec.new
gathered bs = as_slice-gather bs SingleOrVec.new (λ e. refl)

module _ {W : Type 0} (io : AsyncWrite W) (written : W → List ℕ)
    (l : IsLawfulWrite io written) where
  -- How `write_batches` ends: with all bytes of these batches on the wire behind those that were there,
  -- in order, and the batches given back; or with an error, when there is only a part of the bytes and
  -- no batch is given back.
  abbrev pub Sent : List WriteBatch → W → StageOut → Io × (W × StageOut) → Type 0
  Sent bs w s (ok n, (w', s')) =
      (n ≡ length (wire_all bs)) × (written w' ≡ written w ++ wire_all bs) × (s' ≡ given_back bs s)
  Sent bs w s (err e, (w', s')) =
      (p : List ℕ) × (q : List ℕ) × (wire_all bs ≡ p ++ q)
      × (written w' ≡ written w ++ p)
      × (s' ≡ s)
  Sent bs w s (running, x) = ⊥

  flush_refill-Sent :
      (batches : SingleOrVec WriteBatch) (n : ℕ) (w w' : W) (s : StageOut) (a : Bool × W)
      → let bs = SingleOrVec.as_slice batches in
        n ≡ length (wire_all bs)
        → written a.1 ≡ written w ++ wire_all bs
        → Sent bs w s (flush_refill io a batches n s)
  unfolding flush_refill
  flush_refill-Sent batches n w w' s (true, w'') e f = (
    e,
    f,
    ap (λ bs. refill_each bs s)
          (collect-into_iter (suc (SingleOrVec.len batches)) batches (omega arith))
        ∙ refill_each-given_back (SingleOrVec.as_slice batches) s,
  )
  flush_refill-Sent batches n w w' s (false, w'') e f = (
    wire_all (SingleOrVec.as_slice batches),
    [],
    sym (append-nil (wire_all (SingleOrVec.as_slice batches))),
    f,
    refl,
  )

  after_write-Sent :
      (batches : SingleOrVec WriteBatch) (w : W) (s : StageOut) (r : Io × W)
      → let bs = SingleOrVec.as_slice batches in
        Ends io written l 0 (written w) (wire_all bs) r → Sent bs w s (after_write io r batches s)
  unfolding after_write
  after_write-Sent batches w s (ok n, w') e =
      flush_refill-Sent batches n w w' s (io.flush w') (omega (arith, e.0)) (l.flushed w' ∙ e.1)
  after_write-Sent batches w s (err x, w') (p, q, e, f) = (p, q, e, f, refl)
  after_write-Sent batches w s (running, w') e = absurd e

  -- For a writer that keeps its promises: `write_batches` ends, in one of these ways. A batch that is
  -- given back is empty, and is gone if the ring of its priority has no slot for it.
  pub write_batches-Sent :
      (batches : SingleOrVec WriteBatch) (w : W) (s : StageOut)
      → Sent (SingleOrVec.as_slice batches) w s (write_batches io batches (w, s))
  unfolding write_batches
  write_batches-Sent batches w s =
      let bs = SingleOrVec.as_slice batches in
      let slices = SingleOrVec.as_slice (gather bs SingleOrVec.new) in
      let e : joined slices ≡ wire_all bs = ap joined (gathered bs) ∙ joined-slices_all bs in
      after_write-Sent batches w s (write_all_vectored io (suc (length (joined slices))) slices 0 w)
        (subst
          (λ t.
            Ends io written l 0 (written w) t
              (write_all_vectored io (suc (length (joined slices))) slices 0 w))
          e
          (write_all_vectored-Ends io written l (suc (length (joined slices))) slices 0 w
            (omega arith)))
