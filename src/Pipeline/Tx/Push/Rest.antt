-- ===== src/Pipeline/Tx/Push/Rest.antt =====
-- The loop of fragments sends the rest of a message, and ends.
use thubo.Prelude.{
  ℕ, zero, suc, ◌≤◌, ◌<◌, ◌≡◌, inl, inr, refl, ap, sym, ◌∙◌, min, List, [], ◌∷◌, ◌++◌, Option, none,
  Bool, true, false, Bool-cases, arith, length, take, map, leb, ◌==◌, length-append, length-take,
  length-drop, take-append-drop, append_assoc, if◌then◌else◌, take_of_length_le, drop_of_length_le,
}
use thubo.Protocol.Qos
use thubo.Protocol.Qos.{Qos}
use thubo.Protocol.SeqNum
use thubo.Protocol.SeqNum.{SeqNum, IsSeqNum}
use thubo.Protocol.SeqNum.Order.{next-IsSeqNum}
use thubo.Protocol.Message.{FragmentKind, more, last}
use thubo.Buffers.Bytes
use thubo.Buffers.Bytes.{Bytes, BytesReader}
use thubo.Buffers.Bytes.Cursor
use thubo.Buffers.Bytes.Cursor.{rest, remaining-eq-length}
use thubo.Buffers.Bytes.Lawful.{read_chunks-fits}
use thubo.Pipeline.Rx.Reassembly.{Tail, end_with, go_on}
use thubo.Pipeline.Tx.{WriteBatch, AtomicBackoff}
use thubo.Pipeline.Tx.Stage.{StageInPrio, SeqNumPool, Round, free, Outcome, ok, ◌>>=◌}
use thubo.Pipeline.Tx.Push.{generator, set_generator, next_seq, push_next, push_rest}
use thubo.Pipeline.Tx.Push.Pool.{IsPool, generator-set_generator, set_generator-IsPool}
use thubo.Pipeline.Tx.Ready.{AllReady}
use thubo.Pipeline.Tx.Push.Steps.{
  IsFresh, payload, at_rest, >>=-ok, Next, space, space-eq, w_len-le, filled, filled-IsFragment,
  filled-IsReady, push_next-eq,
}

-- Rounds that all find a free batch.
abbrev pub all_free : List (WriteBatch × ℕ) → List Round
all_free [] = []
all_free (b ∷ bs) = free b.0 b.1 true ∷ all_free bs

abbrev pub AllFresh : List (WriteBatch × ℕ) → Type 0
AllFresh [] = Unit {0}
AllFresh (b ∷ bs) = IsFresh b.0 × AllFresh bs

module _ (qos : Qos) (df : Option ℕ) (id : SeqNum) (hid : IsSeqNum id) (flush : Bool) (cg : List ℕ)
    (fs : ℕ) where
  -- One round of the loop.
  push_next-Next :
      (seq : SeqNum) (r : BytesReader) (b : WriteBatch) (now : ℕ) (pool : SeqNumPool)
      (sent : List WriteBatch) (back : AtomicBackoff) (rs : List Round)
      → IsSeqNum seq
      → Cursor.IsValid r
      → IsFresh b
      → (r' : BytesReader) × (f : WriteBatch) × (push_next qos df id seq r
            (at_rest pool sent back (free b now true ∷ rs) flush cg fs)
          ≡ (
            ok r',
            at_rest
                (set_generator (Qos.congestion_control qos) seq pool)
                (sent ++ (f ∷ []))
                0
                rs
                flush
                cg
                fs,
          ))
        × Next qos id seq r r' f
  push_next-Next seq r b now pool sent back rs hseq v fresh =
      let sp = space qos df id seq hid hseq r v b fresh in
      let size = remaining-eq-length r v in
      let n = min (Bytes.remaining r) sp in
      let (cs, bytes, taken) = read_chunks-fits n r v (omega arith) in
      let (got, behind, valid) = taken in
      let eq = λ (k : FragmentKind) (ek : (if leb (Bytes.remaining r) sp then last else more) ≡ k).
        push_next-eq qos df id seq hid hseq r v b fresh k n cs now pool sent back rs flush cg fs ek
          refl got in
      elim (Bool-cases (leb (Bytes.remaining r) sp)) [
        | inl e ↦
            let le : Bytes.remaining r ≤ sp = ground (arith, e) in
            (
              (Bytes.read_chunks n r).1,
              filled qos df id seq hid hseq r v b fresh last cs,
              eq last (rw e refl),
              record {
                valid = valid;
                content = inl (
                  filled-IsFragment qos df id seq hid hseq r v b fresh last cs (rest r)
                      (bytes ∙ take_of_length_le n (rest r) (omega arith)),
                  behind ∙ drop_of_length_le n (rest r) (omega arith),
                );
                ready =
                    filled-IsReady qos df id seq hid hseq r v b fresh last cs
                      (omega (arith, ap length bytes, length-take n (rest r)));
              },
            )
        | inr e ↦
            let gt : sp < Bytes.remaining r = ground (arith, e) in
            (
              (Bytes.read_chunks n r).1,
              filled qos df id seq hid hseq r v b fresh more cs,
              eq more (rw e refl),
              record {
                valid = valid;
                content = inr (
                  take n (rest r),
                  filled-IsFragment qos df id seq hid hseq r v b fresh more cs (take n (rest r))
                      bytes,
                  sym (take-append-drop n (rest r)) ∙ ap (λ t. take n (rest r) ++ t) (sym behind),
                  omega (
                    arith,
                    length-take n (rest r),
                    space-eq qos df id seq hid hseq r v b fresh,
                    w_len-le qos df id seq hid hseq r v b fresh,
                    fresh.room,
                  ),
                  omega (arith, length-drop n (rest r), ap length behind),
                );
                ready =
                    filled-IsReady qos df id seq hid hseq r v b fresh more cs
                      (omega (arith, ap length bytes, length-take n (rest r)));
              },
            )
      ]

  push_rest-done :
      (fuel : ℕ) (seq : SeqNum) (r : BytesReader) (s : StageInPrio)
      → Cursor.IsValid r
      → rest r ≡ []
      → 0 < fuel
      → push_rest fuel qos df id seq r s ≡ (ok false, s)
  unfolding push_rest
  push_rest-done zero seq r s v e h = absurd (omega arith)
  push_rest-done (suc fuel) seq r s v e h = rw (remaining-eq-length r v, e) refl

  push_rest-more :
      (fuel : ℕ) (seq : SeqNum) (r r' : BytesReader) (s s' : StageInPrio)
      → Cursor.IsValid r
      → 0 < length (rest r)
      → push_next qos df id seq r s ≡ (ok r', s')
      → push_rest (suc fuel) qos df id seq r s
        ≡ push_rest fuel qos df id
            (SeqNum.next (generator (Qos.congestion_control qos) s'.seq_num))
            r'
            s'
  unfolding push_rest
  push_rest-more fuel seq r r' s s' v h e =
      let size = remaining-eq-length r v in
      let nonzero : (Bytes.remaining r == 0) ≡ false = ground (arith, size) in
      rw nonzero (
        >>=-ok (push_next qos df id seq r)
          (λ r'. next_seq qos >>= λ seq'. push_rest fuel qos df id seq' r') s r' s' e)

  -- What the loop leaves: all its batches are sent, and together they are the rest of the message.
  pub record SentRest (seq : SeqNum) (r : BytesReader) (frees : List (WriteBatch × ℕ))
      (pool : SeqNumPool) (sent : List WriteBatch) (o : Outcome Bool × StageInPrio) : Type 0 where
    pub used : List (WriteBatch × ℕ)
    pub left : List (WriteBatch × ℕ)
    pub frees_eq : frees ≡ used ++ left
    pub used_le : length used ≤ length (rest r)
    pub rounds_eq : o.1.rounds ≡ all_free left
    pub receivers_eq : o.1.receivers ≡ []
    pub pool_kept : IsPool pool → IsPool o.1.seq_num
    pub first_batch : WriteBatch
    pub batches : List WriteBatch
    pub result : o.0 ≡ ok false
    pub sent_eq : o.1.sent ≡ sent ++ (first_batch ∷ batches)
    pub unbooked : o.1.booked ≡ none
    pub tail : Tail qos id seq (payload first_batch) (map payload batches) (rest r)
    pub ready : AllReady (first_batch ∷ batches)

  -- As many rounds as there are bytes, and one more, are enough.
  pub push_rest-SentRest :
      (fuel : ℕ) (seq : SeqNum) (r : BytesReader) (frees : List (WriteBatch × ℕ))
      (pool : SeqNumPool) (sent : List WriteBatch) (back : AtomicBackoff)
      → IsSeqNum seq
      → Cursor.IsValid r
      → AllFresh frees
      → 0 < length (rest r)
      → length (rest r) ≤ length frees
      → length (rest r) < fuel
      → SentRest seq r frees pool sent
          (push_rest fuel qos df id seq r (at_rest pool sent back (all_free frees) flush cg fs))
  push_rest-SentRest zero seq r frees pool sent back hseq v fresh some_left enough fueled =
      absurd (omega arith)
  push_rest-SentRest (suc fuel) seq r [] pool sent back hseq v fresh some_left enough fueled =
      absurd (omega arith)
  push_rest-SentRest (suc fuel) seq r (b ∷ frees) pool sent back hseq v fresh some_left enough
        fueled =
      let (r', f, e, nx) =
        push_next-Next seq r b.0 b.1 pool sent back (all_free frees) hseq v fresh.0 in
      let cc = Qos.congestion_control qos in
      let step = push_rest-more fuel seq r r' _ _ v some_left e in
      elim nx.content [
        | inl (isf, done) ↦
            let stop =
              push_rest-done fuel (SeqNum.next (generator cc (set_generator cc seq pool))) r'
                (at_rest (set_generator cc seq pool) (sent ++ (f ∷ [])) 0 (all_free frees) flush cg
                  fs)
                nx.valid done (omega arith) in
            rw (step, stop)
              record {
                used = b ∷ [];
                left = frees;
                frees_eq = refl;
                used_le = omega arith;
                rounds_eq = refl;
                receivers_eq = refl;
                pool_kept = λ h. set_generator-IsPool cc seq pool h hseq;
                first_batch = f;
                batches = [];
                result = refl;
                sent_eq = refl;
                unbooked = refl;
                tail = end_with seq (payload f) (rest r) isf;
                ready = (nx.ready, tt);
              }
        | inr (p, isf, split, pos, left) ↦
            let sum = length-append p (rest r') in
            let ih =
              push_rest-SentRest fuel (SeqNum.next seq) r' frees (set_generator cc seq pool)
                (sent ++ (f ∷ [])) 0 (next-IsSeqNum seq hseq) nx.valid fresh.1 left
                (omega (arith, ap length split)) (omega (arith, ap length split)) in
            rw (step, generator-set_generator cc seq pool)
              record {
                used = b ∷ ih.used;
                left = ih.left;
                frees_eq = ap (λ l. b ∷ l) ih.frees_eq;
                used_le = omega (arith, ih.used_le, pos, sum, ap length split);
                rounds_eq = ih.rounds_eq;
                receivers_eq = ih.receivers_eq;
                pool_kept = λ h. ih.pool_kept (set_generator-IsPool cc seq pool h hseq);
                first_batch = f;
                batches = ih.first_batch ∷ ih.batches;
                result = ih.result;
                sent_eq = ih.sent_eq ∙ append_assoc sent (f ∷ []) (ih.first_batch ∷ ih.batches);
                unbooked = ih.unbooked;
                tail = rw split (
                    go_on seq (payload f) (payload ih.first_batch) (map payload ih.batches) p
                      (rest r') isf ih.tail);
                ready = (nx.ready, ih.ready);
              }
      ]
