-- ===== src/Pipeline/Tx/Push/Frames.antt =====
-- `push_frame` with a message of any size, which goes into a frame or into fragments.
use mathlib.Core.Path.{subst}
use thubo.Prelude.{
  ℕ, ◌≤◌, ◌<◌, ◌≡◌, refl, ap₂, sym, List, [], ◌∷◌, ◌++◌, some, none, Bool, false, length,
  append-nil, arith, length-append,
}
use native.Mathlib.Decide.{dec_le}
use thubo.Protocol.Priority.{Priority}
use thubo.Protocol.Qos
use thubo.Protocol.Qos.{Qos}
use thubo.Protocol.SeqNum
use thubo.Protocol.SeqNum.{SeqNum, IsSeqNum}
use thubo.Protocol.SeqNum.Order.{next-IsSeqNum}
use thubo.Buffers.Interface.{joined}
use thubo.Buffers.BoxBuf.{remaining, box_buf_writer}
use thubo.Buffers.Bytes.{Bytes}
use thubo.Buffers.Bytes.Cursor.{NonEmpty}
use thubo.Codec.Values.RoundTrip.{encode_slice}
use thubo.Codec.Vle.Encoding.{IsU64}
use thubo.Codec.Messages.RoundTrip.{encode_message}
use thubo.Pipeline.Rx.Fragment.{frame_message}
use thubo.Pipeline.Rx.Out.View.{Received}
use thubo.Pipeline.Tx.{WriteBatch}
use thubo.Pipeline.Tx.Encode.{encode_frame}
use thubo.Pipeline.Tx.Packed.{write_or_rewind-full, IsFresh-same}
use thubo.Pipeline.Tx.Stage.{StageInPrio, Outcome}
use thubo.Pipeline.Tx.Push.{generator, push_frame, push_fragments}
use thubo.Pipeline.Tx.Push.Steps.{IsFresh, at_rest}
use thubo.Pipeline.Tx.Push.Whole.{Fragmented, push_fragments-Fragmented}
use thubo.Pipeline.Tx.Push.Pool.{generator-IsSeqNum}
use thubo.Pipeline.Tx.Push.Rest.{all_free, AllFresh}
use thubo.Pipeline.Tx.Push.Stream.{no_more, split, Carried-append, Stage}
use thubo.Pipeline.Tx.Push.Framed.{
  Taken, frame_bytes, encode_frame-Writes, sent-all, push_frame-Taken,
}

AllFresh-left : (used left : List (WriteBatch × ℕ)) → AllFresh (used ++ left) → AllFresh left
AllFresh-left [] left h = h
AllFresh-left (b ∷ used) left h = AllFresh-left used left h.1

-- The messages are taken, with so many of the free batches at most.
pub record TakenFrom (p : Priority) (frees : List (WriteBatch × ℕ)) (n : ℕ) (out : List Received)
    (o : Outcome Bool × StageInPrio) : Type 0 where
  pub used : List (WriteBatch × ℕ)
  pub left : List (WriteBatch × ℕ)
  pub frees_eq : frees ≡ used ++ left
  pub used_le : length used ≤ n
  pub taken : Taken p left out o

Fragmented-TakenFrom :
    (p : Priority) (frees : List (WriteBatch × ℕ)) (out : List Received) (msg : Bytes) (qos : Qos)
    (id seq : SeqNum) (s : StageInPrio) (o : Outcome Bool × StageInPrio)
    → Stage p frees out (record s { booked = none })
    → Qos.priority qos ≡ p
    → IsU64 (length (joined msg))
    → IsSeqNum id
    → IsSeqNum seq
    → Fragmented qos id seq msg s.seq_num frees s.sent o
    → TakenFrom p frees (length (joined msg)) (out ++ ((joined msg, qos) ∷ [])) o
Fragmented-TakenFrom p frees out msg qos id seq s o st own u hid hseq f = record {
  used = f.used;
  left = f.left;
  frees_eq = f.frees_eq;
  used_le = f.used_le;
  taken = record {
    value = false;
    result = f.result;
    stage = record {
      rounds_eq = f.rounds_eq;
      receivers_eq = f.receivers_eq;
      fresh = AllFresh-left f.used f.left (rw f.frees_eq at st.fresh);
      pool = f.pool_kept st.pool;
      done = out ++ ((joined msg, qos) ∷ []);
      held = [];
      out_eq = sym (append-nil (out ++ ((joined msg, qos) ∷ [])));
      sent =
          rw (f.sent_eq, ← append-nil f.others)
            (Carried-append p s.sent ((f.head ∷ f.second ∷ f.others) ++ []) out
              ((joined msg, qos) ∷ []) (sent-all p frees out s st)
              (split qos id seq f.head f.second f.others [] f.p f.ps (joined msg) [] own hid hseq
                f.head_fragment f.tail f.whole u f.ready no_more));
      booked = rw f.unbooked refl;
    };
  };
}

-- A stage whose booked batch is fresh, and too small for the message.
push_fragments-TakenFrom :
    (p : Priority) (frees : List (WriteBatch × ℕ)) (out : List Received) (msg : Bytes) (qos : Qos)
    (seq : SeqNum) (b : WriteBatch) (s : StageInPrio)
    → Stage p frees out (record s { booked = none })
    → IsFresh b
    → Qos.priority qos ≡ p
    → IsU64 (length (joined msg))
    → NonEmpty msg
    → IsSeqNum seq
    → remaining b.frame < length (frame_bytes qos seq msg)
    → length (joined msg) ≤ length frees
    → TakenFrom p frees
        (length (joined msg))
        (out ++ ((joined msg, qos) ∷ []))
        (push_fragments msg qos seq b s)
push_fragments-TakenFrom p frees out msg qos seq b s st fresh own u full hseq big enough =
    let same : s
        ≡ record (at_rest s.seq_num s.sent s.backoff (all_free frees) s.flush_flag s.congested
            s.flags) { booked = s.booked } =
      ap₂ (λ r q. record s { rounds = r; receivers = q }) st.rounds_eq st.receivers_eq in
    let n = length-append (encode_message (frame_message qos seq)) (encode_slice (joined msg)) in
    let f =
      push_fragments-Fragmented msg qos seq b s.booked s.seq_num s.sent s.backoff frees s.flush_flag
        s.congested s.flags full u st.pool.2 hseq fresh (omega (arith, n, big)) st.fresh enough in
    Fragmented-TakenFrom p frees out msg qos (SeqNum.next s.seq_num.frag_id) seq s _ st own u
      (next-IsSeqNum s.seq_num.frag_id st.pool.2) hseq
      (subst
        (λ x.
          Fragmented qos (SeqNum.next s.seq_num.frag_id) seq msg s.seq_num frees s.sent
            (push_fragments msg qos seq b x))
        (sym same) f)

-- A fresh batch takes the message in a frame, or in fragments.
pub push_frame-TakenFrom :
    (p : Priority) (frees : List (WriteBatch × ℕ)) (out : List Received) (msg : Bytes)
    (b : WriteBatch) (s : StageInPrio)
    → Stage p frees out (record s { booked = none })
    → IsFresh b
    → Qos.priority b.qos ≡ p
    → IsU64 (length (joined msg))
    → NonEmpty msg
    → length (joined msg) ≤ length frees
    → TakenFrom p frees
        (length (joined msg))
        (out ++ ((joined msg, b.qos) ∷ []))
        (push_frame msg b.qos b s)
unfolding push_frame
push_frame-TakenFrom p frees out msg b s st fresh own u full enough =
    let cc = Qos.congestion_control b.qos in
    let seq = SeqNum.next (generator cc s.seq_num) in
    let hseq = next-IsSeqNum (generator cc s.seq_num) (generator-IsSeqNum cc s.seq_num st.pool) in
    elim (dec_le (length (frame_bytes b.qos seq msg)) (remaining b.frame)) [
      | yes le ↦ record {
        used = [];
        left = frees;
        frees_eq = refl;
        used_le = omega arith;
        taken = push_frame-Taken p frees out msg b s st fresh own u le;
      }
      | no gt ↦
          let r =
            write_or_rewind-full (encode_frame (frame_message b.qos seq) msg) b
              (frame_bytes b.qos seq msg) fresh.valid
              (encode_frame-Writes b.qos seq msg b hseq u fresh) (omega arith) in
          let b' = record b { frame = r.frame } in
          rw r.result (
            push_fragments-TakenFrom p frees out msg b.qos seq b' (record s { booked = some b' }) st
              (IsFresh-same b _ fresh r) own u full hseq (omega (arith, r.space, gt)) enough)
    ]
