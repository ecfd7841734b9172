-- ===== src/Pipeline/Transfer.antt =====
-- src/pipeline/tx.rs and rx.rs together: what the sending stage cuts up, the receiving stage puts together.
use thubo.Prelude.{
  ℕ, suc, ◌≤◌, ◌<◌, ◌+◌, ◌^◌, ◌≡◌, ap, sym, ◌∙◌, List, [], ◌∷◌, ◌++◌, Option, Bool, false, map,
  length, length-map, replicate, arith,
}
use thubo.Protocol.Qos.{Qos}
use thubo.Protocol.SeqNum
use thubo.Protocol.SeqNum.{SeqNum, IsSeqNum}
use thubo.Protocol.SeqNum.Order.{next-IsSeqNum}
use thubo.Buffers.Interface.{joined}
use thubo.Buffers.BoxBuf.{remaining}
use thubo.Buffers.Bytes.{Bytes}
use thubo.Buffers.Bytes.Cursor.{NonEmpty}
use thubo.Codec.Values.RoundTrip.{encode_slice}
use thubo.Codec.Messages.RoundTrip.{encode_message}
use thubo.Pipeline.Rx.{Defragmentation, push_all, stored}
use thubo.Pipeline.Rx.Reassembly.{push_all-fragments, whole_message}
use thubo.Pipeline.Tx.{WriteBatch, AtomicBackoff}
use thubo.Pipeline.Tx.Stage.{SeqNumPool, StageInPrio, Outcome, ok}
use thubo.Pipeline.Tx.Push.{push_fragments}
use thubo.Pipeline.Tx.Push.Steps.{IsFresh, payload, at_rest}
use thubo.Pipeline.Tx.Push.Rest.{all_free, AllFresh}
use thubo.Pipeline.Rx.Fragment.{frame_message}
use thubo.Pipeline.Tx.Push.Whole.{push_fragments-Fragmented}

-- The sender has returned, and the receiver of what it has sent has the whole message, in one piece.
pub record Transferred (max : ℕ) (qos : Qos) (msg : Bytes) (d : Defragmentation)
    (o : Outcome Bool × StageInPrio) : Type 0 where
  pub result : o.0 ≡ ok false
  pub message : Bytes
  pub no_empty : NonEmpty message
  pub message_eq : joined message ≡ encode_slice (joined msg)
  pub before_last : ℕ
  pub all_sent : length o.1.sent ≡ suc before_last
  pub received :
      (push_all max (map payload o.1.sent) d).0
      ≡ replicate before_last stored ++ (whole_message qos message ∷ [])

-- For a message of fewer than 2 ^ 64 bytes in chunks that are not empty, which does not fit a fresh
-- batch with the header of a frame, as many free batches as it has bytes, and a receiver whose limit
-- its encoding keeps: all the fragments are sent, and the receiver, whatever its buffers held before,
-- stores all but the last of them and has the message with the last.
pub transfer-Transferred :
    (max : ℕ) (d : Defragmentation) (msg : Bytes) (qos : Qos) (seq : SeqNum) (b : WriteBatch)
    (o : Option WriteBatch) (pool : SeqNumPool) (back : AtomicBackoff)
    (frees : List (WriteBatch × ℕ)) (flush : Bool) (cg : List ℕ) (fs : ℕ)
    → length (encode_slice (joined msg)) ≤ max
    → NonEmpty msg
    → length (joined msg) < 2 ^ 64
    → IsSeqNum pool.frag_id
    → IsSeqNum seq
    → IsFresh b
    → remaining b.frame
      < length (encode_message (frame_message qos seq)) + length (encode_slice (joined msg))
    → AllFresh frees
    → length (joined msg) ≤ length frees
    → Transferred max qos msg d (
        push_fragments msg qos seq b
          (record (at_rest pool [] back (all_free frees) flush cg fs) { booked = o }))
transfer-Transferred max d msg qos seq b o pool back frees flush cg fs limit full small hpool hseq
      fresh big free_ones enough =
    let f =
      push_fragments-Fragmented msg qos seq b o pool [] back frees flush cg fs full small hpool hseq
        fresh big free_ones enough in
    let (bytes, full_bytes, eq, run) =
      push_all-fragments max qos (SeqNum.next pool.frag_id) seq (payload f.head) (payload f.second)
        (map payload f.others) f.p f.ps d (next-IsSeqNum pool.frag_id hpool) hseq f.head_fragment
        f.tail (omega (arith, ap length f.whole)) in
    record {
      result = f.result;
      message = bytes;
      no_empty = full_bytes;
      message_eq = eq ∙ f.whole;
      before_last = suc (length (map payload f.others));
      all_sent = ap length f.sent_eq ∙ ap (λ k. suc (suc k)) (sym (length-map f.others payload));
      received = ap (λ l. (push_all max (map payload l) d).0) f.sent_eq ∙ ap (λ x. x.0) run;
    }
