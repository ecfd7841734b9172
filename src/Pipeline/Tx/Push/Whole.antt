-- ===== src/Pipeline/Tx/Push/Whole.antt =====
-- A message that does not fit a batch is sent in fragments that carry all of it.
use thubo.Prelude.{
  ℕ, suc, ◌+◌, ◌^◌, ◌≤◌, ◌<◌, ◌≡◌, ap, ap₂, ◌∙◌, List, [], ◌∷◌, ◌++◌, Option, some, none, Bool,
  false, arith, Op, length, take, drop, map, length-append, length-drop, length-take, drop-append,
  take-append-drop, append-nil, append_assoc,
}
use thubo.Protocol.Qos
use thubo.Protocol.Qos.{Qos}
use thubo.Protocol.SeqNum
use thubo.Protocol.SeqNum.{SeqNum, IsSeqNum}
use thubo.Protocol.SeqNum.Order.{next-IsSeqNum}
use thubo.Protocol.Message.{first, new_frame, new_fragment}
use thubo.Buffers.Interface.{joined}
use thubo.Buffers.BoxBuf.{BoxBuf, as_slice, remaining, box_buf_writer}
use thubo.Buffers.BoxBuf.Lawful.{box_buf_lawful}
use thubo.Buffers.Bytes
use thubo.Buffers.Bytes.{Bytes, BytesReader, reader}
use thubo.Buffers.Bytes.Cursor.{NonEmpty, NonEmpty-IsCursor, rest, len-joined}
use thubo.Buffers.Bytes.Lawful.{read_chunks-fits}
use thubo.Buffers.Bytes.View.{joined-extend}
use thubo.Codec.Outcome.{Appends}
use thubo.Codec.Outcome
use thubo.Codec.Vle.{write_u64}
use thubo.Codec.Vle.Encoding.{IsU64, encoding, vle_len-eq-length}
use thubo.Codec.Vle.Write.{write_u64-Writes}
use thubo.Codec.Values.RoundTrip.{encode_slice}
use thubo.Codec.Messages.{write_message}
use thubo.Codec.Messages.RoundTrip.{encode_message, write_message-Writes}
use thubo.Pipeline.Rx.Fragment.{
  frame_message, IsFragment, fragment_message, fragment_message-IsMessage,
}
use thubo.Pipeline.Rx.Reassembly.{Tail}
use thubo.Pipeline.Tx.{WriteBatch, AtomicBackoff, batch_len}
use thubo.Pipeline.Tx.Encode.{encode_first}
use thubo.Pipeline.Tx.Stage.{
  StageInPrio, SeqNumPool, Outcome, Run, ok, encoding_failed, ◌>>=◌, ◌>>◌, move_batch, notify,
}
use thubo.Pipeline.Tx.Push.{
  set_generator, set_seq, next_seq, new_flag, new_id, write_frame, take_chunks, push_fragments,
  push_rest, fragment_headers,
}
use thubo.Pipeline.Tx.Ready.{IsReady-written, AllReady}
use thubo.Pipeline.Tx.Push.Steps.{
  IsFresh, payload, at_rest, >>=-ok, write_frame-ok, take_chunks-ok, vle_len-le,
}
use thubo.Pipeline.Tx.Push.Pool.{IsPool, generator-set_generator, set_generator-IsPool}
use thubo.Pipeline.Tx.Push.Rest.{all_free, AllFresh, push_rest-SentRest}

-- The batches that were sent are the fragments of the message, in order.
pub record Fragmented (qos : Qos) (id seq : SeqNum) (msg : Bytes) (pool : SeqNumPool)
    (frees : List (WriteBatch × ℕ)) (sent : List WriteBatch) (o : Outcome Bool × StageInPrio)
    : Type 0 where
  pub used : List (WriteBatch × ℕ)
  pub left : List (WriteBatch × ℕ)
  pub frees_eq : frees ≡ used ++ left
  pub used_le : length used ≤ length (joined msg)
  pub rounds_eq : o.1.rounds ≡ all_free left
  pub receivers_eq : o.1.receivers ≡ []
  pub pool_kept : IsPool pool → IsPool o.1.seq_num
  pub head : WriteBatch
  pub second : WriteBatch
  pub others : List WriteBatch
  pub p : List ℕ
  pub ps : List ℕ
  pub result : o.0 ≡ ok false
  pub sent_eq : o.1.sent ≡ sent ++ (head ∷ second ∷ others)
  pub unbooked : o.1.booked ≡ none
  pub head_fragment : IsFragment qos first id seq (payload head) p
  pub tail : Tail qos id (SeqNum.next seq) (payload second) (map payload others) ps
  pub whole : p ++ ps ≡ encode_slice (joined msg)
  pub ready : AllReady (head ∷ second ∷ others)

pub encoding-le : (x : ℕ) → IsU64 x → length (encoding x) ≤ 9
encoding-le x u = omega (arith, vle_len-eq-length x u, vle_len-le x)

module _ (msg : Bytes) (qos : Qos) (id seq : SeqNum) (b : WriteBatch) (hid : IsSeqNum id)
    (hseq : IsSeqNum seq) (small : length (joined msg) < 2 ^ 64) (fresh : IsFresh b)
    (big : remaining b.frame
      < length (encode_message (frame_message qos seq)) + length (encode_slice (joined msg))) where
  abbrev headers : Op BoxBuf (Unit {0})
  headers = encode_first (fragment_headers qos seq first id) (Bytes.len msg)

  abbrev front : List ℕ
  front = encode_message (fragment_message qos first id seq) ++ encoding (length (joined msg))

  -- The headers of the first fragment fit a fresh batch, and what is left is too small for the message.
  front-le :
      (length front ≤ remaining b.frame) × (remaining b.frame < length front + length (joined msg))
  unfolding new_fragment
  front-le =
      let u : length (joined msg) < 2 ^ 64 = small in
      let a = encoding-le (length (joined msg)) small in
      let c = encoding-le seq (omega arith) in
      let d = encoding-le id (omega arith) in
      let e =
        length-append (encode_message (fragment_message qos first id seq))
          (encoding (length (joined msg))) in
      let f = length-append (encoding seq) (encoding id) in
      let g = length-append (encoding seq) (new_frame.header ∷ []) in
      let h = length-append (encoding (length (joined msg))) (joined msg) in
      let i = length-append (encoding seq) ((new_fragment first id).header ∷ encoding id) in
      (omega (arith, fresh.room), omega arith)

  head_written : Outcome.Appends box_buf_lawful b.frame front (headers b.frame) tt
  unfolding box_buf_lawful
  head_written = rw (len-joined msg) (
      (Outcome.Writes-bind box_buf_lawful b.frame
          (encode_message (fragment_message qos first id seq)) (encoding (length (joined msg)))
          (write_message (fragment_headers qos seq first id)) (λ _. write_u64 (length (joined msg)))
          tt tt
          (write_message-Writes box_buf_lawful (fragment_message qos first id seq) b.frame
            (fragment_message-IsMessage qos first id seq hid hseq) fresh.valid)
          (λ v. write_u64-Writes box_buf_lawful (length (joined msg)) _ small v)).fits
        (front-le).0)

-- For a message of fewer than 2 ^ 64 bytes in chunks that are not empty, which does not fit a fresh
-- batch with the header of a frame, and as many free batches as it has bytes: `push_fragments` sends
-- all of it, in fragments with consecutive numbers, and ends.
pub push_fragments-Fragmented :
    (msg : Bytes) (qos : Qos) (seq : SeqNum) (b : WriteBatch) (o : Option WriteBatch)
    (pool : SeqNumPool) (sent : List WriteBatch) (back : AtomicBackoff)
    (frees : List (WriteBatch × ℕ)) (flush : Bool) (cg : List ℕ) (fs : ℕ)
    → NonEmpty msg
    → length (joined msg) < 2 ^ 64
    → IsSeqNum pool.frag_id
    → IsSeqNum seq
    → IsFresh b
    → remaining b.frame
      < length (encode_message (frame_message qos seq)) + length (encode_slice (joined msg))
    → AllFresh frees
    → length (joined msg) ≤ length frees
    → Fragmented qos (SeqNum.next pool.frag_id) seq msg pool frees sent (
        push_fragments msg qos seq b
          (record (at_rest pool sent back (all_free frees) flush cg fs) { booked = o }))
unfolding push_fragments new_flag new_id SeqNum.increment move_batch notify box_buf_lawful reader
push_fragments-Fragmented msg qos seq b o pool sent back frees flush cg fs full small hpool hseq
      fresh big free_ones enough =
    let id = SeqNum.next pool.frag_id in
    let hid = next-IsSeqNum pool.frag_id hpool in
    let cc = Qos.congestion_control qos in
    let b1 = record b { drop_flag = some fs } in
    let enc = headers msg qos id seq b hid hseq small fresh big in
    let w = head_written msg qos id seq b hid hseq small fresh big in
    let (le, lt) = front-le msg qos id seq b hid hseq small fresh big in
    let b2 = record b1 { frame = (enc b.frame).1 } in
    let n = remaining b2.frame in
    let (cs, bytes, taken) =
      read_chunks-fits n (reader msg) (NonEmpty-IsCursor msg full) (omega (arith, w.space)) in
    let (got, behind, valid) = taken in
    let r' = (Bytes.read_chunks n (reader msg)).1 in
    let b3 = record b2 { fragment = Bytes.extend b.fragment cs } in
    let pool' = set_generator cc seq (record pool { frag_id = id }) in
    let finish : WriteBatch × BytesReader → Run Bool = λ br.
      set_seq qos seq
      >> (move_batch br.0
          >> (next_seq qos >>= λ seq'.
              push_rest (suc (Bytes.len msg)) qos (some fs) id seq' br.1)) in
    let chain =
      >>=-ok (write_frame enc b1)
        (λ b2. take_chunks encoding_failed (remaining b2.frame) (reader msg) b2 >>= finish) _ _ _
        (write_frame-ok enc b1
          (record (at_rest (record pool { frag_id = id }) sent back (all_free frees) flush cg
            (fs + 1)) { booked = some b1 })
          w.result)
      ∙ >>=-ok (take_chunks encoding_failed n (reader msg) b2) finish _ _ _
          (take_chunks-ok encoding_failed n (reader msg) b2 _ cs got) in
    let left = length-drop n (joined msg) in
    let k =
      push_rest-SentRest qos (some fs) id hid flush cg (fs + 1) (suc (Bytes.len msg))
        (SeqNum.next seq) r' frees pool' (sent ++ (b3 ∷ [])) 0 (next-IsSeqNum seq hseq) valid
        free_ones (omega (arith, ap length behind, w.space)) (omega (arith, ap length behind))
        (omega (arith, ap length behind, len-joined msg)) in
    let start = at_rest pool' (sent ++ (b3 ∷ [])) 0 (all_free frees) flush cg (fs + 1) in
    let out : push_fragments msg qos seq b
          (record (at_rest pool sent back (all_free frees) flush cg fs) { booked = o })
        ≡ push_rest (suc (Bytes.len msg)) qos (some fs) id (SeqNum.next seq) r' start =
      chain
      ∙ ap (λ z. push_rest (suc (Bytes.len msg)) qos (some fs) id (SeqNum.next z) r' start)
          (generator-set_generator cc seq (record pool { frag_id = id })) in
    let enc_headers = encode_message (fragment_message qos first id seq) in
    let size = encoding (length (joined msg)) in
    let in_frame : drop batch_len (as_slice b3.frame) ≡ enc_headers ++ size =
      ap (drop batch_len) w.bytes ∙ drop-append batch_len (as_slice b.frame) _ fresh.no_bytes in
    let in_chunks : joined b3.fragment ≡ take n (joined msg) =
      joined-extend b.fragment cs ∙ ap (λ c. joined c ++ joined cs) fresh.no_chunks ∙ bytes in
    let all : drop batch_len (as_slice b3.frame) ++ joined b3.fragment
        ≡ enc_headers ++ (size ++ take n (joined msg)) =
      ap₂ (λ x y. x ++ y) in_frame in_chunks
      ∙ append_assoc enc_headers size (take n (joined msg)) in
    rw out record {
      used = k.used;
      left = k.left;
      frees_eq = k.frees_eq;
      used_le = omega (arith, k.used_le, left, ap length behind);
      rounds_eq = k.rounds_eq;
      receivers_eq = k.receivers_eq;
      pool_kept = λ h.
          k.pool_kept
            (set_generator-IsPool cc seq (record pool { frag_id = id }) (h.0, h.1, hid) hseq);
      head = b3;
      second = k.first_batch;
      others = k.batches;
      p = size ++ take n (joined msg);
      ps = rest r';
      result = k.result;
      sent_eq = k.sent_eq ∙ append_assoc sent (b3 ∷ []) (k.first_batch ∷ k.batches);
      unbooked = k.unbooked;
      head_fragment = ((rw all (omega arith), tt), append-nil _ ∙ all);
      tail = k.tail;
      ready = (
        IsReady-written b b3 (front msg qos id seq b hid hseq small fresh big) fresh.no_bytes
            w.valid w.bytes (omega arith)
            (omega (arith, ap length in_chunks, length-take n (joined msg), w.space, fresh.fits)),
        k.ready,
      );
      whole =
          ap (λ t. (size ++ take n (joined msg)) ++ t) behind
          ∙ append_assoc size (take n (joined msg)) (drop n (joined msg))
          ∙ ap (λ t. size ++ t) (take-append-drop n (joined msg));
    }
