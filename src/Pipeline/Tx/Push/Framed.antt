-- ===== src/Pipeline/Tx/Push/Framed.antt =====
-- `push_frame` with a message that fits a fresh batch: src/pipeline/tx.rs.
use thubo.Prelude.{
  ℕ, ◌≤◌, ◌≡◌, refl, ap, sym, ◌∙◌, inl, inr, List, [], ◌∷◌, ◌++◌, some, none, Bool, true, false,
  length, append-nil,
}
use thubo.Protocol.Priority.{Priority}
use thubo.Protocol.Qos
use thubo.Protocol.Qos.{Qos}
use thubo.Protocol.SeqNum
use thubo.Protocol.SeqNum.{SeqNum, IsSeqNum}
use thubo.Protocol.SeqNum.Order.{next-IsSeqNum}
use thubo.Buffers.Interface.{joined}
use thubo.Buffers.BoxBuf.{remaining, box_buf_writer}
use thubo.Buffers.BoxBuf.Lawful.{box_buf_lawful}
use thubo.Buffers.Bytes.{Bytes}
use thubo.Codec.Outcome
use thubo.Codec.Values.{write_bytes}
use thubo.Codec.Values.RoundTrip.{encode_slice, write_bytes-Writes}
use thubo.Codec.Vle.Encoding.{IsU64}
use thubo.Codec.Messages.{write_message}
use thubo.Codec.Messages.RoundTrip.{encode_message, write_message-Writes}
use thubo.Pipeline.Rx.Fragment.{frame_message}
use thubo.Pipeline.Rx.In.Frames.{frame_message-IsMessage}
use thubo.Pipeline.Rx.Out.View.{Received, tagged}
use thubo.Pipeline.Tx.{WriteBatch}
use thubo.Pipeline.Tx.Encode.{encode_frame}
use thubo.Pipeline.Tx.Packed.{write_or_rewind-fits, IsFresh-Packed}
use thubo.Pipeline.Tx.Stage.{StageInPrio, Outcome, ok}
use thubo.Pipeline.Tx.Push.{generator, set_generator, return_notify, push_frame}
use thubo.Pipeline.Tx.Push.Steps.{IsFresh}
use thubo.Pipeline.Tx.Push.Pool.{generator-IsSeqNum, set_generator-IsPool}
use thubo.Pipeline.Tx.Push.Stream.{
  Carried, no_more, framed, Carried-append, Stage, return_notify-cases,
}

-- The stage has returned, and has taken these messages.
pub record Taken (p : Priority) (frees : List (WriteBatch × ℕ)) (out : List Received)
    (o : Outcome Bool × StageInPrio) : Type 0 where
  pub value : Bool
  pub result : o.0 ≡ ok value
  pub stage : Stage p frees out o.1

-- A stage with a frame in its booked batch, which is sent or kept.
pub return_notify-Taken :
    (p : Priority) (frees : List (WriteBatch × ℕ)) (out : List Received) (qos : Qos)
    (b : WriteBatch) (s : StageInPrio)
    → s.booked ≡ some b
    → Stage p frees out s
    → Taken p frees out (return_notify qos b s)
return_notify-Taken p frees out qos b s e st =
    let (flag, back, c) = return_notify-cases qos b s st.receivers_eq in
    let (ms, held, own, k) = rw e at st.booked in
    elim c [
      | inr f ↦ rw f (record {
        value = true;
        result = refl;
        stage = record {
          rounds_eq = st.rounds_eq;
          receivers_eq = st.receivers_eq;
          fresh = st.fresh;
          pool = st.pool;
          done = st.done;
          held = st.held;
          out_eq = st.out_eq;
          sent = st.sent;
          booked = st.booked;
        };
      })
      | inl f ↦ rw f (record {
        value = false;
        result = refl;
        stage = record {
          rounds_eq = st.rounds_eq;
          receivers_eq = st.receivers_eq;
          fresh = st.fresh;
          pool = st.pool;
          done = out;
          held = [];
          out_eq = sym (append-nil out);
          sent =
              rw (st.out_eq, held, ← append-nil (tagged b.qos ms))
                (Carried-append p s.sent (b ∷ []) st.done (tagged b.qos ms ++ []) st.sent
                  (framed b [] ms [] own k no_more));
          booked = refl;
        };
      })
    ]

-- The frame that `push_frame` writes.
abbrev pub frame_bytes : Qos → SeqNum → Bytes → List ℕ
frame_bytes qos seq msg = encode_message (frame_message qos seq) ++ encode_slice (joined msg)

pub encode_frame-Writes :
    (qos : Qos) (seq : SeqNum) (msg : Bytes) (b : WriteBatch)
    → IsSeqNum seq
    → IsU64 (length (joined msg))
    → IsFresh b
    → Outcome.Writes box_buf_lawful b.frame
        (frame_bytes qos seq msg)
        (encode_frame (frame_message qos seq) msg b.frame)
        tt
unfolding box_buf_lawful
encode_frame-Writes qos seq msg b h u fresh =
    Outcome.Writes-bind box_buf_lawful b.frame (encode_message (frame_message qos seq))
      (encode_slice (joined msg)) (write_message (frame_message qos seq)) (λ _. write_bytes msg) tt
      tt
      (write_message-Writes box_buf_lawful (frame_message qos seq) b.frame
        (frame_message-IsMessage qos seq h) fresh.valid)
      (λ v. write_bytes-Writes box_buf_lawful msg _ u v)

-- All that the stage has taken is sent.
pub sent-all :
    (p : Priority) (frees : List (WriteBatch × ℕ)) (out : List Received) (s : StageInPrio)
    → Stage p frees out (record s { booked = none })
    → Carried p s.sent out
sent-all p frees out s st =
    let e : out ≡ st.done = st.out_eq ∙ ap (λ l. st.done ++ l) st.booked ∙ append-nil st.done in
    rw e st.sent

-- A stage whose booked batch is fresh, and for the message.
pub push_frame-Taken :
    (p : Priority) (frees : List (WriteBatch × ℕ)) (out : List Received) (msg : Bytes)
    (b : WriteBatch) (s : StageInPrio)
    → let seq = SeqNum.next (generator (Qos.congestion_control b.qos) s.seq_num) in
      Stage p frees out (record s { booked = none })
      → IsFresh b
      → Qos.priority b.qos ≡ p
      → IsU64 (length (joined msg))
      → length (frame_bytes b.qos seq msg) ≤ remaining b.frame
      → Taken p frees (out ++ ((joined msg, b.qos) ∷ [])) (push_frame msg b.qos b s)
unfolding push_frame
push_frame-Taken p frees out msg b s st fresh own u fits =
    let cc = Qos.congestion_control b.qos in
    let seq = SeqNum.next (generator cc s.seq_num) in
    let hseq = next-IsSeqNum (generator cc s.seq_num) (generator-IsSeqNum cc s.seq_num st.pool) in
    let r =
      write_or_rewind-fits (encode_frame (frame_message b.qos seq) msg) b
        (frame_bytes b.qos seq msg) fresh.valid (encode_frame-Writes b.qos seq msg b hseq u fresh)
        fits in
    let b' = record b { frame = r.frame } in
    let s' = record s { booked = some b'; seq_num = set_generator cc seq s.seq_num } in
    let st' : Stage p frees (out ++ ((joined msg, b.qos) ∷ [])) s' = record {
      rounds_eq = st.rounds_eq;
      receivers_eq = st.receivers_eq;
      fresh = st.fresh;
      pool = set_generator-IsPool cc seq s.seq_num st.pool hseq;
      done = out;
      held = (joined msg, b.qos) ∷ [];
      out_eq = refl;
      sent = sent-all p frees out s st;
      booked = (joined msg ∷ [], refl, own, IsFresh-Packed b seq (joined msg) _ fresh hseq u r);
    } in
    rw r.result (return_notify-Taken p frees _ b.qos b' s' refl st')
