-- ===== src/Pipeline/Tx/Push/Added.antt =====
-- `push` with no batch booked, and with a booked batch that is sent first: src/pipeline/tx.rs.
use thubo.Prelude.{
  ℕ, suc, ◌≤◌, ◌≡◌, refl, ap, sym, ◌∙◌, List, [], ◌∷◌, ◌++◌, some, none, Bool, true, length,
  append-nil, arith, if◌then◌else◌,
}
use thubo.Protocol.CongestionControl.{CongestionControl, cc_eq}
use thubo.Protocol.Priority.{Priority}
use thubo.Protocol.Qos
use thubo.Protocol.Qos.{Qos}
use thubo.Buffers.Interface.{joined}
use thubo.Buffers.BoxBuf.{box_buf_writer}
use thubo.Buffers.Bytes
use thubo.Buffers.Bytes.{Bytes}
use thubo.Buffers.Bytes.Cursor.{NonEmpty}
use thubo.Codec.Vle.Encoding.{IsU64}
use thubo.Pipeline.Rx.Out.View.{Received, tagged}
use thubo.Pipeline.Tx.{WriteBatch, is_empty, len, start, clear_backoff}
use thubo.Pipeline.Tx.Packed.{Packed, is_empty-Packed, length-as_slice}
use thubo.Pipeline.Tx.Stage.{
  StageInPrio, Outcome, ok, batch_or_return, acquire, move_batch, notify, ◌>>=◌,
}
use thubo.Pipeline.Tx.Push.{push_frame, push_append, fresh_frame, push}
use thubo.Pipeline.Tx.Push.Steps.{IsFresh, >>=-ok}
use thubo.Pipeline.Tx.Push.Rest.{all_free}
use thubo.Pipeline.Tx.Push.Stream.{no_more, framed, Carried-append, Stage}
use thubo.Pipeline.Tx.Push.Frames.{TakenFrom, push_frame-TakenFrom}

is_empty-IsFresh : (b : WriteBatch) → IsFresh b → is_empty b ≡ true
unfolding is_empty len Bytes.len
is_empty-IsFresh b f =
    let no_chunks : Bytes.len b.fragment ≡ 0 = ap Bytes.len f.no_chunks in
    let size = length-as_slice b.frame f.valid in
    let n : len b ≡ 0 = omega (arith, no_chunks, size, f.no_bytes) in ground (arith, n)

-- A free batch as the search hands it over.
abbrev handed : Qos → WriteBatch → WriteBatch
handed qos b = record b { qos = qos; drop_flag = none }

handed-IsFresh : (qos : Qos) (b : WriteBatch) → IsFresh b → IsFresh (handed qos b)
handed-IsFresh qos b f = record {
  valid = f.valid;
  no_bytes = f.no_bytes;
  no_chunks = f.no_chunks;
  room = f.room;
  fits = f.fits;
}

-- The message is taken, with the QoS of the frame or the fragments that it is in, by at most one more
-- batch than it has bytes.
pub record Added (p : Priority) (qos : Qos) (m : List ℕ) (frees : List (WriteBatch × ℕ))
    (out : List Received) (o : Outcome Bool × StageInPrio) : Type 0 where
  pub frame_qos : Qos
  pub own : Qos.priority frame_qos ≡ p
  pub same_cc : cc_eq (Qos.congestion_control frame_qos) (Qos.congestion_control qos) ≡ true
  pub taken : TakenFrom p frees (suc (length m)) (out ++ ((m, frame_qos) ∷ [])) o

cc_eq_self : (c : CongestionControl) → cc_eq c c ≡ true
unfolding cc_eq
cc_eq_self CongestionControl.block = refl
cc_eq_self CongestionControl.drop = refl

-- With no batch booked, a free one is taken.
pub new_frame-Added :
    (p : Priority) (f : WriteBatch × ℕ) (frees : List (WriteBatch × ℕ)) (out : List Received)
    (msg : Bytes) (qos : Qos) (s : StageInPrio)
    → Stage p (f ∷ frees) out s
    → s.booked ≡ none
    → Qos.priority qos ≡ p
    → IsU64 (length (joined msg))
    → NonEmpty msg
    → length (joined msg) ≤ length frees
    → let b = handed qos f.0 in
      let s' = record s {
        rounds = all_free frees;
        backoff = start f.1 s.backoff;
        booked = some b;
      } in
      Added p qos (joined msg) (f ∷ frees) out (push_frame msg qos b s')
new_frame-Added p f frees out msg qos s st e own u full enough =
    let b = handed qos f.0 in
    let s' = record s { rounds = all_free frees; backoff = start f.1 s.backoff; booked = some b } in
    let st' : Stage p frees out (record s' { booked = none }) = record {
      rounds_eq = refl;
      receivers_eq = st.receivers_eq;
      fresh = st.fresh.1;
      pool = st.pool;
      done = st.done;
      held = st.held;
      out_eq = st.out_eq;
      sent = st.sent;
      booked = rw e at st.booked;
    } in
    let t =
      push_frame-TakenFrom p frees out msg b s' st' (handed-IsFresh qos f.0 st.fresh.0) own u full
        enough in
    record {
      frame_qos = qos;
      own = own;
      same_cc = cc_eq_self (Qos.congestion_control qos);
      taken = record {
        used = f ∷ t.used;
        left = t.left;
        frees_eq = ap (λ l. f ∷ l) t.frees_eq;
        used_le = omega (arith, t.used_le);
        taken = t.taken;
      };
    }

-- The search, when the first round finds a batch.
batch_or_return-free :
    (qos : Qos) (f : WriteBatch × ℕ) (frees : List (WriteBatch × ℕ)) (s : StageInPrio)
    → s.booked ≡ none
    → s.rounds ≡ all_free (f ∷ frees)
    → batch_or_return qos none s ≡ (
      ok (handed qos f.0),
      record s {
        rounds = all_free frees;
        backoff = start f.1 s.backoff;
        booked = some (handed qos f.0);
      },
    )
unfolding batch_or_return acquire
batch_or_return-free qos f frees s e r = rw (e, r) refl

-- `push` with no batch booked.
pub push-unbooked :
    (qos : Qos) (f : WriteBatch × ℕ) (frees : List (WriteBatch × ℕ)) (msg : Bytes) (s : StageInPrio)
    → IsFresh f.0
    → s.booked ≡ none
    → s.rounds ≡ all_free (f ∷ frees)
    → push msg qos s
      ≡ push_frame msg qos (handed qos f.0) (record s {
        rounds = all_free frees;
        backoff = start f.1 s.backoff;
        booked = some (handed qos f.0);
      })
unfolding push
push-unbooked qos f frees msg s fresh e r =
    let b = handed qos f.0 in
    >>=-ok (batch_or_return qos none)
      (λ b. if is_empty b then push_frame msg qos b else push_append msg qos b) s b _
      (batch_or_return-free qos f frees s e r)
    ∙ rw (is_empty-IsFresh b (handed-IsFresh qos f.0 fresh)) refl

move_batch-ok :
    (b : WriteBatch) (s : StageInPrio)
    → s.receivers ≡ []
    → move_batch b s ≡ (
      ok tt,
      record s { backoff = clear_backoff s.backoff; booked = none; sent = s.sent ++ (b ∷ []) },
    )
unfolding move_batch notify
move_batch-ok b s e =
    let sent = s.sent ++ (b ∷ []) in
    ap (λ r. move_batch b (record s { receivers = r })) e
    ∙ ap (λ r. (ok tt, record s { backoff = 0; booked = none; sent = sent; receivers = r })) (sym e)

-- The booked batch is sent, and the message goes to a new one.
pub fresh_frame-Added :
    (p : Priority) (f : WriteBatch × ℕ) (frees : List (WriteBatch × ℕ)) (out : List Received)
    (msg : Bytes) (qos : Qos) (b : WriteBatch) (s : StageInPrio)
    → Stage p (f ∷ frees) out s
    → s.booked ≡ some b
    → Qos.priority qos ≡ p
    → IsU64 (length (joined msg))
    → NonEmpty msg
    → length (joined msg) ≤ length frees
    → Added p qos (joined msg) (f ∷ frees) out (fresh_frame msg qos b s)
fresh_frame-Added p f frees out msg qos b s st e own u full enough =
    let (ms, held, own_b, k) = rw e at st.booked in
    let s1 = record s { backoff = 0; booked = none; sent = s.sent ++ (b ∷ []) } in
    let st1 : Stage p (f ∷ frees) out s1 = record {
      rounds_eq = st.rounds_eq;
      receivers_eq = st.receivers_eq;
      fresh = st.fresh;
      pool = st.pool;
      done = out;
      held = [];
      out_eq = sym (append-nil out);
      sent =
          rw (st.out_eq, held, ← append-nil (tagged b.qos ms))
            (Carried-append p s.sent (b ∷ []) st.done (tagged b.qos ms ++ []) st.sent
              (framed b [] ms [] own_b k no_more));
      booked = refl;
    } in
    let run : fresh_frame msg qos b s
        ≡ push_frame msg qos (handed qos f.0) (record s1 {
          rounds = all_free frees;
          backoff = start f.1 0;
          booked = some (handed qos f.0);
        }) =
      >>=-ok (move_batch b) (λ _. batch_or_return qos none >>= push_frame msg qos) s tt s1
        (move_batch-ok b s st.receivers_eq)
      ∙ >>=-ok (batch_or_return qos none) (push_frame msg qos) s1 (handed qos f.0) _
          (batch_or_return-free qos f frees s1 refl st.rounds_eq) in
    rw run (new_frame-Added p f frees out msg qos s1 st1 refl own u full enough)

-- Whatever is booked for the priority.
pub push-booked :
    (qos : Qos) (msg : Bytes) (b : WriteBatch) (ms : List (List ℕ)) (s : StageInPrio)
    → s.booked ≡ some b
    → Packed b ms
    → push msg qos s ≡ push_append msg qos b s
unfolding push batch_or_return
push-booked qos msg b ms s e k =
    >>=-ok (batch_or_return qos none)
      (λ b. if is_empty b then push_frame msg qos b else push_append msg qos b) s b s (rw e refl)
    ∙ rw (is_empty-Packed b ms k) refl
