-- ===== src/Pipeline/Tx/Push/Messages.antt =====
-- `push` adds a message of any size to the stream of its stage.
use thubo.Prelude.{
  ℕ, ◌≤◌, ◌<◌, ◌≡◌, refl, ap, sym, ◌∙◌, inl, inr, List, [], ◌∷◌, ◌++◌, some, true, false,
  Bool-cases, Option-cases, length, append_assoc, append-nil, arith,
}
use native.Mathlib.Decide.{dec_le}
use thubo.Protocol.CongestionControl.{cc_eq}
use thubo.Protocol.Priority.{Priority}
use thubo.Protocol.Qos
use thubo.Protocol.Qos.{Qos}
use thubo.Buffers.Interface.{joined}
use thubo.Buffers.BoxBuf.{remaining, box_buf_writer}
use thubo.Buffers.BoxBuf.Lawful.{box_buf_lawful}
use thubo.Buffers.Bytes.{Bytes}
use thubo.Buffers.Bytes.Cursor.{NonEmpty}
use thubo.Codec.Values.{write_bytes}
use thubo.Codec.Values.RoundTrip.{encode_slice, write_bytes-Writes}
use thubo.Codec.Vle.Encoding.{IsU64}
use thubo.Pipeline.Rx.Out.View.{Received, tagged}
use thubo.Pipeline.Tx.{WriteBatch}
use thubo.Pipeline.Tx.Packed.{
  Packed, write_or_rewind-fits, write_or_rewind-full, Packed-append, Packed-same,
}
use thubo.Pipeline.Tx.Stage.{StageInPrio}
use thubo.Pipeline.Tx.Push.{push_append, push}
use thubo.Pipeline.Tx.Push.Stream.{Stage}
use thubo.Pipeline.Tx.Push.Framed.{return_notify-Taken}
use thubo.Pipeline.Tx.Push.Added.{
  Added, new_frame-Added, push-unbooked, fresh_frame-Added, push-booked,
}

tagged-append :
    (q : Qos) (ms : List (List ℕ)) (m : List ℕ)
    → tagged q (ms ++ (m ∷ [])) ≡ tagged q ms ++ ((m, q) ∷ [])
tagged-append q [] m = refl
tagged-append q (x ∷ ms) m = ap (λ l. (x, q) ∷ l) (tagged-append q ms m)

-- The stage after a write to its booked batch.
stored-Stage :
    (p : Priority) (frees : List (WriteBatch × ℕ)) (out more : List Received) (b b' : WriteBatch)
    (s : StageInPrio) (ms : List (List ℕ))
    → (st : Stage p frees out s) → out ++ more ≡ st.done ++ tagged b'.qos ms
    → Qos.priority b'.qos ≡ p
    → Packed b' ms
    → Stage p frees (out ++ more) (record s { booked = some b' })
stored-Stage p frees out more b b' s ms st e own k = record {
  rounds_eq = st.rounds_eq;
  receivers_eq = st.receivers_eq;
  fresh = st.fresh;
  pool = st.pool;
  done = st.done;
  held = tagged b'.qos ms;
  out_eq = e;
  sent = st.sent;
  booked = (ms, refl, own, k);
}

module _ (p : Priority) (f : WriteBatch × ℕ) (frees : List (WriteBatch × ℕ)) (out : List Received)
    (msg : Bytes) (qos : Qos) (b : WriteBatch) (s : StageInPrio) (st : Stage p (f ∷ frees) out s)
    (e : s.booked ≡ some b) (own : Qos.priority qos ≡ p) (u : IsU64 (length (joined msg)))
    (full : NonEmpty msg) (enough : length (joined msg) ≤ length frees) where
  -- There is room in the booked batch.
  append-fits :
      cc_eq (Qos.congestion_control b.qos) (Qos.congestion_control qos) ≡ true
      → length (encode_slice (joined msg)) ≤ remaining b.frame
      → Added p qos (joined msg) (f ∷ frees) out (push_append msg qos b s)
  unfolding push_append box_buf_lawful
  append-fits c room =
      let (ms, held, own_b, k) = rw e at st.booked in
      let r =
        write_or_rewind-fits (write_bytes msg) b (encode_slice (joined msg)) k.valid
          (write_bytes-Writes box_buf_lawful msg b.frame u k.valid) room in
      let b' = record b { frame = r.frame } in
      let eq : out ++ ((joined msg, b.qos) ∷ [])
          ≡ st.done ++ tagged b.qos (ms ++ (joined msg ∷ [])) =
        ap (λ l. l ++ ((joined msg, b.qos) ∷ [])) (st.out_eq ∙ ap (λ l. st.done ++ l) held)
        ∙ append_assoc st.done (tagged b.qos ms) ((joined msg, b.qos) ∷ [])
        ∙ ap (λ l. st.done ++ l) (sym (tagged-append b.qos ms (joined msg))) in
      let st' =
        stored-Stage p (f ∷ frees) out ((joined msg, b.qos) ∷ []) b b' s (ms ++ (joined msg ∷ []))
          st eq own_b (Packed-append b ms (joined msg) _ k u r) in
      record {
        frame_qos = b.qos;
        own = own_b;
        same_cc = c;
        taken = record {
          used = [];
          left = f ∷ frees;
          frees_eq = refl;
          used_le = omega arith;
          taken =
              rw (c, r.result)
                (return_notify-Taken p (f ∷ frees) _ qos b' (record s { booked = some b' }) refl
                  st');
        };
      }

  -- There is none: what was written is taken back, and the batch is sent.
  append-full :
      cc_eq (Qos.congestion_control b.qos) (Qos.congestion_control qos) ≡ true
      → remaining b.frame < length (encode_slice (joined msg))
      → Added p qos (joined msg) (f ∷ frees) out (push_append msg qos b s)
  unfolding push_append box_buf_lawful
  append-full c no_room =
      let (ms, held, own_b, k) = rw e at st.booked in
      let r =
        write_or_rewind-full (write_bytes msg) b (encode_slice (joined msg)) k.valid
          (write_bytes-Writes box_buf_lawful msg b.frame u k.valid) no_room in
      let b' = record b { frame = r.frame } in
      let st' =
        stored-Stage p (f ∷ frees) out [] b b' s ms st
          (append-nil out ∙ st.out_eq ∙ ap (λ l. st.done ++ l) held) own_b
          (Packed-same b ms _ k r) in
      rw (c, r.result)
        (fresh_frame-Added p f frees out msg qos b' (record s { booked = some b' })
          (rw (append-nil out) at st') refl own u full enough)

  -- The congestion control of the batch is another.
  append-other :
      cc_eq (Qos.congestion_control b.qos) (Qos.congestion_control qos) ≡ false
      → Added p qos (joined msg) (f ∷ frees) out (push_append msg qos b s)
  unfolding push_append
  append-other c = rw c (fresh_frame-Added p f frees out msg qos b s st e own u full enough)

-- For a stage of the priority of the message whose batches hold the messages `out`, with free batches
-- to come, one for each byte of the message and one more, and notifications that are received: `push`
-- of a message of fewer than 2 ^ 64 bytes in chunks that are not empty returns `Ok`, and the batches
-- then hold `out` and the message, behind the others of the booked batch, in a frame of its own or in
-- fragments. The QoS that goes with it on the wire has its priority and its congestion control, and no
-- more batches are used than those.
pub push-Added :
    (p : Priority) (f : WriteBatch × ℕ) (frees : List (WriteBatch × ℕ)) (out : List Received)
    (msg : Bytes) (qos : Qos) (s : StageInPrio)
    → Stage p (f ∷ frees) out s
    → Qos.priority qos ≡ p
    → IsU64 (length (joined msg))
    → NonEmpty msg
    → length (joined msg) ≤ length frees
    → Added p qos (joined msg) (f ∷ frees) out (push msg qos s)
push-Added p f frees out msg qos s st own u full enough = elim (Option-cases s.booked) [
  | inl e ↦
      rw (push-unbooked qos f frees msg s st.fresh.0 e st.rounds_eq)
        (new_frame-Added p f frees out msg qos s st e own u full enough)
  | inr (b, e) ↦
      let k = rw e at st.booked in
      rw (push-booked qos msg b k.0 s e k.3)
        (elim (Bool-cases (cc_eq (Qos.congestion_control b.qos) (Qos.congestion_control qos))) [
          | inr c ↦ append-other p f frees out msg qos b s st e own u full enough c
          | inl c ↦ elim (dec_le (length (encode_slice (joined msg))) (remaining b.frame)) [
            | yes le ↦ append-fits p f frees out msg qos b s st e own u full enough c le
            | no gt ↦ append-full p f frees out msg qos b s st e own u full enough c (omega arith)
          ]
        ])
]
