-- ===== src/Pipeline/Delivery/Messages.antt =====
-- Several messages, from `push` on one side to `try_pull` on the other.
use mathlib.Core.Option
use thubo.Prelude.{
  ℕ, zero, suc, ◌+◌, ◌≤◌, ◌≡◌, refl, ap, ap₂, sym, ◌∙◌, List, [], ◌∷◌, ◌++◌, map, Option, some,
  Bool, true, length, arith, append_assoc, append-nil, length-append, Option-cases, inl, inr,
}
use thubo.Protocol.CongestionControl.{cc_eq}
use thubo.Protocol.Priority
use thubo.Protocol.Priority.{Priority, PerPriority}
use thubo.Protocol.Qos
use thubo.Protocol.Qos.{Qos}
use thubo.Buffers.Interface.{joined}
use thubo.Buffers.Bytes.{Bytes}
use thubo.Buffers.Bytes.Cursor.{NonEmpty}
use thubo.Codec.Vle.Encoding.{IsU64}
use thubo.Pipeline.RingBuf.Fifo.{Queue}
use thubo.Pipeline.RingBuf.Fifo.First.{NoneOf, total}
use thubo.Pipeline.Rx.Out.{Shared, try_pull}
use thubo.Pipeline.Rx.Out.View.{Received, tagged, View}
use thubo.Pipeline.Rx.Out.Pulls.{flat, try_pull-Pulled}
use thubo.Pipeline.Tx.{WriteBatch}
use thubo.Pipeline.Tx.Stage.{StageInPrio, Outcome, ok}
use thubo.Pipeline.Tx.Push.{push, flush}
use thubo.Pipeline.Tx.Push.Stream.{Carried, no_more, framed, Carried-append, Stage}
use thubo.Pipeline.Tx.Push.Messages.{push-Added}
use thubo.Pipeline.Delivery.Lines.{added, pull_first-added}

-- Messages pushed one after the other.
unfoldable pub pushes : List (Bytes × Qos) → StageInPrio → List (Outcome Bool) × StageInPrio
unfolding push
pushes [] s = ([], s)
pushes (m ∷ ms) s = let (o, s') = push m.0 m.1 s in let (os, s'') = pushes ms s' in (o ∷ os, s'')

-- So many messages pulled one after the other.
unfoldable pub pulls : ℕ → Shared → List (Option (Bytes × Qos)) × Shared
unfolding try_pull
pulls zero s = ([], s)
pulls (suc n) s =
    let (m, s') = try_pull (suc (total s.ring_buf)) [] s in
    let (ms, s'') = pulls n s' in (m ∷ ms, s'')

-- The batches that messages may take: one for each byte, and one more.
abbrev pub cost : List (Bytes × Qos) → ℕ
cost [] = 0
cost (m ∷ ms) = suc (length (joined m.0)) + cost ms

-- What is asked of the messages.
abbrev pub AllSendable : Priority → List (Bytes × Qos) → Type 0
AllSendable p [] = Unit {0}
AllSendable p (m ∷ ms) =
    (Qos.priority m.1 ≡ p) × IsU64 (length (joined m.0)) × NonEmpty m.0 × AllSendable p ms

-- The same bytes, with the same priority and congestion control.
abbrev pub Same : List (Bytes × Qos) → List Received → Type 0
Same [] [] = Unit {0}
Same [] (x ∷ out) = ⊥
Same (m ∷ ms) [] = ⊥
Same (m ∷ ms) (x ∷ out) =
    (x.0 ≡ joined m.0)
    × (Qos.priority x.1 ≡ Qos.priority m.1)
    × (cc_eq (Qos.congestion_control x.1) (Qos.congestion_control m.1) ≡ true)
    × Same ms out

abbrev pub AllOk : List (Outcome Bool) → Type 0
AllOk [] = Unit {0}
AllOk (o ∷ os) = ((v : Bool) × (o ≡ ok v)) × AllOk os

-- All the messages are taken by the stage.
pub record Pushes (p : Priority) (ms : List (Bytes × Qos)) (out : List Received)
    (o : List (Outcome Bool) × StageInPrio) : Type 0 where
  pub all_ok : AllOk o.0
  pub more : List Received
  pub same : Same ms more
  pub left : List (WriteBatch × ℕ)
  pub stage : Stage p left (out ++ more) o.1

Pushes-cons :
    (p : Priority) (m : Bytes × Qos) (ms : List (Bytes × Qos)) (out : List Received)
    (s : StageInPrio) (x : Received)
    → x.0 ≡ joined m.0
    → Qos.priority x.1 ≡ Qos.priority m.1
    → cc_eq (Qos.congestion_control x.1) (Qos.congestion_control m.1) ≡ true
    → (v : Bool) × ((push m.0 m.1 s).0 ≡ ok v)
    → Pushes p ms (out ++ (x ∷ [])) (pushes ms (push m.0 m.1 s).1)
    → Pushes p (m ∷ ms) out (pushes (m ∷ ms) s)
unfolding pushes
Pushes-cons p m ms out s x e f g r rest = record {
  all_ok = (r, rest.all_ok);
  more = x ∷ rest.more;
  same = (e, f, g, rest.same);
  left = rest.left;
  stage = rw (← append_assoc out (x ∷ []) rest.more) rest.stage;
}

pub pushes-Pushes :
    (p : Priority) (ms : List (Bytes × Qos)) (frees : List (WriteBatch × ℕ)) (out : List Received)
    (s : StageInPrio)
    → Stage p frees out s
    → AllSendable p ms
    → cost ms ≤ length frees
    → Pushes p ms out (pushes ms s)
unfolding pushes
pushes-Pushes p [] frees out s st h enough = record {
  all_ok = tt;
  more = [];
  same = tt;
  left = frees;
  stage = rw (append-nil out) st;
}
pushes-Pushes p (m ∷ ms) [] out s st h enough = absurd (omega arith)
pushes-Pushes p (m ∷ ms) (f ∷ frees) out s st (own, u, full, h) enough =
    let a = push-Added p f frees out m.0 m.1 s st own u full (omega arith) in
    let t = a.taken in
    Pushes-cons p m ms out s (joined m.0, a.frame_qos) refl (a.own ∙ sym own) a.same_cc
      (t.taken.value, t.taken.result)
      (pushes-Pushes p ms t.left (out ++ ((joined m.0, a.frame_qos) ∷ [])) (push m.0 m.1 s).1
        t.taken.stage h
        (omega (arith, t.used_le, length-append t.used t.left, ap length t.frees_eq)))

-- `flush` sends what is booked.
pub flush-Carried :
    (p : Priority) (frees : List (WriteBatch × ℕ)) (out : List Received) (s : StageInPrio)
    → Stage p frees out s
    → Carried p (flush s).1.sent out
unfolding flush
flush-Carried p frees out s st = elim (Option-cases s.booked) [
  | inl e ↦
      let held : st.held ≡ [] = rw e at st.booked in
      rw (e, st.out_eq, held, append-nil st.done) st.sent
  | inr (b, e) ↦
      let (ms, held, own, k) = rw e at st.booked in
      rw (e, st.out_eq, held, ← append-nil (tagged b.qos ms))
        (Carried-append p s.sent (b ∷ []) st.done (tagged b.qos ms ++ []) st.sent
          (framed b [] ms [] own k no_more))
]

-- Messages that wait alone are pulled in order.
pub pulls-added :
    (p : Priority) (out : List Received) (s : Shared) (vs : PerPriority (Queue Received))
    → NoneOf Priority.all vs
    → View s (added p out vs)
    → map (Option.map flat) (pulls (length out) s).0 ≡ map some out
unfolding pulls
pulls-added p [] s vs n v = refl
pulls-added p (x ∷ out) s vs n v =
    let t = try_pull-Pulled (suc (total s.ring_buf)) s (added p (x ∷ out) vs) v (omega arith) in
    let next = pull_first-added p x out vs n in
    let s' = (try_pull (suc (total s.ring_buf)) [] s).1 in
    let v' : View s' (added p out vs) = rw next at t.view in
    ap₂ (λ a l. a ∷ l) (t.result ∙ ap (λ o. o.0) next) (pulls-added p out s' vs n v')
