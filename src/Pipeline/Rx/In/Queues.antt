-- ===== src/Pipeline/Rx/In/Queues.antt =====
-- Batches that come in while there is room: each message is queued for its priority.
use thubo.Prelude.{
  ℕ, zero, suc, ◌≡◌, ◌≢◌, refl, ap, sym, ◌∙◌, List, [], ◌∷◌, ◌++◌, true, length, replicate,
}
use thubo.Protocol.Priority.{PerPriority}
use thubo.Protocol.Qos
use thubo.Protocol.Qos.{Qos}
use thubo.Protocol.SeqNum.{SeqNum, IsSeqNum}
use thubo.Buffers.Bytes.{Bytes}
use thubo.Pipeline.RingBuf.Fifo.{Queue}
use thubo.Pipeline.RingBuf.Fifo.First.{items_at}
use thubo.Pipeline.Rx
use thubo.Pipeline.Rx.{ReadBatch, Defragmentation, Step, failed, stored, complete, undefined}
use thubo.Pipeline.Rx.Out.{Shared}
use thubo.Pipeline.Rx.Out.View.{Received, View}
use thubo.Pipeline.Rx.In.{Round, Outcome, ok, resume, notify, push_ring, deliver, push, push_all}
use thubo.Pipeline.Rx.In.Delivered.{appended, attempt-room}
use thubo.Pipeline.Rx.In.Frames.{IsFrame, push-IsFrame, queued, appended-View}

-- There is room for one more batch of this priority, and the other end is there.
pub record IsOpen (q : Qos) (s : Shared) : Type 0 where
  pub room : length (items_at s.ring_buf (Qos.priority q)) ≢ s.capacity
  pub there : s.receiver ≡ true

pub push_ring-IsOpen :
    (rounds : List Round) (b : ReadBatch) (s : Shared)
    → IsOpen b.qos s
    → push_ring rounds b s ≡ (ok true, appended b s)
unfolding push_ring resume notify
push_ring-IsOpen [] b s h = rw (attempt-room b s h.room, h.there) refl
push_ring-IsOpen (r ∷ rounds) b s h = rw (attempt-room b s h.room, h.there) refl

-- The call of `push` on what it makes of the bytes.
pub push-Step :
    (max : ℕ) (rounds : List Round) (bytes : Bytes) (d d' : Defragmentation) (s s' : Shared)
    (step : Step) (o : Outcome)
    → Rx.push max bytes d ≡ (step, d')
    → deliver rounds step s ≡ (o, s')
    → push max rounds bytes (d, s) ≡ (o, (d', s'))
unfolding push
push-Step max rounds bytes d d' s s' step o e f = rw (e, f) refl

-- For a batch with the header of a frame and messages of fewer than 2 ^ 64 bytes each, a ring with
-- room for it and a receiver that is there: `push` of the bytes returns `Ok(true)` at once, leaves the
-- reassembly buffers as they are, and puts all the messages behind those of their priority.
pub push-View :
    (max : ℕ) (rounds : List Round) (q : Qos) (seq : SeqNum) (bytes : Bytes) (ms : List (List ℕ))
    (d : Defragmentation) (s : Shared) (vs : PerPriority (Queue Received))
    → IsSeqNum seq
    → IsFrame q seq bytes ms
    → IsOpen q s
    → View s vs
    → (s' : Shared) × (push max rounds bytes (d, s) ≡ (ok true, (d, s'))) × View s' (queued q ms vs)
unfolding deliver
push-View max rounds q seq bytes ms d s vs hseq f free v =
    let (b, e, h, run) = push-IsFrame max q seq bytes ms d hseq f in
    let free' : IsOpen b.qos s = rw e free in
    (
      appended b s,
      push-Step max rounds bytes d d s (appended b s) (complete b) (ok true) run
          (push_ring-IsOpen rounds b s free'),
      rw (sym e) (appended-View s vs b ms v h),
    )

-- What becomes of several batches.
deliver_all : List Step → Shared → List Outcome × Shared
deliver_all [] s = ([], s)
deliver_all (step ∷ steps) s =
    let (o, s') = deliver [] step s in let (os, s'') = deliver_all steps s' in (o ∷ os, s'')

push_all-deliver_all :
    (max : ℕ) (bs : List Bytes) (d : Defragmentation) (s : Shared)
    → push_all max bs (d, s) ≡ (
      (deliver_all (Rx.push_all max bs d).0 s).0,
      ((Rx.push_all max bs d).1, (deliver_all (Rx.push_all max bs d).0 s).1),
    )
unfolding push_all Rx.push_all push deliver_all
push_all-deliver_all max [] d s = refl
push_all-deliver_all max (x ∷ bs) d s =
    let (step, d') = Rx.push max x d in
    let (o, s') = deliver [] step s in ap (λ t. (o ∷ t.0, t.1)) (push_all-deliver_all max bs d' s')

deliver_all-stored :
    (n : ℕ) (b : ReadBatch) (s : Shared)
    → IsOpen b.qos s
    → deliver_all (replicate n stored ++ (complete b ∷ [])) s
      ≡ (replicate (suc n) (ok true), appended b s)
unfolding deliver_all deliver
deliver_all-stored zero b s free = rw (push_ring-IsOpen [] b s free) refl
deliver_all-stored (suc n) b s free = ap (λ t. (ok true ∷ t.0, t.1)) (deliver_all-stored n b s free)

-- Batches of which all but the last are stored.
pub push_all-stored :
    (max n : ℕ) (bs : List Bytes) (b : ReadBatch) (d : Defragmentation) (s : Shared)
    → (Rx.push_all max bs d).0 ≡ replicate n stored ++ (complete b ∷ [])
    → IsOpen b.qos s
    → push_all max bs (d, s)
      ≡ (replicate (suc n) (ok true), ((Rx.push_all max bs d).1, appended b s))
push_all-stored max n bs b d s e free =
    push_all-deliver_all max bs d s
    ∙ ap (λ l. ((deliver_all l s).0, ((Rx.push_all max bs d).1, (deliver_all l s).1))) e
    ∙ ap (λ t. (t.0, ((Rx.push_all max bs d).1, t.1))) (deliver_all-stored n b s free)

-- Batches in two parts.
pub push_all-append :
    (max : ℕ) (xs ys : List Bytes) (x y z : Defragmentation × Shared) (os os' : List Outcome)
    → push_all max xs x ≡ (os, y)
    → push_all max ys y ≡ (os', z)
    → push_all max (xs ++ ys) x ≡ (os ++ os', z)
unfolding push_all
push_all-append max [] ys x y z os os' e f = rw (← ap (λ t. t.0) e, ap (λ t. t.1) e) f
push_all-append max (b ∷ xs) ys x y z os os' e f =
    let (o, x') = push max [] b x in
    let rest = push_all max xs x' in
    let ih = push_all-append max xs ys x' y z rest.0 os' (ap (λ t. (rest.0, t.1)) e) f in
    ap (λ t. (o ∷ t.0, t.1)) ih ∙ ap (λ t. (t.0 ++ os', z)) e
