-- ===== src/Pipeline/Delivery/Receives.antt =====
-- The receiving side takes what a stage has sent: all its messages are queued, in order.
use mathlib.Core.Path.{subst}
use thubo.Prelude.{
  ℕ, suc, ◌+◌, ◌≤◌, ◌<◌, ◌≡◌, refl, ap, sym, ◌∙◌, List, [], ◌∷◌, ◌++◌, map, true, length, replicate,
  arith, append-nil, length-append, length-map,
}
use thubo.Protocol.Priority
use thubo.Protocol.Priority.{Priority, PerPriority}
use thubo.Protocol.Qos
use thubo.Buffers.Bytes.Cursor.{NonEmpty-IsCursor}
use thubo.Codec.Values.RoundTrip.{encode_slice}
use thubo.Pipeline.RingBuf.Fifo.{Queue}
use thubo.Pipeline.RingBuf.Fifo.First.{items_at}
use thubo.Pipeline.RingBuf.Rep.Storage.{index-index_set_self}
use thubo.Pipeline.Rx
use thubo.Pipeline.Rx.{Defragmentation, ReadBatch, complete}
use thubo.Pipeline.Rx.Reassembly.{push_all-fragments}
use thubo.Pipeline.Rx.Out.{Shared}
use thubo.Pipeline.Rx.Out.Messages.{Holds}
use thubo.Pipeline.Rx.Out.View.{Received, tagged, View}
use thubo.Pipeline.Rx.In.{ok, push_all, deliver}
use thubo.Pipeline.Rx.In.Delivered.{appended}
use thubo.Pipeline.Rx.In.Frames.{push-IsFrame, appended-View}
use thubo.Pipeline.Rx.In.Queues.{
  IsOpen, push_ring-IsOpen, push-Step, push_all-stored, push_all-append,
}
use thubo.Pipeline.Delivery.Lines.{added, added-nil, added-append}
use thubo.Pipeline.Tx.{WriteBatch}
use thubo.Pipeline.Tx.Packed.{payload-IsFrame}
use thubo.Pipeline.Tx.Push.Steps.{payload}
use thubo.Pipeline.Tx.Push.Stream.{Carried, no_more, framed, split}

-- The messages keep the limit of the receiver.
abbrev pub AllWithin : ℕ → List Received → Type 0
AllWithin max [] = Unit {0}
AllWithin max (m ∷ out) = (length (encode_slice m.0) ≤ max) × AllWithin max out

-- The batches are taken with `Ok(true)`, and their messages are queued.
pub record Receives (max : ℕ) (p : Priority) (bs : List WriteBatch) (out : List Received)
    (d : Defragmentation) (s : Shared) (vs : PerPriority (Queue Received)) : Type 0 where
  pub buffers : Defragmentation
  pub shared : Shared
  pub run :
      push_all max (map payload bs) (d, s) ≡ (replicate (length bs) (ok true), (buffers, shared))
  pub view : View shared (added p out vs)
  pub same_capacity : shared.capacity ≡ s.capacity
  pub there : shared.receiver ≡ true
  pub grown : length (items_at shared.ring_buf p) ≤ length (items_at s.ring_buf p) + length bs

length-appended :
    (b : ReadBatch) (s : Shared) (p : Priority)
    → Qos.priority b.qos ≡ p
    → length (items_at (appended b s).ring_buf p) ≡ length (items_at s.ring_buf p) + 1
length-appended b s p e =
    let a = Priority.index s.ring_buf p in
    rw e (
      ap (λ c. length c.items)
        (index-index_set_self s.ring_buf p (record a { items = a.items ++ (b ∷ []) }))
      ∙ length-append a.items (b ∷ []))

AllWithin-tagged :
    (max : ℕ) (q : Qos.Qos) (ms : List (List ℕ)) (out : List Received)
    → AllWithin max (tagged q ms ++ out)
    → AllWithin max out
AllWithin-tagged max q [] out h = h
AllWithin-tagged max q (m ∷ ms) out h = AllWithin-tagged max q ms out h.1

map-payload-append :
    (bs cs : List WriteBatch) → map payload (bs ++ cs) ≡ map payload bs ++ map payload cs
map-payload-append [] cs = refl
map-payload-append (b ∷ bs) cs = ap (λ l. payload b ∷ l) (map-payload-append bs cs)

replicate-length-append :
    {A B : Type 0} (a : A) (xs ys : List B)
    → replicate (length xs) a ++ replicate (length ys) a ≡ replicate (length (xs ++ ys)) a
replicate-length-append a [] ys = refl
replicate-length-append a (x ∷ xs) ys = ap (λ l. a ∷ l) (replicate-length-append a xs ys)

module _ (max : ℕ) (p : Priority) (d d' : Defragmentation) (s : Shared)
    (vs : PerPriority (Queue Received)) where
  -- Batches that come in as one to the ring, and others behind them.
  Receives-append :
      (xs bs : List WriteBatch) (b : ReadBatch) (ms : List (List ℕ)) (out : List Received)
      → push_all max (map payload xs) (d, s) ≡ (replicate (length xs) (ok true), (d', appended b s))
      → Qos.priority b.qos ≡ p
      → 0 < length xs
      → Receives max p bs out d' (appended b s) (added p (tagged b.qos ms) vs)
      → Receives max p (xs ++ bs) (tagged b.qos ms ++ out) d s vs
  Receives-append xs bs b ms out e own pos r = record {
    buffers = r.buffers;
    shared = r.shared;
    run =
        ap (λ l. push_all max l (d, s)) (map-payload-append xs bs)
        ∙ push_all-append max (map payload xs) (map payload bs) (d, s) (d', appended b s)
            (r.buffers, r.shared) _ _ e r.run
        ∙ ap (λ l. (l, (r.buffers, r.shared))) (replicate-length-append (ok true) xs bs);
    view = rw (added-append p (tagged b.qos ms) out vs) at r.view;
    same_capacity = r.same_capacity;
    there = r.there;
    grown = omega (arith, r.grown, length-appended b s p own, length-append xs bs);
  }

added-View :
    (p : Priority) (s : Shared) (vs : PerPriority (Queue Received)) (b : ReadBatch)
    (ms : List (List ℕ))
    → Qos.priority b.qos ≡ p
    → View s vs
    → Holds b ms
    → View (appended b s) (added p (tagged b.qos ms) vs)
added-View p s vs b ms e v h = rw (← e) (appended-View s vs b ms v h)

-- There is room for a batch.
is_open :
    (p : Priority) (q : Qos.Qos) (s : Shared) (n : ℕ)
    → Qos.priority q ≡ p
    → s.receiver ≡ true
    → length (items_at s.ring_buf p) + suc n ≤ s.capacity
    → IsOpen q s
is_open p q s n e there room = record {
  room = λ f. absurd (omega (arith, rw (← e) at room, f));
  there = there;
}

-- For batches that carry these messages within the limit, and a receiver that is there and has room for
-- as many batches: `push` takes each with `Ok(true)`, and the messages stand behind those of their
-- priority.
pub Carried-Receives :
    (max : ℕ) (p : Priority) (bs : List WriteBatch) (out : List Received) (d : Defragmentation)
    (s : Shared) (vs : PerPriority (Queue Received))
    → Carried p bs out
    → AllWithin max out
    → View s vs
    → s.receiver ≡ true
    → length (items_at s.ring_buf p) + length bs ≤ s.capacity
    → Receives max p bs out d s vs
unfolding push_all deliver
Carried-Receives max p _ _ d s vs no_more limit v there room = record {
  buffers = d;
  shared = s;
  run = refl;
  view = rw (added-nil p vs) v;
  same_capacity = refl;
  there = there;
  grown = omega arith;
}
Carried-Receives max p _ _ d s vs (framed b bs ms out e k rest) limit v there room =
    let (b', same, h, run) =
      push-IsFrame max b.qos k.seq (payload b) ms d k.hseq (payload-IsFrame b ms k) in
    let own : Qos.priority b'.qos ≡ p = ap Qos.priority same ∙ e in
    let step =
      push-Step max [] (payload b) d d s (appended b' s) (complete b') (ok true) run
        (push_ring-IsOpen [] b' s (is_open p b'.qos s (length bs) own there room)) in
    let v' = added-View p s vs b' ms own v h in
    subst (λ q. Receives max p (b ∷ bs) (tagged q ms ++ out) d s vs) same
      (Receives-append max p d d s vs (b ∷ []) bs b' ms out (ap (λ t. (t.0 ∷ [], t.1)) step) own
        (omega arith)
        (Carried-Receives max p bs out d (appended b' s) (added p (tagged b'.qos ms) vs) rest
          (AllWithin-tagged max b.qos ms out limit) v' there
          (omega (arith, length-appended b' s p own))))
Carried-Receives max p _ _ d s vs
      (split q id seq head second others bs x xs m out e hid hseq f t w u ready rest) limit v there
      room =
    let (bytes, full, j, run) =
      push_all-fragments max q id seq (payload head) (payload second) (map payload others) x xs d
        hid hseq f t (rw w limit.0) in
    let whole : ReadBatch = record { bytes = bytes; qos = q; slice = 0; byte = 0 } in
    let h : Holds whole (m ∷ []) = record {
      valid = NonEmpty-IsCursor bytes full;
      ahead = j ∙ w ∙ sym (append-nil (encode_slice m));
      small = (u, tt);
    } in
    let n = suc (length (map payload others)) in
    let d' = (Rx.push_all max (map payload (head ∷ second ∷ others)) d).1 in
    let first_run =
      push_all-stored max n (map payload (head ∷ second ∷ others)) whole d s (ap (λ r. r.0) run)
        (is_open p q s (suc (length (others ++ bs))) e there room) in
    Receives-append max p d d' s vs (head ∷ second ∷ others) bs whole (m ∷ []) out
      (first_run
        ∙ ap (λ k. (replicate (suc (suc k)) (ok true), (d', appended whole s)))
            (length-map others payload))
      e (omega arith)
      (Carried-Receives max p bs out d' (appended whole s) (added p (tagged q (m ∷ [])) vs) rest
        limit.1 (added-View p s vs whole (m ∷ []) e v h) there
        (omega (arith, length-appended whole s p e, length-append others bs)))
