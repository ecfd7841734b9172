-- ===== src/Pipeline/Rx/Out/Meanwhile.antt =====
-- A batch that comes in while the other end is between `peek_mut` and `pull`.
use thubo.Prelude.{ℕ, ◌<◌, ◌≡◌, ◌≢◌, ap, sym, ◌∙◌, [], ◌∷◌, arith}
use thubo.Protocol.Priority
use thubo.Protocol.Priority.{Priority, PerPriority, high, medium, low, background}
use thubo.Protocol.Qos
use thubo.Pipeline.RingBuf.Fifo
use thubo.Pipeline.RingBuf.Fifo.{Queue}
use thubo.Pipeline.RingBuf.Fifo.First.{above_ne, items_at, First, here, behind, pull_first-First}
use thubo.Pipeline.RingBuf.Rep.Storage.{index-index_set_self, index-index_set_ne}
use thubo.Pipeline.Rx.{ReadBatch}
use thubo.Pipeline.Rx.Out.{Shared, discard, arrive}

-- No priority above `p` has a batch.
abbrev pub NoneAbove : {T : Type 0} → Priority → PerPriority (Queue T) → Type 0
NoneAbove p qs = (q : Priority) → Priority.to_u8 q < Priority.to_u8 p → items_at qs q ≡ []

pub NoneAbove-First :
    {T : Type 0} (p : Priority) (qs : PerPriority (Queue T))
    → NoneAbove p qs
    → First qs p Priority.all
unfolding Priority.to_u8
NoneAbove-First high qs n = here _
NoneAbove-First medium qs n = behind high _ (n high (omega arith)) (here _)
NoneAbove-First low qs n =
    behind high _ (n high (omega arith)) (behind medium _ (n medium (omega arith)) (here _))
NoneAbove-First background qs n =
    behind high _ (n high (omega arith))
      (behind medium _ (n medium (omega arith)) (behind low _ (n low (omega arith)) (here _)))

push-room :
    (c : ℕ) (b : ReadBatch) (a : Queue ReadBatch)
    → c ≢ 0
    → a.items ≡ []
    → (Fifo.push c b a).1 ≡ record a { items = b ∷ [] }
unfolding Fifo.push
push-room c b a ne e = ground (arith, e, ne)

-- For a ring with slots, a priority above which no other has a batch, and a batch of a higher priority
-- that comes in between `peek_mut` and `pull`: it is that batch which is removed, though it has not
-- been looked at, and the batches of the priority that was looked at stay.
pub discard-arrival :
    (s : Shared) (p : Priority) (b : ReadBatch)
    → s.capacity ≢ 0
    → NoneAbove p s.ring_buf
    → Priority.to_u8 (Qos.priority b.qos) < Priority.to_u8 p
    → (items_at (discard (b ∷ []) p s).ring_buf (Qos.priority b.qos) ≡ [])
      × (items_at (discard (b ∷ []) p s).ring_buf p ≡ items_at s.ring_buf p)
unfolding discard arrive
discard-arrival s p b ne none_above lt =
    let q = Qos.priority b.qos in
    let a = Priority.index s.ring_buf q in
    let empty = none_above q lt in
    let x = record a { items = b ∷ [] } in
    let r = Priority.index_set s.ring_buf q x in
    let first : First r q Priority.all = NoneAbove-First q r (λ t l.
      ap (λ y. y.items) (index-index_set_ne s.ring_buf q t x (λ e. above_ne q t l (sym e)))
      ∙ none_above t (omega arith)) in
    let front : items_at r q ≡ b ∷ [] = ap (λ y. y.items) (index-index_set_self s.ring_buf q x) in
    rw (push-room s.capacity b a ne empty, pull_first-First r q b [] Priority.all first front)
      (
        ap (λ y. y.items) (index-index_set_self r q (record (Priority.index r q) { items = [] })),
        ap (λ y. y.items)
            (index-index_set_ne r q p (record (Priority.index r q) { items = [] }) (above_ne p q lt)
              ∙ index-index_set_ne s.ring_buf q p x (above_ne p q lt)),
      )
