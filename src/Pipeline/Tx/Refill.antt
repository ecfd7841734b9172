-- ===== src/Pipeline/Tx/Refill.antt =====
-- src/pipeline/tx.rs: how empty batches come to the sending stage (StageRefill), and go back (StageOut).
use thubo.Prelude.{
  ℕ, ◌+◌, ◌-◌, ◌%◌, ◌^◌, ◌≤◌, ◌<◌, ◌≡◌, List, [], ◌∷◌, Option, some, none, Bool-cases, inl, inr,
  ltb, if◌then◌else◌, length, arith,
}
use thubo.Protocol.Priority
use thubo.Protocol.Priority.{PerPriority}
use thubo.Protocol.Qos
use thubo.Pipeline.RingBuf.Fifo
use thubo.Pipeline.RingBuf.Fifo.{Queue}
use thubo.Pipeline.Tx.{WriteBatch, alloc, clear}

pub record StageRefill : Type 0 where
  pub capacity : ℕ
  pub allocated : ℕ
  pub batch_size : ℕ

-- `StageRefill::pull`, with what the ring of recycled batches gives. The argument of `then_some` is
-- evaluated whether there is a batch left to allocate or not.
unfoldable pub pull : Option WriteBatch → StageRefill → Option WriteBatch × StageRefill
pull (some b) s = (some b, s)
pull none s = (
  if ltb s.allocated s.capacity then some (alloc s.batch_size) else none,
  record s { allocated = (s.allocated + 1) % 2 ^ 64 },
)

-- `StageOut::refill`: the batch is emptied and goes to the ring of its priority, of `c` slots. One that
-- does not fit is gone.
unfoldable pub refill :
    ℕ → WriteBatch → PerPriority (Queue WriteBatch) → PerPriority (Queue WriteBatch)
refill c b qs =
    let p = Qos.priority b.qos in
    Priority.index_set qs p (Fifo.push c (clear b) (Priority.index qs p)).1

-- A sequence of pulls, with what the ring gives at each.
unfoldable pub pulls :
    List (Option WriteBatch) → StageRefill → List (Option WriteBatch) × StageRefill
pulls [] s = ([], s)
pulls (r ∷ rs) s = let (b, s') = pull r s in let (bs, s'') = pulls rs s' in (b ∷ bs, s'')

-- The batches that are not from the ring.
abbrev pub made_one : Option WriteBatch → Option WriteBatch → ℕ
made_one (some b) o = 0
made_one none (some b) = 1
made_one none none = 0

abbrev pub made : List (Option WriteBatch) → List (Option WriteBatch) → ℕ
made [] os = 0
made (r ∷ rs) [] = 0
made (r ∷ rs) (o ∷ os) = made_one r o + made rs os

pulls_from :
    (rs : List (Option WriteBatch)) (s : StageRefill)
    → s.allocated + length rs < 2 ^ 64
    → made rs (pulls rs s).0 ≤ s.capacity - s.allocated
unfolding pulls pull
pulls_from [] s h = omega arith
pulls_from (some b ∷ rs) s h = omega (arith, pulls_from rs s (omega arith))
pulls_from (none ∷ rs) s h =
    let next : (s.allocated + 1) % 2 ^ 64 ≡ s.allocated + 1 = omega arith in
    let ih = pulls_from rs (record s { allocated = (s.allocated + 1) % 2 ^ 64 }) (omega arith) in
    elim (Bool-cases (ltb s.allocated s.capacity)) [
      | inl e ↦ let lt : s.allocated < s.capacity = ground (arith, e) in rw e (omega (arith, ih))
      | inr e ↦ rw e (omega (arith, ih))
    ]

-- For a new stage and fewer than 2 ^ 64 pulls: no more batches are handed out that are not from the ring
-- than the capacity says.
pub made-pulls :
    (capacity size : ℕ) (rs : List (Option WriteBatch))
    → length rs < 2 ^ 64
    → made rs (pulls rs (record { capacity = capacity; allocated = 0; batch_size = size })).0
      ≤ capacity
made-pulls capacity size rs h = omega (
  arith,
  pulls_from rs (record { capacity = capacity; allocated = 0; batch_size = size }) (omega arith),
)
