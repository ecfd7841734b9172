-- ===== src/Protocol/SeqNum/Order.antt =====
-- The serial order of sequence numbers: what `next` does to it, and where it is antisymmetric.
use Prim.Native.Nat.{Ordering}
use thubo.Prelude.{ℕ, zero, suc, ◌+◌, ◌%◌, ◌^◌, ◌<◌, ◌≡◌, ◌↔◌, arith, if◌then◌else◌, ltb}
use thubo.Protocol.SeqNum.{
  SeqNum, IsSeqNum, new, next, cmp, distance, new-eq-mod, next-eq-mod, cmp-eq-distance,
}

-- The number that `k` messages later carry.
abbrev pub advance : ℕ → SeqNum → SeqNum
advance zero s = s
advance (suc k) s = next (advance k s)

pub advance-eq-mod : (k : ℕ) (s : SeqNum) → IsSeqNum s → advance k s ≡ (s + k) % 2 ^ 28
advance-eq-mod zero s h = omega arith
advance-eq-mod (suc k) s h =
    omega
      (arith, advance-eq-mod k s h, next-eq-mod (advance k s) (omega (arith, advance-eq-mod k s h)))

pub next-IsSeqNum : (s : SeqNum) → IsSeqNum s → IsSeqNum (next s)
next-IsSeqNum s h = omega (arith, next-eq-mod s h)

pub new-IsSeqNum : (v : ℕ) → IsSeqNum (new v)
new-IsSeqNum v = omega (arith, new-eq-mod v)

-- A number compares as earlier than the ones that come up to 2 ^ 27 - 1 messages after it, and as
-- later than all others up to a whole turn, across the wrap to 0 too.
pub cmp-advance :
    (k : ℕ) (s : SeqNum)
    → IsSeqNum s
    → 0 < k
    → k < 2 ^ 28
    → cmp s (advance k s) ≡ (if ltb k (2 ^ 27) then Ordering.lt else Ordering.gt)
cmp-advance k s h pos small = ground (arith, cmp-eq-distance s (advance k s), advance-eq-mod k s h)

-- `cmp` is antisymmetric, as `Ord` asks, but for two numbers half the space apart: these are each
-- later than the other.
pub cmp_antisymm :
    (a b : SeqNum)
    → IsSeqNum a
    → IsSeqNum b
    → ((cmp a b ≡ Ordering.gt) × (cmp b a ≡ Ordering.gt)) ↔ (distance a b ≡ 2 ^ 27)
cmp_antisymm a b ha hb = (
  ground (arith, cmp-eq-distance a b ha hb, cmp-eq-distance b a hb ha),
  ground (arith, cmp-eq-distance a b ha hb, cmp-eq-distance b a hb ha),
)
