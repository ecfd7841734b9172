-- ===== src/Protocol/SeqNum.antt =====
-- src/protocol/core/seq_num.rs: sequence numbers of 28 bits, and their serial order.
pub mod Order
use Prim.Native.Nat.{Ordering}
use thubo.Prelude.{
  ℕ, zero, suc, ◌+◌, ◌-◌, ◌*◌, ◌%◌, ◌/◌, ◌^◌, ◌<◌, ◌≤◌, bit_and, ◌≡◌, ◌≢◌, ◌↔◌, refl, arith, ◌==◌,
  not, ◌&&◌, if◌then◌else◌, ◌∙◌, ap,
}
use thubo.Prelude.Bits.{bit_and_ones, bit_and_high}

-- `MASK`: 28 ones
abbrev pub mask : ℕ
mask = 2 ^ 28 - 1

-- `struct SeqNum(u32)`
abbrev pub SeqNum : Type 0
SeqNum = ℕ

abbrev pub IsSeqNum : SeqNum → Type 0
IsSeqNum s = s < 2 ^ 28

-- `SeqNum::new`
unfoldable pub new : ℕ → SeqNum
new value = bit_and value mask

-- `SeqNum::next`, with `wrapping_add` on u32
unfoldable pub next : SeqNum → SeqNum
next s = bit_and ((s + 1) % 2 ^ 32) mask

-- `SeqNum::increment` returns the next number and stores it by `set`.
unfoldable pub increment : SeqNum → SeqNum × SeqNum
increment s = let n = next s in (n, n)

-- `Ord::cmp`, with `wrapping_sub` on u32; `!(MASK >> 1)` has its ones from bit 27 up.
unfoldable pub cmp : SeqNum → SeqNum → Ordering
cmp s other =
    let gap = bit_and ((other + 2 ^ 32 - s) % 2 ^ 32) mask in
    if s == other
    then Ordering.eq
    else if not (gap == 0) && (bit_and gap (2 ^ 32 - 1 - mask / 2) == 0)
    then Ordering.lt
    else Ordering.gt

-- The number of steps from one number to another, going round at 2 ^ 28.
abbrev pub distance : SeqNum → SeqNum → ℕ
distance s other = (other + 2 ^ 28 - s) % 2 ^ 28

pub new-eq-mod : (v : ℕ) → new v ≡ v % 2 ^ 28
unfolding new
new-eq-mod v = bit_and_ones 28 v mask refl

pub next-eq-mod : (s : SeqNum) → IsSeqNum s → next s ≡ (s + 1) % 2 ^ 28
unfolding next
next-eq-mod s h = omega (arith, bit_and_ones 28 ((s + 1) % 2 ^ 32) mask refl)

gap_distance :
    (s other : SeqNum)
    → IsSeqNum s
    → IsSeqNum other
    → bit_and ((other + 2 ^ 32 - s) % 2 ^ 32) mask ≡ distance s other
gap_distance s other hs ho =
    omega (arith, bit_and_ones 28 ((other + 2 ^ 32 - s) % 2 ^ 32) mask refl)

gap_half : (gap : ℕ) → gap < 2 ^ 28 → bit_and gap (2 ^ 32 - 1 - mask / 2) ≡ gap / 2 ^ 27 * 2 ^ 27
gap_half gap h = bit_and_high 5 27 gap 31 refl (omega arith)

pub cmp-eq-distance :
    (s other : SeqNum)
    → IsSeqNum s
    → IsSeqNum other
    → cmp s other ≡ (
        if distance s other == 0
        then Ordering.eq
        else if distance s other / 2 ^ 27 == 0
        then Ordering.lt
        else Ordering.gt)
unfolding cmp
cmp-eq-distance s other hs ho =
    ground (arith, gap_distance s other hs ho, gap_half (distance s other) (omega arith))
