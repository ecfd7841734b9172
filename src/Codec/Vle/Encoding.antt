-- ===== src/Codec/Vle/Encoding.antt =====
-- The bytes of an integer, in plain arithmetic, and the length that the source computes for them.
use thubo.Prelude.{
  ℕ, zero, suc, ◌+◌, ◌-◌, ◌*◌, ◌/◌, ◌%◌, ◌^◌, ◌≤◌, ◌<◌, ◌≡◌, refl, ap, sym, ◌∙◌, bit_and, List, [],
  ◌∷◌, arith, length, ltb, ◌==◌, if◌then◌else◌,
}
use thubo.Prelude.Bits.{bit_and_high, two_pow_pos}
use native.Mathlib.Nat.{div-div-eq-div-mul}
use native.Mathlib.Numerals.{towards_suc}
use thubo.Codec.Vle.{vle_len, high_mask}

abbrev pub IsU64 : ℕ → Type 0
IsU64 x = x < 2 ^ 64

-- The groups of seven bits of `x`, lowest first, `k + 1` of them at most; the last takes what is left.
unfoldable pub groups : ℕ → ℕ → List ℕ
groups zero x = x ∷ []
groups (suc k) x =
    let rest = groups k (x / 128) in if ltb x 128 then x ∷ [] else (x % 128 + 128) ∷ rest

abbrev pub encoding : ℕ → List ℕ
encoding = groups 8

pub length-groups : (k x : ℕ) → (1 ≤ length (groups k x)) × (length (groups k x) ≤ k + 1)
unfolding groups
length-groups zero x = omega arith
length-groups (suc k) x = ground (arith, length-groups k (x / 128))

-- A mask of `vle_len` tells whether `x` is below a power of 128.
masked :
    (k j x : ℕ)
    → j + 1 ≡ 2 ^ (64 - 7 * k)
    → high_mask k ≡ j * 2 ^ (7 * k)
    → x / 2 ^ (7 * k) < 2 ^ (64 - 7 * k)
    → bit_and x (high_mask k) ≡ x / 2 ^ (7 * k) * 2 ^ (7 * k)
masked k j x e m h = ap (bit_and x) m ∙ bit_and_high (64 - 7 * k) (7 * k) x j e h

-- The number of bytes, as a ladder of plain comparisons from the test for `k` bytes on.
abbrev ladder : ℕ → ℕ → ℕ → ℕ
ladder zero k x = k
ladder (suc n) k x =
    let rest = ladder n (k + 1) x in if x / 2 ^ (7 * k) * 2 ^ (7 * k) == 0 then k else rest

vle_len-ladder : (x : ℕ) → IsU64 x → vle_len x ≡ ladder 8 1 x
unfolding vle_len
vle_len-ladder x h =
    rw
      (
        masked 1 (2 ^ 57 - 1) x refl refl (omega arith),
        masked 2 (2 ^ 50 - 1) x refl refl (omega arith),
        masked 3 (2 ^ 43 - 1) x refl refl (omega arith),
        masked 4 (2 ^ 36 - 1) x refl refl (omega arith),
        masked 5 (2 ^ 29 - 1) x refl refl (omega arith),
        masked 6 (2 ^ 22 - 1) x refl refl (omega arith),
        masked 7 (2 ^ 15 - 1) x refl refl (omega arith),
        masked 8 (2 ^ 8 - 1) x refl refl (omega arith),
      )
      refl

pub shift_seven : (s : ℕ) → 2 ^ (s + 7) ≡ 2 ^ s * 128
shift_seven s = simp towards_suc (omega arith)

seven_more : (k : ℕ) → 2 ^ (7 * (k + 1)) ≡ 2 ^ (7 * k) * 128
seven_more k =
    let e : 7 * (k + 1) ≡ 7 * k + 7 = omega arith in ap (λ t. 2 ^ t) e ∙ shift_seven (7 * k)

scaled_zero : (q p : ℕ) → 0 < p → (q * p == 0) ≡ (q == 0)
scaled_zero zero p h = ground arith
scaled_zero (suc q) p h = let pos : suc q * p ≡ p + q * p = omega arith in ground arith

ladder-groups :
    (n k x y : ℕ) → 0 < k → x / 2 ^ (7 * k) ≡ y / 128 → ladder n k x ≡ k - 1 + length (groups n y)
unfolding groups
ladder-groups zero k x y pos e = omega arith
ladder-groups (suc n) k x y pos e = ground (
  arith,
  ladder-groups n (k + 1) x (y / 128) (omega arith) next,
  scaled_zero (y / 128) (2 ^ (7 * k)) (two_pow_pos (7 * k)),
)
  where
    next : x / 2 ^ (7 * (k + 1)) ≡ y / 128 / 128
    next =
        ap (λ t. x / t) (seven_more k)
        ∙ sym (div-div-eq-div-mul x (2 ^ (7 * k)) 128)
        ∙ ap (λ t. t / 128) e

-- `vle_len` of a u64 is the number of bytes of its encoding.
pub vle_len-eq-length : (x : ℕ) → IsU64 x → vle_len x ≡ length (encoding x)
vle_len-eq-length x h = vle_len-ladder x h ∙ ladder-groups 8 1 x x (omega arith) refl ∙ omega arith
