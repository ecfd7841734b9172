-- ===== src/Prelude/Bits.antt =====
-- The bit operations on words, as arithmetic: they act digit by digit, so they act on the low and
-- the high part of a word separately, and a mask of ones is a remainder.
use Prim.Native.Nat.{
  ℕ, zero, suc, ◌+◌, ◌-◌, ◌*◌, ◌/◌, ◌%◌, ◌^◌, ◌≤◌, ◌<◌, min, max, bit_and, bit_or, digits,
  bit_and-bitwise, bit_or-bitwise,
}
use mathlib.Core.Path.{◌≡◌, refl, sym, ap, ap₂, ◌∙◌}
use native.Mathlib.Omega.{arith}
use native.Mathlib.Nat.{pow-suc, div-add-mod, add-zero, mul-one}

-- An operation that goes through the digits of its first argument, `rest` being what is left when
-- these run out.
module _ (op : ℕ → ℕ → ℕ) (rest : ℕ → ℕ) (f : ℕ → ℕ → ℕ)
    (run : (x y : ℕ) → op x y ≡ digits rest f x x y)
    (halves : (y : ℕ) → rest y ≡ rest (y / 2) * 2 + f 0 (y % 2)) where
  -- More fuel than digits changes nothing.
  spare : (x y fuel : ℕ) → x ≤ fuel → digits rest f fuel x y ≡ digits rest f x x y
  spare x y fuel le = go x fuel x y (omega arith) le
    where
      go : (m n x y : ℕ) → x ≤ m → x ≤ n → digits rest f n x y ≡ digits rest f m x y
      go zero n (suc x) y l r = absurd (omega arith)
      go m zero (suc x) y l r = absurd (omega arith)
      go (suc m) (suc n) (suc x) y l r =
          omega (arith, go m n (suc x / 2) (y / 2) (omega arith) (omega arith))
      go zero zero zero y l r = refl
      go (suc m) zero zero y l r = refl
      go zero (suc n) zero y l r = refl
      go (suc m) (suc n) zero y l r = refl

  by_digits : (x y : ℕ) → op x y ≡ op (x / 2) (y / 2) * 2 + f (x % 2) (y % 2)
  by_digits zero y = omega (arith, halves y, run 0 y, run 0 (y / 2))
  by_digits (suc x) y =
      omega
        (arith, spare (suc x / 2) (y / 2) x (omega arith), run (suc x / 2) (y / 2), run (suc x) y)

bit_or_step : (x y : ℕ) → bit_or x y ≡ bit_or (x / 2) (y / 2) * 2 + max (x % 2) (y % 2)
bit_or_step = by_digits bit_or (λ y. y) max bit_or-bitwise (λ y. omega arith)

bit_and_step : (x y : ℕ) → bit_and x y ≡ bit_and (x / 2) (y / 2) * 2 + min (x % 2) (y % 2)
bit_and_step = by_digits bit_and (λ y. zero) min bit_and-bitwise (λ y. omega arith)

none_or : (y : ℕ) → bit_or 0 y ≡ y
none_or y = bit_or-bitwise 0 y

pub none_and : (y : ℕ) → bit_and 0 y ≡ 0
none_and y = bit_and-bitwise 0 y

double_pow : (k : ℕ) → 2 ^ suc k ≡ 2 * 2 ^ k
double_pow k = omega (arith, pow-suc 2 k)

cut_div : (a b p : ℕ) → b < 2 * p → (a * (2 * p) + b) / 2 ≡ a * p + b / 2
cut_div a b p h = omega arith

cut_mod : (a b p : ℕ) → (a * (2 * p) + b) % 2 ≡ b % 2
cut_mod a b p = omega arith

-- An operation that works digit by digit works on two words, both cut at bit `k`, part by part.
module _ (op f : ℕ → ℕ → ℕ) (op_zero : op 0 0 ≡ 0)
    (op_step : (a b : ℕ) → op a b ≡ op (a / 2) (b / 2) * 2 + f (a % 2) (b % 2)) where
  op_split :
      (k a b c d : ℕ)
      → b < 2 ^ k
      → d < 2 ^ k
      → op (a * 2 ^ k + b) (c * 2 ^ k + d) ≡ op a c * 2 ^ k + op b d
  op_split zero a zero c zero hb hd =
      rw (add-zero, add-zero, mul-one, mul-one, mul-one, op_zero, add-zero)
  op_split zero a (suc b) c d hb hd = absurd (omega arith)
  op_split zero a b c (suc d) hb hd = absurd (omega arith)
  op_split (suc k) a b c d hb hd =
      ap (λ p. op (a * p + b) (c * p + d)) (double_pow k)
      ∙ op_step (a * (2 * 2 ^ k) + b) (c * (2 * 2 ^ k) + d)
      ∙ ap₂ (λ x y. x * 2 + y)
          (ap₂ op (cut_div a b (2 ^ k) (omega (arith, double_pow k)))
              (cut_div c d (2 ^ k) (omega (arith, double_pow k)))
            ∙ op_split k a (b / 2) c (d / 2) (omega (arith, double_pow k))
                (omega (arith, double_pow k)))
          (ap₂ f (cut_mod a b (2 ^ k)) (cut_mod c d (2 ^ k)))
      ∙ omega (arith, op_step b d, double_pow k, ap (λ p. op a c * p) (double_pow k))

pub bit_or_split :
    (k a b c d : ℕ)
    → b < 2 ^ k
    → d < 2 ^ k
    → bit_or (a * 2 ^ k + b) (c * 2 ^ k + d) ≡ bit_or a c * 2 ^ k + bit_or b d
bit_or_split = op_split bit_or max refl bit_or_step

pub bit_and_split :
    (k a b c d : ℕ)
    → b < 2 ^ k
    → d < 2 ^ k
    → bit_and (a * 2 ^ k + b) (c * 2 ^ k + d) ≡ bit_and a c * 2 ^ k + bit_and b d
bit_and_split = op_split bit_and min refl bit_and_step

-- The two operations with 0.
pub bit_or-zero : (a : ℕ) → bit_or a 0 ≡ a
bit_or-zero a = go a a (omega arith)
  where
    go : (n a : ℕ) → a ≤ n → bit_or a 0 ≡ a
    go n zero h = refl
    go zero (suc a) h = absurd (omega arith)
    go (suc n) (suc a) h = omega (arith, bit_or_step (suc a) 0, go n (suc a / 2) (omega arith))

pub bit_and-zero : (a : ℕ) → bit_and a 0 ≡ 0
bit_and-zero a = go a a (omega arith)
  where
    go : (n a : ℕ) → a ≤ n → bit_and a 0 ≡ 0
    go n zero h = refl
    go zero (suc a) h = absurd (omega arith)
    go (suc n) (suc a) h = omega (arith, bit_and_step (suc a) 0, go n (suc a / 2) (omega arith))

pub two_pow_pos : (k : ℕ) → 0 < 2 ^ k
two_pow_pos zero = omega arith
two_pow_pos (suc k) = omega (arith, double_pow k, two_pow_pos k)

bit_and_ones_of_lt : (k a m : ℕ) → m + 1 ≡ 2 ^ k → a < 2 ^ k → bit_and a m ≡ a
bit_and_ones_of_lt zero zero m e h = none_and m
bit_and_ones_of_lt zero (suc a) m e h = absurd (omega arith)
bit_and_ones_of_lt (suc k) a m e h = omega (
  arith,
  bit_and_step a m,
  bit_and_ones_of_lt k (a / 2) (m / 2) (omega (arith, double_pow k)) (omega (arith, double_pow k)),
  double_pow k,
)

-- A word, cut at bit `k`.
pub cut : (k a : ℕ) → (a ≡ a / 2 ^ k * 2 ^ k + a % 2 ^ k) × (a % 2 ^ k < 2 ^ k)
cut k a = (omega (arith, div-add-mod a (2 ^ k)), omega (arith, two_pow_pos k))

-- A mask of `k` ones keeps the low `k` bits.
pub bit_and_ones : (k a m : ℕ) → m + 1 ≡ 2 ^ k → bit_and a m ≡ a % 2 ^ k
bit_and_ones k a m e =
    ap₂ bit_and (cut k a).0 (omega arith)
    ∙ bit_and_split k (a / 2 ^ k) (a % 2 ^ k) 0 m (cut k a).1 (omega arith)
    ∙ omega (
      arith,
      bit_and_ones_of_lt k (a % 2 ^ k) m e (cut k a).1,
      ap (λ t. t * 2 ^ k) (bit_and-zero (a / 2 ^ k)),
    )

-- A mask that has no one below bit `k`, and ones up to bit `k + n`, clears the low `k` bits.
pub bit_and_high :
    (n k a m : ℕ) → m + 1 ≡ 2 ^ n → a / 2 ^ k < 2 ^ n → bit_and a (m * 2 ^ k) ≡ a / 2 ^ k * 2 ^ k
bit_and_high n k a m e h =
    ap₂ bit_and (cut k a).0 (omega arith)
    ∙ bit_and_split k (a / 2 ^ k) (a % 2 ^ k) m 0 (cut k a).1 (two_pow_pos k)
    ∙ omega (
      arith,
      ap (λ t. t * 2 ^ k) (bit_and_ones_of_lt n (a / 2 ^ k) m e h),
      bit_and-zero (a % 2 ^ k),
    )

-- Two words with no common bit, since one ends below the other, are added.
pub bit_or_add : (k a b : ℕ) → b < 2 ^ k → bit_or b (a * 2 ^ k) ≡ b + a * 2 ^ k
bit_or_add k a b h =
    ap₂ bit_or (omega arith) (omega arith)
    ∙ bit_or_split k 0 b a 0 h (two_pow_pos k)
    ∙ omega (arith, ap (λ t. t * 2 ^ k) (none_or a), bit_or-zero b)

pub bit_or_low : (k a b : ℕ) → b < 2 ^ k → bit_or (a * 2 ^ k) b ≡ a * 2 ^ k + b
bit_or_low k a b h =
    ap₂ bit_or (omega arith) (omega arith)
    ∙ bit_or_split k a 0 0 b (two_pow_pos k) h
    ∙ omega (arith, none_or b, ap (λ t. t * 2 ^ k) (bit_or-zero a))

-- A field of a word is cleared: the bits from `k` up to `m`.
pub bit_and_clear :
    (m k r x c : ℕ)
    → k ≤ m
    → x / 2 ^ m < 2 ^ r
    → c ≡ (2 ^ r - 1) * 2 ^ m + (2 ^ k - 1)
    → 2 ^ k ≤ 2 ^ m
    → bit_and x c ≡ x / 2 ^ m * 2 ^ m + x % 2 ^ m % 2 ^ k
bit_and_clear m k r x c le small e le' =
    ap₂ bit_and (cut m x).0 e
    ∙ bit_and_split m (x / 2 ^ m) (x % 2 ^ m) (2 ^ r - 1) (2 ^ k - 1) (cut m x).1
        (omega (arith, two_pow_pos k))
    ∙ omega (
      arith,
      ap (λ t. t * 2 ^ m)
          (bit_and_ones_of_lt r (x / 2 ^ m) (2 ^ r - 1) (omega (arith, two_pow_pos r)) small),
      bit_and_ones k (x % 2 ^ m) (2 ^ k - 1) (omega (arith, two_pow_pos k)),
    )

-- A cleared field is filled.
pub bit_or_fill :
    (m k a v b : ℕ)
    → b < 2 ^ k
    → v * 2 ^ k + 2 ^ k ≤ 2 ^ m
    → bit_or (a * 2 ^ m + b) (v * 2 ^ k) ≡ a * 2 ^ m + (v * 2 ^ k + b)
bit_or_fill m k a v b low fits =
    ap (bit_or (a * 2 ^ m + b)) (omega arith)
    ∙ bit_or_split m a b 0 (v * 2 ^ k) (omega arith) (omega (arith, two_pow_pos k))
    ∙ omega (arith, ap (λ t. t * 2 ^ m) (bit_or-zero a), bit_or_add k v b low)

-- A field is written: it is cleared, and filled.
pub bit_or-bit_and_clear :
    (m k r x v c : ℕ)
    → k ≤ m
    → x / 2 ^ m < 2 ^ r
    → c ≡ (2 ^ r - 1) * 2 ^ m + (2 ^ k - 1)
    → v * 2 ^ k + 2 ^ k ≤ 2 ^ m
    → bit_or (bit_and x c) (v * 2 ^ k) ≡ x / 2 ^ m * 2 ^ m + (v * 2 ^ k + x % 2 ^ m % 2 ^ k)
bit_or-bit_and_clear m k r x v c le small e fits =
    ap (λ t. bit_or t (v * 2 ^ k)) (bit_and_clear m k r x c le small e (omega arith))
    ∙ bit_or_fill m k (x / 2 ^ m) v (x % 2 ^ m % 2 ^ k) (omega (arith, (cut k (x % 2 ^ m)).1)) fits

bit_or-one : (y : ℕ) → bit_or y 1 ≡ y / 2 * 2 + 1
bit_or-one y = omega (arith, bit_or_step y 1, bit_or-zero (y / 2))

-- One bit is set, and tested.
pub bit_or-bit : (j x : ℕ) → bit_or x (1 * 2 ^ j) ≡ (x / 2 ^ j / 2 * 2 + 1) * 2 ^ j + x % 2 ^ j
bit_or-bit j x =
    ap₂ bit_or (cut j x).0 (omega arith)
    ∙ bit_or_split j (x / 2 ^ j) (x % 2 ^ j) 1 0 (cut j x).1 (two_pow_pos j)
    ∙ omega (arith, ap (λ t. t * 2 ^ j) (bit_or-one (x / 2 ^ j)), bit_or-zero (x % 2 ^ j))

pub bit_and-bit : (j x : ℕ) → bit_and x (1 * 2 ^ j) ≡ x / 2 ^ j % 2 * 2 ^ j
bit_and-bit j x =
    ap₂ bit_and (cut j x).0 (omega arith)
    ∙ bit_and_split j (x / 2 ^ j) (x % 2 ^ j) 1 0 (cut j x).1 (two_pow_pos j)
    ∙ omega
        (arith, ap (λ t. t * 2 ^ j) (bit_and_ones 1 (x / 2 ^ j) 1 refl), bit_and-zero (x % 2 ^ j))

-- A field of a word, in place.
pub bit_and_field :
    (n k x m : ℕ) → m + 1 ≡ 2 ^ n → bit_and x (m * 2 ^ k) ≡ x / 2 ^ k % 2 ^ n * 2 ^ k
bit_and_field n k x m e =
    ap₂ bit_and (cut k x).0 (omega arith)
    ∙ bit_and_split k (x / 2 ^ k) (x % 2 ^ k) m 0 (cut k x).1 (two_pow_pos k)
    ∙ omega (arith, ap (λ t. t * 2 ^ k) (bit_and_ones n (x / 2 ^ k) m e), bit_and-zero (x % 2 ^ k))

halves_of_and :
    (x y : ℕ)
    → (bit_and x y / 2 ≡ bit_and (x / 2) (y / 2)) × (bit_and x y % 2 ≡ min (x % 2) (y % 2))
halves_of_and x y = (omega (arith, bit_and_step x y), omega (arith, bit_and_step x y))

-- Two masks, in either order.
pub bit_and_right_comm : (x y z : ℕ) → bit_and (bit_and x y) z ≡ bit_and (bit_and x z) y
bit_and_right_comm x y z = go x x y z (omega arith)
  where
    go : (n x y z : ℕ) → x ≤ n → bit_and (bit_and x y) z ≡ bit_and (bit_and x z) y
    go zero zero y z h =
        ap (λ t. bit_and t z) (none_and y)
        ∙ omega (arith, none_and z, none_and y, ap (λ t. bit_and t y) (none_and z))
    go zero (suc x) y z h = absurd (omega arith)
    go (suc n) x y z h =
        let ih = go n (x / 2) (y / 2) (z / 2) (omega arith) in
        let (a, b) = halves_of_and x y in
        let (c, d) = halves_of_and x z in
        bit_and_step (bit_and x y) z
        ∙ ap₂ (λ t u. bit_and t (z / 2) * 2 + min u (z % 2)) a b
        ∙ omega (arith, ih)
        ∙ sym
            (bit_and_step (bit_and x z) y ∙ ap₂ (λ t u. bit_and t (y / 2) * 2 + min u (y % 2)) c d)
