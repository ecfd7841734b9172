-- ===== src/Codec/Vle/Decode.antt =====
-- `read` takes back what `write` has put: each integer, up to the width that is read.
use thubo.Prelude.{
  ℕ, zero, suc, ◌+◌, ◌*◌, ◌/◌, ◌%◌, ◌^◌, ◌≤◌, ◌<◌, ◌≡◌, refl, ap, ◌∙◌, bit_and, bit_or, List, [],
  ◌∷◌, ◌++◌, arith, ltb, if◌then◌else◌, some, ◌>>=◌, Op, ◌≢◌, ◌⊎◌, inl, inr,
}
use thubo.Prelude.Bits.{bit_and_ones, bit_or_add}
use thubo.Prelude.Table.{agree_below, agree_below→eq}
use thubo.Buffers.Interface.{Reader, LawfulReader}
use thubo.Codec.Outcome.{Yields, Yields-bind}
use thubo.Codec.Vle.{read_loop, read_u64}
use thubo.Codec.Vle.Encoding.{IsU64, groups, encoding, shift_seven}
use thubo.Codec.Vle.Fill.{pow_step}
use native.Mathlib.Nat.{div-add-mod}
use native.Mathlib.Decide.{dec_lt}

top_bit : (b : ℕ) → b < 256 → bit_and b 0x80 ≡ b / 128 * 128
unfolding agree_below
top_bit = agree_below→eq _ _ 256 refl

low_bits : (b : ℕ) → bit_and b 0x7f ≡ b % 128
low_bits b = bit_and_ones 7 b 0x7f refl

-- A group that fits is added in its place.
place : (v g i : ℕ) → v < 2 ^ i → g * 2 ^ i < 2 ^ 64 → bit_or v (g * 2 ^ i % 2 ^ 64) ≡ v + g * 2 ^ i
place v g i hv h = ap (bit_or v) (omega arith) ∙ bit_or_add i g v hv

-- The first byte of the groups, and the others.
abbrev head : ℕ → ℕ → ℕ
head zero x = x
head (suc k) x = if ltb x 128 then x else x % 128 + 128

abbrev others : ℕ → ℕ → List ℕ
others zero x = []
others (suc k) x = if ltb x 128 then [] else groups k (x / 128)

groups_split : (k x : ℕ) → groups k x ≡ head k x ∷ others k x
unfolding groups
groups_split zero x = refl
groups_split (suc k) x = ground arith

head_small : (k x : ℕ) → x < 128 → head (suc k) x ≡ x
head_small k x h = ground arith

head_big : (k x : ℕ) → 128 ≤ x → head (suc k) x ≡ x % 128 + 128
head_big k x h = ground arith

others_small : (k x : ℕ) → x < 128 → others (suc k) x ≡ []
others_small k x h = ground arith

others_big :
    (k x : ℕ) (t : List ℕ)
    → 128 ≤ x
    → others (suc k) x ++ t ≡ head k (x / 128) ∷ (others k (x / 128) ++ t)
others_big k x t h = ground (arith, groups_split k (x / 128))

-- The lowest group of `x` and the rest, both shifted by `i`.
scaled : (x i : ℕ) → x % 128 * 2 ^ i + x / 128 * 2 ^ (i + 7) ≡ x * 2 ^ i
scaled x i =
    omega (arith, ap (λ t. t * 2 ^ i) (div-add-mod x 128), ap (λ t. x / 128 * t) (shift_seven i))

below : (x i : ℕ) → x % 128 * 2 ^ i ≤ 127 * 2 ^ i
below x i = let h : x % 128 ≤ 127 = omega arith in grind arith

module _ {R : Type 0} ⦃r : Reader R⦄ where
  stops :
      (fuel b v i : ℕ) (s : R)
      → b < 256
      → ((i ≡ 56) ⊎ (b < 128))
      → v < 2 ^ i
      → b * 2 ^ i < 2 ^ 64
      → read_loop (suc fuel) b v i s ≡ (some (v + b * 2 ^ i), s)
  unfolding read_loop
  stops fuel b v i s hb stop hv h = ground (arith, top_bit b, place v b i)

  goes_on :
      (fuel g v i : ℕ) (s : R)
      → g < 128
      → i ≢ 56
      → v < 2 ^ i
      → g * 2 ^ i < 2 ^ 64
      → read_loop (suc fuel) (g + 128) v i s
        ≡ (r.read_u8 >>= (λ b'. read_loop fuel b' (v + g * 2 ^ i) (i + 7))) s
  unfolding read_loop
  goes_on fuel g v i s hg ni hv h =
      ground (arith, top_bit (g + 128), low_bits (g + 128), place v g i, mod_byte)
    where
      mod_byte : (g + 128) % 128 ≡ g
      mod_byte = omega arith

module _ {R : Type 0} ⦃r : Reader R⦄ (l : LawfulReader r) where
  read_loop-groups :
      (k fuel v i x : ℕ) (s : R) (t : List ℕ)
      → i + 7 * k ≡ 56
      → k < fuel
      → v < 2 ^ i
      → x < 256 * 128 ^ k
      → x * 2 ^ i < 2 ^ 64
      → l.IsValid s
      → l.rest s ≡ others k x ++ t
      → Yields l (read_loop fuel (head k x) v i s) (v + x * 2 ^ i) t
  read_loop-groups k zero v i x s t ei hf hv hx h valid e = absurd (omega arith)
  read_loop-groups zero (suc fuel) v i x s t ei hf hv hx h valid e =
      rw (stops fuel x v i s hx (inl (omega arith)) hv h)
        (record { result = refl; rest = e; valid = valid })
  read_loop-groups (suc k) (suc fuel) v i x s t ei hf hv hx h valid e = elim (dec_lt x 128) [
    | yes small ↦
        rw (head_small k x small, stops fuel x v i s (omega arith) (inr small) hv h)
          (record { result = refl; rest = rw (others_small k x small) at e; valid = valid })
    | no big ↦
        let g = x % 128 in
        let v' = v + g * 2 ^ i in
        let first : g * 2 ^ i + x / 128 * 2 ^ (i + 7) ≡ x * 2 ^ i = scaled x i in
        let e' : l.rest s ≡ head k (x / 128) ∷ (others k (x / 128) ++ t) =
          e ∙ others_big k x t (omega arith) in
        let next = l.read_u8-cons s (head k (x / 128)) (others k (x / 128) ++ t) valid e' in
        let more : ℕ → Op R ℕ = λ b'. read_loop fuel b' v' (i + 7) in
        let room : g * 2 ^ i < 2 ^ 64 = omega arith in
        let first_v : v' < 2 ^ (i + 7) = omega (arith, shift_seven i, below x i) in
        let sum : v' + x / 128 * 2 ^ (i + 7) ≡ v + x * 2 ^ i = omega arith in
        rw
          (
            head_big k x (omega arith),
            goes_on fuel g v i s (omega arith) (omega arith) hv room,
            ← sum,
          )
          (Yields-bind l s (others k (x / 128) ++ t) t r.read_u8 more (head k (x / 128)) _
            (record { result = next.0; rest = next.1; valid = next.2 })
            (read_loop-groups k fuel v' (i + 7) (x / 128) (r.read_u8 s).1 t (omega arith)
              (omega arith) first_v (omega (arith, pow_step k)) (omega arith) next.2 next.1))
  ]

  -- For a u64 and a valid reader at its encoding: `read` returns that number, and leaves the reader
  -- valid at the bytes behind it.
  pub read_u64-encoding :
      (x : ℕ) (s : R) (t : List ℕ)
      → IsU64 x
      → l.IsValid s
      → l.rest s ≡ encoding x ++ t
      → Yields l (read_u64 s) x t
  unfolding read_u64
  read_u64-encoding x s t u valid e =
      let e' : l.rest s ≡ head 8 x ∷ (others 8 x ++ t) = e ∙ ap (λ g. g ++ t) (groups_split 8 x) in
      let next = l.read_u8-cons s (head 8 x) (others 8 x ++ t) valid e' in
      let sum : 0 + x * 2 ^ 0 ≡ x = omega arith in
      rw (← sum) (
        Yields-bind l s (others 8 x ++ t) t r.read_u8 (λ b. read_loop 9 b 0 0) (head 8 x) _
          (record { result = next.0; rest = next.1; valid = next.2 })
          (read_loop-groups 8 9 0 0 x (r.read_u8 s).1 t refl (omega arith) (omega arith)
            (omega arith) (omega arith) next.2 next.1))
