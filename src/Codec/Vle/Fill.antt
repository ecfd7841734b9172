-- ===== src/Codec/Vle/Fill.antt =====
-- The closure of `write` fills its slot with the encoding, and stays within the slot.
use thubo.Prelude.{
  ℕ, zero, suc, ◌+◌, ◌-◌, ◌*◌, ◌/◌, ◌%◌, ◌^◌, ◌≤◌, ◌<◌, ◌≡◌, refl, ap, sym, ◌∙◌, bit_and, bit_or,
  List, [], ◌∷◌, ◌++◌, arith, length, set, take, take-set, take_of_length_le, ap₂, length-set,
  append_assoc,
}
use thubo.Prelude.Bits.{bit_and_high}
use thubo.Prelude.Table.{agree_below, agree_below→eq}
use thubo.Buffers.Interface.{Fills}
use thubo.Codec.Vle.{vle_len, fill_loop, fill_last, fill}
use thubo.Codec.Vle.Encoding.{IsU64, groups, encoding, vle_len-eq-length, length-groups}
use native.Mathlib.Numerals.{add-one}
use native.Mathlib.Nat.{pow-suc}
use native.Mathlib.Decide.{dec_lt}

-- `(x as u8) | 0x80`
set_top_bit : (b : ℕ) → b < 256 → bit_or b 0x80 ≡ b % 128 + 128
unfolding agree_below
set_top_bit = agree_below→eq _ _ 256 refl

-- `x & !0x7f`
clear_low : (x : ℕ) → IsU64 x → bit_and x (2 ^ 64 - 1 - 0x7f) ≡ x / 128 * 128
clear_low x h = bit_and_high 57 7 x (2 ^ 57 - 1) refl (omega arith)

-- What the loop and the last byte have made of a buffer whose first `len` bytes were written, when
-- `bs` were still to be written.
record Filled (bs : List ℕ) (len : ℕ) (buffer : List ℕ) (out : List ℕ × ℕ) : Type 0 where
  kept : length out.0 ≡ length buffer
  count : out.1 ≡ len + length bs
  bytes : take out.1 out.0 ≡ take len buffer ++ bs

last_byte :
    (v len : ℕ) (buffer : List ℕ)
    → len < length buffer
    → Filled (v ∷ []) len buffer (set buffer len v, len + 1)
last_byte v len buffer h = record {
  kept = length-set buffer len v;
  count = omega arith;
  bytes = rw add-one (take-set buffer len v h);
}

one_more :
    (v len : ℕ) (bs buffer : List ℕ) (out : List ℕ × ℕ)
    → len < length buffer
    → Filled bs (len + 1) (set buffer len v) out
    → Filled (v ∷ bs) len buffer out
one_more v len bs buffer out h f = record {
  kept = omega (arith, length-set buffer len v);
  count = omega arith;
  bytes =
      f.bytes
      ∙ ap (λ t. t ++ bs) (rw add-one (take-set buffer len v h))
      ∙ append_assoc (take len buffer) (v ∷ []) bs;
}

stops :
    (fuel x len : ℕ) (buffer : List ℕ)
    → x < 128
    → fill_loop (suc fuel) x len buffer ≡ (x, len, buffer)
unfolding fill_loop
stops fuel x len buffer h = ground (arith, clear_low x (omega arith))

goes_on :
    (fuel x len : ℕ) (buffer : List ℕ)
    → IsU64 x
    → 128 ≤ x
    → fill_loop (suc fuel) x len buffer
      ≡ fill_loop fuel (x / 128) (len + 1) (set buffer len (x % 128 + 128))
unfolding fill_loop
goes_on fuel x len buffer h big = ground (arith, clear_low x h, set_top_bit (x % 256))

pub groups_small : (k x : ℕ) → x < 128 → groups k x ≡ x ∷ []
unfolding groups
groups_small zero x h = refl
groups_small (suc k) x h = ground arith

pub groups_big : (k x : ℕ) → 128 ≤ x → groups (suc k) x ≡ (x % 128 + 128) ∷ groups k (x / 128)
unfolding groups
groups_big k x h = ground arith

-- At a number below 128 the loop stops and the last byte is written.
ends_small :
    (k fuel len x : ℕ) (buffer : List ℕ)
    → x < 128
    → len < 9
    → len < length buffer
    → Filled (groups k x) len buffer (fill_last (fill_loop (suc fuel) x len buffer))
unfolding fill_last
ends_small k fuel len x buffer h nine room =
    rw (groups_small k x h, stops fuel x len buffer h) (rw last (last_byte x len buffer room))
  where
    last : fill_last (x, len, buffer) ≡ (set buffer len x, len + 1)
    last = ground arith

-- The ninth byte is written by the loop if its top bit is set.
ends_ninth :
    (fuel x : ℕ) (buffer : List ℕ)
    → 128 ≤ x
    → x < 256
    → 8 < length buffer
    → Filled (groups 0 x) 8 buffer (fill_last (fill_loop (suc (suc fuel)) x 8 buffer))
unfolding fill_last groups
ends_ninth fuel x buffer big small room =
    rw
      (
        goes_on (suc fuel) x 8 buffer (omega arith) big,
        stops fuel (x / 128) 9 (set buffer 8 (x % 128 + 128)) (omega arith),
      )
      (rw same (last_byte x 8 buffer room))
  where
    same : x % 128 + 128 ≡ x
    same = omega arith

pub pow_step : (j : ℕ) → 128 ^ suc j ≡ 128 * 128 ^ j
pow_step j = omega (arith, pow-suc 128 j)

fill_loop-Filled :
    (k fuel len x : ℕ) (buffer : List ℕ)
    → len + k ≡ 8
    → k + 2 ≤ fuel
    → IsU64 x
    → x < 256 * 128 ^ k
    → len + length (groups k x) ≤ length buffer
    → Filled (groups k x) len buffer (fill_last (fill_loop fuel x len buffer))
fill_loop-Filled k zero len x buffer e f u hx room = absurd (omega arith)
fill_loop-Filled k (suc zero) len x buffer e f u hx room = absurd (omega arith)
fill_loop-Filled zero (suc (suc fuel)) len x buffer e f u hx room = elim (dec_lt x 128) [
  | yes small ↦
      ends_small 0 (suc fuel) len x buffer small (omega arith) (omega (arith, length-groups 0 x))
  | no big ↦
      let eight : len ≡ 8 = omega arith in
      rw eight (ends_ninth fuel x buffer (omega arith) hx (omega (arith, length-groups 0 x)))
]
fill_loop-Filled (suc k) (suc (suc fuel)) len x buffer e f u hx room = elim (dec_lt x 128) [
  | yes small ↦
      ends_small (suc k) (suc fuel) len x buffer small (omega arith)
        (omega (arith, length-groups (suc k) x))
  | no big ↦
      let b = x % 128 + 128 in
      let room' : len + (1 + length (groups k (x / 128))) ≤ length buffer =
        omega (arith, ap length (groups_big k x (omega arith))) in
      rw (groups_big k x (omega arith), goes_on (suc fuel) x len buffer u (omega arith))
        (one_more b len (groups k (x / 128)) buffer _ (omega arith) (
          fill_loop-Filled k (suc fuel) (len + 1) (x / 128) (set buffer len b) (omega arith)
            (omega arith) (omega arith) (omega (arith, pow_step k))
            (omega (arith, length-set buffer len b))))
]

pub fill-Fills : (x : ℕ) → IsU64 x → Fills (vle_len x) (fill x) (encoding x)
unfolding fill
fill-Fills x u slot h =
    let r =
      fill_loop-Filled 8 10 0 x slot refl (omega arith) u (omega arith)
        (omega (arith, vle_len-eq-length x u)) in
    let count : (fill x slot).1 ≡ length (encoding x) = omega (arith, r.count) in
    (r.kept ∙ h, count, ap (λ n. take n (fill x slot).0) (sym count) ∙ r.bytes)

-- For a u64 and a slot of `vle_len` bytes: the closure that `write` hands to `with_slot` leaves the
-- encoding in the slot, whatever it held, and returns its length.
pub fill-eq-encoding :
    (x : ℕ) (slot : List ℕ)
    → IsU64 x
    → length slot ≡ vle_len x
    → fill x slot ≡ (encoding x, vle_len x)
fill-eq-encoding x slot u h =
    let (kept, count, bytes) = fill-Fills x u slot h in
    let full : (fill x slot).0 ≡ encoding x =
      sym (
        take_of_length_le (length (encoding x)) (fill x slot).0
          (omega (arith, kept, vle_len-eq-length x u)))
      ∙ bytes in
    ap₂ (λ a b. (a, b)) full (count ∙ sym (vle_len-eq-length x u))
