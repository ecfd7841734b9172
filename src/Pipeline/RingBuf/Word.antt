-- ===== src/Pipeline/RingBuf/Word.antt =====
-- The lanes of an index word are independent.
use thubo.Prelude.{
  ℕ, ◌+◌, ◌*◌, ◌/◌, ◌%◌, ◌^◌, ◌<◌, ◌≡◌, ◌≢◌, refl, ap, ap₂, ◌∙◌, arith, bit_and, bit_or, Bool, true,
  false, ◌==◌,
}
use thubo.Prelude.Bits.{bit_or-bit_and_clear, bit_and_clear, bit_and_field, bit_or-bit, bit_and-bit}
use thubo.Protocol.Priority
use thubo.Protocol.Priority.{Priority, high, medium, low, background}
use thubo.Pipeline.RingBuf.{
  Idx, shift, mask, index, increment, flag_prio, any, set_flag, unset_flag, booked_bit, merge,
}

abbrev pub IsIdx : Idx → Type 0
IsIdx x = x < 2 ^ 64

-- The 16 bits of a priority.
abbrev pub lane : Priority → Idx → ℕ
lane high x = x % 65536
lane medium x = x / 65536 % 65536
lane low x = x / 4294967296 % 65536
lane background x = x / 281474976710656 % 65536

pub index-lane : (p : Priority) (x : Idx) → index p x ≡ lane p x % 256
unfolding index shift Priority.to_u8
index-lane high x = omega arith
index-lane medium x = omega arith
index-lane low x = omega arith
index-lane background x = omega arith

-- The flag BOOKED in a lane.
abbrev pub is_booked : ℕ → Bool
is_booked l = l / 256 % 2 == 1

-- A word that differs from another only in one lane.
pub record Changes (p : Priority) (l : ℕ) (x y : Idx) : Type 0 where
  pub own : lane p y ≡ l
  pub other : (q : Priority) → p ≢ q → lane q y ≡ lane q x
  pub fits : IsIdx y

-- The word with the lane of `p` replaced.
abbrev put : Priority → ℕ → Idx → Idx
put high l x = x / 65536 * 65536 + l
put medium l x = x / 4294967296 * 4294967296 + (l * 65536 + x % 65536)
put low l x = x / 281474976710656 * 281474976710656 + (l * 4294967296 + x % 4294967296)
put background l x = l * 281474976710656 + x % 281474976710656

put-other : (p q : Priority) (l : ℕ) (x : Idx) → l < 65536 → p ≢ q → lane q (put p l x) ≡ lane q x
put-other high high l x h ne = absurd (ne refl)
put-other high medium l x h ne = omega arith
put-other high low l x h ne = omega arith
put-other high background l x h ne = omega arith
put-other medium high l x h ne = omega arith
put-other medium medium l x h ne = absurd (ne refl)
put-other medium low l x h ne = omega arith
put-other medium background l x h ne = omega arith
put-other low high l x h ne = omega arith
put-other low medium l x h ne = omega arith
put-other low low l x h ne = absurd (ne refl)
put-other low background l x h ne = omega arith
put-other background high l x h ne = omega arith
put-other background medium l x h ne = omega arith
put-other background low l x h ne = omega arith
put-other background background l x h ne = absurd (ne refl)

put-Changes : (p : Priority) (l : ℕ) (x : Idx) → IsIdx x → l < 65536 → Changes p l x (put p l x)
put-Changes high l x h s = record {
  own = omega arith;
  other = λ q. put-other high q l x s;
  fits = omega arith;
}
put-Changes medium l x h s = record {
  own = omega arith;
  other = λ q. put-other medium q l x s;
  fits = omega arith;
}
put-Changes low l x h s = record {
  own = omega arith;
  other = λ q. put-other low q l x s;
  fits = omega arith;
}
put-Changes background l x h s = record {
  own = omega arith;
  other = λ q. put-other background q l x s;
  fits = omega arith;
}

eq-Changes :
    (p : Priority) (l : ℕ) (x y : Idx) → IsIdx x → l < 65536 → y ≡ put p l x → Changes p l x y
eq-Changes p l x y h s e = rw e (put-Changes p l x h s)

pub lane-lt : (p : Priority) (x : Idx) → lane p x < 65536
lane-lt high x = omega arith
lane-lt medium x = omega arith
lane-lt low x = omega arith
lane-lt background x = omega arith

-- The low byte of a lane goes up by one, and wraps.
abbrev pub bumped : ℕ → ℕ
bumped l = l / 256 * 256 + (l % 256 + 1) % 256

increment-put : (p : Priority) (x : Idx) → IsIdx x → increment p x ≡ put p (bumped (lane p x)) x
unfolding increment index shift Priority.to_u8
increment-put high x h =
    let v = (x / 2 ^ 0 % 256 + 1) % 256 in
    ap₂ (λ a b. bit_or (bit_and x a) b) refl (omega arith)
    ∙ bit_or-bit_and_clear 8 0 56 x v _ (omega arith) (omega arith) refl (omega arith)
    ∙ omega arith
increment-put medium x h =
    let v = (x / 2 ^ 16 % 256 + 1) % 256 in
    ap₂ (λ a b. bit_or (bit_and x a) b) refl (omega arith)
    ∙ bit_or-bit_and_clear 24 16 40 x v _ (omega arith) (omega arith) refl (omega arith)
    ∙ omega arith
increment-put low x h =
    let v = (x / 2 ^ 32 % 256 + 1) % 256 in
    ap₂ (λ a b. bit_or (bit_and x a) b) refl (omega arith)
    ∙ bit_or-bit_and_clear 40 32 24 x v _ (omega arith) (omega arith) refl (omega arith)
    ∙ omega arith
increment-put background x h =
    let v = (x / 2 ^ 48 % 256 + 1) % 256 in
    ap₂ (λ a b. bit_or (bit_and x a) b) refl (omega arith)
    ∙ bit_or-bit_and_clear 56 48 8 x v _ (omega arith) (omega arith) refl (omega arith)
    ∙ omega arith

pub increment-Changes :
    (p : Priority) (x : Idx) → IsIdx x → Changes p (bumped (lane p x)) x (increment p x)
increment-Changes p x h = eq-Changes p _ x _ h (omega (arith, lane-lt p x)) (increment-put p x h)

-- The bit of the flag in a lane is set, or cleared.
abbrev pub with_booked : ℕ → ℕ
with_booked l = l / 512 * 512 + (256 + l % 256)

abbrev pub without_booked : ℕ → ℕ
without_booked l = l / 512 * 512 + l % 256

set_flag-put :
    (p : Priority) (x : Idx)
    → IsIdx x
    → set_flag (flag_prio p booked_bit) x ≡ put p (with_booked (lane p x)) x
unfolding set_flag flag_prio shift Priority.to_u8
set_flag-put high x h = bit_or-bit 8 x ∙ omega arith
set_flag-put medium x h = bit_or-bit 24 x ∙ omega arith
set_flag-put low x h = bit_or-bit 40 x ∙ omega arith
set_flag-put background x h = bit_or-bit 56 x ∙ omega arith

pub set_flag-Changes :
    (p : Priority) (x : Idx)
    → IsIdx x
    → Changes p (with_booked (lane p x)) x (set_flag (flag_prio p booked_bit) x)
set_flag-Changes p x h = eq-Changes p _ x _ h (omega (arith, lane-lt p x)) (set_flag-put p x h)

unset_flag-put :
    (p : Priority) (x : Idx)
    → IsIdx x
    → unset_flag (flag_prio p booked_bit) x ≡ put p (without_booked (lane p x)) x
unfolding unset_flag flag_prio shift Priority.to_u8
unset_flag-put high x h =
    bit_and_clear 9 8 55 x _ (omega arith) (omega arith) refl (omega arith) ∙ omega arith
unset_flag-put medium x h =
    bit_and_clear 25 24 39 x _ (omega arith) (omega arith) refl (omega arith) ∙ omega arith
unset_flag-put low x h =
    bit_and_clear 41 40 23 x _ (omega arith) (omega arith) refl (omega arith) ∙ omega arith
unset_flag-put background x h =
    bit_and_clear 57 56 7 x _ (omega arith) (omega arith) refl (omega arith) ∙ omega arith

pub unset_flag-Changes :
    (p : Priority) (x : Idx)
    → IsIdx x
    → Changes p (without_booked (lane p x)) x (unset_flag (flag_prio p booked_bit) x)
unset_flag-Changes p x h = eq-Changes p _ x _ h (omega (arith, lane-lt p x)) (unset_flag-put p x h)

pub any-lane : (p : Priority) (x : Idx) → any (flag_prio p booked_bit) x ≡ is_booked (lane p x)
unfolding any flag_prio shift Priority.to_u8
any-lane high x = ground (arith, bit_and-bit 8 x)
any-lane medium x = ground (arith, bit_and-bit 24 x)
any-lane low x = ground (arith, bit_and-bit 40 x)
any-lane background x = ground (arith, bit_and-bit 56 x)

merge-put :
    (p : Priority) (idx old : Idx)
    → IsIdx idx
    → IsIdx old
    → merge p idx old ≡ put p (lane p idx) old
unfolding merge mask shift Priority.to_u8
merge-put high idx old hi ho =
    ap (bit_or (bit_and old _)) (bit_and_field 16 0 idx 65535 refl)
    ∙ bit_or-bit_and_clear 16 0 48 old (idx / 2 ^ 0 % 2 ^ 16) _ (omega arith) (omega arith) refl
        (omega arith)
    ∙ omega arith
merge-put medium idx old hi ho =
    ap (bit_or (bit_and old _)) (bit_and_field 16 16 idx 65535 refl)
    ∙ bit_or-bit_and_clear 32 16 32 old (idx / 2 ^ 16 % 2 ^ 16) _ (omega arith) (omega arith) refl
        (omega arith)
    ∙ omega arith
merge-put low idx old hi ho =
    ap (bit_or (bit_and old _)) (bit_and_field 16 32 idx 65535 refl)
    ∙ bit_or-bit_and_clear 48 32 16 old (idx / 2 ^ 32 % 2 ^ 16) _ (omega arith) (omega arith) refl
        (omega arith)
    ∙ omega arith
merge-put background idx old hi ho =
    ap (bit_or (bit_and old _)) (bit_and_field 16 48 idx 65535 refl)
    ∙ bit_or-bit_and_clear 64 48 0 old (idx / 2 ^ 48 % 2 ^ 16) _ (omega arith) (omega arith) refl
        (omega arith)
    ∙ omega arith

pub merge-Changes :
    (p : Priority) (idx old : Idx)
    → IsIdx idx
    → IsIdx old
    → Changes p (lane p idx) old (merge p idx old)
merge-Changes p idx old hi ho = eq-Changes p _ old _ ho (lane-lt p idx) (merge-put p idx old hi ho)

pub is_booked-bumped : (l : ℕ) → is_booked (bumped l) ≡ is_booked l
is_booked-bumped l = ap (λ t. t == 1) (omega arith)

pub is_booked-with_booked : (l : ℕ) → is_booked (with_booked l) ≡ true
is_booked-with_booked l = let e : with_booked l / 256 % 2 ≡ 1 = omega arith in ap (λ t. t == 1) e

pub is_booked-without_booked : (l : ℕ) → is_booked (without_booked l) ≡ false
is_booked-without_booked l =
    let e : without_booked l / 256 % 2 ≡ 0 = omega arith in ap (λ t. t == 1) e
