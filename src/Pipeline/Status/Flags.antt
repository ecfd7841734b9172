-- ===== src/Pipeline/Status/Flags.antt =====
-- The congested flags of the status word: setting one, and taking one back.
use thubo.Prelude.{
  arith, ℕ, bit_or, bit_and, ◌-◌, ◌*◌, ◌/◌, ◌%◌, ◌^◌, ◌≡◌, ◌⊎◌, inl, inr, refl, ap, ◌∙◌, true,
  false,
}
use thubo.Prelude.Bits.{bit_or-bit, bit_and-bit, bit_and_right_comm, none_and}
use thubo.Protocol.Priority
use thubo.Protocol.Priority.{Priority, high, medium, low, background}
use thubo.Pipeline.Status
use thubo.Pipeline.Status.{Status}

-- The flag of a congested priority is seen.
pub set-congested :
    (p : Priority) (s : Status)
    → Status.any (Status.set (Status.congested p) s).1 (Status.congested p) ≡ true
unfolding Status.any Status.set Status.congested Priority.to_u8
set-congested high s = ground (arith, bit_or-bit 0 s, bit_and-bit 0 (bit_or s (2 ^ 0)))
set-congested medium s = ground (arith, bit_or-bit 1 s, bit_and-bit 1 (bit_or s (2 ^ 1)))
set-congested low s = ground (arith, bit_or-bit 2 s, bit_and-bit 2 (bit_or s (2 ^ 2)))
set-congested background s = ground (arith, bit_or-bit 3 s, bit_and-bit 3 (bit_or s (2 ^ 3)))

-- No priority is congested.
abbrev pub Calm : Status → Type 0
Calm s = (p : Priority) → Status.any s (Status.congested p) ≡ false

any_of_zero : (t : ℕ) (f : ℕ) → Status.any t f ≡ false → bit_and t f ≡ 0
unfolding Status.any
any_of_zero t f e = ground (arith, e)

any_zero : (t : ℕ) (f : ℕ) → bit_and t f ≡ 0 → Status.any t f ≡ false
unfolding Status.any
any_zero t f e = ground (arith, e)

-- A flag that is taken back sets none.
pub unset-any :
    (f g : ℕ) (s : Status) → Status.any s g ≡ false → Status.any (Status.unset f s).1 g ≡ false
unfolding Status.unset
unset-any f g s h =
    let m = 2 ^ 16 - 1 - f in
    any_zero (bit_and s m) g
      (bit_and_right_comm s m g ∙ ap (λ t. bit_and t m) (any_of_zero s g h) ∙ none_and m)

pub unset-Calm : (f : ℕ) (s : Status) → Calm s → Calm (Status.unset f s).1
unset-Calm f s h p = unset-any f (Status.congested p) s (h p)

digit-cases : (d : ℕ) → (d % 2 ≡ 0) ⊎ (d % 2 ≡ 1)
digit-cases d = ground arith

-- A mask without the bit takes it out.
bit_off : (k m s : ℕ) → bit_and (1 * 2 ^ k) m ≡ 0 → bit_and (bit_and s m) (1 * 2 ^ k) ≡ 0
bit_off k m s e =
    bit_and_right_comm s m (1 * 2 ^ k)
    ∙ ap (λ t. bit_and t m) (bit_and-bit k s)
    ∙ elim (digit-cases (s / 2 ^ k)) as (λ c. bit_and (s / 2 ^ k % 2 * 2 ^ k) m ≡ 0) [
      | inl z ↦ ap (λ d. bit_and (d * 2 ^ k) m) z ∙ ap (λ t. bit_and t m) (omega arith) ∙ none_and m
      | inr o ↦ ap (λ d. bit_and (d * 2 ^ k) m) o ∙ e
    ]

-- The flag that is taken back is not set.
pub unset-congested :
    (p : Priority) (s : Status)
    → Status.any (Status.unset (Status.congested p) s).1 (Status.congested p) ≡ false
unfolding Status.unset Status.congested Priority.to_u8
unset-congested high s = any_zero _ _ (bit_off 0 65534 s refl)
unset-congested medium s = any_zero _ _ (bit_off 1 65533 s refl)
unset-congested low s = any_zero _ _ (bit_off 2 65531 s refl)
unset-congested background s = any_zero _ _ (bit_off 3 65527 s refl)

pub unset-flush :
    (p : Priority) (s : Status)
    → Status.any (Status.unset (Status.flush p) s).1 (Status.flush p) ≡ false
unfolding Status.unset Status.flush Priority.to_u8
unset-flush high s = any_zero _ _ (bit_off 4 65519 s refl)
unset-flush medium s = any_zero _ _ (bit_off 5 65503 s refl)
unset-flush low s = any_zero _ _ (bit_off 6 65471 s refl)
unset-flush background s = any_zero _ _ (bit_off 7 65407 s refl)
