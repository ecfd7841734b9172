-- ===== src/Pipeline/RingBuf/Slots.antt =====
-- Positions in a ring: the indices wrap at 256, and the capacities divide it.
use thubo.Prelude.{ℕ, suc, ◌+◌, ◌-◌, ◌%◌, ◌<◌, ◌≡◌, ◌≢◌, ◌⊎◌, inl, inr, refl, arith, bit_and}
use thubo.Prelude.Bits.{bit_and_ones}

-- The powers of two up to 128.
abbrev pub IsCap : ℕ → Type 0
IsCap c =
    (c ≡ 1) ⊎ ((c ≡ 2) ⊎ ((c ≡ 4) ⊎ ((c ≡ 8) ⊎ ((c ≡ 16) ⊎ ((c ≡ 32) ⊎ ((c ≡ 64) ⊎ (c ≡ 128)))))))

pub slot-eq-mod : (c x : ℕ) → IsCap c → bit_and x (c - 1) ≡ x % c
slot-eq-mod c x (inl e) = rw e (bit_and_ones 0 x 0 refl)
slot-eq-mod c x (inr (inl e)) = rw e (bit_and_ones 1 x 1 refl)
slot-eq-mod c x (inr (inr (inl e))) = rw e (bit_and_ones 2 x 3 refl)
slot-eq-mod c x (inr (inr (inr (inl e)))) = rw e (bit_and_ones 3 x 7 refl)
slot-eq-mod c x (inr (inr (inr (inr (inl e))))) = rw e (bit_and_ones 4 x 15 refl)
slot-eq-mod c x (inr (inr (inr (inr (inr (inl e)))))) = rw e (bit_and_ones 5 x 31 refl)
slot-eq-mod c x (inr (inr (inr (inr (inr (inr (inl e))))))) = rw e (bit_and_ones 6 x 63 refl)
slot-eq-mod c x (inr (inr (inr (inr (inr (inr (inr e))))))) = rw e (bit_and_ones 7 x 127 refl)

-- A wrap of the index does not change the position.
pub position-wrap : (c r i : ℕ) → IsCap c → (r + i) % 256 % c ≡ (r + i) % c
position-wrap c r i h = ground arith

pub position-next : (c r i : ℕ) → IsCap c → ((r + 1) % 256 + i) % c ≡ (r + suc i) % c
position-next c r i h = ground arith

pub position-ne : (c r i j : ℕ) → IsCap c → i < c → j < c → i ≢ j → (r + i) % c ≢ (r + j) % c
position-ne c r i j h hi hj ne = λ e. ground arith

pub position-lt : (c x : ℕ) → IsCap c → x % c < c
position-lt c x h = ground arith
