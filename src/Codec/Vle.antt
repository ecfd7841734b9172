-- ===== src/Codec/Vle.antt =====
-- src/codec/core/vle.rs: unsigned integers in 1 to 9 bytes, seven bits to a byte, lowest first; the
-- ninth byte has eight bits.
pub mod Encoding
pub mod Fill
pub mod Write
pub mod Decode
use thubo.Prelude.{
  ℕ, zero, suc, ◌+◌, ◌-◌, ◌*◌, ◌/◌, ◌%◌, ◌^◌, bit_and, bit_or, List, Option, some, none, Op, ◌>>=◌,
  ◌>>◌, pure, fail, set, ◌==◌, not, ◌&&◌, if◌then◌else◌,
}
use thubo.Buffers.Interface.{Writer, Reader}

-- `VLE_LEN_MAX`
abbrev pub vle_len_max : ℕ
vle_len_max = 9

-- `u64::MAX << (7 * k)`
abbrev pub high_mask : ℕ → ℕ
high_mask k = (2 ^ 64 - 1) * 2 ^ (7 * k) % 2 ^ 64

unfoldable pub vle_len : ℕ → ℕ
vle_len x =
    if bit_and x (high_mask 1) == 0
    then 1
    else if bit_and x (high_mask 2) == 0
    then 2
    else if bit_and x (high_mask 3) == 0
    then 3
    else if bit_and x (high_mask 4) == 0
    then 4
    else if bit_and x (high_mask 5) == 0
    then 5
    else if bit_and x (high_mask 6) == 0
    then 6
    else if bit_and x (high_mask 7) == 0
    then 7
    else if bit_and x (high_mask 8) == 0
    then 8
    else 9

-- The `while` of the closure in `write`: `(x & !0x7f) != 0`. A write past the slot, which would be
-- undefined behaviour, changes nothing here, but is counted. Ten rounds are more than a u64 takes.
unfoldable pub fill_loop : ℕ → ℕ → ℕ → List ℕ → ℕ × ℕ × List ℕ
fill_loop zero x len buffer = (x, len, buffer)
fill_loop (suc fuel) x len buffer =
    let more = fill_loop fuel (x / 2 ^ 7) (len + 1) (set buffer len (bit_or (x % 2 ^ 8) 0x80)) in
    if bit_and x (2 ^ 64 - 1 - 0x7f) == 0 then (x, len, buffer) else more

-- The rest of the closure: the last byte, unless nine are written.
unfoldable pub fill_last : ℕ × ℕ × List ℕ → List ℕ × ℕ
fill_last (x, len, buffer) =
    if not (len == vle_len_max) then (set buffer len (x % 2 ^ 8), len + 1) else (buffer, len)

unfoldable pub fill : ℕ → List ℕ → List ℕ × ℕ
unfolding fill_loop fill_last
fill x buffer = fill_last (fill_loop 10 x 0 buffer)

module _ {W : Type 0} ⦃w : Writer W⦄ where
  unfoldable pub write_u8 : ℕ → Op W (Unit {0})
  write_u8 x = w.write_u8 x

  unfoldable pub write_u64 : ℕ → Op W (Unit {0})
  write_u64 x = do n ← w.with_slot (vle_len x) (fill x); pure tt

module _ {R : Type 0} ⦃r : Reader R⦄ where
  unfoldable pub read_u8 : Op R ℕ
  read_u8 = r.read_u8

  -- The `while` of `read`; nine rounds are more than it makes, since it stops at a shift of 56.
  unfoldable pub read_loop : ℕ → ℕ → ℕ → ℕ → Op R ℕ
  read_loop zero b v i = fail
  read_loop (suc fuel) b v i =
      let more : ℕ → Op R ℕ =
        λ b'. read_loop fuel b' (bit_or v (bit_and b 0x7f * 2 ^ i % 2 ^ 64)) (i + 7) in
      if not (bit_and b 0x80 == 0) && not (i == 7 * (vle_len_max - 1))
      then (r.read_u8 >>= more)
      else pure (bit_or v (b * 2 ^ i % 2 ^ 64))

  unfoldable pub read_u64 : Op R ℕ
  unfolding read_loop
  read_u64 = do b ← r.read_u8; read_loop vle_len_max b 0 0

  -- `x as u16` and `x as u32` of `uint_impl`; a usize is 64 bits wide.
  unfoldable pub read_u16 : Op R ℕ
  unfolding read_u64
  read_u16 = do x ← read_u64; pure (x % 2 ^ 16)

  unfoldable pub read_u32 : Op R ℕ
  unfolding read_u64
  read_u32 = do x ← read_u64; pure (x % 2 ^ 32)

  unfoldable pub read_usize : Op R ℕ
  unfolding read_u64
  read_usize = read_u64
