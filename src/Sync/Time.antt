-- ===== src/Sync/Time.antt =====
-- src/sync/time.rs: a duration in one atomic word, the seconds above 32 bits of nanoseconds.
use thubo.Prelude.{
  ℕ, ◌+◌, ◌-◌, ◌*◌, ◌/◌, ◌%◌, ◌^◌, ◌<◌, ◌≡◌, ap, ap₂, sym, inl, inr, Bool-cases, ◌∙◌, bit_or,
  Option, some, none, leb, if◌then◌else◌, arith,
}
use thubo.Prelude.Bits.{bit_or_low}

-- `std::time::Duration`
pub record Duration : Type 0 where
  pub secs : ℕ
  pub nanos : ℕ

-- `Duration::new` carries nanoseconds over into the seconds, and panics when these overflow, which
-- seconds of 32 bits do not.
abbrev pub new_duration : ℕ → ℕ → Duration
new_duration secs nanos = record { secs = secs + nanos / 10 ^ 9; nanos = nanos % 10 ^ 9 }

unfoldable pub duration_to_u64 : Duration → ℕ
duration_to_u64 d = bit_or (d.secs * 2 ^ 32 % 2 ^ 64) d.nanos

unfoldable pub u64_to_duration : ℕ → Duration
u64_to_duration v = new_duration (v / 2 ^ 32) (v % 2 ^ 32)

-- `AtomicDuration::store`, and `new`: the assertion is on the seconds.
unfoldable pub store : Duration → Option ℕ
unfolding duration_to_u64
store d = if leb d.secs (2 ^ 32 - 1) then some (duration_to_u64 d) else none

unfoldable pub load : ℕ → Duration
unfolding u64_to_duration
load v = u64_to_duration v

-- For a duration with less than a second of nanoseconds: what is stored without a panic is loaded.
pub load-store : (d : Duration) (v : ℕ) → d.nanos < 10 ^ 9 → store d ≡ some v → load v ≡ d
unfolding load store u64_to_duration duration_to_u64
load-store d v h e = elim (Bool-cases (leb d.secs (2 ^ 32 - 1))) [
  | inl f ↦
      let small : d.secs < 2 ^ 32 = ground (arith, f) in
      let above : d.secs * 2 ^ 32 % 2 ^ 64 ≡ d.secs * 2 ^ 32 = omega arith in
      let stored : bit_or (d.secs * 2 ^ 32 % 2 ^ 64) d.nanos ≡ v = cc (rw f at e) in
      let word : v ≡ d.secs * 2 ^ 32 + d.nanos =
        sym stored
        ∙ ap (λ k. bit_or k d.nanos) above
        ∙ bit_or_low 32 d.secs d.nanos (omega arith) in
      ap₂ (λ a b. record { secs = a; nanos = b }) (omega arith) (omega arith)
  | inr f ↦ absurd (cc (rw f at e))
]
