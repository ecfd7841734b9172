-- ===== src/Pipeline/Tx/Out/Unchanged.antt =====
-- What the steps of `PipelineTxOut::pull` before a flush leave as it was: src/pipeline/tx.rs.
use Prim.Native.Nat.{Ordering}
use thubo.Prelude.{
  ℕ, ◌-◌, ◌*◌, ◌/◌, ◌%◌, ◌^◌, ◌≡◌, inl, inr, refl, bit_or, Bool, true, false, ltb, Bool-cases,
  arith,
}
use thubo.Prelude.Bits.{bit_or-bit, bit_and-bit}
use thubo.Protocol.Priority
use thubo.Protocol.Priority.{Priority, PerPriority, high, medium, low, background}
use thubo.Pipeline.Status
use thubo.Pipeline.Tx.Out.Pulling.{State, Turn, check_age, to_pull, backoff_from}

-- A flag that is set is not the one that ends the loop.
bit_set :
    (k s : ℕ)
    → (bit_or s (1 * 2 ^ k) / 2 ^ 8 % 2 ≡ s / 2 ^ 8 % 2)
    → Status.any s Status.disabled ≡ false
    → Status.any (bit_or s (1 * 2 ^ k)) Status.disabled ≡ false
unfolding Status.any
bit_set k s e h = ground (arith, bit_and-bit 8 s, bit_and-bit 8 (bit_or s (1 * 2 ^ k)))

set_backoff-enabled :
    (s : ℕ)
    → Status.any s Status.disabled ≡ false
    → Status.any (Status.set Status.backoff s).1 Status.disabled ≡ false
unfolding Status.set
set_backoff-enabled s h = bit_set 9 s (omega (arith, bit_or-bit 9 s)) h

set_flush-enabled :
    (p : Priority) (s : ℕ)
    → Status.any s Status.disabled ≡ false
    → Status.any (Status.set (Status.flush p) s).1 Status.disabled ≡ false
unfolding Status.set Status.flush Priority.to_u8
set_flush-enabled high s h = bit_set 4 s (omega (arith, bit_or-bit 4 s)) h
set_flush-enabled medium s h = bit_set 5 s (omega (arith, bit_or-bit 5 s)) h
set_flush-enabled low s h = bit_set 6 s (omega (arith, bit_or-bit 6 s)) h
set_flush-enabled background s h = bit_set 7 s (omega (arith, bit_or-bit 7 s)) h

-- What a step leaves as it was, but for the status, which is not disabled.
pub record SameBut (s s' : State) : Type 0 where
  pub inout : s'.out.ringbuf_inout ≡ s.out.ringbuf_inout
  pub flags : s'.out.drop_flags ≡ s.out.drop_flags
  pub lens : s'.booked_len ≡ s.booked_len
  pub all_words : s'.words ≡ s.words
  pub still :
      Status.any s.out.status Status.disabled ≡ false
      → Status.any s'.out.status Status.disabled ≡ false

pub SameBut-refl : (s : State) → SameBut s s
SameBut-refl s = record {
  inout = refl;
  flags = refl;
  lens = refl;
  all_words = refl;
  still = λ h. h;
}

pub backoff_from-SameBut : (o : Bool) (s : State) → SameBut s (backoff_from o s)
unfolding backoff_from
backoff_from-SameBut true s = SameBut-refl s
backoff_from-SameBut false s = record {
  inout = refl;
  flags = refl;
  lens = refl;
  all_words = refl;
  still = set_backoff-enabled s.out.status;
}

pub check_age-SameBut :
    (max elapsed first : ℕ) (p : Priority) (s : State)
    → SameBut s (check_age max elapsed first p s).1
unfolding check_age
check_age-SameBut max elapsed first p s = elim (Bool-cases (ltb max (elapsed - first))) [
  | inl e ↦ rw e (record {
    inout = refl;
    flags = refl;
    lens = refl;
    all_words = refl;
    still = set_flush-enabled p s.out.status;
  })
  | inr e ↦ rw e (SameBut-refl s)
]

pub to_pull-SameBut :
    (max : ℕ) (t : Turn) (first : ℕ) (c : Ordering) (p : Priority) (s : State)
    → SameBut s (to_pull max t first c p s).1
unfolding to_pull
to_pull-SameBut max t first Ordering.lt p s = SameBut-refl s
to_pull-SameBut max t first Ordering.eq p s = SameBut-refl s
to_pull-SameBut max t first Ordering.gt p s = check_age-SameBut max t.elapsed first p s
