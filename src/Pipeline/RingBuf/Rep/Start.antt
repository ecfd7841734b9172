-- ===== src/Pipeline/RingBuf/Rep/Start.antt =====
-- A new ring buffer is empty.
use thubo.Prelude.{
  ℕ, ◌-◌, ◌%◌, ◌^◌, ◌<◌, ◌≡◌, ◌⊎◌, inl, inr, refl, ap, sym, ◌∙◌, some, none, Bool, true, false,
  arith, if◌then◌else◌, ◌==◌, ◌&&◌, ◌||◌, leb, replicate, length-replicate, Bool-cases,
}
use thubo.Prelude.Table.{agree_below, agree_below→eq}
use thubo.Protocol.Priority
use thubo.Protocol.Priority.{Priority, high, medium, low, background}
use thubo.Pipeline.RingBuf.Slots.{IsCap}
use thubo.Pipeline.RingBuf.Fifo
use thubo.Pipeline.RingBuf.Ring
use thubo.Pipeline.RingBuf.Ring.{RingBuffer, Update, is_power_of_two, capacity}
use thubo.Pipeline.RingBuf.Writer
use thubo.Pipeline.RingBuf.Reader
use thubo.Pipeline.RingBuf.Rep.{IsSound, Rep}
use thubo.Pipeline.RingBuf.Word.{lane}

abbrev is_cap : ℕ → Bool
is_cap n =
    (n == 1)
    || (n == 2)
    || (n == 4)
    || (n == 8)
    || (n == 16)
    || (n == 32)
    || (n == 64)
    || (n == 128)

abbrev bit : Bool → ℕ
bit b = if b then 1 else 0

is_power_of_two-eq-is_cap : (n : ℕ) → n < 129 → bit (is_power_of_two n) ≡ bit (is_cap n)
unfolding agree_below
is_power_of_two-eq-is_cap =
    agree_below→eq (λ n. bit (is_power_of_two n)) (λ n. bit (is_cap n)) 129 refl

is_cap-IsCap : (n : ℕ) → bit (is_cap n) ≡ 1 → IsCap n
is_cap-IsCap n e = ground arith

accepted-IsCap : (n : ℕ) → (is_power_of_two n && leb n (2 ^ 7)) ≡ true → IsCap n
accepted-IsCap n e =
    let small : n < 129 = ground (arith, e) in
    let pow : is_power_of_two n ≡ true = ground (arith, e) in
    is_cap-IsCap n (sym (is_power_of_two-eq-is_cap n small) ∙ ap bit pow)

IsCap-accepted : (n : ℕ) → IsCap n → (is_power_of_two n && leb n (2 ^ 7)) ≡ true
IsCap-accepted n (inl e) = rw e refl
IsCap-accepted n (inr (inl e)) = rw e refl
IsCap-accepted n (inr (inr (inl e))) = rw e refl
IsCap-accepted n (inr (inr (inr (inl e)))) = rw e refl
IsCap-accepted n (inr (inr (inr (inr (inl e))))) = rw e refl
IsCap-accepted n (inr (inr (inr (inr (inr (inl e)))))) = rw e refl
IsCap-accepted n (inr (inr (inr (inr (inr (inr (inl e))))))) = rw e refl
IsCap-accepted n (inr (inr (inr (inr (inr (inr (inr e))))))) = rw e refl

lane-zero : (p : Priority) → lane p 0 ≡ 0
lane-zero high = refl
lane-zero medium = refl
lane-zero low = refl
lane-zero background = refl

module _ {T : Type 0} where
  abbrev pub fresh : ℕ → RingBuffer T
  fresh n = record {
    ptr = record {
      at_high = replicate n none;
      at_medium = replicate n none;
      at_low = replicate n none;
      at_background = replicate n none;
    };
    mask = n - 1;
    idx_r = 0;
    idx_w = 0;
  }

  refused_lem : (n : ℕ) → (is_power_of_two n && leb n (2 ^ 7)) ≡ false → Ring.new {T = T} n ≡ none
  unfolding Ring.new
  refused_lem n e = rw e refl

  accepted_lem :
      (n : ℕ) → (is_power_of_two n && leb n (2 ^ 7)) ≡ true → Ring.new {T = T} n ≡ some (fresh n)
  unfolding Ring.new
  accepted_lem n e =
      let cap = accepted-IsCap n e in
      let small : (n - 1) % 2 ^ 8 ≡ n - 1 = ground (arith, cap) in rw (e, small) refl

  -- For the powers of two up to 128, `new` returns a ring with that many empty slots for each priority, both
  -- indices at 0 and the mask one less; for any other capacity an assertion fails.
  pub new-cases :
      (n : ℕ)
      → (IsCap n × (Ring.new {T = T} n ≡ some (fresh n)))
        ⊎ ((IsCap n → ⊥) × (Ring.new {T = T} n ≡ none))
  new-cases n = elim (Bool-cases (is_power_of_two n && leb n (2 ^ 7))) [
    | inl f ↦ inl (accepted-IsCap n f, accepted_lem n f)
    | inr f ↦ inr ((λ cap. absurd (cc (f, IsCap-accepted n cap))), refused_lem n f)
  ]

  pub new_lem : (n : ℕ) (ring : RingBuffer T) → Ring.new n ≡ some ring → IsCap n × (ring ≡ fresh n)
  new_lem n ring e = elim (new-cases n) [
    | inl (cap, f) ↦ (cap, cc (e, f))
    | inr (unfit, f) ↦ absurd (cc (e, f))
  ]

  slots-fresh : (n : ℕ) (p : Priority) → Priority.index (fresh n).ptr p ≡ replicate n none
  unfolding Priority.index
  slots-fresh n high = refl
  slots-fresh n medium = refl
  slots-fresh n low = refl
  slots-fresh n background = refl

  pub fresh-IsSound : (n : ℕ) → IsCap n → IsSound n (fresh n)
  unfolding capacity Priority.index
  fresh-IsSound n cap = record {
    cap = cap;
    mask_eq = refl;
    capacity_eq = ap (λ k. k % 2 ^ 8) (length-replicate n none) ∙ ground (arith, cap);
    fits_r = omega arith;
    fits_w = omega arith;
  }

  pub fresh-Rep :
      (n : ℕ) (u v : Update) (p : Priority)
      → IsCap n
      → Rep n (fresh n) (Writer.new u) (Reader.new v) p Fifo.empty
  unfolding Writer.new Reader.new
  fresh-Rep n u v p cap = record {
    lanes =
        rw (slots-fresh n p, lane-zero p)
          record {
            cap = cap;
            size = length-replicate n none;
            count = refl;
            bound = omega arith;
            flag = refl;
            items = λ i t e. absurd (cc);
            booked = λ t e. absurd (cc);
            writer_knows = (0, omega arith, omega arith, refl);
            reader_knows = (0, omega arith, refl);
          };
    writer_agrees = refl;
    reader_agrees = refl;
  }
