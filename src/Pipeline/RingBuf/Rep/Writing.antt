-- ===== src/Pipeline/RingBuf/Rep/Writing.antt =====
-- What the calls on a writer do to the queue of their priority.
use thubo.Prelude.{
  ℕ, ◌+◌, ◌-◌, ◌%◌, ◌≡◌, ◌≢◌, ◌⊎◌, inl, inr, refl, ap, sym, ◌∙◌, Bool, true, false, Bool-cases,
  ◌==◌, length, arith,
}
use thubo.Protocol.Priority.{Priority}
use thubo.Pipeline.RingBuf.{Idx}
use thubo.Pipeline.RingBuf.Word.{lane, index-lane}
use thubo.Pipeline.RingBuf.Fifo.{Queue}
use thubo.Pipeline.RingBuf.Lane.{Room, refresh_writer, room_if_not_full, full_if_full}
use thubo.Pipeline.RingBuf.Ring
use thubo.Pipeline.RingBuf.Ring.{RingBuffer, capacity, set_elem}
use thubo.Pipeline.RingBuf.Writer.{RingBufferWriter, is_full}
use thubo.Pipeline.RingBuf.Reader.{RingBufferReader}
use thubo.Pipeline.RingBuf.Rep.{IsSound, Rep, Owns}
use thubo.Pipeline.RingBuf.Rep.Steps.{Writes}

module _ {T : Type 0} where
  -- A call that turns the queue into `a`.
  pub record Wrote (c : ℕ) (p : Priority) (ring : RingBuffer T) (w : RingBufferWriter)
      (r : RingBufferReader) (ring' : RingBuffer T) (w' : RingBufferWriter) (a : Queue T)
      : Type 0 where
    pub sound : IsSound c ring'
    pub owns : Owns w'.update p w'.local_idx_w ring'.idx_w
    pub same_update : w'.update ≡ w.update
    pub writes : Writes p ring w ring' w'
    pub rep : Rep c ring' w' r p a

  -- What is known after the test for a full ring.
  pub record Looked (c : ℕ) (p : Priority) (ring : RingBuffer T) (w : RingBufferWriter)
      (r : RingBufferReader) (a : Queue T) (b : Bool) (w' : RingBufferWriter) : Type 0 where
    pub rep : Rep c ring w' r p a
    pub same_word : w'.local_idx_w ≡ w.local_idx_w
    pub same_update : w'.update ≡ w.update
    pub cache : (w'.cached_idx_r ≡ w.cached_idx_r) ⊎ (w'.cached_idx_r ≡ ring.idx_r)
    pub verdict :
        ((b ≡ true) × (length a.items ≡ c))
        ⊎ ((b ≡ false) × Room c (lane p ring.idx_w) (lane p w'.cached_idx_r) a.items)

full-lane :
    (x y : Idx) (p : Priority) (c : ℕ)
    → Ring.is_full x y p c ≡ ((lane p y % 256 + 256 - lane p x % 256) % 256 == c)
unfolding Ring.is_full
full-lane x y p c = rw (index-lane p x, index-lane p y) refl

not_equal : (a b : ℕ) → (a == b) ≡ false → a ≢ b
not_equal a b e = λ f. ground arith

equal : (a b : ℕ) → (a == b) ≡ true → a ≡ b
equal a b e = ground arith

module _ {T : Type 0} {c : ℕ} {p : Priority} {ring : RingBuffer T} {w : RingBufferWriter}
    {r : RingBufferReader} {a : Queue T} (sound : IsSound c ring)
    (owns : Owns w.update p w.local_idx_w ring.idx_w) (rep : Rep c ring w r p a) where
  abbrev looked : (x : Idx) → RingBufferWriter
  looked x = record w { cached_idx_r = x }

  full-rep :
      (x : Idx)
      → Ring.is_full x w.local_idx_w p (capacity ring)
        ≡ ((lane p ring.idx_w % 256 + 256 - lane p x % 256) % 256 == c)
  full-rep x =
      full-lane x w.local_idx_w p (capacity ring)
      ∙ ap (λ k. (lane p w.local_idx_w % 256 + 256 - lane p x % 256) % 256 == k) sound.capacity_eq
      ∙ ap (λ k. (k % 256 + 256 - lane p x % 256) % 256 == c) rep.writer_agrees

  Rep-fresh : Rep c ring (looked ring.idx_r) r p a
  Rep-fresh = record {
    lanes = refresh_writer rep.lanes;
    writer_agrees = rep.writer_agrees;
    reader_agrees = rep.reader_agrees;
  }

  pub is_full-Looked : Looked c p ring w r a (is_full p w ring).0 (is_full p w ring).1
  unfolding is_full
  is_full-Looked = elim (Bool-cases (Ring.is_full w.cached_idx_r w.local_idx_w p (capacity ring))) [
    | inl e ↦ rw e record {
      rep = Rep-fresh;
      same_word = refl;
      same_update = refl;
      cache = inr refl;
      verdict = elim (Bool-cases (Ring.is_full ring.idx_r w.local_idx_w p (capacity ring))) [
        | inl f ↦
            inl (f, full_if_full (Rep-fresh).lanes refl (equal _ _ (sym (full-rep ring.idx_r) ∙ f)))
        | inr f ↦
            inr (
              f,
              room_if_not_full (Rep-fresh).lanes (not_equal _ _ (sym (full-rep ring.idx_r) ∙ f)),
            )
      ];
    }
    | inr e ↦ rw e record {
      rep = rep;
      same_word = refl;
      same_update = refl;
      cache = inl refl;
      verdict =
          inr
            (refl, room_if_not_full rep.lanes (not_equal _ _ (sym (full-rep w.cached_idx_r) ∙ e)));
    }
  ]
