-- ===== src/Pipeline/RingBuf/Rep/Reading.antt =====
-- The calls on a reader take the first element of the queue of a priority.
use thubo.Prelude.{
  ℕ, ◌%◌, ◌<◌, ◌≡◌, ◌≢◌, ◌⊎◌, inl, inr, refl, ap, sym, ◌∙◌, List, ◌∷◌, Option, some, none, Bool,
  true, false, Bool-cases, ◌==◌, length, arith,
}
use thubo.Protocol.Priority.{Priority}
use thubo.Pipeline.RingBuf.{Idx, increment}
use thubo.Pipeline.RingBuf.Word.{lane, index-lane, increment-Changes}
use thubo.Pipeline.RingBuf.Slots.{IsCap}
use thubo.Pipeline.RingBuf.Fifo.{Queue}
use thubo.Pipeline.RingBuf.Lane.{
  refresh_reader, some_if_not_empty, empty_if_empty, first-slot, pull_Lane,
}
use thubo.Pipeline.RingBuf.Ring
use thubo.Pipeline.RingBuf.Ring.{RingBuffer, set_elem, get_elem}
use thubo.Pipeline.RingBuf.Writer.{RingBufferWriter}
use thubo.Pipeline.RingBuf.Reader.{RingBufferReader, is_empty}
use thubo.Pipeline.RingBuf.Rep.{IsSound, Rep, Owns}
use thubo.Pipeline.RingBuf.Rep.Words.{Owns-fits, update-Changes}
use thubo.Pipeline.RingBuf.Rep.Storage.{
  get_elem-lane, set_elem_self, set_elem_ne, set_elem-IsSound, set_elem-idx_w, set_elem-idx_r,
}
use thubo.Pipeline.RingBuf.Rep.Steps.{Reads}

module _ {T : Type 0} where
  -- A call that turns the queue into `a`.
  pub record Took (c : ℕ) (p : Priority) (ring : RingBuffer T) (w : RingBufferWriter)
      (r : RingBufferReader) (ring' : RingBuffer T) (r' : RingBufferReader) (a : Queue T)
      : Type 0 where
    pub sound : IsSound c ring'
    pub owns : Owns r'.update p r'.local_idx_r ring'.idx_r
    pub same_update : r'.update ≡ r.update
    pub reads : Reads p ring r ring' r'
    pub rep : Rep c ring' w r' p a

  -- What is known after the test for an empty ring.
  pub record Seen (c : ℕ) (p : Priority) (ring : RingBuffer T) (w : RingBufferWriter)
      (r : RingBufferReader) (a : Queue T) (b : Bool) (r' : RingBufferReader) : Type 0 where
    pub rep : Rep c ring w r' p a
    pub same_word : r'.local_idx_r ≡ r.local_idx_r
    pub same_update : r'.update ≡ r.update
    pub cache : (r'.cached_idx_w ≡ r.cached_idx_w) ⊎ (r'.cached_idx_w ≡ ring.idx_w)
    pub verdict :
        ((b ≡ true) × (length a.items ≡ 0) × (r'.cached_idx_w ≡ ring.idx_w))
        ⊎ ((b ≡ false)
            × (lane p r'.cached_idx_w % 256 ≢ lane p ring.idx_r % 256)
            × (0 < length a.items))

not_equal : (a b : ℕ) → (a == b) ≡ false → a ≢ b
not_equal a b e = λ f. ground arith

equal : (a b : ℕ) → (a == b) ≡ true → a ≡ b
equal a b e = ground arith

empty-lane : (x y : Idx) (p : Priority) → Ring.is_empty x y p ≡ (lane p x % 256 == lane p y % 256)
unfolding Ring.is_empty
empty-lane x y p = rw (index-lane p x, index-lane p y) refl

cap-pos : (c : ℕ) → IsCap c → 0 < c
cap-pos c h = ground arith

module _ {T : Type 0} {c : ℕ} {p : Priority} {ring : RingBuffer T} {w : RingBufferWriter}
    {r : RingBufferReader} {a : Queue T} (sound : IsSound c ring)
    (owns : Owns r.update p r.local_idx_r ring.idx_r) (rep : Rep c ring w r p a) where
  abbrev looked : Idx → RingBufferReader
  looked x = record r { cached_idx_w = x }

  empty-rep :
      (x : Idx) → Ring.is_empty r.local_idx_r x p ≡ (lane p ring.idx_r % 256 == lane p x % 256)
  empty-rep x = empty-lane r.local_idx_r x p ∙ ap (λ k. k % 256 == lane p x % 256) rep.reader_agrees

  Rep-fresh : Rep c ring w (looked ring.idx_w) p a
  Rep-fresh = record {
    lanes = refresh_reader rep.lanes;
    writer_agrees = rep.writer_agrees;
    reader_agrees = rep.reader_agrees;
  }

  pub is_empty-Seen : Seen c p ring w r a (is_empty p r ring).0 (is_empty p r ring).1
  unfolding is_empty
  is_empty-Seen = elim (Bool-cases (Ring.is_empty r.local_idx_r r.cached_idx_w p)) [
    | inl e ↦ rw e record {
      rep = Rep-fresh;
      same_word = refl;
      same_update = refl;
      cache = inr refl;
      verdict = elim (Bool-cases (Ring.is_empty r.local_idx_r ring.idx_w p)) [
        | inl f ↦ inl (
          f,
          empty_if_empty (Rep-fresh).lanes refl (equal _ _ (sym (empty-rep ring.idx_w) ∙ f)),
          refl,
        )
        | inr f ↦
            let ne = not_equal _ _ (sym (empty-rep ring.idx_w) ∙ f) in
            inr (f, (λ g. ne (sym g)), some_if_not_empty (Rep-fresh).lanes ne)
      ];
    }
    | inr e ↦
        let ne = not_equal _ _ (sym (empty-rep r.cached_idx_w) ∙ e) in
        rw e record {
          rep = rep;
          same_word = refl;
          same_update = refl;
          cache = inl refl;
          verdict = inr (refl, (λ g. ne (sym g)), some_if_not_empty rep.lanes ne);
        }
  ]

  -- A test for an empty ring, and nothing more.
  pub unmoved :
      (b : Bool) (r' : RingBufferReader) → Seen c p ring w r a b r' → Took c p ring w r ring r' a
  unmoved b r' sn = record {
    sound = sound;
    owns = rw (sn.same_word, sn.same_update) owns;
    same_update = sn.same_update;
    reads = record {
      writer_word = refl;
      slots = λ q ne. refl;
      word = λ q ne. refl;
      own_word = λ q ne. ap (lane q) sn.same_word;
      cache = sn.cache;
    };
    rep = sn.rep;
  }

module _ {T : Type 0} {c : ℕ} {p : Priority} {ring : RingBuffer T} {w : RingBufferWriter}
    {r : RingBufferReader} {t : T} {q : List T} {b : Option T} (sound : IsSound c ring)
    (owns : Owns r.update p r.local_idx_r ring.idx_r) where
  -- The first element is out of its slot, and the index of the reader has been published.
  pub taken :
      (r' : RingBufferReader)
      → Seen c p ring w r (record { items = t ∷ q; held = b }) false r'
      → lane p r'.cached_idx_w % 256 ≢ lane p ring.idx_r % 256
      → let ring' = set_elem p r'.local_idx_r none ring in
        let idx = increment p r'.local_idx_r in
        (get_elem p r'.local_idx_r ring ≡ some t)
        × Took c p ring w r
            (record ring' { idx_r = Ring.update r'.update p idx ring'.idx_r })
            (record r' { local_idx_r = idx })
            (record { items = q; held = b })
  unfolding Ring.capacity
  taken r' sn ne =
      let agree = sn.rep.reader_agrees in
      let own' : Owns r'.update p r'.local_idx_r ring.idx_r =
        rw (sn.same_word, sn.same_update) owns in
      let word = set_elem-idx_w sound p r'.local_idx_r none in
      let reader_word = set_elem-idx_r sound p r'.local_idx_r none in
      let sound' = set_elem-IsSound sound p r'.local_idx_r none in
      let ring' = set_elem p r'.local_idx_r none ring in
      let (ch, ow) =
        update-Changes r'.update p _ r'.local_idx_r (increment p r'.local_idx_r) ring'.idx_r
          sound'.fits_r (rw reader_word own')
          (increment-Changes p r'.local_idx_r (Owns-fits _ p _ _ sound.fits_r own')) in
      (
        get_elem-lane sound p r'.local_idx_r (lane p ring.idx_r) (some t) agree
            (first-slot t sn.rep.lanes),
        record {
          sound = record {
            cap = sound'.cap;
            mask_eq = sound'.mask_eq;
            capacity_eq = sound'.capacity_eq;
            fits_r = ch.fits;
            fits_w = sound'.fits_w;
          };
          owns = ow;
          same_update = sn.same_update;
          reads = record {
            writer_word = word;
            slots = λ s ne. set_elem_ne sound p r'.local_idx_r none s ne;
            word = λ s ne. ch.other s ne ∙ ap (lane s) reader_word;
            own_word = λ s ne.
                (increment-Changes p r'.local_idx_r (Owns-fits _ p _ _ sound.fits_r own')).other s
                  ne
                ∙ ap (lane s) sn.same_word;
            cache = sn.cache;
          };
          rep = record {
            lanes =
                rw
                  (
                    ch.own,
                    agree,
                    set_elem_self sound p r'.local_idx_r none (lane p ring.idx_r) agree,
                    word,
                  )
                  (pull_Lane t sn.rep.lanes (cap-pos c sound.cap) ne);
            writer_agrees = sn.rep.writer_agrees ∙ ap (lane p) (sym word);
            reader_agrees =
                (increment-Changes p r'.local_idx_r (Owns-fits _ p _ _ sound.fits_r own')).own
                ∙ sym ch.own;
          };
        },
      )
