-- ===== src/Pipeline/RingBuf/Rep/Calls.antt =====
-- The calls on a writer do to the queue of their priority what the queue's operations do.
use thubo.Prelude.{
  ℕ, ◌<◌, ◌≡◌, inl, inr, refl, ap, ◌∙◌, List, [], ◌∷◌, ◌++◌, Option, some, none, Bool, true, false,
  ◌==◌, length, get_elem?, arith,
}
use thubo.Protocol.Priority
use thubo.Protocol.Priority.{Priority}
use thubo.Pipeline.RingBuf.{flag_prio, booked_bit, any, set_flag}
use thubo.Pipeline.RingBuf.Word.{lane, increment-Changes, unset_flag-Changes, any-lane, is_booked}
use thubo.Pipeline.RingBuf.Lane.{Room, push_Lane, book_Lane, modify_Lane, commit_Lane, writer_slot}
use thubo.Pipeline.RingBuf.Fifo
use thubo.Pipeline.RingBuf.Fifo.{Queue}
use thubo.Pipeline.RingBuf.Ring.{RingBuffer, set_elem}
use thubo.Pipeline.RingBuf.Writer.{
  RingBufferWriter, is_full, advance, push, book, commit, deref, deref_mut, peek,
}
use thubo.Pipeline.RingBuf.Reader.{RingBufferReader}
use thubo.Pipeline.RingBuf.Rep.{IsSound, Rep, Owns}
use thubo.Pipeline.RingBuf.Rep.Words.{Owns-fits}
use thubo.Pipeline.RingBuf.Rep.Storage.{
  get_elem-lane, set_elem_self, set_elem_ne, set_elem-IsSound, set_elem-idx_w, set_elem-idx_r,
}
use thubo.Pipeline.RingBuf.Rep.Writing.{Wrote, Looked, is_full-Looked}
use thubo.Pipeline.RingBuf.Rep.Publish.{advanced, flagged, unchanged, finish, Changes-trans}

eq_true : (a b : ℕ) → a ≡ b → (a == b) ≡ true
eq_true a b e = ground arith

lt_false : (a b : ℕ) → a < b → (a == b) ≡ false
lt_false a b e = ground arith

module _ {T : Type 0} {c : ℕ} {p : Priority} {ring : RingBuffer T} {w : RingBufferWriter}
    {r : RingBufferReader} {a : Queue T} (sound : IsSound c ring)
    (owns : Owns w.update p w.local_idx_w ring.idx_w) where
  -- A test for a full ring, and nothing more.
  refused :
      (b : Bool) (w' : RingBufferWriter) → Looked c p ring w r a b w' → Wrote c p ring w r ring w' a
  refused b w' lk = record {
    sound = sound;
    owns = rw (lk.same_word, lk.same_update) owns;
    same_update = lk.same_update;
    writes = record {
      reader_word = refl;
      slots = λ q ne. refl;
      word = λ q ne. refl;
      own_word = λ q ne. ap (lane q) lk.same_word;
      cache = lk.cache;
    };
    rep = lk.rep;
  }

module _ {T : Type 0} {c : ℕ} {p : Priority} {ring : RingBuffer T} {w : RingBufferWriter}
    {r : RingBufferReader} (sound : IsSound c ring)
    (owns : Owns w.update p w.local_idx_w ring.idx_w) where
  module _ (t : T) (q : List T) (rep : Rep c ring w r p (record { items = q; held = none })) where
    looked :
        Looked c p ring w r
          (record { items = q; held = none })
          (is_full p w ring).0
          (is_full p w ring).1
    looked = is_full-Looked sound owns rep

    Owns-looked :
        (w' : RingBufferWriter) (b : Bool)
        → Looked c p ring w r (record { items = q; held = none }) b w'
        → Owns w'.update p w'.local_idx_w ring.idx_w
    Owns-looked w' b lk = rw (lk.same_word, lk.same_update) owns

    -- The element is in the slot, and the index of the writer has been published.
    pushed :
        (w' : RingBufferWriter)
        → Looked c p ring w r (record { items = q; held = none }) false w'
        → Room c (lane p ring.idx_w) (lane p w'.cached_idx_r) q
        → Wrote c p ring w r
            (advance p w'.local_idx_w w' (set_elem p w'.local_idx_w (some t) ring)).1
            (advance p w'.local_idx_w w' (set_elem p w'.local_idx_w (some t) ring)).0
            (record { items = q ++ (t ∷ []); held = none })
    unfolding advance
    pushed w' lk room =
        let agree = ap (lane p) lk.same_word ∙ rep.writer_agrees in
        let word = set_elem-idx_w sound p w'.local_idx_w (some t) in
        let reader_word = set_elem-idx_r sound p w'.local_idx_w (some t) in
        let ring' = set_elem p w'.local_idx_w (some t) ring in
        let ow : Owns w'.update p w'.local_idx_w ring'.idx_w = rw word (Owns-looked w' false lk) in
        finish rep ring' w' reader_word word (set_elem_ne sound p w'.local_idx_w (some t))
          lk.same_word lk.same_update lk.cache _ _ _
          (advanced w'.update w'.local_idx_w (set_elem-IsSound sound p w'.local_idx_w (some t)) ow _
            _
            (increment-Changes p w'.local_idx_w
              (Owns-fits _ p _ _ sound.fits_w (Owns-looked w' false lk))))
          (record { items = q ++ (t ∷ []); held = none })
          (rw (agree, set_elem_self sound p w'.local_idx_w (some t) (lane p ring.idx_w) agree)
            (push_Lane lk.rep.lanes t room))

    -- The element is in the slot, and its flag is set.
    held :
        (w' : RingBufferWriter)
        → Looked c p ring w r (record { items = q; held = none }) false w'
        → Room c (lane p ring.idx_w) (lane p w'.cached_idx_r) q
        → let ring' = set_elem p w'.local_idx_w (some t) ring in
          Wrote c p ring w r
            (record ring' { idx_w = set_flag (flag_prio p booked_bit) ring'.idx_w })
            (record w' { local_idx_w = set_flag (flag_prio p booked_bit) w'.local_idx_w })
            (record { items = q; held = some t })
    held w' lk room =
        let agree = ap (lane p) lk.same_word ∙ rep.writer_agrees in
        let word = set_elem-idx_w sound p w'.local_idx_w (some t) in
        let reader_word = set_elem-idx_r sound p w'.local_idx_w (some t) in
        let ring' = set_elem p w'.local_idx_w (some t) ring in
        let ow : Owns w'.update p w'.local_idx_w ring'.idx_w = rw word (Owns-looked w' false lk) in
        finish rep ring' w' reader_word word (set_elem_ne sound p w'.local_idx_w (some t))
          lk.same_word lk.same_update lk.cache _ _ _
          (flagged w'.update w'.local_idx_w (set_elem-IsSound sound p w'.local_idx_w (some t)) ow)
          (record { items = q; held = some t })
          (rw (agree, set_elem_self sound p w'.local_idx_w (some t) (lane p ring.idx_w) agree)
            (book_Lane lk.rep.lanes t room))

    -- Without a booked element, `push` is the queue's.
    pub push-Wrote :
        ((push p t w ring).0 ≡ (Fifo.push c t (record { items = q; held = none })).0)
        × Wrote c p ring w r
            (push p t w ring).1.1
            (push p t w ring).1.0
            (Fifo.push c t (record { items = q; held = none })).1
    unfolding push Fifo.push
    push-Wrote = elim looked.verdict [
      | inl (e, f) ↦
          rw (e, eq_true (length q) c f) (refl, refused sound owns true _ (rw e at looked))
      | inr (e, room) ↦
          let lt : length q < c = let (n, a, b, f) = room in omega arith in
          rw (e, lt_false (length q) c lt) (refl, pushed _ (rw e at looked) room)
    ]

    -- `book` is the queue's.
    pub book_free-Wrote :
        ((book p t w ring).0 ≡ (Fifo.book c t (record { items = q; held = none })).0)
        × Wrote c p ring w r
            (book p t w ring).1.1
            (book p t w ring).1.0
            (Fifo.book c t (record { items = q; held = none })).1
    unfolding book Fifo.book
    book_free-Wrote = rw unbooked (elim looked.verdict [
      | inl (e, f) ↦
          rw (e, eq_true (length q) c f) (refl, refused sound owns true _ (rw e at looked))
      | inr (e, room) ↦
          let lt : length q < c = let (n, a, b, f) = room in omega arith in
          rw (e, lt_false (length q) c lt) (refl, held _ (rw e at looked) room)
    ])
      where
        unbooked : any (flag_prio p booked_bit) w.local_idx_w ≡ false
        unbooked = any-lane p w.local_idx_w ∙ ap is_booked rep.writer_agrees ∙ rep.lanes.flag

  module _ (q : List T) (u : T) (rep : Rep c ring w r p (record { items = q; held = some u })) where
    pub peek-held : peek p w ≡ true
    unfolding peek
    peek-held = any-lane p w.local_idx_w ∙ ap is_booked rep.writer_agrees ∙ rep.lanes.flag

    pub book_held-Wrote :
        (t : T)
        → ((book p t w ring).0 ≡ some t)
          × Wrote c p ring w r
              (book p t w ring).1.1
              (book p t w ring).1.0
              (record { items = q; held = some u })
    unfolding book peek
    book_held-Wrote t = rw peek-held (refl, unmoved)
      where
        unmoved : Wrote c p ring w r ring w (record { items = q; held = some u })
        unmoved =
            finish rep ring w refl refl (λ q ne. refl) refl refl (inl refl) _ _ _
              (unchanged w.update w.local_idx_w sound owns) (record { items = q; held = some u })
              (rw rep.writer_agrees rep.lanes)

    -- An assignment through the peeked reference.
    pub deref_mut-Wrote :
        (t : T) → Wrote c p ring w r (deref_mut p t w ring) w (record { items = q; held = some t })
    unfolding deref_mut
    deref_mut-Wrote t =
        let word = set_elem-idx_w sound p w.local_idx_w (some t) in
        let reader_word = set_elem-idx_r sound p w.local_idx_w (some t) in
        let ring' = set_elem p w.local_idx_w (some t) ring in
        let ow : Owns w.update p w.local_idx_w ring'.idx_w = rw word owns in
        let agree = rep.writer_agrees in
        finish rep ring' w reader_word word (set_elem_ne sound p w.local_idx_w (some t)) refl refl
          (inl refl) _ _ _
          (unchanged w.update w.local_idx_w (set_elem-IsSound sound p w.local_idx_w (some t)) ow)
          (record { items = q; held = some t })
          (rw (agree, set_elem_self sound p w.local_idx_w (some t) (lane p ring.idx_w) agree)
            (modify_Lane u t rep.lanes))

    -- `deref` finds the booked element.
    pub deref-held : deref p w ring ≡ some u
    unfolding deref
    deref-held =
        get_elem-lane sound p w.local_idx_w (lane p ring.idx_w) (some u) rep.writer_agrees (
          ap (get_elem? (Priority.index ring.ptr p)) (writer_slot rep.lanes)
          ∙ rep.lanes.booked u refl)

    pub commit-Wrote :
        Wrote c p ring w r
          (commit p w ring).1
          (commit p w ring).0
          (Fifo.commit (record { items = q; held = some u }))
    unfolding commit advance Fifo.commit
    commit-Wrote =
        let fits = Owns-fits w.update p w.local_idx_w ring.idx_w sound.fits_w owns in
        let cleared = unset_flag-Changes p w.local_idx_w fits in
        let up = increment-Changes p _ cleared.fits in
        finish rep ring w refl refl (λ q ne. refl) refl refl (inl refl) _ _ _
          (advanced w.update w.local_idx_w sound owns _ _
            (Changes-trans p _ _ w.local_idx_w _ _ cleared up))
          (record { items = q ++ (u ∷ []); held = none })
          (rw (cleared.own, rep.writer_agrees) (commit_Lane u rep.lanes))

  -- The calls on any queue.
  pub book-Wrote :
      (t : T) (q : List T) (b : Option T)
      → Rep c ring w r p (record { items = q; held = b })
      → ((book p t w ring).0 ≡ (Fifo.book c t (record { items = q; held = b })).0)
        × Wrote c p ring w r
            (book p t w ring).1.1
            (book p t w ring).1.0
            (Fifo.book c t (record { items = q; held = b })).1
  unfolding Fifo.book
  book-Wrote t q none rep = book_free-Wrote t q rep
  book-Wrote t q (some u) rep = book_held-Wrote q u rep t

  pub peek-is_held :
      (q : List T) (b : Option T)
      → Rep c ring w r p (record { items = q; held = b })
      → peek p w ≡ Fifo.is_held (record { items = q; held = b })
  unfolding peek
  peek-is_held q none rep =
      any-lane p w.local_idx_w ∙ ap is_booked rep.writer_agrees ∙ rep.lanes.flag
  peek-is_held q (some u) rep = peek-held q u rep
