-- ===== src/Pipeline/RingBuf/Rep/Steps.antt =====
-- What a call on a handle leaves as it was, and what it makes of the queue of its priority.
use thubo.Prelude.{ℕ, ◌≡◌, ◌≢◌, ◌⊎◌, inl, inr, ap, sym, ◌∙◌}
use thubo.Protocol.Priority
use thubo.Protocol.Priority.{Priority}
use thubo.Pipeline.RingBuf.Word.{lane}
use thubo.Pipeline.RingBuf.Fifo.{Queue}
use thubo.Pipeline.RingBuf.Lane.{refresh_writer, refresh_reader}
use thubo.Pipeline.RingBuf.Ring.{RingBuffer}
use thubo.Pipeline.RingBuf.Writer.{RingBufferWriter}
use thubo.Pipeline.RingBuf.Reader.{RingBufferReader}
use thubo.Pipeline.RingBuf.Rep.{Rep}

module _ {T : Type 0} where
  -- A call on a writer, for the priority `p`.
  pub record Writes (p : Priority) (ring : RingBuffer T) (w : RingBufferWriter)
      (ring' : RingBuffer T) (w' : RingBufferWriter) : Type 0 where
    pub reader_word : ring'.idx_r ≡ ring.idx_r
    pub slots : (q : Priority) → p ≢ q → Priority.index ring'.ptr q ≡ Priority.index ring.ptr q
    pub word : (q : Priority) → p ≢ q → lane q ring'.idx_w ≡ lane q ring.idx_w
    pub own_word : (q : Priority) → p ≢ q → lane q w'.local_idx_w ≡ lane q w.local_idx_w
    pub cache : (w'.cached_idx_r ≡ w.cached_idx_r) ⊎ (w'.cached_idx_r ≡ ring.idx_r)

  -- A call on a reader.
  pub record Reads (p : Priority) (ring : RingBuffer T) (r : RingBufferReader)
      (ring' : RingBuffer T) (r' : RingBufferReader) : Type 0 where
    pub writer_word : ring'.idx_w ≡ ring.idx_w
    pub slots : (q : Priority) → p ≢ q → Priority.index ring'.ptr q ≡ Priority.index ring.ptr q
    pub word : (q : Priority) → p ≢ q → lane q ring'.idx_r ≡ lane q ring.idx_r
    pub own_word : (q : Priority) → p ≢ q → lane q r'.local_idx_r ≡ lane q r.local_idx_r
    pub cache : (r'.cached_idx_w ≡ r.cached_idx_w) ⊎ (r'.cached_idx_w ≡ ring.idx_w)

module _ {T : Type 0} {c : ℕ} {p q : Priority} {ring ring' : RingBuffer T} {a : Queue T}
    (ne : p ≢ q) where
  -- The other priorities are not touched, through the handle of the call or another.
  pub Rep-written :
      {w w' : RingBufferWriter} (r : RingBufferReader)
      → Writes p ring w ring' w'
      → Rep c ring w r q a
      → Rep c ring' w' r q a
  Rep-written {w = w} {w' = w'} r wr rep = record {
    lanes =
        rw (wr.slots q ne, wr.reader_word, wr.word q ne)
          (elim wr.cache [ inl e ↦ rw e rep.lanes | inr e ↦ rw e (refresh_writer rep.lanes) ]);
    writer_agrees = wr.own_word q ne ∙ rep.writer_agrees ∙ sym (wr.word q ne);
    reader_agrees = rep.reader_agrees ∙ ap (lane q) (sym wr.reader_word);
  }

  pub Rep-written_by :
      {w w' : RingBufferWriter} (v : RingBufferWriter) (r : RingBufferReader)
      → Writes p ring w ring' w'
      → Rep c ring v r q a
      → Rep c ring' v r q a
  Rep-written_by v r wr rep = record {
    lanes = rw (wr.slots q ne, wr.reader_word, wr.word q ne) rep.lanes;
    writer_agrees = rep.writer_agrees ∙ sym (wr.word q ne);
    reader_agrees = rep.reader_agrees ∙ ap (lane q) (sym wr.reader_word);
  }

  pub Rep-read :
      (w : RingBufferWriter) {r r' : RingBufferReader}
      → Reads p ring r ring' r'
      → Rep c ring w r q a
      → Rep c ring' w r' q a
  Rep-read w rd rep = record {
    lanes =
        rw (rd.slots q ne, rd.writer_word, rd.word q ne)
          (elim rd.cache [ inl e ↦ rw e rep.lanes | inr e ↦ rw e (refresh_reader rep.lanes) ]);
    writer_agrees = rep.writer_agrees ∙ ap (lane q) (sym rd.writer_word);
    reader_agrees = rd.own_word q ne ∙ rep.reader_agrees ∙ sym (rd.word q ne);
  }

  pub Rep-read_by :
      (w : RingBufferWriter) {r r' : RingBufferReader} (v : RingBufferReader)
      → Reads p ring r ring' r'
      → Rep c ring w v q a
      → Rep c ring' w v q a
  Rep-read_by w v rd rep = record {
    lanes = rw (rd.slots q ne, rd.writer_word, rd.word q ne) rep.lanes;
    writer_agrees = rep.writer_agrees ∙ ap (lane q) (sym rd.writer_word);
    reader_agrees = rep.reader_agrees ∙ sym (rd.word q ne);
  }
