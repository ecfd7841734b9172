-- ===== src/Pipeline/RingBuf/Rep/Publish.antt =====
-- How a writer publishes an index that it has moved or flagged.
use thubo.Prelude.{ℕ, ◌≡◌, ◌≢◌, ◌⊎◌, refl, ap, sym, ◌∙◌}
use thubo.Protocol.Priority
use thubo.Protocol.Priority.{Priority}
use thubo.Pipeline.RingBuf.{Idx, flag_prio, booked_bit, set_flag}
use thubo.Pipeline.RingBuf.Word.{lane, Changes, with_booked, set_flag-Changes}
use thubo.Pipeline.RingBuf.Lane.{Lane}
use thubo.Pipeline.RingBuf.Fifo.{Queue}
use thubo.Pipeline.RingBuf.Ring
use thubo.Pipeline.RingBuf.Ring.{RingBuffer, Update, s, m, set_elem}
use thubo.Pipeline.RingBuf.Writer.{RingBufferWriter}
use thubo.Pipeline.RingBuf.Reader.{RingBufferReader}
use thubo.Pipeline.RingBuf.Rep.{IsSound, Rep, Owns}
use thubo.Pipeline.RingBuf.Rep.Words.{Owns-fits, Owns-lane, update-Changes}
use thubo.Pipeline.RingBuf.Rep.Writing.{Wrote}

-- The state after an index has been published, or a flag set.
pub record Published {T : Type 0} (c : ℕ) (p : Priority) (ring : RingBuffer T) (idx : Idx)
    (u : Update) (ring' : RingBuffer T) (idx' : Idx) (k : ℕ) : Type 0 where
  pub sound : IsSound c ring'
  pub owns : Owns u p idx' ring'.idx_w
  pub same_ptr : ring'.ptr ≡ ring.ptr
  pub reader_word : ring'.idx_r ≡ ring.idx_r
  pub local : Changes p k idx idx'
  pub shared : Changes p k ring.idx_w ring'.idx_w

module _ {T : Type 0} {c : ℕ} {p : Priority} {ring : RingBuffer T} (u : Update) (idx : Idx)
    (sound : IsSound c ring) (owns : Owns u p idx ring.idx_w) where
  pub advanced :
      (k : ℕ) (idx' : Idx)
      → Changes p k idx idx'
      → Published c p ring idx u (record ring { idx_w = Ring.update u p idx' ring.idx_w }) idx' k
  unfolding Ring.capacity
  advanced k idx' ch =
      let (a, b) = update-Changes u p k idx idx' ring.idx_w sound.fits_w owns ch in
      record {
        sound = record {
          cap = sound.cap;
          mask_eq = sound.mask_eq;
          capacity_eq = sound.capacity_eq;
          fits_r = sound.fits_r;
          fits_w = a.fits;
        };
        owns = b;
        same_ptr = refl;
        reader_word = refl;
        local = ch;
        shared = a;
      }

  pub flagged :
      Published c p ring idx u
        (record ring { idx_w = set_flag (flag_prio p booked_bit) ring.idx_w })
        (set_flag (flag_prio p booked_bit) idx)
        (with_booked (lane p idx))
  unfolding Ring.capacity
  flagged =
      let here = set_flag-Changes p idx (Owns-fits u p idx ring.idx_w sound.fits_w owns) in
      let there = set_flag-Changes p ring.idx_w sound.fits_w in
      let same = ap with_booked (Owns-lane u p idx ring.idx_w owns) in
      record {
        sound = record {
          cap = sound.cap;
          mask_eq = sound.mask_eq;
          capacity_eq = sound.capacity_eq;
          fits_r = sound.fits_r;
          fits_w = there.fits;
        };
        owns = both u owns here there same;
        same_ptr = refl;
        reader_word = refl;
        local = here;
        shared = record { own = there.own ∙ sym same; other = there.other; fits = there.fits };
      }
    where
      both :
          (v : Update)
          → Owns v p idx ring.idx_w
          → Changes p (with_booked (lane p idx)) idx (set_flag (flag_prio p booked_bit) idx)
          → Changes p
              (with_booked (lane p ring.idx_w))
              ring.idx_w
              (set_flag (flag_prio p booked_bit) ring.idx_w)
          → with_booked (lane p idx) ≡ with_booked (lane p ring.idx_w)
          → Owns v p
              (set_flag (flag_prio p booked_bit) idx)
              (set_flag (flag_prio p booked_bit) ring.idx_w)
      both s o here there same = ap (set_flag (flag_prio p booked_bit)) o
      both m o here there same = (here.fits, here.own ∙ same ∙ sym there.own)

  pub unchanged : Published c p ring idx u ring idx (lane p idx)
  unchanged = record {
    sound = sound;
    owns = owns;
    same_ptr = refl;
    reader_word = refl;
    local = record {
      own = refl;
      other = λ q ne. refl;
      fits = Owns-fits u p idx ring.idx_w sound.fits_w owns;
    };
    shared = record {
      own = sym (Owns-lane u p idx ring.idx_w owns);
      other = λ q ne. refl;
      fits = sound.fits_w;
    };
  }

-- Two changes of the same lane.
pub Changes-trans :
    (p : Priority) (k l : ℕ) (x y z : Idx) → Changes p k x y → Changes p l y z → Changes p l x z
Changes-trans p k l x y z a b = record {
  own = b.own;
  other = λ q ne. b.other q ne ∙ a.other q ne;
  fits = b.fits;
}

module _ {T : Type 0} {c : ℕ} {p : Priority} {ring : RingBuffer T} {w : RingBufferWriter}
    {r : RingBufferReader} {a : Queue T} (rep : Rep c ring w r p a) where
  -- The storage with or without a write to the slot, then a word that is published.
  pub finish :
      (ring' : RingBuffer T) (w' : RingBufferWriter)
      → ring'.idx_r ≡ ring.idx_r
      → ring'.idx_w ≡ ring.idx_w
      → ((q : Priority) → p ≢ q → Priority.index ring'.ptr q ≡ Priority.index ring.ptr q)
      → w'.local_idx_w ≡ w.local_idx_w
      → w'.update ≡ w.update
      → (w'.cached_idx_r ≡ w.cached_idx_r) ⊎ (w'.cached_idx_r ≡ ring.idx_r)
      → (ring2 : RingBuffer T) (idx : Idx) (k : ℕ)
      → Published c p ring' w'.local_idx_w w'.update ring2 idx k
      → (b : Queue T)
      → Lane c
          (Priority.index ring'.ptr p)
          (lane p ring.idx_r)
          k
          (lane p w'.cached_idx_r)
          (lane p r.cached_idx_w)
          b.items
          b.held
      → Wrote c p ring w r ring2 (record w' { local_idx_w = idx }) b
  finish ring' w' er ew ptrs el eu ec ring2 idx k pb b l = record {
    sound = pb.sound;
    owns = pb.owns;
    same_update = eu;
    writes = record {
      reader_word = pb.reader_word ∙ er;
      slots = λ q ne. ap (λ x. Priority.index x q) pb.same_ptr ∙ ptrs q ne;
      word = λ q ne. pb.shared.other q ne ∙ ap (lane q) ew;
      own_word = λ q ne. pb.local.other q ne ∙ ap (lane q) el;
      cache = ec;
    };
    rep = record {
      lanes = rw (pb.same_ptr, pb.shared.own, pb.reader_word ∙ er) l;
      writer_agrees = pb.local.own ∙ sym pb.shared.own;
      reader_agrees = rep.reader_agrees ∙ ap (lane p) (sym (pb.reader_word ∙ er));
    };
  }
