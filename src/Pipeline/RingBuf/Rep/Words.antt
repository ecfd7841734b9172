-- ===== src/Pipeline/RingBuf/Rep/Words.antt =====
-- How an index that a handle has moved is published.
use thubo.Prelude.{ℕ, ◌≡◌, refl, ap, sym, ◌∙◌}
use thubo.Protocol.Priority.{Priority}
use thubo.Pipeline.RingBuf.{Idx}
use thubo.Pipeline.RingBuf.Word.{IsIdx, lane, Changes, merge-Changes}
use thubo.Pipeline.RingBuf.Ring.{Update, s, m, update}
use thubo.Pipeline.RingBuf.Rep.{Owns}

pub Owns-fits : (u : Update) (p : Priority) (x y : Idx) → IsIdx y → Owns u p x y → IsIdx x
Owns-fits s p x y h o = rw o h
Owns-fits m p x y h o = o.0

pub Owns-lane : (u : Update) (p : Priority) (x y : Idx) → Owns u p x y → lane p x ≡ lane p y
Owns-lane s p x y o = ap (lane p) o
Owns-lane m p x y o = o.1

pub update-Changes :
    (u : Update) (p : Priority) (k : ℕ) (x x' y : Idx)
    → IsIdx y
    → Owns u p x y
    → Changes p k x x'
    → Changes p k y (update u p x' y) × Owns u p x' (update u p x' y)
unfolding update
update-Changes s p k x x' y h o ch =
    (record { own = ch.own; other = λ q ne. ch.other q ne ∙ ap (lane q) o; fits = ch.fits }, refl)
update-Changes m p k x x' y h o ch =
    let merged = merge-Changes p x' y ch.fits h in
    (
      record { own = merged.own ∙ ch.own; other = merged.other; fits = merged.fits },
      (ch.fits, sym merged.own),
    )
