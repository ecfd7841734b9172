-- ===== src/Tests/Rings.antt =====
-- Concrete ring buffers, and the theorems on them applied.
use thubo.Prelude.{ℕ, ◌≡◌, ◌⊎◌, refl, List, [], ◌∷◌, some, none, arith}
use thubo.Protocol.Priority.{high, medium, low}
use thubo.Pipeline.RingBuf.{merge}
use thubo.Pipeline.RingBuf.Slots.{IsCap}
use thubo.Pipeline.RingBuf.Word.{Changes, lane, merge-Changes}
use thubo.Pipeline.RingBuf.Ring
use thubo.Pipeline.RingBuf.Rep.Start.{fresh, new-cases}
use thubo.Pipeline.RingBuf.Mpsc
use thubo.Pipeline.RingBuf.Mpsc.{handles, no_elements}
use thubo.Pipeline.RingBuf.Mpsc.View.{MpscView}
use thubo.Pipeline.RingBuf.Mpsc.Run.{mpsc-run}
use thubo.Pipeline.RingBuf.Spsc
use thubo.Pipeline.RingBuf.Spsc.{ends}
use thubo.Pipeline.RingBuf.Spsc.View.{SpscView, spsc-run}

-- A batch is booked, changed and committed; one that does not fit is given back.
abbrev batches : List (Mpsc.Call ℕ)
batches =
    Mpsc.book low 5
    ∷ Mpsc.pull_priority low
    ∷ Mpsc.modify low 6
    ∷ Mpsc.commit low
    ∷ Mpsc.book low 7
    ∷ Mpsc.pull
    ∷ Mpsc.book low 8
    ∷ Mpsc.pull_priority medium
    ∷ []

abbrev messages : List (Spsc.Call ℕ)
messages =
    Spsc.push low 5 ∷ Spsc.push high 6 ∷ Spsc.push high 7 ∷ Spsc.pull ∷ Spsc.pull ∷ Spsc.pull ∷ []

mpsc-run_example :
    ((Mpsc.run batches (handles (fresh 1))).0 ≡ (Mpsc.fifo_run 1 batches no_elements).0)
    × MpscView 1 (Mpsc.run batches (handles (fresh 1))).1 (Mpsc.fifo_run 1 batches no_elements).1
unfolding Mpsc.ringbuffer_mpsc Ring.new
mpsc-run_example = mpsc-run 1 batches (handles (fresh 1)) refl

spsc-run_example :
    ((Spsc.run messages (ends (fresh 1))).0 ≡ (Spsc.fifo_run 1 messages no_elements).0)
    × SpscView 1 (Spsc.run messages (ends (fresh 1))).1 (Spsc.fifo_run 1 messages no_elements).1
unfolding Spsc.ringbuffer_spsc Ring.new
spsc-run_example = spsc-run 1 messages (ends (fresh 1)) refl

new-cases_example :
    (IsCap 8 × (Ring.new {T = ℕ} 8 ≡ some (fresh 8)))
    ⊎ ((IsCap 8 → ⊥) × (Ring.new {T = ℕ} 8 ≡ none))
new-cases_example = new-cases 8

merge-Changes_example :
    Changes medium (lane medium 131072) 4294967299 (merge medium 131072 4294967299)
merge-Changes_example = merge-Changes medium 131072 4294967299 (omega arith) (omega arith)
