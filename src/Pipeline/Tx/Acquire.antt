-- ===== src/Pipeline/Tx/Acquire.antt =====
-- How the search for a batch ends.
use thubo.Prelude.{ℕ, ◌≡◌, List, [], ◌∷◌, Option, some, none, true, false}
use thubo.Protocol.Qos.{Qos}
use thubo.Pipeline.Tx.{WriteBatch}
use thubo.Pipeline.Tx.Stage.{
  StageInPrio, Round, free, expired, notified, timed_out, gone, Outcome, ok, err, waiting, timeout,
  dropped, internal,
}

-- What ends the search: the first round that is more than a notification.
abbrev pub end_of : List Round → Option Round
end_of [] = none
end_of (free b now has_room ∷ rs) = some (free b now has_room)
end_of (expired ∷ rs) = some expired
end_of (notified ∷ rs) = end_of rs
end_of (timed_out ∷ rs) = some timed_out
end_of (gone ∷ rs) = some gone

-- The drop flags that are set, with the one of the message, if it has one.
abbrev pub flagged : Option ℕ → List ℕ → List ℕ
flagged none fs = fs
flagged (some f) fs = f ∷ fs

-- The result, the booked batch and the drop flags, for each end of the search.
abbrev pub Found :
    Qos → Option ℕ → List ℕ → Option Round → Outcome WriteBatch × StageInPrio → Type 0
Found qos df fs (some (free b now true)) o =
    (o.0 ≡ ok (record b { qos = qos; drop_flag = df }))
    × (o.1.booked ≡ some (record b { qos = qos; drop_flag = df }))
    × (o.1.congested ≡ fs)
Found qos df fs (some (free b now false)) o =
    (o.0 ≡ err internal) × (o.1.booked ≡ none) × (o.1.congested ≡ fs)
Found qos df fs (some expired) o =
    (o.0 ≡ err timeout) × (o.1.booked ≡ none) × (o.1.congested ≡ flagged df fs)
Found qos df fs (some timed_out) o =
    (o.0 ≡ err timeout) × (o.1.booked ≡ none) × (o.1.congested ≡ flagged df fs)
Found qos df fs (some gone) o =
    (o.0 ≡ err dropped) × (o.1.booked ≡ none) × (o.1.congested ≡ flagged df fs)
Found qos df fs (some notified) o = ⊥
Found qos df fs none o = (o.0 ≡ waiting) × (o.1.booked ≡ none) × (o.1.congested ≡ fs)

-- Nothing is sent, the numbers are kept, and the rest is what the end of the search makes it.
abbrev pub Acquired : Qos → Option ℕ → StageInPrio → Outcome WriteBatch × StageInPrio → Type 0
Acquired qos df s o =
    (o.1.sent ≡ s.sent) × (o.1.seq_num ≡ s.seq_num) × Found qos df s.congested (end_of s.rounds) o
