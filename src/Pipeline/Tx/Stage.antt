-- ===== src/Pipeline/Tx/Stage.antt =====
-- src/pipeline/tx.rs: the stage that takes messages of one priority, and how it gets and sends a batch.
use thubo.Prelude.{ℕ, List, [], ◌∷◌, ◌++◌, Option, some, none, Bool, true, false}
use thubo.Protocol.Qos.{Qos}
use thubo.Protocol.SeqNum.{SeqNum}
use thubo.Pipeline.Tx.{WriteBatch, AtomicBackoff, start, clear_backoff}

-- `SendError`
pub data SendError : Type 0 where
  dropped timeout encoding_failed closed internal : SendError

pub record SeqNumPool : Type 0 where
  pub reliable : SeqNum
  pub best_effort : SeqNum
  pub frag_id : SeqNum

-- What one round of the loop that looks for a batch finds: a free batch, at a time in microseconds, and
-- whether the ring takes it; or none, and then the deadline is over, or the wait for a batch ends by a
-- notification, by its timeout, or since the other side is gone.
pub data Round : Type 0 where
  free : WriteBatch → ℕ → Bool → Round
  expired notified timed_out gone : Round

-- The stage, with what it meets: `rounds` to come, whether each notification finds a receiver (those
-- behind the end of the list do), and whether a flush is asked for. `sent` are the batches that were
-- committed, in order; `congested` the drop flags that were set, of which `flags` have been made.
pub record StageInPrio : Type 0 where
  pub seq_num : SeqNumPool
  pub booked : Option WriteBatch
  pub sent : List WriteBatch
  pub backoff : AtomicBackoff
  pub rounds : List Round
  pub receivers : List Bool
  pub flush_flag : Bool
  pub congested : List ℕ
  pub flags : ℕ

-- What a call returns: a value, an error, or nothing yet when the rounds have ended.
pub data Outcome (A : Type 0) : Type 0 where
  ok : A → Outcome A
  err : SendError → Outcome A
  waiting : Outcome A

abbrev pub Run : Type 0 → Type 0
Run A = StageInPrio → Outcome A × StageInPrio

-- `?`
infixl 5 ◌>>=◌ ◌>>◌
abbrev pub ◌>>=◌ : {A B : Type 0} → Run A → (A → Run B) → Run B
◌>>=◌ m f s =
    let (r, s') = m s in elim r [ ok a ↦ f a s' | err e ↦ (err e, s') | waiting ↦ (waiting, s') ]

abbrev pub ◌>>◌ : {B : Type 0} → Run (Unit {0}) → Run B → Run B
m >> k = m >>= λ _. k

abbrev pub pure : {A : Type 0} → A → Run A
pure a s = (ok a, s)

abbrev pub raise : {A : Type 0} → SendError → Run A
raise e s = (err e, s)

abbrev pub modify : (StageInPrio → StageInPrio) → Run (Unit {0})
modify f s = (ok tt, f s)

-- A batch is written in place, in the slot that is booked for it.
abbrev pub store : WriteBatch → Run (Unit {0})
store b = modify (λ s. record s { booked = some b })

-- `set_congested!`
unfoldable pub set_congested : Option ℕ → StageInPrio → StageInPrio
set_congested none s = s
set_congested (some df) s = record s { congested = df ∷ s.congested }

-- The rounds of `batch_or_return!`
unfoldable pub acquire : List Round → Qos → Option ℕ → Run WriteBatch
unfolding set_congested
acquire [] qos df s = (waiting, record s { rounds = [] })
acquire (free b now true ∷ rs) qos df s =
    let b' = record b { qos = qos; drop_flag = df } in
    (ok b', record s { rounds = rs; backoff = start now s.backoff; booked = some b' })
acquire (free b now false ∷ rs) qos df s =
    (err internal, record s { rounds = rs; backoff = start now s.backoff })
acquire (expired ∷ rs) qos df s = (err timeout, set_congested df (record s { rounds = rs }))
acquire (notified ∷ rs) qos df s = acquire rs qos df s
acquire (timed_out ∷ rs) qos df s = (err timeout, set_congested df (record s { rounds = rs }))
acquire (gone ∷ rs) qos df s = (err dropped, set_congested df (record s { rounds = rs }))

-- `batch_or_return!`: the batch that is booked, or a new one.
unfoldable pub batch_or_return : Qos → Option ℕ → Run WriteBatch
unfolding acquire
batch_or_return qos df s = elim s.booked [ some b ↦ (ok b, s) | none ↦ acquire s.rounds qos df s ]

-- `notify`
unfoldable pub notify : Run (Unit {0})
notify s = elim s.receivers [
  | [] ↦ (ok tt, s)
  | true ∷ rs ↦ (ok tt, record s { receivers = rs })
  | false ∷ rs ↦ (err closed, record s { receivers = rs })
]

-- `move_batch!`
unfoldable pub move_batch : WriteBatch → Run (Unit {0})
unfolding notify
move_batch b = do
  modify (λ s. record s {
    backoff = clear_backoff s.backoff;
    booked = none;
    sent = s.sent ++ (b ∷ []);
  })
  notify
