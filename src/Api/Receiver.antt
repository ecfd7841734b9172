-- ===== src/Api/Receiver.antt =====
-- src/api/receiver.rs: the task that reads batches from the network.
pub mod Frames
use thubo.Prelude.{
  ℕ, zero, suc, ◌+◌, ◌*◌, List, [], ◌∷◌, Option, some, none, Bool, true, false, if◌then◌else◌, ◌==◌,
}
use thubo.Pipeline.Rx.{
  Defragmentation, SendError, decoding_failed, invalid_seq_num, invalid_frag_id, capacity_limit,
  channel_closed, timeout, internal_error,
}
use thubo.Pipeline.Rx.Out.{Shared}
use thubo.Pipeline.Rx.In
use thubo.Pipeline.Rx.In.{Outcome, ok, err, waiting, unsound}
use thubo.Api.Io.{AsyncRead}

-- `BatchSize::from_le_bytes` of two bytes
unfoldable pub from_le_bytes : List ℕ → ℕ
from_le_bytes [] = 0
from_le_bytes (a ∷ []) = 0
from_le_bytes (a ∷ b ∷ rest) = a + 256 * b

-- Whether the task goes on after a push: not on an error that ends it, nor when the push does not return.
unfoldable pub goes_on : Outcome → Bool
goes_on (ok taken) = true
goes_on (err invalid_seq_num) = true
goes_on (err invalid_frag_id) = true
goes_on (err capacity_limit) = true
goes_on (err timeout) = true
goes_on (err decoding_failed) = false
goes_on (err channel_closed) = false
goes_on (err internal_error) = false
goes_on waiting = false
goes_on unsound = false

abbrev pub State : Type 0 → Type 0
State R = R × (Defragmentation × Shared)

-- The results of the pushes, and the state in the end.
abbrev pub Log : Type 0 → Type 0
Log R = List Outcome × State R

module _ {R : Type 0} (io : AsyncRead R) where
  -- `read_all!`; `none` is a `break`.
  unfoldable pub read_all : ℕ → R → Option (List ℕ) × R
  read_all n r = let (o, r') = io.read_exact n r in if n == 0 then (none, r') else (o, r')

  unfoldable pub logged : Outcome × (Defragmentation × Shared) → R → (State R → Log R) → Log R
  unfolding goes_on
  logged (o, x) r rest = elim (goes_on o) [
    | true ↦ (o ∷ (rest (r, x)).0, (rest (r, x)).1)
    | false ↦ (o ∷ [], (r, x))
  ]

  -- The bytes fill the front of a buffer, of which the chunk is the view.
  unfoldable pub receive :
      Option (List ℕ) × R → ℕ → List In.Round → Defragmentation × Shared → (State R → Log R) → Log R
  unfolding logged In.push
  receive (none, r) max rounds x rest = ([], (r, x))
  receive (some bytes, r) max rounds x rest = logged (In.push max rounds (bytes ∷ []) x) r rest

  unfoldable pub after_header :
      Option (List ℕ) × R → ℕ → List In.Round → Defragmentation × Shared → (State R → Log R) → Log R
  unfolding from_le_bytes read_all receive
  after_header (none, r) max rounds x rest = ([], (r, x))
  after_header (some header, r) max rounds x rest =
      let len = from_le_bytes header in
      if len == 0 then rest (r, x) else receive (read_all len r) max rounds x rest

  -- The loop of `read_task`, a round for each element of the list, which are the waits of its `push`.
  unfoldable pub read_task : ℕ → List (List In.Round) → State R → Log R
  unfolding after_header
  read_task max [] (r, x) = ([], (r, x))
  read_task max (rounds ∷ more) (r, x) =
      after_header (read_all 2 r) max rounds x (read_task max more)
