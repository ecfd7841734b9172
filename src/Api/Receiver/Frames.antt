-- ===== src/Api/Receiver/Frames.antt =====
-- Batches that come in behind their lengths, with keep-alives between them, are pushed one by one.
use thubo.Prelude.{
  ℕ, ◌^◌, ◌<◌, ◌≡◌, refl, ap, sym, ◌∙◌, List, [], ◌∷◌, ◌++◌, some, true, false, ◌==◌, length,
  replicate, arith, append_assoc,
}
use thubo.Buffers.Bytes.{Bytes}
use thubo.Pipeline.Tx.{to_le_bytes}
use thubo.Pipeline.Rx.{
  Defragmentation, decoding_failed, invalid_seq_num, invalid_frag_id, capacity_limit,
  channel_closed, timeout, internal_error,
}
use thubo.Pipeline.Rx.Out.{Shared}
use thubo.Pipeline.Rx.In
use thubo.Pipeline.Rx.In.{Outcome, ok, err, waiting, unsound, push_all}
use thubo.Api.Io.{AsyncRead, IsLawfulRead}
use thubo.Api.Receiver.{
  from_le_bytes, goes_on, State, Log, read_all, logged, receive, after_header, read_task,
}

-- What comes over the stream: a batch, or a keep-alive.
pub data Item : Type 0 where
  batch : List ℕ → Item
  keep_alive : Item

-- A batch stands behind its length.
abbrev pub framed : Item → List ℕ
framed (batch bytes) = to_le_bytes (length bytes) ++ bytes
framed keep_alive = to_le_bytes 0

abbrev pub framed_all : List Item → List ℕ
framed_all [] = []
framed_all (i ∷ is) = framed i ++ framed_all is

-- The batches, as they are pushed.
abbrev pub batches : List Item → List Bytes
batches [] = []
batches (batch bytes ∷ is) = (bytes ∷ []) ∷ batches is
batches (keep_alive ∷ is) = batches is

-- The length of a batch fits its two bytes, and is not that of a keep-alive.
abbrev pub IsItem : Item → Type 0
IsItem (batch bytes) = (0 < length bytes) × (length bytes < 2 ^ 16)
IsItem keep_alive = Unit {0}

abbrev pub AllItems : List Item → Type 0
AllItems [] = Unit {0}
AllItems (i ∷ is) = IsItem i × AllItems is

-- The results of a push after which the task is to read on: `Ok`, and the errors of one message. After the
-- others the receiver is gone or the bytes are not those of a sender.
abbrev pub IsPassing : Outcome → Type 0
IsPassing (ok taken) = Unit {0}
IsPassing (err invalid_seq_num) = Unit {0}
IsPassing (err invalid_frag_id) = Unit {0}
IsPassing (err capacity_limit) = Unit {0}
IsPassing (err timeout) = Unit {0}
IsPassing (err decoding_failed) = ⊥
IsPassing (err channel_closed) = ⊥
IsPassing (err internal_error) = ⊥
IsPassing waiting = ⊥
IsPassing unsound = ⊥

abbrev pub AllPassing : List Outcome → Type 0
AllPassing [] = Unit {0}
AllPassing (o ∷ os) = IsPassing o × AllPassing os

goes_on-IsPassing : (o : Outcome) → IsPassing o → goes_on o ≡ true
unfolding goes_on
goes_on-IsPassing (ok taken) h = refl
goes_on-IsPassing (err invalid_seq_num) h = refl
goes_on-IsPassing (err invalid_frag_id) h = refl
goes_on-IsPassing (err capacity_limit) h = refl
goes_on-IsPassing (err timeout) h = refl
goes_on-IsPassing (err decoding_failed) h = absurd h
goes_on-IsPassing (err channel_closed) h = absurd h
goes_on-IsPassing (err internal_error) h = absurd h
goes_on-IsPassing waiting h = absurd h
goes_on-IsPassing unsound h = absurd h

from_le_bytes-to_le_bytes : (n : ℕ) → from_le_bytes (to_le_bytes n) ≡ n
unfolding from_le_bytes
from_le_bytes-to_le_bytes n = omega arith

module _ {R : Type 0} (io : AsyncRead R) (ahead : R → List ℕ) (l : IsLawfulRead io ahead) where
  read_all_lem :
      (n : ℕ) (xs ys : List ℕ) (r : R)
      → length xs ≡ n
      → 0 < n
      → ahead r ≡ xs ++ ys
      → (read_all io n r ≡ (some xs, (io.read_exact n r).1)) × (ahead (io.read_exact n r).1 ≡ ys)
  unfolding read_all
  read_all_lem n xs ys r size pos e =
      let (f, g) = l.filled xs ys r e in
      let ne : (n == 0) ≡ false = ground arith in
      rw ne (
        ap (λ o. (o, (io.read_exact n r).1)) (ap (λ k. (io.read_exact k r).0) (sym size) ∙ f),
        ap (λ k. ahead (io.read_exact k r).1) (sym size) ∙ g,
      )

  -- A header with a length that is not 0 is followed by a batch.
  after_header-batch :
      (n max : ℕ) (rounds : List In.Round) (r : R) (x : Defragmentation × Shared)
      (rest : State R → Log R)
      → 0 < n
      → after_header io (some (to_le_bytes n), r) max rounds x rest
        ≡ receive io (read_all io n r) max rounds x rest
  unfolding after_header
  after_header-batch n max rounds r x rest pos =
      let e = from_le_bytes-to_le_bytes n in
      let ne : (n == 0) ≡ false = ground arith in rw (e, ne) refl

  logged_on :
      (o : Outcome) (x : Defragmentation × Shared) (r : R) (rest : State R → Log R)
      → goes_on o ≡ true
      → logged io (o, x) r rest ≡ (o ∷ (rest (r, x)).0, (rest (r, x)).1)
  unfolding logged
  logged_on o x r rest e = rw (e, logged) refl

  -- The pushes of these have gone on, and these bytes are left.
  pub record Received (max : ℕ) (is : List Item) (more : List ℕ) (x : Defragmentation × Shared)
      (o : Log R) : Type 0 where
    pub log : o.0 ≡ (push_all max (batches is) x).0
    pub state : o.1.1 ≡ (push_all max (batches is) x).1
    pub left : ahead o.1.0 ≡ more

  -- For a reader that keeps its promises, in front of which are these items, whose batches are of 1 to
  -- 2 ^ 16 - 1 bytes, and then more; if the pushes of the batches, with no wait, all return `Ok` or one
  -- of the errors InvalidSeqNum, InvalidFragId, CapacityLimit and Timeout: as many rounds of the task
  -- as there are items push the batches, in order and with these results, and leave the bytes behind
  -- the items.
  pub read_task-Received :
      (max : ℕ) (is : List Item) (more : List ℕ) (r : R) (x : Defragmentation × Shared)
      → ahead r ≡ framed_all is ++ more
      → AllItems is
      → AllPassing (push_all max (batches is) x).0
      → Received max is more x (read_task io max (replicate (length is) []) (r, x))
  unfolding read_task read_all after_header from_le_bytes receive push_all
  read_task-Received max [] more r x e all on = record { log = refl; state = refl; left = e }
  read_task-Received max (keep_alive ∷ is) more r x e all on =
      let (f, g) = l.filled (to_le_bytes 0) (framed_all is ++ more) r e in
      let i = read_task-Received max is more (io.read_exact 2 r).1 x g all.1 on in
      rw f (record { log = i.log; state = i.state; left = i.left })
  read_task-Received max (batch bytes ∷ is) more r x e all on =
      let n = length bytes in
      let behind = framed_all is ++ more in
      let front =
        e
        ∙ append_assoc (to_le_bytes n ++ bytes) (framed_all is) more
        ∙ append_assoc (to_le_bytes n) bytes behind in
      let (f, g) = l.filled (to_le_bytes n) (bytes ++ behind) r front in
      let r' = (io.read_exact 2 r).1 in
      let (h, k) = read_all_lem n bytes behind r' refl all.0.0 g in
      let r'' = (io.read_exact n r').1 in
      let (o, x') = In.push max [] (bytes ∷ []) x in
      let rest = read_task io max (replicate (length is) []) in
      let i = read_task-Received max is more r'' x' k all.1 on.1 in
      let run : read_task io max (replicate (length (batch bytes ∷ is)) []) (r, x)
          ≡ (o ∷ (rest (r'', x')).0, (rest (r'', x')).1) =
        ap (λ a. after_header io (a, r') max [] x rest) f
        ∙ after_header-batch n max [] r' x rest all.0.0
        ∙ ap (λ a. receive io a max [] x rest) h
        ∙ logged_on o x' r'' rest (goes_on-IsPassing o on.0) in
      rw run (record { log = ap (λ t. o ∷ t) i.log; state = i.state; left = i.left })
