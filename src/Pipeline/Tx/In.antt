-- ===== src/Pipeline/Tx/In.antt =====
-- src/pipeline/tx.rs: the side of the pipeline that applications push to (StageIn, PipelineTxIn).
use thubo.Pipeline.RingBuf.Rep.Storage.{index-index_set_self, index-index_set_ne}
use thubo.Prelude.{
  ◌+◌, ◌-◌, ◌^◌, bit_and, bit_or, not, ◌≡◌, ◌≢◌, ◌⊎◌, inl, inr, refl, Bool, true, false, Bool-cases,
  ◌&&◌, if◌then◌else◌,
}
use thubo.Protocol.CongestionControl.{is_drop}
use thubo.Protocol.Priority
use thubo.Protocol.Priority.{Priority, PerPriority, high, medium, low, background}
use thubo.Protocol.Qos
use thubo.Protocol.Qos.{Qos}
use thubo.Buffers.Bytes.{Bytes}
use thubo.Pipeline.Status
use thubo.Pipeline.Status.{Status}
use thubo.Pipeline.Status.Flags.{set-congested, unset-flush}
use thubo.Pipeline.Tx.Stage.{
  StageInPrio, Outcome, ok, err, waiting, dropped, timeout, encoding_failed, closed, internal, Run,
  ◌>>=◌, pure, raise, notify,
}
use thubo.Pipeline.Tx.Push

pub record PipelineTxIn : Type 0 where
  pub status : Status
  pub priorities : PerPriority StageInPrio

-- The stage sees the flush flag of its priority in the status. A push that has asked for it has taken
-- it back.
unfoldable pub flushed : Priority → Bool → Status → Status
flushed p true status = (Status.unset (Status.flush p) status).1
flushed p false status = status

-- `StageIn::push`: `locked` says whether the lock of the priority is had before the timeout. The closure
-- `flush` reads and takes back the flag of the priority in the status that all stages share.
unfoldable pub push_stage :
    Bool → Bytes → Qos → Status → StageInPrio → Outcome (Unit {0}) × (Status × StageInPrio)
unfolding flushed
push_stage locked msg qos status stage =
    let p = Qos.priority qos in
    let locked_push : Run (Unit {0}) = (do
      to_notify ← Push.push msg qos
      if to_notify then notify else pure tt) in
    let asked = Status.any status (Status.flush p) in
    let (r, s) =
      (if locked then locked_push else raise timeout) (record stage { flush_flag = asked }) in
    (r, (flushed p (asked && not s.flush_flag) status, s))

-- What `inspect_err` does to the status.
unfoldable pub after_push : Outcome (Unit {0}) → Priority → Status → Status
after_push (ok u) p s = s
after_push waiting p s = s
after_push (err dropped) p s = (Status.set (Status.congested p) s).1
after_push (err timeout) p s = (Status.set (Status.congested p) s).1
after_push (err encoding_failed) p s = s
after_push (err closed) p s = s
after_push (err internal) p s = s

-- `PipelineTxIn::push`
unfoldable pub push : Bool → Bytes → Qos → PipelineTxIn → Outcome (Unit {0}) × PipelineTxIn
unfolding after_push
push locked msg qos x =
    let p = Qos.priority qos in
    let (r, (status, s)) = push_stage locked msg qos x.status (Priority.index x.priorities p) in
    if is_drop (Qos.congestion_control qos) && Status.any x.status (Status.congested p)
    then (err dropped, x)
    else (
      r,
      record { status = after_push r p status; priorities = Priority.index_set x.priorities p s },
    )

-- `PipelineTxIn::disable`, when it has the locks of all stages.
unfoldable pub disable : PipelineTxIn → PipelineTxIn
disable x = record {
  status = (Status.set Status.disabled x.status).1;
  priorities = record {
    at_high = (Push.flush x.priorities.at_high).1;
    at_medium = (Push.flush x.priorities.at_medium).1;
    at_low = (Push.flush x.priorities.at_low).1;
    at_background = (Push.flush x.priorities.at_background).1;
  };
}

-- The status behind the push to the stage, which has left it with this flag: as it was, if the flush flag of
-- the priority was not set or has not been asked for; and without it if it was set and has been asked for.
abbrev pub Asked : Priority → Status → Bool → Status → Type 0
Asked p s left t =
    (((Status.any s (Status.flush p) ≡ false) ⊎ (left ≡ true)) × (t ≡ s))
    ⊎ ((Status.any s (Status.flush p) ≡ true)
        × (left ≡ false)
        × (Status.any t (Status.flush p) ≡ false)
        × (t ≡ bit_and s (2 ^ 16 - 1 - 2 ^ (4 + Priority.to_u8 p))))

-- What a push has done: the stage of the priority has taken the message and the others are as they
-- were. The priority is congested after an error by which the message was given up, and else the
-- status is as the stage has left it.
abbrev pub Pushed :
    Priority
    → Outcome (Unit {0}) × (Status × StageInPrio)
    → PipelineTxIn
    → Outcome (Unit {0}) × PipelineTxIn
    → Type 0
Pushed p o x y =
    (y.0 ≡ o.0)
    × (Priority.index y.1.priorities p ≡ o.1.1)
    × ((q : Priority) → p ≢ q → Priority.index y.1.priorities q ≡ Priority.index x.priorities q)
    × Asked p x.status o.1.1.flush_flag o.1.0
    × ((((o.0 ≡ err dropped) ⊎ (o.0 ≡ err timeout))
          × (Status.any y.1.status (Status.congested p) ≡ true)
          × (y.1.status ≡ bit_or o.1.0 (2 ^ Priority.to_u8 p)))
        ⊎ ((o.0 ≢ err dropped) × (o.0 ≢ err timeout) × (y.1.status ≡ o.1.0)))

flag_word :
    (p : Priority) (s : Status)
    → flushed p true s ≡ bit_and s (2 ^ 16 - 1 - 2 ^ (4 + Priority.to_u8 p))
unfolding flushed Status.unset Status.flush Priority.to_u8
flag_word high s = refl
flag_word medium s = refl
flag_word low s = refl
flag_word background s = refl

flushed-Asked :
    (p : Priority) (s : Status) (left : Bool)
    → Asked p s left (flushed p (Status.any s (Status.flush p) && not left) s)
unfolding flushed
flushed-Asked p s true = elim (Bool-cases (Status.any s (Status.flush p))) [
  | inr e ↦ rw e (inl (inr refl, refl))
  | inl e ↦ rw e (inl (inr refl, refl))
]
flushed-Asked p s false = elim (Bool-cases (Status.any s (Status.flush p))) [
  | inr e ↦ rw e (inl (inl refl, refl))
  | inl e ↦ rw e (inr (refl, refl, unset-flush p s, flag_word p s))
]

push_stage-Asked :
    (locked : Bool) (msg : Bytes) (qos : Qos) (s : Status) (stage : StageInPrio)
    → let o = push_stage locked msg qos s stage in Asked (Qos.priority qos) s o.1.1.flush_flag o.1.0
unfolding push_stage
push_stage-Asked locked msg qos s stage = flushed-Asked (Qos.priority qos) s _

congested_word :
    (p : Priority) (s : Status)
    → (Status.set (Status.congested p) s).1 ≡ bit_or s (2 ^ Priority.to_u8 p)
unfolding Status.set Status.congested Priority.to_u8
congested_word high s = refl
congested_word medium s = refl
congested_word low s = refl
congested_word background s = refl

after_push-cases :
    (r : Outcome (Unit {0})) (p : Priority) (s : Status)
    → (((r ≡ err dropped) ⊎ (r ≡ err timeout))
        × (Status.any (after_push r p s) (Status.congested p) ≡ true)
        × (after_push r p s ≡ bit_or s (2 ^ Priority.to_u8 p)))
      ⊎ ((r ≢ err dropped) × (r ≢ err timeout) × (after_push r p s ≡ s))
unfolding after_push
after_push-cases (ok u) p s = inr ((λ e. absurd (cc)), (λ e. absurd (cc)), refl)
after_push-cases waiting p s = inr ((λ e. absurd (cc)), (λ e. absurd (cc)), refl)
after_push-cases (err dropped) p s = inl (inl refl, set-congested p s, congested_word p s)
after_push-cases (err timeout) p s = inl (inr refl, set-congested p s, congested_word p s)
after_push-cases (err encoding_failed) p s = inr ((λ e. absurd (cc)), (λ e. absurd (cc)), refl)
after_push-cases (err closed) p s = inr ((λ e. absurd (cc)), (λ e. absurd (cc)), refl)
after_push-cases (err internal) p s = inr ((λ e. absurd (cc)), (λ e. absurd (cc)), refl)

-- A message that may be dropped, of a priority that is congested, is refused and nothing changes. Any
-- other is pushed to the stage of its priority, and the other stages are left as they are. The push to
-- the stage takes back the flush flag of the priority if that was set and the stage has asked for it,
-- and no other flag. Behind it an error that gives the message up, `Dropped` or `Timeout`, sets the
-- congested flag of the priority and no other, and all else leaves the status as the stage has left it.
pub push-Pushed :
    (locked : Bool) (msg : Bytes) (qos : Qos) (x : PipelineTxIn)
    → let p = Qos.priority qos in
      let refused =
        is_drop (Qos.congestion_control qos) && Status.any x.status (Status.congested p) in
      ((refused ≡ true) × (push locked msg qos x ≡ (err dropped, x)))
      ⊎ ((refused ≡ false)
          × Pushed p
              (push_stage locked msg qos x.status (Priority.index x.priorities p))
              x
              (push locked msg qos x))
unfolding push
push-Pushed locked msg qos x =
    let p = Qos.priority qos in
    let o = push_stage locked msg qos x.status (Priority.index x.priorities p) in
    elim (Bool-cases
      (is_drop (Qos.congestion_control qos) && Status.any x.status (Status.congested p))) [
        | inl e ↦ inl (e, rw e refl)
        | inr e ↦ inr (
          e,
          rw e (
            refl,
            index-index_set_self x.priorities p o.1.1,
            (λ q ne. index-index_set_ne x.priorities p q o.1.1 ne),
            push_stage-Asked locked msg qos x.status (Priority.index x.priorities p),
            after_push-cases o.0 p o.1.0,
          ),
        )
      ]
