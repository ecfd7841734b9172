-- ===== src/Tests/Entry.antt =====
-- Concrete pushes and pulls, and the theorems on the ends of the sending stage applied.
use thubo.Prelude.{◌≤◌, ◌≡◌, ◌⊎◌, [], ◌∷◌, none, true, false, ◌&&◌, arith}
use thubo.Protocol.CongestionControl.{is_drop}
use thubo.Protocol.Priority
use thubo.Protocol.Qos
use thubo.Buffers.Bytes.{Bytes}
use thubo.Pipeline.Status
use thubo.Pipeline.Tx.Stage.{StageInPrio, err, dropped, timed_out}
use thubo.Pipeline.Tx.Push.Steps.{at_rest}
use thubo.Pipeline.Tx.In.{PipelineTxIn, push, push_stage, Pushed, push-Pushed}
use thubo.Pipeline.Tx.Refill.{pulls, made, made-pulls}

-- The first wait for a batch times out.
abbrev stage : StageInPrio
stage =
    at_rest (record { reliable = 0; best_effort = 0; frag_id = 0 }) [] 0 (timed_out ∷ []) false [] 0

abbrev entry : PipelineTxIn
entry = record {
  status = 0;
  priorities = record { at_high = stage; at_medium = stage; at_low = stage; at_background = stage };
}

abbrev hello : Bytes
hello = (104 ∷ 105 ∷ []) ∷ []

push-Pushed_example :
    (((is_drop (Qos.congestion_control 5) && Status.any 0 (Status.congested (Qos.priority 5)))
        ≡ true)
      × (push true hello 5 entry ≡ (err dropped, entry)))
    ⊎ (((is_drop (Qos.congestion_control 5) && Status.any 0 (Status.congested (Qos.priority 5)))
          ≡ false)
        × Pushed
            (Qos.priority 5)
            (push_stage true hello 5 0 (Priority.index entry.priorities (Qos.priority 5)))
            entry
            (push true hello 5 entry))
push-Pushed_example = push-Pushed true hello 5 entry

made-pulls_example :
    made
      (none ∷ none ∷ [])
      (pulls (none ∷ none ∷ []) (record { capacity = 1; allocated = 0; batch_size = 30 })).0
    ≤ 1
made-pulls_example = made-pulls 1 30 (none ∷ none ∷ []) (omega arith)
