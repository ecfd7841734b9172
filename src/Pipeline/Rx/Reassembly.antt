-- ===== src/Pipeline/Rx/Reassembly.antt =====
-- The fragments of a message, pushed in order, give the message back.
use thubo.Prelude.{
  ℕ, zero, suc, ◌+◌, ◌≤◌, ◌≡◌, refl, ap, ◌∙◌, List, [], ◌∷◌, ◌++◌, arith, length, replicate,
  length-append, append_assoc,
}
use thubo.Protocol.Qos.{Qos}
use thubo.Protocol.SeqNum
use thubo.Protocol.SeqNum.{SeqNum, IsSeqNum}
use thubo.Protocol.SeqNum.Order.{advance, next-IsSeqNum}
use thubo.Protocol.Message.{FragmentKind, first, more, last, new_fragment, new_header}
use thubo.Buffers.Interface.{joined}
use thubo.Buffers.Bytes
use thubo.Buffers.Bytes.{Bytes, BytesReader, reader, len, remaining, view_from, bytes_reader}
use thubo.Buffers.Bytes.Cursor.{NonEmpty, len-joined}
use thubo.Buffers.Bytes.View.{joined-extend, NonEmpty-extend}
use thubo.Pipeline.Rx.Slots.{get_buffer-set_buffer, set_buffer_twice}
use thubo.Pipeline.Rx.{
  DefragBuffer, Defragmentation, Step, stored, complete, get_buffer, set_buffer, push_fragment,
  push, push_all,
}
use thubo.Pipeline.Rx.Fragment.{
  IsFragment, waiting, push-IsFragment, push_first_lem, push_more_lem, push_last_lem,
}

-- The fragments of a message but the first: the last one, behind any number of others, with
-- consecutive numbers. The last index is their payload.
pub data Tail (q : Qos) (id : SeqNum) : SeqNum → Bytes → List Bytes → List ℕ → Type 0 where
  end_with :
      (seq : SeqNum) (b : Bytes) (p : List ℕ) → IsFragment q last id seq b p → Tail q id seq b [] p
  go_on :
      (seq : SeqNum) (b b' : Bytes) (bs : List Bytes) (p ps : List ℕ)
      → IsFragment q more id seq b p
      → Tail q id (SeqNum.next seq) b' bs ps
      → Tail q id seq b (b' ∷ bs) (p ++ ps)

advance-next : (k : ℕ) (s : SeqNum) → advance k (SeqNum.next s) ≡ advance (suc k) s
advance-next zero s = refl
advance-next (suc k) s = ap SeqNum.next (advance-next k s)

-- What `push` does with a fragment, once its step on the buffer is known.
push-step :
    (max : ℕ) (q : Qos) (k : FragmentKind) (id seq start : SeqNum) (b : Bytes)
    (d d' : Defragmentation) (buf buf' : DefragBuffer) (step : Step)
    → push max b d' ≡ (
        let (s, u) =
          push_fragment max start b (new_header q seq) (new_fragment k id) (get_buffer q d') in
        (s, set_buffer q u d'))
    → d' ≡ set_buffer q buf d
    → push_fragment max start b (new_header q seq) (new_fragment k id) buf ≡ (step, buf')
    → push max b d' ≡ (step, set_buffer q buf' d)
push-step max q k id seq start b d d' buf buf' step e same f =
    let at : get_buffer q d' ≡ buf = ap (get_buffer q) same ∙ get_buffer-set_buffer q buf d in
    let run = push_fragment max start b (new_header q seq) (new_fragment k id) in
    let result : run (get_buffer q d') ≡ (step, buf') = ap run at ∙ f in
    e
    ∙ ap (λ t. (t.0, set_buffer q t.1 d')) result
    ∙ ap (λ t. (step, set_buffer q buf' t)) same
    ∙ ap (λ t. (step, t)) (set_buffer_twice q buf buf' d)

-- One more batch of several.
push_all-cons :
    (max : ℕ) (b : Bytes) (bs : List Bytes) (d d' d'' : Defragmentation) (step : Step)
    (steps : List Step)
    → push max b d ≡ (step, d')
    → push_all max bs d' ≡ (steps, d'')
    → push_all max (b ∷ bs) d ≡ (step ∷ steps, d'')
unfolding push_all
push_all-cons max b bs d d' d'' step steps e f =
    ap (λ t. (t.0 ∷ (push_all max bs t.1).0, (push_all max bs t.1).1)) e
    ∙ ap (λ t. (step ∷ t.0, t.1)) f

abbrev pub whole_message : Qos → Bytes → Step
whole_message q bytes = complete (record { bytes = bytes; qos = q; slice = 0; byte = 0 })

-- What comes of the fragments behind some that are stored.
abbrev Rest :
    ℕ → Qos → SeqNum → SeqNum → Bytes → List Bytes → List ℕ → Bytes → Defragmentation → Type 0
Rest max q id seq b bs ps acc d =
    (bytes : Bytes) × NonEmpty bytes
    × (joined bytes ≡ joined acc ++ ps)
    × (push_all max (b ∷ bs) (set_buffer q (waiting seq id acc) d) ≡ (
      replicate (length bs) stored ++ (whole_message q bytes ∷ []),
      set_buffer q (waiting (advance (suc (length bs)) seq) id []) d,
    ))

push_all-Tail :
    (max : ℕ) (q : Qos) (id seq : SeqNum) (b : Bytes) (bs : List Bytes) (ps : List ℕ) (acc : Bytes)
    (d : Defragmentation)
    → IsSeqNum id
    → IsSeqNum seq
    → Tail q id seq b bs ps
    → NonEmpty acc
    → length (joined acc) + length ps ≤ max
    → Rest max q id seq b bs ps acc d
unfolding push_all
push_all-Tail max q id _ _ _ _ acc d hid hseq (end_with seq b p f) ne fits =
    let d' = set_buffer q (waiting seq id acc) d in
    let (start, view, got, bytes, e) = push-IsFragment max q last id seq b p d' hid hseq f in
    let room : len acc + len view ≤ max =
      omega (arith, len-joined acc, len-joined view, ap length bytes) in
    let step =
      push-step max q last id seq start b d d' (waiting seq id acc) _ _ e refl
        (push_last_lem max start q id seq b view got acc room) in
    (
      Bytes.extend acc view,
      NonEmpty-extend acc view ne,
      joined-extend acc view ∙ ap (λ t. joined acc ++ t) bytes,
      push_all-cons max b [] d' _ _ _ [] step refl,
    )
push_all-Tail max q id _ _ _ _ acc d hid hseq (go_on seq b b' bs' p ps' f tail) ne fits =
    let d' = set_buffer q (waiting seq id acc) d in
    let (start, view, got, bytes, e) = push-IsFragment max q more id seq b p d' hid hseq f in
    let size = length-append p ps' in
    let room : len acc + len view ≤ max =
      omega (arith, len-joined acc, len-joined view, ap length bytes) in
    let step =
      push-step max q more id seq start b d d' (waiting seq id acc) _ _ e refl
        (push_more_lem max start q id seq b view got acc room) in
    let acc' = Bytes.extend acc view in
    let sum : joined acc' ≡ joined acc ++ p =
      joined-extend acc view ∙ ap (λ t. joined acc ++ t) bytes in
    let (whole, full, all, run) =
      push_all-Tail max q id (SeqNum.next seq) b' bs' ps' acc' d hid (next-IsSeqNum seq hseq) tail
        (NonEmpty-extend acc view ne)
        (omega (arith, ap length sum, length-append (joined acc) p)) in
    (
      whole,
      full,
      all ∙ ap (λ t. t ++ ps') sum ∙ append_assoc (joined acc) p ps',
      push_all-cons max b (b' ∷ bs') d' _ _ _ _ step run
          ∙ ap
              (λ t. (
                stored ∷ (replicate (length bs') stored ++ (whole_message q whole ∷ [])),
                set_buffer q (waiting t id []) d,
              ))
              (advance-next (suc (length bs')) seq),
    )

-- For the fragments of a message, the first and then the others with consecutive numbers, whose
-- payloads keep within the limit: `push` of one after the other stores all but the last, and the last
-- gives a batch whose bytes, in chunks that are not empty, are the payloads in order, with the QoS of
-- the fragments and read from the start. This holds whatever the reassembly buffers held before. Only
-- the buffer of that QoS changes, and it is left empty.
pub push_all-fragments :
    (max : ℕ) (q : Qos) (id seq : SeqNum) (b b' : Bytes) (bs : List Bytes) (p ps : List ℕ)
    (d : Defragmentation)
    → IsSeqNum id
    → IsSeqNum seq
    → IsFragment q first id seq b p
    → Tail q id (SeqNum.next seq) b' bs ps
    → length (p ++ ps) ≤ max
    → (bytes : Bytes) × NonEmpty bytes
      × (joined bytes ≡ p ++ ps)
      × (push_all max (b ∷ b' ∷ bs) d ≡ (
        stored ∷ (replicate (length bs) stored ++ (whole_message q bytes ∷ [])),
        set_buffer q
            (record { seq_num = advance (suc (suc (length bs))) seq; frag_id = id; buffer = [] })
            d,
      ))
push_all-fragments max q id seq b b' bs p ps d hid hseq f tail fits =
    let (start, view, got, bytes, e) = push-IsFragment max q first id seq b p d hid hseq f in
    let size = length-append p ps in
    let run =
      push_first_lem max start q id seq b view got (get_buffer q d)
        (omega (arith, len-joined view, ap length bytes)) in
    let acc = Bytes.extend [] view in
    let sum : joined acc ≡ p = joined-extend [] view ∙ bytes in
    let step : push max b d ≡ (stored, set_buffer q (waiting (SeqNum.next seq) id acc) d) =
      e ∙ ap (λ t. (t.0, set_buffer q t.1 d)) run in
    let (whole, full, all, more_steps) =
      push_all-Tail max q id (SeqNum.next seq) b' bs ps acc d hid (next-IsSeqNum seq hseq) tail
        (NonEmpty-extend [] view tt) (omega (arith, ap length sum)) in
    (
      whole,
      full,
      all ∙ ap (λ t. t ++ ps) sum,
      push_all-cons max b (b' ∷ bs) d _ _ _ _ step more_steps
          ∙ ap
              (λ t. (
                stored ∷ (replicate (length bs) stored ++ (whole_message q whole ∷ [])),
                set_buffer q (waiting t id []) d,
              ))
              (advance-next (suc (length bs)) seq),
    )
