-- ===== src/Pipeline/Tx/Push/Stream.antt =====
-- The batches of a stage as a stream of messages.
use thubo.Prelude.{
  ℕ, ◌≡◌, refl, ap, ◌⊎◌, inl, inr, List, [], ◌∷◌, ◌++◌, map, Option, some, none, Bool, true, false,
  length, append_assoc,
}
use thubo.Protocol.Priority.{Priority}
use thubo.Protocol.Qos
use thubo.Protocol.Qos.{Qos}
use thubo.Protocol.SeqNum
use thubo.Protocol.SeqNum.{SeqNum, IsSeqNum}
use thubo.Protocol.Message.{first}
use thubo.Codec.Values.RoundTrip.{encode_slice}
use thubo.Codec.Vle.Encoding.{IsU64}
use thubo.Pipeline.Rx.Fragment.{IsFragment}
use thubo.Pipeline.Rx.Reassembly.{Tail}
use thubo.Pipeline.Rx.Out.View.{Received, tagged}
use thubo.Pipeline.Tx.{WriteBatch, update, len}
use thubo.Pipeline.Tx.Packed.{Packed, Packed-IsReady}
use thubo.Pipeline.Tx.Ready.{AllReady, AllReady-append}
use thubo.Pipeline.Tx.Stage.{StageInPrio, ok, move_batch, notify}
use thubo.Pipeline.Tx.Push.{return_notify, to_move}
use thubo.Pipeline.Tx.Push.Steps.{payload}
use thubo.Pipeline.Tx.Push.Pool.{IsPool}
use thubo.Pipeline.Tx.Push.Rest.{all_free, AllFresh}

-- Batches that carry messages of priority `p`: frames with several, and messages in fragments.
pub data Carried (p : Priority) : List WriteBatch → List Received → Type 0 where
  no_more : Carried p [] []
  framed :
      (b : WriteBatch) (bs : List WriteBatch) (ms : List (List ℕ)) (out : List Received)
      → Qos.priority b.qos ≡ p
      → Packed b ms
      → Carried p bs out
      → Carried p (b ∷ bs) (tagged b.qos ms ++ out)
  split :
      (q : Qos) (id seq : SeqNum) (head second : WriteBatch) (others bs : List WriteBatch)
      (x xs m : List ℕ) (out : List Received)
      → Qos.priority q ≡ p
      → IsSeqNum id
      → IsSeqNum seq
      → IsFragment q first id seq (payload head) x
      → Tail q id (SeqNum.next seq) (payload second) (map payload others) xs
      → x ++ xs ≡ encode_slice m
      → IsU64 (length m)
      → AllReady (head ∷ second ∷ others)
      → Carried p bs out
      → Carried p ((head ∷ second ∷ others) ++ bs) ((m, q) ∷ out)

pub Carried-append :
    (p : Priority) (bs cs : List WriteBatch) (out more : List Received)
    → Carried p bs out
    → Carried p cs more
    → Carried p (bs ++ cs) (out ++ more)
Carried-append p _ cs _ more no_more c = c
Carried-append p _ cs _ more (framed b bs ms out e k rest) c =
    rw (append_assoc (tagged b.qos ms) out more)
      (framed b (bs ++ cs) ms (out ++ more) e k (Carried-append p bs cs out more rest c))
Carried-append p _ cs _ more
      (split q id seq head second others bs x xs m out e hid hseq f t w u r rest) c =
    rw (append_assoc others bs cs) (
      split q id seq head second others (bs ++ cs) x xs m (out ++ more) e hid hseq f t w u r
        (Carried-append p bs cs out more rest c))

-- They can all be sent.
pub Carried-AllReady :
    (p : Priority) (bs : List WriteBatch) (out : List Received) → Carried p bs out → AllReady bs
Carried-AllReady p _ out no_more = tt
Carried-AllReady p _ _ (framed b bs ms out e k rest) =
    (Packed-IsReady b ms k, Carried-AllReady p bs out rest)
Carried-AllReady p _ _ (split q id seq head second others bs x xs m out e hid hseq f t w u r rest) =
    AllReady-append (head ∷ second ∷ others) bs r (Carried-AllReady p bs out rest)

-- The batch that is booked, if there is one, holds these.
abbrev pub Booked : Priority → Option WriteBatch → List Received → Type 0
Booked p none out = out ≡ []
Booked p (some b) out =
    (ms : List (List ℕ)) × (out ≡ tagged b.qos ms) × (Qos.priority b.qos ≡ p) × Packed b ms

-- The stage has taken the messages `out`: those that were sent, and those of the booked batch. What it
-- meets are free batches, and its notifications find a receiver.
pub record Stage (p : Priority) (frees : List (WriteBatch × ℕ)) (out : List Received)
    (s : StageInPrio) : Type 0 where
  pub rounds_eq : s.rounds ≡ all_free frees
  pub receivers_eq : s.receivers ≡ []
  pub fresh : AllFresh frees
  pub pool : IsPool s.seq_num
  pub done : List Received
  pub held : List Received
  pub out_eq : out ≡ done ++ held
  pub sent : Carried p s.sent done
  pub booked : Booked p s.booked held

-- The two ends of `return_notify`: the batch is sent, or it stays booked.
abbrev Returned : Qos → WriteBatch → StageInPrio → Type 0
Returned qos b s =
    (flag : Bool) × (back : ℕ) × ((return_notify qos b s ≡ (
      ok false,
      record s { flush_flag = flag; backoff = back; booked = none; sent = s.sent ++ (b ∷ []) },
    ))
      ⊎ (return_notify qos b s ≡ (ok true, record s { flush_flag = flag; backoff = back })))

pub return_notify-cases :
    (qos : Qos) (b : WriteBatch) (s : StageInPrio) → s.receivers ≡ [] → Returned qos b s
unfolding return_notify to_move move_batch notify
return_notify-cases qos b s e =
    let same : s ≡ record s { receivers = [] } = ap (λ r. record s { receivers = r }) e in
    rw same (go (Qos.express qos) refl s.flush_flag)
  where
    go :
        (x : Bool)
        → Qos.express qos ≡ x
        → (y : Bool) → Returned qos b (record s { receivers = []; flush_flag = y })
    go true f y = (y, 0, inl (rw f refl))
    go false f true = (false, 0, inl (rw f refl))
    go false f false = (false, update (len b) s.backoff, inr (rw f refl))
