-- ===== src/Api/Link.antt =====
-- src/api: both tasks, with the byte stream between them.
pub mod Served
pub mod Order
use thubo.Prelude.{
  ℕ, suc, ◌+◌, ◌-◌, ◌%◌, ◌^◌, ◌≤◌, ◌<◌, ◌≡◌, refl, ap, ap₂, sym, ◌∙◌, List, [], ◌∷◌, ◌++◌, map,
  true, length, replicate, drop, take, arith, append_assoc, append-nil, length-append, length-drop,
  length-take,
}
use thubo.Buffers.BoxBuf.{as_slice}
use thubo.Buffers.BoxBuf.Lawful.{IsValid}
use thubo.Buffers.Bytes
use thubo.Buffers.Bytes.Cursor.{len-joined}
use thubo.Buffers.Interface.{joined}
use thubo.Pipeline.Tx.{WriteBatch, batch_len, len, write_len, to_le_bytes}
use thubo.Pipeline.Tx.Ready.{IsReady, AllReady}
use thubo.Pipeline.Tx.Batch.{as_slice-write_len}
use thubo.Pipeline.Tx.Packed.{length-as_slice}
use thubo.Pipeline.Tx.Push.Steps.{payload}
use thubo.Api.Sender.Wire.{wire}
use thubo.Api.Sender.Rounds.{Out, sent, keep_alive, wire_out, AllFrames}
use thubo.Api.Receiver.Frames
use thubo.Api.Receiver.Frames.{Item, framed, framed_all, IsItem, AllItems, batches}

-- What the two tasks see of the same: a batch of the stage, which `pull` writes the length of, or a
-- keep-alive.
pub data Parcel : Type 0 where
  ready : WriteBatch → Parcel
  alive : Parcel

abbrev pub out_of : List Parcel → List Out
out_of [] = []
out_of (ready b ∷ us) = sent (write_len b) ∷ out_of us
out_of (alive ∷ us) = keep_alive ∷ out_of us

abbrev pub bytes_of : WriteBatch → List ℕ
bytes_of b = drop batch_len (as_slice b.frame) ++ joined b.fragment

abbrev pub item_of : List Parcel → List Item
item_of [] = []
item_of (ready b ∷ us) = Frames.batch (bytes_of b) ∷ item_of us
item_of (alive ∷ us) = Frames.keep_alive ∷ item_of us

abbrev pub batches_of : List Parcel → List WriteBatch
batches_of [] = []
batches_of (ready b ∷ us) = b ∷ batches_of us
batches_of (alive ∷ us) = batches_of us

length-bytes_of :
    (b : WriteBatch)
    → length (bytes_of b) ≡ length (drop batch_len (as_slice b.frame)) + length (joined b.fragment)
length-bytes_of b = length-append (drop batch_len (as_slice b.frame)) (joined b.fragment)

len-IsReady : (b : WriteBatch) → IsReady b → len b ≡ length (bytes_of b)
unfolding len
len-IsReady b r = omega (
  arith,
  length-bytes_of b,
  r.small,
  len-joined b.fragment,
  length-drop batch_len (as_slice b.frame),
  length-as_slice b.frame r.valid,
  r.long,
)

wire-write_len :
    (b : WriteBatch) → IsReady b → wire (write_len b) ≡ framed (Frames.batch (bytes_of b))
unfolding write_len
wire-write_len b r =
    ap (λ l. l ++ joined b.fragment)
      (as_slice-write_len b r.valid (omega (arith, r.long, length-as_slice b.frame r.valid)))
    ∙ ap (λ n. (to_le_bytes n ++ drop batch_len (as_slice b.frame)) ++ joined b.fragment)
        (len-IsReady b r)

pub wire_out-framed_all :
    (us : List Parcel) → AllReady (batches_of us) → wire_out (out_of us) ≡ framed_all (item_of us)
wire_out-framed_all [] r = refl
wire_out-framed_all (ready b ∷ us) r =
    ap₂ (λ x y. x ++ y) (wire-write_len b r.0) (wire_out-framed_all us r.1)
wire_out-framed_all (alive ∷ us) r = ap (λ l. to_le_bytes 0 ++ l) (wire_out-framed_all us r)

pub item_of-AllItems : (us : List Parcel) → AllReady (batches_of us) → AllItems (item_of us)
item_of-AllItems [] r = tt
item_of-AllItems (ready b ∷ us) r =
    let e = length-bytes_of b in
    ((omega (arith, e, r.0.some_bytes), omega (arith, e, r.0.small)), item_of-AllItems us r.1)
item_of-AllItems (alive ∷ us) r = (tt, item_of-AllItems us r)

pub out_of-AllFrames : (us : List Parcel) → AllReady (batches_of us) → AllFrames (out_of us)
out_of-AllFrames [] r = tt
out_of-AllFrames (ready b ∷ us) r = (
  omega (
    arith,
    ap length (
        as_slice-write_len b r.0.valid
          (omega (arith, r.0.long, length-as_slice b.frame r.0.valid))),
  ),
  out_of-AllFrames us r.1,
)
out_of-AllFrames (alive ∷ us) r = out_of-AllFrames us r

pub batches-item_of : (us : List Parcel) → batches (item_of us) ≡ map payload (batches_of us)
batches-item_of [] = refl
batches-item_of (ready b ∷ us) = ap (λ l. payload b ∷ l) (batches-item_of us)
batches-item_of (alive ∷ us) = batches-item_of us
