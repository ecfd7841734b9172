-- ===== src/Pipeline/Tx/Ready.antt =====
-- A batch as it can be sent: its length fits the two bytes in front.
use thubo.Prelude.{
  ℕ, ◌+◌, ◌^◌, ◌≤◌, ◌<◌, ◌≡◌, ap, ◌∙◌, List, [], ◌∷◌, ◌++◌, length, drop, arith, length-append,
  length-drop,
}
use thubo.Buffers.BoxBuf.{as_slice}
use thubo.Buffers.BoxBuf.Lawful.{IsValid}
use thubo.Buffers.Interface.{joined}
use thubo.Pipeline.Tx.{WriteBatch, batch_len}

-- The frame has the two bytes of the length, and what is behind them is not empty and has a length of two
-- bytes.
pub record IsReady (b : WriteBatch) : Type 0 where
  pub valid : IsValid b.frame
  pub long : batch_len ≤ length (as_slice b.frame)
  pub some_bytes : 0 < length (drop batch_len (as_slice b.frame)) + length (joined b.fragment)
  pub small : length (drop batch_len (as_slice b.frame)) + length (joined b.fragment) < 2 ^ 16

abbrev pub AllReady : List WriteBatch → Type 0
AllReady [] = Unit {0}
AllReady (b ∷ bs) = IsReady b × AllReady bs

pub AllReady-append : (bs cs : List WriteBatch) → AllReady bs → AllReady cs → AllReady (bs ++ cs)
AllReady-append [] cs h k = k
AllReady-append (b ∷ bs) cs h k = (h.0, AllReady-append bs cs h.1 k)

-- A batch that had only the length in its frame, and now has these bytes behind it.
pub IsReady-written :
    (b b' : WriteBatch) (xs : List ℕ)
    → length (as_slice b.frame) ≡ batch_len
    → IsValid b'.frame
    → as_slice b'.frame ≡ as_slice b.frame ++ xs
    → 0 < length xs
    → length xs + length (joined b'.fragment) < 2 ^ 16
    → IsReady b'
IsReady-written b b' xs two v e pos small =
    let n = ap length e ∙ length-append (as_slice b.frame) xs in
    let d = length-drop batch_len (as_slice b'.frame) in
    record {
      valid = v;
      long = omega (arith, n, two);
      some_bytes = omega (arith, n, two, d, pos);
      small = omega (arith, n, two, d, small);
    }
