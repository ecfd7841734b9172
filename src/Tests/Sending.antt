-- ===== src/Tests/Sending.antt =====
-- Concrete batches, and the theorems on the sending side applied to them.
use thubo.Prelude.{[], ◌∷◌, none}
use thubo.Pipeline.Tx.{WriteBatch}

-- A frame of three bytes behind the room for its length, with a fragment of two.
abbrev filled : WriteBatch
filled = record {
  frame = record { buffer = 0 ∷ 0 ∷ 7 ∷ 8 ∷ 9 ∷ 0 ∷ []; len = 5 };
  fragment = (1 ∷ 2 ∷ []) ∷ [];
  qos = 1;
  drop_flag = none;
}
