-- ===== src/Buffers/Interface.antt =====
-- src/buffers/mod.rs: the traits `Writer` and `Reader`, and what the codec relies on of them.
use thubo.Prelude.{
  ℕ, ◌+◌, ◌≤◌, ◌<◌, ◌≡◌, ◌≢◌, ◌⊎◌, List, [], ◌∷◌, ◌++◌, Option, some, none, Op, length, take, drop,
}

-- `trait Writer`. The closure of `with_slot` is given the bytes of the slot, and returns them as it
-- leaves them, with the number of bytes that it has written.
pub record Writer (W : Type 0) : Type 0 where
  pub write : List ℕ → Op W ℕ
  pub write_exact : List ℕ → Op W (Unit {0})
  pub write_u8 : ℕ → Op W (Unit {0})
  pub remaining : W → ℕ
  pub with_slot : ℕ → (List ℕ → List ℕ × ℕ) → Op W ℕ

-- `Writer::write_u8`, the default of the trait
unfoldable pub write_u8_default : {W : Type 0} → (List ℕ → Op W (Unit {0})) → ℕ → Op W (Unit {0})
write_u8_default write_exact byte = write_exact (byte ∷ [])

-- `trait Reader`. `read_exact` and `read_chunk` return the bytes that the source writes to a buffer
-- of the caller or to a new chunk; `read_chunks` the chunks for which it calls the closure, in order.
pub record Reader (R : Type 0) : Type 0 where
  pub read_exact : ℕ → Op R (List ℕ)
  pub read_u8 : Op R ℕ
  pub remaining : R → ℕ
  pub read_chunk : ℕ → Op R (List ℕ)
  pub read_chunks : ℕ → Op R (List (List ℕ))
  pub read_chunk_contiguous : ℕ → Op R (List ℕ)

-- The bytes of some chunks, in order.
abbrev pub joined : List (List ℕ) → List ℕ
joined [] = []
joined (c ∷ cs) = c ++ joined cs

-- A read of `n` bytes has taken them from the front of `bytes`.
abbrev pub Taken :
    {R A : Type 0} → (R → List ℕ) → (R → Type 0) → ℕ → List ℕ → A → Option A × R → Type 0
Taken rest IsValid n bytes a o = (o.0 ≡ some a) × (rest o.1 ≡ drop n bytes) × IsValid o.1

-- What the readers promise: the bytes that are still to be read, and that a read takes them from the
-- front, or fails if there are too few.
pub record LawfulReader {R : Type 0} (r : Reader R) : Type 1 where
  pub IsValid : R → Type 0
  pub rest : R → List ℕ
  pub remaining-eq-length : (s : R) → IsValid s → r.remaining s ≡ length (rest s)
  pub read_u8-cons :
      (s : R) (b : ℕ) (t : List ℕ)
      → IsValid s
      → rest s ≡ b ∷ t
      → ((r.read_u8 s).0 ≡ some b) × (rest (r.read_u8 s).1 ≡ t) × IsValid (r.read_u8 s).1
  pub read_u8-nil : (s : R) → IsValid s → rest s ≡ [] → (r.read_u8 s).0 ≡ none
  pub read_exact-fits :
      (n : ℕ) (s : R)
      → IsValid s
      → 0 < n
      → n ≤ length (rest s)
      → Taken rest IsValid n (rest s) (take n (rest s)) (r.read_exact n s)
  pub read_exact-short :
      (n : ℕ) (s : R) → IsValid s → length (rest s) < n → (r.read_exact n s).0 ≡ none
  pub read_chunks-fits :
      (n : ℕ) (s : R)
      → IsValid s
      → n ≤ length (rest s)
      → (cs : List (List ℕ)) × (joined cs ≡ take n (rest s))
        × Taken rest IsValid n (rest s) cs (r.read_chunks n s)
  pub read_chunks-short :
      (n : ℕ) (s : R) → IsValid s → length (rest s) < n → (r.read_chunks n s).0 ≡ none
  pub read_chunk_contiguous-cases :
      (n : ℕ) (s : R)
      → IsValid s
      → 0 < n
      → (n ≤ length (rest s))
          × Taken rest IsValid n (rest s) (take n (rest s)) (r.read_chunk_contiguous n s)
        ⊎ ((r.read_chunk_contiguous n s).0 ≡ none)
          × (rest (r.read_chunk_contiguous n s).1 ≡ rest s)
          × IsValid (r.read_chunk_contiguous n s).1

-- A closure of `with_slot` that fills a slot of `n` bytes with `bs` from the front, whatever the
-- slot holds, and keeps within the slot.
abbrev pub Fills : ℕ → (List ℕ → List ℕ × ℕ) → List ℕ → Type 0
Fills n f bs =
    (slot : List ℕ)
    → length slot ≡ n
    → (length (f slot).0 ≡ n) × ((f slot).1 ≡ length bs) × (take (length bs) (f slot).0 ≡ bs)

-- What the writers promise: the bytes written so far, the room behind them, and that a write either
-- appends all its bytes or fails and leaves the writer as it is, by whether there is room.
pub record LawfulWriter {W : Type 0} (w : Writer W) : Type 1 where
  pub IsValid : W → Type 0
  pub contents : W → List ℕ
  pub room : W → ℕ
  pub remaining-eq-room : (s : W) → IsValid s → w.remaining s ≡ room s
  pub write_exact-fits :
      (bs : List ℕ) (s : W)
      → IsValid s
      → length bs ≤ room s
      → ((w.write_exact bs s).0 ≡ some tt)
        × (contents (w.write_exact bs s).1 ≡ contents s ++ bs)
        × (room (w.write_exact bs s).1 + length bs ≡ room s)
        × IsValid (w.write_exact bs s).1
  pub write_exact-full :
      (bs : List ℕ) (s : W) → IsValid s → room s < length bs → w.write_exact bs s ≡ (none, s)
  pub write_u8-eq : (b : ℕ) (s : W) → w.write_u8 b s ≡ w.write_exact (b ∷ []) s
  pub with_slot-fits :
      (n : ℕ) (f : List ℕ → List ℕ × ℕ) (bs : List ℕ) (s : W)
      → IsValid s
      → bs ≢ []
      → Fills n f bs
      → n ≤ room s
      → length bs ≤ n
      → ((w.with_slot n f s).0 ≡ some (length bs))
        × (contents (w.with_slot n f s).1 ≡ contents s ++ bs)
        × (room (w.with_slot n f s).1 + length bs ≡ room s)
        × IsValid (w.with_slot n f s).1
  pub with_slot-full :
      (n : ℕ) (f : List ℕ → List ℕ × ℕ) (s : W)
      → IsValid s
      → room s < n
      → w.with_slot n f s ≡ (none, s)
