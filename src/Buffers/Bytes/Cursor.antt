-- ===== src/Buffers/Bytes/Cursor.antt =====
-- The cursor of a reader of chunks: what is in front of it, and how it moves.
use thubo.Prelude.{
  ℕ, zero, suc, ◌+◌, ◌≤◌, ◌<◌, ◌≡◌, refl, ap, sym, ◌∙◌, ◌⊎◌, inl, inr, List, [], ◌∷◌, ◌++◌, some,
  none, arith, length, drop, get_elem?-cases, drop-drop, drop-append, drop-append_le, length-append,
  length-drop,
}
use native.Mathlib.Decide.{dec_le}
use thubo.Buffers.Interface.{joined}
use thubo.Buffers.Bytes.{Bytes, BytesReader, current, next_slice, move_by, len, remaining}

-- No chunk is empty, as `push` sees to.
abbrev pub NonEmpty : Bytes → Type 0
NonEmpty [] = Unit {0}
NonEmpty (c ∷ cs) = (0 < length c) × NonEmpty cs

-- A cursor at a byte of the first of some chunks, or at their end.
abbrev pub IsCursor : ℕ → Bytes → Type 0
IsCursor byte [] = byte ≡ 0
IsCursor byte (c ∷ cs) = (byte < length c) × NonEmpty cs

abbrev pub IsValid : BytesReader → Type 0
IsValid s = IsCursor s.byte (drop s.slice s.inner)

-- The bytes in front of the cursor.
abbrev pub rest : BytesReader → List ℕ
rest s = drop s.byte (joined (drop s.slice s.inner))

-- The cursor is in a chunk, whose bytes from the cursor on come first.
pub record Inside (s : BytesReader) : Type 0 where
  pub chunk : List ℕ
  pub behind : Bytes
  pub found : current s ≡ some chunk
  pub ahead : drop s.slice s.inner ≡ chunk ∷ behind
  pub next : drop (s.slice + 1) s.inner ≡ behind
  pub within : s.byte < length chunk
  pub full : NonEmpty behind
  pub rest-eq : rest s ≡ drop s.byte chunk ++ joined behind

drop_nil : (k : ℕ) → drop {A = ℕ} k [] ≡ []
drop_nil zero = refl
drop_nil (suc k) = refl

IsValid-IsCursor :
    (s : BytesReader) (t : Bytes) → drop s.slice s.inner ≡ t → IsValid s → IsCursor s.byte t
IsValid-IsCursor s t e v = rw (← e) v

pub cursor-cases :
    (s : BytesReader)
    → IsValid s
    → (current s ≡ none) × (drop s.slice s.inner ≡ []) × (rest s ≡ []) ⊎ Inside s
unfolding current
cursor-cases s v = elim (get_elem?-cases s.inner s.slice) [
  | inl (n, e) ↦ inl (n, e, ap (λ t. drop s.byte (joined t)) e ∙ drop_nil s.byte)
  | inr (c, cs, f, a, n) ↦
      let at = IsValid-IsCursor s (c ∷ cs) a v in
      inr (record {
        chunk = c;
        behind = cs;
        found = f;
        ahead = a;
        next = n;
        within = at.0;
        full = at.1;
        rest-eq =
            ap (λ t. drop s.byte (joined t)) a ∙ drop-append_le s.byte c (joined cs) (omega arith);
      })
]

pub NonEmpty-IsCursor : (cs : Bytes) → NonEmpty cs → IsCursor 0 cs
NonEmpty-IsCursor [] h = refl
NonEmpty-IsCursor (c ∷ cs) h = h

pub move_by-full :
    (n : ℕ) (c : List ℕ) (s : BytesReader) → s.byte + n ≡ length c → move_by n c s ≡ next_slice s
unfolding move_by
move_by-full n c s e = ground arith

pub move_by-part :
    (n : ℕ) (c : List ℕ) (s : BytesReader)
    → s.byte + n < length c
    → move_by n c s ≡ record s { byte = s.byte + n }
unfolding move_by
move_by-part n c s h = ground arith

-- Moving within the chunk, or to its end, is a move in the bytes.
pub move_by_lem :
    (n : ℕ) (s : BytesReader) (i : Inside s)
    → s.byte + n ≤ length i.chunk
    → IsValid (move_by n i.chunk s) × (rest (move_by n i.chunk s) ≡ drop n (rest s))
move_by_lem n s i le = elim (dec_le (length i.chunk) (s.byte + n)) [
  | yes e ↦ rw (move_by-full n i.chunk s (omega arith)) (
    rw i.next (NonEmpty-IsCursor i.behind i.full),
    ap joined i.next
        ∙ sym (drop-append (s.byte + n) i.chunk (joined i.behind) (omega arith))
        ∙ sym (drop-drop s.byte n (i.chunk ++ joined i.behind))
        ∙ ap (λ t. drop n (drop s.byte (joined t))) (sym i.ahead),
  )
  | no e ↦
      rw (move_by-part n i.chunk s (omega arith))
        (rw i.ahead (omega arith, i.full), sym (drop-drop s.byte n (joined (drop s.slice s.inner))))
]

pub len-joined : (cs : Bytes) → len cs ≡ length (joined cs)
unfolding len
len-joined [] = refl
len-joined (c ∷ cs) = omega (arith, len-joined cs, length-append c (joined cs))

pub remaining-eq-length : (s : BytesReader) → IsValid s → remaining s ≡ length (rest s)
unfolding remaining
remaining-eq-length s v =
    omega
      (arith, len-joined (drop s.slice s.inner), length-drop s.byte (joined (drop s.slice s.inner)))
