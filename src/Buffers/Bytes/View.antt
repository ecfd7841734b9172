-- ===== src/Buffers/Bytes/View.antt =====
-- `skip`, and the view of the bytes from some place on.
use thubo.Prelude.{
  ℕ, zero, suc, ◌+◌, ◌-◌, ◌≤◌, ◌<◌, min, ◌≡◌, refl, ap, sym, ◌∙◌, inl, inr, List, [], ◌∷◌, ◌++◌,
  some, none, arith, length, drop, length-drop, take_of_length_le, append-nil, append_assoc,
  Option-cases, >>=-some,
}
use native.Mathlib.Decide.{dec_le}
use thubo.Buffers.Interface.{joined}
use thubo.Buffers.Bytes.{
  Bytes, BytesReader, current, move_by, read_chunks, rounds, skip_loop, skip, reader, view_from,
  extend, push, len,
}
use thubo.Buffers.Bytes.Cursor.{
  IsValid, Inside, rest, cursor-cases, NonEmpty, NonEmpty-IsCursor, len-joined,
}
use thubo.Buffers.Bytes.Walk.{Moved, after, Moved-Inside, Moved-beyond, fewer}
use thubo.Buffers.Bytes.Lawful.{enough, read_chunks-fits}

skip_loop-done : (k : ℕ) (s : BytesReader) → skip_loop (suc k) 0 s ≡ (some tt, s)
unfolding skip_loop
skip_loop-done k s = elim (Option-cases (current s)) [
  | inl e ↦ ground (arith, e)
  | inr (c, e) ↦ ground (arith, e)
]

skip_loop-stop :
    (k n : ℕ) (s : BytesReader) (i : Inside s)
    → 0 < n
    → 0 < k
    → s.byte + n ≤ length i.chunk
    → skip_loop (suc k) n s ≡ (some tt, move_by n i.chunk s)
unfolding skip_loop
skip_loop-stop zero n s i pos room h = absurd (omega arith)
skip_loop-stop (suc k) n s i pos room h =
    let least : min n (length i.chunk - s.byte) ≡ n = omega arith in
    let none_left : n - n ≡ 0 = omega arith in
    ground (arith, i.found, least, none_left, skip_loop-done k (move_by n i.chunk s))

skip_loop-more :
    (k n : ℕ) (s : BytesReader) (i : Inside s)
    → length i.chunk < s.byte + n
    → skip_loop (suc k) n s
      ≡ skip_loop k (n - (length i.chunk - s.byte)) (move_by (length i.chunk - s.byte) i.chunk s)
unfolding skip_loop
skip_loop-more k n s i h =
    let least : min n (length i.chunk - s.byte) ≡ length i.chunk - s.byte = omega arith in
    ground (arith, i.found, least, i.within)

skip_loop-end : (k n : ℕ) (s : BytesReader) → 0 < n → current s ≡ none → (skip_loop k n s).0 ≡ none
unfolding skip_loop
skip_loop-end zero n s pos e = refl
skip_loop-end (suc k) n s pos e = ground (arith, e)

skip_loop_lem :
    (k n : ℕ) (s : BytesReader)
    → IsValid s
    → n ≤ length (rest s)
    → length (drop s.slice s.inner) < k
    → ((skip_loop k n s).0 ≡ some tt) × Moved n s (skip_loop k n s).1
skip_loop_lem zero n s v fits less = absurd (omega arith)
skip_loop_lem (suc k) zero s v fits less = rw (skip_loop-done k s) (refl, (refl, v))
skip_loop_lem (suc k) (suc m) s v fits less =
    let n = suc m in
    elim (cursor-cases s v) [
      | inl (nothing, _, e) ↦ absurd (omega (arith, ap length e))
      | inr i ↦ elim (dec_le (s.byte + n) (length i.chunk)) [
        | yes h ↦
            rw (skip_loop-stop k n s i (omega arith) (omega (arith, ap length i.ahead)) h)
              (refl, Moved-Inside n s i h)
        | no g ↦
            let h : length i.chunk < s.byte + n = omega arith in
            let a = length i.chunk - s.byte in
            let s' = move_by a i.chunk s in
            let (ok, moved) =
              skip_loop_lem k (n - a) s' (after n s i h).1
                (omega (arith, ap length (after n s i h).0, length-drop a (rest s)))
                (fewer n s i h k less) in
            rw (skip_loop-more k n s i h)
              (ok, Moved-beyond n s i h (skip_loop k (n - a) s').1 moved)
      ]
    ]

-- For a buffer without empty chunks and a place in it: the view from the place on succeeds, and has the
-- bytes behind the place.
pub joined-view_from :
    (start : ℕ) (b : Bytes)
    → NonEmpty b
    → start ≤ length (joined b)
    → (cs : Bytes) × (view_from start b ≡ some cs) × (joined cs ≡ drop start (joined b))
unfolding view_from skip reader
joined-view_from start b full fits =
    let s = reader b in
    let (ok, (left, valid)) =
      skip_loop_lem (rounds s) start s (NonEmpty-IsCursor b full) fits (enough s) in
    let s' = (skip start s).1 in
    let n = len b - start in
    let count : length (rest s') ≡ n =
      omega (arith, ap length left, length-drop start (joined b), len-joined b) in
    let (cs, bytes, (got, _, _)) = read_chunks-fits n s' valid (omega arith) in
    (
      cs,
      ap (λ o. o.0) (>>=-some (skip start) (λ _. read_chunks n) s tt ok) ∙ got,
      bytes ∙ take_of_length_le n (rest s') (omega arith) ∙ left,
    )

joined-append : (a b : Bytes) → joined (a ++ b) ≡ joined a ++ joined b
joined-append [] b = refl
joined-append (c ∷ cs) b =
    ap (λ t. c ++ t) (joined-append cs b) ∙ sym (append_assoc c (joined cs) (joined b))

joined-push : (b : Bytes) (c : List ℕ) → joined (push b c) ≡ joined b ++ c
unfolding push
joined-push b [] = sym (append-nil (joined b))
joined-push b (x ∷ c) =
    joined-append b ((x ∷ c) ∷ []) ∙ ap (λ t. joined b ++ t) (append-nil (x ∷ c))

-- `extend` appends the bytes.
pub joined-extend : (b cs : Bytes) → joined (extend b cs) ≡ joined b ++ joined cs
unfolding extend
joined-extend b [] = sym (append-nil (joined b))
joined-extend b (c ∷ cs) =
    joined-extend (push b c) cs
    ∙ ap (λ t. t ++ joined cs) (joined-push b c)
    ∙ append_assoc (joined b) c (joined cs)

NonEmpty-append : (b : Bytes) (c : List ℕ) → NonEmpty b → 0 < length c → NonEmpty (b ++ (c ∷ []))
NonEmpty-append [] c h pos = (pos, tt)
NonEmpty-append (x ∷ b) c h pos = (h.0, NonEmpty-append b c h.1 pos)

-- `push` keeps empty chunks out, and so does `extend`.
pub NonEmpty-push : (b : Bytes) (c : List ℕ) → NonEmpty b → NonEmpty (push b c)
unfolding push
NonEmpty-push b [] h = h
NonEmpty-push b (x ∷ c) h = NonEmpty-append b (x ∷ c) h (omega arith)

pub NonEmpty-extend : (b cs : Bytes) → NonEmpty b → NonEmpty (extend b cs)
unfolding extend
NonEmpty-extend b [] h = h
NonEmpty-extend b (c ∷ cs) h = NonEmpty-extend (push b c) cs (NonEmpty-push b c h)
