-- ===== src/Buffers/Bytes/Walk.antt =====
-- The loop of `read` takes the bytes in front of the cursor.
use thubo.Prelude.{
  ℕ, zero, suc, ◌+◌, ◌-◌, ◌≤◌, ◌<◌, min, ◌≡◌, refl, ap, sym, ◌∙◌, inl, inr, [], ◌++◌, none, arith,
  length, take, drop, drop-drop, length-drop, take-append_le, take-append_add, take_of_length_le,
  drop-append,
}
use native.Mathlib.Decide.{dec_le}
use thubo.Buffers.Interface.{joined}
use thubo.Buffers.Bytes.{BytesReader, current, move_by, copy_loop, bytes_reader}
use thubo.Buffers.Bytes.Cursor.{IsValid, Inside, rest, cursor-cases, move_by_lem, move_by-full}

-- One round of `read`.
copy_loop-stop :
    (k n : ℕ) (s : BytesReader) (i : Inside s)
    → s.byte + n ≤ length i.chunk
    → copy_loop (suc k) n s ≡ (take n (drop s.byte i.chunk), move_by n i.chunk s)
unfolding copy_loop
copy_loop-stop k n s i h = ground (arith, i.found, length-drop s.byte i.chunk)

copy_loop-more :
    (k n : ℕ) (s : BytesReader) (i : Inside s)
    → length i.chunk < s.byte + n
    → copy_loop (suc k) n s ≡ (
        let a = length i.chunk - s.byte in
        let (bs, s') = copy_loop k (n - a) (move_by a i.chunk s) in (drop s.byte i.chunk ++ bs, s'))
unfolding copy_loop
copy_loop-more k n s i h =
    let all : take (length i.chunk - s.byte) (drop s.byte i.chunk) ≡ drop s.byte i.chunk =
      take_of_length_le _ _ (omega (arith, length-drop s.byte i.chunk)) in
    let least : min (length (drop s.byte i.chunk)) n ≡ length i.chunk - s.byte =
      omega (arith, length-drop s.byte i.chunk) in
    ground (arith, i.found, all, least)

copy_loop-end : (k n : ℕ) (s : BytesReader) → current s ≡ none → copy_loop k n s ≡ ([], s)
unfolding copy_loop
copy_loop-end zero n s e = refl
copy_loop-end (suc k) n s e = ground (arith, e)

-- What a walk over the slices leaves: the bytes taken from the front, and a cursor behind them.
abbrev pub Moved : ℕ → BytesReader → BytesReader → Type 0
Moved n s s' = (rest s' ≡ drop n (rest s)) × IsValid s'

pub take_nil : (k : ℕ) → take {A = ℕ} k [] ≡ []
take_nil zero = refl
take_nil (suc k) = refl

drop_nil : (k : ℕ) → drop {A = ℕ} k [] ≡ []
drop_nil zero = refl
drop_nil (suc k) = refl

-- At the end there is nothing to take.
pub take-end : (n : ℕ) (s : BytesReader) → rest s ≡ [] → [] ≡ take n (rest s)
take-end n s e = sym (ap (take n) e ∙ take_nil n)

pub Moved-end : (n : ℕ) (s : BytesReader) → IsValid s → rest s ≡ [] → Moved n s s
Moved-end n s v e = (e ∙ sym (ap (drop n) e ∙ drop_nil n), v)

-- A piece of the chunk under the cursor.
pub take-Inside :
    (n : ℕ) (s : BytesReader) (i : Inside s)
    → s.byte + n ≤ length i.chunk
    → take n (drop s.byte i.chunk) ≡ take n (rest s)
take-Inside n s i h = sym (
    ap (take n) i.rest-eq
    ∙ take-append_le n (drop s.byte i.chunk) _ (omega (arith, length-drop s.byte i.chunk)))

pub Moved-Inside :
    (n : ℕ) (s : BytesReader) (i : Inside s)
    → s.byte + n ≤ length i.chunk
    → Moved n s (move_by n i.chunk s)
Moved-Inside n s i h = let (v, r) = move_by_lem n s i h in (r, v)

-- All of the chunk under the cursor, and more behind it.
module _ (n : ℕ) (s : BytesReader) (i : Inside s) (h : length i.chunk < s.byte + n) where
  abbrev pub size : ℕ
  size = length i.chunk - s.byte

  pub after : Moved size s (move_by size i.chunk s)
  after = Moved-Inside size s i (omega (arith, i.within))

  pub take-beyond :
      drop s.byte i.chunk ++ take (n - size) (rest (move_by size i.chunk s)) ≡ take n (rest s)
  take-beyond =
      ap (λ t. drop s.byte i.chunk ++ take (n - size) t)
        (after.0
          ∙ ap (drop size) i.rest-eq
          ∙ drop-append size (drop s.byte i.chunk) (joined i.behind) (length-drop s.byte i.chunk))
      ∙ sym (
          take-append_add size (n - size) (drop s.byte i.chunk) (joined i.behind)
            (length-drop s.byte i.chunk))
      ∙ ap (λ t. take t (drop s.byte i.chunk ++ joined i.behind)) (omega arith)
      ∙ ap (take n) (sym i.rest-eq)

  pub Moved-beyond :
      (s' : BytesReader) → Moved (n - size) (move_by size i.chunk s) s' → Moved n s s'
  Moved-beyond s' (r, v) = (
    r
        ∙ ap (drop (n - size)) after.0
        ∙ drop-drop size (n - size) (rest s)
        ∙ ap (λ t. drop t (rest s)) (omega arith),
    v,
  )

  -- One slice less.
  pub fewer :
      (k : ℕ)
      → length (drop s.slice s.inner) < suc k
      → length (drop (move_by size i.chunk s).slice (move_by size i.chunk s).inner) < k
  fewer k less =
      rw (move_by-full size i.chunk s (omega (arith, i.within)))
        (omega (arith, ap length i.next, ap length i.ahead))

pub copy_loop_lem :
    (k n : ℕ) (s : BytesReader)
    → IsValid s
    → length (drop s.slice s.inner) < k
    → ((copy_loop k n s).0 ≡ take n (rest s)) × Moved n s (copy_loop k n s).1
copy_loop_lem zero n s v less = absurd (omega arith)
copy_loop_lem (suc k) n s v less = elim (cursor-cases s v) [
  | inl (nothing, _, e) ↦ rw (copy_loop-end (suc k) n s nothing) (take-end n s e, Moved-end n s v e)
  | inr i ↦ elim (dec_le (s.byte + n) (length i.chunk)) [
    | yes h ↦ rw (copy_loop-stop k n s i h) (take-Inside n s i h, Moved-Inside n s i h)
    | no g ↦
        let h : length i.chunk < s.byte + n = omega arith in
        let (bytes, moved) =
          copy_loop_lem k (n - (length i.chunk - s.byte))
            (move_by (length i.chunk - s.byte) i.chunk s) (after n s i h).1
            (fewer n s i h k less) in
        rw (copy_loop-more k n s i h) (
          ap (λ t. drop s.byte i.chunk ++ t) bytes ∙ take-beyond n s i h,
          Moved-beyond n s i h (copy_loop k (n - size n s i h) (move_by (size n s i h) i.chunk s)).1
              moved,
        )
  ]
]
