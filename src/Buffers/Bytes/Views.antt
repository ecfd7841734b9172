-- ===== src/Buffers/Bytes/Views.antt =====
-- The loop over the slices of a reader views the bytes in front of the cursor.
use thubo.Prelude.{
  ℕ, zero, suc, ◌+◌, ◌-◌, ◌≤◌, ◌<◌, ◌≡◌, refl, ap, ◌∙◌, inl, inr, List, [], ◌∷◌, ◌++◌, some, arith,
  length, take, drop, length-drop, take_of_length_le, append-nil,
}
use native.Mathlib.Decide.{dec_le}
use thubo.Buffers.Interface.{joined}
use thubo.Buffers.Bytes.{BytesReader, next_slice, move_by, view_loop, chunk_view, bytes_reader}
use thubo.Buffers.Bytes.Walk.{
  Moved, take-Inside, Moved-Inside, after, take-beyond, Moved-beyond, fewer,
}
use thubo.Buffers.Bytes.Cursor.{IsValid, Inside, rest, cursor-cases, move_by-full, move_by-part}

-- One round of the loop over the slices.
pub chunk_view_lem :
    (a b : ℕ) (c : List ℕ)
    → a ≤ b
    → b ≤ length c
    → chunk_view a b c ≡ some (take (b - a) (drop a c))
unfolding chunk_view
chunk_view_lem a b c h k = ground arith

view_loop-done : (k : ℕ) (s : BytesReader) → view_loop k 0 s ≡ ([], s)
unfolding view_loop
view_loop-done zero s = refl
view_loop-done (suc k) s = refl

view_loop-stop :
    (k n : ℕ) (s : BytesReader) (i : Inside s)
    → 0 < n
    → s.byte + n ≤ length i.chunk
    → view_loop (suc k) n s ≡ (take n (drop s.byte i.chunk) ∷ [], move_by n i.chunk s)
unfolding view_loop
view_loop-stop k n s i pos h =
    let len : s.byte + n - s.byte ≡ n = omega arith in
    ground (
      arith,
      i.found,
      chunk_view_lem s.byte (s.byte + n) i.chunk (omega arith) h,
      len,
      view_loop-done k (next_slice s),
      view_loop-done k (record s { byte = s.byte + n }),
      move_by-full n i.chunk s,
      move_by-part n i.chunk s,
    )

view_loop-more :
    (k n : ℕ) (s : BytesReader) (i : Inside s)
    → length i.chunk < s.byte + n
    → view_loop (suc k) n s ≡ (
        let a = length i.chunk - s.byte in
        let (cs, s') = view_loop k (n - a) (move_by a i.chunk s) in (drop s.byte i.chunk ∷ cs, s'))
unfolding view_loop
view_loop-more k n s i h =
    let a = length i.chunk - s.byte in
    let full : s.byte + a ≡ length i.chunk = omega (arith, i.within) in
    let all : take (s.byte + a - s.byte) (drop s.byte i.chunk) ≡ drop s.byte i.chunk =
      take_of_length_le _ _ (omega (arith, length-drop s.byte i.chunk)) in
    ground (
      arith,
      i.found,
      chunk_view_lem s.byte (s.byte + a) i.chunk (omega arith) (omega arith),
      all,
      move_by-full a i.chunk s full,
    )

pub view_loop_lem :
    (k n : ℕ) (s : BytesReader)
    → IsValid s
    → n ≤ length (rest s)
    → length (drop s.slice s.inner) < k
    → (joined (view_loop k n s).0 ≡ take n (rest s)) × Moved n s (view_loop k n s).1
view_loop_lem zero n s v fits less = absurd (omega arith)
view_loop_lem (suc k) zero s v fits less = rw (view_loop-done (suc k) s) (refl, (refl, v))
view_loop_lem (suc k) (suc m) s v fits less =
    let n = suc m in
    elim (cursor-cases s v) [
      | inl (nothing, _, e) ↦ absurd (omega (arith, ap length e))
      | inr i ↦ elim (dec_le (s.byte + n) (length i.chunk)) [
        | yes h ↦
            rw (view_loop-stop k n s i (omega arith) h) (
              append-nil (take n (drop s.byte i.chunk)) ∙ take-Inside n s i h,
              Moved-Inside n s i h,
            )
        | no g ↦
            let h : length i.chunk < s.byte + n = omega arith in
            let a = length i.chunk - s.byte in
            let s' = move_by a i.chunk s in
            let (bytes, moved) =
              view_loop_lem k (n - a) s' (after n s i h).1
                (omega (arith, ap length (after n s i h).0, length-drop a (rest s)))
                (fewer n s i h k less) in
            rw (view_loop-more k n s i h) (
              ap (λ t. drop s.byte i.chunk ++ t) bytes ∙ take-beyond n s i h,
              Moved-beyond n s i h (view_loop k (n - a) s').1 moved,
            )
      ]
    ]
