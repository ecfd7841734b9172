-- ===== src/Buffers/BoxBuf/Lawful.antt =====
-- What a `BoxBuf` does to its contents: it is a writer that keeps the promises of the interface.
use thubo.Prelude.{
  ℕ, ◌+◌, ◌≤◌, ◌<◌, min, ◌≡◌, refl, ap, ◌∙◌, List, [], ◌∷◌, ◌++◌, some, none, arith, length, take,
  drop, length-append, length-take, length-drop, take-append, take_of_length_le, length-pos,
  append-nil, take-append_add, take-append_le, take-append-drop, inl, inr, ◌⊎◌,
}
use native.Mathlib.Decide.{dec_le}
use thubo.Buffers.Interface.{LawfulWriter, Fills, write_u8_default}
use thubo.Buffers.Slice
use thubo.Buffers.Slice.{SliceWriter}
use thubo.Buffers.BoxBuf.{
  BoxBuf, write_exact, with_slot, as_slice, remaining, box_buf_writer, capacity, as_writable_slice,
  mark, rewind,
}

abbrev pub IsValid : BoxBuf → Type 0
IsValid b = b.len ≤ length b.buffer

-- The buffer after `bs` has been put behind the first `n` bytes.
splice :
    (n : ℕ) (bs buf : List ℕ)
    → n + length bs ≤ length buf
    → take (n + length bs) ((take n buf ++ bs) ++ drop (length bs) (drop n buf)) ≡ take n buf ++ bs
splice n bs buf h =
    take-append _ (take n buf ++ bs) _
      (omega (arith, length-append (take n buf) bs, length-take n buf))

length-splice :
    (n : ℕ) (bs buf : List ℕ)
    → n + length bs ≤ length buf
    → length ((take n buf ++ bs) ++ drop (length bs) (drop n buf)) ≡ length buf
length-splice n bs buf h = omega (
  arith,
  length-append (take n buf ++ bs) (drop (length bs) (drop n buf)),
  length-append (take n buf) bs,
  length-take n buf,
  length-drop (length bs) (drop n buf),
  length-drop n buf,
)

pub slice-write_exact-fits :
    (bs : List ℕ) (w : SliceWriter)
    → length bs ≤ length w.slice
    → Slice.write_exact bs w
      ≡ (some tt, record { written = w.written ++ bs; slice = drop (length bs) w.slice })
unfolding Slice.write_exact Slice.write
slice-write_exact-fits [] w fits = ground (arith, append-nil w.written, min_fits)
  where
    min_fits : min 0 (length w.slice) ≡ 0
    min_fits = omega arith
slice-write_exact-fits (x ∷ xs) w fits =
    ground (arith, take_of_length_le (length (x ∷ xs)) (x ∷ xs), min_fits)
  where
    min_fits : min (length (x ∷ xs)) (length w.slice) ≡ length (x ∷ xs)
    min_fits = omega arith

slice-write_exact-full :
    (bs : List ℕ) (w : SliceWriter)
    → length w.slice < length bs
    → Slice.write_exact bs w ≡ (none, w)
unfolding Slice.write_exact
slice-write_exact-full bs w full = ground arith

abbrev pub written : List ℕ → BoxBuf → BoxBuf
written bs b = record {
  buffer = (take b.len b.buffer ++ bs) ++ drop (length bs) (drop b.len b.buffer);
  len = b.len + length bs;
}

pub write_exact_result :
    (bs : List ℕ) (b : BoxBuf)
    → length bs ≤ remaining b
    → write_exact bs b ≡ (some tt, written bs b)
unfolding write_exact remaining
write_exact_result bs b fits =
    ground (arith, slice-write_exact-fits bs (as_writable_slice b), length-drop b.len b.buffer)

pub write_exact_full :
    (bs : List ℕ) (b : BoxBuf) → IsValid b → remaining b < length bs → write_exact bs b ≡ (none, b)
unfolding write_exact remaining
write_exact_full bs b v full = ground (
  arith,
  slice-write_exact-full bs (as_writable_slice b),
  length-drop b.len b.buffer,
  take-append-drop b.len b.buffer,
)

-- What `with_slot` leaves, once the closure has been run on the slot.
abbrev pub slotted : ℕ → (List ℕ → List ℕ × ℕ) → BoxBuf → BoxBuf
slotted n f b =
    let slice = drop b.len b.buffer in
    let (slot, k) = f (take n slice) in
    record { buffer = take b.len b.buffer ++ (slot ++ drop n slice); len = b.len + k }

pub with_slot_result :
    (n : ℕ) (f : List ℕ → List ℕ × ℕ) (b : BoxBuf)
    → n ≤ remaining b
    → 0 < (f (take n (drop b.len b.buffer))).1
    → with_slot n f b ≡ (some (f (take n (drop b.len b.buffer))).1, slotted n f b)
unfolding with_slot
with_slot_result n f b fits pos = ground arith

module _ (n : ℕ) (f : List ℕ → List ℕ × ℕ) (bs : List ℕ) (b : BoxBuf) (v : IsValid b)
    (fills : Fills n f bs) (fits : n ≤ remaining b) (le : length bs ≤ n) where
  pub slot_fact :
      (length (f (take n (drop b.len b.buffer))).0 ≡ n)
      × ((f (take n (drop b.len b.buffer))).1 ≡ length bs)
      × (take (length bs) (f (take n (drop b.len b.buffer))).0 ≡ bs)
  unfolding remaining
  slot_fact =
      fills (take n (drop b.len b.buffer))
        (omega (arith, length-take n (drop b.len b.buffer), length-drop b.len b.buffer))

  pub length-slotted : length (slotted n f b).buffer ≡ length b.buffer
  unfolding remaining
  length-slotted = omega (
    arith,
    slot_fact,
    length-append (take b.len b.buffer)
        ((f (take n (drop b.len b.buffer))).0 ++ drop n (drop b.len b.buffer)),
    length-append (f (take n (drop b.len b.buffer))).0 (drop n (drop b.len b.buffer)),
    length-take b.len b.buffer,
    length-drop n (drop b.len b.buffer),
    length-drop b.len b.buffer,
  )

  as_slice-slotted : as_slice (slotted n f b) ≡ as_slice b ++ bs
  unfolding as_slice
  as_slice-slotted =
      let slot = (f (take n (drop b.len b.buffer))).0 in
      take-append_add b.len _ (take b.len b.buffer) (slot ++ drop n (drop b.len b.buffer))
        (omega (arith, length-take b.len b.buffer))
      ∙ ap (λ t. take b.len b.buffer ++ t)
          (ap (λ k. take k (slot ++ drop n (drop b.len b.buffer))) slot_fact.1
            ∙ take-append_le (length bs) slot _ (omega (arith, slot_fact))
            ∙ slot_fact.2)

pub written_facts :
    (bs : List ℕ) (b : BoxBuf)
    → IsValid b
    → length bs ≤ remaining b
    → (as_slice (written bs b) ≡ as_slice b ++ bs)
      × (remaining (written bs b) + length bs ≡ remaining b)
      × IsValid (written bs b)
unfolding as_slice remaining
written_facts bs b v fits =
    let room : b.len + length bs ≤ length b.buffer = omega arith in
    let l = length-splice b.len bs b.buffer room in
    (splice b.len bs b.buffer room, omega arith, omega arith)

pub slotted_facts :
    (n : ℕ) (f : List ℕ → List ℕ × ℕ) (bs : List ℕ) (b : BoxBuf)
    → IsValid b
    → Fills n f bs
    → n ≤ remaining b
    → length bs ≤ n
    → (as_slice (slotted n f b) ≡ as_slice b ++ bs)
      × (remaining (slotted n f b) + length bs ≡ remaining b)
      × IsValid (slotted n f b)
unfolding remaining
slotted_facts n f bs b v fills fits le =
    let l = length-slotted n f bs b v fills fits le in
    let k = slot_fact n f bs b v fills fits le in
    (as_slice-slotted n f bs b v fills fits le, omega arith, omega arith)

unfoldable pub box_buf_lawful : LawfulWriter box_buf_writer
unfolding write_u8_default with_slot
box_buf_lawful = record {
  IsValid = IsValid;
  contents = as_slice;
  room = remaining;
  remaining-eq-room = λ s v. refl;
  write_exact-fits = λ bs s v fits.
      let r = write_exact_result bs s fits in
      let (c, k, u) = written_facts bs s v fits in rw r (refl, c, k, u);
  write_exact-full = λ bs s v full. write_exact_full bs s v full;
  write_u8-eq = λ b s. refl;
  with_slot-fits = λ n f bs s v ne fills fits le.
      let k = slot_fact n f bs s v fills fits le in
      let r = with_slot_result n f s fits (omega (arith, k, length-pos bs ne)) in
      let (c, m, u) = slotted_facts n f bs s v fills fits le in rw r (ap some k.1, c, m, u);
  with_slot-full = λ n f s v full. unfold with_slot in ground arith;
}

-- For a buffer whose length is within its capacity: `write_exact` appends all the bytes to the
-- contents and takes their number from the room if they fit it, and otherwise fails and changes
-- nothing.
pub as_slice-write_exact :
    (bs : List ℕ) (b : BoxBuf)
    → IsValid b
    → (length bs ≤ remaining b)
        × ((write_exact bs b).0 ≡ some tt)
        × (as_slice (write_exact bs b).1 ≡ as_slice b ++ bs)
        × (remaining (write_exact bs b).1 + length bs ≡ remaining b)
        × IsValid (write_exact bs b).1
      ⊎ (remaining b < length bs) × (write_exact bs b ≡ (none, b))
unfolding box_buf_lawful
as_slice-write_exact bs b v = elim (dec_le (length bs) (remaining b)) [
  | yes le ↦
      let (result, contents, room, valid) = box_buf_lawful.write_exact-fits bs b v le in
      inl (le, result, contents, room, valid)
  | no gt ↦ inr (omega arith, write_exact_full bs b v (omega arith))
]

-- For a buffer whose length is within its capacity, what is written after `mark` is taken back by
-- `rewind`: the contents and the room are those at the mark, whether the write failed or not.
pub rewind-write_exact :
    (bs : List ℕ) (b : BoxBuf)
    → IsValid b
    → (as_slice (rewind (mark b) (write_exact bs b).1) ≡ as_slice b)
      × (remaining (rewind (mark b) (write_exact bs b).1) ≡ remaining b)
unfolding as_slice rewind mark remaining capacity
rewind-write_exact bs b v = elim (dec_le (length bs) (remaining b)) [
  | yes le ↦
      let room : b.len + length bs ≤ length b.buffer = omega arith in
      rw (write_exact_result bs b le) (
        take-append_le b.len (take b.len b.buffer ++ bs) _
              (omega (arith, length-append (take b.len b.buffer) bs, length-take b.len b.buffer))
            ∙ take-append b.len (take b.len b.buffer) bs
                (omega (arith, length-take b.len b.buffer)),
        omega (arith, length-splice b.len bs b.buffer room),
      )
  | no gt ↦ rw (write_exact_full bs b v (omega arith)) (refl, refl)
]
