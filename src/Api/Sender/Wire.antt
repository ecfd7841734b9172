-- ===== src/Api/Sender/Wire.antt =====
-- What the sending task puts on the wire for batches.
use thubo.Prelude.{
  ℕ, zero, suc, ◌+◌, ◌-◌, ◌≤◌, ◌<◌, ◌≡◌, inl, inr, refl, ap, sym, ◌∙◌, List, [], ◌∷◌, ◌++◌, Option,
  some, none, false, ◌==◌, leb, length, take, drop, arith, append_assoc, append-nil, length-append,
  Bool-cases, drop-append_le, length-drop, length-take, drop-drop, take-append-drop, ◌≢◌,
  drop-append, leb→le, if◌then◌else◌,
}
use mathlib.Core.Path.{subst}
use thubo.Buffers.BoxBuf.{as_slice}
use thubo.Buffers.Bytes
use thubo.Buffers.Interface.{joined}
use thubo.Collections.SingleOrVec
use thubo.Collections.SingleOrVec.{SingleOrVec}
use thubo.Collections.SingleOrVec.View
use thubo.Collections.SingleOrVec.View.{as_slice-push, as_slice-extend}
use thubo.Pipeline.Tx.{WriteBatch}
use thubo.Api.Io.{AsyncWrite, IsLawfulWrite, IsOpen}
use thubo.Api.Sender.Slices.{
  Io, ok, err, running, advance_slices, write_all_vectored, wrote, add_slices, gather,
}

-- The bytes of a batch on the wire.
abbrev pub wire : WriteBatch → List ℕ
wire b = as_slice b.frame ++ joined b.fragment

abbrev pub wire_all : List WriteBatch → List ℕ
wire_all [] = []
wire_all (b ∷ bs) = wire b ++ wire_all bs

pub joined-append : (a b : List (List ℕ)) → joined (a ++ b) ≡ joined a ++ joined b
joined-append [] b = refl
joined-append (x ∷ a) b =
    ap (λ l. x ++ l) (joined-append a b) ∙ sym (append_assoc x (joined a) (joined b))

-- The slices of batches, in their order.
abbrev pub slices_all : List WriteBatch → List (List ℕ)
slices_all [] = []
slices_all (b ∷ bs) = as_slice b.frame ∷ (b.fragment ++ slices_all bs)

pub joined-slices_all : (bs : List WriteBatch) → joined (slices_all bs) ≡ wire_all bs
joined-slices_all [] = refl
joined-slices_all (b ∷ bs) =
    ap (λ l. as_slice b.frame ++ l)
      (joined-append b.fragment (slices_all bs)
        ∙ ap (λ l. joined b.fragment ++ l) (joined-slices_all bs))
    ∙ sym (append_assoc (as_slice b.frame) (joined b.fragment) (wire_all bs))

-- The slices of the fragment behind that of the frame.
add_fragment :
    (f : Bytes.Bytes) (s : SingleOrVec (List ℕ))
    → View.IsValid s
    → let t = if Bytes.is_empty f then s else SingleOrVec.extend f s in
      (SingleOrVec.as_slice t ≡ SingleOrVec.as_slice s ++ f) × View.IsValid t
unfolding Bytes.is_empty
add_fragment [] s v = (sym (append-nil (SingleOrVec.as_slice s)), v)
add_fragment (c ∷ cs) s v = as_slice-extend (c ∷ cs) s v

add_slices_lem :
    (b : WriteBatch) (s : SingleOrVec (List ℕ))
    → View.IsValid s
    → (SingleOrVec.as_slice (add_slices b s)
        ≡ SingleOrVec.as_slice s ++ (as_slice b.frame ∷ b.fragment))
      × View.IsValid (add_slices b s)
unfolding add_slices
add_slices_lem b s v =
    let (e, u) = as_slice-push (as_slice b.frame) s v in
    let (f, t) = add_fragment b.fragment (SingleOrVec.push (as_slice b.frame) s) u in
    (
      f
          ∙ ap (λ l. l ++ b.fragment) e
          ∙ append_assoc (SingleOrVec.as_slice s) (as_slice b.frame ∷ []) b.fragment,
      t,
    )

pub as_slice-gather :
    (bs : List WriteBatch) (s : SingleOrVec (List ℕ))
    → View.IsValid s
    → SingleOrVec.as_slice (gather bs s) ≡ SingleOrVec.as_slice s ++ slices_all bs
unfolding gather
as_slice-gather [] s v = sym (append-nil (SingleOrVec.as_slice s))
as_slice-gather (b ∷ bs) s v =
    let (e, u) = add_slices_lem b s v in
    as_slice-gather bs (add_slices b s) u
    ∙ ap (λ l. l ++ slices_all bs) e
    ∙ append_assoc (SingleOrVec.as_slice s) (as_slice b.frame ∷ b.fragment) (slices_all bs)

-- Nothing is in front of a slice that is not empty.
abbrev pub Starts : List (List ℕ) → Type 0
Starts [] = Unit {0}
Starts (s ∷ slices) = 0 < length s

pub joined-advance_slices :
    (n : ℕ) (slices : List (List ℕ))
    → n ≤ length (joined slices)
    → (joined (advance_slices n slices) ≡ drop n (joined slices)) × Starts (advance_slices n slices)
unfolding advance_slices
joined-advance_slices zero [] h = (refl, tt)
joined-advance_slices (suc n) [] h = absurd (omega arith)
joined-advance_slices n (s ∷ slices) h = elim (Bool-cases (leb (length s) n)) [
  | inl e ↦
      let k = n - length s in
      let (f, starts) =
        joined-advance_slices k slices
          (omega (arith, leb→le (length s) n e, length-append s (joined slices))) in
      let cut = ap (drop k) (drop-append (length s) s (joined slices) refl) in
      let both = drop-drop (length s) k (s ++ joined slices) in
      let count : length s + k ≡ n = omega (arith, leb→le (length s) n e) in
      rw e (f ∙ sym cut ∙ both ∙ ap (λ m. drop m (s ++ joined slices)) count, starts)
  | inr e ↦
      let lt : n < length s = ground arith in
      rw e (sym (drop-append_le n s (joined slices) (omega arith)), omega (arith, length-drop n s))
]

-- How a run of `write_all_vectored` ends that had `count` bytes written before, with `start` on the wire
-- and `bytes` to go: with all of them, or with an error after some. It does not run out of rounds.
module _ {W : Type 0} (io : AsyncWrite W) (written : W → List ℕ)
    (l : IsLawfulWrite io written) where
  abbrev pub Ends : ℕ → List ℕ → List ℕ → Io × W → Type 0
  Ends count start bytes (ok n, w) = (n ≡ count + length bytes) × (written w ≡ start ++ bytes)
  Ends count start bytes (err e, w) =
      (p : List ℕ) × (q : List ℕ) × (bytes ≡ p ++ q) × (written w ≡ start ++ p)
  Ends count start bytes (running, w) = ⊥

  -- The bytes before these were written, too.
  Ends-more :
      (count n : ℕ) (start p bytes : List ℕ) (r : Io × W)
      → n ≡ length p
      → Ends (count + n) (start ++ p) bytes r
      → Ends count start (p ++ bytes) r
  Ends-more count n start p bytes (ok m, w) h (e, f) =
      (omega (arith, length-append p bytes), f ∙ append_assoc start p bytes)
  Ends-more count n start p bytes (err x, w) h (a, b, e, f) =
      (p ++ a, b, ap (λ l. p ++ l) e ∙ sym (append_assoc p a b), f ∙ append_assoc start p a)
  Ends-more count n start p bytes (running, w) h e = absurd e

  wrote-Ends :
      (count : ℕ) (start bytes : List ℕ) (a : Option ℕ × W) (rest : ℕ → W → Io × W)
      → (a.0 ≡ none → written a.1 ≡ start)
      → ((n : ℕ) → a.0 ≡ some n → (n ≤ length bytes) × (written a.1 ≡ start ++ take n bytes))
      → ((n : ℕ)
          → n ≢ 0
          → n ≤ length bytes
          → written a.1 ≡ start ++ take n bytes
          → Ends (count + n) (written a.1) (drop n bytes) (rest n a.1))
      → Ends count start bytes (wrote io a rest)
  unfolding wrote
  wrote-Ends count start bytes (none, w) rest fails counts more =
      ([], bytes, refl, fails refl ∙ sym (append-nil start))
  wrote-Ends count start bytes (some zero, w) rest fails counts more =
      ([], bytes, refl, (counts 0 refl).1)
  wrote-Ends count start bytes (some (suc n), w) rest fails counts more =
      let (le, at) = counts (suc n) refl in
      let e : (suc n == 0) ≡ false = ground arith in
      let size : suc n ≡ length (take (suc n) bytes) = omega (arith, length-take (suc n) bytes) in
      rw e (
        subst (λ l. Ends count start l (rest (suc n) w)) (take-append-drop (suc n) bytes)
          (Ends-more count (suc n) start (take (suc n) bytes) (drop (suc n) bytes) (rest (suc n) w)
            size
            (subst (λ t. Ends (count + suc n) t (drop (suc n) bytes) (rest (suc n) w)) at
              (more (suc n) (λ z. absurd (omega (arith, z))) le at))))

  -- For a writer that keeps its promises, and more rounds than there are bytes.
  pub write_all_vectored-Ends :
      (fuel : ℕ) (slices : List (List ℕ)) (count : ℕ) (w : W)
      → length (joined slices) < fuel
      → Ends count (written w) (joined slices) (write_all_vectored io fuel slices count w)
  unfolding write_all_vectored
  write_all_vectored-Ends fuel [] count w h = (omega arith, sym (append-nil (written w)))
  write_all_vectored-Ends zero (s ∷ slices) count w h = absurd (omega arith)
  write_all_vectored-Ends (suc fuel) (s ∷ slices) count w h =
      let bytes = joined (s ∷ slices) in
      wrote-Ends count (written w) bytes (io.write_vectored (s ∷ slices) w)
        (λ n w'. write_all_vectored io fuel (advance_slices n (s ∷ slices)) (count + n) w')
        (l.not_taken (s ∷ slices) w) (l.taken (s ∷ slices) w)
        (λ n ne le at.
          let (e, starts) = joined-advance_slices n (s ∷ slices) le in
          let w' = (io.write_vectored (s ∷ slices) w).1 in
          subst
            (λ b.
              Ends (count + n) (written w') b
                (write_all_vectored io fuel (advance_slices n (s ∷ slices)) (count + n) w'))
            e
            (write_all_vectored-Ends fuel (advance_slices n (s ∷ slices)) (count + n) w'
              (omega (arith, ap length e, length-drop n bytes, ne))))

-- A writer that stays open takes everything, when the first slice is not empty.
module _ {W : Type 0} (io : AsyncWrite W) (written : W → List ℕ) (l : IsLawfulWrite io written)
    (o : IsOpen io) where
  wrote_open :
      (a : Option ℕ × W) (rest : ℕ → W → Io × W) (n : ℕ)
      → a.0 ≡ some (suc n)
      → wrote io a rest ≡ rest (suc n) a.1
  unfolding wrote
  wrote_open (none, w) rest n e = absurd (cc)
  wrote_open (some k, w) rest n e =
      let same : k ≡ suc n = cc in
      rw same (let f : (suc n == 0) ≡ false = ground arith in rw f refl)

  pub write_all_vectored-ok :
      (fuel : ℕ) (slices : List (List ℕ)) (count : ℕ) (w : W)
      → length (joined slices) < fuel
      → Starts slices
      → (write_all_vectored io fuel slices count w).0 ≡ ok (count + length (joined slices))
  unfolding write_all_vectored
  write_all_vectored-ok fuel [] count w h st = ap ok (omega arith)
  write_all_vectored-ok zero (s ∷ slices) count w h st = absurd (omega arith)
  write_all_vectored-ok (suc fuel) (s ∷ slices) count w h st =
      let bytes = joined (s ∷ slices) in
      let (n, e) = o.accepts (s ∷ slices) w (omega (arith, length-append s (joined slices), st)) in
      let (le, at) = l.taken (s ∷ slices) w (suc n) e in
      let (f, starts) = joined-advance_slices (suc n) (s ∷ slices) le in
      let size : length (joined (advance_slices (suc n) (s ∷ slices))) ≡ length bytes - suc n =
        ap length f ∙ length-drop (suc n) bytes in
      ap (λ r. r.0)
        (wrote_open (io.write_vectored (s ∷ slices) w)
          (λ m w'. write_all_vectored io fuel (advance_slices m (s ∷ slices)) (count + m) w') n e)
      ∙ write_all_vectored-ok fuel (advance_slices (suc n) (s ∷ slices)) (count + suc n)
          (io.write_vectored (s ∷ slices) w).1 (omega arith) starts
      ∙ ap ok (omega arith)
