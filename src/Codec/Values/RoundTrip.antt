-- ===== src/Codec/Values/RoundTrip.antt =====
-- What the values of the codec are written as, and that reading gives them back.
use thubo.Prelude.{
  ℕ, ◌%◌, ◌^◌, ◌<◌, ◌≡◌, refl, ap, sym, inl, inr, none, ◌∙◌, List, [], ◌∷◌, ◌++◌, some, pure, arith,
  length, take, drop, append_assoc, append-nil, length-append, take-append, drop-append,
}
use thubo.Buffers.Interface.{Writer, LawfulWriter, Reader, LawfulReader, joined}
use thubo.Buffers.Bytes
use thubo.Buffers.Bytes.Cursor.{len-joined}
use thubo.Buffers.Bytes.View.{joined-extend}
use thubo.Protocol.SeqNum
use thubo.Protocol.SeqNum.{SeqNum, IsSeqNum}
use thubo.Codec.Outcome.{
  Writes, Writes-bind, Fails-same, Written, Writes-Written, Yields, Yields-bind, Yields-pure,
}
use thubo.Codec.Vle.{write_u64, read_u64, read_u32, read_usize}
use thubo.Codec.Vle.Encoding.{IsU64, encoding}
use thubo.Codec.Vle.Write.{write_u64-Writes}
use thubo.Codec.Vle.Decode.{read_u64-encoding}
use thubo.Protocol.SeqNum.{new-eq-mod}
use thubo.Codec.Values.{
  write_seq_num, write_chunks, write_bytes, read_seq_num, read_payload, read_bytes,
}

abbrev pub encode_slice : List ℕ → List ℕ
encode_slice x = encoding (length x) ++ x

module _ {W : Type 0} ⦃w : Writer W⦄ (l : LawfulWriter w) where
  write_exact-Writes : (x : List ℕ) (s : W) → l.IsValid s → Writes l s x (w.write_exact x s) tt
  write_exact-Writes x s valid = record {
    fits = λ h.
        let (p, q, t, v) = l.write_exact-fits x s valid h in
        record { result = p; bytes = q; space = t; valid = v };
    full = λ h. Fails-same l s _ valid (l.write_exact-full x s valid h);
  }

  pub write_seq_num-Writes :
      (x : SeqNum) (s : W)
      → IsSeqNum x
      → l.IsValid s
      → Writes l s (encoding x) (write_seq_num x s) tt
  unfolding write_seq_num
  write_seq_num-Writes x s h valid = write_u64-Writes l x s (omega arith) valid

  nothing : (s : W) → l.IsValid s → Writes l s [] (pure tt s) tt
  nothing s valid = record {
    fits = λ h. record {
      result = refl;
      bytes = sym (append-nil (l.contents s));
      space = omega arith;
      valid = valid;
    };
    full = λ h. absurd (omega arith);
  }

  write_chunks-Writes :
      (cs : List (List ℕ)) (s : W) → l.IsValid s → Writes l s (joined cs) (write_chunks cs s) tt
  unfolding write_chunks
  write_chunks-Writes [] s valid = nothing s valid
  write_chunks-Writes (c ∷ cs) s valid =
      Writes-bind l s c (joined cs) (w.write_exact c) (λ _. write_chunks cs) tt tt
        (write_exact-Writes c s valid) (λ v. write_chunks-Writes cs (w.write_exact c s).1 v)

  pub write_bytes-Writes :
      (cs : List (List ℕ)) (s : W)
      → IsU64 (length (joined cs))
      → l.IsValid s
      → Writes l s (encode_slice (joined cs)) (write_bytes cs s) tt
  unfolding write_bytes
  write_bytes-Writes cs s u valid = rw (len-joined cs) (
      Writes-bind l s (encoding (length (joined cs))) (joined cs) (write_u64 (length (joined cs)))
        (λ _. write_chunks cs) tt tt (write_u64-Writes l _ s u valid)
        (λ v. write_chunks-Writes cs _ v))

  -- For a buffer of fewer than 2 ^ 64 bytes and a valid writer: `write` appends the length of the
  -- buffer and its bytes, however they are cut into chunks, if there is room for them, and fails if
  -- there is not.
  pub write_bytes-Written :
      (cs : List (List ℕ)) (s : W)
      → IsU64 (length (joined cs))
      → l.IsValid s
      → Written l s (encode_slice (joined cs)) (write_bytes cs s) tt
  write_bytes-Written cs s u valid =
      Writes-Written l s (encode_slice (joined cs)) (write_bytes cs s) tt
        (write_bytes-Writes cs s u valid)

module _ {R : Type 0} ⦃r : Reader R⦄ (l : LawfulReader r) where
  read_u32-encoding :
      (x : ℕ) (s : R) (t : List ℕ)
      → x < 2 ^ 32
      → l.IsValid s
      → l.rest s ≡ encoding x ++ t
      → Yields l (read_u32 s) x t
  unfolding read_u32
  read_u32-encoding x s t h valid e =
      let same : x % 2 ^ 32 ≡ x = omega arith in
      rw (← same) (
        Yields-pure l s t read_u64 (λ y. y % 2 ^ 32) x
          (read_u64-encoding l x s t (omega arith) valid e))

  pub read_seq_num-encoding :
      (x : SeqNum) (s : R) (t : List ℕ)
      → IsSeqNum x
      → l.IsValid s
      → l.rest s ≡ encoding x ++ t
      → Yields l (read_seq_num s) x t
  unfolding read_seq_num
  read_seq_num-encoding x s t h valid e =
      let same : SeqNum.new x ≡ x = omega (arith, new-eq-mod x) in
      rw (← same)
        (Yields-pure l s t read_u32 SeqNum.new x (read_u32-encoding x s t (omega arith) valid e))

  payload_contiguous :
      (n : ℕ) (s : R) (c : List ℕ)
      → 0 < n
      → (r.read_chunk_contiguous n s).0 ≡ some c
      → read_payload n s ≡ (some (c ∷ []), (r.read_chunk_contiguous n s).1)
  unfolding read_payload
  payload_contiguous n s c pos e = ground arith

  payload_chunks :
      (n : ℕ) (s : R) (cs : List (List ℕ))
      → 0 < n
      → (r.read_chunk_contiguous n s).0 ≡ none
      → (r.read_chunks n (r.read_chunk_contiguous n s).1).0 ≡ some cs
      → read_payload n s
        ≡ (some (Bytes.extend [] cs), (r.read_chunks n (r.read_chunk_contiguous n s).1).1)
  unfolding read_payload
  payload_chunks n s cs pos e f = ground (arith, e, f)

  -- Reading the payload of a buffer takes the length that was written, on both ways of reading.
  read_payload-joined :
      (p : List ℕ) (s : R) (t : List ℕ)
      → l.IsValid s
      → l.rest s ≡ p ++ t
      → (cs : List (List ℕ)) × (joined cs ≡ p) × Yields l (read_payload (length p) s) cs t
  unfolding read_payload
  read_payload-joined [] s t valid e = ([], refl, record { result = refl; rest = e; valid = valid })
  read_payload-joined (x ∷ xs) s t valid e =
      let p = x ∷ xs in
      let n = length p in
      let pos : 0 < n = omega arith in
      let front : take n (p ++ t) ≡ p = take-append n p t refl in
      let back : drop n (p ++ t) ≡ t = drop-append n p t refl in
      elim (l.read_chunk_contiguous-cases n s valid pos) [
        | inl (room, (got, left, ok)) ↦ (
          take n (l.rest s) ∷ [],
          append-nil (take n (l.rest s)) ∙ ap (take n) e ∙ front,
          rw (payload_contiguous n s (take n (l.rest s)) pos got)
              (record { result = refl; rest = left ∙ ap (drop n) e ∙ back; valid = ok }),
        )
        | inr (got, left, ok) ↦
            let s' = (r.read_chunk_contiguous n s).1 in
            let rest' : l.rest s' ≡ p ++ t = left ∙ e in
            let (cs, bytes, taken) =
              l.read_chunks-fits n s' ok (omega (arith, ap length rest', length-append p t)) in
            (
              Bytes.extend [] cs,
              joined-extend [] cs ∙ bytes ∙ ap (take n) rest' ∙ front,
              rw (payload_chunks n s cs pos got taken.0) (record {
                result = refl;
                rest = taken.1 ∙ ap (drop n) rest' ∙ back;
                valid = taken.2;
              }),
            )
      ]

  -- For fewer than 2 ^ 64 bytes and a valid reader at their length and themselves: `read` of a buffer
  -- returns chunks that are these bytes together, and leaves the reader valid at the bytes behind.
  pub read_bytes-encoding :
      (p : List ℕ) (s : R) (t : List ℕ)
      → IsU64 (length p)
      → l.IsValid s
      → l.rest s ≡ encode_slice p ++ t
      → (cs : List (List ℕ)) × (joined cs ≡ p) × Yields l (read_bytes s) cs t
  unfolding read_bytes read_usize
  read_bytes-encoding p s t u valid e =
      let len =
        read_u64-encoding l (length p) s (p ++ t) u valid
          (e ∙ append_assoc (encoding (length p)) p t) in
      let (cs, bytes, y) = read_payload-joined p (read_u64 s).1 t len.valid len.rest in
      (cs, bytes, Yields-bind l s (p ++ t) t read_u64 read_payload (length p) cs len y)
