-- ===== src/Codec/Messages/RoundTrip.antt =====
-- What the headers of a batch are written as, and that reading gives them back.
use thubo.Prelude.{
  ℕ, ◌+◌, ◌≡◌, refl, ◌∙◌, List, [], ◌∷◌, ◌++◌, ◌>>=◌, ◌>>◌, pure, arith, length, append_assoc,
  length-append, bit_and,
}
use thubo.Buffers.Interface.{Writer, LawfulWriter, Reader, LawfulReader}
use thubo.Protocol.SeqNum.{SeqNum, IsSeqNum}
use thubo.Protocol.Message.{
  MessageHeader, MessageBody, Message, frame, fragment, id_mask, frame_id, fragment_id,
  frame_from_u8, fragment_from_parts, header_from_parts,
}
use thubo.Codec.Outcome.{
  Writes, Writes-bind, Writes-pure, Written, Writes-Written, Yields, Yields-bind, Yields-pure,
}
use thubo.Codec.Vle.{write_u8, read_u8}
use thubo.Codec.Vle.Encoding.{encoding, vle_len-eq-length}
use thubo.Codec.Vle.Write.{write_u8-Writes}
use thubo.Codec.Values.{w_len_seq_num, write_seq_num, read_seq_num}
use thubo.Codec.Values.RoundTrip.{write_seq_num-Writes, read_seq_num-encoding}
use thubo.Codec.Messages.{
  write_header, write_body, write_message, read_fragment_body, read_header, read_body, read_message,
  read_frame_case, read_fragment_case, read_body_case, w_len_message,
}

-- The headers that the source builds: the type in the low bits of the body's byte tells a frame from
-- a fragment, and the numbers have 28 bits.
abbrev pub IsBody : MessageBody → Type 0
IsBody (frame f) = bit_and f.header id_mask ≡ frame_id
IsBody (fragment f) = (bit_and f.header id_mask ≡ fragment_id) × IsSeqNum f.frag_id

abbrev pub IsMessage : Message → Type 0
IsMessage m = IsSeqNum m.header.seq_num × IsBody m.body

abbrev pub encode_header : MessageHeader → List ℕ
encode_header h = h.header ∷ encoding h.seq_num

abbrev pub encode_body : MessageBody → List ℕ
encode_body (frame f) = f.header ∷ []
encode_body (fragment f) = f.header ∷ encoding f.frag_id

abbrev pub encode_message : Message → List ℕ
encode_message m = encode_header m.header ++ encode_body m.body

-- For the headers that the source builds: `w_len` of a message is the number of bytes of its encoding.
pub w_len_message-eq-length :
    (m : Message) → IsMessage m → w_len_message m ≡ length (encode_message m)
unfolding w_len_message w_len_seq_num
w_len_message-eq-length m h =
    rw (length-append (encode_header m.header) (encode_body m.body)) (go m.body h.1)
  where
    go :
        (b : MessageBody)
        → IsBody b
        → w_len_message (record m { body = b })
          ≡ length (encode_header m.header) + length (encode_body b)
    go (frame f) k = omega (arith, vle_len-eq-length m.header.seq_num (omega arith))
    go (fragment f) k = omega (
      arith,
      vle_len-eq-length m.header.seq_num (omega arith),
      vle_len-eq-length f.frag_id (omega arith),
    )

module _ {W : Type 0} ⦃w : Writer W⦄ (l : LawfulWriter w) where
  -- A byte and a sequence number behind it.
  byte_seq_num :
      (b : ℕ) (x : SeqNum) (s : W)
      → IsSeqNum x
      → l.IsValid s
      → Writes l s (b ∷ encoding x) ((write_u8 b >> (write_seq_num x >> pure tt)) s) tt
  byte_seq_num b x s h valid =
      Writes-bind l s (b ∷ []) (encoding x) (write_u8 b) (λ _. write_seq_num x >> pure tt) tt tt
        (write_u8-Writes l b s valid)
        (λ v. Writes-pure l _ (encoding x) (write_seq_num x) tt tt (write_seq_num-Writes l x _ h v))

  write_body-Writes :
      (b : MessageBody) (s : W)
      → IsBody b
      → l.IsValid s
      → Writes l s (encode_body b) (write_body b s) tt
  unfolding write_body
  write_body-Writes (frame f) s h valid =
      Writes-pure l s (f.header ∷ []) (write_u8 f.header) tt tt (write_u8-Writes l f.header s valid)
  write_body-Writes (fragment f) s h valid = byte_seq_num f.header f.frag_id s h.1 valid

  pub write_message-Writes :
      (m : Message) (s : W)
      → IsMessage m
      → l.IsValid s
      → Writes l s (encode_message m) (write_message m s) tt
  unfolding write_message
  write_message-Writes m s h valid =
      Writes-bind l s (encode_header m.header) (encode_body m.body) (write_header m.header)
        (λ _. write_body m.body >> pure tt) tt tt
        (byte_seq_num m.header.header m.header.seq_num s h.0 valid)
        (λ v.
          Writes-pure l _ (encode_body m.body) (write_body m.body) tt tt
            (write_body-Writes m.body _ h.1 v))

  -- For the headers that the source builds and a valid writer: `write` of a message appends its
  -- encoding if there is room for it, and fails if there is not.
  pub write_message-Written :
      (m : Message) (s : W)
      → IsMessage m
      → l.IsValid s
      → Written l s (encode_message m) (write_message m s) tt
  write_message-Written m s h valid =
      Writes-Written l s (encode_message m) (write_message m s) tt
        (write_message-Writes m s h valid)

module _ {R : Type 0} ⦃r : Reader R⦄ (l : LawfulReader r) where
  read_u8-Yields :
      (b : ℕ) (s : R) (t : List ℕ) → l.IsValid s → l.rest s ≡ b ∷ t → Yields l (read_u8 s) b t
  unfolding read_u8
  read_u8-Yields b s t valid e =
      let (p, q, v) = l.read_u8-cons s b t valid e in record { result = p; rest = q; valid = v }

  read_header-encoding :
      (h : MessageHeader) (s : R) (t : List ℕ)
      → IsSeqNum h.seq_num
      → l.IsValid s
      → l.rest s ≡ encode_header h ++ t
      → Yields l (read_header s) h t
  unfolding read_header
  read_header-encoding h s t k valid e =
      let y = read_u8-Yields h.header s (encoding h.seq_num ++ t) valid e in
      Yields-bind l s (encoding h.seq_num ++ t) t read_u8
        (λ b. (read_seq_num >>= λ x. pure (header_from_parts b x))) h.header h y
        (Yields-pure l _ t read_seq_num (header_from_parts h.header) h.seq_num
          (read_seq_num-encoding l h.seq_num _ t k y.valid y.rest))

  read_frame_case_lem :
      (b : ℕ) (s : R) (t : List ℕ)
      → l.IsValid s
      → l.rest s ≡ t
      → Yields l (read_frame_case b s) (frame (frame_from_u8 b)) t
  unfolding read_frame_case
  read_frame_case_lem b s t valid e = record { result = refl; rest = e; valid = valid }

  read_fragment_case_lem :
      (b : ℕ) (x : SeqNum) (s : R) (t : List ℕ)
      → IsSeqNum x
      → l.IsValid s
      → l.rest s ≡ encoding x ++ t
      → Yields l (read_fragment_case b s) (fragment (fragment_from_parts b x)) t
  unfolding read_fragment_case
  read_fragment_case_lem b x s t k valid e =
      Yields-pure l s t (read_fragment_body b) fragment (fragment_from_parts b x) (
        Yields-pure l s t read_seq_num (fragment_from_parts b) x
          (read_seq_num-encoding l x s t k valid e))

  read_body_case-frame :
      (b : ℕ) → bit_and b id_mask ≡ frame_id → read_body_case {R = R} b ≡ read_frame_case b
  unfolding read_body_case
  read_body_case-frame b e = rw e

  read_body_case-fragment :
      (b : ℕ) → bit_and b id_mask ≡ fragment_id → read_body_case {R = R} b ≡ read_fragment_case b
  unfolding read_body_case
  read_body_case-fragment b e = rw e

  read_body-encoding :
      (b : MessageBody) (s : R) (t : List ℕ)
      → IsBody b
      → l.IsValid s
      → l.rest s ≡ encode_body b ++ t
      → Yields l (read_body s) b t
  unfolding read_body
  read_body-encoding (frame f) s t k valid e =
      let y = read_u8-Yields f.header s t valid e in
      Yields-bind l s t t read_u8 read_body_case f.header (frame f) y (
        rw (read_body_case-frame f.header k)
          (read_frame_case_lem f.header (read_u8 s).1 t y.valid y.rest))
  read_body-encoding (fragment f) s t (k, n) valid e =
      let y = read_u8-Yields f.header s (encoding f.frag_id ++ t) valid e in
      Yields-bind l s (encoding f.frag_id ++ t) t read_u8 read_body_case f.header (fragment f) y (
        rw (read_body_case-fragment f.header k)
          (read_fragment_case_lem f.header f.frag_id (read_u8 s).1 t n y.valid y.rest))

  -- For the headers that the source builds and a valid reader at the encoding of one: `read` returns
  -- that message, and leaves the reader valid at the bytes behind it.
  pub read_message-encoding :
      (m : Message) (s : R) (t : List ℕ)
      → IsMessage m
      → l.IsValid s
      → l.rest s ≡ encode_message m ++ t
      → Yields l (read_message s) m t
  unfolding read_message
  read_message-encoding m s t (k, b) valid e =
      let y =
        read_header-encoding m.header s (encode_body m.body ++ t) k valid
          (e ∙ append_assoc (encode_header m.header) (encode_body m.body) t) in
      Yields-bind l s (encode_body m.body ++ t) t read_header
        (λ h. (read_body >>= λ body. pure (record { header = h; body = body }))) m.header m y
        (Yields-pure l _ t read_body (λ body. record { header = m.header; body = body }) m.body
          (read_body-encoding m.body _ t b y.valid y.rest))
