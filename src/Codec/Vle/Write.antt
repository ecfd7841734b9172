-- ===== src/Codec/Vle/Write.antt =====
-- `write` puts the encoding of an integer behind what a lawful writer holds.
use thubo.Prelude.{ℕ, ◌≢◌, ap, [], ◌∷◌, arith, length}
use thubo.Buffers.Interface.{Writer, LawfulWriter}
use thubo.Codec.Outcome.{Writes, Writes-pure, Fails-same}
use thubo.Codec.Vle.{vle_len, fill, write_u8, write_u64}
use thubo.Codec.Vle.Encoding.{IsU64, groups, encoding, vle_len-eq-length, length-groups}
use thubo.Codec.Vle.Fill.{fill-Fills}

module _ {W : Type 0} ⦃w : Writer W⦄ (l : LawfulWriter w) where
  groups-ne-nil : (k x : ℕ) → groups k x ≢ []
  groups-ne-nil k x e = absurd (omega (arith, length-groups k x, ap length e))

  pub write_u64-Writes :
      (x : ℕ) (s : W) → IsU64 x → l.IsValid s → Writes l s (encoding x) (write_u64 x s) tt
  unfolding write_u64
  write_u64-Writes x s u valid =
      Writes-pure l s (encoding x) (w.with_slot (vle_len x) (fill x)) (length (encoding x)) tt
        (record {
          fits = λ h.
              let (a, b, c, d) =
                l.with_slot-fits (vle_len x) (fill x) (encoding x) s valid (groups-ne-nil 8 x)
                  (fill-Fills x u) (omega (arith, vle_len-eq-length x u))
                  (omega (arith, vle_len-eq-length x u)) in
              record { result = a; bytes = b; space = c; valid = d };
          full = λ h. Fails-same l s _ valid (
              l.with_slot-full (vle_len x) (fill x) s valid (omega (arith, vle_len-eq-length x u)));
        })

  pub write_u8-Writes : (b : ℕ) (s : W) → l.IsValid s → Writes l s (b ∷ []) (write_u8 b s) tt
  unfolding write_u8
  write_u8-Writes b s valid = rw (l.write_u8-eq b s) (record {
    fits = λ h.
        let (p, q, t, v) = l.write_exact-fits (b ∷ []) s valid h in
        record { result = p; bytes = q; space = t; valid = v };
    full = λ h. Fails-same l s _ valid (l.write_exact-full (b ∷ []) s valid h);
  })
