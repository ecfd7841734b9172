-- ===== src/Codec/Outcome.antt =====
-- Outcomes of a write and of a read against a lawful writer and reader, and their rules for `?`.
use thubo.Prelude.{
  ℕ, ◌+◌, ◌≤◌, ◌<◌, ◌≡◌, refl, sym, ◌∙◌, ap, List, [], ◌++◌, append-nil, ◌⊎◌, inl, inr, Option,
  some, none, Op, ◌>>=◌, >>=-some, >>=-none, pure, arith, length, length-append, append_assoc,
}
use native.Mathlib.Decide.{dec_le}
use thubo.Buffers.Interface.{Writer, LawfulWriter, Reader, LawfulReader}

module _ {W : Type 0} {w : Writer W} (l : LawfulWriter w) where
  -- The write has appended `bs`.
  pub record Appends {A : Type 0} (s : W) (bs : List ℕ) (o : Option A × W) (a : A) : Type 0 where
    pub result : o.0 ≡ some a
    pub bytes : l.contents o.1 ≡ l.contents s ++ bs
    pub space : l.room o.1 + length bs ≡ l.room s
    pub valid : l.IsValid o.1

  pub Appends-bind :
      {A B : Type 0} (s : W) (xs bs : List ℕ) (m : Op W A) (f : A → Op W B) (a : A) (b : B)
      → Appends s xs (m s) a
      → Appends (m s).1 bs (f a (m s).1) b
      → Appends s (xs ++ bs) ((m >>= f) s) b
  Appends-bind s xs bs m f a b p q = rw (>>=-some m f s a p.result) (record {
    result = q.result;
    bytes = q.bytes ∙ ap (λ t. t ++ bs) p.bytes ∙ append_assoc (l.contents s) xs bs;
    space = omega (arith, p.space, q.space, length-append xs bs);
    valid = q.valid;
  })

  -- The write has failed, and has left some bytes behind the others.
  pub record Fails {A : Type 0} (s : W) (o : Option A × W) : Type 0 where
    pub result : o.0 ≡ none
    pub behind : List ℕ
    pub bytes : l.contents o.1 ≡ l.contents s ++ behind
    pub space : l.room o.1 + length behind ≡ l.room s
    pub valid : l.IsValid o.1

  pub Fails-same : {A : Type 0} (s : W) (o : Option A × W) → l.IsValid s → o ≡ (none, s) → Fails s o
  Fails-same s o v e = rw e (record {
    result = refl;
    behind = [];
    bytes = sym (append-nil (l.contents s));
    space = omega arith;
    valid = v;
  })

  pub Fails-bind-first :
      {A B : Type 0} (s : W) (m : Op W A) (f : A → Op W B) → Fails s (m s) → Fails s ((m >>= f) s)
  Fails-bind-first s m f p = rw (>>=-none m f s p.result) (record {
    result = refl;
    behind = p.behind;
    bytes = p.bytes;
    space = p.space;
    valid = p.valid;
  })

  pub Fails-bind-second :
      {A B : Type 0} (s : W) (xs : List ℕ) (m : Op W A) (f : A → Op W B) (a : A)
      → Appends s xs (m s) a
      → Fails (m s).1 (f a (m s).1)
      → Fails s ((m >>= f) s)
  Fails-bind-second s xs m f a p q = rw (>>=-some m f s a p.result) (record {
    result = q.result;
    behind = xs ++ q.behind;
    bytes = q.bytes ∙ ap (λ t. t ++ q.behind) p.bytes ∙ append_assoc (l.contents s) xs q.behind;
    space = omega (arith, p.space, q.space, length-append xs q.behind);
    valid = q.valid;
  })

  -- The write appends `bs` and returns `a` if there is room, and fails if there is none.
  pub record Writes {A : Type 0} (s : W) (bs : List ℕ) (o : Option A × W) (a : A) : Type 0 where
    pub fits : length bs ≤ l.room s → Appends s bs o a
    pub full : l.room s < length bs → Fails s o

  -- Which of the two it is, by whether there is room.
  abbrev pub Written : {A : Type 0} → W → List ℕ → Option A × W → A → Type 0
  Written s bs o a =
      (length bs ≤ l.room s) × Appends s bs o a ⊎ (l.room s < length bs) × (o.0 ≡ none)

  pub Writes-Written :
      {A : Type 0} (s : W) (bs : List ℕ) (o : Option A × W) (a : A)
      → Writes s bs o a
      → Written s bs o a
  Writes-Written s bs o a p = elim (dec_le (length bs) (l.room s)) [
    | yes le ↦ inl (le, p.fits le)
    | no gt ↦ inr (omega arith, (p.full (omega arith)).result)
  ]

  pub Writes-bind :
      {A B : Type 0} (s : W) (xs bs : List ℕ) (m : Op W A) (f : A → Op W B) (a : A) (b : B)
      → Writes s xs (m s) a
      → (l.IsValid (m s).1 → Writes (m s).1 bs (f a (m s).1) b)
      → Writes s (xs ++ bs) ((m >>= f) s) b
  Writes-bind s xs bs m f a b p q = record {
    fits = λ h.
        let u = p.fits (omega (arith, length-append xs bs)) in
        Appends-bind s xs bs m f a b u
          ((q u.valid).fits (omega (arith, length-append xs bs, u.space)));
    full = λ h. elim (dec_le (length xs) (l.room s)) [
      | yes le ↦
          let u = p.fits le in
          Fails-bind-second s xs m f a u
            ((q u.valid).full (omega (arith, length-append xs bs, u.space)))
      | no gt ↦ Fails-bind-first s m f (p.full (omega arith))
    ];
  }

  pub Writes-pure :
      {A B : Type 0} (s : W) (bs : List ℕ) (m : Op W A) (a : A) (b : B)
      → Writes s bs (m s) a
      → Writes s bs ((m >>= λ _. pure b) s) b
  Writes-pure s bs m a b p = record {
    fits = λ h.
        let u = p.fits h in
        rw (>>=-some m (λ _. pure b) s a u.result)
          (record { result = refl; bytes = u.bytes; space = u.space; valid = u.valid });
    full = λ h. Fails-bind-first s m (λ _. pure b) (p.full h);
  }

module _ {R : Type 0} {r : Reader R} (l : LawfulReader r) where
  -- The read has returned `a` and left the bytes `t`.
  pub record Yields {A : Type 0} (o : Option A × R) (a : A) (t : List ℕ) : Type 0 where
    pub result : o.0 ≡ some a
    pub rest : l.rest o.1 ≡ t
    pub valid : l.IsValid o.1

  pub Yields-bind :
      {A B : Type 0} (s : R) (t u : List ℕ) (m : Op R A) (f : A → Op R B) (a : A) (b : B)
      → Yields (m s) a t
      → Yields (f a (m s).1) b u
      → Yields ((m >>= f) s) b u
  Yields-bind s t u m f a b p q = rw (>>=-some m f s a p.result) q

  -- A value made of what was read.
  pub Yields-pure :
      {A B : Type 0} (s : R) (t : List ℕ) (m : Op R A) (f : A → B) (a : A)
      → Yields (m s) a t
      → Yields ((m >>= λ x. pure (f x)) s) (f a) t
  Yields-pure s t m f a p =
      Yields-bind s t t m (λ x. pure (f x)) a (f a) p
        (record { result = refl; rest = p.rest; valid = p.valid })
