-- ===== src/Collections/SingleOrVec/Iter.antt =====
-- src/collections/single_or_vec.rs: `into_iter`, its `next`, and `drain`.
use thubo.Prelude.{
  ℕ, ◌∙◌, zero, suc, ◌+◌, ◌-◌, ◌≡◌, refl, ap, ◌≤◌, List, [], ◌∷◌, ◌++◌, Option, some, none, take,
  drop, length, ltb, if◌then◌else◌, arith,
}
use thubo.Collections.SingleOrVec.{
  SingleOrVec, single, vec, as_slice, len, Bound, included, excluded, unbounded, IntoIter,
}

abbrev pub start_delta : Bound → ℕ
start_delta (included n) = n
start_delta (excluded n) = n + 1
start_delta unbounded = 0

module _ {ℓ} {T : Type ℓ} where
  -- `next_back` of the iterator of a `Vec`
  unfoldable pub next_back : List T → Option T × List T
  next_back [] = (none, [])
  next_back (x ∷ []) = (some x, [])
  next_back (x ∷ y ∷ ys) = let (o, rest) = next_back (y ∷ ys) in (o, x ∷ rest)

  unfoldable pub into_iter : SingleOrVec T → IntoIter T
  unfolding next_back
  into_iter (single first) = record { drain = []; last = some first }
  into_iter (vec v) = let (last, it) = next_back v.items in record { drain = it; last = last }

  -- `next`: `drain.next().or_else(|| last.take())`
  unfoldable pub next : IntoIter T → Option T × IntoIter T
  next it = elim it.drain [
    | [] ↦ (it.last, record it { last = none })
    | x ∷ xs ↦ (some x, record it { drain = xs })
  ]

  unfoldable pub or_end : Option T × IntoIter T → (IntoIter T → List T) → List T
  or_end (none, it) rest = []
  or_end (some x, it) rest = x ∷ rest it

  -- What a loop over the iterator sees in so many rounds.
  unfoldable pub collect : ℕ → IntoIter T → List T
  unfolding next or_end
  collect zero it = []
  collect (suc n) it = or_end (next it) (collect n)

  abbrev pub end_delta : Bound → SingleOrVec T → ℕ
  end_delta (included n) s = n + 1
  end_delta (excluded n) s = n
  end_delta unbounded s = len s

  -- `none` is the panic of `end_delta - start_delta` in a build that checks for overflow.
  unfoldable pub drain : Bound → Bound → SingleOrVec T → Option (List T)
  unfolding collect into_iter
  drain start end s =
      let start_delta = start_delta start in
      let end_delta = end_delta end s in
      if ltb end_delta start_delta
      then none
      else some
          (take (end_delta - start_delta) (drop start_delta (collect (suc (len s)) (into_iter s))))

  abbrev optional : Option T → List T
  optional none = []
  optional (some x) = x ∷ []

  next_back_lem : (xs : List T) → (next_back xs).1 ++ optional (next_back xs).0 ≡ xs
  unfolding next_back
  next_back_lem [] = refl
  next_back_lem (x ∷ []) = refl
  next_back_lem (x ∷ y ∷ ys) = ap (λ l. x ∷ l) (next_back_lem (y ∷ ys))

  collect-drain :
      (n : ℕ) (xs : List T) (o : Option T)
      → length (xs ++ optional o) ≤ n
      → collect n (record { drain = xs; last = o }) ≡ xs ++ optional o
  unfolding collect
  collect-drain zero [] none h = refl
  collect-drain zero [] (some x) h = absurd (omega arith)
  collect-drain zero (x ∷ xs) o h = absurd (omega arith)
  collect-drain (suc n) [] none h = refl
  collect-drain (suc zero) [] (some x) h = refl
  collect-drain (suc (suc n)) [] (some x) h = refl
  collect-drain (suc n) (x ∷ xs) o h = ap (λ l. x ∷ l) (collect-drain n xs o (omega arith))

  -- The iterator sees the elements in order, and then ends.
  pub collect-into_iter :
      (n : ℕ) (s : SingleOrVec T) → len s ≤ n → collect n (into_iter s) ≡ as_slice s
  unfolding into_iter as_slice len
  collect-into_iter n (single t) h = collect-drain n [] (some t) (omega arith)
  collect-into_iter n (vec v) h =
      let e = next_back_lem v.items in
      collect-drain n (next_back v.items).1 (next_back v.items).0 (omega (arith, ap length e)) ∙ e
