-- ===== src/Collections/SingleOrVec/View.antt =====
-- A SingleOrVec as the list of its elements.
use thubo.Prelude.{
  ℕ, zero, suc, ◌-◌, ◌≤◌, ◌≡◌, refl, ap, sym, ◌∙◌, List, [], ◌∷◌, ◌++◌, some, false, take, drop,
  set, length, get_elem?, arith, append_assoc, append-nil, take_of_length_le, Bool-cases, inl, inr,
  ◌==◌, ltb,
}
use thubo.Collections.SingleOrVec.{
  included, excluded, unbounded, SingleOrVec, single, vec, new, push, truncate, clear, len,
  as_slice, as_mut_slice, get, get_mut, extend,
}
use thubo.Collections.SingleOrVec.Iter.{drain, into_iter, collect, collect-into_iter}

module _ {ℓ} {T : Type ℓ} where
  -- A `Vec` with no memory is empty.
  abbrev pub IsValid : SingleOrVec T → Type ℓ
  IsValid (single t) = Unit
  IsValid (vec v) = v.is_allocated ≡ false → v.items ≡ []

  pub as_slice-push :
      (value : T) (s : SingleOrVec T)
      → IsValid s
      → (as_slice (push value s) ≡ as_slice s ++ (value ∷ [])) × IsValid (push value s)
  unfolding push as_slice
  as_slice-push value (single first) v = (refl, λ e. absurd (cc))
  as_slice-push value (vec x) v = elim (Bool-cases x.is_allocated) [
    | inl e ↦ rw e (refl, λ f. absurd (cc f))
    | inr e ↦ rw (e, v e) (refl, tt)
  ]

  take_nil : (n : ℕ) → take {A = T} n [] ≡ []
  take_nil zero = refl
  take_nil (suc n) = refl

  as_slice-truncate :
      (n : ℕ) (s : SingleOrVec T)
      → IsValid s
      → (as_slice (truncate n s) ≡ take n (as_slice s)) × IsValid (truncate n s)
  unfolding truncate as_slice new
  as_slice-truncate zero (single t) v = (refl, λ e. refl)
  as_slice-truncate (suc n) (single t) v =
      let e : (suc n == 0) ≡ false = ground arith in rw (e, take_nil n) (refl, tt)
  as_slice-truncate n (vec x) v = (refl, λ e. ap (take n) (v e) ∙ take_nil n)

  as_slice-get_mut :
      (i : ℕ) (value : T) (s : SingleOrVec T)
      → IsValid s
      → (as_slice (get_mut i value s) ≡ set (as_slice s) i value) × IsValid (get_mut i value s)
  unfolding get_mut as_mut_slice as_slice
  as_slice-get_mut zero value (single t) v = (refl, tt)
  as_slice-get_mut (suc i) value (single t) v = (refl, tt)
  as_slice-get_mut i value (vec x) v = (refl, λ e. ap (λ l. set l i value) (v e))

  pub as_slice-extend :
      (iter : List T) (s : SingleOrVec T)
      → IsValid s
      → (as_slice (extend iter s) ≡ as_slice s ++ iter) × IsValid (extend iter s)
  unfolding extend
  as_slice-extend [] s v = (sym (append-nil (as_slice s)), v)
  as_slice-extend (x ∷ xs) s v =
      let (e, w) = as_slice-push x s v in
      let (f, u) = as_slice-extend xs (push x s) w in
      (f ∙ ap (λ l. l ++ xs) e ∙ append_assoc (as_slice s) (x ∷ []) xs, u)

  pub len-as_slice : (s : SingleOrVec T) → len s ≡ length (as_slice s)
  unfolding len as_slice
  len-as_slice (single t) = refl
  len-as_slice (vec v) = refl

-- The operations that change a collection; `write` is an assignment through `get_mut`.
pub data Op {ℓ} (T : Type ℓ) : Type ℓ where
  push_op : T → Op T
  truncate_op : ℕ → Op T
  clear_op : Op T
  extend_op : List T → Op T
  write_op : ℕ → T → Op T

module _ {ℓ} {T : Type ℓ} where
  abbrev pub apply : Op T → SingleOrVec T → SingleOrVec T
  apply (push_op x) s = push x s
  apply (truncate_op n) s = truncate n s
  apply clear_op s = clear s
  apply (extend_op l) s = extend l s
  apply (write_op i x) s = get_mut i x s

  -- The same on a list.
  abbrev pub list_apply : Op T → List T → List T
  list_apply (push_op x) l = l ++ (x ∷ [])
  list_apply (truncate_op n) l = take n l
  list_apply clear_op l = []
  list_apply (extend_op xs) l = l ++ xs
  list_apply (write_op i x) l = set l i x

  abbrev pub run : List (Op T) → SingleOrVec T → SingleOrVec T
  run [] s = s
  run (o ∷ os) s = run os (apply o s)

  abbrev pub list_run : List (Op T) → List T → List T
  list_run [] l = l
  list_run (o ∷ os) l = list_run os (list_apply o l)

  apply-as_slice :
      (o : Op T) (s : SingleOrVec T)
      → IsValid s
      → (as_slice (apply o s) ≡ list_apply o (as_slice s)) × IsValid (apply o s)
  unfolding clear
  apply-as_slice (push_op x) s v = as_slice-push x s v
  apply-as_slice (truncate_op n) s v = as_slice-truncate n s v
  apply-as_slice clear_op s v = as_slice-truncate 0 s v
  apply-as_slice (extend_op l) s v = as_slice-extend l s v
  apply-as_slice (write_op i x) s v = as_slice-get_mut i x s v

  run-as_slice :
      (os : List (Op T)) (s : SingleOrVec T)
      → IsValid s
      → as_slice (run os s) ≡ list_run os (as_slice s)
  run-as_slice [] s v = refl
  run-as_slice (o ∷ os) s v =
      let (e, w) = apply-as_slice o s v in run-as_slice os (apply o s) w ∙ ap (list_run os) e

  -- What can be read of a collection is what can be read of a list: its length, each element, whether it
  -- is empty, what a loop over it sees, and what is drained from it for a range.
  pub record Reads (s : SingleOrVec T) (l : List T) : Type ℓ where
    pub slice : as_slice s ≡ l
    pub size : len s ≡ length l
    pub element : (i : ℕ) → get i s ≡ get_elem? l i
    pub iterated : (n : ℕ) → length l ≤ n → collect n (into_iter s) ≡ l
    pub drained :
        (start end : ℕ)
        → start ≤ end
        → drain (included start) (excluded end) s ≡ some (take (end - start) (drop start l))
    pub drained_all : drain unbounded unbounded s ≡ some l

  drained_range :
      (start end : ℕ) (s : SingleOrVec T)
      → start ≤ end
      → drain (included start) (excluded end) s
        ≡ some (take (end - start) (drop start (as_slice s)))
  unfolding drain
  drained_range start end s h =
      let e : ltb end start ≡ false = ground arith in
      rw (e, collect-into_iter (suc (len s)) s (omega arith)) refl

  drained_whole : (s : SingleOrVec T) → drain unbounded unbounded s ≡ some (as_slice s)
  unfolding drain
  drained_whole s =
      let e : ltb (len s) 0 ≡ false = ground arith in
      rw (e, collect-into_iter (suc (len s)) s (omega arith))
        (ap some (take_of_length_le (len s - 0) (as_slice s) (omega (arith, len-as_slice s))))

  -- Any sequence of `push`, `truncate`, `clear`, `extend` and writes through `get_mut` on a new collection
  -- leaves one that reads as the list which the same operations on lists leave.
  pub run-Reads : (os : List (Op T)) → Reads (run os new) (list_run os [])
  unfolding get new
  run-Reads os =
      let s = run os new in
      let e : as_slice s ≡ list_run os [] = run-as_slice os new (λ e. refl) in
      rw (← e) (record {
        slice = refl;
        size = len-as_slice s;
        element = λ i. refl;
        iterated = λ n h. collect-into_iter n s (omega (arith, len-as_slice s));
        drained = λ start end h. drained_range start end s h;
        drained_all = drained_whole s;
      })
