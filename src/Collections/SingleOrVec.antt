-- ===== src/Collections/SingleOrVec.antt =====
-- src/collections/single_or_vec.rs: a collection that keeps one element inline.
pub mod Iter
pub mod View
use thubo.Prelude.{
  ℕ, zero, suc, ◌+◌, ◌-◌, List, [], ◌∷◌, ◌++◌, Option, some, none, Bool, true, false, if◌then◌else◌,
  ◌==◌, leb, length, get_elem?, set, take, drop,
}

-- A `Vec`, and whether its capacity is not 0. It is not for `Vec::new()`, and nothing takes it back.
pub record Vec {ℓ} (T : Type ℓ) : Type ℓ where
  pub items : List T
  pub is_allocated : Bool

pub data SingleOrVec {ℓ} (T : Type ℓ) : Type ℓ where
  single : T → SingleOrVec T
  vec : Vec T → SingleOrVec T

-- A range of indices, `RangeBounds<usize>`
pub data Bound : Type 0 where
  included excluded : ℕ → Bound
  unbounded : Bound

-- `IntoIter`
pub record IntoIter {ℓ} (T : Type ℓ) : Type ℓ where
  pub drain : List T
  pub last : Option T

module _ {ℓ} {T : Type ℓ} where
  unfoldable pub new : SingleOrVec T
  new = vec (record { items = []; is_allocated = false })

  unfoldable pub push : T → SingleOrVec T → SingleOrVec T
  push value (single first) = vec (record { items = first ∷ value ∷ []; is_allocated = true })
  push value (vec v) =
      if v.is_allocated
      then vec (record { items = v.items ++ (value ∷ []); is_allocated = true })
      else single value

  unfoldable pub truncate : ℕ → SingleOrVec T → SingleOrVec T
  unfolding new
  truncate len (single t) = if len == 0 then new else single t
  truncate len (vec v) = vec (record v { items = take len v.items })

  unfoldable pub clear : SingleOrVec T → SingleOrVec T
  unfolding truncate
  clear s = truncate 0 s

  unfoldable pub len : SingleOrVec T → ℕ
  len (single t) = 1
  len (vec v) = length v.items

  unfoldable pub is_empty : SingleOrVec T → Bool
  unfolding len
  is_empty s = len s == 0

  unfoldable pub as_slice : SingleOrVec T → List T
  as_slice (single t) = t ∷ []
  as_slice (vec v) = v.items

  -- The collection when its `as_mut_slice` has been written to.
  unfoldable pub as_mut_slice : (List T → List T) → SingleOrVec T → SingleOrVec T
  as_mut_slice f (single t) = elim (f (t ∷ [])) [ [] ↦ single t | x ∷ xs ↦ single x ]
  as_mut_slice f (vec v) = vec (record v { items = f v.items })

  unfoldable pub get : ℕ → SingleOrVec T → Option T
  unfolding as_slice
  get index s = get_elem? (as_slice s) index

  -- The collection when the element that `get_mut` returns has been written to, if it returns one.
  unfoldable pub get_mut : ℕ → T → SingleOrVec T → SingleOrVec T
  unfolding as_mut_slice
  get_mut index value s = as_mut_slice (λ l. set l index value) s

  unfoldable pub extend : List T → SingleOrVec T → SingleOrVec T
  unfolding push
  extend [] s = s
  extend (value ∷ iter) s = extend iter (push value s)
