-- ===== src/Protocol/Priority.antt =====
-- src/protocol/core/priority.rs: the four priority levels, and arrays with a slot for each.
use Prim.Native.Nat.{compare, Ordering}
use thubo.Prelude.{ℕ, zero, suc, ◌<◌, ◌≡◌, refl, ◌∙◌, List, [], ◌∷◌, arith}

pub data Priority : Type 0 where
  high medium low background : Priority

-- `priority as u8`
unfoldable pub to_u8 : Priority → ℕ
to_u8 high = 0
to_u8 medium = 1
to_u8 low = 2
to_u8 background = 3

-- `Priority::NUM`
abbrev pub num : ℕ
num = 4

-- `Priority::ALL`
abbrev pub all : List Priority
all = high ∷ medium ∷ low ∷ background ∷ []

-- `Priority::from_u8`: a transmute. Any other byte is undefined behaviour, so the caller of this
-- `unsafe` function hands over the proof that there is none.
unfoldable pub from_u8 : (v : ℕ) → v < num → Priority
from_u8 zero h = high
from_u8 (suc zero) h = medium
from_u8 (suc (suc zero)) h = low
from_u8 (suc (suc (suc zero))) h = background
from_u8 (suc (suc (suc (suc v)))) h = absurd (omega arith)

-- `Ord::cmp`: a higher number is a lower priority.
unfoldable pub cmp : Priority → Priority → Ordering
unfolding to_u8
cmp s o = compare (to_u8 o) (to_u8 s)

pub to_u8-lt : (p : Priority) → to_u8 p < num
unfolding to_u8
to_u8-lt high = omega arith
to_u8-lt medium = omega arith
to_u8-lt low = omega arith
to_u8-lt background = omega arith

pub to_u8-injective : (p q : Priority) → to_u8 p ≡ to_u8 q → p ≡ q
unfolding to_u8
to_u8-injective p q e = ground arith

pub to_u8-from_u8 : (v : ℕ) (h : v < num) → to_u8 (from_u8 v h) ≡ v
unfolding to_u8 from_u8
to_u8-from_u8 zero h = refl
to_u8-from_u8 (suc zero) h = refl
to_u8-from_u8 (suc (suc zero)) h = refl
to_u8-from_u8 (suc (suc (suc zero))) h = refl
to_u8-from_u8 (suc (suc (suc (suc v)))) h = absurd (omega arith)

pub from_u8-to_u8 : (p : Priority) (v : ℕ) (h : v < num) → v ≡ to_u8 p → from_u8 v h ≡ p
from_u8-to_u8 p v h e = to_u8-injective (from_u8 v h) p (to_u8-from_u8 v h ∙ e)

-- `[T; Priority::NUM]`
pub record PerPriority (T : Type 0) : Type 0 where
  pub at_high : T
  pub at_medium : T
  pub at_low : T
  pub at_background : T

-- `Index<Priority>` and `IndexMut<Priority>`
module _ {T : Type 0} where
  unfoldable pub index : PerPriority T → Priority → T
  index a high = a.at_high
  index a medium = a.at_medium
  index a low = a.at_low
  index a background = a.at_background

  unfoldable pub index_set : PerPriority T → Priority → T → PerPriority T
  index_set a high t = record a { at_high = t }
  index_set a medium t = record a { at_medium = t }
  index_set a low t = record a { at_low = t }
  index_set a background t = record a { at_background = t }
