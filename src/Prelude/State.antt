-- ===== src/Prelude/State.antt =====
-- Methods that take `&mut self` and return a `Result`: the state is passed on, and it is kept when
-- the method fails, since the source does not undo what was done before the error.
use thubo.Prelude.Tests.{if◌then◌else◌}
use mathlib.Core.Bool.{Bool}
use mathlib.Core.Path.{◌≡◌, ap}
use mathlib.Core.Option.{Option, none, some}

-- `none` is the error (`DidntWrite`, `DidntRead`): those types carry no data.
abbrev pub Op : Type 0 → Type 0 → Type 0
Op S A = S → Option A × S

-- `?`: the rest runs only if the first part has not failed.
infixl 5 ◌>>=◌ ◌>>◌
abbrev pub ◌>>=◌ : {S A B : Type 0} → Op S A → (A → Op S B) → Op S B
◌>>=◌ m f s = let (r, s') = m s in elim r [ none ↦ (none, s') | some a ↦ f a s' ]

abbrev pub ◌>>◌ : {S B : Type 0} → Op S (Unit {0}) → Op S B → Op S B
m >> k = m >>= λ _. k

abbrev pub pure : {S A : Type 0} → A → Op S A
pure a s = (some a, s)

abbrev pub fail : {S A : Type 0} → Op S A
fail s = (none, s)

-- A value of the result, with the state as it is.
abbrev pub guard : {S : Type 0} → Bool → Op S (Unit {0})
guard b = if b then pure tt else fail

module _ {S A B : Type 0} (m : Op S A) (f : A → Op S B) (s : S) where
  rest : Option A → Option B × S
  rest o = elim o [ none ↦ (none, (m s).1) | some a ↦ f a (m s).1 ]

  pub >>=-some : (a : A) → (m s).0 ≡ some a → (m >>= f) s ≡ f a (m s).1
  unfolding rest
  >>=-some a e = ap rest e

  pub >>=-none : (m s).0 ≡ none → (m >>= f) s ≡ (none, (m s).1)
  unfolding rest
  >>=-none e = ap rest e
