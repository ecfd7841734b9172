-- ===== src/Pipeline/RingBuf/Fifo.antt =====
-- The promise of a ring buffer, of which common.rs is an implementation: for each priority a bounded
-- queue, and a place for an element that is booked.
pub mod First
use thubo.Prelude.{
  ℕ, List, [], ◌∷◌, ◌++◌, Option, some, none, Bool, true, false, if◌then◌else◌, ◌==◌, length,
}
use thubo.Protocol.Priority
use thubo.Protocol.Priority.{Priority, PerPriority}
use thubo.Pipeline.RingBuf.Reader.{Pull, got, booked, nothing}

pub record Queue (T : Type 0) : Type 0 where
  pub items : List T
  pub held : Option T

module _ {T : Type 0} where
  abbrev pub empty : Queue T
  empty = record { items = []; held = none }

  abbrev pub is_held : Queue T → Bool
  is_held a = elim a.held [ some u ↦ true | none ↦ false ]

  -- An element that does not fit is given back.
  unfoldable pub push : ℕ → T → Queue T → Option T × Queue T
  push c t a =
      if length a.items == c then (some t, a) else (none, record a { items = a.items ++ (t ∷ []) })

  unfoldable pub book : ℕ → T → Queue T → Option T × Queue T
  book c t a = elim a.held [
    | some u ↦ (some t, a)
    | none ↦ if length a.items == c then (some t, a) else (none, record a { held = some t })
  ]

  -- The booked element is replaced, and joins the queue.
  unfoldable pub modify : T → Queue T → Queue T
  modify t a = elim a.held [ some u ↦ record a { held = some t } | none ↦ a ]

  unfoldable pub commit : Queue T → Queue T
  commit a = elim a.held [ some u ↦ record { items = a.items ++ (u ∷ []); held = none } | none ↦ a ]

  unfoldable pub take_first : Queue T → Option T × Queue T
  take_first a = elim a.items [ [] ↦ (none, a) | t ∷ q ↦ (some t, record a { items = q }) ]

  -- A queue that is empty tells whether an element is booked.
  unfoldable pub pull_priority : Queue T → Pull T × Queue T
  pull_priority a = elim a.items [
    | [] ↦ elim a.held [ some u ↦ (booked, a) | none ↦ (nothing, a) ]
    | t ∷ q ↦ (got t, record a { items = q })
  ]

  -- An element that was in its slot.
  abbrev pub initialised : Option T → Option (Option T)
  initialised none = none
  initialised (some t) = some (some t)

  abbrev pub pull_initialised : Pull T → Pull (Option T)
  pull_initialised (got t) = got (some t)
  pull_initialised booked = booked
  pull_initialised nothing = nothing

  unfoldable pub or_rest :
      Option T
      → PerPriority (Queue T)
      → Option T × PerPriority (Queue T)
      → Option T × PerPriority (Queue T)
  or_rest (some t) qs rest = (some t, qs)
  or_rest none qs rest = rest

  -- The first element of the first priority that has one.
  unfoldable pub pull_first :
      List Priority → PerPriority (Queue T) → Option T × PerPriority (Queue T)
  unfolding take_first or_rest
  pull_first [] qs = (none, qs)
  pull_first (p ∷ ps) qs =
      let (t, q) = take_first (Priority.index qs p) in
      let rest = pull_first ps qs in or_rest t (Priority.index_set qs p q) rest

  -- `peek_mut`: the element that `pull_first` takes, and its queue.
  unfoldable pub peek_or : Priority → List T → Option (Priority × T) → Option (Priority × T)
  peek_or p [] rest = rest
  peek_or p (t ∷ q) rest = some (p, t)

  unfoldable pub peek_first : List Priority → PerPriority (Queue T) → Option (Priority × T)
  unfolding peek_or
  peek_first [] qs = none
  peek_first (p ∷ ps) qs = peek_or p (Priority.index qs p).items (peek_first ps qs)

  -- A write through the reference that `peek_mut` returns.
  unfoldable pub write_first : T → Queue T → Queue T
  write_first t a = elim a.items [ [] ↦ a | u ∷ q ↦ record a { items = t ∷ q } ]
