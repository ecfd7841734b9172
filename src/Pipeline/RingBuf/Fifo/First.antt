-- ===== src/Pipeline/RingBuf/Fifo/First.antt =====
-- The first priority with an element: what `peek_mut` sees, and `pull` takes.
use thubo.Prelude.{
  ℕ, ◌<◌, ◌≢◌, ap, ◌+◌, ◌≡◌, refl, ◌⊎◌, inl, inr, List, [], ◌∷◌, some, none, length, arith,
}
use thubo.Protocol.Priority
use thubo.Protocol.Priority.{Priority, PerPriority, high, medium, low, background}
use thubo.Pipeline.RingBuf.Fifo.{Queue, pull_first, or_rest, take_first, peek_first, peek_or}

pub above_ne : (p q : Priority) → Priority.to_u8 q < Priority.to_u8 p → q ≢ p
above_ne p q lt e = absurd (omega (arith, ap Priority.to_u8 e))

module _ {T : Type 0} where
  abbrev pub items_at : PerPriority (Queue T) → Priority → List T
  items_at qs p = (Priority.index qs p).items

  -- The queues of these priorities have no element.
  abbrev pub NoneOf : List Priority → PerPriority (Queue T) → Type 0
  NoneOf [] qs = Unit {0}
  NoneOf (p ∷ ps) qs = (items_at qs p ≡ []) × NoneOf ps qs

  -- The queue of `p` is the first of these that has one.
  pub data First (qs : PerPriority (Queue T)) (p : Priority) : List Priority → Type 0 where
    here : (ps : List Priority) → First qs p (p ∷ ps)
    behind :
        (q : Priority) (ps : List Priority)
        → items_at qs q ≡ []
        → First qs p ps
        → First qs p (q ∷ ps)

  pub List-cases : (l : List T) → (l ≡ []) ⊎ ((t : T) × (q : List T) × (l ≡ t ∷ q))
  List-cases [] = inl refl
  List-cases (t ∷ q) = inr (t, q, refl)

  pub peek_first-cases :
      (ps : List Priority) (qs : PerPriority (Queue T))
      → (peek_first ps qs ≡ none) × NoneOf ps qs
        ⊎ ((p : Priority) × (t : T) × (q : List T) × (peek_first ps qs ≡ some (p, t))
            × (items_at qs p ≡ t ∷ q)
            × First qs p ps)
  unfolding peek_first peek_or
  peek_first-cases [] qs = inl (refl, tt)
  peek_first-cases (p ∷ ps) qs = elim (List-cases (items_at qs p)) [
    | inr (t, q, e) ↦ inr (p, t, q, rw e refl, e, here ps)
    | inl e ↦ elim (peek_first-cases ps qs) [
      | inl (f, n) ↦ inl (rw e f, (e, n))
      | inr (p', t, q, f, g, h) ↦ inr (p', t, q, rw e f, g, behind p ps e h)
    ]
  ]

  pub pull_first-NoneOf :
      (ps : List Priority) (qs : PerPriority (Queue T))
      → NoneOf ps qs
      → pull_first ps qs ≡ (none, qs)
  unfolding pull_first take_first or_rest
  pull_first-NoneOf [] qs n = refl
  pull_first-NoneOf (p ∷ ps) qs n = rw n.0 (pull_first-NoneOf ps qs n.1)

  pub pull_first-First :
      (qs : PerPriority (Queue T)) (p : Priority) (t : T) (q : List T) (ps : List Priority)
      → First qs p ps
      → items_at qs p ≡ t ∷ q
      → pull_first ps qs
        ≡ (some t, Priority.index_set qs p (record (Priority.index qs p) { items = q }))
  unfolding pull_first take_first or_rest
  pull_first-First qs p t q _ (here ps) e = rw e refl
  pull_first-First qs p t q _ (behind p' ps n f) e = rw n (pull_first-First qs p t q ps f e)

  pub peek_first-First :
      (qs : PerPriority (Queue T)) (p : Priority) (t : T) (q : List T) (ps : List Priority)
      → First qs p ps
      → items_at qs p ≡ t ∷ q
      → peek_first ps qs ≡ some (p, t)
  unfolding peek_first peek_or
  peek_first-First qs p t q _ (here ps) e = rw e refl
  peek_first-First qs p t q _ (behind p' ps n f) e = rw n (peek_first-First qs p t q ps f e)

  -- The number of elements.
  abbrev pub total : PerPriority (Queue T) → ℕ
  total qs =
      length qs.at_high.items
      + length qs.at_medium.items
      + length qs.at_low.items
      + length qs.at_background.items

  pub total-index_set :
      (qs : PerPriority (Queue T)) (p : Priority) (a : Queue T)
      → total (Priority.index_set qs p a) + length (items_at qs p) ≡ total qs + length a.items
  unfolding Priority.index Priority.index_set
  total-index_set qs high a = omega arith
  total-index_set qs medium a = omega arith
  total-index_set qs low a = omega arith
  total-index_set qs background a = omega arith

module _ {T U : Type 0} where
  -- The first priority of other queues that are empty where these are.
  pub First-where :
      (qs : PerPriority (Queue T)) (us : PerPriority (Queue U)) (p : Priority) (ps : List Priority)
      → ((q : Priority) → items_at qs q ≡ [] → items_at us q ≡ [])
      → First qs p ps
      → First us p ps
  First-where qs us p _ h (here ps) = here ps
  First-where qs us p _ h (behind q ps e f) = behind q ps (h q e) (First-where qs us p ps h f)

  pub NoneOf-where :
      (qs : PerPriority (Queue T)) (us : PerPriority (Queue U)) (ps : List Priority)
      → ((q : Priority) → items_at qs q ≡ [] → items_at us q ≡ [])
      → NoneOf ps qs
      → NoneOf ps us
  NoneOf-where qs us [] h n = tt
  NoneOf-where qs us (p ∷ ps) h n = (h p n.0, NoneOf-where qs us ps h n.1)
