-- ===== src/Pipeline/Delivery/Lines.antt =====
-- Queues of messages that get more for one priority.
use thubo.Prelude.{◌≡◌, refl, ap, sym, ◌∙◌, List, [], ◌∷◌, ◌++◌, some, append_assoc, append-nil}
use thubo.Protocol.Priority
use thubo.Protocol.Priority.{Priority, PerPriority, high, medium, low, background}
use thubo.Pipeline.RingBuf.Fifo
use thubo.Pipeline.RingBuf.Fifo.{Queue}
use thubo.Pipeline.RingBuf.Fifo.First.{NoneOf, First, here, behind, pull_first-First}
use thubo.Pipeline.RingBuf.Rep.Storage.{index-index_set_self}
use thubo.Pipeline.RingBuf.Views.{index_set-same}
use thubo.Pipeline.Rx.Out.View.{Received}

-- Messages behind the others of a priority.
abbrev pub added :
    Priority → List Received → PerPriority (Queue Received) → PerPriority (Queue Received)
added p out vs =
    let a = Priority.index vs p in Priority.index_set vs p (record a { items = a.items ++ out })

pub added-nil : (p : Priority) (vs : PerPriority (Queue Received)) → added p [] vs ≡ vs
added-nil p vs =
    ap (λ l. Priority.index_set vs p (record (Priority.index vs p) { items = l }))
      (append-nil (Priority.index vs p).items)
    ∙ index_set-same vs p

index_set_twice :
    {A : Type 0} (a : PerPriority A) (p : Priority) (v w : A)
    → Priority.index_set (Priority.index_set a p v) p w ≡ Priority.index_set a p w
unfolding Priority.index_set
index_set_twice a Priority.high v w = refl
index_set_twice a Priority.medium v w = refl
index_set_twice a Priority.low v w = refl
index_set_twice a Priority.background v w = refl

pub added-append :
    (p : Priority) (out more : List Received) (vs : PerPriority (Queue Received))
    → added p more (added p out vs) ≡ added p (out ++ more) vs
added-append p out more vs =
    let a = Priority.index vs p in
    let b = record a { items = a.items ++ out } in
    index_set_twice vs p b _
    ∙ ap (λ c. Priority.index_set vs p (record c { items = c.items ++ more }))
        (index-index_set_self vs p b)
    ∙ ap (λ l. Priority.index_set vs p (record a { items = l })) (append_assoc a.items out more)

-- The queue that gets a message is the first with one, if no other has any.
added-First :
    (p : Priority) (out : List Received) (vs : PerPriority (Queue Received))
    → NoneOf Priority.all vs
    → First (added p out vs) p Priority.all
unfolding Priority.index Priority.index_set
added-First high out vs n = here _
added-First medium out vs n = behind high _ n.0 (here _)
added-First low out vs n = behind high _ n.0 (behind medium _ n.1.0 (here _))
added-First background out vs n =
    behind high _ n.0 (behind medium _ n.1.0 (behind low _ n.1.1.0 (here _)))

items-None :
    (p : Priority) (vs : PerPriority (Queue Received))
    → NoneOf Priority.all vs
    → (Priority.index vs p).items ≡ []
unfolding Priority.index
items-None high vs n = n.0
items-None medium vs n = n.1.0
items-None low vs n = n.1.1.0
items-None background vs n = n.1.1.1.0

-- It is what `pull` takes the next message from.
pub pull_first-added :
    (p : Priority) (x : Received) (out : List Received) (vs : PerPriority (Queue Received))
    → NoneOf Priority.all vs
    → Fifo.pull_first Priority.all (added p (x ∷ out) vs) ≡ (some x, added p out vs)
pull_first-added p x out vs n =
    let a = Priority.index vs p in
    let b = record a { items = a.items ++ (x ∷ out) } in
    let self = index-index_set_self vs p b in
    let nothing = items-None p vs n in
    pull_first-First (added p (x ∷ out) vs) p x out Priority.all (added-First p (x ∷ out) vs n)
      (ap (λ c. c.items) self ∙ ap (λ l. l ++ (x ∷ out)) nothing)
    ∙ ap (λ c. (some x, Priority.index_set (added p (x ∷ out) vs) p (record c { items = out })))
        self
    ∙ ap (λ c. (some x, c)) (index_set_twice vs p b (record a { items = out }))
    ∙ ap (λ l. (some x, Priority.index_set vs p (record a { items = l ++ out }))) (sym nothing)
