-- ===== src/Pipeline/Tx/Out/Recycled.antt =====
-- What the ring of empty batches is when batches have been given back, said without the code's own `refill`.
use thubo.Prelude.{
  ℕ, ◌≡◌, refl, ap, ◌∙◌, arith, List, [], ◌∷◌, ◌++◌, none, inl, inr, Bool-cases, ◌==◌,
  if◌then◌else◌, length,
}
use thubo.Protocol.Priority
use thubo.Protocol.Priority.{Priority, PerPriority, high, medium, low, background}
use thubo.Protocol.Qos
use thubo.Buffers.BoxBuf
use thubo.Buffers.BoxBuf.{BoxBuf}
use thubo.Buffers.Slice
use thubo.Pipeline.RingBuf.Fifo
use thubo.Pipeline.RingBuf.Fifo.{Queue}
use thubo.Pipeline.Tx.{WriteBatch, clear}
use thubo.Pipeline.Tx.Refill.{refill}

-- A frame with a length of 0 in its first two bytes, behind which the next is written.
abbrev pub blank_frame : List ℕ → BoxBuf
blank_frame (x ∷ y ∷ memory) = record { buffer = 0 ∷ 0 ∷ memory; len = 2 }
blank_frame (x ∷ []) = record { buffer = x ∷ []; len = 0 }
blank_frame [] = record { buffer = []; len = 0 }

-- A batch with nothing but its length, no chunks, and no drop flag. The QoS is that of the last message.
abbrev pub blank : WriteBatch → WriteBatch
blank b = record {
  frame = blank_frame b.frame.buffer;
  fragment = [];
  qos = b.qos;
  drop_flag = none;
}

-- It goes behind the others when one of the `c` slots is free.
abbrev pub add : {A : Type 0} → ℕ → A → List A → List A
add c x l = if length l == c then l else l ++ (x ∷ [])

-- The empty batches of `p` when these have been given back, one after the other.
abbrev pub put_back : ℕ → Priority → List WriteBatch → List WriteBatch → List WriteBatch
put_back c p [] l = l
put_back c p (b ∷ bs) l =
    put_back c p bs
      (if Priority.to_u8 (Qos.priority b.qos) == Priority.to_u8 p then add c (blank b) l else l)

abbrev pub recycled :
    ℕ → List WriteBatch → PerPriority (Queue WriteBatch) → PerPriority (Queue WriteBatch)
recycled c bs qs = record {
  at_high = record qs.at_high { items = put_back c high bs qs.at_high.items };
  at_medium = record qs.at_medium { items = put_back c medium bs qs.at_medium.items };
  at_low = record qs.at_low { items = put_back c low bs qs.at_low.items };
  at_background = record qs.at_background {
    items = put_back c background bs qs.at_background.items;
  };
}

clear_frame :
    (memory : List ℕ) (n : ℕ)
    → (BoxBuf.write_exact (0 ∷ 0 ∷ []) (BoxBuf.clear (record { buffer = memory; len = n }))).1
      ≡ blank_frame memory
unfolding BoxBuf.clear BoxBuf.write_exact BoxBuf.as_writable_slice Slice.write_exact
clear_frame (x ∷ y ∷ memory) n = ground arith
clear_frame (x ∷ []) n = ground arith
clear_frame [] n = ground arith

clear-blank : (b : WriteBatch) → clear b ≡ blank b
unfolding clear
clear-blank b =
    ap (λ f. record b { frame = f; fragment = []; drop_flag = none })
      (clear_frame b.frame.buffer b.frame.len)

push-add :
    (c : ℕ) (x : WriteBatch) (q : Queue WriteBatch)
    → (Fifo.push c x q).1 ≡ record q { items = add c x q.items }
unfolding Fifo.push
push-add c x q = elim (Bool-cases (length q.items == c)) [ inl e ↦ rw e refl | inr e ↦ rw e refl ]

placed :
    (c : ℕ) (x : WriteBatch) (p : Priority) (qs : PerPriority (Queue WriteBatch))
    → let one : Priority → List WriteBatch → List WriteBatch =
        λ q l. if Priority.to_u8 p == Priority.to_u8 q then add c x l else l in
      Priority.index_set qs p
        (record (Priority.index qs p) { items = add c x (Priority.index qs p).items })
      ≡ record {
        at_high = record qs.at_high { items = one high qs.at_high.items };
        at_medium = record qs.at_medium { items = one medium qs.at_medium.items };
        at_low = record qs.at_low { items = one low qs.at_low.items };
        at_background = record qs.at_background { items = one background qs.at_background.items };
      }
unfolding Priority.index Priority.index_set Priority.to_u8
placed c x high qs = refl
placed c x medium qs = refl
placed c x low qs = refl
placed c x background qs = refl

pub refill-recycled :
    (c : ℕ) (b : WriteBatch) (qs : PerPriority (Queue WriteBatch))
    → refill c b qs ≡ recycled c (b ∷ []) qs
unfolding refill
refill-recycled c b qs =
    let p = Qos.priority b.qos in
    ap (λ q. Priority.index_set qs p q) (push-add c (clear b) (Priority.index qs p))
    ∙ ap
        (λ x.
          Priority.index_set qs p
            (record (Priority.index qs p) { items = add c x (Priority.index qs p).items }))
        (clear-blank b)
    ∙ placed c (blank b) p qs
