-- ===== src/Pipeline/Rx/Slots.antt =====
-- The reassembly buffers of the eight kinds of messages are apart from each other.
use thubo.Prelude.{◌≡◌, ◌≢◌, refl, ap, inl, inr, ◌⊎◌}
use thubo.Protocol.Priority.{PerPriority, Priority, high, medium, low, background, index, index_set}
use thubo.Protocol.CongestionControl.{CongestionControl}
use thubo.Protocol.Qos.{Qos, priority, congestion_control}
use thubo.Pipeline.Rx.{DefragBuffer, Defragmentation, get_buffer, set_buffer, set_at, slot}

module _ {T : Type 0} where
  index_set_self : (a : PerPriority T) (p : Priority) (t : T) → index (index_set a p t) p ≡ t
  unfolding index index_set
  index_set_self a high t = refl
  index_set_self a medium t = refl
  index_set_self a low t = refl
  index_set_self a background t = refl

  index_set_twice :
      (a : PerPriority T) (p : Priority) (t u : T)
      → index_set (index_set a p t) p u ≡ index_set a p u
  unfolding index_set
  index_set_twice a high t u = refl
  index_set_twice a medium t u = refl
  index_set_twice a low t u = refl
  index_set_twice a background t u = refl

  index_set_other :
      (a : PerPriority T) (p r : Priority) (t : T) → p ≢ r → index (index_set a p t) r ≡ index a r
  unfolding index index_set
  index_set_other a high high t ne = absurd (ne refl)
  index_set_other a high medium t ne = refl
  index_set_other a high low t ne = refl
  index_set_other a high background t ne = refl
  index_set_other a medium high t ne = refl
  index_set_other a medium medium t ne = absurd (ne refl)
  index_set_other a medium low t ne = refl
  index_set_other a medium background t ne = refl
  index_set_other a low high t ne = refl
  index_set_other a low medium t ne = refl
  index_set_other a low low t ne = absurd (ne refl)
  index_set_other a low background t ne = refl
  index_set_other a background high t ne = refl
  index_set_other a background medium t ne = refl
  index_set_other a background low t ne = refl
  index_set_other a background background t ne = absurd (ne refl)

module _ {T : Type 0} where
  index_set-cases :
      (a : PerPriority T) (p r : Priority) (t : T)
      → (index (index_set a p t) r ≡ t) ⊎ (index (index_set a p t) r ≡ index a r)
  unfolding index index_set
  index_set-cases a high high t = inl refl
  index_set-cases a high medium t = inr refl
  index_set-cases a high low t = inr refl
  index_set-cases a high background t = inr refl
  index_set-cases a medium high t = inr refl
  index_set-cases a medium medium t = inl refl
  index_set-cases a medium low t = inr refl
  index_set-cases a medium background t = inr refl
  index_set-cases a low high t = inr refl
  index_set-cases a low medium t = inr refl
  index_set-cases a low low t = inl refl
  index_set-cases a low background t = inr refl
  index_set-cases a background high t = inr refl
  index_set-cases a background medium t = inr refl
  index_set-cases a background low t = inr refl
  index_set-cases a background background t = inl refl

pub get_buffer-set_buffer :
    (q : Qos) (b : DefragBuffer) (d : Defragmentation) → get_buffer q (set_buffer q b d) ≡ b
unfolding get_buffer set_buffer set_at slot
get_buffer-set_buffer q b d = go (congestion_control q)
  where
    go : (c : CongestionControl) → index (slot c (set_at c (priority q) b d)) (priority q) ≡ b
    go CongestionControl.block = index_set_self d.block_bufs (priority q) b
    go CongestionControl.drop = index_set_self d.drop_bufs (priority q) b

pub set_buffer_twice :
    (q : Qos) (b b' : DefragBuffer) (d : Defragmentation)
    → set_buffer q b' (set_buffer q b d) ≡ set_buffer q b' d
unfolding set_buffer set_at
set_buffer_twice q b b' d = go (congestion_control q)
  where
    go :
        (c : CongestionControl)
        → set_at c (priority q) b' (set_at c (priority q) b d) ≡ set_at c (priority q) b' d
    go CongestionControl.block =
        ap (λ t. record d { block_bufs = t }) (index_set_twice d.block_bufs (priority q) b b')
    go CongestionControl.drop =
        ap (λ t. record d { drop_bufs = t }) (index_set_twice d.drop_bufs (priority q) b b')

-- A message of another priority or another congestion control has another buffer.
pub get_buffer_other :
    (q r : Qos) (b : DefragBuffer) (d : Defragmentation)
    → (priority q ≢ priority r) ⊎ (congestion_control q ≢ congestion_control r)
    → get_buffer r (set_buffer q b d) ≡ get_buffer r d
unfolding get_buffer set_buffer set_at slot
get_buffer_other q r b d ne = go (congestion_control q) (congestion_control r) ne
  where
    go :
        (c e : CongestionControl)
        → (priority q ≢ priority r) ⊎ (c ≢ e)
        → index (slot e (set_at c (priority q) b d)) (priority r) ≡ index (slot e d) (priority r)
    go CongestionControl.block CongestionControl.block (inl n) =
        index_set_other d.block_bufs (priority q) (priority r) b n
    go CongestionControl.block CongestionControl.block (inr n) = absurd (n refl)
    go CongestionControl.block CongestionControl.drop n = refl
    go CongestionControl.drop CongestionControl.block n = refl
    go CongestionControl.drop CongestionControl.drop (inl n) =
        index_set_other d.drop_bufs (priority q) (priority r) b n
    go CongestionControl.drop CongestionControl.drop (inr n) = absurd (n refl)

-- A buffer is the one that was set, or it is as before.
pub set_buffer-cases :
    (q r : Qos) (b : DefragBuffer) (d : Defragmentation)
    → (get_buffer r (set_buffer q b d) ≡ b) ⊎ (get_buffer r (set_buffer q b d) ≡ get_buffer r d)
unfolding get_buffer set_buffer set_at slot
set_buffer-cases q r b d = go (congestion_control q) (congestion_control r)
  where
    go :
        (c e : CongestionControl)
        → (index (slot e (set_at c (priority q) b d)) (priority r) ≡ b)
          ⊎ (index (slot e (set_at c (priority q) b d)) (priority r)
              ≡ index (slot e d) (priority r))
    go CongestionControl.block CongestionControl.block =
        index_set-cases d.block_bufs (priority q) (priority r) b
    go CongestionControl.block CongestionControl.drop = inr refl
    go CongestionControl.drop CongestionControl.block = inr refl
    go CongestionControl.drop CongestionControl.drop =
        index_set-cases d.drop_bufs (priority q) (priority r) b
