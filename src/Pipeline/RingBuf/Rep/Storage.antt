-- ===== src/Pipeline/RingBuf/Rep/Storage.antt =====
-- Reads and writes of slots.
use thubo.Prelude.{
  ℕ, ◌%◌, ◌^◌, ◌≡◌, ◌≢◌, refl, ap, ap₂, ◌∙◌, List, [], ◌∷◌, some, none, zero, suc, arith, get_elem?,
  get_or, set, length, length-set, bit_and,
}
use thubo.Protocol.Priority
use thubo.Protocol.Priority.{Priority, PerPriority, high, medium, low, background}
use thubo.Pipeline.RingBuf.{Idx}
use thubo.Pipeline.RingBuf.Word.{lane, index-lane}
use thubo.Pipeline.RingBuf.Slots.{slot-eq-mod}
use thubo.Pipeline.RingBuf.Ring.{MaybeUninit, RingBuffer, capacity, slot, get_elem, set_elem}
use thubo.Pipeline.RingBuf.Rep.{IsSound}

module _ {T : Type 0} where
  pub index-index_set_self :
      (a : PerPriority T) (p : Priority) (v : T) → Priority.index (Priority.index_set a p v) p ≡ v
  unfolding Priority.index Priority.index_set
  index-index_set_self a high v = refl
  index-index_set_self a medium v = refl
  index-index_set_self a low v = refl
  index-index_set_self a background v = refl

  pub index-index_set_ne :
      (a : PerPriority T) (p q : Priority) (v : T)
      → p ≢ q
      → Priority.index (Priority.index_set a p v) q ≡ Priority.index a q
  unfolding Priority.index Priority.index_set
  index-index_set_ne a p q v ne = ground arith

  get_or-get_elem? : (xs : List T) (i : ℕ) (d v : T) → get_elem? xs i ≡ some v → get_or xs i d ≡ v
  get_or-get_elem? [] i d v e = absurd (cc)
  get_or-get_elem? (x ∷ xs) zero d v e = cc
  get_or-get_elem? (x ∷ xs) (suc i) d v e = get_or-get_elem? xs i d v e

module _ {T : Type 0} {c : ℕ} {ring : RingBuffer T} (sound : IsSound c ring) (p : Priority)
    (idx : Idx) where
  pub slot-lane : slot p idx ring ≡ lane p idx % 256 % c
  slot-lane =
      ap₂ bit_and (index-lane p idx) sound.mask_eq ∙ slot-eq-mod c (lane p idx % 256) sound.cap

  pub get_elem-lane :
      (l : ℕ) (v : MaybeUninit T)
      → lane p idx ≡ l
      → get_elem? (Priority.index ring.ptr p) (l % 256 % c) ≡ some v
      → get_elem p idx ring ≡ v
  unfolding get_elem
  get_elem-lane l v e f =
      get_or-get_elem? _ (slot p idx ring) none v
        (ap (get_elem? (Priority.index ring.ptr p)) (slot-lane ∙ ap (λ k. k % 256 % c) e) ∙ f)

  module _ (v : MaybeUninit T) where
    pub set_elem_self :
        (l : ℕ)
        → lane p idx ≡ l
        → Priority.index (set_elem p idx v ring).ptr p
          ≡ set (Priority.index ring.ptr p) (l % 256 % c) v
    unfolding set_elem
    set_elem_self l e =
        index-index_set_self ring.ptr p _
        ∙ ap (λ k. set (Priority.index ring.ptr p) k v) (slot-lane ∙ ap (λ k. k % 256 % c) e)

    pub set_elem_ne :
        (q : Priority)
        → p ≢ q
        → Priority.index (set_elem p idx v ring).ptr q ≡ Priority.index ring.ptr q
    unfolding set_elem
    set_elem_ne q ne = index-index_set_ne ring.ptr p q _ ne

    set_elem-capacity : capacity (set_elem p idx v ring) ≡ capacity ring
    unfolding set_elem capacity Priority.index Priority.index_set
    set_elem-capacity = go p
      where
        go :
            (q : Priority)
            → length (
                  Priority.index
                    (Priority.index_set ring.ptr q
                      (set (Priority.index ring.ptr q) (slot p idx ring) v))
                    high)
                % 2 ^ 8
              ≡ length ring.ptr.at_high % 2 ^ 8
        go high = ap (λ k. k % 2 ^ 8) (length-set ring.ptr.at_high (slot p idx ring) v)
        go medium = refl
        go low = refl
        go background = refl

    pub set_elem-IsSound : IsSound c (set_elem p idx v ring)
    unfolding set_elem
    set_elem-IsSound = record {
      cap = sound.cap;
      mask_eq = sound.mask_eq;
      capacity_eq = set_elem-capacity ∙ sound.capacity_eq;
      fits_r = sound.fits_r;
      fits_w = sound.fits_w;
    }

    pub set_elem-idx_w : (set_elem p idx v ring).idx_w ≡ ring.idx_w
    unfolding set_elem
    set_elem-idx_w = refl

    pub set_elem-idx_r : (set_elem p idx v ring).idx_r ≡ ring.idx_r
    unfolding set_elem
    set_elem-idx_r = refl
