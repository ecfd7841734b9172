-- ===== src/Pipeline/RingBuf/Lane.antt =====
-- One priority's ring as a queue: how its slots, its two indices and the copies of these that the
-- handles keep stand for a queue and a booked element.
use thubo.Prelude.{
  ℕ, suc, ◌+◌, ◌-◌, ◌%◌, ◌<◌, ◌≤◌, ◌≡◌, ◌≢◌, inl, inr, refl, ap, sym, ◌∙◌, List, [], ◌∷◌, ◌++◌,
  Option, some, none, Bool, true, false, arith, length, get_elem?, set, length-set,
  get_elem?-set_self, get_elem?-set_ne, get_elem?-append, get_elem?-lt, length-append,
}
use thubo.Pipeline.RingBuf.Slots.{IsCap, position-wrap, position-next, position-ne, position-lt}
use thubo.Pipeline.RingBuf.Word.{
  is_booked, bumped, with_booked, without_booked, is_booked-bumped, is_booked-with_booked,
  is_booked-without_booked,
}

module _ {T : Type 0} where
  abbrev pub room_taken : Option T → ℕ
  room_taken none = 0
  room_taken (some t) = 1

  abbrev pub is_some : Option T → Bool
  is_some none = false
  is_some (some t) = true

-- `ri` and `wi` are the lanes of the shared indices, `wc` and `rc` those that the writer and the reader
-- have in their caches. The copies may be old: the writer may know of fewer elements that were taken,
-- the reader of fewer that were put.
pub record Lane {T : Type 0} (c : ℕ) (slots : List (Option T)) (ri wi wc rc : ℕ) (q : List T)
    (b : Option T) : Type 0 where
  pub cap : IsCap c
  pub size : length slots ≡ c
  pub count : wi % 256 ≡ (ri % 256 + length q) % 256
  pub bound : length q + room_taken b ≤ c
  pub flag : is_booked wi ≡ is_some b
  pub items :
      (i : ℕ) (t : T)
      → get_elem? q i ≡ some t
      → get_elem? slots ((ri % 256 + i) % c) ≡ some (some t)
  pub booked : (t : T) → b ≡ some t → get_elem? slots ((ri % 256 + length q) % c) ≡ some (some t)
  pub writer_knows :
      (n : ℕ) × (length q ≤ n) × (n + room_taken b ≤ c) × (wi % 256 ≡ (wc % 256 + n) % 256)
  pub reader_knows : (n : ℕ) × (n ≤ length q) × (rc % 256 ≡ (ri % 256 + n) % 256)

module _ {T : Type 0} {c : ℕ} {slots : List (Option T)} {ri wi wc rc : ℕ} {q : List T}
    {b : Option T} (l : Lane c slots ri wi wc rc q b) where
  -- A fresh copy of the other side's index is exact.
  pub refresh_writer : Lane c slots ri wi ri rc q b
  refresh_writer = record {
    cap = l.cap;
    size = l.size;
    count = l.count;
    bound = l.bound;
    flag = l.flag;
    items = l.items;
    booked = l.booked;
    writer_knows = (length q, omega arith, l.bound, l.count);
    reader_knows = l.reader_knows;
  }

  pub refresh_reader : Lane c slots ri wi wc wi q b
  refresh_reader = record {
    cap = l.cap;
    size = l.size;
    count = l.count;
    bound = l.bound;
    flag = l.flag;
    items = l.items;
    booked = l.booked;
    writer_knows = l.writer_knows;
    reader_knows = (length q, omega arith, l.count);
  }

  cap-le : c ≤ 128
  cap-le = ground (arith, l.cap)

  -- The test for a full ring, with an old copy of the reader's index and with a fresh one.
  pub room_if_not_full :
      (wi % 256 + 256 - wc % 256) % 256 ≢ c
      → (n : ℕ) × (length q ≤ n) × (n < c) × (wi % 256 ≡ (wc % 256 + n) % 256)
  room_if_not_full ne = let (n, a, b', e) = l.writer_knows in (n, a, omega (arith, cap-le), e)

  pub full_if_full : wc ≡ ri → (wi % 256 + 256 - wc % 256) % 256 ≡ c → length q ≡ c
  full_if_full e f = omega (arith, cap-le, l.count, l.bound)

  -- The test for an empty ring.
  pub some_if_not_empty : ri % 256 ≢ rc % 256 → 0 < length q
  some_if_not_empty ne = let (n, a, e) = l.reader_knows in omega (arith, l.bound, cap-le)

  pub empty_if_empty : rc ≡ wi → ri % 256 ≡ rc % 256 → length q ≡ 0
  empty_if_empty e f = omega (arith, l.count, l.bound, cap-le)

  -- The slot of the writer.
  pub writer_slot : wi % 256 % c ≡ (ri % 256 + length q) % c
  writer_slot = ap (λ t. t % c) l.count ∙ position-wrap c (ri % 256) (length q) l.cap

  pub writer_slot-lt : wi % 256 % c < length slots
  writer_slot-lt = omega (arith, position-lt c (wi % 256) l.cap, l.size)

  -- A write to the writer's slot leaves the elements.
  kept :
      (v : Option T) (i : ℕ) (t : T)
      → length q < c
      → i < length q
      → get_elem? q i ≡ some t
      → get_elem? (set slots (wi % 256 % c) v) ((ri % 256 + i) % c) ≡ some (some t)
  kept v i t room lt e =
      get_elem?-set_ne slots v (λ f.
        position-ne c (ri % 256) (length q) i l.cap room (omega arith) (omega arith)
          (sym writer_slot ∙ f))
      ∙ l.items i t e

  here :
      (v : Option T) → get_elem? (set slots (wi % 256 % c) v) ((ri % 256 + length q) % c) ≡ some v
  here v =
      ap (λ k. get_elem? (set slots (wi % 256 % c) v) k) (sym writer_slot)
      ∙ get_elem?-set_self slots (wi % 256 % c) v writer_slot-lt

-- What the writer knows when there is room.
abbrev pub Room : {T : Type 0} → ℕ → ℕ → ℕ → List T → Type 0
Room c wi wc q = (n : ℕ) × (length q ≤ n) × (n < c) × (wi % 256 ≡ (wc % 256 + n) % 256)

-- `push`: the element is put into the writer's slot, and the index goes up.
module _ {T : Type 0} {c : ℕ} {slots : List (Option T)} {ri wi wc rc : ℕ} {q : List T} where
  module _ {b : Option T} (l : Lane c slots ri wi wc rc q b) (t : T) (room : length q < c) where
    length-put : length (set slots (wi % 256 % c) (some t)) ≡ c
    length-put = length-set slots (wi % 256 % c) (some t) ∙ l.size

    appended :
        (i : ℕ) (u : T)
        → get_elem? (q ++ (t ∷ [])) i ≡ some u
        → get_elem? (set slots (wi % 256 % c) (some t)) ((ri % 256 + i) % c) ≡ some (some u)
    appended i u e = elim (get_elem?-append q t i u e) [
      | inl (lt, f) ↦ kept l (some t) i u room lt f
      | inr (f, g) ↦
          ap (λ k. get_elem? (set slots (wi % 256 % c) (some t)) ((ri % 256 + k) % c)) f
          ∙ here l (some t)
          ∙ ap (λ v. some (some v)) g
    ]

  pub push_Lane :
      (l : Lane c slots ri wi wc rc q none) (t : T)
      → Room c wi wc q
      → Lane c (set slots (wi % 256 % c) (some t)) ri (bumped wi) wc rc (q ++ (t ∷ [])) none
  push_Lane l t (n, a, b, e) =
      let size = length-append q (t ∷ []) in
      record {
        cap = l.cap;
        size = length-put l t (omega arith);
        count = omega (arith, l.count);
        bound = omega arith;
        flag = is_booked-bumped wi ∙ l.flag;
        items = appended l t (omega arith);
        booked = λ u f. absurd (cc);
        writer_knows = (suc n, omega arith, omega arith, omega arith);
        reader_knows = let (m, g, h) = l.reader_knows in (m, omega arith, h);
      }

  -- `book`: the element is put into the writer's slot, and the flag is set.
  pub book_Lane :
      (l : Lane c slots ri wi wc rc q none) (t : T)
      → Room c wi wc q
      → Lane c (set slots (wi % 256 % c) (some t)) ri (with_booked wi) wc rc q (some t)
  book_Lane l t (n, a, b, e) =
      let room : length q < c = omega arith in
      record {
        cap = l.cap;
        size = length-put l t room;
        count = omega (arith, l.count);
        bound = omega arith;
        flag = is_booked-with_booked wi;
        items = λ i u e. kept l (some t) i u room (get_elem?-lt q i u e) e;
        booked = λ u e. here l (some t) ∙ ap some e;
        writer_knows = (n, a, omega arith, omega arith);
        reader_knows = l.reader_knows;
      }

  -- The booked element is changed in place.
  pub modify_Lane :
      (t t' : T)
      → (l : Lane c slots ri wi wc rc q (some t))
      → Lane c (set slots (wi % 256 % c) (some t')) ri wi wc rc q (some t')
  modify_Lane t t' l =
      let room : length q < c = omega (arith, l.bound) in
      record {
        cap = l.cap;
        size = length-put l t' room;
        count = l.count;
        bound = l.bound;
        flag = l.flag;
        items = λ i u e. kept l (some t') i u room (get_elem?-lt q i u e) e;
        booked = λ u e. here l (some t') ∙ ap some e;
        writer_knows = l.writer_knows;
        reader_knows = l.reader_knows;
      }

  -- `commit`: the flag is taken away, and the index goes up.
  pub commit_Lane :
      (t : T)
      → (l : Lane c slots ri wi wc rc q (some t))
      → Lane c slots ri (bumped (without_booked wi)) wc rc (q ++ (t ∷ [])) none
  commit_Lane t l =
      let size = length-append q (t ∷ []) in
      let (n, a, b, e) = l.writer_knows in
      record {
        cap = l.cap;
        size = l.size;
        count = omega (arith, l.count);
        bound = omega (arith, l.bound);
        flag = is_booked-bumped (without_booked wi) ∙ is_booked-without_booked wi;
        items = λ i u e. elim (get_elem?-append q t i u e) [
          | inl (lt, f) ↦ l.items i u f
          | inr (f, g) ↦ ap (λ k. get_elem? slots ((ri % 256 + k) % c)) f ∙ l.booked u (ap some g)
        ];
        booked = λ u f. absurd (cc);
        writer_knows = (suc n, omega arith, omega arith, omega arith);
        reader_knows = let (m, g, h) = l.reader_knows in (m, omega arith, h);
      }

-- `pull`: the first element is taken out of the reader's slot, and the index goes up.
module _ {T : Type 0} {c : ℕ} {slots : List (Option T)} {ri wi wc rc : ℕ} {q : List T}
    {b : Option T} where
  pub first-slot :
      (t : T) → Lane c slots ri wi wc rc (t ∷ q) b → get_elem? slots (ri % 256 % c) ≡ some (some t)
  first-slot t l =
      let start : ri % 256 ≡ ri % 256 + 0 = omega arith in
      ap (λ k. get_elem? slots (k % c)) start ∙ l.items 0 t refl

  module _ (t : T) (l : Lane c slots ri wi wc rc (t ∷ q) b) where
    -- The elements behind the first, seen from the new index.
    behind :
        (i : ℕ) (v : Option T)
        → suc i < c
        → get_elem? slots ((ri % 256 + suc i) % c) ≡ some v
        → get_elem? (set slots (ri % 256 % c) none) ((bumped ri % 256 + i) % c) ≡ some v
    behind i v lt e =
        let place : (bumped ri % 256 + i) % c ≡ (ri % 256 + suc i) % c =
          let up : bumped ri % 256 ≡ (ri % 256 + 1) % 256 = omega arith in
          ap (λ k. (k + i) % c) up ∙ position-next c (ri % 256) i l.cap in
        let start : ri % 256 + 0 ≡ ri % 256 = omega arith in
        ap (get_elem? (set slots (ri % 256 % c) none)) place
        ∙ get_elem?-set_ne slots none (λ f.
          position-ne c (ri % 256) 0 (suc i) l.cap (omega arith) lt (omega arith)
            (ap (λ k. k % c) start ∙ f))
        ∙ e

    pub pull_Lane :
        0 < c
        → rc % 256 ≢ ri % 256
        → Lane c (set slots (ri % 256 % c) none) (bumped ri) wi wc rc q b
    pull_Lane pos ne =
        let (n, a, e) = l.reader_knows in
        record {
          cap = l.cap;
          size = length-set slots (ri % 256 % c) none ∙ l.size;
          count = omega (arith, l.count);
          bound = omega (arith, l.bound);
          flag = l.flag;
          items = λ i u e.
              behind i (some u) (omega (arith, l.bound, get_elem?-lt q i u e))
                (l.items (suc i) u e);
          booked = λ u e. behind (length q) (some u) (room u e) (l.booked u e);
          writer_knows = let (m, g, h, k) = l.writer_knows in (m, omega arith, h, k);
          reader_knows = (n - 1, omega arith, omega (arith, l.bound, cap-le l));
        }
      where
        room : (u : T) → b ≡ some u → suc (length q) < c
        room u e = omega (arith, l.bound, ap room_taken e)
