-- ===== src/Sync/Event/Wakeup.antt =====
-- No notification is lost.
use thubo.Prelude.{ℕ, zero, suc, ◌≡◌, ◌≢◌, ◌≤◌, ◌<◌, ◌⊎◌, inl, inr, refl, true, arith}
use thubo.Sync.Event.{
  EventLib, LawfulEvent, err_flag, check, set, check_ok, check_unset, check_err, set_ok, set_err,
  Waiting, first_check, registering, second_check, asleep, returned_ok, returned_err, Notifying,
  shared, behind_store, gone, EventState, after_check, after_set, Step, sets, notifies, drops,
  wakes, checks_first, registers, checks_second, wakes_up, waits_again, Reach, start, step,
}

-- So many calls are about to wake the waiter.
abbrev pub pending : Notifying → ℕ
pending (shared n) = n
pending behind_store = 1
pending gone = 0

-- A waiter that sleeps while the flag is set has been woken, or a call is about to wake it.
abbrev pub IsHeard : {E : Type 0} → EventLib E → ℕ → E → Waiting → Notifying → Type 0
IsHeard ev f e first_check n = Unit {0}
IsHeard ev f e registering n = Unit {0}
IsHeard ev f e second_check n = Unit {0}
IsHeard ev f e asleep n = (f ≡ 0) ⊎ ((ev.is_woken e ≡ true) ⊎ (0 < pending n))
IsHeard ev f e returned_ok n = Unit {0}
IsHeard ev f e returned_err n = Unit {0}

abbrev IsRegistered : {E : Type 0} → EventLib E → E → Waiting → Type 0
IsRegistered ev e first_check = Unit {0}
IsRegistered ev e registering = Unit {0}
IsRegistered ev e second_check = ev.is_listening e ≡ true
IsRegistered ev e asleep = ev.is_listening e ≡ true
IsRegistered ev e returned_ok = Unit {0}
IsRegistered ev e returned_err = Unit {0}

record Inv {E : Type 0} (ev : EventLib E) (s : EventState E) : Type 0 where
  small : s.flag ≤ 3
  registered : IsRegistered ev s.event s.waiter
  heard : IsHeard ev s.flag s.event s.waiter s.notifier

-- The flag stays small; a `set` that is refused finds the flag set.
set-cases :
    (f : ℕ) → f ≤ 3 → ((set f).1 ≤ 3) × (((set f).0 ≡ set_ok) ⊎ (((set f).0 ≡ set_err) × (f ≢ 0)))
unfolding set
set-cases zero h = (omega arith, inl refl)
set-cases (suc zero) h = (omega arith, inl refl)
set-cases (suc (suc zero)) h = (omega arith, inr (refl, λ e. absurd (omega arith)))
set-cases (suc (suc (suc zero))) h = (omega arith, inr (refl, λ e. absurd (omega arith)))
set-cases (suc (suc (suc (suc f)))) h = absurd (omega arith)

-- A check that finds nothing leaves the flag clear.
check-cases :
    (f : ℕ)
    → f ≤ 3
    → ((check f).1 ≤ 3)
      × ((((check f).0 ≡ check_unset) × ((check f).1 ≡ 0))
          ⊎ (((check f).0 ≡ check_ok) ⊎ ((check f).0 ≡ check_err)))
unfolding check
check-cases zero h = (omega arith, inl (refl, refl))
check-cases (suc zero) h = (omega arith, inr (inl refl))
check-cases (suc (suc zero)) h = (omega arith, inr (inr refl))
check-cases (suc (suc (suc zero))) h = (omega arith, inr (inr refl))
check-cases (suc (suc (suc (suc f)))) h = absurd (omega arith)

module _ {E : Type 0} (ev : EventLib E) where
  -- A notification keeps a listener, and wakes it.
  IsRegistered-after :
      (e e' : E) (w : Waiting)
      → (ev.is_listening e ≡ true → ev.is_listening e' ≡ true)
      → IsRegistered ev e w
      → IsRegistered ev e' w
  IsRegistered-after e e' first_check k r = tt
  IsRegistered-after e e' registering k r = tt
  IsRegistered-after e e' second_check k r = k r
  IsRegistered-after e e' asleep k r = k r
  IsRegistered-after e e' returned_ok k r = tt
  IsRegistered-after e e' returned_err k r = tt

  -- A sleeper is heard when it is if it is registered and heard before.
  IsHeard-after :
      (e e' : E) (f f' : ℕ) (n n' : Notifying) (w : Waiting)
      → (ev.is_listening e ≡ true
          → (f ≡ 0) ⊎ ((ev.is_woken e ≡ true) ⊎ (0 < pending n))
          → (f' ≡ 0) ⊎ ((ev.is_woken e' ≡ true) ⊎ (0 < pending n')))
      → IsRegistered ev e w
      → IsHeard ev f e w n
      → IsHeard ev f' e' w n'
  IsHeard-after e e' f f' n n' first_check k r h = tt
  IsHeard-after e e' f f' n n' registering k r h = tt
  IsHeard-after e e' f f' n n' second_check k r h = tt
  IsHeard-after e e' f f' n n' asleep k r h = k r h
  IsHeard-after e e' f f' n n' returned_ok k r h = tt
  IsHeard-after e e' f f' n n' returned_err k r h = tt

  step-Inv : LawfulEvent ev → (s s' : EventState E) → Inv ev s → Step ev s s' → Inv ev s'
  unfolding after_set after_check
  step-Inv l _ _ v (sets f e w n) =
      let (le, c) = set-cases f v.small in
      record {
        small = le;
        registered = v.registered;
        heard =
            IsHeard-after e e f (set f).1 (shared n) (after_set (set f).0 n) w
              (λ r h. elim c [
                | inl ok ↦ rw ok (inr (inr (omega arith)))
                | inr (bad, ne) ↦ rw bad (elim h [ inl z ↦ absurd (ne z) | inr k ↦ inr k ])
              ])
              v.registered v.heard;
      }
  step-Inv l _ _ v (notifies f e w n) = record {
    small = v.small;
    registered =
        IsRegistered-after e (ev.notify_additional e) w (l.listening-notify_additional e)
          v.registered;
    heard =
        IsHeard-after e (ev.notify_additional e) f f (shared (suc n)) (shared n) w
          (λ r h. inr (inl (l.woken-notify_additional e r))) v.registered v.heard;
  }
  step-Inv l _ _ v (drops f e w) = record {
    small = omega arith;
    registered = v.registered;
    heard =
        IsHeard-after e e f err_flag (shared 0) behind_store w (λ r h. inr (inr (omega arith)))
          v.registered v.heard;
  }
  step-Inv l _ _ v (wakes f e w) = record {
    small = v.small;
    registered = IsRegistered-after e (ev.notify e) w (l.listening-notify e) v.registered;
    heard =
        IsHeard-after e (ev.notify e) f f behind_store gone w
          (λ r h. inr (inl (l.woken-notify e r))) v.registered v.heard;
  }
  step-Inv l _ _ v (checks_first f e n) =
      let (le, c) = check-cases f v.small in
      elim c [
        | inl (u, z) ↦ rw u record { small = le; registered = tt; heard = tt }
        | inr (inl u) ↦ rw u record { small = le; registered = tt; heard = tt }
        | inr (inr u) ↦ rw u record { small = le; registered = tt; heard = tt }
      ]
  step-Inv l _ _ v (registers f e n) = record {
    small = v.small;
    registered = l.listening-listen e;
    heard = tt;
  }
  step-Inv l _ _ v (checks_second f e n) =
      let (le, c) = check-cases f v.small in
      elim c [
        | inl (u, z) ↦ rw u record { small = le; registered = v.registered; heard = inl z }
        | inr (inl u) ↦ rw u record { small = le; registered = tt; heard = tt }
        | inr (inr u) ↦ rw u record { small = le; registered = tt; heard = tt }
      ]
  step-Inv l _ _ v (wakes_up f e n k) = record { small = v.small; registered = tt; heard = tt }
  step-Inv l _ _ v (waits_again f e n) = record { small = v.small; registered = tt; heard = tt }

  reach-Inv : LawfulEvent ev → (e0 : E) (s : EventState E) → Reach ev e0 s → Inv ev s
  reach-Inv l e0 _ start = record { small = omega arith; registered = tt; heard = tt }
  reach-Inv l e0 _ (step s s' r k) = step-Inv l s s' (reach-Inv l e0 s r) k

-- For a listener library that wakes a registered listener: in every state that steps of the notifier and the
-- waiter lead to, in any order, a waiter that sleeps while the flag is set has been woken, or a call
-- that will wake it is under way.
pub wait-IsHeard :
    {E : Type 0} (ev : EventLib E) (l : LawfulEvent ev) (e0 : E) (s : EventState E)
    → Reach ev e0 s
    → IsHeard ev s.flag s.event s.waiter s.notifier
wait-IsHeard ev l e0 s r = (reach-Inv ev l e0 s r).heard
