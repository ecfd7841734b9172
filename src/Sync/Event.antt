-- ===== src/Sync/Event.antt =====
-- src/sync/event.rs: a flag with a listener. The listener itself is the library event_listener.
pub mod Wakeup
use thubo.Prelude.{
  ℕ, suc, ◌-◌, ◌^◌, ◌≡◌, ◌≢◌, ◌≤◌, ◌⊎◌, inl, inr, refl, ap, sym, ◌∙◌, bit_and, bit_or, Bool, true,
  false, not, ◌==◌, if◌then◌else◌, arith,
}

-- What the code relies on of `event_listener::Event` for one waiter: a listener that is registered is
-- woken by the notifications after that, and stays woken.
pub record EventLib (E : Type 0) : Type 0 where
  pub listen : E → E
  pub notify_additional : E → E
  pub notify : E → E
  pub is_listening : E → Bool
  pub is_woken : E → Bool

pub record LawfulEvent {E : Type 0} (ev : EventLib E) : Type 0 where
  pub listening-listen : (e : E) → ev.is_listening (ev.listen e) ≡ true
  pub listening-notify_additional :
      (e : E) → ev.is_listening e ≡ true → ev.is_listening (ev.notify_additional e) ≡ true
  pub listening-notify : (e : E) → ev.is_listening e ≡ true → ev.is_listening (ev.notify e) ≡ true
  pub woken-notify_additional :
      (e : E) → ev.is_listening e ≡ true → ev.is_woken (ev.notify_additional e) ≡ true
  pub woken-notify : (e : E) → ev.is_listening e ≡ true → ev.is_woken (ev.notify e) ≡ true

abbrev pub unset : ℕ
unset = 0

abbrev pub ok_flag : ℕ
ok_flag = 1

abbrev pub err_flag : ℕ
err_flag = 2

pub data EventCheck : Type 0 where
  check_unset check_ok check_err : EventCheck

pub data EventSet : Type 0 where
  set_ok set_err : EventSet

-- `EventInner::check`, on what the flag was; the flag loses OK.
unfoldable pub check : ℕ → EventCheck × ℕ
check f = (
  if not (bit_and f err_flag == 0)
      then check_err
      else if f == ok_flag
      then check_ok
      else check_unset,
  bit_and f (2 ^ 8 - 1 - ok_flag),
)

unfoldable pub set : ℕ → EventSet × ℕ
set f = (if not (bit_and f err_flag == 0) then set_err else set_ok, bit_or f ok_flag)

-- Where the waiter is in `Waiter::wait`, between two steps on what is shared.
pub data Waiting : Type 0 where
  first_check registering second_check asleep returned_ok returned_err : Waiting

-- The notifier: so many calls of `notify` are behind `set`; or it is in `drop` behind the store, or gone.
pub data Notifying : Type 0 where
  shared : ℕ → Notifying
  behind_store gone : Notifying

pub record EventState (E : Type 0) : Type 0 where
  pub flag : ℕ
  pub event : E
  pub waiter : Waiting
  pub notifier : Notifying

-- What a check leads to: `wait` returns, or goes on to `next`.
unfoldable pub after_check : EventCheck → Waiting → Waiting
after_check check_ok next = returned_ok
after_check check_unset next = next
after_check check_err next = returned_err

unfoldable pub after_set : EventSet → ℕ → Notifying
after_set set_ok n = shared (suc n)
after_set set_err n = shared n

module _ {E : Type 0} (ev : EventLib E) where
  -- One step of a notifier or of the waiter. A waiter that has returned may wait again.
  pub data Step : EventState E → EventState E → Type 0 where
    sets :
        (f : ℕ) (e : E) (w : Waiting) (n : ℕ)
        → Step
            (record { flag = f; event = e; waiter = w; notifier = shared n })
            (record { flag = (set f).1; event = e; waiter = w; notifier = after_set (set f).0 n })
    notifies :
        (f : ℕ) (e : E) (w : Waiting) (n : ℕ)
        → Step
            (record { flag = f; event = e; waiter = w; notifier = shared (suc n) })
            (record { flag = f; event = ev.notify_additional e; waiter = w; notifier = shared n })
    drops :
        (f : ℕ) (e : E) (w : Waiting)
        → Step
            (record { flag = f; event = e; waiter = w; notifier = shared 0 })
            (record { flag = err_flag; event = e; waiter = w; notifier = behind_store })
    wakes :
        (f : ℕ) (e : E) (w : Waiting)
        → Step
            (record { flag = f; event = e; waiter = w; notifier = behind_store })
            (record { flag = f; event = ev.notify e; waiter = w; notifier = gone })
    checks_first :
        (f : ℕ) (e : E) (n : Notifying)
        → Step
            (record { flag = f; event = e; waiter = first_check; notifier = n })
            (record {
              flag = (check f).1;
              event = e;
              waiter = after_check (check f).0 registering;
              notifier = n;
            })
    registers :
        (f : ℕ) (e : E) (n : Notifying)
        → Step
            (record { flag = f; event = e; waiter = registering; notifier = n })
            (record { flag = f; event = ev.listen e; waiter = second_check; notifier = n })
    checks_second :
        (f : ℕ) (e : E) (n : Notifying)
        → Step
            (record { flag = f; event = e; waiter = second_check; notifier = n })
            (record {
              flag = (check f).1;
              event = e;
              waiter = after_check (check f).0 asleep;
              notifier = n;
            })
    wakes_up :
        (f : ℕ) (e : E) (n : Notifying)
        → ev.is_woken e ≡ true
        → Step
            (record { flag = f; event = e; waiter = asleep; notifier = n })
            (record { flag = f; event = e; waiter = first_check; notifier = n })
    waits_again :
        (f : ℕ) (e : E) (n : Notifying)
        → Step
            (record { flag = f; event = e; waiter = returned_ok; notifier = n })
            (record { flag = f; event = e; waiter = first_check; notifier = n })

  -- Any interleaving of steps, from a new event.
  pub data Reach (e0 : E) : EventState E → Type 0 where
    start :
        Reach e0 (record { flag = unset; event = e0; waiter = first_check; notifier = shared 0 })
    step : (s s' : EventState E) → Reach e0 s → Step s s' → Reach e0 s'
