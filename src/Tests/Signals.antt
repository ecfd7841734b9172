-- ===== src/Tests/Signals.antt =====
-- A listener library of two flags, and the theorems on what tasks signal each other with.
use thubo.Prelude.{◌+◌, ◌*◌, ◌^◌, ◌≡◌, refl, Bool, true, false, arith}
use thubo.Sync.Time.{Duration, store, load, load-store, duration_to_u64}
use thubo.Sync.Event.{
  EventLib, LawfulEvent, EventState, Reach, start, step, checks_first, registers, checks_second,
  sets, shared, asleep, check, set, after_check, after_set,
}
use thubo.Sync.Event.Wakeup.{IsHeard, wait-IsHeard}

-- Whether there is a listener, and whether it was woken.
record Listener : Type 0 where
  there : Bool
  woken : Bool

abbrev listener_lib : EventLib Listener
listener_lib = record {
  listen = λ e. record { there = true; woken = false };
  notify_additional = λ e. record { there = e.there; woken = true };
  notify = λ e. record { there = e.there; woken = true };
  is_listening = λ e. e.there;
  is_woken = λ e. e.woken;
}

listener_lawful : LawfulEvent listener_lib
listener_lawful = record {
  listening-listen = λ e. refl;
  listening-notify_additional = λ e h. h;
  listening-notify = λ e h. h;
  woken-notify_additional = λ e h. refl;
  woken-notify = λ e h. refl;
}

abbrev nobody : Listener
nobody = record { there = false; woken = false }

abbrev listening : Listener
listening = record { there = true; woken = false }

-- The waiter falls asleep, and then the flag is set.
abbrev notified : EventState Listener
notified = record { flag = 1; event = listening; waiter = asleep; notifier = shared 1 }

notified-Reach : Reach listener_lib nobody notified
unfolding check set after_check after_set
notified-Reach =
    step _ _
      (step _ _
        (step _ _ (step _ _ start (checks_first 0 nobody (shared 0)))
          (registers 0 nobody (shared 0)))
        (checks_second 0 listening (shared 0)))
      (sets 0 listening asleep 0)

wait-IsHeard_example :
    IsHeard listener_lib notified.flag notified.event notified.waiter notified.notifier
wait-IsHeard_example = wait-IsHeard listener_lib listener_lawful nobody notified notified-Reach

abbrev ten_seconds : Duration
ten_seconds = record { secs = 10; nanos = 5 }

load-store_example : load (10 * 2 ^ 32 + 5) ≡ ten_seconds
unfolding store duration_to_u64
load-store_example = load-store ten_seconds (10 * 2 ^ 32 + 5) (omega arith) refl
