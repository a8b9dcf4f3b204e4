-- ===== src/Timers/Manager/Users.antt =====
-- The threads that use a `TimerManager`: what `insert` looks at before it has the mutex, and the rest, apart.
use btool.Common.{ℕ, Bool, true, false, ◌&&◌, List, [], ◌∷◌, Option, none, some, if◌then◌else◌}
use btool.Common.Int.{ℤ}
use btool.AtomicSwitch
use btool.LastTaskQueue.{extract}
use btool.Timers.{TimerTask}
use btool.Timers.Manager.{TimerManager, Event, starts, stops, init, insert_locked, step}

-- The manager, and the calls of `insert` that found it started and do not have the mutex yet, the last first.
pub record Users : Type 0 where
  pub manager : TimerManager
  pub looked : List (ℕ × ℤ × ℕ)

pub data Action : Type 0 where
  looks : ℕ → ℤ → ℕ → Action
  locks : ℕ → Action
  does : Event → Action

abbrev pub new_users : ℕ → (ℕ → TimerTask) → Users
new_users space_millsecond tasks = record { manager = init space_millsecond tasks; looked = [] }

unfoldable pub look : ℕ → ℤ → ℕ → Users → Users
unfolding AtomicSwitch.has_started
look interval_ms loop_count time_point u =
    if AtomicSwitch.has_started u.manager.switch
    then record u { looked = (interval_ms, loop_count, time_point) ∷ u.looked }
    else u

unfoldable pub lock : Option ((ℕ × ℤ × ℕ) × List (ℕ × ℤ × ℕ)) → Users → Users
unfolding insert_locked
lock none u = u
lock (some ((interval_ms, loop_count, time_point), rest)) u = record u {
  manager = (insert_locked interval_ms loop_count time_point u.manager).1;
  looked = rest;
}

unfoldable pub act : Action → Users → Users
unfolding look lock extract step
act (looks interval_ms loop_count time_point) u = look interval_ms loop_count time_point u
act (locks n) u = lock (extract n u.looked) u
act (does e) u = record u { manager = step e u.manager }

abbrev pub run : List Action → Users → Users
run [] u = u
run (a ∷ actions) u = run actions (act a u)

-- No `insert` is between its look and the mutex.
abbrev pub at_rest : Users → Bool
at_rest u = none_looked u.looked
  where
    none_looked : List (ℕ × ℤ × ℕ) → Bool
    none_looked [] = true
    none_looked (call ∷ calls) = false

abbrev pub may : Action → Users → Bool
may (does starts) u = at_rest u
may (does stops) u = at_rest u
may a u = true

-- No call of `start` or `stop` comes while an `insert` is under way.
abbrev pub apart : List Action → Users → Bool
apart [] u = true
apart (a ∷ actions) u = let rest = apart actions (act a u) in may a u && rest
