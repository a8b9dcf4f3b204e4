-- ===== src/Timers/Manager.antt =====
-- `TimerManager` of timer_manager.hpp, an event at a time: the calls of the user, which hold the mutex, and what the
-- asynchronous timer of boost does. Of that timer the model keeps the waits whose handler has not been called:
-- a new expiry time or `cancel` aborts the ones that still wait, and the handler of each is called once, later.
-- A wait that ended by its time is not aborted any more.
pub mod Users
pub mod Switch
pub mod Ready
pub mod Events
pub mod Inserts
pub mod Stalls
pub mod Armed
pub mod Spin
pub mod Rounding
use btool.Common.{
  ℕ, zero, suc, ◌+◌, ◌-◌, ◌*◌, ◌/◌, ◌%◌, ◌^◌, Bool, true, false, not, ◌&&◌, ◌||◌, List, [], ◌∷◌,
  ◌++◌, map, Option, none, some, ltb, ◌==◌, if◌then◌else◌, get_elem?,
}
use btool.Common.Int.{ℤ, pos}
use btool.Common.Assoc.{contains}
use btool.AtomicSwitch
use btool.AtomicSwitch.{AtomicSwitch, create}
use btool.Timers.{TimerTask, nanoseconds}
use btool.Timers.Queue
use btool.Timers.Queue.{TimerQueue, erase_timer, clear_point_timer, loop_point_timer, front, empty}

pub data WaitState : Type 0 where
  waiting expired aborted failed : WaitState

-- A wait, with what its handler was bound to.
pub record Wait : Type 0 where
  pub timer_task : ℕ
  pub time_point : ℕ
  pub state : WaitState

pub record TimerManager : Type 0 where
  pub space_millsecond : ℕ
  pub switch : AtomicSwitch
  pub cur_task : Option ℕ
  pub next_id : ℕ
  pub queue : TimerQueue
  pub waits : List Wait

abbrev pub init : ℕ → (ℕ → TimerTask) → TimerManager
init space_millsecond tasks = record {
  space_millsecond = space_millsecond;
  switch = create;
  cur_task = none;
  next_id = 0;
  queue = Queue.init tasks;
  waits = [];
}

abbrev pub abort : Wait → Wait
abort w = elim w.state [ waiting ↦ record w { state = aborted } | s ↦ w ]

-- `m_timer->cancel()`. Before the first `start` there is no timer, and no wait.
abbrev pub cancel_waits : TimerManager → TimerManager
cancel_waits m = record m { waits = map abort m.waits }

abbrev pub new_wait : ℕ → ℕ → Wait
new_wait id time_point = record { timer_task = id; time_point = time_point; state = waiting }

-- `start(timer_task)`: `expires_at`, which cancels, and `async_wait`.
unfoldable pub start_task : ℕ → TimerManager → TimerManager
unfolding AtomicSwitch.has_started
start_task id m =
    if not (AtomicSwitch.has_started m.switch)
    then m
    else record m { waits = map abort m.waits ++ new_wait id (m.queue.tasks id).time_point ∷ [] }

-- Up to the next multiple of the slice, in `unsigned long long`.
unfoldable pub round_up : ℕ → ℕ → ℕ
round_up space x = (x + space + (2 ^ 64 - 1)) % 2 ^ 64 / space * space % 2 ^ 64

-- The time point, in nanoseconds, and the interval, an `unsigned int`, that `insert` works with.
unfoldable pub revise_time_point : ℕ → ℕ → ℕ
unfolding round_up
revise_time_point space time_point =
    if ltb 1 space then round_up space (time_point / nanoseconds) * nanoseconds else time_point

unfoldable pub revise_interval : ℕ → ℕ → ℕ
unfolding round_up
revise_interval space interval_ms =
    if ltb 1 space then round_up space interval_ms % 2 ^ 32 else interval_ms

abbrev pub is_task : Option ℕ → ℕ → Bool
is_task none id = false
is_task (some other) id = other == id

-- What `insert` does once the timer is in the queue.
unfoldable pub settle : ℕ → TimerManager → TimerManager
unfolding start_task
settle id m = elim m.cur_task [
  | none ↦ start_task id (record m { cur_task = some id })
  | some cur ↦ if not (is_task (front m.queue) cur) then cancel_waits m else m
]

-- The part of `insert` that holds the mutex, with 0 for no timer.
unfoldable pub insert_locked : ℕ → ℤ → ℕ → TimerManager → ℕ × TimerManager
unfolding revise_time_point revise_interval settle
insert_locked interval_ms loop_count time_point m =
    let id = (m.next_id + 1) % 2 ^ 64 in
    let made =
      Queue.insert (revise_interval m.space_millsecond interval_ms) loop_count id
        (revise_time_point m.space_millsecond time_point) m.queue in
    elim made [
      | none ↦ (0, record m { next_id = id })
      | some queue ↦ (id, settle id (record m { next_id = id; queue = queue }))
    ]

-- The look at the switch, before the mutex, and the rest; Users has them apart.
unfoldable pub insert : ℕ → ℤ → ℕ → TimerManager → ℕ × TimerManager
unfolding AtomicSwitch.has_started insert_locked
insert interval_ms loop_count time_point m =
    if not (AtomicSwitch.has_started m.switch)
    then (0, m)
    else insert_locked interval_ms loop_count time_point m

unfoldable pub erase : ℕ → TimerManager → TimerManager
unfolding erase_timer
erase id m =
    let erased = erase_timer id m.queue in
    let left = record m { queue = erased.1 } in
    elim erased.0 [
      | none ↦ left
      | some task ↦ if is_task m.cur_task task then cancel_waits left else left
    ]

unfoldable pub clear : TimerManager → TimerManager
clear m = record (cancel_waits m) { queue = Queue.clear m.queue; cur_task = none }

unfoldable pub clear_point : ℕ → TimerManager → TimerManager
unfolding clear_point_timer contains
clear_point time_point m =
    let cleared = clear_point_timer time_point m.queue in
    let left = record m { queue = cleared.1 } in
    elim m.cur_task [
      | none ↦ left
      | some cur ↦ if contains cur cleared.0 then cancel_waits left else left
    ]

-- The end of `handler`: on to the first timer.
unfoldable pub go_on : TimerManager → TimerManager
unfolding start_task
go_on m = if empty m.queue then m else elim (front m.queue) [
  | none ↦ m
  | some id ↦ start_task id (record m { cur_task = some id })
]

-- `handler`, called with the error that the end of the wait stands for; a wait that goes on calls nothing.
unfoldable pub handler : WaitState → ℕ → ℕ → TimerManager → TimerManager
unfolding loop_point_timer erase_timer go_on
handler waiting timer_task time_point m = m
handler expired timer_task time_point m =
    go_on (record m { cur_task = none; queue = loop_point_timer time_point m.queue })
handler aborted timer_task time_point m = go_on (record m { cur_task = none })
handler failed timer_task time_point m =
    go_on (record m { cur_task = none; queue = (erase_timer timer_task m.queue).1 })

-- `start` and `stop` are whole calls: they hold no mutex, and what runs beside them is not modelled.
-- The results of the switch.
abbrev pub returned : AtomicSwitch × Option Bool → Bool
returned (s, none) = false
returned (s, some b) = b

unfoldable pub start : TimerManager → TimerManager
unfolding AtomicSwitch.init AtomicSwitch.start
start m =
    let inited = AtomicSwitch.init m.switch in
    let started = AtomicSwitch.start inited.0 in
    if not (returned inited)
    then record m { switch = inited.0 }
    else record m { switch = started.0 }

unfoldable pub stop : TimerManager → TimerManager
unfolding AtomicSwitch.stop AtomicSwitch.reset clear
stop m =
    let stopped = AtomicSwitch.stop m.switch in
    if not (returned stopped)
    then record m { switch = stopped.0 }
    else record (clear m) { switch = AtomicSwitch.reset stopped.0 }

-- The waits without the one at an index.
abbrev pub without : ℕ → List Wait → List Wait
without i [] = []
without zero (w ∷ ws) = ws
without (suc i) (w ∷ ws) = w ∷ without i ws

-- A wait that still waits ends, by its time or by an error of the system.
abbrev pub end_wait : WaitState → Wait → Wait
end_wait s w = elim w.state [ waiting ↦ record w { state = s } | other ↦ w ]

abbrev pub ends : WaitState → ℕ → List Wait → List Wait
ends s i [] = []
ends s zero (w ∷ ws) = end_wait s w ∷ ws
ends s (suc i) (w ∷ ws) = w ∷ ends s i ws

pub data Event : Type 0 where
  starts stops clears : Event
  inserts : ℕ → ℤ → ℕ → Event
  erases clears_point expires fails handles : ℕ → Event

abbrev pub has_ended : WaitState → Bool
has_ended waiting = false
has_ended s = true

-- The handler of a wait, once it has ended.
unfoldable pub handle : ℕ → TimerManager → TimerManager
unfolding handler
handle i m = elim (get_elem? m.waits i) [
  | none ↦ m
  | some w ↦
      if not (has_ended w.state)
      then m
      else handler w.state w.timer_task w.time_point (record m { waits = without i m.waits })
]

unfoldable pub step : Event → TimerManager → TimerManager
unfolding start stop clear insert erase clear_point handle
step starts m = start m
step stops m = stop m
step clears m = clear m
step (inserts interval_ms loop_count time_point) m = (insert interval_ms loop_count time_point m).1
step (erases id) m = erase id m
step (clears_point time_point) m = clear_point time_point m
step (expires i) m = record m { waits = ends expired i m.waits }
step (fails i) m = record m { waits = ends failed i m.waits }
step (handles i) m = handle i m
