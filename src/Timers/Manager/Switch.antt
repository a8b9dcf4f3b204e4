-- ===== src/Timers/Manager/Switch.antt =====
-- What leaves the switch of a manager alone: all but `start` and `stop`.
use btool.Common.{
  ℕ, ◌+◌, ◌%◌, ◌^◌, ◌≡◌, refl, Bool, true, false, not, Option, none, some, if◌then◌else◌, arith,
  Option-cases, Bool-cases, inl, inr, get_elem?,
}
use btool.Common.Int.{ℤ}
use btool.Common.Assoc.{contains}
use btool.AtomicSwitch
use btool.AtomicSwitch.{AtomicSwitch}
use btool.Timers.Queue
use btool.Timers.Queue.{TimerQueue, erase_timer, clear_point_timer, loop_point_timer, front, empty}
use btool.Timers.Manager.{
  TimerManager, WaitState, waiting, expired, aborted, failed, start_task, settle, insert,
  insert_locked, erase, clear, clear_point, go_on, handler, handle, Event, starts, stops, clears,
  inserts, erases, clears_point, expires, fails, handles, step, cancel_waits, is_task, has_ended,
  without, revise_interval, revise_time_point,
}

abbrev HasSwitch : AtomicSwitch → TimerManager → Type 0
HasSwitch s m = m.switch ≡ s

-- A manager with a given switch, through a choice.
by_flag :
    {s : AtomicSwitch} (b : Bool) (m n : TimerManager)
    → m.switch ≡ s
    → n.switch ≡ s
    → (if b then m else n).switch ≡ s
by_flag true m n h k = h
by_flag false m n h k = k

by_option :
    {A : Type 0} {s : AtomicSwitch} (o : Option A) (m : TimerManager) (f : A → TimerManager)
    → m.switch ≡ s
    → ((a : A) → (f a).switch ≡ s)
    → HasSwitch s (elim o [ none ↦ m | some a ↦ f a ])
by_option none m f h k = h
by_option (some a) m f h k = k a

switch-start_task : (id : ℕ) (m : TimerManager) → (start_task id m).switch ≡ m.switch
unfolding start_task
switch-start_task id m = by_flag (not (AtomicSwitch.has_started m.switch)) m _ refl refl

switch-settle : (id : ℕ) (m : TimerManager) → (settle id m).switch ≡ m.switch
unfolding settle
switch-settle id m =
    by_option m.cur_task (start_task id (record m { cur_task = some id }))
      (λ cur. if not (is_task (front m.queue) cur) then cancel_waits m else m)
      (switch-start_task id (record m { cur_task = some id }))
      (λ cur. by_flag (not (is_task (front m.queue) cur)) (cancel_waits m) m refl refl)

pub switch-insert_locked :
    (interval_ms : ℕ) (loop_count : ℤ) (time_point : ℕ) (m : TimerManager)
    → (insert_locked interval_ms loop_count time_point m).1.switch ≡ m.switch
unfolding insert_locked
switch-insert_locked interval_ms loop_count time_point m =
    elim (Option-cases (
      Queue.insert (revise_interval m.space_millsecond interval_ms) loop_count id
        (revise_time_point m.space_millsecond time_point) m.queue)) [
          | inl e ↦ rw (e, insert_locked) refl
          | inr (q, e) ↦
              rw (e, insert_locked) (switch-settle id (record m { next_id = id; queue = q }))
        ]
  where
    id : ℕ
    id = (m.next_id + 1) % 2 ^ 64

switch-insert :
    (interval_ms : ℕ) (loop_count : ℤ) (time_point : ℕ) (m : TimerManager)
    → (insert interval_ms loop_count time_point m).1.switch ≡ m.switch
unfolding insert
switch-insert interval_ms loop_count time_point m =
    elim (Bool-cases (AtomicSwitch.has_started m.switch)) [
      | inl on ↦ rw (on, insert) (switch-insert_locked interval_ms loop_count time_point m)
      | inr off ↦ rw (off, insert) refl
    ]

switch-erase : (id : ℕ) (m : TimerManager) → (erase id m).switch ≡ m.switch
unfolding erase
switch-erase id m =
    by_option (erase_timer id m.queue).0 left
      (λ task. if is_task m.cur_task task then cancel_waits left else left) refl
      (λ task. by_flag (is_task m.cur_task task) (cancel_waits left) left refl refl)
  where
    left : TimerManager
    left = record m { queue = (erase_timer id m.queue).1 }

switch-clear_point : (t : ℕ) (m : TimerManager) → (clear_point t m).switch ≡ m.switch
unfolding clear_point
switch-clear_point t m =
    by_option m.cur_task left
      (λ cur. if contains cur (clear_point_timer t m.queue).0 then cancel_waits left else left) refl
      (λ cur.
        by_flag (contains cur (clear_point_timer t m.queue).0) (cancel_waits left) left refl refl)
  where
    left : TimerManager
    left = record m { queue = (clear_point_timer t m.queue).1 }

switch-go_on : (m : TimerManager) → (go_on m).switch ≡ m.switch
unfolding go_on
switch-go_on m = by_flag (empty m.queue) m _ refl (
    by_option (front m.queue) m (λ id. start_task id (record m { cur_task = some id })) refl
      (λ id. switch-start_task id (record m { cur_task = some id })))

switch-handler :
    (s : WaitState) (task t : ℕ) (m : TimerManager) → (handler s task t m).switch ≡ m.switch
unfolding handler
switch-handler waiting task t m = refl
switch-handler expired task t m =
    switch-go_on (record m { cur_task = none; queue = loop_point_timer t m.queue })
switch-handler aborted task t m = switch-go_on (record m { cur_task = none })
switch-handler failed task t m =
    switch-go_on (record m { cur_task = none; queue = (erase_timer task m.queue).1 })

switch-handle : (i : ℕ) (m : TimerManager) → (handle i m).switch ≡ m.switch
unfolding handle
switch-handle i m =
    by_option (get_elem? m.waits i) m
      (λ w.
        if not (has_ended w.state)
        then m
        else handler w.state w.timer_task w.time_point (record m { waits = without i m.waits }))
      refl
      (λ w.
        by_flag (not (has_ended w.state)) m
          (handler w.state w.timer_task w.time_point (record m { waits = without i m.waits })) refl
          (switch-handler w.state w.timer_task w.time_point
            (record m { waits = without i m.waits })))

-- `start` and `stop` are the only events that work the switch.
abbrev pub works_switch : Event → Bool
works_switch starts = true
works_switch stops = true
works_switch e = false

pub switch-step :
    (e : Event) (m : TimerManager) → works_switch e ≡ false → (step e m).switch ≡ m.switch
unfolding step clear
switch-step starts m h = absurd (ground arith)
switch-step stops m h = absurd (ground arith)
switch-step clears m h = refl
switch-step (inserts interval_ms loop_count time_point) m h =
    switch-insert interval_ms loop_count time_point m
switch-step (erases id) m h = switch-erase id m
switch-step (clears_point t) m h = switch-clear_point t m
switch-step (expires i) m h = refl
switch-step (fails i) m h = refl
switch-step (handles i) m h = switch-handle i m
