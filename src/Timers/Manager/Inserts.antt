-- ===== src/Timers/Manager/Inserts.antt =====
-- Inserting a timer and calling a handler keep a manager ready.
use btool.Common.{
  ℕ, ◌+◌, ◌%◌, ◌^◌, ◌≡◌, Bool, true, false, not, List, Option, none, some, if◌then◌else◌, arith,
  Option-cases, Bool-cases, inl, inr,
}
use btool.Common.Int.{ℤ}
use btool.AtomicSwitch
use btool.AtomicSwitch.{AtomicSwitch}
use btool.Timers.Queue
use btool.Timers.Queue.{
  TimerQueue, empty, front, is_nil, erase_timer, clear_point_timer, loop_point_timer,
}
use btool.Timers.Queue.WellFormed.{IsWell, insert-IsWell, erase_timer-IsWell}
use btool.Timers.Queue.Steps.{loop_point_timer-IsWell}
use btool.Timers.Manager.{
  TimerManager, Wait, WaitState, waiting, expired, aborted, failed, cancel_waits, settle, insert,
  insert_locked, handler, has_ended, revise_interval, revise_time_point, without, is_task,
}
use btool.Timers.Queue.Empty.{erase_timer-Fewer, loop_point_timer-Fewer}
use btool.Timers.Manager.Ready.{IsReady, start_task-IsReady, go_on-IsReady}
use btool.Timers.Manager.Events.{cancel_waits-IsReady, queue-IsFree}

-- With a timer more, where a wait is outstanding.
fuller-IsReady :
    (id : ℕ) (m : TimerManager) (q : TimerQueue) (cur : ℕ)
    → IsReady m
    → IsWell q
    → m.cur_task ≡ some cur
    → AtomicSwitch.has_started m.switch ≡ true
    → IsReady (record m { next_id = id; queue = q })
fuller-IsReady id m q cur r w e h = record {
  well = w;
  current = r.current;
  idle = λ c. absurd (ground (arith, e));
  stopped = λ s. absurd (ground (arith, h));
}

cancelled-IsReady :
    (b : Bool) (m : TimerManager) → IsReady m → IsReady (if not b then cancel_waits m else m)
cancelled-IsReady true m r = r
cancelled-IsReady false m r = cancel_waits-IsReady m r

settle-IsReady :
    (id : ℕ) (m : TimerManager) (q : TimerQueue)
    → IsReady m
    → IsWell q
    → AtomicSwitch.has_started m.switch ≡ true
    → IsReady (settle id (record m { next_id = id; queue = q }))
unfolding settle
settle-IsReady id m q r w h = elim (Option-cases m.cur_task) [
  | inl e ↦ rw (e, settle) (start_task-IsReady id (record m { next_id = id; queue = q }) w h)
  | inr (cur, e) ↦
      rw (e, settle)
        (cancelled-IsReady (is_task (front q) cur) (record m { next_id = id; queue = q })
          (fuller-IsReady id m q cur r w e h))
]

id-IsReady : (id : ℕ) (m : TimerManager) → IsReady m → IsReady (record m { next_id = id })
id-IsReady id m r = record {
  well = r.well;
  current = r.current;
  idle = r.idle;
  stopped = r.stopped;
}

pub insert_locked-IsReady :
    (interval_ms : ℕ) (loop_count : ℤ) (time_point : ℕ) (m : TimerManager)
    → IsReady m
    → AtomicSwitch.has_started m.switch ≡ true
    → IsReady (insert_locked interval_ms loop_count time_point m).1
unfolding insert_locked
insert_locked-IsReady interval_ms loop_count time_point m r on =
    elim (Option-cases (Queue.insert interval loop_count id revised m.queue)) [
      | inl e ↦ rw (e, insert_locked) (id-IsReady id m r)
      | inr (q, e) ↦
          rw (e, insert_locked)
            (settle-IsReady id m q r
              (insert-IsWell interval loop_count id revised m.queue q r.well e) on)
    ]
  where
    id : ℕ
    id = (m.next_id + 1) % 2 ^ 64

    interval : ℕ
    interval = revise_interval m.space_millsecond interval_ms

    revised : ℕ
    revised = revise_time_point m.space_millsecond time_point

pub insert-IsReady :
    (interval_ms : ℕ) (loop_count : ℤ) (time_point : ℕ) (m : TimerManager)
    → IsReady m
    → IsReady (insert interval_ms loop_count time_point m).1
unfolding insert
insert-IsReady interval_ms loop_count time_point m r =
    elim (Bool-cases (AtomicSwitch.has_started m.switch)) [
      | inr off ↦ rw (off, insert) r
      | inl on ↦ rw (on, insert) (insert_locked-IsReady interval_ms loop_count time_point m r on)
    ]

handler-IsReady :
    (s : WaitState) (task t : ℕ) (m : TimerManager) (ws : List Wait)
    → IsReady m
    → has_ended s ≡ true
    → IsReady (handler s task t (record m { waits = ws }))
unfolding handler
handler-IsReady waiting task t m ws r h = absurd (ground arith)
handler-IsReady expired task t m ws r h = go_on-IsReady _ (
    queue-IsFree m (loop_point_timer t m.queue) ws r (loop_point_timer-IsWell t m.queue r.well)
      (loop_point_timer-Fewer t m.queue))
handler-IsReady aborted task t m ws r h =
    go_on-IsReady _ (queue-IsFree m m.queue ws r r.well (λ j. omega arith))
handler-IsReady failed task t m ws r h = go_on-IsReady _ (
    queue-IsFree m (erase_timer task m.queue).1 ws r (erase_timer-IsWell task m.queue r.well)
      (erase_timer-Fewer task m.queue))

pub handled-IsReady :
    (found : Option Wait) (i : ℕ) (m : TimerManager)
    → IsReady m
    → IsReady (elim found [
      | none ↦ m
      | some w ↦
          if not (has_ended w.state)
          then m
          else handler w.state w.timer_task w.time_point (record m { waits = without i m.waits })
    ])
handled-IsReady none i m r = r
handled-IsReady (some w) i m r = elim (Bool-cases (has_ended w.state)) [
  | inr e ↦ rw e r
  | inl e ↦ rw e (handler-IsReady w.state w.timer_task w.time_point m (without i m.waits) r e)
]
