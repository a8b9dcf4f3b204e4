-- ===== src/Timers/Manager/Armed.antt =====
-- The wait that a handler leaves is for the timer that is due next.
use btool.Common.{ℕ, ◌≡◌, false, List, [], ◌∷◌, ◌++◌, map, some, arith}
use btool.Timers.Queue.{TimerQueue, empty, erase_timer, loop_point_timer}
use btool.Timers.Queue.Front.{IsNext, front-IsNext}
use btool.Timers.Manager.{
  TimerManager, Wait, WaitState, waiting, expired, aborted, failed, abort, new_wait, go_on,
}
use btool.Timers.Manager.Ready.{IsFree, started_task}

-- `r` has timers and its timer waits for the next one due: the last of the waits, all others being aborted.
pub record IsArmed (before : List Wait) (q : TimerQueue) (r : TimerManager) : Type 0 where
  pub next : ℕ
  pub current : r.cur_task ≡ some next
  pub due : IsNext next r.queue
  pub waits_are : r.waits ≡ map abort before ++ new_wait next (r.queue.tasks next).time_point ∷ []
  -- The queue, in which the timers of the time point had their turn.
  pub queue_is : r.queue ≡ q

pub go_on-eq :
    (m : TimerManager)
    → IsFree m
    → empty m.queue ≡ false
    → (id : ℕ) × IsNext id m.queue
      × (go_on m ≡ record m {
        cur_task = some id;
        waits = map abort m.waits ++ new_wait id (m.queue.tasks id).time_point ∷ [];
      })
unfolding go_on
go_on-eq m f e =
    let next = front-IsNext m.queue f.well e in
    (
      next.0,
      next.2,
      rw (e, next.1, go_on)
          (started_task next.0 (record m { cur_task = some next.0 })
            (ground (arith, f.stopped, e))),
    )

-- The queue that a handler leaves, before it goes on.
abbrev pub left_queue : WaitState → ℕ → ℕ → TimerQueue → TimerQueue
left_queue waiting task t q = q
left_queue expired task t q = loop_point_timer t q
left_queue aborted task t q = q
left_queue failed task t q = (erase_timer task q).1
