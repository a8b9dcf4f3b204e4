-- ===== src/Timers/Tests.antt =====
-- Runs of the timers, and the theorems at them.
use btool.Common.{◌<◌, ◌≤◌, ◌≡◌, ◌↔◌, refl, true, false, List, [], ◌∷◌, some, length, arith}
use btool.Common.Int.{pos}
use btool.Common.Assoc.{contains, count, lookup, remove}
use btool.AtomicSwitch
use btool.Timers.{TimerTask, need_next, loop_once_count, loop_once_time}
use btool.Timers.Sorted.{put_key, put}
use btool.Timers.Queue
use btool.Timers.Queue.{
  TimerQueue, bucket, add_to_part, remove_from_part_queue, loop_timer, loop_each, loop_point_timer,
  empty, front, first_of,
}
use btool.Timers.Queue.WellFormed.{IsWell, put_in, new_task}
use btool.Timers.Queue.Empty.{clear-IsWell}
use btool.Timers.Queue.Fires.{fires}
use btool.Timers.Queue.Course.{loops, run, runs_exactly}
use btool.Timers.Manager
use btool.LastTaskQueue.{extract}
use btool.Timers.Manager.Users
use btool.Timers.Manager.{
  TimerManager, Wait, waiting, expired, aborted, new_wait, handler, insert, insert_locked, clear,
  start, stop, revise_time_point, revise_interval, round_up,
}
use btool.Timers.Manager.Stalls.{never_stalls}
use btool.Timers.Manager.Spin.{IsSpinning, rounds, waits_spin}

-- Two loops every 50 milliseconds, first at 1000 nanoseconds.
abbrev task : TimerTask
task = new_task 50 (pos 2) 1000

abbrev no_timers : TimerQueue
no_timers = Queue.init (λ id. task)

abbrev one_timer : TimerQueue
one_timer = put_in 7 task no_timers

insert_one : Queue.insert 50 (pos 2) 7 1000 no_timers ≡ some one_timer
unfolding Queue.insert contains
insert_one = refl

-- The second turn is 50 milliseconds after the first, and then the timer is gone.
two_turns : (run (loops 1000 ∷ loops 50001000 ∷ []) one_timer).pool ≡ (7, 1000) ∷ (7, 50001000) ∷ []
unfolding loop_point_timer loop_each loop_timer lookup add_to_part remove_from_part_queue bucket put
    put_key need_next loop_once_count loop_once_time contains remove
two_turns = refl

runs_exactly_example :
    (fires 7 (run (loops 1000 ∷ loops 50001000 ∷ []) one_timer).pool ≤ 2)
    × ((count 7 (run (loops 1000 ∷ loops 50001000 ∷ []) one_timer).all_timers ≡ 0)
        ↔ (fires 7 (run (loops 1000 ∷ loops 50001000 ∷ []) one_timer).pool ≡ 2))
unfolding loop_point_timer loop_each loop_timer lookup add_to_part remove_from_part_queue bucket put
    put_key need_next loop_once_count loop_once_time contains remove fires
runs_exactly_example =
    runs_exactly 1 50 7 1000 (loops 1000 ∷ loops 50001000 ∷ []) no_timers one_timer
      (clear-IsWell no_timers) insert_one refl refl refl

-- Two timers, the second looked at the switch before the first was in the queue.
abbrev course : List Users.Action
course =
    Users.does Manager.starts
    ∷ Users.looks 50 (pos 2) 1000
    ∷ Users.looks 50 (pos 2) 900
    ∷ Users.locks 1
    ∷ Users.locks 0
    ∷ []

abbrev managed : TimerManager
managed = record {
  space_millsecond = 0;
  switch = record { binit = true; bstart = true; bstop = false };
  cur_task = some 7;
  next_id = 7;
  queue = one_timer;
  waits = new_wait 7 1000 ∷ [];
}

never_stalls_example :
    (0 < length (Users.run course (Users.new_users 0 (λ id. task))).manager.waits)
    × IsWell (Users.run course (Users.new_users 0 (λ id. task))).manager.queue
unfolding Users.act Users.look Users.lock extract Manager.step start insert_locked Manager.settle
    Manager.start_task AtomicSwitch.init AtomicSwitch.start AtomicSwitch.finish AtomicSwitch.move
    AtomicSwitch.swap_init AtomicSwitch.swap_start AtomicSwitch.has_started AtomicSwitch.has_init
    AtomicSwitch.create Queue.insert contains put_key revise_time_point revise_interval first_of
never_stalls_example = never_stalls 0 (λ id. task) course refl refl

-- A `stop` between the look and the mutex: the timer goes into the queue of a manager that is not started, and nothing
-- waits for it.
abbrev stopped_within : List Users.Action
stopped_within =
    Users.does Manager.starts
    ∷ Users.looks 50 (pos 2) 1000
    ∷ Users.does Manager.stops
    ∷ Users.locks 0
    ∷ []

stopped_within_stalls :
    (empty (Users.run stopped_within (Users.new_users 0 (λ id. task))).manager.queue ≡ false)
    × ((Users.run stopped_within (Users.new_users 0 (λ id. task))).manager.waits ≡ [])
unfolding Users.act Users.look Users.lock extract Manager.step start stop clear insert_locked
    Manager.settle Manager.start_task AtomicSwitch.init AtomicSwitch.start AtomicSwitch.finish
    AtomicSwitch.move AtomicSwitch.swap_init AtomicSwitch.swap_start AtomicSwitch.has_started
    AtomicSwitch.has_init AtomicSwitch.create Queue.insert contains put_key revise_time_point
    revise_interval first_of AtomicSwitch.stop AtomicSwitch.swap_stop AtomicSwitch.reset
stopped_within_stalls = (refl, refl)

abbrev due : TimerManager
due = record managed { waits = record (new_wait 7 1000) { state = expired } ∷ [] }

waits_spin_example :
    IsSpinning (rounds 3 (insert 50 (pos 1) 2000 (clear managed)).1)
    × ((rounds 3 (insert 50 (pos 1) 2000 (clear managed)).1).queue
        ≡ (insert 50 (pos 1) 2000 (clear managed)).1.queue)
unfolding AtomicSwitch.has_started AtomicSwitch.has_init
waits_spin_example =
    waits_spin 50 (pos 1) 2000 3 7 1000 managed refl refl (λ e. absurd (ground (arith, e)))
