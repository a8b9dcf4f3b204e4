-- ===== src/Timers.antt =====
-- The timers of timer_manager.hpp: one timer of `TimerTaskVirtual` (task_item.hpp) here, `TimerQueue` and
-- `TimerManager` in the modules below. A time point is its nanoseconds since the epoch, an interval its
-- milliseconds. The function of a timer is not looked into: to invoke it is to note its id and time point.
pub mod Sorted
pub mod Queue
pub mod Manager
mod Tests
use btool.Common.{ℕ, suc, ◌+◌, ◌*◌, Bool, not, ◌||◌, if◌then◌else◌}
use btool.Common.Int.{ℤ, pos, negsuc, ltb_ℤ, eqb_ℤ}

abbrev pub nanoseconds : ℕ
nanoseconds = 1000000

pub record TimerTask : Type 0 where
  pub loop_count : ℤ
  pub loop_index : ℕ
  pub interval : ℕ
  pub time_point : ℕ

abbrev pub cancel : TimerTask → TimerTask
cancel task = record task { loop_count = negsuc 0 }

unfoldable pub need_next : TimerTask → Bool
need_next task = eqb_ℤ task.loop_count (pos 0) || ltb_ℤ (pos task.loop_index) task.loop_count

unfoldable pub loop_once_count : TimerTask → TimerTask
unfolding need_next
loop_once_count task =
    if not (need_next task)
    then task
    else if not (eqb_ℤ task.loop_count (pos 0))
    then record task { loop_index = suc task.loop_index }
    else task

unfoldable pub loop_once_time : TimerTask → TimerTask
loop_once_time task = record task { time_point = task.time_point + task.interval * nanoseconds }
