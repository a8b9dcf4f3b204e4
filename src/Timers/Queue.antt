-- ===== src/Timers/Queue.antt =====
-- `TimerQueue` of timer_manager.hpp. The timers are shared objects, named by their ids: `tasks` is where the
-- objects stand, and the two maps hold pointers, that is ids. The map by time points holds for each time point
-- the ids of its own map, in order. `pool` is what was handed to the pool that runs the functions, each with
-- the time point it is given.
pub mod Parts
pub mod WellFormed
pub mod Steps
pub mod Front
pub mod Empty
pub mod Fires
pub mod Rounds
pub mod Course
use btool.Common.{
  ℕ, zero, suc, ◌+◌, ◌*◌, Bool, true, false, not, ◌||◌, List, [], ◌∷◌, ◌++◌, Option, none, some,
  ◌==◌, if◌then◌else◌, length,
}
use btool.Common.Int.{ℤ}
use btool.Common.Assoc.{contains, remove, lookup, erase}
use btool.Timers.{TimerTask, cancel, need_next, loop_once_count, loop_once_time}
use btool.Timers.Sorted.{put_key, put}

pub record TimerQueue : Type 0 where
  pub tasks : ℕ → TimerTask
  pub all_timers : List ℕ
  pub parts : List (ℕ × List ℕ)
  pub pool : List (ℕ × ℕ)

-- The constructor; what stands where no timer is does not matter.
abbrev pub init : (ℕ → TimerTask) → TimerQueue
init tasks = record { tasks = tasks; all_timers = []; parts = []; pool = [] }

abbrev pub update : (ℕ → TimerTask) → ℕ → TimerTask → ℕ → TimerTask
update tasks id task other = if other == id then task else tasks other

-- The ids at a time point.
unfoldable pub bucket : ℕ → List (ℕ × List ℕ) → List ℕ
bucket time_point parts = elim (lookup time_point parts) [ none ↦ [] | some ids ↦ ids ]

-- `m_timer_part_queue[time_point][id] = …`
unfoldable pub add_to_part : ℕ → ℕ → List (ℕ × List ℕ) → List (ℕ × List ℕ)
unfolding bucket put put_key
add_to_part id time_point parts = put time_point (put_key id (bucket time_point parts)) parts

abbrev pub is_nil : List ℕ → Bool
is_nil [] = true
is_nil (id ∷ ids) = false

unfoldable pub remove_from_part_queue : ℕ → ℕ → List (ℕ × List ℕ) → List (ℕ × List ℕ)
unfolding lookup contains remove erase put
remove_from_part_queue id time_point parts = elim (lookup time_point parts) [
  | none ↦ parts
  | some ids ↦
      if not (contains id ids)
      then parts
      else if is_nil (remove id ids)
      then erase time_point parts
      else put time_point (remove id ids) parts
]

-- `none` for a null pointer, with nothing changed.
unfoldable pub insert : ℕ → ℤ → ℕ → ℕ → TimerQueue → Option TimerQueue
unfolding contains put_key add_to_part
insert interval_ms loop_count id time_point q =
    if (id == 0) || contains id q.all_timers
    then none
    else some (record q {
      tasks = update q.tasks id (record {
        loop_count = loop_count;
        loop_index = 0;
        interval = interval_ms;
        time_point = time_point;
      });
      all_timers = put_key id q.all_timers;
      parts = add_to_part id time_point q.parts;
    })

abbrev pub size : TimerQueue → ℕ
size q = length q.all_timers

abbrev pub time_point_size : TimerQueue → ℕ
time_point_size q = length q.parts

abbrev pub cancel_task : ℕ → TimerQueue → TimerQueue
cancel_task id q = record q { tasks = update q.tasks id (cancel (q.tasks id)) }

-- `erase`, which gives the timer it took out.
unfoldable pub erase_timer : ℕ → TimerQueue → Option ℕ × TimerQueue
unfolding contains remove remove_from_part_queue
erase_timer id q = if not (contains id q.all_timers) then (none, q) else (
  some id,
  record (cancel_task id q) {
    all_timers = remove id q.all_timers;
    parts = remove_from_part_queue id (q.tasks id).time_point q.parts;
  },
)

abbrev pub clear : TimerQueue → TimerQueue
clear q = record q { all_timers = []; parts = []; pool = [] }

abbrev pub empty : TimerQueue → Bool
empty q = is_nil q.all_timers

-- `front`, the first timer of the first time point; `none` where there is none, an undefined call.
unfoldable pub first_of : List (ℕ × List ℕ) → Option ℕ
first_of [] = none
first_of ((time_point, []) ∷ parts) = none
first_of ((time_point, id ∷ ids) ∷ parts) = some id

abbrev pub front : TimerQueue → Option ℕ
front q = first_of q.parts

-- The loop of `clear_point_timer`.
unfoldable pub clear_each : List ℕ → TimerQueue → TimerQueue
unfolding remove
clear_each [] q = q
clear_each (id ∷ ids) q =
    clear_each ids (record (cancel_task id q) { all_timers = remove id q.all_timers })

unfoldable pub clear_point_timer : ℕ → TimerQueue → List ℕ × TimerQueue
unfolding lookup clear_each erase
clear_point_timer time_point q = elim (lookup time_point q.parts) [
  | none ↦ ([], q)
  | some ids ↦ (ids, record (clear_each ids q) { parts = erase time_point q.parts })
]

-- One timer of `loop_point_timer`: its function goes to the pool, and it is taken out or moved on.
unfoldable pub loop_timer : ℕ → TimerQueue → TimerQueue
unfolding need_next loop_once_count loop_once_time remove remove_from_part_queue add_to_part
loop_timer id q =
    let time_point = (q.tasks id).time_point in
    let task = loop_once_count (q.tasks id) in
    let moved = loop_once_time task in
    let taken = remove_from_part_queue id time_point q.parts in
    let pool = q.pool ++ (id, time_point) ∷ [] in
    if not (need_next task)
    then record q {
      tasks = update q.tasks id task;
      all_timers = remove id q.all_timers;
      parts = taken;
      pool = pool;
    }
    else record q {
      tasks = update q.tasks id moved;
      parts = add_to_part id moved.time_point taken;
      pool = pool;
    }

-- The loop runs over a copy of the map.
unfoldable pub loop_each : List ℕ → TimerQueue → TimerQueue
unfolding loop_timer
loop_each [] q = q
loop_each (id ∷ ids) q = loop_each ids (loop_timer id q)

unfoldable pub loop_point_timer : ℕ → TimerQueue → TimerQueue
unfolding lookup loop_each
loop_point_timer time_point q = elim (lookup time_point q.parts) [
  | none ↦ q
  | some ids ↦ loop_each ids q
]
