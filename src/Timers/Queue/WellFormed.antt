-- ===== src/Timers/Queue/WellFormed.antt =====
-- The two maps of `TimerQueue` hold the same timers, each at its own time point and once, and every operation
-- keeps it so.
use btool.Common.{
  ℕ, ◌≤◌, ◌≡◌, ◌≢◌, refl, subst, Bool, true, false, not, ◌||◌, Option, none, some, ◌==◌,
  if◌then◌else◌, arith,
}
use btool.Common.Int.{ℤ}
use btool.Common.Assoc.{contains, count, remove, contains-count, count-remove}
use btool.Timers.{TimerTask, cancel}
use btool.Timers.Sorted.{put_key, count-put_key}
use btool.Timers.Queue.{
  TimerQueue, update, bucket, add_to_part, remove_from_part_queue, insert, erase_timer,
}
use btool.Timers.Queue.Parts.{
  IsTidy, IsTidy-add_to_part, IsTidy-remove_from_part_queue, bucket-add_to_part,
  bucket-remove_from_part_queue,
}

pub record IsWell (q : TimerQueue) : Type 0 where
  pub tidy : IsTidy q.parts
  pub once : (id : ℕ) → count id q.all_timers ≤ 1
  pub placed :
      (t id : ℕ)
      → count id (bucket t q.parts)
        ≡ (if (q.tasks id).time_point == t then count id q.all_timers else 0)

-- A timer that is not there comes in.
abbrev pub put_in : ℕ → TimerTask → TimerQueue → TimerQueue
put_in id task q = record q {
  tasks = update q.tasks id task;
  all_timers = put_key id q.all_timers;
  parts = add_to_part id task.time_point q.parts;
}

-- A timer goes, and its object becomes `task`.
abbrev pub take_out : ℕ → TimerTask → TimerQueue → TimerQueue
take_out id task q = record q {
  tasks = update q.tasks id task;
  all_timers = remove id q.all_timers;
  parts = remove_from_part_queue id (q.tasks id).time_point q.parts;
}

-- A timer moves to another time point.
abbrev pub move_to : ℕ → TimerTask → TimerQueue → TimerQueue
move_to id task q = record q {
  tasks = update q.tasks id task;
  parts =
      add_to_part id task.time_point (remove_from_part_queue id (q.tasks id).time_point q.parts);
}

module _ (id : ℕ) (task : TimerTask) (q : TimerQueue) (w : IsWell q) where
  pub put_in-IsWell : count id q.all_timers ≡ 0 → IsWell (put_in id task q)
  put_in-IsWell h = record {
    tidy = IsTidy-add_to_part id task.time_point q.parts w.tidy;
    once = λ j. ground (arith, count-put_key id j q.all_timers h, w.once j);
    placed = λ t j. ground (
      arith,
      bucket-add_to_part t id task.time_point q.parts,
      count-put_key id j q.all_timers h,
      count-put_key id j (bucket task.time_point q.parts),
      w.placed t j,
      w.placed task.time_point id,
      w.placed task.time_point j,
    );
  }

  pub take_out-IsWell : IsWell (take_out id task q)
  take_out-IsWell = record {
    tidy = IsTidy-remove_from_part_queue id (q.tasks id).time_point q.parts w.tidy;
    once = λ j. ground (arith, count-remove id j q.all_timers, w.once j);
    placed = λ t j. ground (
      arith,
      bucket-remove_from_part_queue t id (q.tasks id).time_point q.parts,
      count-remove id j q.all_timers,
      count-remove id j (bucket (q.tasks id).time_point q.parts),
      w.placed t j,
      w.placed (q.tasks id).time_point j,
    );
  }

  -- Past the removal no time point has the timer.
  taken :
      (t j : ℕ)
      → count j (bucket t (remove_from_part_queue id (q.tasks id).time_point q.parts))
        ≡ (if id == j then 0 else count j (bucket t q.parts))
  taken t j = ground (
    arith,
    bucket-remove_from_part_queue t id (q.tasks id).time_point q.parts,
    count-remove id j (bucket (q.tasks id).time_point q.parts),
    w.placed t j,
  )

  pub move_to-IsWell : count id q.all_timers ≡ 1 → IsWell (move_to id task q)
  move_to-IsWell h =
      let left = remove_from_part_queue id (q.tasks id).time_point q.parts in
      record {
        tidy =
            IsTidy-add_to_part id task.time_point _
              (IsTidy-remove_from_part_queue id (q.tasks id).time_point q.parts w.tidy);
        once = w.once;
        placed = λ t j. ground (
          arith,
          bucket-add_to_part t id task.time_point left,
          count-put_key id j (bucket task.time_point left),
          taken t j,
          taken task.time_point id,
          taken task.time_point j,
          w.placed t j,
          w.placed task.time_point j,
        );
      }

if_some :
    {A : Type 0} (b : Bool) {x r : A}
    → (if b then none else some x) ≡ some r
    → (b ≡ false) × (x ≡ r)
if_some true e = absurd (ground arith)
if_some false e = (refl, ground arith)

abbrev pub new_task : ℕ → ℤ → ℕ → TimerTask
new_task interval_ms loop_count time_point = record {
  loop_count = loop_count;
  loop_index = 0;
  interval = interval_ms;
  time_point = time_point;
}

-- Where an insert succeeds the id is a new one, not 0, and the timer is put in.
pub insert-eq-some :
    (interval_ms : ℕ) (loop_count : ℤ) (id time_point : ℕ) (q r : TimerQueue)
    → insert interval_ms loop_count id time_point q ≡ some r
    → (id ≢ 0)
      × (count id q.all_timers ≡ 0)
      × (put_in id (new_task interval_ms loop_count time_point) q ≡ r)
unfolding insert
insert-eq-some interval_ms loop_count id time_point q r e =
    let made = if_some ((id == 0) || contains id q.all_timers) e in
    (
      λ zero_id. absurd (ground (arith, made.0)),
      contains-count id q.all_timers (ground (arith, made.0)),
      made.1,
    )

-- Inserting a timer, which is refused for the id 0 and an id in use, keeps the queue well-formed.
pub insert-IsWell :
    (interval_ms : ℕ) (loop_count : ℤ) (id time_point : ℕ) (q r : TimerQueue)
    → IsWell q
    → insert interval_ms loop_count id time_point q ≡ some r
    → IsWell r
insert-IsWell interval_ms loop_count id time_point q r w e =
    let made = insert-eq-some interval_ms loop_count id time_point q r e in
    subst IsWell made.2 (put_in-IsWell id (new_task interval_ms loop_count time_point) q w made.1)

erased : ℕ → Bool → TimerQueue → Option ℕ × TimerQueue
erased id b q = if not b then (none, q) else (some id, take_out id (cancel (q.tasks id)) q)

erased-IsWell : (id : ℕ) (b : Bool) (q : TimerQueue) → IsWell q → IsWell (erased id b q).1
unfolding erased
erased-IsWell id true q w = take_out-IsWell id (cancel (q.tasks id)) q w
erased-IsWell id false q w = w

pub erase_timer-IsWell : (id : ℕ) (q : TimerQueue) → IsWell q → IsWell (erase_timer id q).1
unfolding erase_timer erased
erase_timer-IsWell id q w = erased-IsWell id (contains id q.all_timers) q w
