-- ===== src/Timers/Queue/Steps.antt =====
-- The operations on a whole time point keep the queue well-formed, and the first timer is the next one due.
use btool.Common.{
  ℕ, ◌≤◌, ◌≡◌, refl, ap, ◌∙◌, Bool, true, false, not, ◌&&◌, List, [], ◌∷◌, some, ◌==◌,
  if◌then◌else◌, arith, Option-cases, inl, inr,
}
use btool.Common.Assoc.{count, remove, lookup, count-remove}
use btool.Timers.{TimerTask, need_next, loop_once_count, loop_once_time}
use btool.Timers.Queue.{TimerQueue, loop_timer, loop_each, loop_point_timer}
use btool.Timers.Queue.Parts.{bucket-some}
use btool.Timers.Queue.WellFormed.{IsWell, take_out, take_out-IsWell, move_to, move_to-IsWell}

-- The object of a timer after one of its turns, and what the turn does to the queue.
abbrev pub turned : TimerTask → TimerTask
turned task =
    let next = loop_once_count task in if not (need_next next) then next else loop_once_time next

-- A timer that has its turn stays once if it goes on, and no other timer is touched.
loop_test-IsWell :
    (goes_on : Bool) (id : ℕ) (q : TimerQueue) (pool : List (ℕ × ℕ))
    → IsWell q
    → count id q.all_timers ≡ 1
    → IsWell (
        if not goes_on
        then record (take_out id (loop_once_count (q.tasks id)) q) { pool = pool }
        else record (move_to id (loop_once_time (loop_once_count (q.tasks id))) q) { pool = pool })
loop_test-IsWell true id q pool w h =
    let v = move_to-IsWell id (loop_once_time (loop_once_count (q.tasks id))) q w h in
    record { tidy = v.tidy; once = v.once; placed = v.placed }
loop_test-IsWell false id q pool w h =
    let v = take_out-IsWell id (loop_once_count (q.tasks id)) q w in
    record { tidy = v.tidy; once = v.once; placed = v.placed }

pub loop_timer-IsWell :
    (id : ℕ) (q : TimerQueue) → IsWell q → count id q.all_timers ≡ 1 → IsWell (loop_timer id q)
unfolding loop_timer
loop_timer-IsWell id q w h = loop_test-IsWell (need_next (loop_once_count (q.tasks id))) id q _ w h

count_test :
    (goes_on : Bool) (id j : ℕ) (q taken moved : TimerQueue)
    → taken.all_timers ≡ remove id q.all_timers
    → moved.all_timers ≡ q.all_timers
    → count j (if not goes_on then taken else moved).all_timers
      ≡ (if not goes_on && (id == j) then 0 else count j q.all_timers)
count_test true id j q taken moved et em = ap (count j) em
count_test false id j q taken moved et em = ap (count j) et ∙ count-remove id j q.all_timers

pub count-loop_timer :
    (id j : ℕ) (q : TimerQueue)
    → count j (loop_timer id q).all_timers ≡ (
        if not (need_next (loop_once_count (q.tasks id))) && (id == j)
        then 0
        else count j q.all_timers)
unfolding loop_timer
count-loop_timer id j q = count_test (need_next (loop_once_count (q.tasks id))) id j q _ _ refl refl

-- What is still to come of the loop is in the queue, and comes once.
abbrev pub Within : List ℕ → TimerQueue → Type 0
Within ids q = (j : ℕ) → count j ids ≤ count j q.all_timers

pub count-Within :
    (id : ℕ) (ids : List ℕ) (q : TimerQueue)
    → IsWell q
    → Within (id ∷ ids) q
    → count id q.all_timers ≡ 1
unfolding count
count-Within id ids q w h = ground (arith, h id, w.once id)

pub rest-Within :
    (id : ℕ) (ids : List ℕ) (q : TimerQueue)
    → IsWell q
    → Within (id ∷ ids) q
    → Within ids (loop_timer id q)
unfolding count
rest-Within id ids q w h j = ground (arith, h j, w.once j, count-loop_timer id j q)

loop_each-IsWell :
    (ids : List ℕ) (q : TimerQueue) → IsWell q → Within ids q → IsWell (loop_each ids q)
unfolding loop_each
loop_each-IsWell [] q w h = w
loop_each-IsWell (id ∷ ids) q w h =
    loop_each-IsWell ids (loop_timer id q) (loop_timer-IsWell id q w (count-Within id ids q w h))
      (rest-Within id ids q w h)

pub bucket-Within :
    (t : ℕ) (ids : List ℕ) (q : TimerQueue) → IsWell q → lookup t q.parts ≡ some ids → Within ids q
bucket-Within t ids q w e j =
    ground (arith, w.placed t j, ap (count j) (bucket-some t ids q.parts e))

-- `loop_point_timer` at any time point keeps the queue well-formed.
pub loop_point_timer-IsWell : (t : ℕ) (q : TimerQueue) → IsWell q → IsWell (loop_point_timer t q)
unfolding loop_point_timer
loop_point_timer-IsWell t q w = elim (Option-cases (lookup t q.parts)) [
  | inl e ↦ rw (e, loop_point_timer) w
  | inr (ids, e) ↦ rw (e, loop_point_timer) (loop_each-IsWell ids q w (bucket-Within t ids q w e))
]
