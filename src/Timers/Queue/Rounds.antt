-- ===== src/Timers/Queue/Rounds.antt =====
-- What each operation of a queue leaves of the count of a timer.
use btool.Common.{
  ℕ, suc, ◌≡◌, ◌≢◌, refl, Bool, true, false, not, List, [], ◌∷◌, Option, ◌==◌, if◌then◌else◌, arith,
  Option-cases, Bool-cases, inl, inr,
}
use btool.Common.Int.{pos, negsuc}
use btool.Common.Assoc.{contains, count, remove, lookup, count-remove}
use btool.Timers.{TimerTask}
use btool.Timers.Sorted.{count-put_key}
use btool.Timers.Queue.{
  TimerQueue, cancel_task, erase_timer, clear_each, clear_point_timer, loop_timer, loop_each,
  loop_point_timer,
}
use btool.Timers.Queue.WellFormed.{IsWell, put_in, new_task}
use btool.Timers.Queue.Steps.{Within, count-Within, rest-Within, bucket-Within, loop_timer-IsWell}
use btool.Timers.Queue.Fires.{fires, Exact, IsExact, eq-Exact, loop_timer-IsExact}

loop_each-IsExact :
    (m j : ℕ) (ids : List ℕ) (q : TimerQueue)
    → IsWell q
    → Within ids q
    → IsExact m j q
    → IsExact m j (loop_each ids q)
unfolding loop_each
loop_each-IsExact m j [] q w h x = x
loop_each-IsExact m j (id ∷ ids) q w h x =
    let one = count-Within id ids q w h in
    loop_each-IsExact m j ids (loop_timer id q) (loop_timer-IsWell id q w one)
      (rest-Within id ids q w h) (loop_timer-IsExact m id j q one x)

pub loop_point_timer-IsExact :
    (m j t : ℕ) (q : TimerQueue) → IsWell q → IsExact m j q → IsExact m j (loop_point_timer t q)
unfolding loop_point_timer
loop_point_timer-IsExact m j t q w x = elim (Option-cases (lookup t q.parts)) [
  | inl e ↦ rw (e, loop_point_timer) x
  | inr (ids, e) ↦
      rw (e, loop_point_timer) (loop_each-IsExact m j ids q w (bucket-Within t ids q w e) x)
]

-- Of a cancelled timer nothing is claimed.
cancelled-Exact :
    {m : ℕ} {task : TimerTask} {inside ran : ℕ}
    → task.loop_count ≡ negsuc 0
    → Exact m task inside ran
cancelled-Exact h = record {
  ran_index = λ e. absurd (ground (arith, h));
  index_to = λ e. absurd (ground (arith, h));
  inside_is = λ e. absurd (ground (arith, h));
}

-- The queue without a timer that is cancelled.
without : ℕ → TimerQueue → TimerQueue
without id q = record (cancel_task id q) { all_timers = remove id q.all_timers }

without-IsExact : (m id j : ℕ) (q : TimerQueue) → IsExact m j q → IsExact m j (without id q)
unfolding without
without-IsExact m id j q x = elim (Bool-cases (j == id)) [
  | inl same ↦ cancelled-Exact (rw same refl)
  | inr apart ↦
      eq-Exact (rw apart refl) (ground (arith, count-remove id j q.all_timers, apart)) refl x
]

clear_each-IsExact :
    (m j : ℕ) (ids : List ℕ) (q : TimerQueue) → IsExact m j q → IsExact m j (clear_each ids q)
unfolding clear_each without
clear_each-IsExact m j [] q x = x
clear_each-IsExact m j (id ∷ ids) q x =
    clear_each-IsExact m j ids (without id q) (without-IsExact m id j q x)

pub clear_point_timer-IsExact :
    (m j t : ℕ) (q : TimerQueue) → IsExact m j q → IsExact m j (clear_point_timer t q).1
unfolding clear_point_timer
clear_point_timer-IsExact m j t q x = elim (Option-cases (lookup t q.parts)) [
  | inl e ↦ rw (e, clear_point_timer) x
  | inr (ids, e) ↦ rw (e, clear_point_timer) (clear_each-IsExact m j ids q x)
]

erased_test :
    (m j : ℕ) (b : Bool) (x y : Option ℕ × TimerQueue)
    → IsExact m j x.1
    → IsExact m j y.1
    → IsExact m j (if not b then x else y).1
erased_test m j true x y ex ey = ey
erased_test m j false x y ex ey = ex

pub erase_timer-IsExact :
    (m id j : ℕ) (q : TimerQueue) → IsExact m j q → IsExact m j (erase_timer id q).1
unfolding erase_timer without
erase_timer-IsExact m id j q x =
    erased_test m j (contains id q.all_timers) _ _ x (without-IsExact m id j q x)

pub put_in-IsExact :
    (m id j : ℕ) (task : TimerTask) (q : TimerQueue)
    → id ≢ j
    → count id q.all_timers ≡ 0
    → IsExact m j q
    → IsExact m j (put_in id task q)
put_in-IsExact m id j task q apart h x =
    eq-Exact (ground arith) (ground (arith, count-put_key id j q.all_timers h)) refl x

pub put_in_new :
    (m id interval_ms time_point : ℕ) (q : TimerQueue)
    → count id q.all_timers ≡ 0
    → fires id q.pool ≡ 0
    → IsExact m id (put_in id (new_task interval_ms (pos (suc m)) time_point) q)
put_in_new m id interval_ms time_point q h fresh =
    eq-Exact {other = new_task interval_ms (pos (suc m)) time_point} {inside' = 1} {ran' = 0}
      (ground arith) (ground (arith, count-put_key id id q.all_timers h)) fresh
      (record { ran_index = λ e. refl; index_to = λ e. omega arith; inside_is = λ e. ground arith })
