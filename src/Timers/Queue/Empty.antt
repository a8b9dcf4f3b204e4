-- ===== src/Timers/Queue/Empty.antt =====
-- No operation but `insert` brings a timer into the queue.
use btool.Common.{ℕ, ◌≤◌, ◌≡◌, refl, true, List, [], ◌∷◌, arith, Option-cases, Bool-cases, inl, inr}
use btool.Common.Assoc.{contains, count, lookup, count-remove}
use btool.Timers.Queue.{
  TimerQueue, bucket, empty, is_nil, clear, erase_timer, clear_point_timer, loop_timer, loop_each,
  loop_point_timer,
}
use btool.Timers.Sorted.{sorted}
use btool.Timers.Queue.Parts.{filled}
use btool.Timers.Queue.WellFormed.{IsWell}
use btool.Timers.Queue.Steps.{count-loop_timer}
use btool.Timers.Queue.Front.{count-clear_each}

-- `q` has no timer that `r` has not.
abbrev pub Fewer : TimerQueue → TimerQueue → Type 0
Fewer q r = (j : ℕ) → count j q.all_timers ≤ count j r.all_timers

loop_each-Fewer : (ids : List ℕ) (q : TimerQueue) → Fewer (loop_each ids q) q
unfolding loop_each
loop_each-Fewer [] q j = omega arith
loop_each-Fewer (id ∷ ids) q j =
    ground (arith, loop_each-Fewer ids (loop_timer id q) j, count-loop_timer id j q)

pub loop_point_timer-Fewer : (t : ℕ) (q : TimerQueue) → Fewer (loop_point_timer t q) q
unfolding loop_point_timer
loop_point_timer-Fewer t q j = elim (Option-cases (lookup t q.parts)) [
  | inl e ↦ rw (e, loop_point_timer) (omega arith)
  | inr (ids, e) ↦ rw (e, loop_point_timer) (loop_each-Fewer ids q j)
]

pub clear_point_timer-Fewer : (t : ℕ) (q : TimerQueue) → Fewer (clear_point_timer t q).1 q
unfolding clear_point_timer
clear_point_timer-Fewer t q j = elim (Option-cases (lookup t q.parts)) [
  | inl e ↦ rw (e, clear_point_timer) (omega arith)
  | inr (ids, e) ↦ rw (e, clear_point_timer) (ground (arith, count-clear_each j ids q))
]

pub erase_timer-Fewer : (id : ℕ) (q : TimerQueue) → Fewer (erase_timer id q).1 q
unfolding erase_timer
erase_timer-Fewer id q j = elim (Bool-cases (contains id q.all_timers)) [
  | inl e ↦ rw (e, erase_timer) (ground (arith, count-remove id j q.all_timers))
  | inr e ↦ rw (e, erase_timer) (omega arith)
]

nil_count : (j : ℕ) (ids : List ℕ) → is_nil ids ≡ true → count j ids ≡ 0
unfolding count
nil_count j [] h = refl
nil_count j (id ∷ ids) h = absurd (ground arith)

nil_of_count : (ids : List ℕ) → ((j : ℕ) → count j ids ≡ 0) → is_nil ids ≡ true
unfolding count
nil_of_count [] h = refl
nil_of_count (id ∷ ids) h = absurd (ground (arith, h id))

pub Fewer-empty : (q r : TimerQueue) → Fewer q r → empty r ≡ true → empty q ≡ true
Fewer-empty q r few h =
    nil_of_count q.all_timers (λ j. omega (arith, few j, nil_count j r.all_timers h))

pub clear-IsWell : (q : TimerQueue) → IsWell (clear q)
unfolding count bucket lookup sorted filled
clear-IsWell q = record {
  tidy = record { in_order = refl; no_empty = refl };
  once = λ id. omega arith;
  placed = λ t id. ground arith;
}
