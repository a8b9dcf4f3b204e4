-- ===== src/Timers/Queue/Front.antt =====
-- Taking out a whole time point, and the first timer.
use btool.Common.{
  ℕ, ◌<◌, ◌≤◌, ◌≡◌, refl, sym, ap, ◌∙◌, false, List, [], ◌∷◌, some, if◌then◌else◌, arith,
  Option-cases, inl, inr,
}
use btool.Common.Assoc.{
  contains, count, remove, lookup, erase, contains-count, count-contains, count-remove,
}
use btool.Timers.Sorted.{sorted, first_least}
use btool.Timers.Queue.{
  TimerQueue, is_nil, clear_each, clear_point_timer, front, first_of, empty, cancel_task,
}
use btool.Timers.Queue.Parts.{IsTidy-erase, bucket-none, bucket-some, bucket-erase, filled}
use btool.Timers.Queue.WellFormed.{IsWell}

time-cancel_task :
    (id j : ℕ) (q : TimerQueue) → ((cancel_task id q).tasks j).time_point ≡ (q.tasks j).time_point
time-cancel_task id j q = ground (arith, ap (λ k. (q.tasks k).time_point) {x = j} {y = id})

time-clear_each :
    (j : ℕ) (ids : List ℕ) (q : TimerQueue)
    → ((clear_each ids q).tasks j).time_point ≡ (q.tasks j).time_point
unfolding clear_each
time-clear_each j [] q = refl
time-clear_each j (id ∷ ids) q =
    time-clear_each j ids (record (cancel_task id q) { all_timers = remove id q.all_timers })
    ∙ time-cancel_task id j q

pub count-clear_each :
    (j : ℕ) (ids : List ℕ) (q : TimerQueue)
    → count j (clear_each ids q).all_timers ≡ (if contains j ids then 0 else count j q.all_timers)
unfolding clear_each contains
count-clear_each j [] q = refl
count-clear_each j (id ∷ ids) q = ground (
  arith,
  count-clear_each j ids (record (cancel_task id q) { all_timers = remove id q.all_timers }),
  count-remove id j q.all_timers,
)

count_nil : (j : ℕ) → count j [] ≡ 0
unfolding count
count_nil j = refl

cleared-IsWell :
    (t : ℕ) (ids : List ℕ) (q : TimerQueue)
    → IsWell q
    → lookup t q.parts ≡ some ids
    → IsWell (record (clear_each ids q) { parts = erase t q.parts })
cleared-IsWell t ids q w e = record {
  tidy = IsTidy-erase t q.parts w.tidy;
  once = λ j. ground (arith, count-clear_each j ids q, w.once j);
  placed = λ s j. ground (
    arith,
    bucket-erase s t q.parts,
    time-clear_each j ids q,
    count-clear_each j ids q,
    w.placed s j,
    w.placed t j,
    ap (count j) (bucket-some t ids q.parts e),
    ap (count j) (bucket-erase s t q.parts),
    count_nil j,
    contains-count j ids,
    count-contains j ids,
  );
}

-- `clear_point_timer` keeps the queue well-formed.
pub clear_point_timer-IsWell :
    (t : ℕ) (q : TimerQueue) → IsWell q → IsWell (clear_point_timer t q).1
unfolding clear_point_timer
clear_point_timer-IsWell t q w = elim (Option-cases (lookup t q.parts)) [
  | inl e ↦ rw (e, clear_point_timer) w
  | inr (ids, e) ↦ rw (e, clear_point_timer) (cleared-IsWell t ids q w e)
]

-- `id` is in the queue, and no timer of the queue is due before it.
pub record IsNext (id : ℕ) (q : TimerQueue) : Type 0 where
  pub inside : count id q.all_timers ≡ 1
  pub least : (j : ℕ) → count j q.all_timers ≡ 1 → (q.tasks id).time_point ≤ (q.tasks j).time_point

-- A timer of the queue stands at its time point.
stands :
    (j : ℕ) (q : TimerQueue)
    → IsWell q
    → count j q.all_timers ≡ 1
    → (ids : List ℕ) × (lookup (q.tasks j).time_point q.parts ≡ some ids)
stands j q w h = elim (Option-cases (lookup (q.tasks j).time_point q.parts)) [
  | inl e ↦ absurd (
      ground (
        arith,
        w.placed (q.tasks j).time_point j,
        ap (count j) (bucket-none (q.tasks j).time_point q.parts e),
        count_nil j,
      ))
  | inr found ↦ found
]

some_one :
    (ids : List ℕ)
    → ((id : ℕ) → count id ids ≤ 1)
    → is_nil ids ≡ false
    → (j : ℕ) × (count j ids ≡ 1)
unfolding count
some_one [] once h = absurd (ground arith)
some_one (id ∷ ids) once h = (id, ground (arith, once id))

lookup_first :
    (t : ℕ) (ids : List ℕ) (parts : List (ℕ × List ℕ)) → lookup t ((t, ids) ∷ parts) ≡ some ids
unfolding lookup
lookup_first t ids parts = ground arith

count_first : (id : ℕ) (ids : List ℕ) → 0 < count id (id ∷ ids)
unfolding count
count_first id ids = ground arith

module _ (q : TimerQueue) (w : IsWell q) (t id : ℕ) (ids : List ℕ) (parts : List (ℕ × List ℕ))
    (e : q.parts ≡ (t, id ∷ ids) ∷ parts) where
  first_stands : (count id q.all_timers ≡ 1) × ((q.tasks id).time_point ≡ t)
  first_stands =
      let here =
        bucket-some t (id ∷ ids) q.parts (ap (lookup t) e ∙ lookup_first t (id ∷ ids) parts) in
      ground (arith, w.placed t id, ap (count id) here, count_first id ids, w.once id)

  first_before : (j : ℕ) → count j q.all_timers ≡ 1 → t ≤ (q.tasks j).time_point
  first_before j h =
      let found = stands j q w h in
      first_least t (q.tasks j).time_point (id ∷ ids) found.0 parts
        (sym (ap sorted e) ∙ w.tidy.in_order) (sym (ap (lookup (q.tasks j).time_point) e) ∙ found.1)

  first-IsNext : IsNext id q
  first-IsNext = record {
    inside = first_stands.0;
    least = λ j h. ground (arith, first_stands.1, first_before j h);
  }

first_case :
    (q : TimerQueue)
    → IsWell q
    → (parts : List (ℕ × List ℕ)) → q.parts ≡ parts
    → (j : ℕ) × (count j q.all_timers ≡ 1)
    → (id : ℕ) × (first_of parts ≡ some id) × IsNext id q
unfolding first_of filled lookup
first_case q w [] e (j, h) =
    let found = stands j q w h in
    absurd (ground (arith, ap (lookup (q.tasks j).time_point) e, found.1))
first_case q w ((t, []) ∷ parts) e one = absurd (ground (arith, ap filled e, w.tidy.no_empty))
first_case q w ((t, id ∷ ids) ∷ parts) e one = (id, refl, first-IsNext q w t id ids parts e)

-- A queue that is not empty has a first timer, and this is the next one due.
pub front-IsNext :
    (q : TimerQueue) → IsWell q → empty q ≡ false → (id : ℕ) × (front q ≡ some id) × IsNext id q
front-IsNext q w h = first_case q w q.parts refl (some_one q.all_timers w.once h)
