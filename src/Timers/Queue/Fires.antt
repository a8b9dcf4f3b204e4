-- ===== src/Timers/Queue/Fires.antt =====
-- How often a timer with a loop count runs: whatever happens to the queue meanwhile, as often as its count
-- says, unless it is taken out before.
use btool.Common.{
  ℕ, suc, ◌<◌, ◌≤◌, ◌≡◌, refl, sym, ap, ◌∙◌, subst, Bool, true, false, not, List, [], ◌∷◌, ◌++◌,
  ◌==◌, ltb, if◌then◌else◌, arith,
}
use native.Mathlib.Decide.{ℕ_discrete}
use btool.Common.Int.{pos}
use btool.Common.Assoc.{count}
use btool.Timers.{TimerTask, need_next, loop_once_count, loop_once_time}
use btool.Timers.Queue.{TimerQueue, update, loop_timer}
use btool.Timers.Queue.Steps.{turned, count-loop_timer}

-- How often a timer's function went to the pool.
unfoldable pub fires : ℕ → List (ℕ × ℕ) → ℕ
fires id [] = 0
fires id ((other, time_point) ∷ pool) =
    let rest = fires id pool in if other == id then suc rest else rest

fires-append :
    (id other t : ℕ) (pool : List (ℕ × ℕ))
    → fires id (pool ++ (other, t) ∷ [])
      ≡ (if other == id then suc (fires id pool) else fires id pool)
unfolding fires
fires-append id other t [] = ground arith
fires-append id other t ((first, s) ∷ pool) = ground (arith, fires-append id other t pool)

-- A timer of `suc m` loops, as long as it is not cancelled: it has run as often as its index says, and it is in
-- the queue just while the index is below the count.
pub record Exact (m : ℕ) (task : TimerTask) (inside ran : ℕ) : Type 0 where
  pub ran_index : task.loop_count ≡ pos (suc m) → ran ≡ task.loop_index
  pub index_to : task.loop_count ≡ pos (suc m) → task.loop_index ≤ suc m
  pub inside_is :
      task.loop_count ≡ pos (suc m) → inside ≡ (if ltb task.loop_index (suc m) then 1 else 0)

abbrev pub IsExact : ℕ → ℕ → TimerQueue → Type 0
IsExact m j q = Exact m (q.tasks j) (count j q.all_timers) (fires j q.pool)

loop_count-turned : (task : TimerTask) → (turned task).loop_count ≡ task.loop_count
unfolding loop_once_count loop_once_time need_next
loop_count-turned task = ground arith

once_lem :
    (m : ℕ) (task : TimerTask)
    → task.loop_index < suc m
    → loop_once_count (record task { loop_count = pos (suc m) })
      ≡ record task { loop_count = pos (suc m); loop_index = suc task.loop_index }
unfolding loop_once_count need_next
once_lem m task h = ground arith

next_lem :
    (m : ℕ) (task : TimerTask)
    → need_next (record task { loop_count = pos (suc m); loop_index = suc task.loop_index })
      ≡ ltb (suc task.loop_index) (suc m)
unfolding need_next
next_lem m task = ground arith

test_index :
    (b : Bool) (task : TimerTask)
    → (if not b then task else loop_once_time task).loop_index ≡ task.loop_index
unfolding loop_once_time
test_index true task = refl
test_index false task = refl

-- The index goes up by one while it is below the count, and the timer goes on if it still is below.
turned_index :
    (m : ℕ) (task : TimerTask)
    → task.loop_count ≡ pos (suc m)
    → task.loop_index < suc m
    → ((turned task).loop_index ≡ suc task.loop_index)
      × (need_next (loop_once_count task) ≡ ltb (suc task.loop_index) (suc m))
turned_index m task e h =
    let once = ap (λ c. loop_once_count (record task { loop_count = c })) e ∙ once_lem m task h in
    (
      test_index (need_next (loop_once_count task)) (loop_once_count task)
          ∙ ap (λ next. next.loop_index) once,
      ap need_next once ∙ next_lem m task,
    )

-- A turn of the timer itself.
Exact-turned :
    (m : ℕ) (task : TimerTask) (ran : ℕ)
    → Exact m task 1 ran
    → Exact m (turned task) (if not (need_next (loop_once_count task)) then 0 else 1) (suc ran)
Exact-turned m task ran x = record {
  ran_index = λ e. ground (arith, step e, x.ran_index (same e));
  index_to = λ e. ground (arith, step e, below e);
  inside_is = λ e. ground (arith, step e);
}
  where
    same : (turned task).loop_count ≡ pos (suc m) → task.loop_count ≡ pos (suc m)
    same e = sym (loop_count-turned task) ∙ e

    below : (turned task).loop_count ≡ pos (suc m) → task.loop_index < suc m
    below e = ground (arith, x.inside_is (same e))

    step :
        (e : (turned task).loop_count ≡ pos (suc m))
        → ((turned task).loop_index ≡ suc task.loop_index)
          × (need_next (loop_once_count task) ≡ ltb (suc task.loop_index) (suc m))
    step e = turned_index m task (same e) (below e)

tasks_test :
    (b : Bool) (id j : ℕ) (old : ℕ → TimerTask) (next : TimerTask) (taken moved : TimerQueue)
    → taken.tasks ≡ update old id next
    → moved.tasks ≡ update old id (loop_once_time next)
    → (if not b then taken else moved).tasks j
      ≡ update old id (if not b then next else loop_once_time next) j
tasks_test true id j old next taken moved et em = ap (λ f. f j) em
tasks_test false id j old next taken moved et em = ap (λ f. f j) et

pool_test :
    (b : Bool) {pool : List (ℕ × ℕ)} (taken moved : TimerQueue)
    → taken.pool ≡ pool
    → moved.pool ≡ pool
    → (if not b then taken else moved).pool ≡ pool
pool_test true taken moved et em = em
pool_test false taken moved et em = et

module _ (id : ℕ) (q : TimerQueue) where
  pub tasks-loop_timer :
      (j : ℕ) → (loop_timer id q).tasks j ≡ update q.tasks id (turned (q.tasks id)) j
  unfolding loop_timer
  tasks-loop_timer j =
      tasks_test (need_next (loop_once_count (q.tasks id))) id j q.tasks
        (loop_once_count (q.tasks id)) _ _ refl refl

  pub pool-loop_timer : (loop_timer id q).pool ≡ q.pool ++ (id, (q.tasks id).time_point) ∷ []
  unfolding loop_timer
  pool-loop_timer = pool_test (need_next (loop_once_count (q.tasks id))) _ _ refl refl

  fires-loop_timer :
      (j : ℕ)
      → fires j (loop_timer id q).pool ≡ (if id == j then suc (fires j q.pool) else fires j q.pool)
  fires-loop_timer j =
      ap (fires j) pool-loop_timer ∙ fires-append j id (q.tasks id).time_point q.pool

pub eq-Exact :
    {m : ℕ} {task other : TimerTask} {inside ran inside' ran' : ℕ}
    → task ≡ other
    → inside ≡ inside'
    → ran ≡ ran'
    → Exact m other inside' ran'
    → Exact m task inside ran
eq-Exact et ei er x = record {
  ran_index =
      λ e. er ∙ x.ran_index (sym (ap (λ t. t.loop_count) et) ∙ e) ∙ sym (ap (λ t. t.loop_index) et);
  index_to = λ e.
      ground (arith, ap (λ t. t.loop_index) et, x.index_to (sym (ap (λ t. t.loop_count) et) ∙ e));
  inside_is = λ e.
      ground
        (arith, ei, ap (λ t. t.loop_index) et, x.inside_is (sym (ap (λ t. t.loop_count) et) ∙ e));
}

own_turn :
    (m id : ℕ) (q : TimerQueue)
    → count id q.all_timers ≡ 1
    → IsExact m id q
    → IsExact m id (loop_timer id q)
own_turn m id q one x =
    eq-Exact (tasks-loop_timer id q id ∙ ground arith)
      (ground (arith, count-loop_timer id id q, one)) (ground (arith, fires-loop_timer id q id))
      (Exact-turned m (q.tasks id) (fires id q.pool)
        (subst (λ c. Exact m (q.tasks id) c (fires id q.pool)) one x))

pub loop_timer-IsExact :
    (m id j : ℕ) (q : TimerQueue)
    → count id q.all_timers ≡ 1
    → IsExact m j q
    → IsExact m j (loop_timer id q)
loop_timer-IsExact m id j q one x = elim (ℕ_discrete id j) [
  | yes same ↦
      subst (λ k. IsExact m k q → IsExact m k (loop_timer id q)) same (own_turn m id q one) x
  | no apart ↦
      eq-Exact (tasks-loop_timer id q j ∙ ground arith) (ground (arith, count-loop_timer id j q))
        (ground (arith, fires-loop_timer id q j)) x
]
