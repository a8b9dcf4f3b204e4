-- ===== src/LastTaskQueue/Sync.antt =====
-- The two containers of `LastTaskQueue` stay in step.
use btool.Common.{
  ℕ, suc, ◌≤◌, ◌≡◌, refl, ◌⊎◌, inl, inr, false, List, [], ◌∷◌, some, arith, ◌==◌, if◌then◌else◌,
  Option-cases,
}
use btool.Common.Assoc.{
  contains, count, lookup, keys, count-append, contains-count, count-contains, count-remove,
  count-keys-insert, count-keys-erase, lookup-none-count, lookup-some-count,
}
use btool.LastTaskQueue.{
  TaskItem, LastTaskQueue, System, Action, enters, adds, pops, finishes, removes, starts, stops,
  clears, init, boot, step, run, add, pop, finish, add_thread, add_locked, add_restarted,
  add_with_start, adds_restarted, start, pop_locked, put_task, take_prop, find_ready, finish_locked,
  remove_prop, start, stop, clear, extract,
}

-- A property waits at most once, and is listed exactly when the map holds a task for it.
pub record IsSynced (q : LastTaskQueue) (k : ℕ) : Type 0 where
  pub same : count k q.wait_props ≡ count k (keys q.wait_tasks)
  pub once : count k q.wait_props ≤ 1

-- What the search of `pop_task` finds: a property that is not running, and the list without it.
pub find_ready_lem :
    (running ps : List ℕ) (p : ℕ) (others : List ℕ) (k : ℕ)
    → find_ready running ps ≡ some (p, others)
    → (count k ps ≡ (if p == k then suc (count k others) else count k others))
      × (contains p running ≡ false)
unfolding find_ready count
find_ready_lem running [] p others k e = ground arith
find_ready_lem running (x ∷ xs) p others k e = elim (Option-cases (find_ready running xs)) [
  | inl a ↦ ground arith
  | inr ((r, o), a) ↦ ground (arith, find_ready_lem running xs r o k a)
]

put_task-IsSynced :
    (q : LastTaskQueue) (p : ℕ) (f : TaskItem) (k : ℕ) → IsSynced q k → IsSynced (put_task q p f) k
unfolding put_task count
put_task-IsSynced q p f k h = elim (Option-cases (lookup p q.wait_tasks)) [
  | inl e ↦ ground (
    arith,
    lookup-none-count p q.wait_tasks e,
    count-contains p (keys q.wait_tasks),
    count-keys-insert p k f q.wait_tasks,
    count-append k q.wait_props (p ∷ []),
  )
  | inr (old, e) ↦ ground (
    arith,
    lookup-some-count p q.wait_tasks old e,
    contains-count p (keys q.wait_tasks),
    count-keys-insert p k f q.wait_tasks,
  )
]

take_prop-IsSynced :
    (q : LastTaskQueue) (p : ℕ) (others : List ℕ) (k : ℕ)
    → find_ready q.cur_pop_props q.wait_props ≡ some (p, others)
    → IsSynced q k
    → IsSynced (take_prop q p others).0 k
unfolding take_prop
take_prop-IsSynced q p others k e h = ground (
  arith,
  find_ready_lem q.cur_pop_props q.wait_props p others k e,
  count-keys-erase p k q.wait_tasks,
)

-- A pop whose search finds a property takes it.
pub pop_takes_found :
    (q : LastTaskQueue) (ps : List ℕ) (p : ℕ) (others : List ℕ)
    → q.wait_props ≡ ps
    → find_ready q.cur_pop_props ps ≡ some (p, others)
    → pop_locked q ≡ some (take_prop q p others)
unfolding pop_locked find_ready
pop_takes_found q [] p others w e = ground arith
pop_takes_found q (x ∷ xs) p others w e = ground arith

-- `pop_task` leaves the queue, or takes the property that its search found.
pub pop_shared :
    (s : System)
    → ((pop s).shared ≡ s.shared)
      ⊎ ((p : ℕ) × (others : List ℕ) × (find_ready s.shared.cur_pop_props s.shared.wait_props
            ≡ some (p, others))
          × ((pop s).shared ≡ (take_prop s.shared p others).0))
unfolding pop pop_locked
pop_shared s = elim (Option-cases (find_ready s.shared.cur_pop_props s.shared.wait_props)) [
  | inl e ↦ inl (ground arith)
  | inr ((p, others), e) ↦ inr (
    p,
    others,
    e,
    unfold take_prop in
        ground (arith, pop_takes_found s.shared s.shared.wait_props p others refl e),
  )
]

add_thread_shared :
    (s : System) (p : ℕ) (f : TaskItem) (rest : List (ℕ × TaskItem))
    → ((add_thread s rest (add_locked s.shared p f)).shared ≡ s.shared)
      ⊎ (add_thread s rest (add_locked s.shared p f)).shared ≡ put_task s.shared p f
unfolding add_thread add_locked
add_thread_shared s p f rest = ground arith

add-IsSynced : (s : System) (i k : ℕ) → IsSynced s.shared k → IsSynced (add s i).shared k
unfolding add
add-IsSynced s i k h = elim (Option-cases (extract i s.adding)) [
  | inl e ↦ rw (e, add) h
  | inr (((p, f), rest), e) ↦
      rw (e, add)
        (elim (add_thread_shared s p f rest) [
          | inl same ↦ rw same h
          | inr put ↦ rw put (put_task-IsSynced s.shared p f k h)
        ])
]

start-IsSynced : (q : LastTaskQueue) (k : ℕ) → IsSynced q k → IsSynced (start q) k
unfolding start
start-IsSynced q k h = ground arith

restarted_thread_shared :
    (s : System) (p : ℕ) (f : TaskItem) (rest : List (ℕ × TaskItem))
    → ((add_thread s rest (add_restarted s.shared p f)).shared ≡ put_task (start s.shared) p f)
      ⊎ (((add_thread s rest (add_restarted s.shared p f)).shared ≡ s.shared)
          ⊎ ((add_thread s rest (add_restarted s.shared p f)).shared ≡ put_task s.shared p f))
unfolding add_thread add_restarted add_locked
restarted_thread_shared s p f rest = ground arith

restarted_thread-IsSynced :
    (s : System) (p : ℕ) (f : TaskItem) (rest : List (ℕ × TaskItem)) (k : ℕ)
    → IsSynced s.shared k
    → IsSynced (add_thread s rest (add_restarted s.shared p f)).shared k
restarted_thread-IsSynced s p f rest k h = elim (restarted_thread_shared s p f rest) [
  | inl put ↦ rw put (put_task-IsSynced (start s.shared) p f k (start-IsSynced s.shared k h))
  | inr (inl same) ↦ rw same h
  | inr (inr put) ↦ rw put (put_task-IsSynced s.shared p f k h)
]

add_with_start-IsSynced :
    (s : System) (i k : ℕ) → IsSynced s.shared k → IsSynced (add_with_start s i).shared k
unfolding add_with_start
add_with_start-IsSynced s i k h = elim (Option-cases (extract i s.adding)) [
  | inl e ↦ rw (e, add_with_start) h
  | inr (((p, f), rest), e) ↦ rw (e, add_with_start) (restarted_thread-IsSynced s p f rest k h)
]

pop-IsSynced : (s : System) (k : ℕ) → IsSynced s.shared k → IsSynced (pop s).shared k
pop-IsSynced s k h = elim (pop_shared s) [
  | inl same ↦ rw same h
  | inr (p, others, e, took) ↦ rw took (take_prop-IsSynced s.shared p others k e h)
]

finish-IsSynced : (s : System) (i k : ℕ) → IsSynced s.shared k → IsSynced (finish s i).shared k
unfolding finish finish_locked
finish-IsSynced s i k h = ground arith

remove_prop-IsSynced : (q : LastTaskQueue) (p k : ℕ) → IsSynced q k → IsSynced (remove_prop q p) k
unfolding remove_prop
remove_prop-IsSynced q p k h =
    ground (arith, count-remove p k q.wait_props, count-keys-erase p k q.wait_tasks)

step-IsSynced :
    (s : System) (a : Action) (k : ℕ) → IsSynced s.shared k → IsSynced (step s a).shared k
unfolding step
step-IsSynced s (enters p f) k h = ground arith
step-IsSynced s (adds i) k h = add-IsSynced s i k h
step-IsSynced s (adds_restarted i) k h = add_with_start-IsSynced s i k h
step-IsSynced s pops k h = pop-IsSynced s k h
step-IsSynced s (finishes i) k h = finish-IsSynced s i k h
step-IsSynced s (removes p) k h = remove_prop-IsSynced s.shared p k h
step-IsSynced s starts k h = start-IsSynced s.shared k h
step-IsSynced s (stops b) k h = unfold stop count keys in ground arith
step-IsSynced s clears k h = unfold clear count keys in ground arith

run-IsSynced :
    (actions : List Action) (s : System) (k : ℕ)
    → IsSynced s.shared k
    → IsSynced (run s actions).shared k
unfolding run
run-IsSynced [] s k h = h
run-IsSynced (a ∷ actions) s k h = run-IsSynced actions (step s a) k (step-IsSynced s a k h)

-- Under every interleaving each property waits at most once, and it is in the order list exactly when
-- the task map has an entry for it.
pub synced : (m : ℕ) (actions : List Action) (k : ℕ) → IsSynced (run (boot m) actions).shared k
unfolding boot init count keys
synced m actions k = run-IsSynced actions (boot m) k (record { same = refl; once = omega arith })
