-- ===== src/LastTaskQueue/Latest.antt =====
-- What `add_task` and `pop_task` of `LastTaskQueue` promise: the latest task of a property, in the
-- order in which the properties came.
use btool.Common.{
  ℕ, ◌≡◌, ◌≢◌, refl, inl, inr, true, false, List, [], ◌∷◌, ◌++◌, none, some, arith, ◌==◌,
  if◌then◌else◌, Bool-cases, Option-cases,
}
use btool.Common.Assoc.{
  contains, count, lookup, erase, keys, lookup-insert, contains-count, count-contains,
  lookup-none-count, lookup-some-count,
}
use btool.LastTaskQueue.{
  TaskItem, LastTaskQueue, add_locked, pop_locked, put_task, take_prop, find_ready, item_of,
}
use btool.LastTaskQueue.Sync.{IsSynced, find_ready_lem, pop_takes_found}

put_task_replaces :
    (q : LastTaskQueue) (p j : ℕ) (f : TaskItem)
    → IsSynced q p
    → (lookup j (put_task q p f).wait_tasks ≡ (if p == j then some f else lookup j q.wait_tasks))
      × ((put_task q p f).wait_props
          ≡ (if contains p q.wait_props then q.wait_props else q.wait_props ++ (p ∷ [])))
      × ((put_task q p f).cur_pop_props ≡ q.cur_pop_props)
unfolding put_task
put_task_replaces q p j f v = elim (Option-cases (lookup p q.wait_tasks)) [
  | inl e ↦ ground (
    arith,
    lookup-insert p j f q.wait_tasks,
    lookup-none-count p q.wait_tasks e,
    count-contains p q.wait_props,
  )
  | inr (old, e) ↦ ground (
    arith,
    lookup-insert p j f q.wait_tasks,
    lookup-some-count p q.wait_tasks old e,
    contains-count p q.wait_props,
  )
]

add_locked-true :
    (q q' : LastTaskQueue) (p : ℕ) (f : TaskItem)
    → add_locked q p f ≡ some (q', true)
    → q' ≡ put_task q p f
unfolding add_locked
add_locked-true q q' p f e = ground arith

-- An accepted task replaces the one that waits for its property, in its place, and otherwise goes to
-- the end; no other property is touched.
pub add_replaces :
    (q q' : LastTaskQueue) (p j : ℕ) (f : TaskItem)
    → IsSynced q p
    → add_locked q p f ≡ some (q', true)
    → (lookup j q'.wait_tasks ≡ (if p == j then some f else lookup j q.wait_tasks))
      × (q'.wait_props
          ≡ (if contains p q.wait_props then q.wait_props else q.wait_props ++ (p ∷ [])))
      × (q'.cur_pop_props ≡ q.cur_pop_props)
add_replaces q q' p j f v e = rw (add_locked-true q q' p f e) (put_task_replaces q p j f v)

-- Every property of the list is running.
abbrev pub AllRunning : List ℕ → List ℕ → Type 0
AllRunning running [] = Unit
AllRunning running (p ∷ ps) = (contains p running ≡ true) × AllRunning running ps

find_ready_first :
    (running ps : List ℕ) (p : ℕ) (others : List ℕ)
    → find_ready running ps ≡ some (p, others)
    → (before : List ℕ) × (after : List ℕ) × (ps ≡ before ++ (p ∷ after))
      × (others ≡ before ++ after)
      × AllRunning running before
      × (contains p running ≡ false)
unfolding find_ready
find_ready_first running [] p others e = absurd (ground arith)
find_ready_first running (x ∷ xs) p others e = elim (Bool-cases (contains x running)) [
  | inl busy ↦ elim (Option-cases (find_ready running xs)) [
    | inl a ↦ absurd (ground arith)
    | inr ((r, o), a) ↦
        let (before, after, split, left, all, free) = find_ready_first running xs r o a in
        (x ∷ before, after, ground arith, ground arith, (busy, all), ground arith)
  ]
  | inr free ↦ ([], xs, ground arith, ground arith, tt, ground arith)
]

find_ready-none : (running ps : List ℕ) → find_ready running ps ≡ none → AllRunning running ps
unfolding find_ready
find_ready-none running [] e = tt
find_ready-none running (x ∷ xs) e = elim (Bool-cases (contains x running)) [
  | inl busy ↦ elim (Option-cases (find_ready running xs)) [
    | inl a ↦ (busy, find_ready-none running xs a)
    | inr (r, a) ↦ absurd (ground arith)
  ]
  | inr free ↦ absurd (ground arith)
]

pub pop_locked-some :
    (q q' : LastTaskQueue) (p : ℕ) (t : TaskItem)
    → pop_locked q ≡ some (q', some (p, t))
    → (others : List ℕ) × (find_ready q.cur_pop_props q.wait_props ≡ some (p, others))
      × (q' ≡ (take_prop q p others).0)
      × (t ≡ item_of (lookup p q.wait_tasks))
unfolding pop_locked take_prop
pop_locked-some q q' p t e = elim (Option-cases (find_ready q.cur_pop_props q.wait_props)) [
  | inl a ↦ absurd (ground arith)
  | inr ((r, others), a) ↦ (others, ground arith, ground arith, ground arith)
]

item_of_lem :
    (p : ℕ) (m : List (ℕ × TaskItem))
    → count p (keys m) ≢ 0
    → lookup p m ≡ some (item_of (lookup p m))
unfolding item_of lookup count keys
item_of_lem p [] h = absurd (h refl)
item_of_lem p ((k, v) ∷ m) h = ground (arith, item_of_lem p m)

-- A pop that comes away with a task has the latest one of the first waiting property that is not
-- running: all that wait before it run. The property stops waiting, and is marked as running.
pub pop_takes_latest :
    (q q' : LastTaskQueue) (p : ℕ) (t : TaskItem)
    → IsSynced q p
    → pop_locked q ≡ some (q', some (p, t))
    → (before : List ℕ) × (after : List ℕ) × (q.wait_props ≡ before ++ (p ∷ after))
      × (q'.wait_props ≡ before ++ after)
      × AllRunning q.cur_pop_props before
      × (contains p q.cur_pop_props ≡ false)
      × (q'.cur_pop_props ≡ p ∷ q.cur_pop_props)
      × (lookup p q.wait_tasks ≡ some t)
      × (q'.wait_tasks ≡ erase p q.wait_tasks)
unfolding take_prop
pop_takes_latest q q' p t v e =
    let (others, found, state, item) = pop_locked-some q q' p t e in
    let (before, after, split, left, all, free) =
      find_ready_first q.cur_pop_props q.wait_props p others found in
    (
      before,
      after,
      split,
      ground arith,
      all,
      free,
      ground arith,
      ground (
        arith,
        item_of_lem p q.wait_tasks,
        v.same,
        find_ready_lem q.cur_pop_props q.wait_props p others p found,
      ),
      ground arith,
    )

pop_locked_idle : (q q' : LastTaskQueue) → pop_locked q ≡ some (q', none) → q' ≡ q
unfolding pop_locked take_prop
pop_locked_idle q q' e = ground arith

pop_locked-none_ready :
    (q q' : LastTaskQueue)
    → pop_locked q ≡ some (q', none)
    → find_ready q.cur_pop_props q.wait_props ≡ none
unfolding take_prop
pop_locked-none_ready q q' e = elim (Option-cases (find_ready q.cur_pop_props q.wait_props)) [
  | inl a ↦ a
  | inr ((p, others), a) ↦ absurd (ground (arith, pop_takes_found q q.wait_props p others refl a))
]

-- A pop that comes away with nothing leaves the queue, and every waiting property is running.
pub pop_idle :
    (q q' : LastTaskQueue)
    → pop_locked q ≡ some (q', none)
    → (q' ≡ q) × AllRunning q.cur_pop_props q.wait_props
pop_idle q q' e = (
  pop_locked_idle q q' e,
  find_ready-none q.cur_pop_props q.wait_props (pop_locked-none_ready q q' e),
)
