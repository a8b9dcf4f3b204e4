-- ===== src/LastTaskQueue.antt =====
-- `LastTaskQueue` of task_queue.hpp: one waiting task for each property, the latest one given, taken
-- in the order in which the properties came, and never two running tasks of one property. A critical
-- section is one function; `none` says that the thread waits on a condition variable. `pop_task` has
-- two of them, before and after the task runs: `step` runs one at a time, so that other threads act
-- while a task runs.
pub mod Sync
pub mod Exclusion
pub mod Latest
mod Tests
use btool.Common.{
  ℕ, zero, suc, Bool, true, false, not, ◌&&◌, ◌||◌, List, [], ◌∷◌, ◌++◌, Option, none, some, ltb,
  ◌==◌, if◌then◌else◌, length,
}
use btool.Common.Assoc.{contains, remove, lookup, insert, erase}

-- `std::function<void()>`: `none` is an empty one, a number names the callable of the others.
abbrev pub TaskItem : Type 0
TaskItem = Option ℕ

pub record LastTaskQueue : Type 0 where
  pub stopped : Bool
  pub max_task_count : ℕ
  -- m_wait_props, in the order of arrival
  pub wait_props : List ℕ
  -- m_wait_tasks
  pub wait_tasks : List (ℕ × TaskItem)
  -- m_cur_pop_props
  pub cur_pop_props : List ℕ

pub init : ℕ → LastTaskQueue
init max_task_count = record {
  stopped = false;
  max_task_count = max_task_count;
  wait_props = [];
  wait_tasks = [];
  cur_pop_props = [];
}

is_empty : List ℕ → Bool
is_empty [] = true
is_empty (t ∷ ts) = false

not_full : LastTaskQueue → Bool
not_full q = q.max_task_count == 0 || ltb (length q.wait_props) q.max_task_count

not_empty : LastTaskQueue → Bool
unfolding is_empty
not_empty q = not (is_empty q.wait_props)

-- The running properties stay.
clear_inner : LastTaskQueue → LastTaskQueue
clear_inner q = record q { wait_tasks = []; wait_props = [] }

pub clear : LastTaskQueue → LastTaskQueue
unfolding clear_inner
clear q = clear_inner q

pub start : LastTaskQueue → LastTaskQueue
start q = if q.stopped then record q { stopped = false } else q

pub stop : Bool → LastTaskQueue → LastTaskQueue
unfolding clear_inner
stop bwait q =
    if q.stopped
    then q
    else if bwait
    then record q { stopped = true }
    else clear_inner (record q { stopped = true })

-- The body of `add_task` behind the wait: a property that waits keeps its place.
pub put_task : LastTaskQueue → ℕ → TaskItem → LastTaskQueue
put_task q prop func = record q {
  wait_props = elim (lookup prop q.wait_tasks) [
    | none ↦ q.wait_props ++ (prop ∷ [])
    | some old ↦ q.wait_props
  ];
  wait_tasks = insert prop func q.wait_tasks;
}

-- The critical section of `add_task`.
pub add_locked : LastTaskQueue → ℕ → TaskItem → Option (LastTaskQueue × Bool)
unfolding not_full
add_locked q prop func =
    if q.stopped || not_full q
    then (if q.stopped then some (q, false) else some (put_task q prop func, true))
    else none

-- The same, with a `start` between the wait and the second look at `m_bstop`, which holds no mutex.
pub add_restarted : LastTaskQueue → ℕ → TaskItem → Option (LastTaskQueue × Bool)
unfolding start add_locked
add_restarted q prop func =
    if q.stopped then some (put_task (start q) prop func, true) else add_locked q prop func

skip : ℕ → Option (ℕ × List ℕ) → Option (ℕ × List ℕ)
skip p none = none
skip p (some (r, others)) = some (r, p ∷ others)

-- The loop of `pop_task`: the first waiting property that is not running, with the properties around
-- it; `list::erase` takes out that one place.
pub find_ready : List ℕ → List ℕ → Option (ℕ × List ℕ)
unfolding skip
find_ready running [] = none
find_ready running (p ∷ ps) =
    let rest = skip p (find_ready running ps) in if contains p running then rest else some (p, ps)

-- `m_wait_tasks[pop_type]`: a missing key reads as an empty function.
pub item_of : Option TaskItem → TaskItem
item_of none = none
item_of (some t) = t

-- What the loop does to the queue at the property it stops at.
pub take_prop : LastTaskQueue → ℕ → List ℕ → LastTaskQueue × Option (ℕ × TaskItem)
unfolding item_of
take_prop q p others = (
  record q {
    wait_tasks = erase p q.wait_tasks;
    wait_props = others;
    cur_pop_props = p ∷ q.cur_pop_props;
  },
  some (p, item_of (lookup p q.wait_tasks)),
)

-- The first critical section of `pop_task`; its result is the property and task that the thread has in
-- hand, if the loop found one.
pub pop_locked : LastTaskQueue → Option (LastTaskQueue × Option (ℕ × TaskItem))
unfolding not_empty take_prop
pop_locked q =
    if not (q.stopped || not_empty q)
    then none
    else if q.stopped && not (not_empty q)
    then some (q, none)
    else elim (find_ready q.cur_pop_props q.wait_props) [
      | none ↦ some (q, none)
      | some (p, others) ↦ some (take_prop q p others)
    ]

-- The second critical section of `pop_task`, reached only by a task that is not empty.
pub finish_locked : LastTaskQueue → ℕ → LastTaskQueue
finish_locked q prop = record q { cur_pop_props = remove prop q.cur_pop_props }

pub remove_prop : LastTaskQueue → ℕ → LastTaskQueue
remove_prop q prop = record q {
  wait_props = remove prop q.wait_props;
  wait_tasks = erase prop q.wait_tasks;
}

pub data Action : Type 0 where
  enters : ℕ → TaskItem → Action
  adds : ℕ → Action
  adds_restarted : ℕ → Action
  pops : Action
  finishes : ℕ → Action
  removes : ℕ → Action
  starts : Action
  stops : Bool → Action
  clears : Action

-- The queue, the producers past the first look at `m_bstop`, and the tasks that run.
pub record System : Type 0 where
  pub shared : LastTaskQueue
  pub adding : List (ℕ × TaskItem)
  pub running : List (ℕ × ℕ)

pub boot : ℕ → System
unfolding init
boot max_task_count = record { shared = init max_task_count; adding = []; running = [] }

-- Takes the thread at an index out of a list of threads.
unfoldable pub extract {ℓ} : {A : Type ℓ} → ℕ → List A → Option (A × List A)
extract i [] = none
extract zero (t ∷ ts) = some (t, ts)
extract (suc i) (t ∷ ts) = elim (extract i ts) [ none ↦ none | some (u, us) ↦ some (u, t ∷ us) ]

pub enter : System → ℕ → TaskItem → System
enter s p f = if s.shared.stopped then s else record s { adding = (p, f) ∷ s.adding }

pub add_thread : System → List (ℕ × TaskItem) → Option (LastTaskQueue × Bool) → System
add_thread s rest reply = elim reply [
  | none ↦ s
  | some (q, ok) ↦ record s { shared = q; adding = rest }
]

pub add : System → ℕ → System
unfolding add_thread
add s i = elim (extract i s.adding) [
  | none ↦ s
  | some ((p, f), rest) ↦ add_thread s rest (add_locked s.shared p f)
]

pub add_with_start : System → ℕ → System
unfolding add_thread add_restarted
add_with_start s i = elim (extract i s.adding) [
  | none ↦ s
  | some ((p, f), rest) ↦ add_thread s rest (add_restarted s.shared p f)
]

-- `if (pop_task)`: only a task that is not empty runs, and has a second critical section to come.
hold : System → LastTaskQueue → Option (ℕ × TaskItem) → System
hold s q none = record s { shared = q }
hold s q (some (p, none)) = record s { shared = q }
hold s q (some (p, some t)) = record s { shared = q; running = (p, t) ∷ s.running }

pub pop : System → System
unfolding hold
pop s = elim (pop_locked s.shared) [ none ↦ s | some (q, held) ↦ hold s q held ]

pub finish : System → ℕ → System
finish s i = elim (extract i s.running) [
  | none ↦ s
  | some ((p, t), rest) ↦ record s { shared = finish_locked s.shared p; running = rest }
]

pub step : System → Action → System
unfolding enter add add_with_start pop finish start stop clear remove_prop
step s (enters p f) = enter s p f
step s (adds i) = add s i
step s (adds_restarted i) = add_with_start s i
step s pops = pop s
step s (finishes i) = finish s i
step s (removes p) = record s { shared = remove_prop s.shared p }
step s starts = record s { shared = start s.shared }
step s (stops bwait) = record s { shared = stop bwait s.shared }
step s clears = record s { shared = clear s.shared }

pub run : System → List Action → System
run s [] = s
run s (a ∷ actions) = run (step s a) actions
