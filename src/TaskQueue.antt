-- ===== src/TaskQueue.antt =====
-- `TaskQueue` of task_queue.hpp: a FIFO of tasks with a stop flag and an optional limit, between
-- any number of producers and consumers. A critical section is one function; `none` says that the
-- thread waits on a condition variable. A thread's way through `add_task` is the unlocked look at
-- `m_bstop` and then, at some later step, the critical section: `step` runs one such action.
pub mod Fifo
pub mod Stop
mod Tests
use btool.Common.{
  ℕ, zero, suc, Bool, true, false, not, ◌||◌, List, [], ◌∷◌, ◌++◌, Option, none, some, ltb, ◌==◌,
  if◌then◌else◌, length, ◌&&◌,
}

-- `std::function<void()>`: `none` is an empty one, a number names the callable of the others.
abbrev pub TaskItem : Type 0
TaskItem = Option ℕ

pub record TaskQueue : Type 0 where
  pub stopped : Bool
  pub max_task_count : ℕ
  pub queue : List TaskItem

pub init : ℕ → TaskQueue
init max_task_count = record { stopped = false; max_task_count = max_task_count; queue = [] }

is_empty : List TaskItem → Bool
is_empty [] = true
is_empty (t ∷ ts) = false

not_full : TaskQueue → Bool
not_full q = q.max_task_count == 0 || ltb (length q.queue) q.max_task_count

not_empty : TaskQueue → Bool
unfolding is_empty
not_empty q = not (is_empty q.queue)

clear_inner : TaskQueue → TaskQueue
clear_inner q = record q { queue = [] }

pub clear : TaskQueue → TaskQueue
unfolding clear_inner
clear q = clear_inner q

-- The exchange of `m_bstop` succeeds only if it holds the other value.
pub start : TaskQueue → TaskQueue
start q = if q.stopped then record q { stopped = false } else q

pub stop : Bool → TaskQueue → TaskQueue
unfolding clear_inner
stop bwait q =
    if q.stopped
    then q
    else if bwait
    then record q { stopped = true }
    else clear_inner (record q { stopped = true })

pub push_task : TaskQueue → TaskItem → TaskQueue
push_task q func = record q { queue = q.queue ++ (func ∷ []) }

-- The critical section of `add_task`: the wait, the second look at `m_bstop`, and the push.
pub add_locked : TaskQueue → TaskItem → Option (TaskQueue × Bool)
unfolding not_full push_task
add_locked q func =
    if q.stopped || not_full q
    then (if q.stopped then some (q, false) else some (push_task q func, true))
    else none

-- The same, with a `start` between the wait and the second look: it holds no mutex, and all else that would act there
-- does. Where the queue was not stopped it comes to nothing.
pub add_restarted : TaskQueue → TaskItem → Option (TaskQueue × Bool)
unfolding start add_locked push_task
add_restarted q func =
    if q.stopped then some (push_task (start q) func, true) else add_locked q func

pub take_front : TaskQueue → List TaskItem → TaskQueue × Option TaskItem
take_front q [] = (q, none)
take_front q (t ∷ ts) = (record q { queue = ts }, some t)

-- The critical section of `pop_task`; the item is what the thread goes on to call.
pub pop_locked : TaskQueue → Option (TaskQueue × Option TaskItem)
unfolding not_empty take_front
pop_locked q =
    if not q.stopped && not (q.stopped || not_empty q) then none else some (take_front q q.queue)

-- What a thread outside does next.
pub data Action : Type 0 where
  enters : TaskItem → Action
  adds : ℕ → Action
  adds_restarted : ℕ → Action
  pops : Action
  starts : Action
  stops : Bool → Action
  clears : Action

-- How an item leaves: to the consumer that calls it, or thrown away.
pub data Departure : Type 0 where
  taken : TaskItem → Departure
  dropped : TaskItem → Departure

-- The queue, the producers past the first look at `m_bstop`, and the histories of what was accepted
-- and what left.
pub record System : Type 0 where
  pub shared : TaskQueue
  pub adding : List TaskItem
  pub accepted : List TaskItem
  pub departed : List Departure

pub boot : ℕ → System
unfolding init
boot max_task_count = record {
  shared = init max_task_count;
  adding = [];
  accepted = [];
  departed = [];
}

-- Takes the thread at an index out of a list of threads.
pub extract : ℕ → List TaskItem → Option (TaskItem × List TaskItem)
extract i [] = none
extract zero (t ∷ ts) = some (t, ts)
extract (suc i) (t ∷ ts) = elim (extract i ts) [ none ↦ none | some (u, us) ↦ some (u, t ∷ us) ]

pub drop_all : List TaskItem → List Departure
drop_all [] = []
drop_all (t ∷ ts) = dropped t ∷ drop_all ts

-- What a change of the flag or a `clear` throws away: the old items, where the new queue has none.
discard : System → TaskQueue → System
discard s q = record s {
  shared = q;
  departed = elim q.queue [ [] ↦ s.departed ++ drop_all s.shared.queue | t ∷ ts ↦ s.departed ];
}

enter : System → TaskItem → System
enter s f = if s.shared.stopped then s else record s { adding = f ∷ s.adding }

add_thread : System → TaskItem → List TaskItem → Option (TaskQueue × Bool) → System
add_thread s f rest reply = elim reply [
  | none ↦ s
  | some (q, ok) ↦
      if ok
      then record s { shared = q; adding = rest; accepted = s.accepted ++ (f ∷ []) }
      else record s { shared = q; adding = rest }
]

add : System → ℕ → System
unfolding add_thread
add s i = elim (extract i s.adding) [
  | none ↦ s
  | some (f, rest) ↦ add_thread s f rest (add_locked s.shared f)
]

add_with_start : System → ℕ → System
unfolding add_thread add_restarted
add_with_start s i = elim (extract i s.adding) [
  | none ↦ s
  | some (f, rest) ↦ add_thread s f rest (add_restarted s.shared f)
]

pop : System → System
pop s = elim (pop_locked s.shared) [
  | none ↦ s
  | some (q, none) ↦ record s { shared = q }
  | some (q, some t) ↦ record s { shared = q; departed = s.departed ++ (taken t ∷ []) }
]

pub step : System → Action → System
unfolding enter add add_with_start pop discard
step s (enters f) = enter s f
step s (adds i) = add s i
step s (adds_restarted i) = add_with_start s i
step s pops = pop s
step s starts = record s { shared = start s.shared }
step s (stops bwait) = discard s (stop bwait s.shared)
step s clears = discard s (clear s.shared)

pub run : System → List Action → System
run s [] = s
run s (a ∷ actions) = run (step s a) actions
