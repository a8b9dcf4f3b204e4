-- ===== src/ParallelTaskQueue.antt =====
-- `ParallelTaskQueue` of task_queue.hpp: tasks in a queue that many threads use at once, moodycamel's
-- ConcurrentQueue, which is a parameter. Only the waits, `clear` and `stop` hold the mutex, so the looks at
-- `m_bstop`, the wait and the enqueue of one `add_task` are steps between which other threads act.
pub mod Conserve
pub mod Uncleared
mod Tests
use btool.Common.{
  ℕ, zero, suc, ◌+◌, Bool, true, false, not, ◌&&◌, ◌||◌, List, [], ◌∷◌, ◌++◌, Option, none, some,
  ltb, leb, ◌==◌, if◌then◌else◌, length,
}

-- The operations of the queue that the code calls. A task is the number that names its callable.
pub record ConcurrentQueue (Q : Type 0) : Type 0 where
  pub no_items : Q
  pub enqueue : Q → ℕ → Q
  pub try_dequeue : Q → Option (ℕ × Q)
  pub size_approx : Q → ℕ
  -- What is left in the queue, to say what the operations do.
  pub items : Q → List ℕ

-- What is left of a call. The mutex keeps some of these steps apart, but no enqueue or
-- dequeue holds it; the steps here interleave freely, as if there were no mutex.
pub data Call : Type 0 where
  add_loads : ℕ → Call
  add_waits : ℕ → Call
  add_checks : ℕ → Call
  add_enqueues : ℕ → Call
  pop_loads : Call
  pop_waits : Call
  pop_looks : Call
  pop_dequeues : Call
  start_swaps : Call
  stop_swaps : Bool → Call
  clear_swaps : Call

-- A step leaves the rest of a call, or ends it: a task added or refused, one taken out to run, or none.
pub data Outcome : Type 0 where
  goes_on : Call → Outcome
  added : ℕ → Outcome
  refused : ℕ → Outcome
  runs : ℕ → Outcome
  returns : Outcome
  -- The items of the queue are thrown away.
  drops : Outcome

pub record ParallelTaskQueue (Q : Type 0) : Type 0 where
  pub stopped : Bool
  pub max_task_count : ℕ
  pub queue : Q

module _ {Q : Type 0} (ops : ConcurrentQueue Q) where
  pub init : ℕ → ParallelTaskQueue Q
  init max_task_count = record {
    stopped = false;
    max_task_count = max_task_count;
    queue = ops.no_items;
  }

  pub not_full : ParallelTaskQueue Q → Bool
  not_full q = q.max_task_count == 0 || ltb (ops.size_approx q.queue) q.max_task_count

  pub not_empty : ParallelTaskQueue Q → Bool
  not_empty q = not (ops.size_approx q.queue == 0)

  -- The swap with an empty queue. That moodycamel's `swap` is safe beside an enqueue or a dequeue is not
  -- documented, and neither holds the mutex, so that the step stands for a `clear` while no other thread adds or pops.
  pub clear_inner : ParallelTaskQueue Q → ParallelTaskQueue Q
  clear_inner q = record q { queue = ops.no_items }

  pub dequeued : ParallelTaskQueue Q → Option (ℕ × Q) → ParallelTaskQueue Q × Outcome
  dequeued q none = (q, returns)
  dequeued q (some (task, rest)) = (record q { queue = rest }, runs task)

  -- `stop` that finds the queue running: it keeps the tasks or goes on to throw them away.
  pub stopping : Bool → Outcome
  stopping true = returns
  stopping false = goes_on clear_swaps

  -- One step; `none` is a wait that goes on.
  pub move : ParallelTaskQueue Q → Call → Option (ParallelTaskQueue Q × Outcome)
  unfolding not_full not_empty clear_inner dequeued stopping
  move q (add_loads x) = some (q, if q.stopped then refused x else goes_on (add_waits x))
  move q (add_waits x) = if q.stopped || not_full q then some (q, goes_on (add_checks x)) else none
  move q (add_checks x) = some (q, if q.stopped then refused x else goes_on (add_enqueues x))
  move q (add_enqueues x) = some (record q { queue = ops.enqueue q.queue x }, added x)
  move q pop_loads = some (q, goes_on (if not q.stopped then pop_waits else pop_looks))
  move q pop_waits = if q.stopped || not_empty q then some (q, goes_on pop_looks) else none
  move q pop_looks = some (q, if not (not_empty q) then returns else goes_on pop_dequeues)
  move q pop_dequeues = some (dequeued q (ops.try_dequeue q.queue))
  move q start_swaps = some (record q { stopped = false }, returns)
  move q (stop_swaps bwait) =
      some (record q { stopped = true }, if q.stopped then returns else stopping bwait)
  move q clear_swaps = some (clear_inner q, drops)

-- The calls in progress, and what became of the tasks.
pub record System (Q : Type 0) : Type 0 where
  pub shared : ParallelTaskQueue Q
  pub calls : List Call
  pub accepted : List ℕ
  pub taken : List ℕ
  pub dropped : List ℕ

pub data Action : Type 0 where
  begins : Call → Action
  moves : ℕ → Action

pub put_back : Call → Option (Call × List Call) → Option (Call × List Call)
put_back c none = none
put_back c (some (d, ds)) = some (d, c ∷ ds)

-- One call out of the list by its place.
pub extract : ℕ → List Call → Option (Call × List Call)
unfolding put_back
extract n [] = none
extract zero (c ∷ cs) = some (c, cs)
extract (suc n) (c ∷ cs) = put_back c (extract n cs)

-- Where an operation starts.
pub is_start : Call → Bool
is_start (add_loads x) = true
is_start pop_loads = true
is_start start_swaps = true
is_start (stop_swaps bwait) = true
is_start clear_swaps = true
is_start c = false

module _ {Q : Type 0} (ops : ConcurrentQueue Q) where
  pub boot : ℕ → System Q
  unfolding init
  boot max_task_count = record {
    shared = init ops max_task_count;
    calls = [];
    accepted = [];
    taken = [];
    dropped = [];
  }

  pub settle : System Q → List Call → Option (ParallelTaskQueue Q × Outcome) → System Q
  settle s rest none = s
  settle s rest (some (q, goes_on c)) = record s { shared = q; calls = c ∷ rest }
  settle s rest (some (q, added x)) = record s {
    shared = q;
    calls = rest;
    accepted = s.accepted ++ (x ∷ []);
  }
  settle s rest (some (q, refused x)) = record s { shared = q; calls = rest }
  settle s rest (some (q, runs x)) = record s {
    shared = q;
    calls = rest;
    taken = s.taken ++ (x ∷ []);
  }
  settle s rest (some (q, returns)) = record s { shared = q; calls = rest }
  settle s rest (some (q, drops)) = record s {
    shared = q;
    calls = rest;
    dropped = s.dropped ++ ops.items s.shared.queue;
  }

  pub take_step : System Q → Option (Call × List Call) → System Q
  unfolding settle move
  take_step s none = s
  take_step s (some (c, rest)) = settle s rest (move ops s.shared c)

  -- A program of so many threads: a call begins while fewer are in progress.
  pub step : ℕ → System Q → Action → System Q
  unfolding extract take_step is_start
  step threads s (begins c) =
      if is_start c && ltb (length s.calls) threads then record s { calls = c ∷ s.calls } else s
  step threads s (moves n) = take_step s (extract n s.calls)

  pub run : ℕ → System Q → List Action → System Q
  unfolding step
  run threads s [] = s
  run threads s (a ∷ actions) = run threads (step threads s a) actions
