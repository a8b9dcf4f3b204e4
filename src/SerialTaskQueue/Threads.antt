-- ===== src/SerialTaskQueue/Threads.antt =====
-- The threads that share a `SerialTaskQueue`, one critical section at a time. Between the look at the number of
-- tasks and the mutex, a thread of the fast path lets others act; where it does not get the mutex at once it goes
-- on to the slow path.
use btool.Common.{ℕ, Bool, true, false, List, [], ◌∷◌, ◌++◌, Option, none, some, if◌then◌else◌}
use btool.LastTaskQueue.{TaskItem, extract}
use btool.SerialTaskQueue.{
  not_full, PropList, SerialTaskQueue, Popped, waits, leaves, asserts, takes, init, clear_inner,
  start, stop, add_fast, add_slow, pop_locked, finish_locked, remove_prop,
}

pub data Action : Type 0 where
  enters : ℕ → TaskItem → Action
  misses : ℕ → Action
  adds_fast : ℕ → Action
  adds_slow : ℕ → Action
  adds_restarted : ℕ → Action
  pops : Action
  finishes : ℕ → Action
  starts : Action
  stops : Bool → Action
  removes : ℕ → Action
  clears : Action

-- The queue, the threads of `add_task` on each path, the tasks that run, and what happened: the tasks accepted and
-- those taken out, each in its order, and whether an assertion failed.
pub record System (S : Type 0) : Type 0 where
  pub shared : SerialTaskQueue S
  pub fast : List (ℕ × TaskItem)
  pub slow : List (ℕ × TaskItem)
  pub running : List (ℕ × ℕ)
  pub accepted : List (ℕ × TaskItem)
  pub taken : List (ℕ × TaskItem)
  pub failed : Bool

module _ {S : Type 0} (o : PropList S) where
  unfoldable pub boot : ℕ → S → System S
  unfolding init
  boot max_task_count props = record {
    shared = init o max_task_count props;
    fast = [];
    slow = [];
    running = [];
    accepted = [];
    taken = [];
    failed = false;
  }

  unfoldable pub accept : ℕ → TaskItem → SerialTaskQueue S × Bool → System S → System S
  accept p f (q, true) s = record s { shared = q; accepted = s.accepted ++ (p, f) ∷ [] }
  accept p f (q, false) s = record s { shared = q }

  -- The look at the number of tasks, in a thread whose load of `m_bstop` found false. The load may be as old as the
  -- queue, whose flag is false at first, so that a thread enters whatever the flag is by now; a thread that finds true
  -- returns at once and has no step.
  unfoldable pub enter : ℕ → TaskItem → System S → System S
  unfolding not_full
  enter p f s =
      if not_full o s.shared
      then record s { fast = (p, f) ∷ s.fast }
      else record s { slow = (p, f) ∷ s.slow }

  -- `try_lock` fails.
  unfoldable pub miss : Option ((ℕ × TaskItem) × List (ℕ × TaskItem)) → System S → System S
  miss none s = s
  miss (some (thread, rest)) s = record s { fast = rest; slow = thread ∷ s.slow }

  unfoldable pub go_fast : Option ((ℕ × TaskItem) × List (ℕ × TaskItem)) → System S → System S
  unfolding add_fast accept
  go_fast none s = s
  go_fast (some ((p, f), rest)) s = accept p f (add_fast o p f s.shared) (record s { fast = rest })

  unfoldable pub accept_slow :
      ℕ → TaskItem → List (ℕ × TaskItem) → Option (SerialTaskQueue S × Bool) → System S → System S
  unfolding accept
  accept_slow p f rest none s = s
  accept_slow p f rest (some reply) s = accept p f reply (record s { slow = rest })

  unfoldable pub go_slow : Option ((ℕ × TaskItem) × List (ℕ × TaskItem)) → System S → System S
  unfolding add_slow accept_slow
  go_slow none s = s
  go_slow (some ((p, f), rest)) s = accept_slow p f rest (add_slow o p f s.shared) s

  -- A `start`, which holds no mutex, between the end of the wait on the slow path and the look at `m_bstop` behind it:
  -- the wait ended because the queue was stopped. Where it was not stopped the `start` comes to nothing.
  unfoldable pub go_restarted : Option ((ℕ × TaskItem) × List (ℕ × TaskItem)) → System S → System S
  unfolding add_fast accept go_slow
  go_restarted none s = s
  go_restarted (some ((p, f), rest)) s =
      let restarted = record s { shared = record s.shared { stopped = false }; slow = rest } in
      if s.shared.stopped
      then accept p f (add_fast o p f restarted.shared) restarted
      else go_slow (some ((p, f), rest)) s

  abbrev pub run_task : ℕ → TaskItem → List (ℕ × ℕ) → List (ℕ × ℕ)
  run_task p none running = running
  run_task p (some t) running = (p, t) ∷ running

  -- `if (next_task)`: only a task that is not empty runs, and has a second critical section to come.
  unfoldable pub hold : Popped S → System S → System S
  hold waits s = s
  hold leaves s = s
  hold asserts s = record s { failed = true }
  hold (takes q p f) s = record s {
    shared = q;
    running = run_task p f s.running;
    taken = s.taken ++ (p, f) ∷ [];
  }

  unfoldable pub finish : Option ((ℕ × ℕ) × List (ℕ × ℕ)) → System S → System S
  unfolding finish_locked
  finish none s = s
  finish (some ((p, t), rest)) s = record s { shared = finish_locked o p s.shared; running = rest }

  unfoldable pub step : System S → Action → System S
  unfolding enter miss go_fast go_slow go_restarted hold finish extract start stop pop_locked
      remove_prop clear_inner
  step s (enters p f) = enter p f s
  step s (misses i) = miss (extract i s.fast) s
  step s (adds_fast i) = go_fast (extract i s.fast) s
  step s (adds_slow i) = go_slow (extract i s.slow) s
  step s (adds_restarted i) = go_restarted (extract i s.slow) s
  step s pops = hold (pop_locked o s.shared) s
  step s (finishes i) = finish (extract i s.running) s
  step s starts = record s { shared = start o s.shared }
  step s (stops bwait) = record s { shared = stop o bwait s.shared }
  step s (removes p) = record s { shared = remove_prop o p s.shared }
  step s clears = record s { shared = clear_inner o s.shared }

  unfoldable pub run : System S → List Action → System S
  unfolding step
  run s [] = s
  run s (a ∷ actions) = run (step s a) actions
