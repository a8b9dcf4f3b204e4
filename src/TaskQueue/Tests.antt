-- ===== src/TaskQueue/Tests.antt =====
-- The theorems about `TaskQueue` at concrete schedules.
use btool.Common.{◌≡◌, refl, true, false, List, [], ◌∷◌, none, some, replicate}
use btool.TaskQueue.{
  TaskQueue, System, Action, enters, adds, adds_restarted, pops, starts, stops, clears, taken, boot,
  step, run, add_locked, add_restarted, push_task, pop_locked, stop, start, clear, extract,
}
use btool.TaskQueue.Fifo.{InOrder, fifo}
use btool.TaskQueue.Stop.{stop_drains}

-- Two producers, a queue of one, a consumer, a restart.
abbrev schedule : List Action
schedule =
    enters (some 1)
    ∷ enters (some 2)
    ∷ adds 0
    ∷ adds 0
    ∷ pops
    ∷ adds 0
    ∷ stops false
    ∷ starts
    ∷ enters none
    ∷ adds 0
    ∷ clears
    ∷ []

schedule_history :
    ((run (boot 1) schedule).accepted ≡ some 2 ∷ some 1 ∷ none ∷ [])
    × ((run (boot 1) schedule).shared.queue ≡ [])
unfolding run step boot add_locked push_task pop_locked stop extract start clear
schedule_history = (refl, refl)

fifo_example : InOrder (run (boot 1) schedule)
fifo_example = fifo 1 schedule

-- A thread that waits for room, a `stop`, and a `start` between the end of its wait and its second look: the task goes
-- in past the limit of 1.
past_limit :
    (run (boot 1) (
      enters (some 1) ∷ enters (some 2) ∷ adds 0 ∷ stops true ∷ adds_restarted 0 ∷ [])).shared.queue
    ≡ some 2 ∷ some 1 ∷ []
unfolding run step boot add_locked add_restarted push_task stop extract start
past_limit = refl

abbrev two_waiting : TaskQueue
two_waiting = record { stopped = false; max_task_count = 2; queue = some 5 ∷ none ∷ [] }

abbrev busy : System
busy = record { shared = two_waiting; adding = []; accepted = two_waiting.queue; departed = [] }

stop_drains_example :
    let s' = run (step busy (stops true)) (replicate 2 pops) in
    (s'.shared.queue ≡ []) × (s'.departed ≡ taken (some 5) ∷ taken none ∷ [])
stop_drains_example = stop_drains busy
