-- ===== src/SpmcSerialTaskQueue/Tests.antt =====
-- The theorems about `SPMCSerialTaskQueue` over a list as its queue.
use btool.Common.{
  ℕ, ◌≤◌, ◌≡◌, refl, true, false, List, [], ◌∷◌, ◌++◌, Option, none, some, length, replicate,
}
use btool.Common.Assoc.{contains, lookup, insert, keys}
use btool.ParallelTaskQueue.{ConcurrentQueue}
use btool.SpmcSerialTaskQueue.{
  add_loads, pop_loads_clear, clear_sets, move, init, reset_props, add_props, add_prop, not_full,
  queue_of, count_of, dequeue, hold, held, claim, turn, drain,
}
use btool.SpmcSerialTaskQueue.Threads.{
  Action, System, begins, moves, boot, run, step, extract, put_back, take_step, settle, is_start,
}
use btool.SpmcSerialTaskQueue.Exclusion.{running}
use btool.SpmcSerialTaskQueue.Places.{running_of}
use btool.SpmcSerialTaskQueue.Tasks.{one_task_runs}
use btool.SpmcSerialTaskQueue.Cleared.{clear_ends_all}

abbrev first : List ℕ → Option (ℕ × List ℕ)
first [] = none
first (x ∷ xs) = some (x, xs)

abbrev list_queue : ConcurrentQueue (List ℕ)
list_queue = record {
  no_items = [];
  enqueue = λ q x. q ++ (x ∷ []);
  try_dequeue = first;
  size_approx = length;
  items = λ q. q;
}

-- A task is added for property 7 and taken out; a second thread finds the property held.
abbrev shift : List Action
shift =
    begins (add_loads 7 5)
    ∷ moves 0
    ∷ moves 0
    ∷ moves 0
    ∷ moves 0
    ∷ moves 0
    ∷ moves 0
    ∷ begins pop_loads_clear
    ∷ moves 0
    ∷ begins pop_loads_clear
    ∷ moves 0
    ∷ moves 0
    ∷ moves 0
    ∷ moves 0
    ∷ moves 0
    ∷ moves 0
    ∷ moves 0
    ∷ moves 0
    ∷ moves 1
    ∷ []

shift_test : running 0 (run list_queue (boot list_queue 0 (7 ∷ [])) shift).calls ≡ 1
unfolding run boot init reset_props add_props add_prop step extract put_back take_step settle move
    is_start not_full queue_of count_of dequeue hold held claim turn lookup insert
shift_test = refl

one_task_runs_example :
    running_of 7 (run list_queue (boot list_queue 0 (7 ∷ 8 ∷ [])) shift).calls ≤ 1
unfolding contains
one_task_runs_example =
    one_task_runs list_queue 7 0 (7 ∷ 8 ∷ []) shift refl (refl, (refl, (refl, tt)))

-- Property 7 after a `clear`.
abbrev cleared : System (List ℕ)
cleared = record {
  shared = record {
    stopped = false;
    clearing = true;
    approx_size = 0;
    cur_props_index = 0;
    all_props = 7 ∷ [];
    can_pop = λ place. true;
    wait_tasks = (7, []) ∷ [];
    max_single_task_count = 0;
    single_task_count = (7, 0) ∷ [];
  };
  calls = pop_loads_clear ∷ [];
}

cleared_test :
    (run list_queue
      (run list_queue (boot list_queue 0 (7 ∷ [])) (begins clear_sets ∷ replicate 10 (moves 0)))
      []).shared.clearing
    ≡ true
unfolding run boot init reset_props add_props add_prop step extract put_back take_step settle move
    is_start queue_of drain lookup insert keys
cleared_test = refl

clear_ends_all_example : running 0 (run list_queue cleared shift).calls ≡ 0
clear_ends_all_example = clear_ends_all list_queue 0 cleared shift refl (refl, tt)
