-- ===== src/LastTaskQueue/Tests.antt =====
-- The theorems about `LastTaskQueue` at concrete schedules.
use btool.Common.{ℕ, ◌≤◌, ◌≡◌, refl, false, List, [], ◌∷◌, ◌++◌, none, some, arith}
use btool.Common.Assoc.{contains, count, lookup, insert, erase, keys, remove}
use btool.LastTaskQueue.{
  LastTaskQueue, System, Action, enters, adds, pops, finishes, starts, stops, boot, step, run,
  add_locked, pop_locked, put_task, take_prop, find_ready, extract, finish_locked,
}
use btool.LastTaskQueue.Sync.{IsSynced, synced}
use btool.LastTaskQueue.Exclusion.{one_runs}
use btool.LastTaskQueue.Latest.{AllRunning, add_replaces, pop_takes_latest}

-- Property 7 is given twice before it is popped, and once more while it runs.
abbrev schedule : List Action
schedule =
    enters 7 (some 1)
    ∷ adds 0
    ∷ enters 8 (some 2)
    ∷ adds 0
    ∷ enters 7 (some 3)
    ∷ adds 0
    ∷ pops
    ∷ enters 7 (some 4)
    ∷ adds 0
    ∷ pops
    ∷ finishes 1
    ∷ pops
    ∷ []

schedule_runs : (run (boot 2) schedule).running ≡ (7, 4) ∷ (8, 2) ∷ []
unfolding run step boot add_locked pop_locked put_task take_prop find_ready contains lookup insert
    erase remove extract finish_locked
schedule_runs = refl

synced_example : IsSynced (run (boot 2) schedule).shared 7
synced_example = synced 2 schedule 7

one_runs_example : count 7 (keys (run (boot 2) schedule).running) ≤ 1
one_runs_example = one_runs 2 schedule 7

-- 7 runs, 7 and 8 wait.
abbrev crowded : LastTaskQueue
crowded = record {
  stopped = false;
  max_task_count = 3;
  wait_props = 7 ∷ 8 ∷ [];
  wait_tasks = (7, some 1) ∷ (8, some 2) ∷ [];
  cur_pop_props = 7 ∷ [];
}

crowded-IsSynced : (k : ℕ) → IsSynced crowded k
unfolding count keys
crowded-IsSynced k = ground arith

abbrev replaced : LastTaskQueue
replaced = record crowded { wait_tasks = (7, some 1) ∷ (8, some 5) ∷ [] }

add_replaces_example :
    (lookup 8 replaced.wait_tasks ≡ some (some 5))
    × (replaced.wait_props ≡ 7 ∷ 8 ∷ [])
    × (replaced.cur_pop_props ≡ crowded.cur_pop_props)
unfolding add_locked put_task lookup insert contains
add_replaces_example = add_replaces crowded replaced 8 8 (some 5) (crowded-IsSynced 8) refl

abbrev popped : LastTaskQueue
popped = record crowded {
  wait_props = 7 ∷ [];
  wait_tasks = (7, some 1) ∷ [];
  cur_pop_props = 8 ∷ 7 ∷ [];
}

pop_takes_latest_example :
    (before : List ℕ) × (after : List ℕ) × (crowded.wait_props ≡ before ++ (8 ∷ after))
    × (popped.wait_props ≡ before ++ after)
    × AllRunning crowded.cur_pop_props before
    × (contains 8 crowded.cur_pop_props ≡ false)
    × (popped.cur_pop_props ≡ 8 ∷ crowded.cur_pop_props)
    × (lookup 8 crowded.wait_tasks ≡ some (some 2))
    × (popped.wait_tasks ≡ erase 8 crowded.wait_tasks)
unfolding pop_locked take_prop find_ready contains lookup erase
pop_takes_latest_example = pop_takes_latest crowded popped 8 (some 2) (crowded-IsSynced 8) refl

-- An empty function waits for property 9.
abbrev empty_given : System
empty_given = record {
  shared = record crowded { wait_props = 9 ∷ []; wait_tasks = (9, none) ∷ []; cur_pop_props = [] };
  adding = [];
  running = [];
}

abbrev empty_popped : LastTaskQueue
empty_popped = record crowded { wait_props = []; wait_tasks = []; cur_pop_props = 9 ∷ [] }

abbrev retry : List Action
retry =
    enters 9 (some 6)
    ∷ adds 0
    ∷ pops
    ∷ stops false
    ∷ starts
    ∷ enters 9 (some 6)
    ∷ adds 0
    ∷ pops
    ∷ []
