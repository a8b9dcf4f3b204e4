-- ===== src/SpmcSerialTaskQueue.antt =====
-- `SPMCSerialTaskQueue` of task_queue.hpp: a queue of tasks for each of the properties that are registered
-- at the start, and threads that take the properties in turn and run one's tasks until it has none. No
-- mutex holds: each load, store, exchange and queue operation is a step. The queues are moodycamel's
-- ConcurrentQueue, by the same parameter as in ParallelTaskQueue. An int is its 32 bits.
pub mod Threads
pub mod Holders
pub mod Exclusion
pub mod Places
pub mod Tasks
pub mod Cleared
mod Tests
use btool.Common.{
  ℕ, zero, suc, ◌+◌, ◌-◌, ◌%◌, ◌^◌, Bool, true, false, not, ◌&&◌, ◌||◌, List, [], ◌∷◌, ◌++◌, map,
  Option, none, some, ltb, ◌==◌, if◌then◌else◌, length, get_elem?,
}
use btool.Common.Assoc.{lookup, insert, keys}
use btool.ParallelTaskQueue.{ConcurrentQueue}

pub record SpmcSerialTaskQueue (Q : Type 0) : Type 0 where
  pub stopped : Bool
  -- m_bclear
  pub clearing : Bool
  pub approx_size : ℕ
  pub cur_props_index : ℕ
  -- m_all_props: the properties, and by their places whether they may be popped
  pub all_props : List ℕ
  pub can_pop : ℕ → Bool
  pub wait_tasks : List (ℕ × Q)
  pub max_single_task_count : ℕ
  pub single_task_count : List (ℕ × ℕ)

-- Where a thread stands that holds a property: with the task that it has taken out.
pub data Stage : Type 0 where
  takes : Stage
  looks : ℕ → Stage
  zeroes : Stage
  zeroes_single : Stage
  decrements : ℕ → Stage
  decrements_single : ℕ → Stage
  runs : ℕ → Stage
  releases : Stage

-- What is left of a call. A thread that holds a property goes by its place and the property; the loops of
-- `clear_inner` go by the place and how many places are left, or by the keys that are left.
pub data Call : Type 0 where
  add_loads : ℕ → ℕ → Call
  add_guards : ℕ → ℕ → Call
  add_enqueues : ℕ → ℕ → Call
  add_looks : ℕ → Call
  add_zeroes : ℕ → Call
  add_zeroes_single : ℕ → Call
  add_counts : ℕ → Call
  add_counts_single : ℕ → Call
  pop_loads_clear : Call
  pop_loads_size : Call
  pop_indexes : Call
  pop_claims : ℕ → ℕ → Call
  pop_holds : ℕ → ℕ → Stage → Call
  start_swaps : Call
  stop_swaps : Bool → Call
  clear_sets : Call
  clear_blocks : ℕ → ℕ → Call
  clear_drains : List ℕ → Call
  clear_counts : List ℕ → Call
  clear_index : Call
  clear_opens : ℕ → ℕ → Call
  clear_size : Call

abbrev pub set_flag : (ℕ → Bool) → ℕ → Bool → ℕ → Bool
set_flag flags place value other = if other == place then value else flags other

abbrev increment : ℕ → ℕ
increment n = (n + 1) % 2 ^ 32

abbrev decrement : ℕ → ℕ
decrement n = (n + 2 ^ 32 - 1) % 2 ^ 32

-- An int as a size_t: a negative one is a large number.
abbrev widen : ℕ → ℕ
widen n = if ltb n (2 ^ 31) then n else n + 2 ^ 64 - 2 ^ 32

-- A number that was not stored reads as 0.
pub count_of : List (ℕ × ℕ) → ℕ → ℕ
count_of counts prop = elim (lookup prop counts) [ none ↦ 0 | some n ↦ n ]

module _ {Q : Type 0} (ops : ConcurrentQueue Q) where
  pub init : ℕ → SpmcSerialTaskQueue Q
  init max_single_task_count = record {
    stopped = false;
    clearing = false;
    approx_size = 0;
    cur_props_index = 0;
    all_props = [];
    can_pop = λ place. false;
    wait_tasks = [];
    max_single_task_count = max_single_task_count;
    single_task_count = [];
  }

  -- One property of `reset_props`, at the end of the others; a property that was there keeps its queue.
  pub add_prop : SpmcSerialTaskQueue Q → ℕ → SpmcSerialTaskQueue Q
  add_prop q prop = record q {
    all_props = q.all_props ++ (prop ∷ []);
    can_pop = set_flag q.can_pop (length q.all_props) true;
    wait_tasks = elim (lookup prop q.wait_tasks) [
      | none ↦ insert prop ops.no_items q.wait_tasks
      | some queue ↦ q.wait_tasks
    ];
    single_task_count = elim (lookup prop q.single_task_count) [
      | none ↦ insert prop 0 q.single_task_count
      | some n ↦ q.single_task_count
    ];
  }

  pub add_props : SpmcSerialTaskQueue Q → List ℕ → SpmcSerialTaskQueue Q
  unfolding add_prop
  add_props q [] = q
  add_props q (prop ∷ props) = add_props (add_prop q prop) props

  pub reset_props : SpmcSerialTaskQueue Q → List ℕ → SpmcSerialTaskQueue Q
  unfolding add_props
  reset_props q props = add_props (record q { cur_props_index = 0 }) props

  -- `m_wait_tasks[prop]`, which makes an empty queue for a new property.
  pub queue_of : SpmcSerialTaskQueue Q → ℕ → Q
  queue_of q prop = elim (lookup prop q.wait_tasks) [ none ↦ ops.no_items | some queue ↦ queue ]

  pub not_full : SpmcSerialTaskQueue Q → ℕ → Bool
  unfolding count_of
  not_full q prop =
      q.max_single_task_count == 0
      || ltb (widen (count_of q.single_task_count prop)) q.max_single_task_count

  pub dequeue : SpmcSerialTaskQueue Q → ℕ → Option (ℕ × Q) → SpmcSerialTaskQueue Q × Option Stage
  dequeue q prop none = (q, some releases)
  dequeue q prop (some (task, rest)) =
      (record q { wait_tasks = insert prop rest q.wait_tasks }, some (looks task))

  -- The loop of `pop_task`, one step at a time, and the release at its end.
  pub hold : SpmcSerialTaskQueue Q → ℕ → ℕ → Stage → SpmcSerialTaskQueue Q × Option Stage
  unfolding queue_of dequeue count_of
  hold q place prop takes = dequeue q prop (ops.try_dequeue (queue_of q prop))
  hold q place prop (looks task) = (q, some (if q.clearing then zeroes else decrements task))
  hold q place prop zeroes = (record q { approx_size = 0 }, some zeroes_single)
  hold q place prop zeroes_single =
      (record q { single_task_count = insert prop 0 q.single_task_count }, some releases)
  hold q place prop (decrements task) =
      (record q { approx_size = decrement q.approx_size }, some (decrements_single task))
  hold q place prop (decrements_single task) = (
    record q {
      single_task_count =
          insert prop (decrement (count_of q.single_task_count prop)) q.single_task_count;
    },
    some (runs task),
  )
  hold q place prop (runs task) = (q, some takes)
  hold q place prop releases = (record q { can_pop = set_flag q.can_pop place true }, none)

  -- What the holder of a property goes on with.
  pub held : ℕ → ℕ → SpmcSerialTaskQueue Q × Option Stage → SpmcSerialTaskQueue Q × Option Call
  held place prop (q, none) = (q, none)
  held place prop (q, some stage) = (q, some (pop_holds place prop stage))

  -- The exchange of `can_pop_`.
  pub claim : SpmcSerialTaskQueue Q → ℕ → ℕ → SpmcSerialTaskQueue Q × Option Call
  claim q place prop =
      if q.can_pop place
      then (
        record q { can_pop = set_flag q.can_pop place false },
        some (pop_holds place prop takes),
      )
      else (q, none)

  -- The property whose turn it is; with none registered the remainder is by 0, and the call is dropped.
  pub turn : SpmcSerialTaskQueue Q → SpmcSerialTaskQueue Q × Option Call
  turn q =
      let place = q.cur_props_index % length q.all_props in
      elim (get_elem? q.all_props place) [
        | none ↦ (q, none)
        | some prop ↦ (
          record q { cur_props_index = (q.cur_props_index + 1) % 2 ^ 64 },
          some (pop_claims place prop),
        )
      ]

  -- The inner loop of `clear_inner` over the queues, one item at a time.
  pub drain :
      SpmcSerialTaskQueue Q → ℕ → List ℕ → Option (ℕ × Q) → SpmcSerialTaskQueue Q × Option Call
  drain q prop props none = (q, some (clear_drains props))
  drain q prop props (some (task, rest)) =
      (record q { wait_tasks = insert prop rest q.wait_tasks }, some (clear_drains (prop ∷ props)))

  -- One step of a call, and what is left of it.
  pub move : SpmcSerialTaskQueue Q → Call → SpmcSerialTaskQueue Q × Option Call
  unfolding not_full queue_of hold held claim turn drain count_of
  move q (add_loads prop x) = (q, if q.stopped then none else some (add_guards prop x))
  move q (add_guards prop x) =
      (q, if not (not_full q prop) then none else some (add_enqueues prop x))
  move q (add_enqueues prop x) = (
    record q { wait_tasks = insert prop (ops.enqueue (queue_of q prop) x) q.wait_tasks },
    some (add_looks prop),
  )
  move q (add_looks prop) = (q, some (if q.clearing then add_zeroes prop else add_counts prop))
  move q (add_zeroes prop) = (record q { approx_size = 0 }, some (add_zeroes_single prop))
  move q (add_zeroes_single prop) =
      (record q { single_task_count = insert prop 0 q.single_task_count }, none)
  move q (add_counts prop) =
      (record q { approx_size = increment q.approx_size }, some (add_counts_single prop))
  move q (add_counts_single prop) = (
    record q {
      single_task_count =
          insert prop (increment (count_of q.single_task_count prop)) q.single_task_count;
    },
    none,
  )
  move q pop_loads_clear = (q, if q.clearing then none else some pop_loads_size)
  move q pop_loads_size =
      (q, if ltb 0 q.approx_size && ltb q.approx_size (2 ^ 31) then some pop_indexes else none)
  move q pop_indexes = turn q
  move q (pop_claims place prop) = claim q place prop
  move q (pop_holds place prop stage) = held place prop (hold q place prop stage)
  move q start_swaps = (record q { stopped = false }, none)
  move q (stop_swaps bwait) =
      (record q { stopped = true }, if q.stopped || bwait then none else some clear_sets)
  move q clear_sets = (record q { clearing = true }, some (clear_blocks 0 (length q.all_props)))
  move q (clear_blocks place zero) = (q, some (clear_drains (keys q.wait_tasks)))
  move q (clear_blocks place (suc left)) =
      (record q { can_pop = set_flag q.can_pop place false }, some (clear_blocks (suc place) left))
  move q (clear_drains []) = (q, some (clear_counts (keys q.single_task_count)))
  move q (clear_drains (prop ∷ props)) = drain q prop props (ops.try_dequeue (queue_of q prop))
  move q (clear_counts []) = (q, some clear_index)
  move q (clear_counts (prop ∷ props)) = (
    record q { single_task_count = insert prop 0 q.single_task_count },
    some (clear_counts props),
  )
  move q clear_index = (record q { cur_props_index = 0 }, some (clear_opens 0 (length q.all_props)))
  move q (clear_opens place zero) = (q, some clear_size)
  move q (clear_opens place (suc left)) =
      (record q { can_pop = set_flag q.can_pop place true }, some (clear_opens (suc place) left))
  move q clear_size = (record q { approx_size = 0 }, none)
