-- ===== src/SerialTaskQueue.antt =====
-- `SerialTaskQueue` of task_queue.hpp: the tasks of one property run one after another, in the order in which
-- they were added, and tasks of different properties may run at once. The order of the properties is kept in a
-- `PropCountNodeList`, of which the queue uses five operations: the record `PropList`. A critical section is one
-- function. `add_task` has two paths: the fast one looks at the number of tasks before it has the mutex and not
-- again, so that `add_fast` may find the queue full. `pop_task` has two critical sections, before and after the
-- task runs.
pub mod Threads
pub mod Runs
pub mod Serial
pub mod Refine
pub mod Removals
mod Tests
use btool.Common.{
  ℕ, zero, suc, ◌+◌, ◌-◌, ◌%◌, ◌^◌, Bool, true, false, not, ◌&&◌, ◌||◌, List, [], ◌∷◌, ◌++◌, Option,
  none, some, ltb, ◌==◌, if◌then◌else◌, length,
}
use btool.Common.Assoc.{contains, remove, lookup, insert, erase}
use btool.LastTaskQueue.{TaskItem, extract}

-- The operations of the list of properties.
pub record PropList (S : Type 0) : Type 0 where
  pub push_back : ℕ → Bool → S → S
  -- `none` where no node may be popped, which is asserted not to be
  pub pop_front : S → Option (ℕ × S)
  pub reset_prop : ℕ → S → S
  pub remove_prop : ℕ → S → S
  pub clear : S → S

pub record SerialTaskQueue (S : Type 0) : Type 0 where
  -- m_bstop
  pub stopped : Bool
  pub approx_size : ℕ
  pub max_task_count : ℕ
  pub wait_props : S
  -- m_wait_tasks: the first task of a property that runs stays there, moved from
  pub wait_tasks : List (ℕ × List TaskItem)
  -- m_cur_props, a set
  pub cur_props : List ℕ

-- What `pop_task` comes to in its first critical section: it waits, finds nothing, fails an assertion, or takes
-- a task of a property.
pub data Popped (S : Type 0) : Type 0 where
  waits : Popped S
  leaves : Popped S
  asserts : Popped S
  takes : SerialTaskQueue S → ℕ → TaskItem → Popped S

abbrev pub tasks_of : ℕ → List (ℕ × List TaskItem) → List TaskItem
tasks_of prop wait_tasks = or_empty (lookup prop wait_tasks)
  where
    or_empty : Option (List TaskItem) → List TaskItem
    or_empty none = []
    or_empty (some tasks) = tasks

abbrev pub front : List TaskItem → TaskItem
front [] = none
front (task ∷ tasks) = task

abbrev pub drop_front : List TaskItem → List TaskItem
drop_front [] = []
drop_front (task ∷ tasks) = tasks

-- `std::move` of the first task leaves an empty one.
abbrev pub move_front : List TaskItem → List TaskItem
move_front [] = []
move_front (task ∷ tasks) = none ∷ tasks

module _ {S : Type 0} (o : PropList S) where
  unfoldable pub init : ℕ → S → SerialTaskQueue S
  init max_task_count props = record {
    stopped = false;
    approx_size = 0;
    max_task_count = max_task_count;
    wait_props = props;
    wait_tasks = [];
    cur_props = [];
  }

  unfoldable pub not_full : SerialTaskQueue S → Bool
  not_full q = q.max_task_count == 0 || ltb q.approx_size q.max_task_count

  unfoldable pub not_empty : SerialTaskQueue S → Bool
  not_empty q = not (length q.wait_tasks == 0) && ltb (length q.cur_props) (length q.wait_tasks)

  unfoldable pub clear_inner : SerialTaskQueue S → SerialTaskQueue S
  clear_inner q = record q { wait_props = o.clear q.wait_props; wait_tasks = []; cur_props = [] }

  unfoldable pub start : SerialTaskQueue S → SerialTaskQueue S
  start q = if q.stopped then record q { stopped = false } else q

  unfoldable pub stop : Bool → SerialTaskQueue S → SerialTaskQueue S
  unfolding clear_inner
  stop bwait q =
      let stopped = record q { stopped = true } in
      if q.stopped then q else if bwait then stopped else clear_inner stopped

  -- The body of `add_task` behind its waits and tests.
  unfoldable pub put_task : ℕ → TaskItem → SerialTaskQueue S → SerialTaskQueue S
  unfolding lookup insert contains
  put_task prop func q =
      let tasks = tasks_of prop q.wait_tasks ++ func ∷ [] in
      let is_first = not (contains prop q.cur_props) && (length tasks == 1) in
      record q {
        approx_size = (q.approx_size + 1) % 2 ^ 64;
        wait_props = o.push_back prop is_first q.wait_props;
        wait_tasks = insert prop tasks q.wait_tasks;
      }

  -- The fast path, once it has the mutex.
  unfoldable pub add_fast : ℕ → TaskItem → SerialTaskQueue S → SerialTaskQueue S × Bool
  unfolding put_task
  add_fast prop func q = if q.stopped then (q, false) else (put_task prop func q, true)

  -- The slow path; `none` while it waits.
  unfoldable pub add_slow : ℕ → TaskItem → SerialTaskQueue S → Option (SerialTaskQueue S × Bool)
  unfolding not_full add_fast
  add_slow prop func q = if q.stopped || not_full q then some (add_fast prop func q) else none

  unfoldable pub take_prop : ℕ → S → SerialTaskQueue S → SerialTaskQueue S
  unfolding lookup insert contains
  take_prop prop props q = record q {
    approx_size = (q.approx_size + (2 ^ 64 - 1)) % 2 ^ 64;
    wait_props = props;
    wait_tasks = elim (lookup prop q.wait_tasks) [
      | none ↦ q.wait_tasks
      | some tasks ↦ insert prop (move_front tasks) q.wait_tasks
    ];
    cur_props = if contains prop q.cur_props then q.cur_props else prop ∷ q.cur_props;
  }

  -- The two assertions of `pop_task`, and what it takes.
  unfoldable pub take_found : Option (ℕ × S) → SerialTaskQueue S → Popped S
  unfolding take_prop lookup contains
  take_found none q = asserts
  take_found (some (prop, props)) q =
      if contains prop q.cur_props
      then asserts
      else takes (take_prop prop props q) prop (front (tasks_of prop q.wait_tasks))

  unfoldable pub pop_locked : SerialTaskQueue S → Popped S
  unfolding not_empty take_found
  pop_locked q =
      if not (q.stopped || not_empty q)
      then waits
      else if not (not_empty q)
      then leaves
      else take_found (o.pop_front q.wait_props) q

  -- The second critical section of `pop_task`, reached only by a task that is not empty.
  unfoldable pub finish_locked : ℕ → SerialTaskQueue S → SerialTaskQueue S
  unfolding lookup insert erase remove
  finish_locked prop q = record q {
    wait_props = o.reset_prop prop q.wait_props;
    wait_tasks = elim (lookup prop q.wait_tasks) [
      | none ↦ q.wait_tasks
      | some tasks ↦
          if length (drop_front tasks) == 0
          then erase prop q.wait_tasks
          else insert prop (drop_front tasks) q.wait_tasks
    ];
    cur_props = remove prop q.cur_props;
  }

  unfoldable pub remove_prop : ℕ → SerialTaskQueue S → SerialTaskQueue S
  unfolding erase
  remove_prop prop q = record q {
    wait_props = o.remove_prop prop q.wait_props;
    wait_tasks = erase prop q.wait_tasks;
  }
