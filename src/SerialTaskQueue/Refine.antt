-- ===== src/SerialTaskQueue/Refine.antt =====
-- A queue over a list that simulates another behaves as a queue over that other: in particular a queue over
-- the nodes of `PropCountNodeList` as one over its runs.
pub mod Adds
pub mod Steps
pub mod Nodes
pub mod Course
use btool.Common.{
  ℕ, suc, ◌+◌, ◌-◌, ◌%◌, ◌^◌, ◌≡◌, refl, sym, ap, ◌∙◌, subst, Bool, true, false, not, ◌&&◌, ◌||◌,
  List, [], ◌∷◌, ◌++◌, Option, none, some, ltb, ◌==◌, if◌then◌else◌, length,
}
use btool.Common.Assoc.{contains}
use btool.LastTaskQueue.{TaskItem, extract}
use btool.SerialTaskQueue.{
  PropList, SerialTaskQueue, Popped, waits, leaves, asserts, takes, tasks_of, front, init, not_full,
  not_empty, clear_inner, start, stop, put_task, add_fast, add_slow, take_prop, take_found,
  pop_locked, finish_locked, remove_prop,
}
use btool.SerialTaskQueue.Threads.{
  System, Action, enters, misses, adds_fast, adds_slow, pops, finishes, starts, stops, removes,
  clears, boot, accept, accept_slow, enter, miss, go_fast, go_slow, hold, finish, step, run,
}

pub Matched : {S T : Type 0} → (S → T → Type 0) → Option (ℕ × S) → Option (ℕ × T) → Type 0
Matched R none none = Unit
Matched R none (some y) = ⊥
Matched R (some x) none = ⊥
Matched R (some (p, s)) (some (q, t)) = (p ≡ q) × R s t

pub record Simulates {S T : Type 0} (o : PropList S) (o' : PropList T) (R : S → T → Type 0)
    : Type 0 where
  pub pushes :
      (p : ℕ) (c : Bool) (s : S) (t : T) → R s t → R (o.push_back p c s) (o'.push_back p c t)
  pub pops_same : (s : S) (t : T) → R s t → Matched R (o.pop_front s) (o'.pop_front t)
  pub resets : (p : ℕ) (s : S) (t : T) → R s t → R (o.reset_prop p s) (o'.reset_prop p t)
  pub drops : (p : ℕ) (s : S) (t : T) → R s t → R (o.remove_prop p s) (o'.remove_prop p t)
  pub cleared : (s : S) (t : T) → R s t → R (o.clear s) (o'.clear t)

-- The same queue, and the same threads, over another list.
abbrev pub queue_over : {S T : Type 0} → SerialTaskQueue S → T → SerialTaskQueue T
queue_over q t = record {
  stopped = q.stopped;
  approx_size = q.approx_size;
  max_task_count = q.max_task_count;
  wait_props = t;
  wait_tasks = q.wait_tasks;
  cur_props = q.cur_props;
}

abbrev pub over : {S T : Type 0} → System S → T → System T
over s t = record {
  shared = queue_over s.shared t;
  fast = s.fast;
  slow = s.slow;
  running = s.running;
  accepted = s.accepted;
  taken = s.taken;
  failed = s.failed;
}

pub Follows : {S T : Type 0} → (S → T → Type 0) → System S → System T → Type 0
Follows R s t = R s.shared.wait_props t.shared.wait_props × (over s t.shared.wait_props ≡ t)
