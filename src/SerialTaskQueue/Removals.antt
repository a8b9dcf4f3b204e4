-- ===== src/SerialTaskQueue/Removals.antt =====
-- What `remove_prop` and `clear` do to a property that runs.
use btool.Common.{
  ℕ, ◌+◌, ◌%◌, ◌^◌, ◌≡◌, refl, ap, ◌∙◌, not, ◌&&◌, List, [], ◌∷◌, ◌++◌, none, some, ◌==◌,
  if◌then◌else◌, length, arith,
}
use btool.Common.Assoc.{contains, lookup, insert, erase, lookup-insert}
use btool.PropCountNodeList.Refine.{Run, drop_runs}
use btool.SerialTaskQueue.{
  SerialTaskQueue, tasks_of, drop_front, put_task, finish_locked, remove_prop,
}
use btool.SerialTaskQueue.Runs.{run_list, total, push_run-Pushes}
use btool.SerialTaskQueue.Runs.Pops.{reset_run-Resets}
use btool.SerialTaskQueue.Serial.{tasks_of-erase}

total-drop_runs : (p : ℕ) (rs : List Run) → total p (drop_runs p rs) ≡ 0
unfolding total drop_runs
total-drop_runs p [] = refl
total-drop_runs p (r ∷ rs) = ground (arith, total-drop_runs p rs)

module _ (p t : ℕ) (q : SerialTaskQueue (List Run)) where
  abbrev pub readded : SerialTaskQueue (List Run)
  readded = put_task run_list p (some t) (remove_prop run_list p q)

  abbrev pub ended : SerialTaskQueue (List Run)
  ended = finish_locked run_list p readded

  readded_look : lookup p readded.wait_tasks ≡ some (some t ∷ [])
  unfolding put_task remove_prop
  readded_look = ground (
    arith,
    tasks_of-erase p p q.wait_tasks,
    lookup-insert p p (tasks_of p (erase p q.wait_tasks) ++ some t ∷ []) (erase p q.wait_tasks),
    ap (λ ts. some (ts ++ some t ∷ [])) (tasks_of-erase p p q.wait_tasks),
  )

  ended_all : ended.wait_tasks ≡ erase p readded.wait_tasks
  unfolding finish_locked
  ended_all =
      ap
        (λ o. elim o [
          | none ↦ readded.wait_tasks
          | some ts ↦
              if length (drop_front ts) == 0
              then erase p readded.wait_tasks
              else insert p (drop_front ts) readded.wait_tasks
        ])
        readded_look

  readded_total : total p readded.wait_props ≡ 1
  unfolding put_task remove_prop
  readded_total = ground (
    arith,
    (push_run-Pushes p
          (not (contains p q.cur_props)
            && (length (tasks_of p (erase p q.wait_tasks) ++ some t ∷ []) == 1))
          (drop_runs p q.wait_props)).total_more
        p,
    total-drop_runs p q.wait_props,
  )

  -- When a task ends whose property was removed while it ran, it takes the first task out that was added since,
  -- which is not run, and the list keeps the place of that task: a place for which there is no task. Nor is the
  -- number of tasks made less by the removal.
  pub finish_loses :
      (tasks_of p ended.wait_tasks ≡ [])
      × (total p ended.wait_props ≡ 1)
      × (ended.approx_size ≡ (q.approx_size + 1) % 2 ^ 64)
  unfolding finish_locked put_task remove_prop
  finish_loses = (
    ground (arith, ap (tasks_of p) ended_all, tasks_of-erase p p readded.wait_tasks),
    (reset_run-Resets p readded.wait_props).total_same p ∙ readded_total,
    refl,
  )
