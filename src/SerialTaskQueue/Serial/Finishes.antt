-- ===== src/SerialTaskQueue/Serial/Finishes.antt =====
-- The end of a task of `pop_task` keeps the invariant: its property may be taken again.
use btool.Common.{
  ℕ, ◌-◌, ◌%◌, ◌^◌, ◌≤◌, ◌≡◌, ◌≢◌, refl, sym, ap, ◌∙◌, subst, true, false, not, List, [], ◌∷◌, ◌++◌,
  none, some, ◌==◌, if◌then◌else◌, length, arith,
}
use native.Mathlib.Decide.{ℕ_discrete}
use btool.Common.Assoc.{
  contains, count, remove, lookup, keys, insert, erase, lookup-insert, lookup-erase,
  count-keys-insert, count-keys-erase, contains-count, count-contains, count-remove,
}
use btool.PropCountNodeList.Refine.{Run, reset_run}
use btool.LastTaskQueue.{TaskItem, extract}
use btool.LastTaskQueue.Exclusion.{extract-count}
use btool.SerialTaskQueue.{tasks_of, drop_front, finish_locked}
use btool.SerialTaskQueue.Threads.{System}
use btool.SerialTaskQueue.Runs.{run_list, total, marked}
use btool.SerialTaskQueue.Runs.Pops.{Resets, reset_run-Resets}
use btool.SerialTaskQueue.Serial.{
  IsSerial, IsSerialAt, history, waiting, all_real, unless_empty, tasks_of-insert, tasks_of-erase,
}

length-drop_front : (ts : List TaskItem) → length (drop_front ts) ≡ length ts - 1
length-drop_front [] = refl
length-drop_front (f ∷ fs) = ground arith

module _ (i p t : ℕ) (rest : List (ℕ × ℕ)) (s : System (List Run)) (h : IsSerial s)
    (found : extract i s.running ≡ some ((p, t), rest)) where
  abbrev tasks : List TaskItem
  tasks = tasks_of p s.shared.wait_tasks

  abbrev pub ended : System (List Run)
  ended = record s { shared = finish_locked run_list p s.shared; running = rest }

  runs_now : count p s.shared.cur_props ≡ 1
  runs_now = ground (
    arith,
    extract-count s.running i p t rest p found,
    (h.serial_at p).runs,
    (h.serial_at p).once,
  )

  busy : contains p s.shared.cur_props ≡ true
  busy = ground (arith, runs_now, contains-count p s.shared.cur_props)

  resets : Resets p s.shared.wait_props (reset_run p s.shared.wait_props)
  resets = reset_run-Resets p s.shared.wait_props

  -- What stays of the tasks of the property.
  shorter :
      (ts : List TaskItem)
      → lookup p s.shared.wait_tasks ≡ unless_empty ts
      → ts ≢ []
      → ended.shared.wait_tasks ≡ (
          if length (drop_front ts) == 0
          then erase p s.shared.wait_tasks
          else insert p (drop_front ts) s.shared.wait_tasks)
  unfolding finish_locked
  shorter [] e n = absurd (n refl)
  shorter (f ∷ fs) e n =
      ap
        (λ o. elim o [
          | none ↦ s.shared.wait_tasks
          | some ts ↦
              if length (drop_front ts) == 0
              then erase p s.shared.wait_tasks
              else insert p (drop_front ts) s.shared.wait_tasks
        ])
        e

  ended_all : ended.shared.wait_tasks ≡ (
      if length (drop_front tasks) == 0
      then erase p s.shared.wait_tasks
      else insert p (drop_front tasks) s.shared.wait_tasks)
  ended_all =
      shorter tasks (h.serial_at p).kept
        (λ e. ground (arith, ap length e, (h.serial_at p).counted, runs_now))

  ended_cur : ended.shared.cur_props ≡ remove p s.shared.cur_props
  unfolding finish_locked
  ended_cur = refl

  ended_props : ended.shared.wait_props ≡ reset_run p s.shared.wait_props
  unfolding finish_locked
  ended_props = refl

  ended_tasks :
      (q : ℕ)
      → tasks_of q ended.shared.wait_tasks
        ≡ (if p == q then drop_front tasks else tasks_of q s.shared.wait_tasks)
  ended_tasks q = ap (tasks_of q) ended_all ∙ by_length (drop_front tasks)
    where
      by_length :
          (ts : List TaskItem)
          → tasks_of q (
              if length ts == 0
              then erase p s.shared.wait_tasks
              else insert p ts s.shared.wait_tasks)
            ≡ (if p == q then ts else tasks_of q s.shared.wait_tasks)
      by_length [] = tasks_of-erase p q s.shared.wait_tasks
      by_length (f ∷ fs) = ground (arith, tasks_of-insert p q (f ∷ fs) s.shared.wait_tasks)

  ended_kept :
      (q : ℕ) → lookup q ended.shared.wait_tasks ≡ unless_empty (tasks_of q ended.shared.wait_tasks)
  ended_kept q =
      ap (lookup q) ended_all ∙ by_length (drop_front tasks) ∙ ap unless_empty (sym (ended_tasks q))
    where
      by_length :
          (ts : List TaskItem)
          → lookup q (
              if length ts == 0
              then erase p s.shared.wait_tasks
              else insert p ts s.shared.wait_tasks)
            ≡ unless_empty (if p == q then ts else tasks_of q s.shared.wait_tasks)
      by_length [] = ground (arith, lookup-erase p q s.shared.wait_tasks, (h.serial_at q).kept)
      by_length (f ∷ fs) =
          ground (arith, lookup-insert p q (f ∷ fs) s.shared.wait_tasks, (h.serial_at q).kept)

  ended_distinct : (q : ℕ) → count q (keys ended.shared.wait_tasks) ≤ 1
  ended_distinct q =
      subst (λ ts. count q (keys ts) ≤ 1) (sym ended_all)
        (ground (
          arith,
          (h.serial_at q).distinct,
          count-keys-erase p q s.shared.wait_tasks,
          count-keys-insert p q (drop_front tasks) s.shared.wait_tasks,
          contains-count p (keys s.shared.wait_tasks),
          ap (λ k. count k (keys s.shared.wait_tasks)) {x = p} {y = q},
        ))

  ended_busy :
      (q : ℕ)
      → contains q ended.shared.cur_props
        ≡ (if p == q then false else contains q s.shared.cur_props)
  ended_busy q =
      ap (contains q) ended_cur
      ∙ ground (
        arith,
        count-remove p q s.shared.cur_props,
        count-contains q (remove p s.shared.cur_props),
        contains-count q (remove p s.shared.cur_props),
        contains-count q s.shared.cur_props,
        count-contains q s.shared.cur_props,
      )

  ended_waiting : (q : ℕ) → waiting q ended.shared ≡ waiting q s.shared
  ended_waiting q =
      ground
        (arith, ended_busy q, ended_tasks q, busy, ap (λ k. waiting k s.shared) {x = p} {y = q})

  ended_marks :
      (q : ℕ) → marked (not (contains q ended.shared.cur_props)) q ended.shared.wait_props ≡ true
  ended_marks q = elim (ℕ_discrete q p) [
    | yes e ↦
        ap (λ b. marked (not b) q ended.shared.wait_props) {x = contains q ended.shared.cur_props}
          {y = false} (ground (arith, ended_busy q, e))
        ∙ ap (λ k. marked true k ended.shared.wait_props) e
        ∙ ap (marked true p) ended_props
        ∙ resets.marked_first
            (ap (λ b. marked (not b) p s.shared.wait_props) (sym busy) ∙ (h.serial_at p).marks)
    | no n ↦
        ap (λ b. marked (not b) q ended.shared.wait_props) {x = contains q ended.shared.cur_props}
          {y = contains q s.shared.cur_props} (ground (arith, ended_busy q, n))
        ∙ ap (marked (not (contains q s.shared.cur_props)) q) ended_props
        ∙ resets.marked_rest (not (contains q s.shared.cur_props)) q n
        ∙ (h.serial_at q).marks
  ]

  ended-IsSerialAt : (q : ℕ) → IsSerialAt q ended
  ended-IsSerialAt q =
      let at = h.serial_at q in
      record {
        counted = ground (
          arith,
          at.counted,
          ap length (ended_tasks q),
          length-drop_front tasks,
          (h.serial_at p).counted,
          ap (total q) ended_props,
          resets.total_same q,
          ap (count q) ended_cur,
          count-remove p q s.shared.cur_props,
          runs_now,
          ap (λ k. total k s.shared.wait_props) {x = p} {y = q},
        );
        kept = ended_kept q;
        distinct = ended_distinct q;
        marks = ended_marks q;
        runs = ground (
          arith,
          at.runs,
          ap (count q) ended_cur,
          count-remove p q s.shared.cur_props,
          extract-count s.running i p t rest q found,
          at.once,
        );
        once = ground (arith, at.once, ap (count q) ended_cur, count-remove p q s.shared.cur_props);
        ordered = at.ordered ∙ ap (λ ts. history q s.taken ++ ts) (sym (ended_waiting q));
        real = ap all_real (ended_waiting q) ∙ at.real;
      }

  pub ended-IsSerial : IsSerial ended
  unfolding finish_locked
  ended-IsSerial = record {
    serial_at = ended-IsSerialAt;
    full = resets.nonzero_same ∙ h.full;
    sized = h.sized ∙ ap (λ n. n % 2 ^ 64) (sym resets.all_same);
    unfailed = h.unfailed;
  }
