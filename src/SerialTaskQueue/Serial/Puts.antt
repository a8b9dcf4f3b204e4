-- ===== src/SerialTaskQueue/Serial/Puts.antt =====
-- `add_task` keeps the invariant, for a task that is not empty.
use btool.Common.{
  ℕ, suc, ◌<◌, ◌≡◌, refl, sym, ap, ◌∙◌, Bool, true, false, not, ◌&&◌, List, [], ◌∷◌, ◌++◌, some,
  ◌==◌, if◌then◌else◌, length, length-append, append_assoc, arith,
}
use btool.Common.Assoc.{
  contains, count, lookup, keys, lookup-insert, count-keys-insert, contains-count, count-contains,
}
use btool.PropCountNodeList.Refine.{Run, has_run}
use btool.LastTaskQueue.{TaskItem}
use btool.SerialTaskQueue.{tasks_of, drop_front, put_task}
use btool.SerialTaskQueue.Threads.{System}
use btool.SerialTaskQueue.Runs.{run_list, has_run-total, push_run-Pushes, marked-push_run}
use btool.SerialTaskQueue.Serial.{
  IsSerial, IsSerialAt, history, history-append, waiting, all_real, all_real-append, unless_empty,
  tasks_of-insert,
}

module _ (p t : ℕ) (s : System (List Run)) (h : IsSerial s) where
  abbrev tasks : List TaskItem
  tasks = tasks_of p s.shared.wait_tasks

  abbrev is_first : Bool
  is_first = not (contains p s.shared.cur_props) && (length (tasks ++ some t ∷ []) == 1)

  abbrev pub put : System (List Run)
  put = record s {
    shared = put_task run_list p (some t) s.shared;
    accepted = s.accepted ++ (p, some t) ∷ [];
  }

  length-tasks : length (tasks ++ some t ∷ []) ≡ suc (length tasks)
  length-tasks = ground (arith, length-append tasks (some t ∷ []))

  first_marks :
      has_run p s.shared.wait_props ≡ false → is_first ≡ not (contains p s.shared.cur_props)
  first_marks e = ground (
    arith,
    e,
    length-tasks,
    has_run-total p s.shared.wait_props h.full,
    (h.serial_at p).counted,
    contains-count p s.shared.cur_props,
  )

  put_tasks :
      (q : ℕ)
      → tasks_of q put.shared.wait_tasks
        ≡ (if p == q then tasks ++ some t ∷ [] else tasks_of q s.shared.wait_tasks)
  unfolding put_task
  put_tasks q = tasks_of-insert p q (tasks ++ some t ∷ []) s.shared.wait_tasks

  unless_empty-append :
      (fs : List TaskItem) → unless_empty (fs ++ some t ∷ []) ≡ some (fs ++ some t ∷ [])
  unless_empty-append [] = refl
  unless_empty-append (f ∷ fs) = refl

  put_kept :
      (q : ℕ) → lookup q put.shared.wait_tasks ≡ unless_empty (tasks_of q put.shared.wait_tasks)
  unfolding put_task
  put_kept q = ground (
    arith,
    ap unless_empty (put_tasks q),
    lookup-insert p q (tasks ++ some t ∷ []) s.shared.wait_tasks,
    unless_empty-append tasks,
    (h.serial_at q).kept,
  )

  drop_front-append :
      (fs : List TaskItem)
      → 0 < length fs
      → drop_front (fs ++ some t ∷ []) ≡ drop_front fs ++ some t ∷ []
  drop_front-append [] n = absurd (omega (arith, n))
  drop_front-append (f ∷ fs) n = refl

  some_task : contains p s.shared.cur_props ≡ true → 0 < length tasks
  some_task c = ground (arith, c, count-contains p s.shared.cur_props, (h.serial_at p).counted)

  put_waiting :
      (q : ℕ)
      → waiting q put.shared
        ≡ (if p == q then waiting q s.shared ++ some t ∷ [] else waiting q s.shared)
  unfolding put_task
  put_waiting q = ground (
    arith,
    put_tasks q,
    ap drop_front (put_tasks q),
    drop_front-append tasks,
    some_task,
    ap (λ k. tasks_of k s.shared.wait_tasks) {x = p} {y = q},
  )

  put_history : (q : ℕ) → history q put.accepted ≡ history q s.taken ++ waiting q put.shared
  put_history q = ground (
    arith,
    history-append q p (some t) s.accepted,
    (h.serial_at q).ordered,
    ap (λ fs. history q s.taken ++ fs) (put_waiting q),
    append_assoc (history q s.taken) (waiting q s.shared) (some t ∷ []),
  )

  put-IsSerialAt : (q : ℕ) → IsSerialAt q put
  unfolding put_task
  put-IsSerialAt q =
      let at = h.serial_at q in
      record {
        counted = ground (
          arith,
          at.counted,
          ap length (put_tasks q),
          length-tasks,
          (push_run-Pushes p is_first s.shared.wait_props).total_more q,
          ap (λ k. tasks_of k s.shared.wait_tasks) {x = p} {y = q},
        );
        kept = put_kept q;
        distinct = ground (
          arith,
          at.distinct,
          count-keys-insert p q (tasks ++ some t ∷ []) s.shared.wait_tasks,
          contains-count p (keys s.shared.wait_tasks),
          ap (λ k. count k (keys s.shared.wait_tasks)) {x = p} {y = q},
        );
        marks =
            marked-push_run (not (contains q s.shared.cur_props)) q p is_first s.shared.wait_props
              at.marks
              (λ e n. first_marks n ∙ ap (λ k. not (contains k s.shared.cur_props)) (sym e));
        runs = at.runs;
        once = at.once;
        ordered = put_history q;
        real =
            ground
              (arith, at.real, ap all_real (put_waiting q), all_real-append (waiting q s.shared) t);
      }

  pub put-IsSerial : IsSerial put
  unfolding put_task
  put-IsSerial = record {
    serial_at = put-IsSerialAt;
    full = (push_run-Pushes p is_first s.shared.wait_props).nonzero_more h.full;
    sized = ground (arith, h.sized, (push_run-Pushes p is_first s.shared.wait_props).all_more);
    unfailed = h.unfailed;
  }
