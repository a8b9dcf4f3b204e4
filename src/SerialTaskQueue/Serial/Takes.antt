-- ===== src/SerialTaskQueue/Serial/Takes.antt =====
-- `pop_task` takes the first waiting task of a property of which none runs, and keeps the invariant.
use btool.Common.{
  ℕ, ◌≡◌, refl, ap, ◌∙◌, true, false, not, List, [], ◌∷◌, ◌++◌, none, some, ◌==◌, if◌then◌else◌,
  length, append_assoc, arith,
}
use native.Mathlib.Decide.{ℕ_discrete}
use btool.Common.Assoc.{
  contains, count, lookup, keys, insert, lookup-insert, count-keys-insert, contains-count,
}
use btool.PropCountNodeList.Refine.{Run, pop_run}
use btool.LastTaskQueue.{TaskItem}
use btool.SerialTaskQueue.{tasks_of, drop_front, move_front, take_prop}
use btool.SerialTaskQueue.Threads.{System}
use btool.SerialTaskQueue.Runs.{run_list, total, marked}
use btool.SerialTaskQueue.Runs.Pops.{Pops, pop_run-Pops}
use btool.SerialTaskQueue.Serial.{
  IsSerial, IsSerialAt, history, history-append, waiting, all_real, unless_empty, tasks_of-insert,
}

module _ (p : ℕ) (left : List Run) (s : System (List Run)) (h : IsSerial s)
    (found : pop_run s.shared.wait_props ≡ some (p, left)) where
  abbrev tasks : List TaskItem
  tasks = tasks_of p s.shared.wait_tasks

  pops : Pops p s.shared.wait_props left
  pops = pop_run-Pops p s.shared.wait_props left h.full found

  pub idle : contains p s.shared.cur_props ≡ false
  idle =
      ground
        (arith, (pops.marked_own (not (contains p s.shared.cur_props)) (h.serial_at p).marks).0)

  -- The property has a task that waits, which is not empty.
  pub first_task : (t : ℕ) × (fs : List TaskItem) × (tasks ≡ some t ∷ fs)
  unfolding all_real
  first_task = of_tasks tasks refl
    where
      of_tasks :
          (ts : List TaskItem) → tasks ≡ ts → (t : ℕ) × (fs : List TaskItem) × (ts ≡ some t ∷ fs)
      of_tasks [] e =
          absurd (ground (arith, ap length e, (h.serial_at p).counted, pops.total_left p))
      of_tasks (none ∷ fs) e = absurd (ground (arith, (h.serial_at p).real, idle, ap all_real e))
      of_tasks (some t ∷ fs) e = (t, fs, refl)

  module _ (t : ℕ) (fs : List TaskItem) (e : tasks ≡ some t ∷ fs) where
    abbrev pub took : System (List Run)
    took = record s {
      shared = take_prop run_list p left s.shared;
      running = (p, t) ∷ s.running;
      taken = s.taken ++ (p, some t) ∷ [];
    }

    look : lookup p s.shared.wait_tasks ≡ some (some t ∷ fs)
    look = (h.serial_at p).kept ∙ ap unless_empty e

    took_all : took.shared.wait_tasks ≡ insert p (none ∷ fs) s.shared.wait_tasks
    unfolding take_prop
    took_all =
        ap
          (λ o. elim o [
            | none ↦ s.shared.wait_tasks
            | some ts ↦ insert p (move_front ts) s.shared.wait_tasks
          ])
          look

    took_props : took.shared.wait_props ≡ left
    unfolding take_prop
    took_props = refl

    took_cur : took.shared.cur_props ≡ p ∷ s.shared.cur_props
    unfolding take_prop
    took_cur = rw (idle) refl

    took_tasks :
        (q : ℕ)
        → tasks_of q took.shared.wait_tasks
          ≡ (if p == q then none ∷ fs else tasks_of q s.shared.wait_tasks)
    took_tasks q = ap (tasks_of q) took_all ∙ tasks_of-insert p q (none ∷ fs) s.shared.wait_tasks

    took_waiting : (q : ℕ) → waiting q took.shared ≡ (if p == q then fs else waiting q s.shared)
    unfolding contains
    took_waiting q =
        ground (arith, ap (contains q) took_cur, took_tasks q, ap drop_front (took_tasks q))

    waiting_before : waiting p s.shared ≡ some t ∷ fs
    waiting_before = ground (arith, idle, e)

    took_history : (q : ℕ) → history q s.accepted ≡ history q took.taken ++ waiting q took.shared
    took_history q = ground (
      arith,
      (h.serial_at q).ordered,
      history-append q p (some t) s.taken,
      ap (λ ts. history q took.taken ++ ts) (took_waiting q),
      append_assoc (history q s.taken) (some t ∷ []) fs,
      waiting_before,
      ap (λ k. waiting k s.shared) {x = p} {y = q},
    )

    took_marks :
        (q : ℕ) → marked (not (contains q took.shared.cur_props)) q took.shared.wait_props ≡ true
    unfolding contains take_prop
    took_marks q = elim (ℕ_discrete q p) [
      | yes i ↦
          ap (λ b. marked (not b) q left) {x = contains q took.shared.cur_props} {y = true}
            (ground (arith, idle, i))
          ∙ ap (λ k. marked false k left) i
          ∙ (pops.marked_own (not (contains p s.shared.cur_props)) (h.serial_at p).marks).1
      | no n ↦
          ap (λ b. marked (not b) q left) {x = contains q took.shared.cur_props}
            {y = contains q s.shared.cur_props} (ground (arith, idle, n))
          ∙ pops.marked_other (not (contains q s.shared.cur_props)) q n
          ∙ (h.serial_at q).marks
    ]

    took-IsSerialAt : (q : ℕ) → IsSerialAt q took
    unfolding count keys contains all_real
    took-IsSerialAt q =
        let at = h.serial_at q in
        record {
          counted = ground (
            arith,
            at.counted,
            ap length (took_tasks q),
            ap (total q) took_props,
            ap (count q) took_cur,
            pops.total_left q,
            ap length e,
            ap (λ k. length (tasks_of k s.shared.wait_tasks)) {x = p} {y = q},
          );
          kept = ground (
            arith,
            ap unless_empty (took_tasks q),
            ap (lookup q) took_all,
            lookup-insert p q (none ∷ fs) s.shared.wait_tasks,
            at.kept,
          );
          distinct = ground (
            arith,
            at.distinct,
            ap (λ ts. count q (keys ts)) took_all,
            count-keys-insert p q (none ∷ fs) s.shared.wait_tasks,
            contains-count p (keys s.shared.wait_tasks),
            ap (λ k. count k (keys s.shared.wait_tasks)) {x = p} {y = q},
          );
          marks = took_marks q;
          runs = ground (arith, at.runs, ap (count q) took_cur);
          once = ground (
            arith,
            at.once,
            ap (count q) took_cur,
            contains-count p s.shared.cur_props,
            idle,
            ap (λ k. count k s.shared.cur_props) {x = p} {y = q},
          );
          ordered = took_history q;
          real = ground (
            arith,
            at.real,
            ap all_real (took_waiting q),
            (h.serial_at p).real,
            ap all_real waiting_before,
          );
        }

    pub took-IsSerial : IsSerial took
    unfolding take_prop
    took-IsSerial = record {
      serial_at = took-IsSerialAt;
      full = pops.nonzero_left;
      sized = ground (arith, h.sized, pops.all_left);
      unfailed = h.unfailed;
    }
