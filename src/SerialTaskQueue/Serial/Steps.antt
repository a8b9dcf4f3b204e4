-- ===== src/SerialTaskQueue/Serial/Steps.antt =====
-- Every action that takes nothing away keeps the invariant.
use btool.Common.{
  ℕ, ◌≡◌, refl, sym, ap, ◌∙◌, subst, Bool, true, false, not, ◌||◌, List, some, if◌then◌else◌, arith,
  Bool-cases, Option-cases, inl, inr,
}
use btool.Common.Assoc.{contains}
use btool.PropCountNodeList.Refine.{Run, pop_run}
use btool.LastTaskQueue.{TaskItem, extract}
use btool.SerialTaskQueue.{
  PropList, SerialTaskQueue, Popped, waits, leaves, takes, tasks_of, front, not_empty, start, stop,
  put_task, add_fast, take_prop, take_found, pop_locked,
}
use btool.SerialTaskQueue.Threads.{System, accept, hold, finish}
use btool.SerialTaskQueue.Runs.{run_list}
use btool.SerialTaskQueue.Serial.{IsSerial}
use btool.SerialTaskQueue.Serial.Stuck.{never_stuck}
use btool.SerialTaskQueue.Serial.Puts.{put-IsSerial}
use btool.SerialTaskQueue.Serial.Takes.{idle, first_task, took-IsSerial}
use btool.SerialTaskQueue.Serial.Finishes.{ended-IsSerial}

pub pop_takes :
    {S : Type 0} (o : PropList S) (q : SerialTaskQueue S) (p : ℕ) (left : S)
    → not_empty o q ≡ true
    → o.pop_front q.wait_props ≡ some (p, left)
    → contains p q.cur_props ≡ false
    → pop_locked o q ≡ takes (take_prop o p left q) p (front (tasks_of p q.wait_tasks))
unfolding pop_locked take_found
pop_takes o q p left n e idle = rw (n, e, idle) ground arith

module _ (s : System (List Run)) (h : IsSerial s) where
  pub flag-IsSerial : (b : Bool) → IsSerial (record s { shared = record s.shared { stopped = b } })
  flag-IsSerial b = record {
    serial_at = λ p.
        let at = h.serial_at p in
        record {
          counted = at.counted;
          kept = at.kept;
          distinct = at.distinct;
          marks = at.marks;
          runs = at.runs;
          once = at.once;
          ordered = at.ordered;
          real = at.real;
        };
    full = h.full;
    sized = h.sized;
    unfailed = h.unfailed;
  }

  -- The invariant is not about the threads of `add_task`.
  pub threads-IsSerial :
      (fast slow : List (ℕ × TaskItem)) → IsSerial (record s { fast = fast; slow = slow })
  threads-IsSerial fast slow = record {
    serial_at = λ p.
        let at = h.serial_at p in
        record {
          counted = at.counted;
          kept = at.kept;
          distinct = at.distinct;
          marks = at.marks;
          runs = at.runs;
          once = at.once;
          ordered = at.ordered;
          real = at.real;
        };
    full = h.full;
    sized = h.sized;
    unfailed = h.unfailed;
  }

  pop_rests :
      not_empty run_list s.shared ≡ false → hold run_list (pop_locked run_list s.shared) s ≡ s
  unfolding pop_locked hold
  pop_rests n = ap (λ b. hold run_list (locked b) s) n ∙ by_stop s.shared.stopped
    where
      locked : Bool → Popped (List Run)
      locked b =
          if not (s.shared.stopped || b)
          then waits
          else if not b
          then leaves
          else take_found run_list (pop_run s.shared.wait_props) s.shared

      by_stop : (b : Bool) → hold run_list (if not (b || false) then waits else leaves) s ≡ s
      by_stop true = refl
      by_stop false = refl

  pub pop-IsSerial : IsSerial (hold run_list (pop_locked run_list s.shared) s)
  unfolding hold
  pop-IsSerial = elim (Bool-cases (not_empty run_list s.shared)) [
    | inr n ↦ subst IsSerial (sym (pop_rests n)) h
    | inl n ↦ elim (Option-cases (pop_run s.shared.wait_props)) [
      | inl e ↦ absurd (never_stuck s h n e)
      | inr ((p, left), e) ↦
          let (t, fs, f) = first_task p left s h e in
          subst IsSerial
            (sym (
              ap (λ r. hold run_list r s)
                (pop_takes run_list s.shared p left n e (idle p left s h e))
              ∙ ap (λ ts. hold run_list (takes (take_prop run_list p left s.shared) p (front ts)) s)
                  f))
            (took-IsSerial p left s h e t fs f)
    ]
  ]

  pub add-IsSerial :
      (p t : ℕ) → IsSerial (accept run_list p (some t) (add_fast run_list p (some t) s.shared) s)
  unfolding add_fast accept
  add-IsSerial p t = elim (Bool-cases s.shared.stopped) [
    | inl e ↦
        subst (λ r. IsSerial (accept run_list p (some t) r s))
          (sym (
            ap (λ b. if b then (s.shared, false) else (put_task run_list p (some t) s.shared, true))
              e))
          h
    | inr e ↦
        subst (λ r. IsSerial (accept run_list p (some t) r s))
          (sym (
            ap (λ b. if b then (s.shared, false) else (put_task run_list p (some t) s.shared, true))
              e))
          (put-IsSerial p t s h)
  ]

  pub finish-IsSerial : (i : ℕ) → IsSerial (finish run_list (extract i s.running) s)
  unfolding finish
  finish-IsSerial i = elim (Option-cases (extract i s.running)) [
    | inl e ↦ subst (λ r. IsSerial (finish run_list r s)) (sym e) h
    | inr (((p, t), rest), e) ↦
        subst (λ r. IsSerial (finish run_list r s)) (sym e) (ended-IsSerial i p t rest s h e)
  ]

  pub start-IsSerial : IsSerial (record s { shared = start run_list s.shared })
  unfolding start
  start-IsSerial = by_flag s.shared.stopped
    where
      by_flag :
          (b : Bool)
          → IsSerial
              (record s { shared = if b then record s.shared { stopped = false } else s.shared })
      by_flag true = flag-IsSerial false
      by_flag false = h

  pub stop-IsSerial : IsSerial (record s { shared = stop run_list true s.shared })
  unfolding stop
  stop-IsSerial = by_flag s.shared.stopped
    where
      by_flag :
          (b : Bool)
          → IsSerial
              (record s { shared = if b then s.shared else record s.shared { stopped = true } })
      by_flag true = h
      by_flag false = flag-IsSerial true
