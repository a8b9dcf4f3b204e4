-- ===== src/SerialTaskQueue/Refine/Adds.antt =====
-- `add_task` over one list and over another.
use btool.Common.{
  ℕ, refl, Bool, true, false, not, ◌&&◌, ◌||◌, List, [], ◌∷◌, ◌++◌, Option, none, some, ltb, ◌==◌,
  if◌then◌else◌, length,
}
use btool.Common.Assoc.{contains}
use btool.LastTaskQueue.{TaskItem}
use btool.SerialTaskQueue.{PropList, tasks_of, not_full, put_task, add_fast, add_slow}
use btool.SerialTaskQueue.Threads.{
  System, accept, accept_slow, enter, miss, go_fast, go_slow, go_restarted,
}
use btool.SerialTaskQueue.Refine.{Simulates, over, Follows}

module _ {S T : Type 0} (o : PropList S) (o' : PropList T) (R : S → T → Type 0)
    (sim : Simulates o o' R) where
  fast-Follows :
      (p : ℕ) (f : TaskItem) (s : System S) (t : T)
      → R s.shared.wait_props t
      → Follows R
          (accept o p f (add_fast o p f s.shared) s)
          (accept o' p f (add_fast o' p f (over s t).shared) (over s t))
  unfolding Follows add_fast accept put_task
  fast-Follows p f s t r = by_flag s.shared.stopped
    where
      by_flag :
          (b : Bool)
          → Follows R
              (accept o p f (if b then (s.shared, false) else (put_task o p f s.shared, true)) s)
              (accept o' p f
                (if b
                  then ((over s t).shared, false)
                  else (put_task o' p f (over s t).shared, true))
                (over s t))
      by_flag true = (r, refl)
      by_flag false = (
        sim.pushes p
            (not (contains p s.shared.cur_props)
              && (length (tasks_of p s.shared.wait_tasks ++ f ∷ []) == 1))
            s.shared.wait_props t r,
        refl,
      )

  pub enter-Follows :
      (p : ℕ) (f : TaskItem) (s : System S) (t : T)
      → R s.shared.wait_props t
      → Follows R (enter o p f s) (enter o' p f (over s t))
  unfolding Follows enter not_full
  enter-Follows p f s t r =
      by_test (s.shared.max_task_count == 0 || ltb s.shared.approx_size s.shared.max_task_count)
    where
      entered : {U : Type 0} → Bool → System U → System U
      entered b u =
          if b then record u { fast = (p, f) ∷ u.fast } else record u { slow = (p, f) ∷ u.slow }

      by_test : (b : Bool) → Follows R (entered b s) (entered b (over s t))
      by_test true = (r, refl)
      by_test false = (r, refl)

  pub miss-Follows :
      (x : Option ((ℕ × TaskItem) × List (ℕ × TaskItem))) (s : System S) (t : T)
      → R s.shared.wait_props t
      → Follows R (miss o x s) (miss o' x (over s t))
  unfolding Follows miss
  miss-Follows none s t r = (r, refl)
  miss-Follows (some (thread, rest)) s t r = (r, refl)

  pub go_fast-Follows :
      (x : Option ((ℕ × TaskItem) × List (ℕ × TaskItem))) (s : System S) (t : T)
      → R s.shared.wait_props t
      → Follows R (go_fast o x s) (go_fast o' x (over s t))
  unfolding Follows go_fast
  go_fast-Follows none s t r = (r, refl)
  go_fast-Follows (some ((p, f), rest)) s t r = fast-Follows p f (record s { fast = rest }) t r

  pub go_slow-Follows :
      (x : Option ((ℕ × TaskItem) × List (ℕ × TaskItem))) (s : System S) (t : T)
      → R s.shared.wait_props t
      → Follows R (go_slow o x s) (go_slow o' x (over s t))
  unfolding Follows go_slow add_slow accept_slow not_full
  go_slow-Follows none s t r = (r, refl)
  go_slow-Follows (some ((p, f), rest)) s t r = by_test (
      s.shared.stopped
      || (s.shared.max_task_count == 0 || ltb s.shared.approx_size s.shared.max_task_count))
    where
      by_test :
          (b : Bool)
          → Follows R
              (accept_slow o p f rest (if b then some (add_fast o p f s.shared) else none) s)
              (accept_slow o' p f rest
                (if b then some (add_fast o' p f (over s t).shared) else none)
                (over s t))
      by_test true = fast-Follows p f (record s { slow = rest }) t r
      by_test false = (r, refl)

  pub go_restarted-Follows :
      (x : Option ((ℕ × TaskItem) × List (ℕ × TaskItem))) (s : System S) (t : T)
      → R s.shared.wait_props t
      → Follows R (go_restarted o x s) (go_restarted o' x (over s t))
  unfolding Follows go_restarted
  go_restarted-Follows none s t r = (r, refl)
  go_restarted-Follows (some ((p, f), rest)) s t r = by_flag s.shared.stopped
    where
      restarted : {U : Type 0} → System U → System U
      restarted u = record u { shared = record u.shared { stopped = false }; slow = rest }

      by_flag :
          (b : Bool)
          → Follows R
              (if b
                then accept o p f (add_fast o p f (restarted s).shared) (restarted s)
                else go_slow o (some ((p, f), rest)) s)
              (if b
                then accept o' p f
                    (add_fast o' p f (restarted (over s t)).shared)
                    (restarted (over s t))
                else go_slow o' (some ((p, f), rest)) (over s t))
      by_flag true = fast-Follows p f (restarted s) t r
      by_flag false = go_slow-Follows (some ((p, f), rest)) s t r
