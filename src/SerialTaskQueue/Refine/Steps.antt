-- ===== src/SerialTaskQueue/Refine/Steps.antt =====
-- Every action over one list and over another.
use btool.Common.{
  ℕ, refl, subst, Bool, true, false, not, ◌||◌, List, [], ◌∷◌, Option, none, some, if◌then◌else◌,
}
use btool.Common.Assoc.{contains}
use btool.LastTaskQueue.{extract}
use btool.SerialTaskQueue.{
  PropList, SerialTaskQueue, Popped, waits, leaves, asserts, takes, tasks_of, front, not_empty,
  clear_inner, start, stop, take_prop, take_found, pop_locked, finish_locked, remove_prop,
}
use btool.SerialTaskQueue.Threads.{
  System, Action, enters, misses, adds_fast, adds_slow, adds_restarted, pops, finishes, starts,
  stops, removes, clears, hold, finish, step, run,
}
use btool.SerialTaskQueue.Refine.{Matched, Simulates, over, Follows}
use btool.SerialTaskQueue.Refine.Adds.{
  enter-Follows, miss-Follows, go_fast-Follows, go_slow-Follows, go_restarted-Follows,
}

module _ {S T : Type 0} (o : PropList S) (o' : PropList T) (R : S → T → Type 0)
    (sim : Simulates o o' R) where
  pop-Follows :
      (s : System S) (t : T)
      → R s.shared.wait_props t
      → Follows R
          (hold o (pop_locked o s.shared) s)
          (hold o' (pop_locked o' (over s t).shared) (over s t))
  unfolding Follows Matched hold pop_locked take_found not_empty take_prop
  pop-Follows s t r =
      by_tests (not (s.shared.stopped || not_empty o s.shared)) (not (not_empty o s.shared))
        (o.pop_front s.shared.wait_props) (o'.pop_front t) (sim.pops_same s.shared.wait_props t r)
    where
      popped :
          {U : Type 0} → PropList U → Bool → Bool → Option (ℕ × U) → SerialTaskQueue U → Popped U
      popped u b c x q = if b then waits else if c then leaves else take_found u x q

      takes_or_asserts : {U : Type 0} → PropList U → Bool → ℕ → U → SerialTaskQueue U → Popped U
      takes_or_asserts u b k w q =
          if b then asserts else takes (take_prop u k w q) k (front (tasks_of k q.wait_tasks))

      taken :
          (k : ℕ) (u : S) (v : T) (b : Bool)
          → R u v
          → Follows R
              (hold o (takes_or_asserts o b k u s.shared) s)
              (hold o' (takes_or_asserts o' b k v (over s t).shared) (over s t))
      taken k u v true m = (r, refl)
      taken k u v false m = (m, refl)

      by_tests :
          (b c : Bool) (x : Option (ℕ × S)) (y : Option (ℕ × T))
          → Matched R x y
          → Follows R
              (hold o (popped o b c x s.shared) s)
              (hold o' (popped o' b c y (over s t).shared) (over s t))
      by_tests true c x y m = (r, refl)
      by_tests false true x y m = (r, refl)
      by_tests false false none none m = (r, refl)
      by_tests false false none (some y) m = absurd m
      by_tests false false (some x) none m = absurd m
      by_tests false false (some (p, u)) (some (q, v)) (e, m) =
          subst
            (λ k.
              Follows R (hold o (take_found o (some (p, u)) s.shared) s)
                (hold o' (take_found o' (some (k, v)) (over s t).shared) (over s t)))
            e (taken p u v (contains p s.shared.cur_props) m)

  finish-Follows :
      (i : ℕ) (s : System S) (t : T)
      → R s.shared.wait_props t
      → Follows R (finish o (extract i s.running) s) (finish o' (extract i s.running) (over s t))
  unfolding Follows finish finish_locked
  finish-Follows i s t r = by_thread (extract i s.running)
    where
      by_thread :
          (x : Option ((ℕ × ℕ) × List (ℕ × ℕ))) → Follows R (finish o x s) (finish o' x (over s t))
      by_thread none = (r, refl)
      by_thread (some ((p, u), rest)) = (sim.resets p s.shared.wait_props t r, refl)

  start-Follows :
      (s : System S) (t : T)
      → R s.shared.wait_props t
      → Follows R
          (record s { shared = start o s.shared })
          (record (over s t) { shared = start o' (over s t).shared })
  unfolding Follows start
  start-Follows s t r = by_flag s.shared.stopped
    where
      by_flag :
          (b : Bool)
          → Follows R
              (record s { shared = if b then record s.shared { stopped = false } else s.shared })
              (record (over s t) {
                shared =
                    if b then record (over s t).shared { stopped = false } else (over s t).shared;
              })
      by_flag true = (r, refl)
      by_flag false = (r, refl)

  stop-Follows :
      (bwait : Bool) (s : System S) (t : T)
      → R s.shared.wait_props t
      → Follows R
          (record s { shared = stop o bwait s.shared })
          (record (over s t) { shared = stop o' bwait (over s t).shared })
  unfolding Follows stop clear_inner
  stop-Follows bwait s t r = by_flag s.shared.stopped bwait
    where
      stops_as :
          {U : Type 0} (u : PropList U) (b c : Bool) (q : SerialTaskQueue U) → SerialTaskQueue U
      stops_as u b c q =
          if b
          then q
          else if c
          then record q { stopped = true }
          else clear_inner u (record q { stopped = true })

      by_flag :
          (b c : Bool)
          → Follows R
              (record s { shared = stops_as o b c s.shared })
              (record (over s t) { shared = stops_as o' b c (over s t).shared })
      by_flag true c = (r, refl)
      by_flag false true = (r, refl)
      by_flag false false = (sim.cleared s.shared.wait_props t r, refl)

  step-over :
      (s : System S) (t : T) (a : Action)
      → R s.shared.wait_props t
      → Follows R (step o s a) (step o' (over s t) a)
  unfolding Follows step remove_prop clear_inner
  step-over s t (enters p f) r = enter-Follows o o' R sim p f s t r
  step-over s t (misses i) r = miss-Follows o o' R sim (extract i s.fast) s t r
  step-over s t (adds_fast i) r = go_fast-Follows o o' R sim (extract i s.fast) s t r
  step-over s t (adds_slow i) r = go_slow-Follows o o' R sim (extract i s.slow) s t r
  step-over s t (adds_restarted i) r = go_restarted-Follows o o' R sim (extract i s.slow) s t r
  step-over s t pops r = pop-Follows s t r
  step-over s t (finishes i) r = finish-Follows i s t r
  step-over s t starts r = start-Follows s t r
  step-over s t (stops bwait) r = stop-Follows bwait s t r
  step-over s t (removes p) r = (sim.drops p s.shared.wait_props t r, refl)
  step-over s t clears r = (sim.cleared s.shared.wait_props t r, refl)

  step-Follows :
      (s : System S) (t : System T) (a : Action)
      → Follows R s t
      → Follows R (step o s a) (step o' t a)
  unfolding Follows
  step-Follows s t a (r, e) =
      subst (λ u. Follows R (step o s a) (step o' u a)) e (step-over s t.shared.wait_props a r)

  pub run-Follows :
      (actions : List Action) (s : System S) (t : System T)
      → Follows R s t
      → Follows R (run o s actions) (run o' t actions)
  unfolding run
  run-Follows [] s t f = f
  run-Follows (a ∷ actions) s t f =
      run-Follows actions (step o s a) (step o' t a) (step-Follows s t a f)
