-- ===== src/LastTaskQueue/Exclusion.antt =====
-- No two tasks of one property run at once.
use btool.Common.{
  ℕ, zero, suc, ◌≤◌, ◌≡◌, refl, ap, ◌⊎◌, inl, inr, false, List, [], ◌∷◌, some, arith, ◌==◌,
  if◌then◌else◌, Option-cases,
}
use btool.Common.Assoc.{contains, count, lookup, keys, contains-count, count-remove}
use btool.LastTaskQueue.{
  System, Action, enters, adds, pops, finishes, removes, starts, stops, clears, init, boot, step,
  run, add, pop, finish, add_thread, add_locked, add_restarted, add_with_start, adds_restarted,
  pop_locked, put_task, take_prop, find_ready, item_of, finish_locked, remove_prop, start, stop,
  clear, extract,
}
use btool.LastTaskQueue.Sync.{find_ready_lem, pop_takes_found}

-- The running threads hold distinct properties, and each is marked in `m_cur_pop_props`.
pub record IsExclusive (s : System) (k : ℕ) : Type 0 where
  pub marked : count k (keys s.running) ≤ count k s.shared.cur_pop_props
  pub single : count k s.shared.cur_pop_props ≤ 1

pub extract-count :
    (xs : List (ℕ × ℕ)) (i p t : ℕ) (rest : List (ℕ × ℕ)) (k : ℕ)
    → extract i xs ≡ some ((p, t), rest)
    → count k (keys xs) ≡ (if p == k then suc (count k (keys rest)) else count k (keys rest))
unfolding extract count keys
extract-count [] i p t rest k e = ground arith
extract-count (x ∷ xs) zero p t rest k e = ground arith
extract-count ((r, u) ∷ xs) (suc i) p t rest k e = elim (Option-cases (extract i xs)) [
  | inl a ↦ ground arith
  | inr (((r', u'), o), a) ↦ ground (arith, extract-count xs i r' u' o k a)
]

-- What `pop_task` does to the threads: nothing, a mark for a task that is empty, or a new run.
pub pop_system :
    (s : System)
    → (((pop s).shared.cur_pop_props ≡ s.shared.cur_pop_props) × ((pop s).running ≡ s.running))
      ⊎ ((p : ℕ) × (contains p s.shared.cur_pop_props ≡ false)
          × ((pop s).shared.cur_pop_props ≡ p ∷ s.shared.cur_pop_props)
          × (((pop s).running ≡ s.running) ⊎ ((t : ℕ) × ((pop s).running ≡ (p, t) ∷ s.running))))
unfolding pop take_prop
pop_system s = elim (Option-cases (find_ready s.shared.cur_pop_props s.shared.wait_props)) [
  | inl e ↦ inl (unfold pop_locked in ground arith)
  | inr ((p, others), e) ↦
      let taken = pop_takes_found s.shared s.shared.wait_props p others refl e in
      let free = find_ready_lem s.shared.cur_pop_props s.shared.wait_props p others 0 e in
      elim (Option-cases (item_of (lookup p s.shared.wait_tasks))) [
        | inl item ↦ inr (p, free.1, ground arith, inl (ground arith))
        | inr (t, item) ↦ inr (p, free.1, ground arith, inr (t, ground arith))
      ]
]

finish-IsExclusive : (s : System) (i k : ℕ) → IsExclusive s k → IsExclusive (finish s i) k
unfolding finish finish_locked
finish-IsExclusive s i k h = elim (Option-cases (extract i s.running)) [
  | inl e ↦ ground arith
  | inr (((p, t), rest), e) ↦
      ground
        (arith, extract-count s.running i p t rest k e, count-remove p k s.shared.cur_pop_props)
]

pop-IsExclusive : (s : System) (k : ℕ) → IsExclusive s k → IsExclusive (pop s) k
unfolding count keys
pop-IsExclusive s k h = elim (pop_system s) [
  | inl same ↦ ground arith
  | inr (p, free, marks, inl same) ↦ ground (arith, contains-count p s.shared.cur_pop_props free)
  | inr (p, free, marks, inr (t, runs)) ↦
      ground (arith, contains-count p s.shared.cur_pop_props free, ap (λ r. count k (keys r)) runs)
]

add-running :
    (s : System) (i : ℕ)
    → ((add s i).shared.cur_pop_props ≡ s.shared.cur_pop_props) × ((add s i).running ≡ s.running)
unfolding add add_thread add_locked put_task
add-running s i = ground arith

add_with_start-running :
    (s : System) (i : ℕ)
    → ((add_with_start s i).shared.cur_pop_props ≡ s.shared.cur_pop_props)
      × ((add_with_start s i).running ≡ s.running)
unfolding add_with_start add_thread add_restarted add_locked put_task start
add_with_start-running s i = ground arith

step-IsExclusive : (s : System) (a : Action) (k : ℕ) → IsExclusive s k → IsExclusive (step s a) k
unfolding step
step-IsExclusive s (enters p f) k h = ground arith
step-IsExclusive s (adds i) k h = ground (arith, add-running s i)
step-IsExclusive s (adds_restarted i) k h = ground (arith, add_with_start-running s i)
step-IsExclusive s pops k h = pop-IsExclusive s k h
step-IsExclusive s (finishes i) k h = finish-IsExclusive s i k h
step-IsExclusive s (removes p) k h = unfold remove_prop in ground arith
step-IsExclusive s starts k h = unfold start in ground arith
step-IsExclusive s (stops b) k h = unfold stop in ground arith
step-IsExclusive s clears k h = unfold clear in ground arith

run-IsExclusive :
    (actions : List Action) (s : System) (k : ℕ) → IsExclusive s k → IsExclusive (run s actions) k
unfolding run
run-IsExclusive [] s k h = h
run-IsExclusive (a ∷ actions) s k h =
    run-IsExclusive actions (step s a) k (step-IsExclusive s a k h)

-- Under every interleaving, `remove_prop`, `clear` and restarts included, at most one task of each
-- property runs.
pub one_runs :
    (m : ℕ) (actions : List Action) (k : ℕ) → count k (keys (run (boot m) actions).running) ≤ 1
unfolding boot init count keys
one_runs m actions k =
    let h =
      run-IsExclusive actions (boot m) k (record { marked = omega arith; single = omega arith }) in
    omega (arith, h.marked, h.single)
