-- ===== src/SerialTaskQueue/Serial/Stuck.antt =====
-- Under the invariant `pop_task` finds a task where it does not wait.
use btool.Common.{
  ℕ, ◌+◌, ◌<◌, ◌≤◌, ◌≡◌, ◌≢◌, refl, sym, ap, ◌∙◌, true, not, List, [], ◌∷◌, none, length, arith,
  Bool-cases, inl, inr,
}
use btool.Common.Assoc.{
  contains, count, remove, lookup, keys, count-remove, lookup-none-count, count-contains,
  contains-count,
}
use btool.PropCountNodeList.Refine.{Run, pop_run}
use btool.LastTaskQueue.{TaskItem}
use btool.SerialTaskQueue.{tasks_of, not_empty}
use btool.SerialTaskQueue.Threads.{System}
use btool.SerialTaskQueue.Runs.{run_list, marked}
use btool.SerialTaskQueue.Runs.Pops.{stuck-total}
use btool.SerialTaskQueue.Serial.{IsSerial, unless_empty}

length-remove : (k : ℕ) (xs : List ℕ) → length (remove k xs) + count k xs ≡ length xs
unfolding remove count
length-remove k [] = refl
length-remove k (x ∷ xs) = ground (arith, length-remove k xs)

-- Distinct numbers that all stand in a list are no more than it has.
inside-length :
    (ks xs : List ℕ)
    → ((k : ℕ) → count k ks ≤ 1)
    → ((k : ℕ) → 0 < count k ks → 0 < count k xs)
    → length ks ≤ length xs
unfolding count
inside-length [] xs once inside = ground arith
inside-length (k ∷ ks) xs once inside = ground (
  arith,
  inside-length ks (remove k xs) (λ j. ground (arith, once j))
      (λ j m.
        ground
          (arith, m, inside j, once k, count-remove k j xs, ap (λ i. count i ks) {x = j} {y = k})),
  length-remove k xs,
  inside k,
)

length-keys : {V : Type 0} (entries : List (ℕ × V)) → length (keys entries) ≡ length entries
unfolding keys
length-keys [] = refl
length-keys ((k, v) ∷ entries) = ground (arith, length-keys entries)

module _ (s : System (List Run)) (h : IsSerial s) where
  has_tasks :
      (p : ℕ) → 0 < count p (keys s.shared.wait_tasks) → 0 < length (tasks_of p s.shared.wait_tasks)
  has_tasks p m = by_tasks (tasks_of p s.shared.wait_tasks) (h.serial_at p).kept
    where
      by_tasks :
          (ts : List TaskItem) → lookup p s.shared.wait_tasks ≡ unless_empty ts → 0 < length ts
      by_tasks [] e = absurd (ground (arith, m, lookup-none-count p s.shared.wait_tasks e))
      by_tasks (f ∷ fs) e = ground arith

  -- Where no run may be popped, every property with tasks runs.
  all_run :
      pop_run s.shared.wait_props ≡ none
      → (p : ℕ) → 0 < count p (keys s.shared.wait_tasks)
      → 0 < count p s.shared.cur_props
  all_run e p m = elim (Bool-cases (contains p s.shared.cur_props)) [
    | inl c ↦ ground (arith, c, count-contains p s.shared.cur_props)
    | inr c ↦ absurd (
        ground (
          arith,
          has_tasks p m,
          (h.serial_at p).counted,
          contains-count p s.shared.cur_props c,
          stuck-total s.shared.wait_props p h.full e
              (ap (λ b. marked (not b) p s.shared.wait_props) (sym c) ∙ (h.serial_at p).marks),
        ))
  ]

  pub never_stuck : not_empty run_list s.shared ≡ true → pop_run s.shared.wait_props ≢ none
  unfolding not_empty
  never_stuck n e = ground (
    arith,
    n,
    inside-length (keys s.shared.wait_tasks) s.shared.cur_props (λ k. (h.serial_at k).distinct)
        (all_run e),
    length-keys s.shared.wait_tasks,
  )
