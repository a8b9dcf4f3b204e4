-- ===== src/ParallelTaskQueue/Conserve.antt =====
-- No task of a `ParallelTaskQueue` is lost or runs twice.
use btool.Common.{
  ℕ, ◌+◌, ◌≡◌, refl, sym, ap, ◌∙◌, subst, arith, Bool, true, false, not, ◌&&◌, ltb, length, ◌||◌,
  List, [], ◌∷◌, Option, none, some, ◌==◌, if◌then◌else◌, Option-cases, inl, inr,
}
use btool.Common.Assoc.{count, count-append}
use btool.ParallelTaskQueue.{
  ConcurrentQueue, Call, add_loads, add_waits, add_checks, add_enqueues, pop_loads, pop_waits,
  pop_looks, pop_dequeues, start_swaps, stop_swaps, clear_swaps, Outcome, goes_on, added, refused,
  runs, returns, drops, ParallelTaskQueue, init, not_full, not_empty, clear_inner, dequeued,
  stopping, move, System, Action, begins, moves, extract, is_start, boot, settle, take_step, step,
  run,
}
use btool.ParallelTaskQueue.Uncleared.{NeverClears, IsUncleared, run-IsUncleared, boot-IsUncleared}

abbrev pub one : ℕ → ℕ → ℕ
one k x = if x == k then 1 else 0

-- No task comes or goes.
abbrev is_quiet : Outcome → Bool
is_quiet (goes_on c) = true
is_quiet (refused x) = true
is_quiet returns = true
is_quiet o = false

quiet_if :
    (b : Bool) (o o' : Outcome)
    → is_quiet o ≡ true
    → is_quiet o' ≡ true
    → is_quiet (if b then o else o') ≡ true
quiet_if true o o' h h' = h
quiet_if false o o' h h' = h'

count-one : (k x : ℕ) → count k (x ∷ []) ≡ one k x
unfolding count
count-one k x = ground arith

count-nil : (k : ℕ) → count k [] ≡ 0
unfolding count
count-nil k = refl

module _ {Q : Type 0} (ops : ConcurrentQueue Q) where
  -- What is asked of the queue: its operations put in and take out what they say, in any order.
  pub record IsBag : Type 0 where
    pub starts_empty : ops.items ops.no_items ≡ []
    pub enqueues :
        (k x : ℕ) (q : Q) → count k (ops.items (ops.enqueue q x)) ≡ count k (ops.items q) + one k x
    pub dequeues :
        (k x : ℕ) (q rest : Q)
        → ops.try_dequeue q ≡ some (x, rest)
        → count k (ops.items q) ≡ count k (ops.items rest) + one k x

  -- A task was accepted as often as it was taken out, was thrown away or is in the queue.
  abbrev pub IsConserved : ℕ → System Q → Type 0
  IsConserved k s =
      count k s.accepted
      ≡ count k s.taken + (count k s.dropped + count k (ops.items s.shared.queue))

  settle_quiet :
      (k : ℕ) (s : System Q) (rest : List Call) (q : ParallelTaskQueue Q) (o : Outcome)
      → is_quiet o ≡ true
      → q.queue ≡ s.shared.queue
      → IsConserved k s
      → IsConserved k (settle ops s rest (some (q, o)))
  unfolding settle
  settle_quiet k s rest q (goes_on c) quiet same h =
      ground (arith, ap (λ j. count k (ops.items j)) same)
  settle_quiet k s rest q (refused x) quiet same h =
      ground (arith, ap (λ j. count k (ops.items j)) same)
  settle_quiet k s rest q returns quiet same h =
      ground (arith, ap (λ j. count k (ops.items j)) same)
  settle_quiet k s rest q (added x) quiet same h = absurd (ground arith)
  settle_quiet k s rest q (runs x) quiet same h = absurd (ground arith)
  settle_quiet k s rest q drops quiet same h = absurd (ground arith)

  -- A wait: the step, or none.
  settle_wait :
      (k : ℕ) (s : System Q) (rest : List Call) (b : Bool) (c : Call)
      → IsConserved k s
      → IsConserved k (settle ops s rest (if b then some (s.shared, goes_on c) else none))
  settle_wait k s rest true c h = settle_quiet k s rest s.shared (goes_on c) refl refl h
  settle_wait k s rest false c h = unfold settle in h

  settle_added :
      (k x : ℕ) (s : System Q) (rest : List Call)
      → IsBag
      → IsConserved k s
      → IsConserved k (
          settle ops s rest
            (some (record s.shared { queue = ops.enqueue s.shared.queue x }, added x)))
  unfolding settle
  settle_added k x s rest bag h =
      omega
        (arith, bag.enqueues k x s.shared.queue, count-append k s.accepted (x ∷ []), count-one k x)

  settle-dequeued :
      (k : ℕ) (s : System Q) (rest : List Call)
      → IsBag
      → IsConserved k s
      → IsConserved k
          (settle ops s rest (some (dequeued ops s.shared (ops.try_dequeue s.shared.queue))))
  unfolding settle dequeued
  settle-dequeued k s rest bag h = elim (Option-cases (ops.try_dequeue s.shared.queue)) [
    | inl e ↦
        subst (λ o. IsConserved k (settle ops s rest (some (dequeued ops s.shared o)))) (sym e) h
    | inr ((x, left), e) ↦
        subst (λ o. IsConserved k (settle ops s rest (some (dequeued ops s.shared o)))) (sym e)
          (omega (
            arith,
            bag.dequeues k x s.shared.queue left e,
            count-append k s.taken (x ∷ []),
            count-one k x,
          ))
  ]

  settle_drops :
      (k : ℕ) (s : System Q) (rest : List Call)
      → IsBag
      → IsConserved k s
      → IsConserved k (settle ops s rest (some (clear_inner ops s.shared, drops)))
  unfolding settle clear_inner
  settle_drops k s rest bag h = omega (
    arith,
    count-append k s.dropped (ops.items s.shared.queue),
    ap (count k) bag.starts_empty ∙ count-nil k,
  )

  stopping_quiet : (bwait : Bool) → is_quiet (stopping ops bwait) ≡ true
  unfolding stopping
  stopping_quiet true = refl
  stopping_quiet false = refl

  take_step-IsConserved :
      (k : ℕ) (s : System Q) (o : Option (Call × List Call))
      → IsBag
      → IsConserved k s
      → IsConserved k (take_step ops s o)
  unfolding take_step move
  take_step-IsConserved k s none bag h = h
  take_step-IsConserved k s (some (add_loads x, rest)) bag h =
      settle_quiet k s rest s.shared (if s.shared.stopped then refused x else goes_on (add_waits x))
        (quiet_if s.shared.stopped (refused x) (goes_on (add_waits x)) refl refl) refl h
  take_step-IsConserved k s (some (add_waits x, rest)) bag h =
      settle_wait k s rest (s.shared.stopped || not_full ops s.shared) (add_checks x) h
  take_step-IsConserved k s (some (add_checks x, rest)) bag h =
      settle_quiet k s rest s.shared
        (if s.shared.stopped then refused x else goes_on (add_enqueues x))
        (quiet_if s.shared.stopped (refused x) (goes_on (add_enqueues x)) refl refl) refl h
  take_step-IsConserved k s (some (add_enqueues x, rest)) bag h = settle_added k x s rest bag h
  take_step-IsConserved k s (some (pop_loads, rest)) bag h =
      settle_quiet k s rest s.shared
        (goes_on (if not s.shared.stopped then pop_waits else pop_looks)) refl refl h
  take_step-IsConserved k s (some (pop_waits, rest)) bag h =
      settle_wait k s rest (s.shared.stopped || not_empty ops s.shared) pop_looks h
  take_step-IsConserved k s (some (pop_looks, rest)) bag h =
      settle_quiet k s rest s.shared
        (if not (not_empty ops s.shared) then returns else goes_on pop_dequeues)
        (quiet_if (not (not_empty ops s.shared)) returns (goes_on pop_dequeues) refl refl) refl h
  take_step-IsConserved k s (some (pop_dequeues, rest)) bag h = settle-dequeued k s rest bag h
  take_step-IsConserved k s (some (start_swaps, rest)) bag h =
      settle_quiet k s rest (record s.shared { stopped = false }) returns refl refl h
  take_step-IsConserved k s (some (stop_swaps bwait, rest)) bag h =
      settle_quiet k s rest (record s.shared { stopped = true })
        (if s.shared.stopped then returns else stopping ops bwait)
        (quiet_if s.shared.stopped returns (stopping ops bwait) refl (stopping_quiet bwait)) refl h
  take_step-IsConserved k s (some (clear_swaps, rest)) bag h = settle_drops k s rest bag h

  begin-IsConserved :
      (k : ℕ) (s : System Q) (c : Call) (b : Bool)
      → IsConserved k s
      → IsConserved k (if b then record s { calls = c ∷ s.calls } else s)
  begin-IsConserved k s c true h = h
  begin-IsConserved k s c false h = h

  step-IsConserved :
      (k threads : ℕ) (s : System Q) (a : Action)
      → IsBag
      → IsConserved k s
      → IsConserved k (step ops threads s a)
  unfolding step
  step-IsConserved k threads s (begins c) bag h =
      begin-IsConserved k s c (is_start c && ltb (length s.calls) threads) h
  step-IsConserved k threads s (moves n) bag h = take_step-IsConserved k s (extract n s.calls) bag h

  boot-IsConserved : (k max_task_count : ℕ) → IsBag → IsConserved k (boot ops max_task_count)
  unfolding boot init
  boot-IsConserved k max_task_count bag = omega (arith, ap (count k) bag.starts_empty, count-nil k)

  run-IsConserved :
      (k threads : ℕ) (s : System Q) (actions : List Action)
      → IsBag
      → IsConserved k s
      → IsConserved k (run ops threads s actions)
  unfolding run
  run-IsConserved k threads s [] bag h = h
  run-IsConserved k threads s (a ∷ actions) bag h =
      run-IsConserved k threads (step ops threads s a) actions bag
        (step-IsConserved k threads s a bag h)

  kept_by :
      (k : ℕ) (s : System Q)
      → IsConserved k s
      → IsUncleared ops s
      → count k s.accepted ≡ count k s.taken + count k (ops.items s.shared.queue)
  kept_by k s h u = omega (arith, h, ap (count k) u.kept, count-nil k)

  -- Over any queue that neither loses nor doubles an item, and under every interleaving of the steps of `add_task`,
  -- `pop_task`, `start` and a `stop` that waits, by any number of threads, where nobody calls `clear` or a `stop`
  -- that does not wait: each task was accepted as many times as it was taken out to run or is still in the queue.
  pub conserved :
      (k threads max_task_count : ℕ) (actions : List Action)
      → IsBag
      → NeverClears actions
      → count k (run ops threads (boot ops max_task_count) actions).accepted
        ≡ count k (run ops threads (boot ops max_task_count) actions).taken
          + count k (ops.items (run ops threads (boot ops max_task_count) actions).shared.queue)
  conserved k threads max_task_count actions bag never =
      kept_by k (run ops threads (boot ops max_task_count) actions)
        (run-IsConserved k threads (boot ops max_task_count) actions bag
          (boot-IsConserved k max_task_count bag))
        (run-IsUncleared ops threads (boot ops max_task_count) actions never
          (boot-IsUncleared ops max_task_count))
