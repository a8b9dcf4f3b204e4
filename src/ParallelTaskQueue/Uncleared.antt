-- ===== src/ParallelTaskQueue/Uncleared.antt =====
-- A `ParallelTaskQueue` that nobody clears throws no task away.
use btool.Common.{
  ℕ, zero, suc, ◌≡◌, refl, arith, Bool, true, false, not, ◌&&◌, ◌||◌, List, [], ◌∷◌, Option, none,
  some, ltb, length, if◌then◌else◌,
}
use btool.ParallelTaskQueue.{
  ConcurrentQueue, Call, add_loads, add_waits, add_checks, add_enqueues, pop_loads, pop_waits,
  pop_looks, pop_dequeues, start_swaps, stop_swaps, clear_swaps, Outcome, goes_on, added, refused,
  runs, returns, drops, ParallelTaskQueue, not_full, not_empty, dequeued, stopping, move, System,
  Action, begins, moves, put_back, extract, is_start, boot, settle, take_step, step, run,
}

abbrev pub clears : Call → Bool
clears (stop_swaps bwait) = not bwait
clears clear_swaps = true
clears c = false

abbrev pub any_clears : List Call → Bool
any_clears [] = false
any_clears (c ∷ cs) = clears c || any_clears cs

-- No thread calls `clear`, nor `stop` without waiting.
abbrev pub NeverClears : List Action → Type 0
NeverClears [] = Unit {0}
NeverClears (begins c ∷ actions) = (clears c ≡ false) × NeverClears actions
NeverClears (moves n ∷ actions) = NeverClears actions

-- What `extract` finds is one call and the others.
abbrev Parts : List Call → Option (Call × List Call) → Type 0
Parts cs none = Unit {0}
Parts cs (some (c, rest)) = any_clears cs ≡ (clears c || any_clears rest)

put_back-Parts :
    (c : Call) (cs : List Call) (o : Option (Call × List Call))
    → Parts cs o
    → Parts (c ∷ cs) (put_back c o)
unfolding put_back
put_back-Parts c cs none parts = tt
put_back-Parts c cs (some (d, ds)) parts = ground (arith, parts)

extract-Parts : (n : ℕ) (cs : List Call) → Parts cs (extract n cs)
unfolding extract
extract-Parts n [] = tt
extract-Parts zero (c ∷ cs) = refl
extract-Parts (suc n) (c ∷ cs) = put_back-Parts c cs (extract n cs) (extract-Parts n cs)

-- The step neither clears nor leaves a call that does.
abbrev keeps : Outcome → Bool
keeps (goes_on c) = not (clears c)
keeps drops = false
keeps o = true

module _ {Q : Type 0} (ops : ConcurrentQueue Q) where
  pub record IsUncleared (s : System Q) : Type 0 where
    pub lasting : any_clears s.calls ≡ false
    pub kept : s.dropped ≡ []

  abbrev Keeps : Option (ParallelTaskQueue Q × Outcome) → Type 0
  Keeps none = Unit {0}
  Keeps (some (q, o)) = keeps o ≡ true

  by_test :
      (q : ParallelTaskQueue Q) (b : Bool) (o o' : Outcome)
      → keeps o ≡ true
      → keeps o' ≡ true
      → Keeps (some (q, if b then o else o'))
  by_test q true o o' h h' = h
  by_test q false o o' h h' = h'

  by_wait :
      (q : ParallelTaskQueue Q) (b : Bool) (o : Outcome)
      → keeps o ≡ true
      → Keeps (if b then some (q, o) else none)
  by_wait q true o h = h
  by_wait q false o h = tt

  dequeued-Keeps : (q : ParallelTaskQueue Q) (o : Option (ℕ × Q)) → Keeps (some (dequeued ops q o))
  unfolding dequeued
  dequeued-Keeps q none = refl
  dequeued-Keeps q (some (task, rest)) = refl

  move-Keeps : (q : ParallelTaskQueue Q) (c : Call) → clears c ≡ false → Keeps (move ops q c)
  unfolding move stopping
  move-Keeps q (add_loads x) h = by_test q q.stopped (refused x) (goes_on (add_waits x)) refl refl
  move-Keeps q (add_waits x) h =
      by_wait q (q.stopped || not_full ops q) (goes_on (add_checks x)) refl
  move-Keeps q (add_checks x) h =
      by_test q q.stopped (refused x) (goes_on (add_enqueues x)) refl refl
  move-Keeps q (add_enqueues x) h = refl
  move-Keeps q pop_loads h = waits_or_looks q.stopped
    where
      waits_or_looks : (b : Bool) → keeps (goes_on (if not b then pop_waits else pop_looks)) ≡ true
      waits_or_looks true = refl
      waits_or_looks false = refl
  move-Keeps q pop_waits h = by_wait q (q.stopped || not_empty ops q) (goes_on pop_looks) refl
  move-Keeps q pop_looks h =
      by_test q (not (not_empty ops q)) returns (goes_on pop_dequeues) refl refl
  move-Keeps q pop_dequeues h = dequeued-Keeps q (ops.try_dequeue q.queue)
  move-Keeps q start_swaps h = refl
  move-Keeps q (stop_swaps true) h = by_test q q.stopped returns returns refl refl
  move-Keeps q (stop_swaps false) h = absurd (ground arith)
  move-Keeps q clear_swaps h = absurd (ground arith)

  settle-IsUncleared :
      (s : System Q) (c : Call) (rest : List Call) (r : Option (ParallelTaskQueue Q × Outcome))
      → Keeps r
      → any_clears rest ≡ false
      → IsUncleared s
      → IsUncleared (settle ops s rest r)
  unfolding settle
  settle-IsUncleared s c rest none k l u = u
  settle-IsUncleared s c rest (some (q, goes_on d)) k l u = record {
    lasting = ground (arith, k, l);
    kept = u.kept;
  }
  settle-IsUncleared s c rest (some (q, added x)) k l u = record { lasting = l; kept = u.kept }
  settle-IsUncleared s c rest (some (q, refused x)) k l u = record { lasting = l; kept = u.kept }
  settle-IsUncleared s c rest (some (q, runs x)) k l u = record { lasting = l; kept = u.kept }
  settle-IsUncleared s c rest (some (q, returns)) k l u = record { lasting = l; kept = u.kept }
  settle-IsUncleared s c rest (some (q, drops)) k l u = absurd (ground (arith, k))

  found-IsUncleared :
      (s : System Q) (o : Option (Call × List Call))
      → Parts s.calls o
      → IsUncleared s
      → IsUncleared (take_step ops s o)
  unfolding take_step
  found-IsUncleared s none parts u = u
  found-IsUncleared s (some (c, rest)) parts u =
      settle-IsUncleared s c rest (move ops s.shared c)
        (move-Keeps s.shared c (ground (arith, parts, u.lasting)))
        (ground (arith, parts, u.lasting)) u

  begin-IsUncleared :
      (s : System Q) (c : Call) (b : Bool)
      → clears c ≡ false
      → IsUncleared s
      → IsUncleared (if b then record s { calls = c ∷ s.calls } else s)
  begin-IsUncleared s c true h u = record { lasting = ground (arith, h, u.lasting); kept = u.kept }
  begin-IsUncleared s c false h u = u

  pub boot-IsUncleared : (max_task_count : ℕ) → IsUncleared (boot ops max_task_count)
  unfolding boot
  boot-IsUncleared max_task_count = record { lasting = refl; kept = refl }

  pub run-IsUncleared :
      (threads : ℕ) (s : System Q) (actions : List Action)
      → NeverClears actions
      → IsUncleared s
      → IsUncleared (run ops threads s actions)
  unfolding run step
  run-IsUncleared threads s [] never u = u
  run-IsUncleared threads s (begins c ∷ actions) (once, never) u =
      run-IsUncleared threads (step ops threads s (begins c)) actions never
        (begin-IsUncleared s c (is_start c && ltb (length s.calls) threads) once u)
  run-IsUncleared threads s (moves n ∷ actions) never u =
      run-IsUncleared threads (step ops threads s (moves n)) actions never
        (found-IsUncleared s (extract n s.calls) (extract-Parts n s.calls) u)
