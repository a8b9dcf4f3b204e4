-- ===== src/SpmcSerialTaskQueue/Exclusion.antt =====
-- One thread at a time runs the tasks of a property of an `SPMCSerialTaskQueue` that is never cleared.
use btool.Common.{
  ℕ, zero, suc, ◌+◌, ◌≤◌, ◌≡◌, refl, arith, Bool, true, false, ◌||◌, List, [], ◌∷◌, Option, none,
  some, ◌==◌, if◌then◌else◌,
}
use btool.ParallelTaskQueue.{ConcurrentQueue}
use btool.SpmcSerialTaskQueue.{SpmcSerialTaskQueue, runs, Call, pop_holds, init, reset_props, move}
use btool.SpmcSerialTaskQueue.Threads.{
  is_start, Action, begins, moves, System, put_back, extract, settle, take_step, step, run, boot,
}
use btool.SpmcSerialTaskQueue.Holders.{weight, clears, flag, Steady, move-Steady}

abbrev weights : ℕ → List Call → ℕ
weights place [] = 0
weights place (c ∷ cs) = weight place c + weights place cs

abbrev any_clears : List Call → Bool
any_clears [] = false
any_clears (c ∷ cs) = clears c || any_clears cs

-- How many threads run a task of the property at this place.
abbrev runs_at : ℕ → Call → ℕ
runs_at place (pop_holds other prop (runs task)) = if other == place then 1 else 0
runs_at place c = 0

abbrev pub running : ℕ → List Call → ℕ
running place [] = 0
running place (c ∷ cs) = runs_at place c + running place cs

-- No thread calls `clear`, nor `stop` without waiting.
abbrev pub NeverClears : List Action → Type 0
NeverClears [] = Unit {0}
NeverClears (begins c ∷ actions) = (clears c ≡ false) × NeverClears actions
NeverClears (moves n ∷ actions) = NeverClears actions

runs_at-weight : (place : ℕ) (c : Call) → runs_at place c ≤ weight place c
runs_at-weight place (pop_holds other prop (runs task)) = omega arith
runs_at-weight place c = ground arith

running-weights : (place : ℕ) (cs : List Call) → running place cs ≤ weights place cs
running-weights place [] = omega arith
running-weights place (c ∷ cs) = omega (arith, runs_at-weight place c, running-weights place cs)

-- What `extract` finds is one call and the others.
abbrev Parts : List Call → Option (Call × List Call) → Type 0
Parts cs none = Unit {0}
Parts cs (some (c, rest)) =
    ((place : ℕ) → weights place cs ≡ weight place c + weights place rest)
    × (any_clears cs ≡ (clears c || any_clears rest))

put_back-Parts :
    (c : Call) (cs : List Call) (o : Option (Call × List Call))
    → Parts cs o
    → Parts (c ∷ cs) (put_back c o)
unfolding put_back
put_back-Parts c cs none parts = tt
put_back-Parts c cs (some (d, ds)) (weigh, clear) =
    (λ place. omega (arith, weigh place), ground (arith, clear))

extract-Parts : (n : ℕ) (cs : List Call) → Parts cs (extract n cs)
unfolding extract
extract-Parts n [] = tt
extract-Parts zero (c ∷ cs) = (λ place. refl, refl)
extract-Parts (suc n) (c ∷ cs) = put_back-Parts c cs (extract n cs) (extract-Parts n cs)

start-weight : (place : ℕ) (c : Call) → is_start c ≡ true → weight place c ≡ 0
unfolding is_start
start-weight place (pop_holds other prop stage) e = absurd (ground arith)
start-weight place c e = ground arith

module _ {Q : Type 0} (ops : ConcurrentQueue Q) where
  record IsExclusive (place : ℕ) (s : System Q) : Type 0 where
    pub holders : weights place s.calls + flag (s.shared.can_pop place) ≤ 1
    pub lasting : any_clears s.calls ≡ false

  settle-IsExclusive :
      (place w : ℕ) (q : SpmcSerialTaskQueue Q) (rest : List Call)
      (r : SpmcSerialTaskQueue Q × Option Call)
      → Steady ops place q w r
      → w + weights place rest + flag (q.can_pop place) ≤ 1
      → any_clears rest ≡ false
      → IsExclusive place (settle ops rest r)
  unfolding settle
  settle-IsExclusive place w q rest (q', none) steady room last = record {
    holders = omega (arith, steady.holders);
    lasting = last;
  }
  settle-IsExclusive place w q rest (q', some c) steady room last = record {
    holders = omega (arith, steady.holders);
    lasting = ground (arith, steady.lasting, last);
  }

  found-IsExclusive :
      (place : ℕ) (s : System Q) (o : Option (Call × List Call))
      → Parts s.calls o
      → IsExclusive place s
      → IsExclusive place (take_step ops s o)
  unfolding take_step
  found-IsExclusive place s none parts h = h
  found-IsExclusive place s (some (c, rest)) (weigh, clear) h =
      settle-IsExclusive place (weight place c) s.shared rest (move ops s.shared c)
        (move-Steady ops place s.shared c (ground (arith, h.lasting, clear)))
        (omega (arith, h.holders, weigh place)) (ground (arith, h.lasting, clear))

  begin-IsExclusive :
      (place : ℕ) (s : System Q) (c : Call) (b : Bool)
      → is_start c ≡ b
      → clears c ≡ false
      → IsExclusive place s
      → IsExclusive place (if b then record s { calls = c ∷ s.calls } else s)
  begin-IsExclusive place s c true e once h = record {
    holders = omega (arith, h.holders, start-weight place c e);
    lasting = ground (arith, once, h.lasting);
  }
  begin-IsExclusive place s c false e once h = h

  flag-le : (b : Bool) → flag b ≤ 1
  flag-le true = omega arith
  flag-le false = omega arith

  boot-IsExclusive :
      (place max_single_task_count : ℕ) (props : List ℕ)
      → IsExclusive place (boot ops max_single_task_count props)
  unfolding boot
  boot-IsExclusive place m props = record {
    holders = omega (arith, flag-le ((reset_props ops (init ops m) props).can_pop place));
    lasting = refl;
  }

  run-IsExclusive :
      (place : ℕ) (s : System Q) (actions : List Action)
      → NeverClears actions
      → IsExclusive place s
      → IsExclusive place (run ops s actions)
  unfolding run step
  run-IsExclusive place s [] never h = h
  run-IsExclusive place s (begins c ∷ actions) (once, never) h =
      run-IsExclusive place (step ops s (begins c)) actions never
        (begin-IsExclusive place s c (is_start c) refl once h)
  run-IsExclusive place s (moves n ∷ actions) never h =
      run-IsExclusive place (step ops s (moves n)) actions never
        (found-IsExclusive place s (extract n s.calls) (extract-Parts n s.calls) h)

  -- As long as nobody calls `clear`, nor `stop` without waiting, and however the steps of the threads
  -- interleave, at most one task runs of the property that is registered at a place.
  pub one_holder :
      (place max_single_task_count : ℕ) (props : List ℕ) (actions : List Action)
      → NeverClears actions
      → running place (run ops (boot ops max_single_task_count props) actions).calls ≤ 1
  one_holder place max_single_task_count props actions never =
      let s = boot ops max_single_task_count props in
      let h =
        run-IsExclusive place s actions never
          (boot-IsExclusive place max_single_task_count props) in
      omega (arith, h.holders, running-weights place (run ops s actions).calls)
