-- ===== src/SpmcSerialTaskQueue/Cleared.antt =====
-- An `SPMCSerialTaskQueue` that has been cleared: `m_bclear` is never taken back.
use btool.Common.{
  ℕ, zero, suc, ◌≡◌, refl, arith, Bool, true, false, not, ◌||◌, List, [], ◌∷◌, Option, none, some,
  if◌then◌else◌,
}
use btool.ParallelTaskQueue.{ConcurrentQueue}
use btool.SpmcSerialTaskQueue.{
  SpmcSerialTaskQueue, Call, move, not_full, queue_of, drain, add_loads, add_guards, add_enqueues,
  add_looks, add_zeroes, add_zeroes_single, add_counts, add_counts_single, pop_loads_clear,
  pop_loads_size, pop_indexes, pop_claims, pop_holds, start_swaps, stop_swaps, clear_sets,
  clear_blocks, clear_drains, clear_counts, clear_index, clear_opens, clear_size,
}
use btool.SpmcSerialTaskQueue.Threads.{
  Action, System, begins, moves, is_start, put_back, extract, settle, take_step, step, run,
}
use btool.SpmcSerialTaskQueue.Exclusion.{running}

-- A `pop_task` past its first look.
abbrev pub is_past : Call → Bool
is_past pop_loads_size = true
is_past pop_indexes = true
is_past (pop_claims place prop) = true
is_past (pop_holds place prop stage) = true
is_past c = false

abbrev pub NonePast : List Call → Type 0
NonePast [] = Unit {0}
NonePast (c ∷ cs) = (is_past c ≡ false) × NonePast cs

abbrev NoneFound : Option (Call × List Call) → Type 0
NoneFound none = Unit {0}
NoneFound (some (c, rest)) = (is_past c ≡ false) × NonePast rest

abbrev past_left : Option Call → Bool
past_left none = false
past_left (some c) = is_past c

put_back-NoneFound :
    (c : Call) (o : Option (Call × List Call))
    → is_past c ≡ false
    → NoneFound o
    → NoneFound (put_back c o)
unfolding put_back
put_back-NoneFound c none h f = tt
put_back-NoneFound c (some (d, ds)) h (g, gs) = (g, (h, gs))

extract-NoneFound : (n : ℕ) (cs : List Call) → NonePast cs → NoneFound (extract n cs)
unfolding extract
extract-NoneFound n [] h = tt
extract-NoneFound zero (c ∷ cs) h = h
extract-NoneFound (suc n) (c ∷ cs) (h, hs) =
    put_back-NoneFound c (extract n cs) h (extract-NoneFound n cs hs)

running-NonePast : (place : ℕ) (cs : List Call) → NonePast cs → running place cs ≡ 0
running-NonePast place [] h = refl
running-NonePast place (pop_holds other prop stage ∷ cs) (h, hs) = absurd (ground arith)
running-NonePast place (c ∷ cs) (h, hs) = ground (arith, running-NonePast place cs hs)

start-is_past : (c : Call) → is_start c ≡ true → is_past c ≡ false
unfolding is_start
start-is_past pop_loads_clear e = refl
start-is_past (add_loads prop x) e = refl
start-is_past start_swaps e = refl
start-is_past (stop_swaps bwait) e = refl
start-is_past clear_sets e = refl
start-is_past c e = absurd (ground arith)

module _ {Q : Type 0} (ops : ConcurrentQueue Q) where
  record Stays (r : SpmcSerialTaskQueue Q × Option Call) : Type 0 where
    pub clearing : r.0.clearing ≡ true
    pub before : past_left r.1 ≡ false

  Stays-if :
      (q : SpmcSerialTaskQueue Q) (b : Bool) (o o' : Option Call)
      → q.clearing ≡ true
      → past_left o ≡ false
      → past_left o' ≡ false
      → Stays (q, if b then o else o')
  Stays-if q true o o' e h h' = record { clearing = e; before = h }
  Stays-if q false o o' e h h' = record { clearing = e; before = h' }

  stays :
      (q : SpmcSerialTaskQueue Q) (o : Option Call)
      → q.clearing ≡ true
      → past_left o ≡ false
      → Stays (q, o)
  stays q o e h = record { clearing = e; before = h }

  drain-Stays :
      (q : SpmcSerialTaskQueue Q) (prop : ℕ) (props : List ℕ) (o : Option (ℕ × Q))
      → q.clearing ≡ true
      → Stays (drain ops q prop props o)
  unfolding drain
  drain-Stays q prop props none e = stays q _ e refl
  drain-Stays q prop props (some (x, rest)) e = stays _ _ e refl

  look-Stays :
      (q : SpmcSerialTaskQueue Q) (b : Bool) (c d : Call)
      → q.clearing ≡ true
      → is_past c ≡ false
      → is_past d ≡ false
      → Stays (q, some (if b then c else d))
  look-Stays q true c d e h h' = stays q (some c) e h
  look-Stays q false c d e h h' = stays q (some d) e h'

  first_look :
      (q : SpmcSerialTaskQueue Q) (b : Bool)
      → q.clearing ≡ true
      → b ≡ true
      → Stays (q, if b then none else some pop_loads_size)
  first_look q true e h = stays q none e refl
  first_look q false e h = absurd (ground arith)

  move-Stays :
      (q : SpmcSerialTaskQueue Q) (c : Call)
      → q.clearing ≡ true
      → is_past c ≡ false
      → Stays (move ops q c)
  unfolding move
  move-Stays q (add_loads prop x) e h =
      Stays-if q q.stopped none (some (add_guards prop x)) e refl refl
  move-Stays q (add_guards prop x) e h =
      Stays-if q (not (not_full ops q prop)) none (some (add_enqueues prop x)) e refl refl
  move-Stays q (add_enqueues prop x) e h = stays _ _ e refl
  move-Stays q (add_looks prop) e h =
      look-Stays q q.clearing (add_zeroes prop) (add_counts prop) e refl refl
  move-Stays q (add_zeroes prop) e h = stays _ _ e refl
  move-Stays q (add_zeroes_single prop) e h = stays _ _ e refl
  move-Stays q (add_counts prop) e h = stays _ _ e refl
  move-Stays q (add_counts_single prop) e h = stays _ _ e refl
  move-Stays q pop_loads_clear e h = first_look q q.clearing e e
  move-Stays q pop_loads_size e h = absurd (ground arith)
  move-Stays q pop_indexes e h = absurd (ground arith)
  move-Stays q (pop_claims place prop) e h = absurd (ground arith)
  move-Stays q (pop_holds place prop stage) e h = absurd (ground arith)
  move-Stays q start_swaps e h = stays _ _ e refl
  move-Stays q (stop_swaps bwait) e h =
      Stays-if (record q { stopped = true }) (q.stopped || bwait) none (some clear_sets) e refl refl
  move-Stays q clear_sets e h = stays _ _ refl refl
  move-Stays q (clear_blocks place zero) e h = stays _ _ e refl
  move-Stays q (clear_blocks place (suc left)) e h = stays _ _ e refl
  move-Stays q (clear_drains []) e h = stays _ _ e refl
  move-Stays q (clear_drains (prop ∷ props)) e h =
      drain-Stays q prop props (ops.try_dequeue (queue_of ops q prop)) e
  move-Stays q (clear_counts []) e h = stays _ _ e refl
  move-Stays q (clear_counts (prop ∷ props)) e h = stays _ _ e refl
  move-Stays q clear_index e h = stays _ _ e refl
  move-Stays q (clear_opens place zero) e h = stays _ _ e refl
  move-Stays q (clear_opens place (suc left)) e h = stays _ _ e refl
  move-Stays q clear_size e h = stays _ _ e refl

  record IsDead (s : System Q) : Type 0 where
    pub clearing : s.shared.clearing ≡ true
    pub none_past : NonePast s.calls

  settle-IsDead :
      (rest : List Call) (r : SpmcSerialTaskQueue Q × Option Call)
      → Stays r
      → NonePast rest
      → IsDead (settle ops rest r)
  unfolding settle
  settle-IsDead rest (q, none) st h = record { clearing = st.clearing; none_past = h }
  settle-IsDead rest (q, some c) st h = record {
    clearing = st.clearing;
    none_past = (st.before, h);
  }

  found-IsDead :
      (s : System Q) (o : Option (Call × List Call))
      → NoneFound o
      → IsDead s
      → IsDead (take_step ops s o)
  unfolding take_step
  found-IsDead s none f dead = dead
  found-IsDead s (some (c, rest)) (h, hs) dead =
      settle-IsDead rest (move ops s.shared c) (move-Stays s.shared c dead.clearing h) hs

  begin-IsDead :
      (s : System Q) (c : Call) (b : Bool)
      → is_start c ≡ b
      → IsDead s
      → IsDead (if b then record s { calls = c ∷ s.calls } else s)
  begin-IsDead s c true e dead = record {
    clearing = dead.clearing;
    none_past = (start-is_past c e, dead.none_past);
  }
  begin-IsDead s c false e dead = dead

  run-IsDead : (s : System Q) (actions : List Action) → IsDead s → IsDead (run ops s actions)
  unfolding run step
  run-IsDead s [] dead = dead
  run-IsDead s (begins c ∷ actions) dead =
      run-IsDead (step ops s (begins c)) actions (begin-IsDead s c (is_start c) refl dead)
  run-IsDead s (moves n ∷ actions) dead =
      run-IsDead (step ops s (moves n)) actions
        (found-IsDead s (extract n s.calls) (extract-NoneFound n s.calls dead.none_past) dead)

  -- From the moment at which the flag that `clear` sets is true, and no `pop_task` is past its first
  -- look, no task is run again, whatever is called and however the steps interleave, `start` and further
  -- calls of `add_task` included.
  pub clear_ends_all :
      (place : ℕ) (s : System Q) (actions : List Action)
      → s.shared.clearing ≡ true
      → NonePast s.calls
      → running place (run ops s actions).calls ≡ 0
  clear_ends_all place s actions e h =
      running-NonePast place (run ops s actions).calls
        (run-IsDead s actions (record { clearing = e; none_past = h })).none_past
