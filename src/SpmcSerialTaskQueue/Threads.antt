-- ===== src/SpmcSerialTaskQueue/Threads.antt =====
-- Threads that use one `SPMCSerialTaskQueue`: a list of actions is an interleaving of their steps.
use btool.Common.{ℕ, zero, suc, Bool, true, false, List, [], ◌∷◌, Option, none, some, if◌then◌else◌}
use btool.ParallelTaskQueue.{ConcurrentQueue}
use btool.SpmcSerialTaskQueue.{
  SpmcSerialTaskQueue, Call, add_loads, pop_loads_clear, start_swaps, stop_swaps, clear_sets, init,
  reset_props, move,
}

-- Where an operation starts.
unfoldable pub is_start : Call → Bool
is_start (add_loads prop x) = true
is_start pop_loads_clear = true
is_start start_swaps = true
is_start (stop_swaps bwait) = true
is_start clear_sets = true
is_start c = false

pub data Action : Type 0 where
  begins : Call → Action
  moves : ℕ → Action

pub record System (Q : Type 0) : Type 0 where
  pub shared : SpmcSerialTaskQueue Q
  pub calls : List Call

unfoldable pub put_back : Call → Option (Call × List Call) → Option (Call × List Call)
put_back c none = none
put_back c (some (d, ds)) = some (d, c ∷ ds)

-- One call out of the list by its place.
unfoldable pub extract : ℕ → List Call → Option (Call × List Call)
unfolding put_back
extract n [] = none
extract zero (c ∷ cs) = some (c, cs)
extract (suc n) (c ∷ cs) = put_back c (extract n cs)

module _ {Q : Type 0} (ops : ConcurrentQueue Q) where
  unfoldable pub settle : List Call → SpmcSerialTaskQueue Q × Option Call → System Q
  settle rest (q, none) = record { shared = q; calls = rest }
  settle rest (q, some c) = record { shared = q; calls = c ∷ rest }

  unfoldable pub take_step : System Q → Option (Call × List Call) → System Q
  unfolding settle move
  take_step s none = s
  take_step s (some (c, rest)) = settle rest (move ops s.shared c)

  unfoldable pub step : System Q → Action → System Q
  unfolding extract take_step is_start
  step s (begins c) = if is_start c then record s { calls = c ∷ s.calls } else s
  step s (moves n) = take_step s (extract n s.calls)

  unfoldable pub run : System Q → List Action → System Q
  unfolding step
  run s [] = s
  run s (a ∷ actions) = run (step s a) actions

  unfoldable pub boot : ℕ → List ℕ → System Q
  unfolding init reset_props
  boot max_single_task_count props = record {
    shared = reset_props ops (init ops max_single_task_count) props;
    calls = [];
  }
