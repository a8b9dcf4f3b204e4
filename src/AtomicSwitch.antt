-- ===== src/AtomicSwitch.antt =====
-- `AtomicSwitch` of atomic_switch.hpp: three atomic flags for the life of a component. Each load, store and
-- exchange of a flag is a step of its own, between which other threads act; the whole operations are
-- these steps in a row.
pub mod Phases
pub mod Flags
pub mod Once
mod Tests
use btool.Common.{
  ℕ, zero, suc, ◌+◌, Bool, true, false, not, ◌&&◌, ◌||◌, List, [], ◌∷◌, Option, none, some,
  if◌then◌else◌,
}

pub record AtomicSwitch : Type 0 where
  pub binit : Bool
  pub bstart : Bool
  pub bstop : Bool

unfoldable pub create : AtomicSwitch
create = record { binit = false; bstart = false; bstop = false }

-- What is left of a call: the flag that it goes on to look at or to exchange.
pub data Call : Type 0 where
  init_swaps : Call
  start_loads_stop : Call
  start_loads_init : Call
  start_swaps : Call
  stop_loads_init : Call
  stop_loads_start : Call
  stop_swaps : Call

-- A step ends the call with its result, or leaves the rest of it.
pub data Outcome : Type 0 where
  returns : Bool → Outcome
  goes_on : Call → Outcome

-- `compare_exchange_strong` from false to true of each flag.
unfoldable pub swap_init : AtomicSwitch → AtomicSwitch × Outcome
swap_init s = (record s { binit = true }, returns (not s.binit))

unfoldable pub swap_start : AtomicSwitch → AtomicSwitch × Outcome
swap_start s = (record s { bstart = true }, returns (not s.bstart))

unfoldable pub swap_stop : AtomicSwitch → AtomicSwitch × Outcome
swap_stop s = (record s { bstop = true }, returns (not s.bstop))

unfoldable pub move : AtomicSwitch → Call → AtomicSwitch × Outcome
unfolding swap_init swap_start swap_stop
move s init_swaps = swap_init s
move s start_loads_stop = (s, if s.bstop then returns false else goes_on start_loads_init)
move s start_loads_init = (s, if not s.binit then returns false else goes_on start_swaps)
move s start_swaps = swap_start s
move s stop_loads_init = (s, if not s.binit then returns false else goes_on stop_loads_start)
move s stop_loads_start = (s, if not s.bstart then returns false else goes_on stop_swaps)
move s stop_swaps = swap_stop s

-- A call with no other thread between its steps: three of them at most.
unfoldable pub finish : ℕ → AtomicSwitch × Outcome → AtomicSwitch × Option Bool
unfolding move
finish fuel (s, returns b) = (s, some b)
finish zero (s, goes_on c) = (s, none)
finish (suc fuel) (s, goes_on c) = finish fuel (move s c)

unfoldable pub init : AtomicSwitch → AtomicSwitch × Option Bool
unfolding finish
init s = finish 3 (s, goes_on init_swaps)

unfoldable pub start : AtomicSwitch → AtomicSwitch × Option Bool
unfolding finish
start s = finish 3 (s, goes_on start_loads_stop)

unfoldable pub stop : AtomicSwitch → AtomicSwitch × Option Bool
unfolding finish
stop s = finish 3 (s, goes_on stop_loads_init)

-- Its three stores, with no other thread between them.
unfoldable pub reset : AtomicSwitch → AtomicSwitch
reset s = record { binit = false; bstart = false; bstop = false }

unfoldable pub has_init : AtomicSwitch → Bool
has_init s = s.binit

unfoldable pub has_started : AtomicSwitch → Bool
unfolding has_init
has_started s = not s.bstop && (s.bstart && has_init s)

unfoldable pub has_stoped : AtomicSwitch → Bool
unfolding has_init
has_stoped s = not (has_init s) || (not s.bstart || s.bstop)

-- The threads inside a call, and how many calls of each operation have returned true.
pub record System : Type 0 where
  pub shared : AtomicSwitch
  pub calls : List Call
  pub inits : ℕ
  pub starts : ℕ
  pub stops : ℕ

pub boot : System
unfolding create
boot = record { shared = create; calls = []; inits = 0; starts = 0; stops = 0 }

pub put_back : Call → Option (Call × List Call) → Option (Call × List Call)
put_back c none = none
put_back c (some (d, ds)) = some (d, c ∷ ds)

-- One call out of the list by its place.
pub extract : ℕ → List Call → Option (Call × List Call)
unfolding put_back
extract n [] = none
extract zero (c ∷ cs) = some (c, cs)
extract (suc n) (c ∷ cs) = put_back c (extract n cs)

pub settle : System → Call → AtomicSwitch → List Call → Outcome → System
settle s c shared rest (goes_on d) = record s { shared = shared; calls = d ∷ rest }
settle s c shared rest (returns false) = record s { shared = shared; calls = rest }
settle s init_swaps shared rest (returns true) = record s {
  shared = shared;
  calls = rest;
  inits = suc s.inits;
}
settle s start_swaps shared rest (returns true) = record s {
  shared = shared;
  calls = rest;
  starts = suc s.starts;
}
settle s stop_swaps shared rest (returns true) = record s {
  shared = shared;
  calls = rest;
  stops = suc s.stops;
}
settle s start_loads_stop shared rest (returns true) = record s { shared = shared; calls = rest }
settle s start_loads_init shared rest (returns true) = record s { shared = shared; calls = rest }
settle s stop_loads_init shared rest (returns true) = record s { shared = shared; calls = rest }
settle s stop_loads_start shared rest (returns true) = record s { shared = shared; calls = rest }

pub data Action : Type 0 where
  calls_init : Action
  calls_start : Action
  calls_stop : Action
  moves : ℕ → Action

pub take_step : System → Option (Call × List Call) → System
unfolding settle move
take_step s none = s
take_step s (some (c, rest)) =
    let (shared, outcome) = move s.shared c in settle s c shared rest outcome

-- The thread at a place takes a step; with no such thread, nothing happens.
pub advance : System → ℕ → System
unfolding extract take_step
advance s n = take_step s (extract n s.calls)

pub step : System → Action → System
unfolding advance
step s calls_init = record s { calls = init_swaps ∷ s.calls }
step s calls_start = record s { calls = start_loads_stop ∷ s.calls }
step s calls_stop = record s { calls = stop_loads_init ∷ s.calls }
step s (moves n) = advance s n

pub run : System → List Action → System
unfolding step
run s [] = s
run s (a ∷ actions) = run (step s a) actions
