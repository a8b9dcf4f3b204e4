-- ===== src/AtomicSwitch/Once.antt =====
-- Threads that race on an `AtomicSwitch`: each operation succeeds once, and in order.
use btool.Common.{
  ℕ, zero, suc, ◌≤◌, ◌≡◌, refl, ap, ◌∙◌, arith, Bool, true, false, not, List, [], ◌∷◌, Option, none,
  some, if◌then◌else◌,
}
use btool.AtomicSwitch.{
  AtomicSwitch, Call, init_swaps, start_loads_stop, start_loads_init, start_swaps, stop_loads_init,
  stop_loads_start, stop_swaps, returns, goes_on, move, put_back, take_step, extract, settle,
  System, boot, Action, calls_init, calls_start, calls_stop, moves, advance, step, run, create,
}
use btool.AtomicSwitch.Flags.{
  ones, ones_le, one_at_most, Seen, AllSeen, IsOrdered, AllSeen-keeps, move-Rises, move-IsOrdered,
}

-- The system: a success for each flag, flags in order, and threads that are where the flags let them be.
record IsSafe (s : System) : Type 0 where
  pub ordered : IsOrdered s.shared
  pub seen : AllSeen s.shared s.calls
  pub inits : s.inits ≡ ones s.shared.binit
  pub starts : s.starts ≡ ones s.shared.bstart
  pub stops : s.stops ≡ ones s.shared.bstop

abbrev AllFound : AtomicSwitch → Option (Call × List Call) → Type 0
AllFound s none = Unit {0}
AllFound s (some (c, rest)) = Seen s c × AllSeen s rest

put_back-AllFound :
    (s : AtomicSwitch) (c : Call) (o : Option (Call × List Call))
    → Seen s c
    → AllFound s o
    → AllFound s (put_back c o)
unfolding put_back
put_back-AllFound s c none h f = tt
put_back-AllFound s c (some (d, ds)) h (g, gs) = (g, (h, gs))

extract-AllFound :
    (s : AtomicSwitch) (n : ℕ) (cs : List Call) → AllSeen s cs → AllFound s (extract n cs)
unfolding extract
extract-AllFound s n [] h = tt
extract-AllFound s zero (d ∷ cs) (h, hs) = (h, hs)
extract-AllFound s (suc n) (d ∷ cs) (h, hs) =
    put_back-AllFound s d (extract n cs) h (extract-AllFound s n cs hs)

-- A call that only looked, and goes on or gives up.
load-IsSafe :
    (s : System) (c d : Call) (rest : List Call) (b : Bool)
    → IsSafe s
    → AllSeen s.shared rest
    → (b ≡ false → Seen s.shared d)
    → IsSafe (settle s c s.shared rest (if b then returns false else goes_on d))
unfolding settle
load-IsSafe s c d rest true safe h seen = record {
  ordered = safe.ordered;
  seen = h;
  inits = safe.inits;
  starts = safe.starts;
  stops = safe.stops;
}
load-IsSafe s c d rest false safe h seen = record {
  ordered = safe.ordered;
  seen = (seen refl, h);
  inits = safe.inits;
  starts = safe.starts;
  stops = safe.stops;
}

init-IsSafe :
    (s : System) (rest : List Call) (b : Bool)
    → IsSafe s
    → AllSeen s.shared rest
    → s.shared.binit ≡ b
    → IsSafe (settle s init_swaps (record s.shared { binit = true }) rest (returns (not b)))
unfolding settle move
init-IsSafe s rest true safe h e = record {
  ordered = move-IsOrdered s.shared init_swaps tt safe.ordered;
  seen =
      AllSeen-keeps s.shared (move s.shared init_swaps).0 rest (move-Rises s.shared init_swaps) h;
  inits = safe.inits ∙ ap ones e;
  starts = safe.starts;
  stops = safe.stops;
}
init-IsSafe s rest false safe h e = record {
  ordered = move-IsOrdered s.shared init_swaps tt safe.ordered;
  seen =
      AllSeen-keeps s.shared (move s.shared init_swaps).0 rest (move-Rises s.shared init_swaps) h;
  inits = ap suc (safe.inits ∙ ap ones e);
  starts = safe.starts;
  stops = safe.stops;
}

start-IsSafe :
    (s : System) (rest : List Call) (b : Bool)
    → IsSafe s
    → Seen s.shared start_swaps
    → AllSeen s.shared rest
    → s.shared.bstart ≡ b
    → IsSafe (settle s start_swaps (record s.shared { bstart = true }) rest (returns (not b)))
unfolding settle move
start-IsSafe s rest true safe seen h e = record {
  ordered = move-IsOrdered s.shared start_swaps seen safe.ordered;
  seen =
      AllSeen-keeps s.shared (move s.shared start_swaps).0 rest (move-Rises s.shared start_swaps) h;
  inits = safe.inits;
  starts = safe.starts ∙ ap ones e;
  stops = safe.stops;
}
start-IsSafe s rest false safe seen h e = record {
  ordered = move-IsOrdered s.shared start_swaps seen safe.ordered;
  seen =
      AllSeen-keeps s.shared (move s.shared start_swaps).0 rest (move-Rises s.shared start_swaps) h;
  inits = safe.inits;
  starts = ap suc (safe.starts ∙ ap ones e);
  stops = safe.stops;
}

stop-IsSafe :
    (s : System) (rest : List Call) (b : Bool)
    → IsSafe s
    → Seen s.shared stop_swaps
    → AllSeen s.shared rest
    → s.shared.bstop ≡ b
    → IsSafe (settle s stop_swaps (record s.shared { bstop = true }) rest (returns (not b)))
unfolding settle move
stop-IsSafe s rest true safe seen h e = record {
  ordered = move-IsOrdered s.shared stop_swaps seen safe.ordered;
  seen =
      AllSeen-keeps s.shared (move s.shared stop_swaps).0 rest (move-Rises s.shared stop_swaps) h;
  inits = safe.inits;
  starts = safe.starts;
  stops = safe.stops ∙ ap ones e;
}
stop-IsSafe s rest false safe seen h e = record {
  ordered = move-IsOrdered s.shared stop_swaps seen safe.ordered;
  seen =
      AllSeen-keeps s.shared (move s.shared stop_swaps).0 rest (move-Rises s.shared stop_swaps) h;
  inits = safe.inits;
  starts = safe.starts;
  stops = ap suc (safe.stops ∙ ap ones e);
}

take_step-IsSafe :
    (s : System) (o : Option (Call × List Call))
    → IsSafe s
    → AllFound s.shared o
    → IsSafe (take_step s o)
unfolding take_step move
take_step-IsSafe s none safe f = safe
take_step-IsSafe s (some (init_swaps, rest)) safe (h, hs) =
    init-IsSafe s rest s.shared.binit safe hs refl
take_step-IsSafe s (some (start_loads_stop, rest)) safe (h, hs) =
    load-IsSafe s start_loads_stop start_loads_init rest s.shared.bstop safe hs (λ e. tt)
take_step-IsSafe s (some (start_loads_init, rest)) safe (h, hs) =
    load-IsSafe s start_loads_init start_swaps rest (not s.shared.binit) safe hs (λ e. ground arith)
take_step-IsSafe s (some (start_swaps, rest)) safe (h, hs) =
    start-IsSafe s rest s.shared.bstart safe h hs refl
take_step-IsSafe s (some (stop_loads_init, rest)) safe (h, hs) =
    load-IsSafe s stop_loads_init stop_loads_start rest (not s.shared.binit) safe hs
      (λ e. ground arith)
take_step-IsSafe s (some (stop_loads_start, rest)) safe (h, hs) =
    load-IsSafe s stop_loads_start stop_swaps rest (not s.shared.bstart) safe hs
      (λ e. (h, ground arith))
take_step-IsSafe s (some (stop_swaps, rest)) safe (h, hs) =
    stop-IsSafe s rest s.shared.bstop safe h hs refl

step-IsSafe : (s : System) (a : Action) → IsSafe s → IsSafe (step s a)
unfolding step advance
step-IsSafe s calls_init safe = record {
  ordered = safe.ordered;
  seen = (tt, safe.seen);
  inits = safe.inits;
  starts = safe.starts;
  stops = safe.stops;
}
step-IsSafe s calls_start safe = record {
  ordered = safe.ordered;
  seen = (tt, safe.seen);
  inits = safe.inits;
  starts = safe.starts;
  stops = safe.stops;
}
step-IsSafe s calls_stop safe = record {
  ordered = safe.ordered;
  seen = (tt, safe.seen);
  inits = safe.inits;
  starts = safe.starts;
  stops = safe.stops;
}
step-IsSafe s (moves n) safe =
    take_step-IsSafe s (extract n s.calls) safe (extract-AllFound s.shared n s.calls safe.seen)

run-IsSafe : (s : System) (actions : List Action) → IsSafe s → IsSafe (run s actions)
unfolding run
run-IsSafe s [] safe = safe
run-IsSafe s (a ∷ actions) safe = run-IsSafe (step s a) actions (step-IsSafe s a safe)

boot-IsSafe : IsSafe boot
unfolding boot create
boot-IsSafe = record {
  ordered = record {
    start_after = λ e. absurd (ground arith);
    stop_after = λ e. absurd (ground arith);
  };
  seen = tt;
  inits = refl;
  starts = refl;
  stops = refl;
}

-- However many threads call `init`, `start` and `stop` at once, and however their steps interleave, as
-- many calls of each have succeeded as its flag says, one or none; and none of `start` has succeeded
-- before one of `init`, nor one of `stop` before one of `start`.
pub succeeds_once :
    (actions : List Action)
    → let s = run boot actions in
      (s.inits ≡ ones s.shared.binit)
      × (s.starts ≡ ones s.shared.bstart)
      × (s.stops ≡ ones s.shared.bstop)
      × (s.stops ≤ s.starts)
      × (s.starts ≤ s.inits)
      × (s.inits ≤ 1)
succeeds_once actions =
    let safe = run-IsSafe boot actions boot-IsSafe in
    (
      safe.inits,
      safe.starts,
      safe.stops,
      ones_le _ _ _ _ safe.stops safe.starts safe.ordered.stop_after,
      ones_le _ _ _ _ safe.starts safe.inits safe.ordered.start_after,
      one_at_most _ _ safe.inits,
    )
