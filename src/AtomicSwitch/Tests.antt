-- ===== src/AtomicSwitch/Tests.antt =====
-- The theorems about `AtomicSwitch` at a concrete schedule.
use btool.Common.{◌≤◌, ◌≡◌, refl, List, [], ◌∷◌}
use btool.AtomicSwitch.{
  create, move, Action, boot, run, step, advance, take_step, extract, put_back, settle, calls_init,
  calls_start, calls_stop, moves,
}
use btool.AtomicSwitch.Flags.{ones}
use btool.AtomicSwitch.Once.{succeeds_once}

-- Two threads race to start after an init, a third stops.
abbrev race : List Action
race =
    calls_init
    ∷ moves 0
    ∷ calls_start
    ∷ calls_start
    ∷ moves 0
    ∷ moves 1
    ∷ moves 0
    ∷ moves 1
    ∷ moves 0
    ∷ moves 0
    ∷ calls_stop
    ∷ moves 0
    ∷ moves 0
    ∷ moves 0
    ∷ []

race_test : (run boot race).stops ≡ 1
unfolding run boot create step advance take_step extract put_back settle move
race_test = refl

succeeds_once_example :
    let s = run boot race in
    (s.inits ≡ ones s.shared.binit)
    × (s.starts ≡ ones s.shared.bstart)
    × (s.stops ≡ ones s.shared.bstop)
    × (s.stops ≤ s.starts)
    × (s.starts ≤ s.inits)
    × (s.inits ≤ 1)
succeeds_once_example = succeeds_once race
