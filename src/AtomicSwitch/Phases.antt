-- ===== src/AtomicSwitch/Phases.antt =====
-- One thread's view of an `AtomicSwitch`: four phases, through which the operations go in order.
use btool.Common.{Bool, true, false, not, some, ◌≡◌, refl}
use btool.AtomicSwitch.{
  AtomicSwitch, create, move, finish, init, start, stop, reset, has_init, has_started, has_stoped,
}

pub data Phase : Type 0 where
  idle : Phase
  ready : Phase
  running : Phase
  ended : Phase

-- The flags of a phase.
abbrev pub flags : Phase → AtomicSwitch
flags idle = record { binit = false; bstart = false; bstop = false }
flags ready = record { binit = true; bstart = false; bstop = false }
flags running = record { binit = true; bstart = true; bstop = false }
flags ended = record { binit = true; bstart = true; bstop = true }

abbrev pub after_init : Phase → Phase × Bool
after_init idle = (ready, true)
after_init p = (p, false)

abbrev pub after_start : Phase → Phase × Bool
after_start ready = (running, true)
after_start p = (p, false)

abbrev pub after_stop : Phase → Phase × Bool
after_stop running = (ended, true)
after_stop p = (p, false)

abbrev pub is_ready : Phase → Bool
is_ready idle = false
is_ready p = true

abbrev pub is_running : Phase → Bool
is_running running = true
is_running p = false

-- Where no other thread acts: `init` goes from idle to ready and succeeds there only, `start` from ready to
-- running, `stop` from running to ended, each once; `reset` is back to idle; and of the tests,
-- `has_started` holds in the running phase alone, `has_stoped` in all the others.
pub follows_phases :
    (p : Phase)
    → (init (flags p) ≡ (flags (after_init p).0, some (after_init p).1))
      × (start (flags p) ≡ (flags (after_start p).0, some (after_start p).1))
      × (stop (flags p) ≡ (flags (after_stop p).0, some (after_stop p).1))
      × (reset (flags p) ≡ flags idle)
      × (create ≡ flags idle)
      × (has_init (flags p) ≡ is_ready p)
      × (has_started (flags p) ≡ is_running p)
      × (has_stoped (flags p) ≡ not (is_running p))
unfolding create move finish init start stop reset has_init has_started has_stoped
follows_phases idle = (refl, refl, refl, refl, refl, refl, refl, refl)
follows_phases ready = (refl, refl, refl, refl, refl, refl, refl, refl)
follows_phases running = (refl, refl, refl, refl, refl, refl, refl, refl)
follows_phases ended = (refl, refl, refl, refl, refl, refl, refl, refl)
