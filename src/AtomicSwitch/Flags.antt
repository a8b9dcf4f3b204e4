-- ===== src/AtomicSwitch/Flags.antt =====
-- The flags of an `AtomicSwitch` rise in order under each step.
use btool.Common.{ℕ, ◌≤◌, ◌≡◌, refl, arith, Bool, true, false, List, [], ◌∷◌}
use btool.AtomicSwitch.{
  AtomicSwitch, Call, init_swaps, start_loads_stop, start_loads_init, start_swaps, stop_loads_init,
  stop_loads_start, stop_swaps, move,
}

-- A success for each flag that is set.
abbrev pub ones : Bool → ℕ
ones true = 1
ones false = 0

pub ones_le : (m n : ℕ) (b c : Bool) → m ≡ ones b → n ≡ ones c → (b ≡ true → c ≡ true) → m ≤ n
ones_le m n true c e f h = ground (arith, h refl)
ones_le m n false c e f h = omega arith

pub one_at_most : (m : ℕ) (b : Bool) → m ≡ ones b → m ≤ 1
one_at_most m true e = omega arith
one_at_most m false e = omega arith

-- What a thread has seen of the flags by the time it comes to a step.
abbrev pub Seen : AtomicSwitch → Call → Type 0
Seen s start_swaps = s.binit ≡ true
Seen s stop_loads_start = s.binit ≡ true
Seen s stop_swaps = (s.binit ≡ true) × (s.bstart ≡ true)
Seen s c = Unit {0}

abbrev pub AllSeen : AtomicSwitch → List Call → Type 0
AllSeen s [] = Unit {0}
AllSeen s (c ∷ cs) = Seen s c × AllSeen s cs

-- No flag is cleared.
pub record Rises (s s' : AtomicSwitch) : Type 0 where
  pub keeps_init : s.binit ≡ true → s'.binit ≡ true
  pub keeps_start : s.bstart ≡ true → s'.bstart ≡ true

-- The flags are set in order.
pub record IsOrdered (s : AtomicSwitch) : Type 0 where
  pub start_after : s.bstart ≡ true → s.binit ≡ true
  pub stop_after : s.bstop ≡ true → s.bstart ≡ true

Seen-keeps : (s s' : AtomicSwitch) (c : Call) → Rises s s' → Seen s c → Seen s' c
Seen-keeps s s' init_swaps r h = tt
Seen-keeps s s' start_loads_stop r h = tt
Seen-keeps s s' start_loads_init r h = tt
Seen-keeps s s' start_swaps r h = r.keeps_init h
Seen-keeps s s' stop_loads_init r h = tt
Seen-keeps s s' stop_loads_start r h = r.keeps_init h
Seen-keeps s s' stop_swaps r (i, h) = (r.keeps_init i, r.keeps_start h)

pub AllSeen-keeps :
    (s s' : AtomicSwitch) (cs : List Call) → Rises s s' → AllSeen s cs → AllSeen s' cs
AllSeen-keeps s s' [] r h = tt
AllSeen-keeps s s' (c ∷ cs) r (h, hs) = (Seen-keeps s s' c r h, AllSeen-keeps s s' cs r hs)

pub move-Rises : (s : AtomicSwitch) (c : Call) → Rises s (move s c).0
unfolding move
move-Rises s init_swaps = record { keeps_init = λ h. refl; keeps_start = λ h. h }
move-Rises s start_loads_stop = record { keeps_init = λ h. h; keeps_start = λ h. h }
move-Rises s start_loads_init = record { keeps_init = λ h. h; keeps_start = λ h. h }
move-Rises s start_swaps = record { keeps_init = λ h. h; keeps_start = λ h. refl }
move-Rises s stop_loads_init = record { keeps_init = λ h. h; keeps_start = λ h. h }
move-Rises s stop_loads_start = record { keeps_init = λ h. h; keeps_start = λ h. h }
move-Rises s stop_swaps = record { keeps_init = λ h. h; keeps_start = λ h. h }

pub move-IsOrdered : (s : AtomicSwitch) (c : Call) → Seen s c → IsOrdered s → IsOrdered (move s c).0
unfolding move
move-IsOrdered s init_swaps h o = record { start_after = λ e. refl; stop_after = o.stop_after }
move-IsOrdered s start_loads_stop h o = o
move-IsOrdered s start_loads_init h o = o
move-IsOrdered s start_swaps h o = record { start_after = λ e. h; stop_after = λ e. refl }
move-IsOrdered s stop_loads_init h o = o
move-IsOrdered s stop_loads_start h o = o
move-IsOrdered s stop_swaps (i, h) o = record { start_after = o.start_after; stop_after = λ e. h }
