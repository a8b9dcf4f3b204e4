-- ===== src/SnowFlake/Tests.antt =====
-- The theorems about `SnowFlakeID` at concrete readings.
use btool.Common.{refl, ℕ, ◌≡◌, ◌↔◌, List, [], ◌∷◌, none, arith}
use btool.SnowFlake.{
  SnowFlake, init, set_worker_id, make_id, or_bits, get_id, get_ids, issue, issue_again,
}
use btool.SnowFlake.Ids.{IsTimely}
use btool.SnowFlake.Calls.{AllTimely}
use btool.SnowFlake.Order.{Ascending, NoneLater, ids_increase, get_id_returns}

abbrev morning : ℕ
morning = 1700000000000

morning-IsTimely : IsTimely morning
morning-IsTimely = record { after = omega arith; before = omega arith }

later-IsTimely : IsTimely 1700000000001
later-IsTimely = record { after = omega arith; before = omega arith }

-- Two calls in one millisecond, one after the clock went back, and one later.
abbrev readings : List ℕ
readings = 1700000000001 ∷ 1700000000001 ∷ 1700000000000 ∷ 1700000000001 ∷ []

readings-AllTimely : AllTimely readings
readings-AllTimely = (later-IsTimely, (later-IsTimely, (morning-IsTimely, (later-IsTimely, tt))))

get_ids_test :
    get_ids 4 (set_worker_id init 1029) readings
    ≡ 379876435562614784 ∷ 379876435562614785 ∷ 0 ∷ 379876435562614786 ∷ []
unfolding get_ids get_id issue issue_again make_id or_bits set_worker_id init
get_ids_test = refl

ids_increase_example : Ascending 0 (get_ids 4 (set_worker_id init 1029) readings)
ids_increase_example = ids_increase 4 1029 readings readings-AllTimely

-- The sequence has run over.
abbrev spent : SnowFlake
spent = record { worker_id = 5; sequence = 4095; last_timestamp = 1700000000000 }

get_id_returns_example :
    (get_id spent (morning ∷ morning ∷ []) ≡ none)
    ↔ ((morning ≡ 1700000000000) × (spent.sequence ≡ 4095) × NoneLater morning (morning ∷ []))
get_id_returns_example = get_id_returns spent morning (morning ∷ []) (omega arith)
