-- ===== src/ScrollWindow/Vector/Tests.antt =====
-- The theorems about `ScrollWindowVector` at concrete values.
use btool.Common.{ℕ, ◌-◌, ◌≤◌, ◌≡◌, refl, List, [], ◌∷◌, some, arith, drop, length}
use btool.ScrollWindow.Vector.{
  Vector, init, set_fix_length, emplace_back, emplace_all, latest, is_empty, is_full, surplus,
  shift, push, back, clear,
}
use btool.ScrollWindow.Vector.Keep.{keeps_latest}

abbrev values : List ℕ
values = 1 ∷ 2 ∷ 3 ∷ 4 ∷ 5 ∷ []

abbrev shifted : Vector ℕ
shifted = record { datas = 4 ∷ 5 ∷ []; fix_length = 2; multiple = 2 }

emplace_all_test : emplace_all (set_fix_length 2 2 (init [])) values ≡ some shifted
unfolding emplace_all set_fix_length init emplace_back is_empty is_full surplus shift push
emplace_all_test = refl

back_test : back shifted ≡ some 5
unfolding back is_empty
back_test = refl

clear_test : (clear shifted).datas ≡ []
unfolding clear
clear_test = refl

keeps_latest_example :
    (v : Vector ℕ) × (emplace_all (set_fix_length 2 2 (init [])) values ≡ some v)
    × (length v.datas ≤ 4)
    × (let (start, real_size) = latest v 1 in
        (real_size ≡ 1) × (drop start v.datas ≡ drop (5 - real_size) values))
keeps_latest_example =
    keeps_latest 2 2 1 values (omega arith) (omega arith) (omega arith) (omega arith) (omega arith)
