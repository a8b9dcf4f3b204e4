-- ===== src/ScrollWindow/Array/Tests.antt =====
-- The theorems about `ScrollWindowArray` at concrete windows.
use btool.Common.{ℕ, ◌≡◌, refl, [], ◌∷◌, some, arith, ◌>>=◌}
use btool.ScrollWindow.Array.{
  Window, init, emplace_back, begin_index, visit, back, next_index, at_index,
}
use btool.ScrollWindow.Array.Refine.{IsValid, contents, push_latest, emplace_back_refines}
use btool.ScrollWindow.Array.Iterate.{for_each_visits}

abbrev start : Window ℕ
start = record { datas = 0 ∷ 0 ∷ 0 ∷ []; cur_index = 18446744073709551615; cur_length = 0 }

init_test : init (0 ∷ 0 ∷ 0 ∷ []) ≡ start
unfolding init
init_test = refl

-- Four values went into three places.
abbrev round : Window ℕ
round = record { datas = 4 ∷ 2 ∷ 3 ∷ []; cur_index = 0; cur_length = 3 }

emplace_back_test :
    (do
      a ← emplace_back 3 start 1
      b ← emplace_back 3 a 2
      c ← emplace_back 3 b 3
      emplace_back 3 c 4)
    ≡ some round
unfolding emplace_back next_index
emplace_back_test = refl

at_index_test : at_index 3 round 1 ≡ 2
unfolding at_index
at_index_test = refl

round-IsValid : IsValid 3 round
round-IsValid = record {
  room = refl;
  small = omega arith;
  counted = omega arith;
  filling = λ h. omega arith;
  index = λ h. omega arith;
}

-- Two values in three places.
abbrev partial : Window ℕ
partial = record { datas = 1 ∷ 2 ∷ 0 ∷ []; cur_index = 1; cur_length = 2 }

partial-IsValid : IsValid 3 partial
partial-IsValid = record {
  room = refl;
  small = omega arith;
  counted = omega arith;
  filling = λ h. refl;
  index = λ h. omega arith;
}

emplace_back_refines_example :
    (w : Window ℕ) × (emplace_back 3 round 5 ≡ some w)
    × (contents 3 w ≡ push_latest 3 (contents 3 round) 5)
    × (w.cur_length ≡ 3)
    × (back w ≡ some 5)
    × IsValid 3 w
emplace_back_refines_example = emplace_back_refines 3 round 5 (omega arith) round-IsValid

for_each_visits_example : visit 3 5 round (begin_index 3 round) ≡ some (contents 3 round)
for_each_visits_example = for_each_visits 3 round (omega arith) round-IsValid

contents_test : contents 3 round ≡ 2 ∷ 3 ∷ 4 ∷ []
unfolding contents
contents_test = refl
