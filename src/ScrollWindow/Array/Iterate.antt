-- ===== src/ScrollWindow/Array/Iterate.antt =====
-- A range-based `for` over a `ScrollWindowArray` visits the contents in order, and ends.
use native.Mathlib.Decide.{dec_lt, ℕ_discrete}
use native.Mathlib.Nat.{mod-eq_of_lt, mod_self}
use btool.Common.{
  ℕ, zero, suc, ◌+◌, ◌-◌, ◌^◌, ◌<◌, ◌≡◌, ◌≢◌, refl, sym, ap, ◌∙◌, false, List, [], ◌∷◌, ◌++◌, some,
  arith, ◌==◌, if◌then◌else◌, get_elem?, take, drop, get_elem?-drop, drop_past,
}
use btool.ScrollWindow.Array.{Window, begin_index, advance, visit}
use btool.ScrollWindow.Array.Refine.{IsValid, contents}

module _ {A : Type 0} (n : ℕ) (w : Window A) where
  visit_end : (fuel : ℕ) → visit n (suc fuel) w n ≡ some []
  unfolding visit
  visit_end fuel = ground arith

  visit_step :
      (fuel i j : ℕ) (x : A) (xs : List A)
      → i ≢ n
      → get_elem? w.datas i ≡ some x
      → advance n w i ≡ j
      → visit n fuel w j ≡ some xs
      → visit n (suc fuel) w i ≡ some (x ∷ xs)
  unfolding visit
  visit_step fuel i j x xs ne e a r = rw (not_end, e, a, r)
    where
      not_end : (i == n) ≡ false
      not_end = ground arith

  advance_inside :
      (i : ℕ) → n < 2 ^ 63 → suc i < n → i ≢ w.cur_index → w.cur_index < n → advance n w i ≡ suc i
  unfolding advance
  advance_inside i small less ne c = ground arith

  advance_newest : n < 2 ^ 63 → w.cur_index < n → advance n w w.cur_index ≡ n
  unfolding advance
  advance_newest small c = ground arith

  advance_round : (i : ℕ) → n < 2 ^ 63 → suc i ≡ n → suc w.cur_index < n → advance n w i ≡ 0
  unfolding advance
  advance_round i small last c = ground arith

  -- From an index up to that of the newest value: `k` values.
  pub visit_newest :
      (k fuel i : ℕ)
      → IsValid n w
      → w.cur_index < n
      → i + suc k ≡ suc w.cur_index
      → suc k < fuel
      → visit n fuel w i ≡ some (take (suc k) (drop i w.datas))
  visit_newest k zero i v c e f = absurd (omega arith)
  visit_newest k (suc zero) i v c e f = absurd (omega arith)
  visit_newest zero (suc (suc fuel)) i v c e f =
      let (x, reads, here) = get_elem?-drop w.datas i (omega (arith, v.room)) in
      let at : i ≡ w.cur_index = omega arith in
      visit_step (suc fuel) i n x [] (omega arith) reads
        (ap (advance n w) at ∙ advance_newest v.small c) (visit_end fuel)
      ∙ ap (λ xs. some (take 1 xs)) (sym here)
  visit_newest (suc k) (suc (suc fuel)) i v c e f =
      let (x, reads, here) = get_elem?-drop w.datas i (omega (arith, v.room)) in
      visit_step (suc fuel) i (suc i) x (take (suc k) (drop (suc i) w.datas)) (omega arith) reads
        (advance_inside i v.small (omega arith) (omega arith) c)
        (visit_newest k (suc fuel) (suc i) v c (omega arith) (omega arith))
      ∙ ap (λ xs. some (take (suc (suc k)) xs)) (sym here)

  -- From an index behind the newest value to the end of the array, and on from its start.
  pub visit_oldest :
      (k fuel i : ℕ)
      → IsValid n w
      → suc w.cur_index < n
      → w.cur_index < i
      → i + suc k ≡ n
      → suc k + suc w.cur_index < fuel
      → visit n fuel w i ≡ some (drop i w.datas ++ take (suc w.cur_index) w.datas)
  visit_oldest k zero i v c b e f = absurd (omega arith)
  visit_oldest zero (suc fuel) i v c b e f =
      let (x, reads, here) = get_elem?-drop w.datas i (omega (arith, v.room)) in
      visit_step fuel i 0 x (take (suc w.cur_index) w.datas) (omega arith) reads
        (advance_round i v.small (omega arith) c)
        (visit_newest w.cur_index fuel 0 v (omega arith) (omega arith) (omega arith))
      ∙ ap (λ xs. some (xs ++ take (suc w.cur_index) w.datas))
          (ap (λ xs. x ∷ xs) (sym (drop_past (suc i) w.datas (omega (arith, v.room)))) ∙ sym here)
  visit_oldest (suc k) (suc fuel) i v c b e f =
      let (x, reads, here) = get_elem?-drop w.datas i (omega (arith, v.room)) in
      visit_step fuel i (suc i) x (drop (suc i) w.datas ++ take (suc w.cur_index) w.datas)
        (omega arith) reads (advance_inside i v.small (omega arith) (omega arith) (omega arith))
        (visit_oldest k fuel (suc i) v c (omega arith) (omega arith) (omega arith))
      ∙ ap (λ xs. some (xs ++ take (suc w.cur_index) w.datas)) (sym here)

  begin_empty : w.cur_length ≡ 0 → begin_index n w ≡ n
  unfolding begin_index
  begin_empty e = ground arith

  begin_filling : 0 < w.cur_length → w.cur_length < n → begin_index n w ≡ 0
  unfolding begin_index
  begin_filling h k = ground arith

  pub begin_full :
      IsValid n w
      → 0 < n
      → w.cur_length ≡ n
      → begin_index n w ≡ (if suc w.cur_index == n then 0 else suc w.cur_index)
  unfolding begin_index
  begin_full v pos full =
      let c = v.index (omega arith) in
      elim (ℕ_discrete (suc w.cur_index) n) [
        | yes at_end ↦ ground (arith, v.small, mod_self n)
        | no inside ↦ ground (arith, v.small, mod-eq_of_lt {n = suc w.cur_index} {m = n})
      ]

  pub contents_of_filling : w.cur_length < n → contents n w ≡ take w.cur_length w.datas
  unfolding contents
  contents_of_filling h = ground arith

  pub contents_of_full :
      IsValid n w
      → w.cur_length ≡ n
      → w.cur_index < n
      → contents n w ≡ drop (suc w.cur_index) w.datas ++ take (suc w.cur_index) w.datas
  unfolding contents
  contents_of_full v h c = ground (arith, v.small)

  visit_from :
      (fuel i : ℕ) (xs : List A)
      → begin_index n w ≡ i
      → contents n w ≡ xs
      → visit n fuel w i ≡ some xs
      → visit n fuel w (begin_index n w) ≡ some (contents n w)
  visit_from fuel i xs b e h = ap (visit n fuel w) b ∙ h ∙ ap some (sym e)

  for_each_filling :
      (k : ℕ)
      → IsValid n w
      → w.cur_length ≡ k
      → k < n
      → visit n (suc (suc n)) w (begin_index n w) ≡ some (contents n w)
  for_each_filling zero v e h =
      visit_from (suc (suc n)) n [] (begin_empty e)
        (contents_of_filling (omega arith) ∙ ap (λ k. take k w.datas) e) (visit_end (suc n))
  for_each_filling (suc k) v e h =
      visit_from (suc (suc n)) 0 (take (suc k) w.datas) (begin_filling (omega arith) (omega arith))
        (contents_of_filling (omega arith) ∙ ap (λ k. take k w.datas) e)
        (visit_newest k (suc (suc n)) 0 v (v.index (omega arith))
          (omega (arith, v.filling (omega arith), v.small, v.index (omega arith))) (omega arith))

  for_each_full :
      0 < n
      → IsValid n w
      → w.cur_length ≡ n
      → visit n (suc (suc n)) w (begin_index n w) ≡ some (contents n w)
  for_each_full pos v full =
      let c = v.index (omega arith) in
      elim (ℕ_discrete (suc w.cur_index) n) [
        | yes at_end ↦
            visit_from (suc (suc n)) 0 (take (suc w.cur_index) w.datas)
              (begin_full v pos full ∙ ground arith)
              (contents_of_full v full c
                ∙ ap (λ xs. xs ++ take (suc w.cur_index) w.datas)
                    (drop_past (suc w.cur_index) w.datas (omega (arith, v.room))))
              (visit_newest w.cur_index (suc (suc n)) 0 v c (omega arith) (omega arith))
        | no inside ↦
            visit_from (suc (suc n)) (suc w.cur_index)
              (drop (suc w.cur_index) w.datas ++ take (suc w.cur_index) w.datas)
              (begin_full v pos full ∙ ground arith) (contents_of_full v full c)
              (visit_oldest (n - suc (suc w.cur_index)) (suc (suc n)) (suc w.cur_index) v
                (omega arith) (omega arith) (omega arith) (omega arith))
      ]

  -- The loop over the whole window ends, within one round more than its capacity, and visits the contents
  -- in order, oldest first.
  pub for_each_visits :
      0 < n → IsValid n w → visit n (suc (suc n)) w (begin_index n w) ≡ some (contents n w)
  for_each_visits pos v = elim (dec_lt w.cur_length n) [
    | yes less ↦ for_each_filling w.cur_length v refl less
    | no full ↦ for_each_full pos v (omega (arith, v.counted))
  ]
