-- ===== src/ScrollWindow/Array/Latest.antt =====
-- `latest` of a `ScrollWindowArray`: the newest values, where the window is full or more than asked for.
use native.Mathlib.Decide.{dec_lt}
use native.Mathlib.Nat.{mod-eq_of_lt}
use btool.Common.{
  ℕ, zero, suc, ◌+◌, ◌-◌, ◌%◌, ◌^◌, ◌≤◌, ◌<◌, ◌≡◌, refl, sym, ap, ap₂, ◌∙◌, ◌⊎◌, List, ◌++◌, some,
  arith, min, length, take, drop, drop_past, drop-drop, drop-append, drop-take, drop_at, take_at,
  length-drop,
}
use btool.ScrollWindow.Array.{Window, add_size, begin_index, visit, latest}
use btool.ScrollWindow.Array.Refine.{IsValid, contents}
use btool.ScrollWindow.Array.Iterate.{
  visit_newest, visit_oldest, contents_of_filling, contents_of_full, for_each_visits,
}

module _ {A : Type 0} (n : ℕ) (w : Window A) where
  latest_all :
      (need : ℕ)
      → w.cur_length ≤ need
      → latest n w need ≡ (add_size w.cur_index 1 % n, w.cur_length)
  unfolding latest
  latest_all need h = ground arith

  latest_near :
      (need : ℕ)
      → 0 < need
      → need < w.cur_length
      → need ≤ suc w.cur_index
      → w.cur_index < 2 ^ 63
      → latest n w need ≡ (suc w.cur_index - need, need)
  unfolding latest
  latest_near need pos h k c = ground arith

  latest_far :
      (need : ℕ)
      → need < w.cur_length
      → suc w.cur_index < need
      → w.cur_length ≡ n
      → n < 2 ^ 63
      → latest n w need ≡ (w.cur_index + n - need + 1, need)
  unfolding latest
  latest_far need h k full small =
      ground (arith, mod-eq_of_lt {n = w.cur_index + n - need + 1} {m = n})

  contents_near :
      (need : ℕ)
      → IsValid n w
      → need < w.cur_length
      → need ≤ suc w.cur_index
      → drop (w.cur_length - need) (contents n w)
        ≡ take need (drop (suc w.cur_index - need) w.datas)
  contents_near need v h k = elim (dec_lt w.cur_length n) [
    | yes less ↦
        ap (drop (w.cur_length - need)) (contents_of_filling n w less)
        ∙ drop-take (w.cur_length - need) w.cur_length w.datas
        ∙ take_at {m = w.cur_length - (w.cur_length - need)} {n = need}
            (drop (w.cur_length - need) w.datas) (omega arith)
        ∙ ap (take need) (
            drop_at {m = w.cur_length - need} {n = suc w.cur_index - need} w.datas
              (omega (arith, v.filling less, v.index (omega arith), v.small)))
    | no full ↦
        let c = v.index (omega arith) in
        ap (drop (w.cur_length - need)) (contents_of_full n w v (omega (arith, v.counted)) c)
        ∙ drop-append (w.cur_length - need) (drop (suc w.cur_index) w.datas)
            (take (suc w.cur_index) w.datas)
        ∙ ap₂ (λ xs ys. xs ++ ys)
            (drop-drop (w.cur_length - need) (suc w.cur_index) w.datas
              ∙ drop_past (suc w.cur_index + (w.cur_length - need)) w.datas
                  (omega (arith, v.room, v.counted)))
            (drop_at {m = w.cur_length - need - length (drop (suc w.cur_index) w.datas)}
                {n = suc w.cur_index - need} (take (suc w.cur_index) w.datas)
                (omega (arith, length-drop (suc w.cur_index) w.datas, v.room, v.counted))
              ∙ drop-take (suc w.cur_index - need) (suc w.cur_index) w.datas
              ∙ take_at {m = suc w.cur_index - (suc w.cur_index - need)} {n = need}
                  (drop (suc w.cur_index - need) w.datas) (omega arith))
  ]

  contents_far :
      (need : ℕ)
      → IsValid n w
      → need < w.cur_length
      → suc w.cur_index < need
      → w.cur_length ≡ n
      → drop (w.cur_length - need) (contents n w)
        ≡ drop (w.cur_index + n - need + 1) w.datas ++ take (suc w.cur_index) w.datas
  contents_far need v h k full =
      let c = v.index (omega arith) in
      ap (drop (w.cur_length - need)) (contents_of_full n w v full c)
      ∙ drop-append (w.cur_length - need) (drop (suc w.cur_index) w.datas)
          (take (suc w.cur_index) w.datas)
      ∙ ap₂ (λ xs ys. xs ++ ys)
          (drop-drop (w.cur_length - need) (suc w.cur_index) w.datas
            ∙ drop_at {m = suc w.cur_index + (w.cur_length - need)} {n = w.cur_index + n - need + 1}
                w.datas (omega arith))
          (drop_at {m = w.cur_length - need - length (drop (suc w.cur_index) w.datas)} {n = 0}
            (take (suc w.cur_index) w.datas)
            (omega (arith, length-drop (suc w.cur_index) w.datas, v.room)))

  visit_at :
      (need i k : ℕ) (xs : List A)
      → latest n w need ≡ (i, k)
      → k ≡ min need w.cur_length
      → visit n (suc (suc n)) w i ≡ some xs
      → drop (w.cur_length - min need w.cur_length) (contents n w) ≡ xs
      → let (start, real_size) = latest n w need in
        (real_size ≡ min need w.cur_length)
        × (visit n (suc (suc n)) w start
            ≡ some (drop (w.cur_length - min need w.cur_length) (contents n w)))
  visit_at need i k xs l m r e = rw (l, e) (m, r)

  abbrev LatestAt : ℕ → Type 0
  LatestAt need =
      let (start, real_size) = latest n w need in
      (real_size ≡ min need w.cur_length)
      × (visit n (suc (suc n)) w start
          ≡ some (drop (w.cur_length - min need w.cur_length) (contents n w)))

  drop_least :
      (need k : ℕ) (xs : List A)
      → k ≡ min need w.cur_length
      → drop (w.cur_length - k) (contents n w) ≡ xs
      → drop (w.cur_length - min need w.cur_length) (contents n w) ≡ xs
  drop_least need k xs m e =
      drop_at {m = w.cur_length - min need w.cur_length} {n = w.cur_length - k} (contents n w)
        (ap (λ i. w.cur_length - i) (sym m))
      ∙ e

  latest_some : (k : ℕ) → IsValid n w → suc k < w.cur_length → LatestAt (suc k)
  latest_some k v less =
      let c = v.index (omega arith) in
      let least : suc k ≡ min (suc k) w.cur_length = ground arith in
      elim (dec_lt (suc w.cur_index) (suc k)) [
        | no near ↦
            visit_at (suc k) (suc w.cur_index - suc k) (suc k)
              (take (suc k) (drop (suc w.cur_index - suc k) w.datas))
              (latest_near (suc k) (omega arith) less (omega arith) (omega (arith, v.small))) least
              (visit_newest n w k (suc (suc n)) (suc w.cur_index - suc k) v c (omega arith)
                (omega (arith, v.counted)))
              (drop_least (suc k) (suc k) _ least (contents_near (suc k) v less (omega arith)))
        | yes far ↦
            let full : w.cur_length ≡ n = grind (arith, v.counted, v.filling, v.small, c) in
            let start = w.cur_index + n - suc k + 1 in
            visit_at (suc k) start (suc k) (drop start w.datas ++ take (suc w.cur_index) w.datas)
              (latest_far (suc k) less far full v.small) least
              (visit_oldest n w (n - suc start) (suc (suc n)) start v (omega arith) (omega arith)
                (omega arith) (omega arith))
              (drop_least (suc k) (suc k) _ least (contents_far (suc k) v less far full))
      ]

  begin_next : IsValid n w → 0 < n → w.cur_length ≡ n → begin_index n w ≡ add_size w.cur_index 1 % n
  unfolding begin_index
  begin_next v pos full = ground arith

  latest_full :
      (need : ℕ) → IsValid n w → 0 < n → w.cur_length ≡ n → w.cur_length ≤ need → LatestAt need
  latest_full need v pos full all =
      let least : w.cur_length ≡ min need w.cur_length = ground arith in
      visit_at need (add_size w.cur_index 1 % n) w.cur_length (contents n w) (latest_all need all)
        least
        (ap (visit n (suc (suc n)) w) (sym (begin_next v pos full)) ∙ for_each_visits n w pos v)
        (drop_least need w.cur_length _ least
          (drop_at {m = w.cur_length - w.cur_length} {n = 0} (contents n w) (omega arith)))

  -- For a count above 0 of a window that is full or holds more than the count, `latest` says how many
  -- values there are, the count or the length if that is less, and reading from the index it gives to
  -- the end visits exactly that many newest values, in order.
  pub latest_reads :
      (need : ℕ)
      → IsValid n w
      → 0 < n
      → 0 < need
      → (need < w.cur_length) ⊎ (w.cur_length ≡ n)
      → let (start, real_size) = latest n w need in
        (real_size ≡ min need w.cur_length)
        × (visit n (suc (suc n)) w start
            ≡ some (drop (w.cur_length - min need w.cur_length) (contents n w)))
  latest_reads zero v pos some_need enough = absurd (omega arith)
  latest_reads (suc k) v pos some_need enough = elim (dec_lt (suc k) w.cur_length) [
    | yes less ↦ latest_some k v less
    | no all ↦ latest_full (suc k) v pos (omega (arith, enough)) (omega arith)
  ]

  latest_partial :
      (need : ℕ)
      → IsValid n w
      → 0 < w.cur_length
      → w.cur_length < n
      → w.cur_length ≤ need
      → latest n w need ≡ (w.cur_length, w.cur_length)
  unfolding latest
  latest_partial need v some_length less all =
      ground (arith, v.filling less, mod-eq_of_lt {n = w.cur_length} {m = n})

  reads_behind :
      (i : ℕ)
      → latest n w i ≡ (w.cur_length, w.cur_length)
      → visit n (suc (suc n)) w w.cur_length ≡ some (drop w.cur_length w.datas ++ contents n w)
      → let (start, real_size) = latest n w i in
        (real_size ≡ w.cur_length)
        × (visit n (suc (suc n)) w start ≡ some (drop w.cur_length w.datas ++ contents n w))
  reads_behind i l r = rw l (refl, r)

  -- In a window that is not full and holds something, asking for all the values or more gives an
  -- iterator to the first place that nothing was pushed to: the reading visits those places before the
  -- contents.
  pub latest_of_partial :
      (need : ℕ)
      → IsValid n w
      → 0 < w.cur_length
      → w.cur_length < n
      → w.cur_length ≤ need
      → let (start, real_size) = latest n w need in
        (real_size ≡ w.cur_length)
        × (visit n (suc (suc n)) w start ≡ some (drop w.cur_length w.datas ++ contents n w))
  latest_of_partial need v some_length less all =
      let at : suc w.cur_index ≡ w.cur_length =
        omega (arith, v.filling less, v.index some_length, v.small) in
      reads_behind need (latest_partial need v some_length less all) (
        visit_oldest n w (n - suc w.cur_length) (suc (suc n)) w.cur_length v (omega arith)
          (omega arith) (omega arith) (omega arith)
        ∙ ap (λ xs. some (drop w.cur_length w.datas ++ xs))
            (take_at {m = suc w.cur_index} {n = w.cur_length} w.datas at
              ∙ sym (contents_of_filling n w less)))
