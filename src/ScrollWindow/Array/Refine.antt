-- ===== src/ScrollWindow/Array/Refine.antt =====
-- A `ScrollWindowArray` holds the latest values, as a bounded queue that forgets its oldest.
use native.Mathlib.Decide.{dec_lt, ℕ_discrete}
use btool.Common.{
  ℕ, suc, ◌-◌, ◌^◌, ◌≤◌, ◌<◌, ◌≡◌, ap, ◌∙◌, List, [], ◌∷◌, ◌++◌, some, arith, ltb, ◌==◌,
  if◌then◌else◌, length, get_elem?-set_self, min, set, take, drop, length-set, length-take,
  length-drop, length-append, take_all, drop_past, take-set, drop-set, drop_one-drop,
  drop_one-append, append_assoc, append-nil,
}
use btool.ScrollWindow.Array.{Window, add_size, next_index, emplace_back, back}

module _ {A : Type 0} where
  -- The array has its length, and the index is that of the newest value: -1 before the first.
  pub record IsValid (n : ℕ) (w : Window A) : Type 0 where
    pub room : length w.datas ≡ n
    pub small : n < 2 ^ 63
    pub counted : w.cur_length ≤ n
    pub filling : w.cur_length < n → add_size w.cur_index 1 ≡ w.cur_length
    pub index : 0 < w.cur_length → w.cur_index < n

  -- The values of the window, oldest first.
  unfoldable pub contents : ℕ → Window A → List A
  contents n w =
      if ltb w.cur_length n
      then take w.cur_length w.datas
      else drop (add_size w.cur_index 1) w.datas ++ take (add_size w.cur_index 1) w.datas

  -- A queue of `n` values at most, which drops its oldest for a new one.
  unfoldable pub push_latest : ℕ → List A → A → List A
  push_latest n xs x = drop (suc (length xs) - n) (xs ++ (x ∷ []))

  next_index-lt : (n : ℕ) (w : Window A) → 0 < n → IsValid n w → next_index n w.cur_index < n
  unfolding next_index
  next_index-lt n w pos v = grind (arith, v.index, v.filling)

  -- While the window fills, the next index is the length; then the index after the newest, round the end.
  next_index_filling :
      (n : ℕ) (w : Window A)
      → IsValid n w
      → w.cur_length < n
      → next_index n w.cur_index ≡ w.cur_length
  unfolding next_index
  next_index_filling n w v less = let e = v.filling less in ground arith

  next_index_full :
      (n : ℕ) (w : Window A)
      → 0 < n
      → IsValid n w
      → w.cur_length ≡ n
      → next_index n w.cur_index ≡ (if suc w.cur_index == n then 0 else suc w.cur_index)
  unfolding next_index
  next_index_full n w pos v full = let e = v.index (omega arith) in ground arith

  pushed : (n : ℕ) (w : Window A) (x : A) → Window A
  pushed n w x = record {
    datas = set w.datas (next_index n w.cur_index) x;
    cur_index = next_index n w.cur_index;
    cur_length = if ltb w.cur_length n then suc w.cur_length else w.cur_length;
  }

  pushed_runs :
      (n : ℕ) (w : Window A) (x : A)
      → 0 < n
      → IsValid n w
      → emplace_back n w x ≡ some (pushed n w x)
  unfolding emplace_back pushed
  pushed_runs n w x pos v = let h = next_index-lt n w pos v in ground (arith, v.room)

  pushed-IsValid : (n : ℕ) (w : Window A) (x : A) → 0 < n → IsValid n w → IsValid n (pushed n w x)
  unfolding pushed
  pushed-IsValid n w x pos v = record {
    room = length-set w.datas (next_index n w.cur_index) x ∙ v.room;
    small = v.small;
    counted = ground (arith, v.counted);
    filling = λ h. ground (arith, next_index_filling n w v, v.small);
    index = λ h. next_index-lt n w pos v;
  }

  pub length-contents : (n : ℕ) (w : Window A) → IsValid n w → length (contents n w) ≡ w.cur_length
  unfolding contents
  length-contents n w v = ground (
    arith,
    v.counted,
    v.room,
    length-take w.cur_length w.datas,
    length-append (drop (add_size w.cur_index 1) w.datas) (take (add_size w.cur_index 1) w.datas),
    length-take (add_size w.cur_index 1) w.datas,
    length-drop (add_size w.cur_index 1) w.datas,
  )

  -- The window read from the index that is written next.
  contents_from_next :
      (n : ℕ) (w : Window A)
      → 0 < n
      → IsValid n w
      → let c = next_index n w.cur_index in
        contents n w
        ≡ (if ltb w.cur_length n then take c w.datas else drop c w.datas ++ take c w.datas)
  unfolding contents
  contents_from_next n w pos v = elim (dec_lt w.cur_length n) [
    | yes less ↦ ground (arith, next_index_filling n w v less)
    | no full ↦ elim (ℕ_discrete (suc w.cur_index) n) [
      | yes at_end ↦ ground (
        arith,
        v.counted,
        v.small,
        v.room,
        next_index_full n w pos v,
        drop_past n w.datas,
        take_all n w.datas,
        append-nil w.datas,
      )
      | no inside ↦
          ground (
            arith,
            v.counted,
            v.small,
            v.index (omega (arith, v.counted)),
            next_index_full n w pos v,
          )
    ]
  ]

  contents_written :
      (n : ℕ) (w : Window A) (x : A)
      → 0 < n
      → IsValid n w
      → let c = next_index n w.cur_index in
        contents n (pushed n w x) ≡ (
          if ltb w.cur_length n
          then take c w.datas ++ (x ∷ [])
          else drop (suc c) w.datas ++ (take c w.datas ++ (x ∷ [])))
  unfolding contents pushed
  contents_written n w x pos v = elim (dec_lt w.cur_length n) [
    | yes less ↦ ground (
      arith,
      v.small,
      v.room,
      next_index_filling n w v less,
      take-set w.datas w.cur_length x,
      drop_past (suc w.cur_length) (set w.datas w.cur_length x),
      length-set w.datas w.cur_length x,
    )
    | no full ↦ ground (
      arith,
      v.small,
      v.room,
      next_index-lt n w pos v,
      take-set w.datas (next_index n w.cur_index) x,
      drop-set w.datas (next_index n w.cur_index) x,
    )
  ]

  drop_eq : (k m : ℕ) (xs : List A) → k ≡ m → drop k xs ≡ drop m xs
  drop_eq k m xs e = ap (λ i. drop i xs) e

  contents-pushed :
      (n : ℕ) (w : Window A) (x : A)
      → 0 < n
      → IsValid n w
      → contents n (pushed n w x) ≡ push_latest n (contents n w) x
  unfolding push_latest
  contents-pushed n w x pos v =
      let c = next_index n w.cur_index in
      let inside : c < length w.datas = ground (arith, next_index-lt n w pos v, v.room) in
      elim (dec_lt w.cur_length n) [
        | yes less ↦ ground (
          arith,
          contents_written n w x pos v,
          contents_from_next n w pos v,
          drop_eq (suc (length (contents n w)) - n) 0 (contents n w ++ (x ∷ [])),
          length-contents n w v,
        )
        | no full ↦ ground (
          arith,
          v.counted,
          contents_written n w x pos v,
          contents_from_next n w pos v,
          drop_eq (suc (length (contents n w)) - n) 1 (contents n w ++ (x ∷ [])),
          length-contents n w v,
          append_assoc (drop c w.datas) (take c w.datas) (x ∷ []),
          drop_one-append (drop c w.datas) (take c w.datas ++ (x ∷ [])),
          drop_one-drop c w.datas,
          length-drop c w.datas,
        )
      ]

  back-pushed : (n : ℕ) (w : Window A) (x : A) → 0 < n → IsValid n w → back (pushed n w x) ≡ some x
  unfolding back pushed
  back-pushed n w x pos v = ground (
    arith,
    v.room,
    v.counted,
    next_index-lt n w pos v,
    get_elem?-set_self w.datas (next_index n w.cur_index) x,
  )

  -- `emplace_back` never leaves the array, keeps the window valid, and its contents are those of the
  -- bounded queue: the value goes to the end, and the oldest is dropped once there are `n`.
  pub emplace_back_refines :
      (n : ℕ) (w : Window A) (x : A)
      → 0 < n
      → IsValid n w
      → (w' : Window A) × (emplace_back n w x ≡ some w')
        × (contents n w' ≡ push_latest n (contents n w) x)
        × (w'.cur_length ≡ min n (suc w.cur_length))
        × (back w' ≡ some x)
        × IsValid n w'
  emplace_back_refines n w x pos v = (
    pushed n w x,
    pushed_runs n w x pos v,
    contents-pushed n w x pos v,
    unfold pushed in ground (arith, v.counted),
    back-pushed n w x pos v,
    pushed-IsValid n w x pos v,
  )
