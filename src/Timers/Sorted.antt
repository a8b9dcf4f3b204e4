-- ===== src/Timers/Sorted.antt =====
-- `std::map` and its keys in order, for code that walks from the least key. Looking up and erasing are those of
-- Common.Assoc.
use btool.Common.{
  ℕ, ◌<◌, ◌≤◌, ◌≡◌, refl, Bool, true, ◌&&◌, List, [], ◌∷◌, some, ltb, ◌==◌, if◌then◌else◌, arith,
}
use btool.Common.Assoc.{count, lookup, erase}

-- `m[key] = m'` for a set of keys.
unfoldable pub put_key : ℕ → List ℕ → List ℕ
put_key k [] = k ∷ []
put_key k (j ∷ js) =
    let rest = put_key k js in if k == j then j ∷ js else if ltb k j then k ∷ j ∷ js else j ∷ rest

pub count-put_key :
    (k j : ℕ) (js : List ℕ)
    → count k js ≡ 0
    → count j (put_key k js) ≡ (if k == j then 1 else count j js)
unfolding put_key count
count-put_key k j [] h = ground arith
count-put_key k j (i ∷ is) h = ground (arith, count-put_key k j is)

module _ {ℓ} {V : Type ℓ} where
  unfoldable pub put : ℕ → V → List (ℕ × V) → List (ℕ × V)
  put key value [] = (key, value) ∷ []
  put key value ((other, old) ∷ entries) =
      let rest = put key value entries in
      if key == other
      then (key, value) ∷ entries
      else if ltb key other
      then (key, value) ∷ (other, old) ∷ entries
      else (other, old) ∷ rest

  pub lookup-put :
      (key other : ℕ) (value : V) (entries : List (ℕ × V))
      → lookup other (put key value entries)
        ≡ (if key == other then some value else lookup other entries)
  unfolding lookup put
  lookup-put key other value [] = refl
  lookup-put key other value ((first, old) ∷ entries) =
      ground (arith, lookup-put key other value entries)

  -- All keys are above a number; the keys go up.
  unfoldable pub above : ℕ → List (ℕ × V) → Bool
  above k [] = true
  above k ((key, value) ∷ entries) = ltb k key && above k entries

  unfoldable pub sorted : List (ℕ × V) → Bool
  unfolding above
  sorted [] = true
  sorted ((key, value) ∷ entries) = above key entries && sorted entries

  above_mono :
      (j k : ℕ) (entries : List (ℕ × V)) → j < k → above k entries ≡ true → above j entries ≡ true
  unfolding above
  above_mono j k [] lt h = refl
  above_mono j k ((key, value) ∷ entries) lt h = ground (arith, above_mono j k entries lt)

  above-put :
      (j key : ℕ) (value : V) (entries : List (ℕ × V))
      → j < key
      → above j entries ≡ true
      → above j (put key value entries) ≡ true
  unfolding above put
  above-put j key value [] lt h = ground arith
  above-put j key value ((other, old) ∷ entries) lt h =
      ground (arith, above-put j key value entries lt)

  pub sorted-put :
      (key : ℕ) (value : V) (entries : List (ℕ × V))
      → sorted entries ≡ true
      → sorted (put key value entries) ≡ true
  unfolding sorted above put
  sorted-put key value [] h = refl
  sorted-put key value ((other, old) ∷ entries) h = ground (
    arith,
    sorted-put key value entries,
    above-put other key value entries,
    above_mono key other entries,
  )

  above-erase :
      (j key : ℕ) (entries : List (ℕ × V))
      → above j entries ≡ true
      → above j (erase key entries) ≡ true
  unfolding above erase
  above-erase j key [] h = refl
  above-erase j key ((other, old) ∷ entries) h = ground (arith, above-erase j key entries)

  pub sorted-erase :
      (key : ℕ) (entries : List (ℕ × V)) → sorted entries ≡ true → sorted (erase key entries) ≡ true
  unfolding sorted erase
  sorted-erase key [] h = refl
  sorted-erase key ((other, old) ∷ entries) h =
      ground (arith, sorted-erase key entries, above-erase other key entries)

  -- What is looked up stands at a key above the bound.
  above-lookup :
      (k key : ℕ) (entries : List (ℕ × V)) (value : V)
      → above k entries ≡ true
      → lookup key entries ≡ some value
      → k < key
  unfolding above lookup
  above-lookup k key [] value h e = absurd (ground arith)
  above-lookup k key ((other, old) ∷ entries) value h e =
      ground (arith, above-lookup k key entries value)

  -- The first key of a sorted map is the least.
  pub first_least :
      (first key : ℕ) (old value : V) (entries : List (ℕ × V))
      → sorted ((first, old) ∷ entries) ≡ true
      → lookup key ((first, old) ∷ entries) ≡ some value
      → first ≤ key
  unfolding sorted lookup
  first_least first key old value entries h e = ground (arith, above-lookup first key entries value)
