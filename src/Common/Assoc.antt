-- ===== src/Common/Assoc.antt =====
-- `std::unordered_map` and `std::unordered_set` with number keys, as lists. The order of the list is the
-- order of insertion; the program looks keys up and never walks the map in order, except where a
-- component says so.
use Prim.Native.Nat.{ℕ, suc, ◌+◌}
use mathlib.Core.Path.{◌≡◌, refl}
use mathlib.Core.Logic.{◌≢◌}
use mathlib.Core.Bool.{Bool, false, ◌||◌}
use mathlib.Core.List.{List, [], ◌∷◌, ◌++◌}
use mathlib.Core.Option.{Option, none, some}
use native.Mathlib.Omega.{arith}
use btool.Common.Tests.{◌==◌, if◌then◌else◌}

-- `contains` for a set, and `count` of an element in a sequence.
unfoldable pub contains : ℕ → List ℕ → Bool
contains k [] = false
contains k (j ∷ js) = j == k || contains k js

unfoldable pub count : ℕ → List ℕ → ℕ
count k [] = 0
count k (j ∷ js) = if j == k then suc (count k js) else count k js

-- `list::remove_if` of one value, and `unordered_set::erase` of a key.
unfoldable pub remove : ℕ → List ℕ → List ℕ
remove k [] = []
remove k (j ∷ js) = if j == k then remove k js else j ∷ remove k js

pub count-append : (k : ℕ) (xs ys : List ℕ) → count k (xs ++ ys) ≡ count k xs + count k ys
unfolding count
count-append k [] ys = omega arith
count-append k (x ∷ xs) ys = ground (arith, count-append k xs ys)

pub contains-count : (k : ℕ) (xs : List ℕ) → contains k xs ≡ false → count k xs ≡ 0
unfolding contains count
contains-count k [] h = refl
contains-count k (x ∷ xs) h = ground (arith, contains-count k xs)

pub count-contains : (k : ℕ) (xs : List ℕ) → count k xs ≡ 0 → contains k xs ≡ false
unfolding contains count
count-contains k [] h = refl
count-contains k (x ∷ xs) h = ground (arith, count-contains k xs)

pub count-remove :
    (k j : ℕ) (xs : List ℕ) → count j (remove k xs) ≡ (if k == j then 0 else count j xs)
unfolding count remove
count-remove k j [] = ground arith
count-remove k j (x ∷ xs) = ground (arith, count-remove k j xs)

module _ {ℓ} {V : Type ℓ} where
  unfoldable pub lookup : ℕ → List (ℕ × V) → Option V
  lookup key [] = none
  lookup key ((first, value) ∷ entries) = if first == key then some value else lookup key entries

  -- `m[key] = v`.
  unfoldable pub insert : ℕ → V → List (ℕ × V) → List (ℕ × V)
  insert key value [] = (key, value) ∷ []
  insert key value ((other, old) ∷ entries) =
      if other == key then (key, value) ∷ entries else (other, old) ∷ insert key value entries

  -- `m.erase(key)`.
  unfoldable pub erase : ℕ → List (ℕ × V) → List (ℕ × V)
  erase key [] = []
  erase key ((other, old) ∷ entries) =
      if other == key then erase key entries else (other, old) ∷ erase key entries

  unfoldable pub keys : List (ℕ × V) → List ℕ
  keys [] = []
  keys ((other, old) ∷ entries) = other ∷ keys entries

  pub lookup-insert :
      (key other : ℕ) (value : V) (entries : List (ℕ × V))
      → lookup other (insert key value entries)
        ≡ (if key == other then some value else lookup other entries)
  unfolding lookup insert
  lookup-insert key other value [] = refl
  lookup-insert key other value ((first, old) ∷ entries) =
      ground (arith, lookup-insert key other value entries)

  pub lookup-erase :
      (key other : ℕ) (entries : List (ℕ × V))
      → lookup other (erase key entries) ≡ (if key == other then none else lookup other entries)
  unfolding lookup erase
  lookup-erase key other [] = ground arith
  lookup-erase key other ((first, old) ∷ entries) = ground (arith, lookup-erase key other entries)

  pub count-keys-insert :
      (key other : ℕ) (value : V) (entries : List (ℕ × V))
      → count other (keys (insert key value entries)) ≡ (
          if contains key (keys entries)
          then count other (keys entries)
          else (if key == other
              then suc (count other (keys entries))
              else count other (keys entries)))
  unfolding insert keys contains count
  count-keys-insert key other value [] = ground arith
  count-keys-insert key other value ((first, old) ∷ entries) =
      ground (arith, count-keys-insert key other value entries)

  pub count-keys-erase :
      (key other : ℕ) (entries : List (ℕ × V))
      → count other (keys (erase key entries))
        ≡ (if key == other then 0 else count other (keys entries))
  unfolding erase keys count
  count-keys-erase key other [] = ground arith
  count-keys-erase key other ((first, old) ∷ entries) =
      ground (arith, count-keys-erase key other entries)

  pub lookup-none-count :
      (key : ℕ) (entries : List (ℕ × V)) → lookup key entries ≡ none → count key (keys entries) ≡ 0
  unfolding lookup keys count
  lookup-none-count key [] h = refl
  lookup-none-count key ((first, old) ∷ entries) h = ground (arith, lookup-none-count key entries)

  pub lookup-some-count :
      (key : ℕ) (entries : List (ℕ × V)) (value : V)
      → lookup key entries ≡ some value
      → count key (keys entries) ≢ 0
  unfolding lookup keys count
  lookup-some-count key [] value h = ground arith
  lookup-some-count key ((first, old) ∷ entries) value h =
      ground (arith, lookup-some-count key entries value)
