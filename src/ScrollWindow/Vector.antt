-- ===== src/ScrollWindow/Vector.antt =====
-- `ScrollWindowVector` of scroll_window.hpp: a vector that is cut back to its newest values when it has
-- grown to a multiple of its length. `none` is an access outside the vector; a `size_t` wraps at 2 ^ 64.
-- An iterator is the index that it points to.
pub mod History
pub mod Keep
mod Tests
use btool.Common.{
  ℕ, zero, suc, ◌+◌, ◌-◌, ◌*◌, ◌%◌, ◌^◌, Bool, ◌||◌, List, [], ◌∷◌, ◌++◌, Option, none, some, ◌>>=◌,
  ltb, leb, ◌==◌, if◌then◌else◌, length, get_elem?, set, drop,
}

pub record Vector (A : Type 0) : Type 0 where
  pub datas : List A
  pub fix_length : ℕ
  pub multiple : ℕ

module _ {A : Type 0} where
  unfoldable pub init : List A → Vector A
  init list = record { datas = list; fix_length = 0; multiple = 1 }

  -- The assertion that the multiple is above 0 is left to the caller.
  unfoldable pub set_fix_length : ℕ → ℕ → Vector A → Vector A
  set_fix_length fix_length multiple v = record v { fix_length = fix_length; multiple = multiple }

  unfoldable pub is_empty : Vector A → Bool
  is_empty v = length v.datas == 0

  unfoldable pub push : Vector A → A → Vector A
  push v value = record v { datas = v.datas ++ (value ∷ []) }

  -- How many values are erased from a vector that is too long.
  unfoldable pub surplus : Vector A → ℕ
  surplus v = (v.fix_length * ((v.multiple + 2 ^ 64 - 1) % 2 ^ 64) + 1) % 2 ^ 64

  unfoldable pub is_full : Vector A → Bool
  is_full v = leb (v.fix_length * v.multiple % 2 ^ 64) (length v.datas)

  unfoldable pub shift : Vector A → A → Option (Vector A)
  unfolding surplus push
  shift v value =
      if leb (surplus v) (length v.datas)
      then some (push (record v { datas = drop (surplus v) v.datas }) value)
      else none

  unfoldable pub emplace_back : Vector A → A → Option (Vector A)
  unfolding is_empty push is_full shift
  emplace_back v value =
      if v.fix_length == 0
      then some (push v value)
      else if v.fix_length == 1
      then if is_empty v
        then some (push v value)
        else some (record v { datas = set v.datas 0 value })
      else if is_full v
      then shift v value
      else some (push v value)

  unfoldable pub emplace_all : Vector A → List A → Option (Vector A)
  emplace_all v [] = some v
  emplace_all v (value ∷ rest) = do pushed ← emplace_back v value; emplace_all pushed rest

  unfoldable pub back : Vector A → Option A
  unfolding is_empty
  back v = if is_empty v then none else get_elem? v.datas (length v.datas - 1)

  unfoldable pub latest : Vector A → ℕ → ℕ × ℕ
  latest v need_size =
      if need_size == 0 || leb (length v.datas) need_size
      then (0, length v.datas)
      else (length v.datas - need_size, need_size)

  unfoldable pub clear : Vector A → Vector A
  clear v = record v { datas = [] }
