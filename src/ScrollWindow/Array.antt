-- ===== src/ScrollWindow/Array.antt =====
-- `ScrollWindowArray` of scroll_window.hpp: a fixed array that is written round and round. The template
-- parameter FIX_LENGTH is the argument `n`; a `size_t` wraps at 2 ^ 64, and `none` is an access outside
-- the array or a null pointer that is read through. An iterator is its `m_cur_index`: its `m_data` is
-- the array's place of that index, or null at the end.
pub mod Refine
pub mod Iterate
pub mod Latest
mod Tests
use btool.Common.{
  ℕ, zero, suc, ◌+◌, ◌-◌, ◌%◌, ◌^◌, Bool, true, false, ◌&&◌, List, [], ◌∷◌, Option, none, some,
  ◌>>=◌, ltb, leb, ◌==◌, if◌then◌else◌, length, get_elem?, set,
}

pub record Window (A : Type 0) : Type 0 where
  pub datas : List A
  pub cur_index : ℕ
  pub cur_length : ℕ

abbrev pub add_size : ℕ → ℕ → ℕ
add_size base more = (base + more) % 2 ^ 64

-- The index that `emplace_back` writes.
unfoldable pub next_index : ℕ → ℕ → ℕ
next_index n cur_index =
    let index = add_size cur_index 1 in if leb n index then index - n else index

module _ {A : Type 0} where
  -- The index is -1 at first, and again after `clear`.
  unfoldable pub init : List A → Window A
  init datas = record { datas = datas; cur_index = 2 ^ 64 - 1; cur_length = 0 }

  unfoldable pub clear : Window A → Window A
  clear w = record w { cur_index = 2 ^ 64 - 1; cur_length = 0 }

  unfoldable pub is_empty : Window A → Bool
  is_empty w = w.cur_length == 0

  unfoldable pub back : Window A → Option A
  unfolding is_empty
  back w = if is_empty w then none else get_elem? w.datas w.cur_index

module _ {A : Type 0} (n : ℕ) where
  unfoldable pub emplace_back : Window A → A → Option (Window A)
  unfolding next_index
  emplace_back w value =
      let index = next_index n w.cur_index in
      if ltb index (length w.datas)
      then some (record {
        datas = set w.datas index value;
        cur_index = index;
        cur_length = if ltb w.cur_length n then suc w.cur_length else w.cur_length;
      })
      else none

  unfoldable pub begin_index : Window A → ℕ
  unfolding is_empty
  begin_index w =
      if is_empty w then n else if ltb w.cur_length n then 0 else add_size w.cur_index 1 % n

  -- `operator++`: round the end of the array if the window goes round, and to the end behind the newest.
  unfoldable pub advance : Window A → ℕ → ℕ
  advance w index =
      let moved = add_size index 1 in
      let round = if moved == n && ltb (add_size w.cur_index 1) n then 0 else moved in
      if round == add_size w.cur_index 1 then n else round

  -- `for (auto& x : window)`: the values from an index to the end, on fuel.
  unfoldable pub visit : ℕ → Window A → ℕ → Option (List A)
  visit zero w index = none
  visit (suc fuel) w index =
      let rest = (do
        value ← get_elem? w.datas index
        values ← visit fuel w (advance w index)
        some (value ∷ values)) in
      if index == n then some [] else rest

  unfoldable pub at_index : Window A → ℕ → ℕ
  at_index w start_index = add_size (add_size w.cur_index start_index) 1 % n

  -- `latest`: where the reading begins, and how many values there are.
  unfoldable pub latest : Window A → ℕ → ℕ × ℕ
  latest w need_size =
      if leb w.cur_length need_size
      then (add_size w.cur_index 1 % n, w.cur_length)
      else if leb ((2 ^ 64 + need_size - 1) % 2 ^ 64) w.cur_index
      then ((w.cur_index + 2 ^ 64 - need_size + 1) % 2 ^ 64, need_size)
      else ((w.cur_index + w.cur_length + 2 ^ 64 - need_size + 1) % 2 ^ 64 % n, need_size)
