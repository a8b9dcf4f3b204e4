-- ===== src/MemoryStream/Tests.antt =====
-- The theorems about `MemoryStream` at concrete streams.
use btool.Common.{◌≤◌, ◌≡◌, refl, true, false, [], ◌∷◌, none, some, arith, length}
use btool.MemoryStream.Block.{write_at, resize}
use btool.MemoryStream.{MemoryStream, block, grow, grow_fuel, append, reset_capacity}
use btool.MemoryStream.Grow.{Grown, grow_ends}
use btool.MemoryStream.Append.{IsWriting, contents, append_extends}

-- Two bytes in a block of three, the position behind them.
abbrev two_bytes : MemoryStream
two_bytes = record {
  size = 2;
  offset = 2;
  capacity = 3;
  buffer = some (some 10 ∷ some 11 ∷ none ∷ []);
  auto_delete = true;
}

two_bytes-IsWriting : IsWriting two_bytes
two_bytes-IsWriting = omega arith

abbrev view : MemoryStream
view = record {
  size = 3;
  offset = 0;
  capacity = 3;
  buffer = some (some 1 ∷ some 2 ∷ some 3 ∷ []);
  auto_delete = false;
}

append_grows :
    append two_bytes (some 7 ∷ some 8 ∷ [])
    ≡ some (record {
      size = 4;
      offset = 4;
      capacity = 6;
      buffer = some (some 10 ∷ some 11 ∷ some 7 ∷ some 8 ∷ none ∷ none ∷ []);
      auto_delete = true;
    })
unfolding append grow reset_capacity write_at resize
append_grows = refl

grow_ends_example :
    (s' : MemoryStream) × (grow grow_fuel view 10 ≡ some s')
    × (10 ≤ s'.capacity)
    × (length (block s'.buffer) ≡ s'.capacity)
    × Grown view s'
grow_ends_example = grow_ends view 10 refl (omega arith)

append_extends_example :
    (s' : MemoryStream) × (append two_bytes (some 7 ∷ some 8 ∷ []) ≡ some s')
    × (contents s' ≡ some 10 ∷ some 11 ∷ some 7 ∷ some 8 ∷ [])
    × (s'.size ≡ 4)
    × IsWriting s'
append_extends_example =
    append_extends two_bytes (some 7 ∷ some 8 ∷ []) two_bytes-IsWriting (omega arith)
