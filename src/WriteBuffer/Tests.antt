-- ===== src/WriteBuffer/Tests.antt =====
-- The theorems about `WriteBuffer` at concrete buffers.
use btool.Common.{◌≡◌, refl, true, [], ◌∷◌, none, some, arith}
use btool.MemoryStream.{MemoryStream}
use btool.MemoryStream.Append.{IsLoaded, contents}
use btool.WriteBuffer.{WriteBuffer, append}
use btool.WriteBuffer.Accounting.{IsAccounted, messages, append_queues}

-- A message of two bytes.
abbrev item : MemoryStream
item = record {
  size = 2;
  offset = 0;
  capacity = 4;
  buffer = some (some 10 ∷ some 11 ∷ none ∷ none ∷ []);
  auto_delete = true;
}

abbrev buffer : WriteBuffer
buffer = record { free_pool = []; send_items = item ∷ []; all_len = 2 }

buffer-IsAccounted : IsAccounted buffer
buffer-IsAccounted = record {
  total = refl;
  pool = tt;
  items = (record { owned = refl; valid = omega arith }, tt);
}

item-IsLoaded : IsLoaded item (some 10 ∷ some 11 ∷ [])
item-IsLoaded = record {
  bytes = refl;
  sized = refl;
  at_start = refl;
  owned = refl;
  valid = omega arith;
}

append_queues_example :
    (w' : WriteBuffer) × (append 8 buffer (some 7 ∷ []) ≡ some (true, w'))
    × (messages w' ≡ (some 10 ∷ some 11 ∷ []) ∷ (some 7 ∷ []) ∷ [])
    × (w'.all_len ≡ 3)
    × IsAccounted w'
    × ((s : MemoryStream) × (w'.send_items ≡ item ∷ s ∷ [])
        × (contents s ≡ some 7 ∷ [])
        × (s.offset ≡ 0))
append_queues_example = append_queues 8 buffer (some 7 ∷ []) buffer-IsAccounted (omega arith)
