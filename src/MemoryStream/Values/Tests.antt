-- ===== src/MemoryStream/Values/Tests.antt =====
-- The theorems about the typed layer of `MemoryStream` at concrete values.
use btool.Common.{◌≡◌, refl, true, List, [], ◌∷◌, ◌++◌, map, none, some, arith}
use btool.MemoryStream.{MemoryStream, reset_offset_to}
use btool.MemoryStream.Append.{IsWriting}
use btool.MemoryStream.Values.{
  Value, scalar, text, cells_of, append_args, read_args, get_args_length, word_bytes,
}
use btool.MemoryStream.Values.Encode.{type_of}
use btool.MemoryStream.Values.Decode.{IsAt}
use btool.MemoryStream.Values.RoundTrip.{round_trip}

-- Two bytes in a block of three, the position behind them.
abbrev two_bytes : MemoryStream
two_bytes = record {
  size = 2;
  offset = 2;
  capacity = 3;
  buffer = some (some 10 ∷ some 11 ∷ none ∷ []);
  auto_delete = true;
}

two_bytes-IsWriting : IsWriting two_bytes
two_bytes-IsWriting = omega arith

abbrev fields : List Value
fields = scalar (1 ∷ 0 ∷ []) ∷ text (b'h' ∷ b'i' ∷ []) ∷ text [] ∷ scalar (255 ∷ []) ∷ []

round_trip_example :
    (s' : MemoryStream) × (append_args two_bytes fields ≡ some s')
    × (read_args (reset_offset_to s' 2) (map type_of fields) true ≡ some (fields, s'))
unfolding get_args_length
round_trip_example =
    round_trip two_bytes fields true two_bytes-IsWriting (omega arith) (omega arith)

-- A stream of one body, "ab", with nothing behind it.
abbrev one_body : MemoryStream
one_body = record {
  size = 6;
  offset = 0;
  capacity = 6;
  buffer = some (some 2 ∷ some 0 ∷ some 0 ∷ some 0 ∷ some b'a' ∷ some b'b' ∷ []);
  auto_delete = true;
}

one_body-IsAt : IsAt one_body (word_bytes 2 ++ ((b'a' ∷ b'b' ∷ []) ++ []))
unfolding word_bytes cells_of
one_body-IsAt = record {
  before = [];
  after = [];
  bytes_at = refl;
  place = refl;
  inside = omega arith;
}
