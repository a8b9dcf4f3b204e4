-- ===== src/MemoryStream/Values.antt =====
-- The typed layer of `MemoryStream`: `append_args`, `read_args` and `get_args_length`. A value of a plain
-- type is its bytes in memory; a `std::string` or `std::string_view` goes with its length in front, as
-- a `uint32_t`, little-endian as on the machines the program runs on. Tuples are written and read as
-- their members in order, so a list of members stands for them.
pub mod Encode
pub mod Decode
pub mod RoundTrip
pub mod Streams
mod Tests
use btool.Common.{
  ℕ, zero, suc, ◌+◌, ◌-◌, ◌*◌, ◌/◌, ◌%◌, ◌^◌, Bool, true, false, List, [], ◌∷◌, ◌++◌, map, Option,
  none, some, ◌>>=◌, if◌then◌else◌, length,
}
use btool.MemoryStream.Block.{Cell, read_at}
use btool.MemoryStream.{MemoryStream, block, add_size, append, read, load, empty}

-- An argument of `append_args`: the bytes of a plain type, or a string. A `MemoryStream` as an argument is left out:
-- `read` does not pass its body, so that what follows it is not read back.
pub data Value : Type 0 where
  scalar : List ℕ → Value
  text : List ℕ → Value

-- A plain type is known by its `sizeof`.
pub data ValueType : Type 0 where
  scalar_type : ℕ → ValueType
  text_type : ValueType

pub cells_of : List ℕ → List Cell
cells_of = map some

-- The bytes, if each of them has been written.
pub written : List Cell → Option (List ℕ)
written [] = some []
written (none ∷ cs) = none
written (some b ∷ cs) = do bs ← written cs; some (b ∷ bs)

pub word_bytes : ℕ → List ℕ
word_bytes n = n % 256 ∷ n / 256 % 256 ∷ n / 65536 % 256 ∷ n / 16777216 % 256 ∷ []

pub word_of : List ℕ → ℕ
word_of [] = 0
word_of (b ∷ bs) = b + 256 * word_of bs

-- `append(Type&&)`, and `append` of a string: its length as a `uint32_t`, and its bytes.
pub append_value : MemoryStream → Value → Option MemoryStream
append_value s (scalar bytes) = append s (cells_of bytes)
append_value s (text bytes) = do
  s' ← append s (cells_of (word_bytes (length bytes % 2 ^ 32)))
  append s' (cells_of bytes)

pub append_args : MemoryStream → List Value → Option MemoryStream
append_args s [] = some s
append_args s (v ∷ vs) = do s' ← append_value s v; append_args s' vs

-- The length in front of a string: read with the position moving on, whatever the flag.
pub read_length : MemoryStream → Option (ℕ × MemoryStream)
unfolding written word_of
read_length s = do (cells, s') ← read s 4 true; bytes ← written cells; some (word_of bytes, s')

-- Back over the length if the position is not to move, else on over the body.
pub settle : MemoryStream → ℕ → Bool → MemoryStream
settle s len true = record s { offset = add_size s.offset len }
settle s len false = record s { offset = (s.offset + 2 ^ 64 - 4) % 2 ^ 64 }

pub read_text : MemoryStream → Bool → Option (Value × MemoryStream)
unfolding read_length settle written
read_text s offset_flag = do
  (len, s') ← read_length s
  cells ← read_at (block s'.buffer) s'.offset len
  bytes ← written cells
  some (text bytes, settle s' len offset_flag)

pub read_value : MemoryStream → ValueType → Bool → Option (Value × MemoryStream)
unfolding read_text written
read_value s (scalar_type size) offset_flag = do
  (cells, s') ← read s size offset_flag
  bytes ← written cells
  some (scalar bytes, s')
read_value s text_type offset_flag = read_text s offset_flag

-- `read` of a stream into a stream of its own: the position stands on the body even where it is to
-- move on.
pub read_stream : MemoryStream → Bool → Option (MemoryStream × MemoryStream)
unfolding read_length
read_stream s offset_flag = do
  (len, s') ← read_length s
  cells ← read_at (block s'.buffer) s'.offset len
  destination ← load empty cells
  some (
    destination,
    (if offset_flag then s' else record s' { offset = (s'.offset + 2 ^ 64 - 4) % 2 ^ 64 }),
  )

-- The members of `read_args`, each read with the position moving on.
pub read_members : MemoryStream → List ValueType → Option (List Value × MemoryStream)
read_members s [] = some ([], s)
read_members s (t ∷ ts) = do
  (v, s') ← read_value s t true
  (vs, s'') ← read_members s' ts
  some (v ∷ vs, s'')

pub read_args : MemoryStream → List ValueType → Bool → Option (List Value × MemoryStream)
unfolding read_members
read_args s ts offset_flag = do
  (vs, s') ← read_members s ts
  some (vs, (if offset_flag then s' else record s' { offset = s.offset }))

pub get_args_length : List Value → ℕ
get_args_length [] = 0
get_args_length (scalar bytes ∷ vs) = length bytes + get_args_length vs
get_args_length (text bytes ∷ vs) = 4 + length bytes + get_args_length vs

-- `get_args_sizeof`, which takes a string for its length alone.
pub get_args_sizeof : List ValueType → ℕ
get_args_sizeof [] = 0
get_args_sizeof (scalar_type size ∷ ts) = size + get_args_sizeof ts
get_args_sizeof (text_type ∷ ts) = 4 + get_args_sizeof ts
