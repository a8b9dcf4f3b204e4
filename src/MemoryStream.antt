-- ===== src/MemoryStream.antt =====
-- `MemoryStream` of boost_net/memory_stream.hpp: a growing byte buffer with a position. An operation
-- returns `none` where the code would read or write outside a block of memory, or would not come to
-- an end. The block of a stream that does not own it is its content: what others write to that block
-- is not modelled. A `size_t` sum or product wraps at 2 ^ 64, and an allocation succeeds.
pub mod Block
pub mod Grow
pub mod Append
pub mod Values
mod Tests
use btool.Common.{
  ℕ, zero, suc, ◌+◌, ◌-◌, ◌*◌, ◌%◌, ◌^◌, max, Bool, true, false, not, ◌&&◌, List, [], ◌++◌, Option,
  none, some, ◌>>=◌, ltb, leb, ◌==◌, if◌then◌else◌, length, take, drop, replicate,
}
use Block.{Cell, resize, write_at, read_at, malloc}

pub record MemoryStream : Type 0 where
  -- m_buffer_size
  pub size : ℕ
  pub offset : ℕ
  pub capacity : ℕ
  -- `none` is the null pointer.
  pub buffer : Option (List Cell)
  pub auto_delete : Bool

abbrev pub add_size : ℕ → ℕ → ℕ
add_size base more = (base + more) % 2 ^ 64

abbrev pub block : Option (List Cell) → List Cell
block none = []
block (some cells) = cells

is_null : Option (List Cell) → Bool
is_null none = true
is_null (some cells) = false

-- The default constructor.
unfoldable pub empty : MemoryStream
empty = record { size = 0; offset = 0; capacity = 0; buffer = none; auto_delete = true }

unfoldable pub with_capacity : ℕ → MemoryStream
with_capacity capacity = record {
  size = 0;
  offset = 0;
  capacity = capacity;
  buffer = some (malloc capacity);
  auto_delete = true;
}

-- The constructors from a pointer and a length: a view, or a copy.
unfoldable pub from_buffer : List Cell → Bool → MemoryStream
from_buffer source auto_delete = record {
  size = length source;
  offset = 0;
  capacity = length source;
  buffer = some source;
  auto_delete = auto_delete;
}

-- The copy constructor: `m_buffer_size` bytes into a block of `m_capacity`.
pub copy : MemoryStream → Option MemoryStream
copy rhs =
    if rhs.auto_delete
    then (do
      source ← read_at (block rhs.buffer) 0 rhs.size
      target ← write_at (malloc rhs.capacity) 0 source
      some (record rhs { buffer = some target }))
    else some rhs

unfoldable pub reset_offset_to : MemoryStream → ℕ → MemoryStream
reset_offset_to s offset = record s { offset = offset }

unfoldable pub reset_offset : MemoryStream → MemoryStream
reset_offset s = record s { offset = s.size }

unfoldable pub add_offset : MemoryStream → ℕ → MemoryStream
add_offset s offset = record s { offset = add_size s.offset offset }

-- The bytes behind the position.
unfoldable pub get_res_length : MemoryStream → ℕ
get_res_length s = (2 ^ 64 + s.size - s.offset) % 2 ^ 64

-- A stream that does not own its block moves to one of its own, `m_capacity` bytes at most `len`; one
-- that does grows only.
unfoldable pub reset_capacity : MemoryStream → ℕ → Option MemoryStream
reset_capacity s len =
    if not s.auto_delete
    then (do
      source ← read_at (block s.buffer) 0 s.capacity
      target ← write_at (malloc len) 0 source
      some (record s { buffer = some target; auto_delete = true; capacity = len }))
    else if ltb s.capacity len
    then some (record s { buffer = some (resize (block s.buffer) len); capacity = len })
    else some s

unfoldable pub attach : MemoryStream → List Cell → MemoryStream
attach s source = record s {
  size = length source;
  buffer = some source;
  capacity = length source;
  offset = 0;
  auto_delete = false;
}

unfoldable pub detach : MemoryStream → Option (List Cell) × MemoryStream
unfolding empty
detach s = (s.buffer, empty)

unfoldable pub clone : MemoryStream → Option MemoryStream
clone s =
    if not s.auto_delete
    then (do
      source ← read_at (block s.buffer) 0 s.capacity
      target ← write_at (malloc s.capacity) 0 source
      some (record s { buffer = some target; auto_delete = true }))
    else some s

unfoldable pub clear : MemoryStream → MemoryStream
unfolding is_null
clear s = record s {
  size = if not (is_null s.buffer) && s.auto_delete then 0 else s.size;
  offset = 0;
}

unfoldable pub destroy : MemoryStream → MemoryStream
unfolding empty
destroy s = empty

-- `load`, with the least capacity that the second form asks for.
unfoldable pub load_with : MemoryStream → List Cell → ℕ → Option MemoryStream
load_with s source capacity = do
  s' ← reset_capacity s (max capacity (length source))
  target ← write_at (block s'.buffer) 0 source
  some (record s' { buffer = some target; size = length source; offset = 0 })

unfoldable pub load : MemoryStream → List Cell → Option MemoryStream
load s source = do
  s' ← reset_capacity s (length source)
  target ← write_at (block s'.buffer) 0 source
  some (record s' { buffer = some target; size = length source; offset = 0 })

-- The loop of both forms of `append`, on fuel; a fuel of 66 is enough (Grow).
pub grow : ℕ → MemoryStream → ℕ → Option MemoryStream
grow zero s new_capacity = none
grow (suc fuel) s new_capacity =
    let next = (do
      s' ← reset_capacity s (if s.capacity == 0 then new_capacity else (s.capacity * 2) % 2 ^ 64)
      grow fuel s' new_capacity) in
    if ltb s.capacity new_capacity then next else some s

abbrev pub grow_fuel : ℕ
grow_fuel = 66

-- `append` at the position, which moves on; the length counts what was appended, wherever it went.
pub append : MemoryStream → List Cell → Option MemoryStream
append s source = if length source == 0 then some s else do
  s' ← grow grow_fuel s (add_size s.offset (length source))
  target ← write_at (block s'.buffer) s'.offset source
  some (record s' {
    buffer = some target;
    offset = add_size s'.offset (length source);
    size = add_size s'.size (length source);
  })

-- `append` at a place of the caller's.
pub append_at : MemoryStream → List Cell → ℕ → Option MemoryStream
append_at s source offset = if length source == 0 then some s else do
  s' ← grow grow_fuel s (add_size offset (length source))
  target ← write_at (block s'.buffer) offset source
  some (record s' { buffer = some target; size = max s'.size (add_size offset (length source)) })

-- `read` of a number of bytes.
pub read : MemoryStream → ℕ → Bool → Option (List Cell × MemoryStream)
read s len offset_flag = if len == 0 then some ([], s) else do
  cells ← read_at (block s.buffer) s.offset len
  some (cells, (if offset_flag then record s { offset = add_size s.offset len } else s))
