-- ===== src/WriteBuffer.antt =====
-- `WriteBuffer` of boost_net/net_buffer.hpp: the messages that a connection has still to send, with a
-- pool of streams to hold them. `none` is a fault in a stream, or a `front` of an empty queue. The
-- template parameter DEFAULT_SIZE is the argument `default_size`.
pub mod Accounting
pub mod Tail
mod Tests
use btool.Common.{
  ℕ, zero, suc, ◌+◌, ◌-◌, ◌%◌, ◌^◌, Bool, true, false, not, ◌&&◌, List, [], ◌∷◌, ◌++◌, Option, none,
  some, ◌>>=◌, ltb, leb, ◌==◌, if◌then◌else◌, length, replicate,
}
use btool.MemoryStream.Block.{Cell}
use btool.MemoryStream
use btool.MemoryStream.{MemoryStream, add_size}

pub record WriteBuffer : Type 0 where
  -- m_free_pool, the front first
  pub free_pool : List MemoryStream
  -- m_send_items
  pub send_items : List MemoryStream
  -- m_all_len
  pub all_len : ℕ

pub init : ℕ → ℕ → WriteBuffer
unfolding MemoryStream.with_capacity
init default_size pool_size = record {
  free_pool = replicate pool_size (MemoryStream.with_capacity default_size);
  send_items = [];
  all_len = 0;
}

-- A stream for the message, and the pool that is left.
take_stream : ℕ → List MemoryStream → List Cell → Option (MemoryStream × List MemoryStream)
take_stream default_size [] msg = do
  obj ← MemoryStream.load_with MemoryStream.empty msg default_size
  some (obj, [])
take_stream default_size (obj ∷ pool) msg =
    if ltb 0 (length msg)
    then (do loaded ← MemoryStream.load obj msg; some (loaded, pool))
    else some (MemoryStream.clear obj, pool)

pub acquire : ℕ → WriteBuffer → List Cell → Option (MemoryStream × WriteBuffer)
unfolding take_stream
acquire default_size w msg = do
  (obj, pool) ← take_stream default_size w.free_pool msg
  some (obj, record w { free_pool = pool })

-- `append` of a stream; the null pointer is refused.
pub append_stream : WriteBuffer → Option MemoryStream → Bool × WriteBuffer
append_stream w none = (false, w)
append_stream w (some s) =
    (true, record w { all_len = add_size w.all_len s.size; send_items = w.send_items ++ (s ∷ []) })

pub append : ℕ → WriteBuffer → List Cell → Option (Bool × WriteBuffer)
append default_size w msg = do
  (obj, w') ← acquire default_size w msg
  some (append_stream w' (some obj))

pub last : List MemoryStream → Option MemoryStream
last [] = none
last (s ∷ []) = some s
last (s ∷ t ∷ ss) = last (t ∷ ss)

pub set_last : List MemoryStream → MemoryStream → List MemoryStream
set_last [] t = []
set_last (s ∷ []) t = t ∷ []
set_last (s ∷ s' ∷ ss) t = s ∷ set_last (s' ∷ ss) t

-- A new item, because there is none or the last one is full, or more bytes for the last one.
pub append_tail : ℕ → WriteBuffer → List Cell → ℕ → Option (Bool × WriteBuffer)
append_tail default_size w msg max_package_size = elim (last w.send_items) [
  | none ↦ append default_size w msg
  | some item ↦
      if not (max_package_size == 0) && leb max_package_size (add_size item.size (length msg))
      then append default_size w msg
      else do
        item' ← MemoryStream.append item msg
        some (true, record w { send_items = set_last w.send_items item' })
]

take_front : WriteBuffer → List MemoryStream → Option (MemoryStream × WriteBuffer)
take_front w [] = none
take_front w (s ∷ ss) =
    some (s, record w { send_items = ss; all_len = (2 ^ 64 + w.all_len - s.size) % 2 ^ 64 })

pub pop_front : WriteBuffer → Option (MemoryStream × WriteBuffer)
unfolding take_front
pop_front w = take_front w w.send_items

-- The items go back to the pool, in order.
pub clear : WriteBuffer → WriteBuffer
clear w = record { free_pool = w.free_pool ++ w.send_items; send_items = []; all_len = 0 }

pub release : WriteBuffer → Option MemoryStream → WriteBuffer
release w none = w
release w (some obj) = record w { free_pool = w.free_pool ++ (obj ∷ []) }
