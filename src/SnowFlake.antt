-- ===== src/SnowFlake.antt =====
-- `SnowFlakeID` of unique_id.hpp: ids of 64 bits from the time in milliseconds, the number of the machine
-- and a sequence within the millisecond. The clock is a list of readings, each call of `timeGen` taking the
-- next one; `none` says that the call still waits when the readings end. A mask of low bits is a
-- remainder; `|` is `or_bits`, bit by bit.
pub mod Bits
pub mod Ids
pub mod Calls
pub mod Order
mod Tests
use btool.Common.{
  ℕ, zero, suc, ◌+◌, ◌-◌, ◌*◌, ◌/◌, ◌%◌, ◌^◌, max, Bool, List, [], ◌∷◌, Option, none, some, ltb,
  leb, ◌==◌, if◌then◌else◌,
}

pub record SnowFlake : Type 0 where
  pub worker_id : ℕ
  pub sequence : ℕ
  pub last_timestamp : ℕ

pub init : SnowFlake
init = record { worker_id = 0; sequence = 0; last_timestamp = 0 }

pub set_worker_id : SnowFlake → ℕ → SnowFlake
set_worker_id s worker_id = record s { worker_id = worker_id % 1024 }

-- m_twepoch
abbrev pub twepoch : ℕ
twepoch = 1609430400000

-- `|` of two numbers of so many bits.
pub or_bits : ℕ → ℕ → ℕ → ℕ
or_bits zero a b = 0
or_bits (suc bits) a b = max (a % 2) (b % 2) + 2 * or_bits bits (a / 2) (b / 2)

pub make_id : ℕ → ℕ → ℕ → ℕ
unfolding or_bits
make_id timestamp worker_id sequence =
    or_bits 64
      (or_bits 64 ((2 ^ 64 + timestamp - twepoch) % 2 ^ 64 * 2 ^ 22 % 2 ^ 64)
        (worker_id * 2 ^ 12 % 2 ^ 32))
      sequence

-- Readings until one is later; the rest of the readings stay.
pub til_next_millis : List ℕ → ℕ → Option (ℕ × List ℕ)
til_next_millis [] last_timestamp = none
til_next_millis (t ∷ ts) last_timestamp =
    let rest = til_next_millis ts last_timestamp in
    if leb t last_timestamp then rest else some (t, ts)

-- The end of `get_id`.
pub issue : SnowFlake → ℕ → ℕ → List ℕ → ℕ × SnowFlake × List ℕ
unfolding make_id
issue s timestamp sequence readings = (
  make_id timestamp s.worker_id sequence,
  record s { sequence = sequence; last_timestamp = timestamp },
  readings,
)

-- A sequence that runs over waits for the next millisecond.
pub issue_again : SnowFlake → ℕ → ℕ → List ℕ → Option (ℕ × SnowFlake × List ℕ)
unfolding issue til_next_millis
issue_again s timestamp sequence readings =
    if sequence == 0
    then elim (til_next_millis readings s.last_timestamp) [
      | none ↦ none
      | some (later, rest) ↦ some (issue s later sequence rest)
    ]
    else some (issue s timestamp sequence readings)

pub get_id : SnowFlake → List ℕ → Option (ℕ × SnowFlake × List ℕ)
unfolding issue issue_again
get_id s [] = none
get_id s (timestamp ∷ readings) =
    if ltb timestamp s.last_timestamp
    then some (0, s, readings)
    else if s.last_timestamp == timestamp
    then issue_again s timestamp ((s.sequence + 1) % 2 ^ 32 % 4096) readings
    else some (issue s timestamp 0 readings)

-- The ids of so many calls, up to the one that waits.
pub get_ids : ℕ → SnowFlake → List ℕ → List ℕ
unfolding get_id
get_ids zero s readings = []
get_ids (suc calls) s readings = elim (get_id s readings) [
  | none ↦ []
  | some (id, s', rest) ↦ id ∷ get_ids calls s' rest
]
