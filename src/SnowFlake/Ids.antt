-- ===== src/SnowFlake/Ids.antt =====
-- What an id of `SnowFlakeID` holds.
use btool.Common.{ℕ, ◌+◌, ◌-◌, ◌*◌, ◌/◌, ◌%◌, ◌^◌, ◌<◌, ◌≡◌, ap, ◌∙◌, arith}
use btool.SnowFlake.{twepoch, or_bits, make_id}
use btool.SnowFlake.Bits.{shift_left, or_apart}

-- After the epoch of the ids, and early enough for 42 bits of time.
pub record IsTimely (timestamp : ℕ) : Type 0 where
  pub after : twepoch < timestamp
  pub before : timestamp < twepoch + 2 ^ 42

or_worker :
    (time worker_id : ℕ)
    → time < 2 ^ 42
    → worker_id < 1024
    → or_bits 64 (time * 4194304) (worker_id * 4096) ≡ (time * 1024 + worker_id) * 4096
or_worker time worker_id t w =
    ap (λ a. or_bits 64 a (worker_id * 4096)) {x = time * 4194304} {y = shift_left 22 time}
      (omega arith)
    ∙ or_apart 64 22 time (worker_id * 4096) (omega arith) (omega arith)
    ∙ omega arith

or_sequence :
    (high sequence : ℕ)
    → high < 2 ^ 52
    → sequence < 4096
    → or_bits 64 (high * 4096) sequence ≡ high * 4096 + sequence
or_sequence high sequence h s =
    ap (λ a. or_bits 64 a sequence) {x = high * 4096} {y = shift_left 12 high} (omega arith)
    ∙ or_apart 64 12 high sequence (omega arith) (omega arith)
    ∙ omega arith

pub make_id_sum :
    (timestamp worker_id sequence : ℕ)
    → IsTimely timestamp
    → worker_id < 1024
    → sequence < 4096
    → make_id timestamp worker_id sequence
      ≡ ((timestamp - twepoch) * 1024 + worker_id) * 4096 + sequence
unfolding make_id
make_id_sum timestamp worker_id sequence timely w s =
    ap (λ a. or_bits 64 (or_bits 64 a (worker_id * 2 ^ 12 % 2 ^ 32)) sequence)
      {x = (2 ^ 64 + timestamp - twepoch) % 2 ^ 64 * 2 ^ 22 % 2 ^ 64}
      {y = (timestamp - twepoch) * 4194304} (omega (arith, timely.after, timely.before))
    ∙ ap (λ b. or_bits 64 (or_bits 64 ((timestamp - twepoch) * 4194304) b) sequence)
        {x = worker_id * 2 ^ 12 % 2 ^ 32} {y = worker_id * 4096} (omega arith)
    ∙ ap (λ a. or_bits 64 a sequence)
        (or_worker (timestamp - twepoch) worker_id (omega (arith, timely.after, timely.before)) w)
    ∙ or_sequence ((timestamp - twepoch) * 1024 + worker_id) sequence
        (omega (arith, timely.after, timely.before)) s

-- At a time in range, with a machine number below 1024 and a sequence below 4096, the three are read
-- back from the id, which is not 0 and has 64 bits: no two machines make the same id.
pub id_fields :
    (timestamp worker_id sequence : ℕ)
    → IsTimely timestamp
    → worker_id < 1024
    → sequence < 4096
    → let id = make_id timestamp worker_id sequence in
      (0 < id)
      × (id < 2 ^ 64)
      × (id / 2 ^ 22 + twepoch ≡ timestamp)
      × (id / 2 ^ 12 % 2 ^ 10 ≡ worker_id)
      × (id % 2 ^ 12 ≡ sequence)
id_fields timestamp worker_id sequence timely w s =
    let e = make_id_sum timestamp worker_id sequence timely w s in
    let after = timely.after in
    let before = timely.before in (omega arith, omega arith, omega arith, omega arith, omega arith)
