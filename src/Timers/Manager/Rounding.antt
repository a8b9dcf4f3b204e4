-- ===== src/Timers/Manager/Rounding.antt =====
-- Time points and intervals cut to the slices of the manager.
use native.Mathlib.Nat.{div-add-mod', mod-lt, mul-mod_left, mod-eq_of_lt}
use btool.Common.{ℕ, ◌+◌, ◌-◌, ◌*◌, ◌/◌, ◌%◌, ◌^◌, ◌<◌, ◌≤◌, ◌≡◌, lt→ltb, arith}
use btool.Timers.{nanoseconds}
use btool.Timers.Manager.{round_up, revise_time_point, revise_interval}

-- `unsigned long long` does not wrap in between.
no_wrap :
    (space x : ℕ)
    → 0 < space
    → x + space < 2 ^ 64
    → (x + space + (2 ^ 64 - 1)) % 2 ^ 64 ≡ x + space - 1
no_wrap space x h fits = omega arith

multiple :
    (space n : ℕ)
    → 0 < space
    → (n / space * space ≤ n) × (n < n / space * space + space) × (n / space * space % space ≡ 0)
multiple space n h = (
  omega (arith, div-add-mod' n space),
  omega (arith, div-add-mod' n space, mod-lt n h),
  mul-mod_left (n / space) space,
)

round_up-eq :
    (space x : ℕ)
    → 0 < space
    → x + space < 2 ^ 64
    → round_up space x ≡ (x + space - 1) / space * space
unfolding round_up
round_up-eq space x h fits =
    rw (no_wrap space x h fits) (mod-eq_of_lt (omega (arith, (multiple space (x + space - 1) h).0)))

round_up_lem :
    (space x : ℕ)
    → 0 < space
    → x + space < 2 ^ 64
    → (x ≤ round_up space x) × (round_up space x < x + space) × (round_up space x % space ≡ 0)
round_up_lem space x h fits =
    let bounds = multiple space (x + space - 1) h in
    rw (round_up-eq space x h fits) (omega (arith, bounds.1), omega (arith, bounds.0), bounds.2)

-- With slices of more than a millisecond, a timer is put less than a millisecond before its time point and
-- less than a slice after it, and its interval is the next multiple of the slice.
pub revise_lem :
    (space interval_ms time_point : ℕ)
    → 1 < space
    → time_point / nanoseconds + space < 2 ^ 64
    → interval_ms + space < 2 ^ 32
    → (time_point < revise_time_point space time_point + nanoseconds)
      × (revise_time_point space time_point < time_point + space * nanoseconds)
      × (interval_ms ≤ revise_interval space interval_ms)
      × (revise_interval space interval_ms < interval_ms + space)
      × (revise_interval space interval_ms % space ≡ 0)
unfolding revise_time_point revise_interval
revise_lem space interval_ms time_point h ft fi =
    let times = round_up_lem space (time_point / nanoseconds) (omega arith) ft in
    let spans = round_up_lem space interval_ms (omega arith) (omega (arith, fi)) in
    rw
      (
        lt→ltb 1 space h,
        mod-eq_of_lt {n = round_up space interval_ms} {m = 2 ^ 32} (omega (arith, spans.1, fi)),
      )
      (omega (arith, times.0), omega (arith, times.1), spans.0, spans.1, spans.2)
