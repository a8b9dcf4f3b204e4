-- ===== src/DateTime/Fields.antt =====
-- The functions between fields and numbers: round trips and ranges.
use btool.Common.{ℕ, ◌+◌, ◌*◌, ◌/◌, ◌%◌, ◌^◌, ◌<◌, ◌≡◌, refl, ap, [], ◌∷◌, arith}
use btool.Common.Int.{pos}
use btool.DateTime.{
  DateTime, checked, check_dt_valid, dts_ymdhms_m, dts_all, from_int, from_int_date_time,
  to_int_date, to_int_time_ms, to_today_ms, reset_time, reset_time_tdms,
}
use btool.DateTime.Stamps.{Stamp, Fits, stamped, stamped-checked}

-- `date` and `time` of a value, as the numbers yyyymmdd and hhmmssmmm.
abbrev pub date_of : Stamp → ℕ
date_of t = t.y * 10000 + t.mo * 100 + t.d

abbrev pub time_of : Stamp → ℕ
time_of t = t.h * 10000000 + t.mi * 100000 + t.s * 1000 + t.ms

no_microsecond : (t : Stamp) → Fits t → Fits (record t { us = 0 })
no_microsecond t f = ground arith

record Parts (t : Stamp) : Type 0 where
  year_part : date_of t / 10000 ≡ t.y
  month_part : date_of t % 10000 / 100 ≡ t.mo
  day_part : date_of t % 100 ≡ t.d
  hour_part : time_of t / 10000000 ≡ t.h
  minute_part : time_of t % 10000000 / 100000 ≡ t.mi
  second_part : time_of t % 100000 / 1000 ≡ t.s
  millsecond_part : time_of t % 1000 ≡ t.ms

parts : (t : Stamp) → Fits t → Parts t
parts t f = record {
  year_part = omega arith;
  month_part = omega arith;
  day_part = omega arith;
  hour_part = omega arith;
  minute_part = omega arith;
  second_part = omega arith;
  millsecond_part = omega arith;
}

-- Of a value of date and time to the millisecond, with a year from 1900 to 9999, month and day from 1 to 99, hour,
-- minute and second up to 99 and millisecond and microsecond up to 999, the numbers yyyymmdd and hhmmssmmm are below
-- 2 ^ 31, and `FromIntDateTime` takes all of the value from them but for the microsecond.
pub from_int_date_time-to_int :
    (t : Stamp)
    → Fits t
    → (date_of t < 2 ^ 31)
      × (time_of t < 2 ^ 31)
      × (to_int_date (stamped dts_ymdhms_m t) ≡ pos (date_of t))
      × (to_int_time_ms (stamped dts_ymdhms_m t) ≡ pos (time_of t))
      × (from_int_date_time
            (to_int_date (stamped dts_ymdhms_m t))
            (to_int_time_ms (stamped dts_ymdhms_m t))
            dts_ymdhms_m
          ≡ record (stamped dts_ymdhms_m t) { microsecond = pos 0 })
unfolding from_int_date_time checked check_dt_valid to_int_date to_int_time_ms
from_int_date_time-to_int t f =
    let p = parts t f in
    let kept = stamped-checked dts_ymdhms_m (record t { us = 0 }) (no_microsecond t f) in
    (
      omega (arith, f.year_to, f.month_to, f.day_to),
      omega (arith, f.hour_to, f.minute_to, f.second_to, f.millsecond_to),
      refl,
      refl,
      rw
          (
            p.year_part, p.month_part, p.day_part, p.hour_part, p.minute_part, p.second_part,
            p.millsecond_part,
          )
          (ap (λ b. record (stamped dts_ymdhms_m t) { isvalid = b; microsecond = pos 0 }) kept),
    )

minute_of_hour : (n : ℕ) → n % 3600000 / 60000 ≡ n / 60000 % 60
minute_of_hour n = omega arith

-- `reset_time_tdms` sets a time of day that `to_today_ms` reads back, with its minute, second and
-- millisecond in range, and leaves the date and the microsecond alone.
pub to_today_ms-reset_time_tdms :
    (n : ℕ) (t : DateTime)
    → (to_today_ms (reset_time_tdms (pos n) t) ≡ pos n)
      × (reset_time_tdms (pos n) t
          ≡ reset_time
              (pos (n / 3600000))
              (pos (n / 60000 % 60))
              (pos (n / 1000 % 60))
              (pos (n % 1000))
              t.microsecond
              t)
unfolding to_today_ms reset_time_tdms reset_time
to_today_ms-reset_time_tdms n t = (
  ap pos (omega arith),
  ap
      (λ m. record t {
        hour = pos (n / 3600000);
        minute = pos m;
        second = pos (n / 1000 % 60);
        millsecond = pos (n % 1000);
      })
      (minute_of_hour n),
)

-- `FromInt` of all fields takes them in order.
pub from_int_all :
    (t : Stamp)
    → Fits t
    → from_int dts_all
        (pos t.y ∷ pos t.mo ∷ pos t.d ∷ pos t.h ∷ pos t.mi ∷ pos t.s ∷ pos t.ms ∷ pos t.us ∷ [])
      ≡ stamped dts_all t
unfolding from_int checked check_dt_valid
from_int_all t f =
    ap (λ b. record (stamped dts_all t) { isvalid = b }) (stamped-checked dts_all t f)
