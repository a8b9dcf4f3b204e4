-- ===== src/DateTime/Tests.antt =====
-- Runs of `DateTimeConvert` at concrete times, and the theorems at them.
use btool.Common.{ℕ, ◌≡◌, refl, true, not, [], ◌∷◌, ◌++◌, some, ◌<◌, arith}
use btool.Common.Int.{ℤ, pos}
use btool.DateTime.{
  DateTime, Tm, sunday, monday, saturday, local, kline, dts_all, dts_ymdhms_m, from_int_date_time,
  to_int_date, to_int_time_ms,
}
use btool.DateTime.Stamps.{Stamp, Fits, stamped}
use btool.DateTime.Calendar.{caculate_weekday, week_number}
use btool.DateTime.Calendar.Counting.{first_day, day_after, weekday_after, weekday_counts}
use btool.DateTime.Compare.{
  equals, less, less_equal, greater, greater_equal, less_fields, less_field, year, month, day, hour,
  minute, second, millsecond, microsecond,
}
use btool.DateTime.Compare.Order.{key, lex_less, lex_equal, operators-key}
use btool.DateTime.Compare.Laws.{one_of, operators_trichotomy}
use btool.DateTime.Text.{to_local_string, to_kline_string, from_string}
use btool.DateTime.Text.RoundTrip.{from_string-to_string}
use btool.DateTime.Fields.{from_int_date_time-to_int, date_of, time_of}
use btool.DateTime.Clock.{Clock}

abbrev stamp : Stamp
stamp = record { y = 2024; mo = 2; d = 29; h = 23; mi = 59; s = 58; ms = 999; us = 7 }

abbrev later : Stamp
later = record { y = 2024; mo = 3; d = 1; h = 0; mi = 0; s = 0; ms = 0; us = 0 }

stamp-Fits : Fits stamp
stamp-Fits = record {
  year_from = omega arith;
  year_to = omega arith;
  month_from = omega arith;
  month_to = omega arith;
  day_from = omega arith;
  day_to = omega arith;
  hour_to = omega arith;
  minute_to = omega arith;
  second_to = omega arith;
  millsecond_to = omega arith;
  microsecond_to = omega arith;
}

abbrev a_time : DateTime
a_time = stamped dts_all stamp

abbrev a_later : DateTime
a_later = stamped dts_all later

a_sunday : caculate_weekday 2026 11 29 ≡ sunday
unfolding caculate_weekday week_number
a_sunday = refl

later_is_less : less a_time a_later ≡ true
unfolding less less_fields less_field year month day hour minute second millsecond microsecond
later_is_less = refl

weekday_counts_example :
    caculate_weekday
      (day_after 59 first_day).y
      (day_after 59 first_day).m
      (day_after 59 first_day).d
    ≡ weekday_after 59 monday
weekday_counts_example = weekday_counts 59

operators-key_example :
    (equals a_time a_later ≡ lex_equal (key a_time) (key a_later))
    × (less a_time a_later ≡ lex_less (key a_time) (key a_later))
    × (greater a_time a_later ≡ lex_less (key a_later) (key a_time))
operators-key_example = operators-key a_time a_later

operators_trichotomy_example :
    (one_of (less a_time a_later) (equals a_time a_later) (greater a_time a_later) ≡ true)
    × (less_equal a_time a_later ≡ not (greater a_time a_later))
    × (greater_equal a_time a_later ≡ not (less a_time a_later))
operators_trichotomy_example = operators_trichotomy a_time a_later

abbrev a_last : DateTime
a_last = stamped dts_all (record later { us = 1 })

from_string-to_string_example :
    (from_string (to_local_string dts_all a_time ++ 0 ∷ []) dts_all local ≡ some a_time)
    × (from_string (to_kline_string dts_all a_time ++ 0 ∷ []) dts_all kline ≡ some a_time)
from_string-to_string_example = from_string-to_string stamp stamp-Fits

from_int_date_time-to_int_example :
    (date_of stamp < 2147483648)
    × (time_of stamp < 2147483648)
    × (to_int_date (stamped dts_ymdhms_m stamp) ≡ pos (date_of stamp))
    × (to_int_time_ms (stamped dts_ymdhms_m stamp) ≡ pos (time_of stamp))
    × (from_int_date_time
          (to_int_date (stamped dts_ymdhms_m stamp))
          (to_int_time_ms (stamped dts_ymdhms_m stamp))
          dts_ymdhms_m
        ≡ record (stamped dts_ymdhms_m stamp) { microsecond = pos 0 })
from_int_date_time-to_int_example = from_int_date_time-to_int stamp stamp-Fits

-- A `localtime` that knows no calendar: the second of the epoch stands in `tm_sec`.
abbrev plain_tm : ℤ → Tm
plain_tm s = record {
  tm_year = pos 100;
  tm_mon = pos 0;
  tm_mday = pos 1;
  tm_hour = pos 0;
  tm_min = pos 0;
  tm_sec = s;
  tm_wday = saturday;
}

abbrev clock : Clock
clock = record { localtime = plain_tm; mktime = λ tm. tm.tm_sec }

abbrev own_millseconds : ℕ
own_millseconds = 999
