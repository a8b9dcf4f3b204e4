-- ===== src/DateTime.antt =====
-- `DateTimeConvert` of datetime_convert.hpp: its fields, and the functions that build it from numbers.
-- A field is an `int`, hence in ℤ; the style is the byte of its enumeration, each bit a field that the
-- value carries.
pub mod Compare
pub mod Calendar
pub mod Text
pub mod Clock
pub mod Fields
pub mod Stamps
mod Tests
use btool.Common.{
  ℕ, zero, suc, ◌+◌, ◌-◌, ◌/◌, ◌%◌, Bool, true, false, not, ◌&&◌, ◌||◌, List, ltb, get_or, drop,
  ◌==◌, if◌then◌else◌,
}
use btool.Common.Int.{ℤ, pos, negsuc, ◌+ℤ◌, ◌*ℕ◌, ◌/ℕ◌, ◌%ℕ◌, ltb_ℤ, eqb_ℤ}

pub data DayOfWeek : Type 0 where
  undefine sunday monday tuesday wednesday thursday friday saturday : DayOfWeek

pub data DateTimeKind : Type 0 where
  local kline : DateTimeKind

-- The bits of `DateTimeStyle`, and its names for several of them.
abbrev pub dts_year : ℕ
dts_year = 128

abbrev pub dts_month : ℕ
dts_month = 64

abbrev pub dts_day : ℕ
dts_day = 32

abbrev pub dts_hour : ℕ
dts_hour = 16

abbrev pub dts_min : ℕ
dts_min = 8

abbrev pub dts_sec : ℕ
dts_sec = 4

abbrev pub dts_msec : ℕ
dts_msec = 2

abbrev pub dts_usec : ℕ
dts_usec = 1

abbrev pub dts_invalid : ℕ
dts_invalid = 0

abbrev pub dts_ymd : ℕ
dts_ymd = 224

abbrev pub dts_hms : ℕ
dts_hms = 28

abbrev pub dts_ymdhms : ℕ
dts_ymdhms = 252

abbrev pub dts_ymdhms_m : ℕ
dts_ymdhms_m = 254

abbrev pub dts_all : ℕ
dts_all = 255

-- `style & bit`, for one bit.
abbrev pub has : ℕ → ℕ → Bool
has style bit = not (style / bit % 2 == 0)

-- `(style & DTS_YMD) == DTS_YMD`, and `style & DTS_YMD`; the same for `DTS_HMS`.
abbrev pub has_ymd : ℕ → Bool
has_ymd style = has style dts_year && (has style dts_month && has style dts_day)

abbrev pub any_ymd : ℕ → Bool
any_ymd style = has style dts_year || (has style dts_month || has style dts_day)

abbrev pub has_hms : ℕ → Bool
has_hms style = has style dts_hour && (has style dts_min && has style dts_sec)

abbrev pub any_hms : ℕ → Bool
any_hms style = has style dts_hour || (has style dts_min || has style dts_sec)

pub record DateTime : Type 0 where
  pub style : ℕ
  pub day_of_week : DayOfWeek
  pub isvalid : Bool
  pub year : ℤ
  pub month : ℤ
  pub day : ℤ
  pub hour : ℤ
  pub minute : ℤ
  pub second : ℤ
  pub millsecond : ℤ
  pub microsecond : ℤ

-- The constructor without arguments.
abbrev pub blank : DateTime
blank = record {
  style = dts_invalid;
  day_of_week = undefine;
  isvalid = false;
  year = pos 0;
  month = pos 1;
  day = pos 1;
  hour = pos 0;
  minute = pos 0;
  second = pos 0;
  millsecond = pos 0;
  microsecond = pos 0;
}

abbrev pub non_negative : ℤ → Bool
non_negative z = not (ltb_ℤ z (pos 0))

unfoldable pub check_dt_valid : DateTime → Bool
check_dt_valid t =
    not (ltb_ℤ t.year (pos 1900))
    && (ltb_ℤ (pos 0) t.month
        && (ltb_ℤ (pos 0) t.day
            && (non_negative t.hour
                && (non_negative t.minute
                    && (non_negative t.second
                        && (non_negative t.millsecond && non_negative t.microsecond))))))

-- The beginning and the end that the functions below share.
abbrev pub begin : ℕ → DateTime
begin style = record blank { style = style; isvalid = not (style == dts_invalid) }

unfoldable pub checked : DateTime → DateTime
unfolding check_dt_valid
checked t = record t { isvalid = t.isvalid && check_dt_valid t }

-- `if (style & bit) field = …`, for a field that has `old` so far.
abbrev pub set_if : Bool → ℤ → ℤ → ℤ
set_if bit new old = if bit then new else old

-- `FromInt`: `cur_param`, and the arguments from the next one on. Past the last argument the call is
-- undefined; the model reads 0.
abbrev pub cur_param : List ℤ → ℤ
cur_param args = get_or args 0 (pos 0)

abbrev pub next_params : Bool → List ℤ → List ℤ
next_params bit args = if bit then drop 1 args else args

unfoldable pub from_int : ℕ → List ℤ → DateTime
unfolding checked
from_int style args =
    let months = next_params (has style dts_year) args in
    let days = next_params (has style dts_month) months in
    let hours = next_params (has style dts_day) days in
    let minutes = next_params (has style dts_hour) hours in
    let seconds = next_params (has style dts_min) minutes in
    let millseconds = next_params (has style dts_sec) seconds in
    let microseconds = next_params (has style dts_msec) millseconds in
    checked (record (begin style) {
      year = set_if (has style dts_year) (cur_param args) (pos 0);
      month = set_if (has style dts_month) (cur_param months) (pos 1);
      day = set_if (has style dts_day) (cur_param days) (pos 1);
      hour = set_if (has style dts_hour) (cur_param hours) (pos 0);
      minute = set_if (has style dts_min) (cur_param minutes) (pos 0);
      second = set_if (has style dts_sec) (cur_param seconds) (pos 0);
      millsecond = set_if (has style dts_msec) (cur_param millseconds) (pos 0);
      microsecond = set_if (has style dts_usec) (cur_param microseconds) (pos 0);
    })

unfoldable pub from_int_date_time : ℤ → ℤ → ℕ → DateTime
unfolding checked
from_int_date_time date time style = checked (record (begin style) {
  year = set_if (has style dts_year) (date /ℕ 10000) (pos 0);
  month = set_if (has style dts_month) (date %ℕ 10000 /ℕ 100) (pos 1);
  day = set_if (has style dts_day) (date %ℕ 100) (pos 1);
  hour = set_if (has style dts_hour) (time /ℕ 10000000) (pos 0);
  minute = set_if (has style dts_min) (time %ℕ 10000000 /ℕ 100000) (pos 0);
  second = set_if (has style dts_sec) (time %ℕ 100000 /ℕ 1000) (pos 0);
  millsecond = set_if (has style dts_msec) (time %ℕ 1000) (pos 0);
})

unfoldable pub from_int_date : ℤ → ℕ → DateTime
unfolding checked
from_int_date date style = checked (record (begin style) {
  year = set_if (has style dts_year) (date /ℕ 10000) (pos 0);
  month = set_if (has style dts_month) (date %ℕ 10000 /ℕ 100) (pos 1);
  day = set_if (has style dts_day) (date %ℕ 100) (pos 1);
})

-- `std::tm`, as far as it is read and written here.
pub record Tm : Type 0 where
  pub tm_year : ℤ
  pub tm_mon : ℤ
  pub tm_mday : ℤ
  pub tm_hour : ℤ
  pub tm_min : ℤ
  pub tm_sec : ℤ
  pub tm_wday : DayOfWeek

abbrev pub is_defined : DayOfWeek → Bool
is_defined undefine = false
is_defined w = true

unfoldable pub from_std_tm : Tm → ℕ → ℤ → ℤ → DateTime
unfolding checked
from_std_tm dt style millsecond microsecond = checked (record (begin style) {
  isvalid = not (style == dts_invalid) && is_defined dt.tm_wday;
  year = set_if (has style dts_year) (dt.tm_year +ℤ pos 1900) (pos 0);
  month = set_if (has style dts_month) (dt.tm_mon +ℤ pos 1) (pos 1);
  day = set_if (has style dts_day) dt.tm_mday (pos 1);
  hour = set_if (has style dts_hour) dt.tm_hour (pos 0);
  minute = set_if (has style dts_min) dt.tm_min (pos 0);
  second = set_if (has style dts_sec) dt.tm_sec (pos 0);
  millsecond = millsecond;
  microsecond = microsecond;
  day_of_week = dt.tm_wday;
})

-- The functions that turn the fields into numbers.
unfoldable pub to_int_date : DateTime → ℤ
to_int_date t = t.year *ℕ 10000 +ℤ t.month *ℕ 100 +ℤ t.day

unfoldable pub to_int_time : DateTime → ℤ
to_int_time t = t.hour *ℕ 10000 +ℤ t.minute *ℕ 100 +ℤ t.second

unfoldable pub to_int_time_ms : DateTime → ℤ
to_int_time_ms t = t.hour *ℕ 10000000 +ℤ t.minute *ℕ 100000 +ℤ t.second *ℕ 1000 +ℤ t.millsecond

unfoldable pub to_ll_datetime : DateTime → ℤ
to_ll_datetime t =
    t.year *ℕ 10000000000000
    +ℤ t.month *ℕ 100000000000
    +ℤ t.day *ℕ 1000000000
    +ℤ t.hour *ℕ 10000000
    +ℤ t.minute *ℕ 100000
    +ℤ t.second *ℕ 1000
    +ℤ t.millsecond

unfoldable pub to_today_ms : DateTime → ℤ
to_today_ms t = t.hour *ℕ 3600000 +ℤ t.minute *ℕ 60000 +ℤ t.second *ℕ 1000 +ℤ t.millsecond

unfoldable pub reset_time : ℤ → ℤ → ℤ → ℤ → ℤ → DateTime → DateTime
reset_time hour minute second millsecond microsecond t = record t {
  hour = hour;
  minute = minute;
  second = second;
  millsecond = millsecond;
  microsecond = microsecond;
}

unfoldable pub reset_time_tdms : ℤ → DateTime → DateTime
reset_time_tdms msecs t = record t {
  hour = msecs /ℕ 3600000;
  minute = msecs %ℕ 3600000 /ℕ 60000;
  second = msecs /ℕ 1000 %ℕ 60;
  millsecond = msecs %ℕ 1000;
}
