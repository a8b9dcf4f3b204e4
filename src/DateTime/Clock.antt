-- ===== src/DateTime/Clock.antt =====
-- `DateTimeConvert` and the seconds of the system: the functions of datetime_convert.hpp that call `localtime` or
-- `mktime`, which are parameters, and what is built on them. A `long long` stays within its range; an `int`
-- is cut to 32 bits where the code cuts it, and an `int` product that does not fit is undefined, `none`.
pub mod Shift
pub mod Drift
use btool.Common.{
  ℕ, zero, suc, ◌+◌, ◌-◌, ◌*◌, ◌/◌, ◌%◌, ◌^◌, Bool, true, false, not, ◌&&◌, ◌||◌, Option, none,
  some, ltb, leb, ◌==◌, if◌then◌else◌,
}
use btool.Common.Int.{
  ℤ, pos, negsuc, pos_part, neg_part, sub_ℕ, ◌+ℤ◌, ◌-ℤ◌, ◌*ℕ◌, ◌/ℕ◌, ◌%ℕ◌, ltb_ℤ,
}
use btool.DateTime.{
  DateTime, undefine, blank, Tm, has, has_ymd, has_hms, dts_ymdhms, dts_ymdhms_m, dts_msec,
  dts_usec, from_std_tm,
}

pub record Clock : Type 0 where
  pub localtime : ℤ → Tm
  pub mktime : Tm → ℤ

unfoldable pub to_tm : DateTime → Tm
to_tm t = record {
  tm_year = t.year -ℤ pos 1900;
  tm_mon = t.month -ℤ pos 1;
  tm_mday = t.day;
  tm_hour = t.hour;
  tm_min = t.minute;
  tm_sec = t.second;
  tm_wday = t.day_of_week;
}

-- `uint64_t` and `int` from a `long long`.
abbrev pub to_u64 : ℤ → ℕ
to_u64 (pos n) = n % 2 ^ 64
to_u64 (negsuc n) = 2 ^ 64 - 1 - n % 2 ^ 64

abbrev pub signed32 : ℕ → ℤ
signed32 w = if ltb w (2 ^ 31) then pos w else negsuc (2 ^ 32 - 1 - w)

abbrev pub to_int : ℤ → ℤ
to_int (pos n) = signed32 (n % 2 ^ 32)
to_int (negsuc n) = signed32 (2 ^ 32 - 1 - n % 2 ^ 32)

unfoldable pub today_us : DateTime → ℤ
today_us t =
    (t.hour *ℕ 3600 +ℤ t.minute *ℕ 60 +ℤ t.second) *ℕ 1000000
    +ℤ t.millsecond *ℕ 1000
    +ℤ t.microsecond

-- `days * 24 * 60 * 60` is a product of `int`.
unfoldable pub day_seconds : ℤ → Option ℤ
day_seconds days =
    let secs = days *ℕ 86400 in
    if ltb_ℤ secs (negsuc (2 ^ 31 - 1)) || ltb_ℤ (pos (2 ^ 31 - 1)) secs then none else some secs

-- The whole seconds of a number of milliseconds and the own ones.
unfoldable pub res_seconds : ℤ → ℤ → ℤ
res_seconds millsecs own = to_int (millsecs +ℤ own) /ℕ 1000

module _ (clock : Clock) where
  unfoldable pub from_std_time : ℤ → ℕ → ℤ → ℤ → DateTime
  unfolding from_std_tm
  from_std_time dt style millsecond microsecond =
      from_std_tm (clock.localtime dt) style millsecond microsecond

  unfoldable pub from_unix_time : ℕ → DateTime
  unfolding from_std_time
  from_unix_time unix_dt = from_std_time (pos unix_dt) dts_ymdhms (pos 0) (pos 0)

  unfoldable pub from_unix_time_ms : ℕ → DateTime
  unfolding from_std_time
  from_unix_time_ms unix_dt =
      from_std_time (pos (unix_dt / 1000)) dts_ymdhms_m (pos (unix_dt % 1000)) (pos 0)

  -- A time point is its microseconds since the epoch.
  unfoldable pub from_time_point : ℤ → ℕ → DateTime
  unfolding from_std_time
  from_time_point dt style =
      from_std_time (dt /ℕ 1000000) style (if has style dts_msec then dt /ℕ 1000 %ℕ 1000 else pos 0)
        (if has style dts_usec then dt %ℕ 1000 else pos 0)

  unfoldable pub to_time_t : DateTime → ℤ
  unfolding to_tm
  to_time_t t = clock.mktime (to_tm t)

  unfoldable pub to_unix_time_ms : DateTime → ℕ
  unfolding to_time_t
  to_unix_time_ms t = (to_u64 (to_time_t t) * 1000 + to_u64 t.millsecond) % 2 ^ 64

  -- `none` for the exception.
  unfoldable pub to_system_time_point : DateTime → Option ℤ
  unfolding to_time_t
  to_system_time_point t =
      if not t.isvalid || not (has_ymd t.style && has_hms t.style)
      then none
      else some (
          to_time_t t *ℕ 1000000
          +ℤ (if has t.style dts_msec then t.millsecond *ℕ 1000 else pos 0)
          +ℤ (if has t.style dts_usec then t.microsecond else pos 0))

  -- The microseconds of a value by its date; `today_us` is by the time of day.
  unfoldable pub stamp_us : DateTime → ℤ
  unfolding to_time_t
  stamp_us t = to_time_t t *ℕ 1000000 +ℤ t.millsecond *ℕ 1000 +ℤ t.microsecond

  -- `operator-`, with `none` for the exception.
  unfoldable pub minus : DateTime → DateTime → Option ℤ
  unfolding stamp_us today_us
  minus t right =
      if not t.isvalid || (not right.isvalid || not (t.style == right.style))
      then none
      else if has_ymd t.style
      then some (stamp_us t -ℤ stamp_us right)
      else if has_hms t.style
      then some (today_us t -ℤ today_us right)
      else some (stamp_us t -ℤ stamp_us right)

  -- `GetSecondSpace`, `GetMillSecondSpace` and `GetMicroSecondSpace`: a number of microseconds to the unit.
  unfoldable pub space : ℕ → DateTime → DateTime → Option ℕ
  unfolding minus
  space unit t right = elim (minus t right) [
    | none ↦ none
    | some us ↦ some ((pos_part us + neg_part us) / unit)
  ]

  unfoldable pub get_date_space : DateTime → DateTime → ℤ
  unfolding to_time_t
  get_date_space t right =
      let seconds = to_time_t t -ℤ to_time_t right in
      if not t.isvalid
        || (not right.isvalid || (not (t.style == right.style) || not (has_ymd t.style)))
      then negsuc 0
      else pos ((pos_part seconds + neg_part seconds) / 86400)

  unfoldable pub get_add_second : ℤ → DateTime → DateTime
  unfolding from_std_time to_time_t
  get_add_second secs t =
      if not t.isvalid then blank else from_std_time (to_time_t t +ℤ secs) t.style (pos 0) (pos 0)

  unfoldable pub get_add_millsecond : ℤ → DateTime → DateTime
  unfolding from_std_time to_time_t res_seconds
  get_add_millsecond millsecs t =
      let secs = res_seconds millsecs t.millsecond in
      if not t.isvalid
      then blank
      else from_std_time (to_time_t t +ℤ secs) t.style (millsecs %ℕ 1000) (pos 0)

  unfoldable pub get_add_date : ℤ → DateTime → Option DateTime
  unfolding get_add_second day_seconds
  get_add_date days t =
      if not t.isvalid || not (has_ymd t.style)
      then some blank
      else elim (day_seconds days) [ none ↦ none | some secs ↦ some (get_add_second secs t) ]

  unfoldable pub add_date : ℤ → DateTime → Option DateTime
  unfolding get_add_date
  add_date days t =
      if not t.isvalid || not (has_ymd t.style) then some t else elim (get_add_date days t) [
        | none ↦ none
        | some u ↦ some (record u { day_of_week = undefine })
      ]

  unfoldable pub add_second : ℤ → DateTime → DateTime
  unfolding get_add_second
  add_second secs t =
      if not t.isvalid then t else record (get_add_second secs t) { day_of_week = undefine }

  unfoldable pub add_millsecond : ℤ → DateTime → DateTime
  unfolding get_add_millsecond
  add_millsecond msecs t =
      if not t.isvalid then t else record (get_add_millsecond msecs t) { day_of_week = undefine }
