-- ===== src/DateTime/Clock/Shift.antt =====
-- Moving a time by seconds, and Unix time.
use btool.Common.{
  ℕ, ◌+◌, ◌*◌, ◌/◌, ◌%◌, ◌^◌, ◌<◌, ◌≡◌, refl, ap, ap₂, ◌∙◌, Bool, true, not, ◌&&◌, if◌then◌else◌,
  arith,
}
use btool.Common.Int.{ℤ, pos, negsuc, ◌+ℤ◌, ◌-ℤ◌}
use btool.DateTime.{
  DateTime, undefine, blank, Tm, has, has_ymd, has_hms, dts_ymdhms_m, dts_year, dts_month, dts_day,
  dts_hour, dts_min, dts_sec, from_std_tm, checked,
}
use btool.DateTime.Clock.{
  Clock, to_tm, from_std_time, from_unix_time_ms, to_time_t, to_unix_time_ms, get_add_second,
  add_second, to_u64,
}

add-sub : (z : ℤ) (k : ℕ) → (z +ℤ pos k) -ℤ pos k ≡ z
add-sub (pos n) k = ground arith
add-sub (negsuc n) k = ground arith

all_three : (a b c : Bool) → (a && (b && c)) ≡ true → (a ≡ true) × (b ≡ true) × (c ≡ true)
all_three a b c h = ground arith

-- A `tm` is read back where the style takes all of it.
to_tm-from_std_tm :
    (tm : Tm) (style : ℕ) (ms us : ℤ)
    → has_ymd style ≡ true
    → has_hms style ≡ true
    → to_tm (from_std_tm tm style ms us) ≡ tm
unfolding to_tm from_std_tm checked
to_tm-from_std_tm tm style ms us y h =
    let date = all_three (has style dts_year) (has style dts_month) (has style dts_day) y in
    let time = all_three (has style dts_hour) (has style dts_min) (has style dts_sec) h in
    rw (date.0, date.1, date.2, time.0, time.1, time.2)
      (ap₂ (λ a b. record tm { tm_year = a; tm_mon = b }) (add-sub tm.tm_year 1900)
        (add-sub tm.tm_mon 1))

abbrev pub unix_ms : ℤ → ℤ → ℕ
unix_ms time ms = (to_u64 time * 1000 + to_u64 ms) % 2 ^ 64

-- A `clock` of which `mktime` gives back the second that `localtime` was asked for.
module _ (clock : Clock) where
  pub to_time_t-from_std_time :
      (s : ℤ) (style : ℕ) (ms us : ℤ)
      → has_ymd style ≡ true
      → has_hms style ≡ true
      → clock.mktime (clock.localtime s) ≡ s
      → to_time_t clock (from_std_time clock s style ms us) ≡ s
  unfolding to_time_t from_std_time
  to_time_t-from_std_time s style ms us y h back =
      ap (clock.mktime) (to_tm-from_std_tm (clock.localtime s) style ms us y h) ∙ back

  get_add_second-valid :
      (t : DateTime) (secs : ℤ)
      → t.isvalid ≡ true
      → get_add_second clock secs t
        ≡ from_std_time clock (to_time_t clock t +ℤ secs) t.style (pos 0) (pos 0)
  unfolding get_add_second
  get_add_second-valid t secs v =
      ap
        (λ b.
          if not b
          then blank
          else from_std_time clock (to_time_t clock t +ℤ secs) t.style (pos 0) (pos 0))
        v

  -- The fields of the millisecond and the microsecond are the arguments.
  pub fractions :
      (s : ℤ) (style : ℕ) (ms us : ℤ)
      → ((from_std_time clock s style ms us).millsecond ≡ ms)
        × ((from_std_time clock s style ms us).microsecond ≡ us)
  unfolding from_std_time from_std_tm checked
  fractions s style ms us = (refl, refl)

  add_second-valid :
      (t : DateTime) (secs : ℤ)
      → t.isvalid ≡ true
      → add_second clock secs t ≡ record (get_add_second clock secs t) { day_of_week = undefine }
  unfolding add_second
  add_second-valid t secs v =
      ap (λ b. if not b then t else record (get_add_second clock secs t) { day_of_week = undefine })
        v

  -- `get_add_second` of a valid value of date and time is that many seconds later, or earlier; its millisecond and
  -- microsecond are 0. `add_second` does the same in place and forgets the day of the week.
  pub get_add_second_lem :
      (t : DateTime) (secs : ℤ)
      → t.isvalid ≡ true
      → has_ymd t.style ≡ true
      → has_hms t.style ≡ true
      → clock.mktime (clock.localtime (to_time_t clock t +ℤ secs)) ≡ to_time_t clock t +ℤ secs
      → (to_time_t clock (get_add_second clock secs t) ≡ to_time_t clock t +ℤ secs)
        × ((get_add_second clock secs t).millsecond ≡ pos 0)
        × ((get_add_second clock secs t).microsecond ≡ pos 0)
        × (add_second clock secs t
            ≡ record (get_add_second clock secs t) { day_of_week = undefine })
  get_add_second_lem t secs v y h back =
      let added = get_add_second-valid t secs v in
      let later = to_time_t clock t +ℤ secs in
      let parts = fractions later t.style (pos 0) (pos 0) in
      (
        ap (to_time_t clock) added ∙ to_time_t-from_std_time later t.style (pos 0) (pos 0) y h back,
        ap (λ u. u.millsecond) added ∙ parts.0,
        ap (λ u. u.microsecond) added ∙ parts.1,
        add_second-valid t secs v,
      )

  -- Unix time in milliseconds below 2 ^ 63 comes back.
  pub to_unix_time_ms-from_unix_time_ms :
      (n : ℕ)
      → n < 2 ^ 63
      → clock.mktime (clock.localtime (pos (n / 1000))) ≡ pos (n / 1000)
      → to_unix_time_ms clock (from_unix_time_ms clock n) ≡ n
  unfolding to_unix_time_ms from_unix_time_ms
  to_unix_time_ms-from_unix_time_ms n h back =
      ap₂ unix_ms
        (to_time_t-from_std_time (pos (n / 1000)) dts_ymdhms_m (pos (n % 1000)) (pos 0) refl refl
          back)
        (fractions (pos (n / 1000)) dts_ymdhms_m (pos (n % 1000)) (pos 0)).0
      ∙ omega arith
