-- ===== src/DateTime/Calendar.antt =====
-- The calendar of `DateTimeConvert`: the day of the week by the formula of Kim Larsen, leap years and the
-- lengths of months. A value that passed `check_dt_valid` has a positive date, so `pos_part` reads it.
pub mod Counting
use btool.Common.{
  ℕ, zero, suc, ◌+◌, ◌-◌, ◌*◌, ◌/◌, ◌%◌, Bool, true, false, not, ◌&&◌, ◌||◌, List, [], ◌∷◌, Option,
  none, some, get_elem?, ltb, ◌==◌, if◌then◌else◌,
}
use btool.Common.Int.{ℤ, pos, negsuc, pos_part, neg_part, ltb_ℤ, eqb_ℤ}
use btool.DateTime.{
  DateTime, DayOfWeek, undefine, sunday, monday, tuesday, wednesday, thursday, friday, saturday,
  is_defined, has_ymd,
}

-- the `switch` of `caculate_weekday`
abbrev pub week_day : ℕ → DayOfWeek
week_day w =
    if w == 0
    then monday
    else if w == 1
    then tuesday
    else if w == 2
    then wednesday
    else if w == 3
    then thursday
    else if w == 4
    then friday
    else if w == 5
    then saturday
    else if w == 6
    then sunday
    else undefine

unfoldable pub week_number : ℕ → ℕ → ℕ → ℕ
week_number y m d = (d + 2 * m + 3 * (m + 1) / 5 + y + y / 4 - y / 100 + y / 400) % 7

-- January and February count as the months 13 and 14 of the year before.
unfoldable pub caculate_weekday : ℕ → ℕ → ℕ → DayOfWeek
unfolding week_number
caculate_weekday y m d =
    week_day (if (m == 1) || (m == 2) then week_number (y - 1) (m + 12) d else week_number y m d)

-- Where it is not known yet, the day is computed and kept.
unfoldable pub settle_weekday : DateTime → DateTime
unfolding caculate_weekday
settle_weekday t =
    if not (is_defined t.day_of_week) && has_ymd t.style
    then record t {
      day_of_week = caculate_weekday (pos_part t.year) (pos_part t.month) (pos_part t.day);
    }
    else t

pub day_of_week : DateTime → DayOfWeek × DateTime
unfolding settle_weekday
day_of_week t =
    let u = settle_weekday t in if not t.isvalid then (undefine, t) else (u.day_of_week, u)

abbrev is_weekend : DayOfWeek → Bool
is_weekend sunday = true
is_weekend saturday = true
is_weekend w = false

pub isweekday : DateTime → Bool × DateTime
unfolding settle_weekday
isweekday t =
    let u = settle_weekday t in if not t.isvalid then (false, t) else (is_weekend u.day_of_week, u)

-- `z % k == 0`
abbrev divides : ℕ → ℤ → Bool
divides k z = (pos_part z + neg_part z) % k == 0

unfoldable pub isleapyear : DateTime → Bool
isleapyear t = divides 4 t.year && (not (divides 100 t.year) || divides 400 t.year)

unfoldable pub days_of_year : DateTime → ℕ
unfolding isleapyear
days_of_year t = if isleapyear t then 366 else 365

abbrev pub days_of_month_table : List ℕ
days_of_month_table = 31 ∷ 28 ∷ 31 ∷ 30 ∷ 31 ∷ 30 ∷ 31 ∷ 31 ∷ 30 ∷ 31 ∷ 30 ∷ 31 ∷ []

-- `none` for a month past the table, a read out of its bounds.
unfoldable pub days_of_month : DateTime → Option ℤ
unfolding isleapyear
days_of_month t =
    if ltb_ℤ t.month (pos 1)
    then some (negsuc 0)
    else if eqb_ℤ t.month (pos 2) && isleapyear t
    then some (pos 29)
    else elim (get_elem? days_of_month_table (pos_part t.month - 1)) [
      | none ↦ none
      | some days ↦ some (pos days)
    ]
