-- ===== src/DateTime/Calendar/Counting.antt =====
-- The formula against a calendar that goes from one day to the next, and the lengths of months against
-- the rule in words.
use btool.Common.{
  ℕ, zero, suc, ◌+◌, ◌-◌, ◌%◌, ◌≤◌, ◌<◌, ◌≡◌, refl, ap, ◌∙◌, Bool, true, false, ◌||◌, some,
  get_elem?, ltb, ◌==◌, if◌then◌else◌, arith,
}
use native.Mathlib.Numerals.{unary_clauses}
use btool.Common.Int.{pos}
use btool.DateTime.{
  DateTime, DayOfWeek, sunday, monday, tuesday, wednesday, thursday, friday, saturday, undefine,
}
use btool.DateTime.Calendar.{
  week_day, week_number, caculate_weekday, isleapyear, days_of_month, days_of_month_table,
  days_of_year,
}

-- Thirty days hath September; a year is a leap year every fourth, but for three centuries of four.
abbrev pub leap : ℕ → Bool
leap y = if y % 400 == 0 then true else if y % 100 == 0 then false else y % 4 == 0

abbrev pub month_length : ℕ → ℕ → ℕ
month_length y m =
    if m == 2
    then (if leap y then 29 else 28)
    else if (m == 4) || (m == 6) || (m == 9) || (m == 11)
    then 30
    else 31

pub record Day : Type 0 where
  pub y : ℕ
  pub m : ℕ
  pub d : ℕ

pub record IsDay (t : Day) : Type 0 where
  pub year_in : 1 ≤ t.y
  pub month_from : 1 ≤ t.m
  pub month_to : t.m ≤ 12
  pub day_from : 1 ≤ t.d
  pub day_to : t.d ≤ month_length t.y t.m

abbrev pub next_day : Day → Day
next_day t =
    if ltb t.d (month_length t.y t.m)
    then record t { d = t.d + 1 }
    else if ltb t.m 12
    then record { y = t.y; m = t.m + 1; d = 1 }
    else record { y = t.y + 1; m = 1; d = 1 }

abbrev pub next_weekday : DayOfWeek → DayOfWeek
next_weekday undefine = undefine
next_weekday sunday = monday
next_weekday monday = tuesday
next_weekday tuesday = wednesday
next_weekday wednesday = thursday
next_weekday thursday = friday
next_weekday friday = saturday
next_weekday saturday = sunday

abbrev pub day_after : ℕ → Day → Day
day_after zero t = t
day_after (suc n) t = next_day (day_after n t)

abbrev pub weekday_after : ℕ → DayOfWeek → DayOfWeek
weekday_after zero w = w
weekday_after (suc n) w = next_weekday (weekday_after n w)

next_day-IsDay : (t : Day) → IsDay t → IsDay (next_day t)
next_day-IsDay t v = ground arith

-- The number that the formula gives, for a date of either kind.
abbrev week_of : ℕ → ℕ → ℕ → ℕ
week_of y m d = if (m == 1) || (m == 2) then week_number (y - 1) (m + 12) d else week_number y m d

week_of-lt : (y m d : ℕ) → week_of y m d < 7
unfolding week_number
week_of-lt y m d = ground arith

within_month : (y m d : ℕ) → week_of y m (d + 1) ≡ (week_of y m d + 1) % 7
unfolding week_number
within_month y m d = ground arith

next_year : (y : ℕ) → 1 ≤ y → week_of (y + 1) 1 1 ≡ (week_of y 12 31 + 1) % 7
unfolding week_number
next_year y h = ground arith

end_of_january : (y : ℕ) → week_of y 2 1 ≡ (week_of y 1 31 + 1) % 7
unfolding week_number
end_of_january y = ground arith

end_of_february : (y : ℕ) → 1 ≤ y → week_of y 3 1 ≡ (week_of y 2 (month_length y 2) + 1) % 7
unfolding week_number
end_of_february y h = ground arith

next_month :
    (y m : ℕ)
    → 3 ≤ m
    → m ≤ 11
    → week_number y (m + 1) 1 ≡ (week_number y m (month_length y m) + 1) % 7
unfolding week_number
next_month y m lo hi = ground arith

next_day-week_of :
    (t : Day)
    → IsDay t
    → week_of (next_day t).y (next_day t).m (next_day t).d ≡ (week_of t.y t.m t.d + 1) % 7
next_day-week_of t v = ground (
  arith,
  within_month t.y t.m t.d,
  next_year t.y,
  end_of_january t.y,
  end_of_february t.y,
  next_month t.y t.m,
)

week_day-next : (w : ℕ) → w < 7 → week_day ((w + 1) % 7) ≡ next_weekday (week_day w)
week_day-next w h = ground arith

-- The formula at the next day gives the next day of the week, for every date from the year 1 on.
pub next_day-weekday :
    (t : Day)
    → IsDay t
    → caculate_weekday (next_day t).y (next_day t).m (next_day t).d
      ≡ next_weekday (caculate_weekday t.y t.m t.d)
unfolding caculate_weekday
next_day-weekday t v =
    ap week_day (next_day-week_of t v)
    ∙ week_day-next (week_of t.y t.m t.d) (week_of-lt t.y t.m t.d)

day_after-IsDay : (n : ℕ) (t : Day) → IsDay t → IsDay (day_after n t)
day_after-IsDay zero t v = v
day_after-IsDay (suc n) t v = next_day-IsDay (day_after n t) (day_after-IsDay n t v)

abbrev pub first_day : Day
first_day = record { y = 1900; m = 1; d = 1 }

first_day-IsDay : IsDay first_day
first_day-IsDay = record {
  year_in = omega arith;
  month_from = omega arith;
  month_to = omega arith;
  day_from = omega arith;
  day_to = omega arith;
}

-- The formula agrees with counting: the n-th day after 1 January 1900, a Monday, is the n-th day of the
-- week after Monday.
pub weekday_counts :
    (n : ℕ)
    → caculate_weekday (day_after n first_day).y (day_after n first_day).m (day_after n first_day).d
      ≡ weekday_after n monday
unfolding caculate_weekday
weekday_counts zero = refl
weekday_counts (suc n) =
    next_day-weekday (day_after n first_day) (day_after-IsDay n first_day first_day-IsDay)
    ∙ ap next_weekday (weekday_counts n)

abbrev common_length : ℕ → ℕ
common_length m =
    if m == 2 then 28 else if (m == 4) || (m == 6) || (m == 9) || (m == 11) then 30 else 31

table_lem : (m : ℕ) → m < 12 → get_elem? days_of_month_table m ≡ some (common_length (suc m))
table_lem zero h = refl
table_lem (suc zero) h = refl
table_lem (suc (suc zero)) h = refl
table_lem (suc (suc (suc zero))) h = refl
table_lem (suc (suc (suc (suc zero)))) h = refl
table_lem (suc (suc (suc (suc (suc zero))))) h = refl
table_lem (suc (suc (suc (suc (suc (suc zero)))))) h = refl
table_lem (suc (suc (suc (suc (suc (suc (suc zero))))))) h = refl
table_lem (suc (suc (suc (suc (suc (suc (suc (suc zero)))))))) h = refl
table_lem (suc (suc (suc (suc (suc (suc (suc (suc (suc zero))))))))) h = refl
table_lem (suc (suc (suc (suc (suc (suc (suc (suc (suc (suc zero)))))))))) h = refl
table_lem (suc (suc (suc (suc (suc (suc (suc (suc (suc (suc (suc zero))))))))))) h = refl
table_lem (suc (suc (suc (suc (suc (suc (suc (suc (suc (suc (suc (suc m)))))))))))) h =
    absurd (omega arith)

table_at : (m : ℕ) → 1 ≤ m → m ≤ 12 → get_elem? days_of_month_table (m - 1) ≡ some (common_length m)
table_at zero lo hi = absurd (omega arith)
table_at (suc m) lo hi = simp unary_clauses (table_lem m (omega arith))

-- A month from 1 to 12 has the length of the rule in words, and the year has its 365 days or 366.
pub days_of_month-month_length :
    (t : DateTime) (y m : ℕ)
    → t.year ≡ pos y
    → t.month ≡ pos m
    → 1 ≤ m
    → m ≤ 12
    → (days_of_month t ≡ some (pos (month_length y m)))
      × (days_of_year t ≡ (if leap y then 366 else 365))
unfolding days_of_month days_of_year isleapyear
days_of_month-month_length t y m ey em lo hi = rw (ey, em) (rw (table_at m lo hi) (ground arith))
