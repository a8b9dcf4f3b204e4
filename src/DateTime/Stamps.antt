-- ===== src/DateTime/Stamps.antt =====
-- Values given by numbers in range: valid ones with every field written in full.
use btool.Common.{ℕ, ◌≤◌, ◌<◌, ◌≡◌, true, arith}
use btool.Common.Int.{pos}
use btool.DateTime.{DateTime, undefine, check_dt_valid}

-- The fields of a value that every field is written in full: a year of four digits from 1900 on, and so on.
pub record Stamp : Type 0 where
  pub y : ℕ
  pub mo : ℕ
  pub d : ℕ
  pub h : ℕ
  pub mi : ℕ
  pub s : ℕ
  pub ms : ℕ
  pub us : ℕ

pub record Fits (t : Stamp) : Type 0 where
  pub year_from : 1900 ≤ t.y
  pub year_to : t.y < 10000
  pub month_from : 1 ≤ t.mo
  pub month_to : t.mo < 100
  pub day_from : 1 ≤ t.d
  pub day_to : t.d < 100
  pub hour_to : t.h < 100
  pub minute_to : t.mi < 100
  pub second_to : t.s < 100
  pub millsecond_to : t.ms < 1000
  pub microsecond_to : t.us < 1000

-- The value with these fields and a style.
abbrev pub stamped : ℕ → Stamp → DateTime
stamped style t = record {
  style = style;
  day_of_week = undefine;
  isvalid = true;
  year = pos t.y;
  month = pos t.mo;
  day = pos t.d;
  hour = pos t.h;
  minute = pos t.mi;
  second = pos t.s;
  millsecond = pos t.ms;
  microsecond = pos t.us;
}

pub stamped-checked : (style : ℕ) (t : Stamp) → Fits t → check_dt_valid (stamped style t) ≡ true
unfolding check_dt_valid
stamped-checked style t f = ground arith
