-- ===== src/DateTime/Compare.antt =====
-- The comparison operators of `DateTimeConvert`. Each reads the fields by their accessors, which give -1 for
-- an invalid value.
pub mod Order
pub mod Laws
use btool.Common.{ℕ, ◌+◌, ◌-◌, Bool, true, false, not, ◌||◌, ltb, ◌==◌, if◌then◌else◌}
use btool.Common.Int.{ℤ, pos, negsuc, ltb_ℤ, eqb_ℤ}
use btool.DateTime.{
  DateTime, has, dts_year, dts_month, dts_day, dts_hour, dts_min, dts_sec, dts_msec, dts_usec,
}

-- `year()`, `month()`, …: the field of a valid value.
abbrev pub if_valid : DateTime → ℤ → ℤ
if_valid t field = if t.isvalid then field else negsuc 0

unfoldable pub year : DateTime → ℤ
year t = if_valid t t.year

unfoldable pub month : DateTime → ℤ
month t = if_valid t t.month

unfoldable pub day : DateTime → ℤ
day t = if_valid t t.day

unfoldable pub hour : DateTime → ℤ
hour t = if_valid t t.hour

unfoldable pub minute : DateTime → ℤ
minute t = if_valid t t.minute

unfoldable pub second : DateTime → ℤ
second t = if_valid t t.second

unfoldable pub millsecond : DateTime → ℤ
millsecond t = if_valid t t.millsecond

unfoldable pub microsecond : DateTime → ℤ
microsecond t = if_valid t t.microsecond

-- One field of `operator==`, with the fields after it: `a` is of the other operand.
unfoldable pub same_field : Bool → ℤ → ℤ → Bool → Bool
same_field bit a b rest = if bit then (if not (eqb_ℤ a b) then false else rest) else rest

-- One field of `operator<`, where `a` is of this operand and `b` of the other.
unfoldable pub less_field : Bool → ℤ → ℤ → Bool → Bool
less_field bit a b rest =
    if bit then (if ltb_ℤ b a then false else if ltb_ℤ a b then true else rest) else rest

-- One field of `operator>`.
unfoldable pub greater_field : Bool → ℤ → ℤ → Bool → Bool
greater_field bit a b rest =
    if bit then (if ltb_ℤ a b then false else if ltb_ℤ b a then true else rest) else rest

-- The fields that the style has, in order, once the styles are the same.
unfoldable pub equals_fields : ℕ → DateTime → DateTime → Bool
unfolding year month day hour minute second millsecond microsecond same_field
equals_fields style t dt = same_field (has style dts_year) (year dt) (year t) (
    same_field (has style dts_month) (month dt) (month t) (
      same_field (has style dts_day) (day dt) (day t) (
        same_field (has style dts_hour) (hour dt) (hour t) (
          same_field (has style dts_min) (minute dt) (minute t) (
            same_field (has style dts_sec) (second dt) (second t) (
              same_field (has style dts_msec) (millsecond dt) (millsecond t)
                (same_field (has style dts_usec) (microsecond dt) (microsecond t) true)))))))

unfoldable pub equals : DateTime → DateTime → Bool
unfolding equals_fields
equals t dt = if not (t.style == dt.style) then false else equals_fields t.style t dt

-- The fields that the style has, in order, once the styles are the same.
unfoldable pub less_fields : ℕ → DateTime → DateTime → Bool
unfolding year month day hour minute second millsecond microsecond less_field
less_fields style t dt = less_field (has style dts_year) (year t) (year dt) (
    less_field (has style dts_month) (month t) (month dt) (
      less_field (has style dts_day) (day t) (day dt) (
        less_field (has style dts_hour) (hour t) (hour dt) (
          less_field (has style dts_min) (minute t) (minute dt) (
            less_field (has style dts_sec) (second t) (second dt) (
              less_field (has style dts_msec) (millsecond t) (millsecond dt)
                (less_field (has style dts_usec) (microsecond t) (microsecond dt) false)))))))

unfoldable pub less : DateTime → DateTime → Bool
unfolding less_fields
less t dt = if not (t.style == dt.style) then ltb t.style dt.style else less_fields t.style t dt

unfoldable pub less_equal : DateTime → DateTime → Bool
unfolding equals less
less_equal t dt = equals t dt || less t dt

-- The fields that the style has, in order, once the styles are the same.
unfoldable pub greater_fields : ℕ → DateTime → DateTime → Bool
unfolding year month day hour minute second millsecond microsecond greater_field
greater_fields style t dt = greater_field (has style dts_year) (year t) (year dt) (
    greater_field (has style dts_month) (month t) (month dt) (
      greater_field (has style dts_day) (day t) (day dt) (
        greater_field (has style dts_hour) (hour t) (hour dt) (
          greater_field (has style dts_min) (minute t) (minute dt) (
            greater_field (has style dts_sec) (second t) (second dt) (
              greater_field (has style dts_msec) (millsecond t) (millsecond dt)
                (greater_field (has style dts_usec) (microsecond t) (microsecond dt) false)))))))

unfoldable pub greater : DateTime → DateTime → Bool
unfolding greater_fields
greater t dt =
    if not (t.style == dt.style) then ltb dt.style t.style else greater_fields t.style t dt

unfoldable pub greater_equal : DateTime → DateTime → Bool
unfolding equals greater
greater_equal t dt = equals t dt || greater t dt
