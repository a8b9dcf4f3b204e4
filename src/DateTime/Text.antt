-- ===== src/DateTime/Text.antt =====
-- The text of a time: `to_local_string`, `to_kline_string` and `FromString` of datetime_convert.hpp. A text is
-- the list of its bytes; `snprintf` and `atoi` are the functions of the C library.
pub mod RoundTrip
pub mod Numbers
use btool.Common.{
  ℕ, zero, suc, ◌+◌, ◌-◌, ◌*◌, ◌/◌, ◌%◌, ◌≡◌, refl, Bool, true, false, not, ◌&&◌, ◌||◌, List, [],
  ◌∷◌, ◌++◌, Option, none, some, ◌>>=◌, ltb, leb, ◌==◌, if◌then◌else◌, length, take, drop,
  replicate,
}
use btool.Common.Int.{ℤ, pos, negsuc, sub_ℕ}
use btool.DateTime.{
  DateTime, DateTimeKind, local, kline, begin, checked, has, any_ymd, any_hms, dts_year, dts_month,
  dts_day, dts_hour, dts_min, dts_sec, dts_msec, dts_usec,
}
use btool.DateTime.Compare.{year, month, day, hour, minute, second, millsecond, microsecond}

-- The decimal digits of a number with at most so many; an `int` has at most 10.
unfoldable pub decimal : ℕ → ℕ → List ℕ
decimal zero n = []
decimal (suc places) n =
    let front = decimal places (n / 10) in
    if ltb n 10 then (48 + n) ∷ [] else front ++ (48 + n % 10) ∷ []

abbrev pub zeros : ℕ → List ℕ → List ℕ
zeros width text = replicate (width - length text) b'0' ++ text

-- `%0<width>d`, where a sign counts in the width.
unfoldable pub padded : ℕ → ℤ → List ℕ
unfolding decimal
padded width (pos n) = zeros width (decimal 10 n)
padded width (negsuc n) = b'-' ∷ zeros (width - 1) (decimal 10 (suc n))

abbrev pub if_text : Bool → List ℕ → List ℕ
if_text b text = if b then text else []

-- `snprintf` into a buffer of `size` bytes.
abbrev pub print : ℕ → List ℕ → List ℕ
print size text = take (size - 1) text

unfoldable pub to_local_string : ℕ → DateTime → List ℕ
unfolding padded year month day hour minute second millsecond microsecond
to_local_string style t =
    if_text (any_ymd style)
      (print 11 (padded 4 (year t) ++ b'-' ∷ padded 2 (month t) ++ b'-' ∷ padded 2 (day t)))
    ++ if_text (any_ymd style && any_hms style) (b' ' ∷ [])
    ++ if_text (any_hms style)
        (print 9 (padded 2 (hour t) ++ b':' ∷ padded 2 (minute t) ++ b':' ∷ padded 2 (second t)))
    ++ if_text (any_hms style && has style dts_msec) (b'.' ∷ [])
    ++ if_text (has style dts_msec) (print 4 (padded 3 (millsecond t)))
    ++ if_text (has style dts_msec && has style dts_usec) (b'.' ∷ [])
    ++ if_text (has style dts_usec) (print 4 (padded 3 (microsecond t)))

unfoldable pub to_kline_string : ℕ → DateTime → List ℕ
unfolding padded year month day hour minute second millsecond microsecond
to_kline_string style t =
    if_text (any_ymd style) (print 9 (padded 4 (year t) ++ padded 2 (month t) ++ padded 2 (day t)))
    ++ if_text (any_ymd style && any_hms style) (b' ' ∷ [])
    ++ if_text (any_hms style)
        (print 7 (padded 2 (hour t) ++ padded 2 (minute t) ++ padded 2 (second t)))
    ++ if_text (any_hms style && has style dts_msec) (b' ' ∷ [])
    ++ if_text (has style dts_msec) (print 4 (padded 3 (millsecond t)))
    ++ if_text (has style dts_msec && has style dts_usec) (b' ' ∷ [])
    ++ if_text (has style dts_usec) (print 4 (padded 3 (microsecond t)))

-- `atoi`: blanks, a sign, and the digits up to the first other byte. At most four bytes are read here, so
-- that no number is too large.
unfoldable pub scan : ℕ → List ℕ → ℕ
scan n [] = n
scan n (c ∷ text) =
    let rest = scan (n * 10 + (c - b'0')) text in if leb b'0' c && leb c b'9' then rest else n

unfoldable pub signed : List ℕ → ℤ
unfolding scan
signed [] = pos 0
signed (c ∷ text) =
    if c == b'-' then sub_ℕ 0 (scan 0 text) else pos (scan 0 (if c == b'+' then text else c ∷ text))

unfoldable pub atoi : List ℕ → ℤ
unfolding signed
atoi [] = signed []
atoi (c ∷ text) =
    let rest = atoi text in if (c == b' ') || (leb 9 c && leb c 13) then rest else signed (c ∷ text)

-- One field: `memcpy` of so many bytes from an offset into a cleared buffer, and `atoi`; `none` for a read past
-- the end of the text, its closing zero included.
unfoldable pub read_field : Bool → List ℕ → ℕ → ℕ → ℤ → Option ℤ
unfolding atoi
read_field bit text offset width old =
    if not bit
    then some old
    else if leb (offset + width) (length text)
    then some (atoi (take width (drop offset text)))
    else none

-- The offset after a field, where the two kinds of text differ in what separates the fields.
unfoldable pub after : Bool → DateTimeKind → ℕ → ℕ → ℕ → ℕ
after bit local to_local to_kline offset = if bit then offset + to_local else offset
after bit kline to_local to_kline offset = if bit then offset + to_kline else offset

unfoldable pub from_string : List ℕ → ℕ → DateTimeKind → Option DateTime
unfolding read_field after checked
from_string text style kind =
    let month_at = after (has style dts_year) kind 5 4 0 in
    let day_at = after (has style dts_month) kind 3 2 month_at in
    let hour_at = after (has style dts_day) kind 3 3 day_at in
    let min_at = after (has style dts_hour) kind 3 2 hour_at in
    let sec_at = after (has style dts_min) kind 3 2 min_at in
    let msec_at = after (has style dts_sec) kind 3 3 sec_at in
    let usec_at = after (has style dts_msec) kind 4 4 msec_at in
    do
      y ← read_field (has style dts_year) text 0 4 (pos 0)
      mo ← read_field (has style dts_month) text month_at 2 (pos 1)
      d ← read_field (has style dts_day) text day_at 2 (pos 1)
      h ← read_field (has style dts_hour) text hour_at 2 (pos 0)
      mi ← read_field (has style dts_min) text min_at 2 (pos 0)
      s ← read_field (has style dts_sec) text sec_at 2 (pos 0)
      ms ← read_field (has style dts_msec) text msec_at 3 (pos 0)
      us ← read_field (has style dts_usec) text usec_at 3 (pos 0)
      some (
          checked (record (begin style) {
            year = y;
            month = mo;
            day = d;
            hour = h;
            minute = mi;
            second = s;
            millsecond = ms;
            microsecond = us;
          }))
