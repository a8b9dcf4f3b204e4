-- ===== src/DateTime/Text/RoundTrip.antt =====
-- A text that `to_local_string` or `to_kline_string` wrote, read by `FromString`.
use btool.Common.{ℕ, ◌≡◌, refl, ap, ◌∙◌, List, [], ◌∷◌, ◌++◌, some, arith}
use btool.DateTime.{local, kline, dts_all, checked, check_dt_valid}
use btool.DateTime.Stamps.{Stamp, Fits, stamped, stamped-checked}
use btool.DateTime.Compare.{year, month, day, hour, minute, second, millsecond, microsecond}
use btool.DateTime.Text.{to_local_string, to_kline_string, read_field, after, from_string}
use btool.DateTime.Text.Numbers.{
  two_digits, three_digits, four_digits, padded-two, padded-three, padded-four, atoi-two,
  atoi-three, atoi-four,
}

abbrev local_text : Stamp → List ℕ
local_text t =
    four_digits t.y
    ++ b'-' ∷ two_digits t.mo
    ++ b'-' ∷ two_digits t.d
    ++ b' ' ∷ two_digits t.h
    ++ b':' ∷ two_digits t.mi
    ++ b':' ∷ two_digits t.s
    ++ b'.' ∷ three_digits t.ms
    ++ b'.' ∷ three_digits t.us

abbrev kline_text : Stamp → List ℕ
kline_text t =
    four_digits t.y
    ++ two_digits t.mo
    ++ two_digits t.d
    ++ b' ' ∷ two_digits t.h
    ++ two_digits t.mi
    ++ two_digits t.s
    ++ b' ' ∷ three_digits t.ms
    ++ b' ' ∷ three_digits t.us

module _ (t : Stamp) (f : Fits t) where
  local_text_lem : to_local_string dts_all (stamped dts_all t) ≡ local_text t
  unfolding to_local_string year month day hour minute second millsecond microsecond
  local_text_lem =
      rw
        (
          padded-four t.y (omega arith) f.year_to,
          padded-two t.mo f.month_to,
          padded-two t.d f.day_to,
          padded-two t.h f.hour_to,
          padded-two t.mi f.minute_to,
          padded-two t.s f.second_to,
          padded-three t.ms f.millsecond_to,
          padded-three t.us f.microsecond_to,
        )
        refl

  kline_text_lem : to_kline_string dts_all (stamped dts_all t) ≡ kline_text t
  unfolding to_kline_string year month day hour minute second millsecond microsecond
  kline_text_lem =
      rw
        (
          padded-four t.y (omega arith) f.year_to,
          padded-two t.mo f.month_to,
          padded-two t.d f.day_to,
          padded-two t.h f.hour_to,
          padded-two t.mi f.minute_to,
          padded-two t.s f.second_to,
          padded-three t.ms f.millsecond_to,
          padded-three t.us f.microsecond_to,
        )
        refl

  read_local_text : from_string (local_text t ++ 0 ∷ []) dts_all local ≡ some (stamped dts_all t)
  unfolding from_string read_field after checked check_dt_valid
  read_local_text =
      rw
        (
          atoi-four t.y f.year_to,
          atoi-two t.mo f.month_to,
          atoi-two t.d f.day_to,
          atoi-two t.h f.hour_to,
          atoi-two t.mi f.minute_to,
          atoi-two t.s f.second_to,
          atoi-three t.ms f.millsecond_to,
          atoi-three t.us f.microsecond_to,
        )
        (ap (λ b. some (record (stamped dts_all t) { isvalid = b })) (stamped-checked dts_all t f))

  read_kline_text : from_string (kline_text t ++ 0 ∷ []) dts_all kline ≡ some (stamped dts_all t)
  unfolding from_string read_field after checked check_dt_valid
  read_kline_text =
      rw
        (
          atoi-four t.y f.year_to,
          atoi-two t.mo f.month_to,
          atoi-two t.d f.day_to,
          atoi-two t.h f.hour_to,
          atoi-two t.mi f.minute_to,
          atoi-two t.s f.second_to,
          atoi-three t.ms f.millsecond_to,
          atoi-three t.us f.microsecond_to,
        )
        (ap (λ b. some (record (stamped dts_all t) { isvalid = b })) (stamped-checked dts_all t f))

-- `FromString` reads back, in either kind of text, what the string functions wrote of a valid value with all
-- its fields: a year of four digits, the other fields of at most two digits or three.
pub from_string-to_string :
    (t : Stamp)
    → Fits t
    → (from_string (to_local_string dts_all (stamped dts_all t) ++ 0 ∷ []) dts_all local
        ≡ some (stamped dts_all t))
      × (from_string (to_kline_string dts_all (stamped dts_all t) ++ 0 ∷ []) dts_all kline
          ≡ some (stamped dts_all t))
from_string-to_string t f = (
  ap (λ text. from_string (text ++ 0 ∷ []) dts_all local) (local_text_lem t f)
      ∙ read_local_text t f,
  ap (λ text. from_string (text ++ 0 ∷ []) dts_all kline) (kline_text_lem t f)
      ∙ read_kline_text t f,
)
