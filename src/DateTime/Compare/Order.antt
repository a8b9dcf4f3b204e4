-- ===== src/DateTime/Compare/Order.antt =====
-- The operators against one order: lexicographic, on the style and then on the fields that the style has.
use btool.Common.{
  ℕ, ◌≡◌, refl, sym, ap, ◌∙◌, Bool, true, false, not, ◌||◌, ◌&&◌, List, [], ◌∷◌, ltb, ◌==◌,
  if◌then◌else◌, arith,
}
use native.Mathlib.Decide.{ℕ_discrete}
use btool.Common.Int.{ℤ, pos, ltb_ℤ, eqb_ℤ}
use btool.DateTime.{
  DateTime, has, dts_year, dts_month, dts_day, dts_hour, dts_min, dts_sec, dts_msec, dts_usec,
}
use btool.DateTime.Compare.{
  year, month, day, hour, minute, second, millsecond, microsecond, same_field, less_field,
  greater_field, equals_fields, less_fields, greater_fields, equals, less, greater,
}

-- `z` in front of the key where the style has its bit.
abbrev pub keep_if : Bool → ℤ → List ℤ → List ℤ
keep_if bit z key = if bit then z ∷ key else key

abbrev pub fields_key : ℕ → DateTime → List ℤ
fields_key style t = keep_if (has style dts_year) (year t) (
    keep_if (has style dts_month) (month t) (
      keep_if (has style dts_day) (day t) (
        keep_if (has style dts_hour) (hour t) (
          keep_if (has style dts_min) (minute t) (
            keep_if (has style dts_sec) (second t) (
              keep_if (has style dts_msec) (millsecond t)
                (keep_if (has style dts_usec) (microsecond t) [])))))))

abbrev pub key : DateTime → List ℤ
key t = pos t.style ∷ fields_key t.style t

-- Lexicographic order on lists, a list before those that go on after it.
unfoldable pub lex_less : List ℤ → List ℤ → Bool
lex_less xs [] = false
lex_less [] (y ∷ ys) = true
lex_less (x ∷ xs) (y ∷ ys) = let rest = lex_less xs ys in ltb_ℤ x y || (eqb_ℤ x y && rest)

unfoldable pub lex_equal : List ℤ → List ℤ → Bool
lex_equal [] [] = true
lex_equal [] (y ∷ ys) = false
lex_equal (x ∷ xs) [] = false
lex_equal (x ∷ xs) (y ∷ ys) = let rest = lex_equal xs ys in eqb_ℤ x y && rest

less_field-lex :
    (bit : Bool) (a b : ℤ) (xs ys : List ℤ) {rest : Bool}
    → rest ≡ lex_less xs ys
    → less_field bit a b rest ≡ lex_less (keep_if bit a xs) (keep_if bit b ys)
unfolding lex_less less_field
less_field-lex bit a b xs ys h = ground arith

greater_field-lex :
    (bit : Bool) (a b : ℤ) (xs ys : List ℤ) {rest : Bool}
    → rest ≡ lex_less ys xs
    → greater_field bit a b rest ≡ lex_less (keep_if bit b ys) (keep_if bit a xs)
unfolding lex_less greater_field
greater_field-lex bit a b xs ys h = ground arith

same_field-lex :
    (bit : Bool) (a b : ℤ) (xs ys : List ℤ) {rest : Bool}
    → rest ≡ lex_equal xs ys
    → same_field bit b a rest ≡ lex_equal (keep_if bit a xs) (keep_if bit b ys)
unfolding lex_equal same_field
same_field-lex bit a b xs ys h = ground arith

less_fields-lex :
    (style : ℕ) (t dt : DateTime)
    → less_fields style t dt ≡ lex_less (fields_key style t) (fields_key style dt)
unfolding less_fields lex_less
less_fields-lex style t dt = less_field-lex (has style dts_year) (year t) (year dt) _ _ (
    less_field-lex (has style dts_month) (month t) (month dt) _ _ (
      less_field-lex (has style dts_day) (day t) (day dt) _ _ (
        less_field-lex (has style dts_hour) (hour t) (hour dt) _ _ (
          less_field-lex (has style dts_min) (minute t) (minute dt) _ _ (
            less_field-lex (has style dts_sec) (second t) (second dt) _ _ (
              less_field-lex (has style dts_msec) (millsecond t) (millsecond dt) _ _ (
                less_field-lex (has style dts_usec) (microsecond t) (microsecond dt) _ _ refl)))))))

greater_fields-lex :
    (style : ℕ) (t dt : DateTime)
    → greater_fields style t dt ≡ lex_less (fields_key style dt) (fields_key style t)
unfolding greater_fields lex_less
greater_fields-lex style t dt = greater_field-lex (has style dts_year) (year t) (year dt) _ _ (
    greater_field-lex (has style dts_month) (month t) (month dt) _ _ (
      greater_field-lex (has style dts_day) (day t) (day dt) _ _ (
        greater_field-lex (has style dts_hour) (hour t) (hour dt) _ _ (
          greater_field-lex (has style dts_min) (minute t) (minute dt) _ _ (
            greater_field-lex (has style dts_sec) (second t) (second dt) _ _ (
              greater_field-lex (has style dts_msec) (millsecond t) (millsecond dt) _ _ (
                greater_field-lex (has style dts_usec) (microsecond t) (microsecond dt) _ _
                  refl)))))))

equals_fields-lex :
    (style : ℕ) (t dt : DateTime)
    → equals_fields style t dt ≡ lex_equal (fields_key style t) (fields_key style dt)
unfolding equals_fields lex_equal
equals_fields-lex style t dt = same_field-lex (has style dts_year) (year t) (year dt) _ _ (
    same_field-lex (has style dts_month) (month t) (month dt) _ _ (
      same_field-lex (has style dts_day) (day t) (day dt) _ _ (
        same_field-lex (has style dts_hour) (hour t) (hour dt) _ _ (
          same_field-lex (has style dts_min) (minute t) (minute dt) _ _ (
            same_field-lex (has style dts_sec) (second t) (second dt) _ _ (
              same_field-lex (has style dts_msec) (millsecond t) (millsecond dt) _ _ (
                same_field-lex (has style dts_usec) (microsecond t) (microsecond dt) _ _ refl)))))))

lex_less-style :
    (a b : ℕ) (xs ys : List ℤ)
    → lex_less (pos a ∷ xs) (pos b ∷ ys) ≡ (if not (a == b) then ltb a b else lex_less xs ys)
unfolding lex_less
lex_less-style a b xs ys = ground arith

lex_equal-style :
    (a b : ℕ) (xs ys : List ℤ)
    → lex_equal (pos a ∷ xs) (pos b ∷ ys) ≡ (if not (a == b) then false else lex_equal xs ys)
unfolding lex_equal
lex_equal-style a b xs ys = ground arith

-- Under the test that the styles are the same, the one stands for the other.
same_style :
    {A : Type 0} (a b : ℕ) (f : ℕ → A) (other : A)
    → (if not (a == b) then other else f a) ≡ (if not (a == b) then other else f b)
same_style a b f other = elim (ℕ_discrete a b) [
  | Dec.yes e ↦ ap (λ s. if not (a == b) then other else f s) e
  | Dec.no ne ↦ ground arith
]

test_comm :
    (a b : ℕ) (x y : Bool) → (if not (a == b) then x else y) ≡ (if not (b == a) then x else y)
test_comm a b x y = ground arith

-- Each operator is a comparison of keys: the style, then the fields that the style has. `<` and `>` are the
-- lexicographic order either way round, and `==` is equality field by field.
pub operators-key :
    (t dt : DateTime)
    → (equals t dt ≡ lex_equal (key t) (key dt))
      × (less t dt ≡ lex_less (key t) (key dt))
      × (greater t dt ≡ lex_less (key dt) (key t))
unfolding equals less greater
operators-key t dt = (
  ap (λ b. if not (t.style == dt.style) then false else b) (equals_fields-lex t.style t dt)
      ∙ same_style t.style dt.style (λ s. lex_equal (fields_key t.style t) (fields_key s dt)) false
      ∙ sym (lex_equal-style t.style dt.style (fields_key t.style t) (fields_key dt.style dt)),
  ap (λ b. if not (t.style == dt.style) then ltb t.style dt.style else b)
        (less_fields-lex t.style t dt)
      ∙ same_style t.style dt.style (λ s. lex_less (fields_key t.style t) (fields_key s dt))
          (ltb t.style dt.style)
      ∙ sym (lex_less-style t.style dt.style (fields_key t.style t) (fields_key dt.style dt)),
  ap (λ b. if not (t.style == dt.style) then ltb dt.style t.style else b)
        (greater_fields-lex t.style t dt)
      ∙ same_style t.style dt.style (λ s. lex_less (fields_key s dt) (fields_key t.style t))
          (ltb dt.style t.style)
      ∙ test_comm t.style dt.style (ltb dt.style t.style) _
      ∙ sym (lex_less-style dt.style t.style (fields_key dt.style dt) (fields_key t.style t)),
)
