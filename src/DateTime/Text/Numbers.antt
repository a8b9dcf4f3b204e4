-- ===== src/DateTime/Text/Numbers.antt =====
-- Printed fields, digit by digit, and `atoi` on them.
use btool.Common.{ℕ, ◌+◌, ◌-◌, ◌*◌, ◌/◌, ◌%◌, ◌≤◌, ◌<◌, ◌≡◌, ap, ◌∙◌, List, [], ◌∷◌, arith}
use btool.Common.Int.{pos}
use btool.DateTime.Text.{padded, decimal, atoi, scan, signed}

abbrev pub two_digits : ℕ → List ℕ
two_digits n = (48 + n / 10) ∷ (48 + n % 10) ∷ []

abbrev pub three_digits : ℕ → List ℕ
three_digits n = (48 + n / 100) ∷ (48 + n / 10 % 10) ∷ (48 + n % 10) ∷ []

abbrev pub four_digits : ℕ → List ℕ
four_digits n = (48 + n / 1000) ∷ (48 + n / 100 % 10) ∷ (48 + n / 10 % 10) ∷ (48 + n % 10) ∷ []

pub padded-two : (n : ℕ) → n < 100 → padded 2 (pos n) ≡ two_digits n
unfolding padded decimal
padded-two n h = ground arith

pub padded-three : (n : ℕ) → n < 1000 → padded 3 (pos n) ≡ three_digits n
unfolding padded decimal
padded-three n h = ground arith

pub padded-four : (n : ℕ) → 1000 ≤ n → n < 10000 → padded 4 (pos n) ≡ four_digits n
unfolding padded decimal
padded-four n lo hi = ground arith

minus_code : (d : ℕ) → 48 + d - 48 ≡ d
minus_code d = omega arith

scan_digit : (n d : ℕ) (text : List ℕ) → d < 10 → scan n ((48 + d) ∷ text) ≡ scan (n * 10 + d) text
unfolding scan
scan_digit n d text h = rw (minus_code d) (ground arith)

atoi_digit : (d : ℕ) (text : List ℕ) → d < 10 → atoi ((48 + d) ∷ text) ≡ pos (scan d text)
unfolding atoi signed scan
atoi_digit d text h = ground (arith, scan_digit 0 d text h)

pub atoi-two : (n : ℕ) → n < 100 → atoi (two_digits n) ≡ pos n
unfolding scan
atoi-two n h =
    atoi_digit (n / 10) _ (omega arith)
    ∙ ap pos (scan_digit (n / 10) (n % 10) [] (omega arith) ∙ omega arith)

pub atoi-three : (n : ℕ) → n < 1000 → atoi (three_digits n) ≡ pos n
unfolding scan
atoi-three n h =
    atoi_digit (n / 100) _ (omega arith)
    ∙ ap pos (
        scan_digit (n / 100) (n / 10 % 10) ((48 + n % 10) ∷ []) (omega arith)
        ∙ scan_digit (n / 100 * 10 + n / 10 % 10) (n % 10) [] (omega arith)
        ∙ omega arith)

pub atoi-four : (n : ℕ) → n < 10000 → atoi (four_digits n) ≡ pos n
unfolding scan
atoi-four n h =
    atoi_digit (n / 1000) _ (omega arith)
    ∙ ap pos (
        scan_digit (n / 1000) (n / 100 % 10) ((48 + n / 10 % 10) ∷ (48 + n % 10) ∷ []) (omega arith)
        ∙ scan_digit (n / 1000 * 10 + n / 100 % 10) (n / 10 % 10) ((48 + n % 10) ∷ []) (omega arith)
        ∙ scan_digit ((n / 1000 * 10 + n / 100 % 10) * 10 + n / 10 % 10) (n % 10) [] (omega arith)
        ∙ omega arith)
