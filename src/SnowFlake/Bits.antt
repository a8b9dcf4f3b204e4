-- ===== src/SnowFlake/Bits.antt =====
-- `|` of numbers whose bits do not meet is their sum.
use btool.Common.{ℕ, zero, suc, ◌+◌, ◌*◌, ◌/◌, ◌%◌, ◌<◌, ◌≡◌, refl, ap, ◌∙◌, arith, max}
use btool.SnowFlake.{or_bits}

-- `a` shifted left by so many bits.
abbrev pub shift_left : ℕ → ℕ → ℕ
shift_left zero a = a
shift_left (suc k) a = 2 * shift_left k a

or_zero : (bits a : ℕ) → a < shift_left bits 1 → or_bits bits a 0 ≡ a
unfolding or_bits
or_zero zero a h = omega arith
or_zero (suc bits) a h =
    let rest = or_zero bits (a / 2) (omega arith) in
    ap (λ r. max (a % 2) 0 + 2 * r) rest ∙ ground arith

or_next :
    (bits a b : ℕ) → or_bits bits a (b / 2) ≡ a + b / 2 → or_bits (suc bits) (2 * a) b ≡ 2 * a + b
unfolding or_bits
or_next bits a b e =
    ap (λ h. max (2 * a % 2) (b % 2) + 2 * or_bits bits h (b / 2)) {x = 2 * a / 2} {y = a}
      (omega arith)
    ∙ ap (λ r. max (2 * a % 2) (b % 2) + 2 * r) e
    ∙ ground arith

or_none : (a b : ℕ) → or_bits 0 a b ≡ 0
unfolding or_bits
or_none a b = refl

-- The low number has `k` bits, the other none of those.
pub or_apart :
    (bits k a b : ℕ)
    → b < shift_left k 1
    → shift_left k a + b < shift_left bits 1
    → or_bits bits (shift_left k a) b ≡ shift_left k a + b
or_apart bits zero a zero h r = or_zero bits a (omega arith) ∙ omega arith
or_apart bits zero a (suc b) h r = absurd (omega arith)
or_apart zero (suc k) a b h r = or_none (shift_left (suc k) a) b ∙ omega arith
or_apart (suc bits) (suc k) a b h r =
    or_next bits (shift_left k a) b (or_apart bits k a (b / 2) (omega arith) (omega arith))
