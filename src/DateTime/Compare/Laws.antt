-- ===== src/DateTime/Compare/Laws.antt =====
-- What the lexicographic order gives the operators: one of three, and chains.
use btool.Common.{◌≡◌, refl, sym, ◌∙◌, Bool, true, not, ◌||◌, ◌&&◌, List, [], ◌∷◌, arith}
use btool.Common.Int.{ℤ}
use btool.DateTime.{DateTime}
use btool.DateTime.Compare.{equals, less, less_equal, greater, greater_equal}
use btool.DateTime.Compare.Order.{key, lex_less, lex_equal, operators-key}

-- Exactly one of three is true.
abbrev pub one_of : Bool → Bool → Bool → Bool
one_of a b c = (a && (not b && not c)) || ((not a && (b && not c)) || (not a && (not b && c)))

lex_trichotomy :
    (xs ys : List ℤ) → one_of (lex_less xs ys) (lex_equal xs ys) (lex_less ys xs) ≡ true
unfolding lex_less lex_equal
lex_trichotomy [] [] = refl
lex_trichotomy [] (y ∷ ys) = refl
lex_trichotomy (x ∷ xs) [] = refl
lex_trichotomy (x ∷ xs) (y ∷ ys) = ground (arith, lex_trichotomy xs ys)

lex_less_trans :
    (xs ys zs : List ℤ) → lex_less xs ys ≡ true → lex_less ys zs ≡ true → lex_less xs zs ≡ true
unfolding lex_less
lex_less_trans [] [] zs p q = q
lex_less_trans xs [] zs p q = absurd (ground arith)
lex_less_trans xs (y ∷ ys) [] p q = absurd (ground arith)
lex_less_trans [] (y ∷ ys) (z ∷ zs) p q = refl
lex_less_trans (x ∷ xs) (y ∷ ys) (z ∷ zs) p q = ground (arith, lex_less_trans xs ys zs)

lex_equal-eq : (xs ys : List ℤ) → lex_equal xs ys ≡ true → xs ≡ ys
unfolding lex_equal
lex_equal-eq [] [] h = refl
lex_equal-eq [] (y ∷ ys) h = absurd (ground arith)
lex_equal-eq (x ∷ xs) [] h = absurd (ground arith)
lex_equal-eq (x ∷ xs) (y ∷ ys) h = ground (arith, lex_equal-eq xs ys)

opposites : (l e g : Bool) → one_of l e g ≡ true → ((e || l) ≡ not g) × ((e || g) ≡ not l)
opposites l e g h = ground arith

one_operator : (t dt : DateTime) → one_of (less t dt) (equals t dt) (greater t dt) ≡ true
one_operator t dt =
    rw ((operators-key t dt).0, (operators-key t dt).1, (operators-key t dt).2)
      (lex_trichotomy (key t) (key dt))

-- Of two values exactly one of `<`, `==` and `>` holds, `<=` is the opposite of `>`, and `>=` that of `<`.
pub operators_trichotomy :
    (t dt : DateTime)
    → (one_of (less t dt) (equals t dt) (greater t dt) ≡ true)
      × (less_equal t dt ≡ not (greater t dt))
      × (greater_equal t dt ≡ not (less t dt))
unfolding less_equal greater_equal
operators_trichotomy t dt =
    let one = one_operator t dt in
    let others = opposites (less t dt) (equals t dt) (greater t dt) one in (one, others.0, others.1)

-- `<` goes on over a chain of values, of whatever styles.
pub less_trans : (t u v : DateTime) → less t u ≡ true → less u v ≡ true → less t v ≡ true
less_trans t u v p q =
    (operators-key t v).1
    ∙ lex_less_trans (key t) (key u) (key v) (sym (operators-key t u).1 ∙ p)
        (sym (operators-key u v).1 ∙ q)
