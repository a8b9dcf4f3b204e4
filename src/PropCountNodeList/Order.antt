-- ===== src/PropCountNodeList/Order.antt =====
-- Places in a list of nodes: what comes before and after one, and what `push_back` and taking out change.
use btool.Common.{
  ℕ, ◌<◌, ◌≤◌, ◌≡◌, ◌≢◌, refl, sym, ap, List, [], ◌∷◌, ◌++◌, ◌==◌, if◌then◌else◌, arith,
}
use btool.Common.Assoc.{count, remove, count-append, count-remove}
use btool.PropCountNodeList.{head_or, last_or}

-- The node after `x`, and before it where `p` comes before the list; 0 for none.
unfoldable pub after : ℕ → List ℕ → ℕ
after x [] = 0
after x (y ∷ ys) = let rest = after x ys in if x == y then head_or 0 ys else rest

unfoldable pub before : ℕ → ℕ → List ℕ → ℕ
before p x [] = 0
before p x (y ∷ ys) = let rest = before y x ys in if x == y then p else rest

-- Nodes in a list stand there once, and none is null.
pub record Distinct (ids : List ℕ) : Type 0 where
  pub once : (x : ℕ) → count x ids ≤ 1
  pub no_null : count 0 ids ≡ 0

pub tail-Distinct : {x : ℕ} {xs : List ℕ} → Distinct (x ∷ xs) → Distinct xs
unfolding count
tail-Distinct {x = x} {xs = xs} d = record {
  once = λ y. ground (arith, d.once y);
  no_null = ground (arith, d.no_null);
}

pub head_absent : {x : ℕ} {xs : List ℕ} → Distinct (x ∷ xs) → count x xs ≡ 0
unfolding count
head_absent {x = x} {xs = xs} d = ground (arith, d.once x)

pub count-last : (x : ℕ) (xs : List ℕ) → 0 < count (last_or x xs) (x ∷ xs)
unfolding count
count-last x [] = ground arith
count-last x (y ∷ ys) = ground (arith, count-last y ys)

pub after-append :
    (a x : ℕ) (ids : List ℕ)
    → Distinct ids
    → count a ids ≡ 0
    → 0 < count x ids
    → after x (ids ++ a ∷ []) ≡ (if x == last_or 0 ids then a else after x ids)
unfolding after count
after-append a x [] d h m = absurd (omega arith)
after-append a x (y ∷ []) d h m = ground arith
after-append a x (y ∷ z ∷ zs) d h m =
    ground (arith, after-append a x (z ∷ zs) (tail-Distinct d), head_absent d, count-last z zs)

pub before-append :
    (p a x : ℕ) (ids : List ℕ)
    → count a ids ≡ 0
    → before p x (ids ++ a ∷ []) ≡ (if x == a then last_or p ids else before p x ids)
unfolding before count
before-append p a x [] h = ground arith
before-append p a x (y ∷ ys) h = ground (arith, before-append y a x ys)

pub remove_absent : (y : ℕ) (ids : List ℕ) → count y ids ≡ 0 → remove y ids ≡ ids
unfolding remove count
remove_absent y [] h = refl
remove_absent y (x ∷ xs) h = ground (arith, remove_absent y xs)

pub after_absent : (x y : ℕ) (ids : List ℕ) → count y ids ≡ 0 → y ≢ 0 → after x ids ≢ y
unfolding after count
after_absent x y [] h n e = absurd (n (sym e))
after_absent x y (z ∷ []) h n e = absurd (ground (arith, n))
after_absent x y (z ∷ w ∷ ws) h n e = absurd (ground (arith, after_absent x y (w ∷ ws), n))

pub before_absent :
    (p x y : ℕ) (ids : List ℕ) → count y ids ≡ 0 → y ≢ 0 → p ≢ y → before p x ids ≢ y
unfolding before count
before_absent p x y [] h n np e = absurd (n (sym e))
before_absent p x y (z ∷ zs) h n np e = absurd (ground (arith, before_absent z x y zs, np))

pub head-remove :
    (y : ℕ) (ids : List ℕ)
    → Distinct ids
    → y ≢ 0
    → head_or 0 (remove y ids) ≡ (if head_or 0 ids == y then after y ids else head_or 0 ids)
unfolding remove after
head-remove y [] d n = ground (arith, n)
head-remove y (z ∷ zs) d n =
    ground (arith, remove_absent z zs (head_absent d), ap (λ k. remove k zs) {x = z} {y = y})

pub after-remove :
    (x y : ℕ) (ids : List ℕ)
    → Distinct ids
    → y ≢ 0
    → x ≢ y
    → after x (remove y ids) ≡ (if after x ids == y then after y ids else after x ids)
unfolding remove after
after-remove x y [] d n ne = ground (arith, n)
after-remove x y (z ∷ zs) d n ne = ground (
  arith,
  after-remove x y zs (tail-Distinct d) n ne,
  head-remove y zs (tail-Distinct d) n,
  remove_absent y zs,
  after_absent x y zs,
  head_absent d,
  ap (λ k. count k zs) {x = z} {y = y},
)

pub before-remove :
    (p x y : ℕ) (ids : List ℕ)
    → Distinct ids
    → y ≢ 0
    → x ≢ y
    → p ≢ y
    → before p x (remove y ids) ≡ (if before p x ids == y then before p y ids else before p x ids)
unfolding remove before count
before-remove p x y [] d n ne np = ground (arith, n)
before-remove p x y (z ∷ []) d n ne np = ground (arith, n, ne, np)
before-remove p x y (z ∷ w ∷ ws) d n ne np = ground (
  arith,
  before-remove z x y (w ∷ ws) (tail-Distinct d) n ne,
  remove_absent y (w ∷ ws),
  before_absent w x y ws,
  head_absent d,
  ap (λ k. count k (w ∷ ws)) {x = z} {y = y},
  n,
  ne,
  np,
)

last_absent : (w y : ℕ) (ws : List ℕ) → count y (w ∷ ws) ≡ 0 → last_or w ws ≢ y
unfolding count
last_absent w y [] h e = absurd (ground arith)
last_absent w y (v ∷ vs) h e = absurd (ground (arith, last_absent v y vs))

pub last-remove :
    (d y : ℕ) (ids : List ℕ)
    → Distinct ids
    → y ≢ 0
    → d ≢ y
    → last_or d (remove y ids) ≡ (if last_or d ids == y then before d y ids else last_or d ids)
unfolding remove before count
last-remove p y [] d n np = ground (arith, np)
last-remove p y (z ∷ []) d n np = ground (arith, n, np)
last-remove p y (z ∷ w ∷ ws) d n np = ground (
  arith,
  last-remove z y (w ∷ ws) (tail-Distinct d) n,
  remove_absent y (w ∷ ws),
  last_absent w y ws,
  head_absent d,
  ap (λ k. count k (w ∷ ws)) {x = z} {y = y},
  n,
  np,
)

pub after_iff_before :
    (p x y : ℕ) (ids : List ℕ)
    → Distinct ids
    → y ≢ 0
    → count p ids ≡ 0
    → 0 < count x ids
    → 0 < count y ids
    → (after x ids == y) ≡ (before p y ids == x)
unfolding after before count
after_iff_before p x y [] d n h hx hy = absurd (omega arith)
after_iff_before p x y (z ∷ []) d n h hx hy = ground (arith, n)
after_iff_before p x y (z ∷ w ∷ ws) d n h hx hy = ground (
  arith,
  after_iff_before z x y (w ∷ ws) (tail-Distinct d) n (head_absent d),
  after_absent x y (w ∷ ws),
  before_absent w y x ws,
  head_absent d,
  ap (λ k. count k (w ∷ ws)) {x = z} {y = y},
  ap (λ k. count k (w ∷ ws)) {x = z} {y = x},
  ap (λ k. count k (z ∷ w ∷ ws)) {x = p} {y = x},
  n,
)

pub after_end : (a : ℕ) (ids : List ℕ) → count a ids ≡ 0 → after a (ids ++ a ∷ []) ≡ 0
unfolding after count
after_end a [] h = ground arith
after_end a (y ∷ ys) h = ground (arith, after_end a ys)

pub last-append : (d a : ℕ) (ids : List ℕ) → last_or d (ids ++ a ∷ []) ≡ a
last-append d a [] = refl
last-append d a (x ∷ xs) = last-append x a xs

pub append-Distinct :
    (a : ℕ) (ids : List ℕ) → Distinct ids → count a ids ≡ 0 → a ≢ 0 → Distinct (ids ++ a ∷ [])
unfolding count
append-Distinct a ids d h n = record {
  once = λ x.
      ground (arith, count-append x ids (a ∷ []), d.once x, ap (λ k. count k ids) {x = x} {y = a});
  no_null = ground (arith, count-append 0 ids (a ∷ []), d.no_null, n);
}

pub after_not_head : (x z : ℕ) (zs : List ℕ) → Distinct (z ∷ zs) → z ≢ 0 → after x (z ∷ zs) ≢ z
unfolding after count
after_not_head x z [] d n e = absurd (ground (arith, n))
after_not_head x z (w ∷ ws) d n e =
    absurd (ground (arith, after_absent x z (w ∷ ws), head_absent d, n))

pub remove-Distinct : (y : ℕ) (ids : List ℕ) → Distinct ids → Distinct (remove y ids)
remove-Distinct y ids d = record {
  once = λ x. ground (arith, count-remove y x ids, d.once x);
  no_null = ground (arith, count-remove y 0 ids, d.no_null);
}

pub remove_head : (y z : ℕ) (zs : List ℕ) → Distinct (z ∷ zs) → z ≡ y → remove y (z ∷ zs) ≡ zs
unfolding remove count
remove_head y z zs d e =
    ground (arith, e, ap (λ k. remove k zs) e, remove_absent z zs (head_absent d))

pub head-same : (y z : ℕ) (zs : List ℕ) → y ≡ z → after y (z ∷ zs) ≡ head_or 0 zs
unfolding after
head-same y z zs e = ground (arith, e)
