-- ===== src/PropCountNodeList/Refine/Runs.antt =====
-- The runs of nodes under the changes that the list makes to its nodes.
use btool.Common.{
  ℕ, ◌-◌, ◌<◌, ◌≡◌, ◌≢◌, refl, sym, ap, ◌∙◌, subst, Bool, true, false, List, [], ◌∷◌, none, some,
  ltb, if◌then◌else◌, arith, Bool-cases, inl, inr,
}
use btool.Common.Assoc.{count, remove}
use btool.PropCountNodeList.{Node, write}
use btool.PropCountNodeList.Order.{Distinct, remove_head, tail-Distinct, head_absent}
use btool.PropCountNodeList.Refine.{Run, run_of, runs_of, pop_run, behind}

abbrev pub run : ℕ → ℕ → Bool → Run
run p n c = record { prop = p; count = n; can_pop = c }

pub run_cong : {p p' n n' : ℕ} {c c' : Bool} → p ≡ p' → n ≡ n' → c ≡ c' → run p n c ≡ run p' n' c'
run_cong e f g = rw (e, f, g) refl

pub runs_cong :
    (nodes nodes' : ℕ → Node) (ids : List ℕ)
    → ((x : ℕ) → 0 < count x ids → run_of nodes' x ≡ run_of nodes x)
    → runs_of nodes' ids ≡ runs_of nodes ids
unfolding runs_of count
runs_cong nodes nodes' [] h = refl
runs_cong nodes nodes' (y ∷ ys) h =
    rw (h y (ground arith), runs_cong nodes nodes' ys (λ x m. h x (ground (arith, m)))) refl

-- The first node that may be popped, 0 for none.
unfoldable pub first_can : (ℕ → Node) → List ℕ → ℕ
first_can nodes [] = 0
first_can nodes (x ∷ xs) = let rest = first_can nodes xs in if (nodes x).can_pop then x else rest

pub count-first_can :
    (nodes : ℕ → Node) (ids : List ℕ)
    → first_can nodes ids ≢ 0
    → 0 < count (first_can nodes ids) ids
unfolding first_can count
count-first_can nodes [] n = absurd (n refl)
count-first_can nodes (x ∷ xs) n = ground (arith, count-first_can nodes xs, n)

pub first_can-pops :
    (nodes : ℕ → Node) (ids : List ℕ)
    → first_can nodes ids ≢ 0
    → (nodes (first_can nodes ids)).can_pop ≡ true
unfolding first_can
first_can-pops nodes [] n = absurd (n refl)
first_can-pops nodes (x ∷ xs) n = elim (Bool-cases (nodes x).can_pop) [
  | inl c ↦ rw (c) c
  | inr c ↦ rw (c) (first_can-pops nodes xs (ground (arith, n, c)))
]

abbrev less_run : Run → List Run → List Run
less_run r rs =
    if ltb 0 (r.count - 1) then record r { count = r.count - 1; can_pop = false } ∷ rs else rs

pop_run-here :
    (r : Run) (rs : List Run) → r.can_pop ≡ true → pop_run (r ∷ rs) ≡ some (r.prop, less_run r rs)
unfolding pop_run
pop_run-here r rs c = ap (λ b. if b then some (r.prop, less_run r rs) else behind r (pop_run rs)) c

pop_run-behind :
    (r : Run) (rs : List Run) → r.can_pop ≡ false → pop_run (r ∷ rs) ≡ behind r (pop_run rs)
unfolding pop_run
pop_run-behind r rs c =
    ap (λ b. if b then some (r.prop, less_run r rs) else behind r (pop_run rs)) c

module _ (y : ℕ) (nodes : ℕ → Node) where
  abbrev pub once_less : Node
  once_less = record (nodes y) { count = (nodes y).count - 1; can_pop = false }

  pub runs-write :
      (ids : List ℕ)
      → count y ids ≡ 0
      → (node : Node) → runs_of (write y node nodes) ids ≡ runs_of nodes ids
  runs-write ids h node =
      runs_cong nodes (write y node nodes) ids
        (λ x m. ap (λ k. run k.prop k.count k.can_pop) (other x m))
    where
      other : (x : ℕ) → 0 < count x ids → write y node nodes x ≡ nodes x
      other x m = ground (arith, m, h, ap (λ k. count k ids) {x = x} {y = y})

  abbrev pub run_left : List ℕ → List Run
  run_left ids =
      if ltb 0 ((nodes y).count - 1)
      then runs_of (write y once_less nodes) ids
      else runs_of nodes (remove y ids)

  pop_head :
      (ys : List ℕ)
      → Distinct (y ∷ ys)
      → (if ltb 0 ((nodes y).count - 1)
          then run (nodes y).prop ((nodes y).count - 1) false ∷ runs_of nodes ys
          else runs_of nodes ys)
        ≡ run_left (y ∷ ys)
  unfolding runs_of
  pop_head ys d = ground (
    arith,
    ap (λ rs. run (nodes y).prop ((nodes y).count - 1) false ∷ rs)
        (runs-write ys (head_absent d) once_less),
    ap (runs_of nodes) (remove_head y y ys d refl),
    here,
  )
    where
      here : run_of (write y once_less nodes) y ≡ run (nodes y).prop ((nodes y).count - 1) false
      here = ground arith

  pop_behind : (x : ℕ) (xs : List ℕ) → x ≢ y → run_of nodes x ∷ run_left xs ≡ run_left (x ∷ xs)
  unfolding runs_of remove
  pop_behind x xs n = ground (arith, n)

  pop_at :
      (ys : List ℕ)
      → Distinct (y ∷ ys)
      → (nodes y).can_pop ≡ true
      → pop_run (runs_of nodes (y ∷ ys)) ≡ some ((nodes y).prop, run_left (y ∷ ys))
  unfolding runs_of
  pop_at ys d c =
      pop_run-here (run_of nodes y) (runs_of nodes ys) c
      ∙ (ap (λ rs. some ((nodes y).prop, rs)) (pop_head ys d))

  -- `pop_run` on the runs of the nodes, where `y` is the first that may be popped.
  pub pop_run-runs_of :
      (ids : List ℕ)
      → Distinct ids
      → y ≢ 0
      → first_can nodes ids ≡ y
      → pop_run (runs_of nodes ids) ≡ some ((nodes y).prop, run_left ids)
  unfolding runs_of first_can
  pop_run-runs_of [] d n e = absurd (n (sym e))
  pop_run-runs_of (x ∷ xs) d n e = elim (Bool-cases (nodes x).can_pop) [
    | inl c ↦
        subst
          (λ k.
            Distinct (k ∷ xs)
            → (nodes k).can_pop ≡ true
            → pop_run (runs_of nodes (k ∷ xs)) ≡ some ((nodes y).prop, run_left (k ∷ xs)))
          (ground (arith, e, c)) (pop_at xs) d c
    | inr c ↦
        pop_run-behind (run_of nodes x) (runs_of nodes xs) c
        ∙ ap (behind (run_of nodes x))
            (pop_run-runs_of xs (tail-Distinct d) n (ground (arith, e, c)))
        ∙ (ap (λ rs. some ((nodes y).prop, rs)) (pop_behind x xs (apart (ground (arith, e, c)))))
  ]
    where
      apart : first_can nodes xs ≡ y → x ≢ y
      apart f i =
          ground
            (arith, head_absent d, ap (λ k. count k xs) (f ∙ sym i), count-first_can nodes xs, f, n)

pub pop_run_stuck :
    (nodes : ℕ → Node) (ids : List ℕ)
    → count 0 ids ≡ 0
    → first_can nodes ids ≡ 0
    → pop_run (runs_of nodes ids) ≡ none
unfolding pop_run runs_of first_can count
pop_run_stuck nodes [] h e = refl
pop_run_stuck nodes (x ∷ xs) h e = ground (
  arith,
  ap (behind (run_of nodes x)) (pop_run_stuck nodes xs (ground (arith, h)) (ground (arith, h, e))),
  h,
  e,
)
