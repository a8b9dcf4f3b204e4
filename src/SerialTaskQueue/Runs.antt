-- ===== src/SerialTaskQueue/Runs.antt =====
-- The list of properties as its runs, and what the queue needs of them: how many tasks of a property stand
-- there, and which of its runs may be popped.
pub mod Pops
use btool.Common.{
  ℕ, zero, suc, ◌+◌, ◌-◌, ◌<◌, ◌≡◌, ◌≢◌, refl, sym, ap, ◌∙◌, subst, Bool, true, false, not, ◌&&◌,
  List, [], ◌∷◌, ◌++◌, Option, none, some, ltb, ◌==◌, if◌then◌else◌, arith, Option-cases,
  Bool-cases, inl, inr,
}
use btool.PropCountNodeList.Refine.{
  Run, push_run, pop_run, reset_run, drop_runs, more_at_end, has_run, behind,
}
use btool.SerialTaskQueue.{PropList}

abbrev pub run_list : PropList (List Run)
run_list = record {
  push_back = push_run;
  pop_front = pop_run;
  reset_prop = reset_run;
  remove_prop = drop_runs;
  clear = λ rs. [];
}

-- The tasks of a property.
unfoldable pub total : ℕ → List Run → ℕ
total p [] = 0
total p (r ∷ rs) = let rest = total p rs in if r.prop == p then r.count + rest else rest

unfoldable pub total_all : List Run → ℕ
total_all [] = 0
total_all (r ∷ rs) = r.count + total_all rs

-- The first run of the property may be popped or not, as `first` says, and no other run of it may.
unfoldable pub marked : Bool → ℕ → List Run → Bool
marked first p [] = true
marked first p (r ∷ rs) =
    let rest = marked false p rs in
    let next = marked first p rs in
    if r.prop == p then (if first then r.can_pop else not r.can_pop) && rest else next

-- No run is of no task.
unfoldable pub nonzero : List Run → Bool
nonzero [] = true
nonzero (r ∷ rs) = let rest = nonzero rs in ltb 0 r.count && rest

pub marked-total :
    (p : ℕ) (b : Bool) (rs : List Run) → total p rs ≡ 0 → nonzero rs ≡ true → marked b p rs ≡ true
unfolding total marked nonzero
marked-total p b [] e n = refl
marked-total p b (r ∷ rs) e n = ground (arith, e, n, marked-total p false rs, marked-total p b rs)

pub has_run-total :
    (p : ℕ) (rs : List Run) → nonzero rs ≡ true → has_run p rs ≡ not (total p rs == 0)
unfolding total has_run nonzero
has_run-total p [] n = ground arith
has_run-total p (r ∷ rs) n = ground (arith, n, has_run-total p rs)

-- What `push_back` changes.
pub record Pushes (p : ℕ) (rs more : List Run) : Type 0 where
  pub total_more : (q : ℕ) → total q more ≡ (if p == q then suc (total q rs) else total q rs)
  pub all_more : total_all more ≡ suc (total_all rs)
  pub nonzero_more : nonzero rs ≡ true → nonzero more ≡ true

-- A last run that has grown.
record Grows (p : ℕ) (rs more : List Run) : Type 0 where
  pushes : Pushes p rs more
  marked_more : (b : Bool) (q : ℕ) → marked b q more ≡ marked b q rs

cons-Grows : (p : ℕ) (r : Run) (rs more : List Run) → Grows p rs more → Grows p (r ∷ rs) (r ∷ more)
unfolding total total_all nonzero marked
cons-Grows p r rs more g = record {
  pushes = record {
    total_more = λ q. ground (arith, g.pushes.total_more q);
    all_more = ground (arith, g.pushes.all_more);
    nonzero_more = λ n. ground (arith, n, g.pushes.nonzero_more);
  };
  marked_more = λ b q. ground (arith, g.marked_more b q, g.marked_more false q);
}

more_at_end-Grows : (p : ℕ) (rs more : List Run) → more_at_end p rs ≡ some more → Grows p rs more
unfolding more_at_end total total_all nonzero marked
more_at_end-Grows p [] more e = absurd (ground (arith, e))
more_at_end-Grows p (r ∷ []) more e = subst (Grows p (r ∷ [])) (grown e) (record {
  pushes = record {
    total_more = λ q. ground (arith, own e);
    all_more = ground arith;
    nonzero_more = λ n. ground (arith, n);
  };
  marked_more = λ b q. ground arith;
})
  where
    own :
        (if r.prop == p then some (record r { count = suc r.count } ∷ []) else none) ≡ some more
        → r.prop ≡ p
    own e = ground (arith, e)

    grown :
        (if r.prop == p then some (record r { count = suc r.count } ∷ []) else none) ≡ some more
        → record r { count = suc r.count } ∷ [] ≡ more
    grown e = ground (arith, e)
more_at_end-Grows p (r ∷ s ∷ rs) more e = elim (Option-cases (more_at_end p (s ∷ rs))) [
  | inl h ↦ absurd (ground (arith, e, h))
  | inr (grown, h) ↦
      subst (Grows p (r ∷ s ∷ rs)) (ground (arith, e, h))
        (cons-Grows p r (s ∷ rs) grown (more_at_end-Grows p (s ∷ rs) grown h))
]

abbrev new_run : ℕ → Bool → Run
new_run p c = record { prop = p; count = 1; can_pop = c }

append-Pushes : (p : ℕ) (c : Bool) (rs : List Run) → Pushes p rs (rs ++ new_run p c ∷ [])
unfolding total total_all nonzero
append-Pushes p c [] = record {
  total_more = λ q. ground arith;
  all_more = ground arith;
  nonzero_more = λ n. ground arith;
}
append-Pushes p c (r ∷ rs) =
    let rest = append-Pushes p c rs in
    record {
      total_more = λ q. ground (arith, rest.total_more q);
      all_more = ground (arith, rest.all_more);
      nonzero_more = λ n. ground (arith, n, rest.nonzero_more);
    }

marked-append :
    (b : Bool) (q p : ℕ) (c : Bool) (rs : List Run)
    → marked b q (rs ++ new_run p c ∷ [])
      ≡ marked b q rs && (if p == q then (if b && not (has_run q rs) then c else not c) else true)
unfolding marked has_run
marked-append true q p c [] = ground arith
marked-append false q p c [] = ground arith
marked-append b q p c (r ∷ rs) =
    ground (arith, marked-append b q p c rs, marked-append false q p c rs)

push_run_more :
    (p : ℕ) (c : Bool) (rs more : List Run) → more_at_end p rs ≡ some more → push_run p c rs ≡ more
unfolding push_run
push_run_more p c rs more e = rw (push_run, e) refl

push_run_new :
    (p : ℕ) (c : Bool) (rs : List Run)
    → more_at_end p rs ≡ none
    → push_run p c rs ≡ rs ++ new_run p (c && not (has_run p rs)) ∷ []
unfolding push_run
push_run_new p c rs e = rw (push_run, e) refl

pub push_run-Pushes : (p : ℕ) (c : Bool) (rs : List Run) → Pushes p rs (push_run p c rs)
push_run-Pushes p c rs = elim (Option-cases (more_at_end p rs)) [
  | inl e ↦
      subst (Pushes p rs) (sym (push_run_new p c rs e))
        (append-Pushes p (c && not (has_run p rs)) rs)
  | inr (more, e) ↦
      subst (Pushes p rs) (sym (push_run_more p c rs more e)) (more_at_end-Grows p rs more e).pushes
]

pub marked-push_run :
    (b : Bool) (q p : ℕ) (c : Bool) (rs : List Run)
    → marked b q rs ≡ true
    → (q ≡ p → has_run p rs ≡ false → c ≡ b)
    → marked b q (push_run p c rs) ≡ true
marked-push_run b q p c rs m f = elim (Option-cases (more_at_end p rs)) [
  | inl e ↦ ground (
    arith,
    ap (marked b q) (push_run_new p c rs e),
    marked-append b q p (c && not (has_run p rs)) rs,
    m,
    f,
    ap (λ k. has_run k rs) {x = q} {y = p},
  )
  | inr (more, e) ↦
      ap (marked b q) (push_run_more p c rs more e)
      ∙ (more_at_end-Grows p rs more e).marked_more b q
      ∙ m
]
