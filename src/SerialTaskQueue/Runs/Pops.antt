-- ===== src/SerialTaskQueue/Runs/Pops.antt =====
-- What `pop_front` and `reset_prop` change in the runs.
use btool.Common.{
  ℕ, suc, ◌-◌, ◌≡◌, ◌≢◌, refl, sym, ap, ◌∙◌, subst, Bool, true, false, List, [], ◌∷◌, Option, none,
  some, ltb, ◌==◌, if◌then◌else◌, arith, Bool-cases, inl, inr,
}
use btool.PropCountNodeList.Refine.{Run, pop_run, reset_run, behind}
use btool.SerialTaskQueue.Runs.{total, total_all, marked, nonzero}

pub record Pops (p : ℕ) (rs left : List Run) : Type 0 where
  pub total_left : (q : ℕ) → total q rs ≡ (if p == q then suc (total q left) else total q left)
  pub all_left : total_all rs ≡ suc (total_all left)
  pub nonzero_left : nonzero left ≡ true
  pub marked_own : (b : Bool) → marked b p rs ≡ true → (b ≡ true) × (marked false p left ≡ true)
  pub marked_other : (b : Bool) (q : ℕ) → q ≢ p → marked b q left ≡ marked b q rs

cons-Pops :
    (p : ℕ) (r : Run) (rs left : List Run)
    → r.can_pop ≡ false
    → nonzero (r ∷ rs) ≡ true
    → Pops p rs left
    → Pops p (r ∷ rs) (r ∷ left)
unfolding total total_all nonzero marked
cons-Pops p r rs left c n g = record {
  total_left = λ q. ground (arith, g.total_left q);
  all_left = ground (arith, g.all_left);
  nonzero_left = ground (arith, n, g.nonzero_left);
  marked_own = λ b m. ground (arith, c, m, g.marked_own b, g.marked_own false);
  marked_other = λ b q d. ground (arith, d, g.marked_other b q d, g.marked_other false q d);
}

abbrev less : Run → Run
less r = record r { count = r.count - 1; can_pop = false }

taken-Pops :
    (r : Run) (rs : List Run)
    → r.can_pop ≡ true
    → nonzero (r ∷ rs) ≡ true
    → Pops r.prop (r ∷ rs) (if ltb 0 (r.count - 1) then less r ∷ rs else rs)
unfolding total total_all nonzero marked
taken-Pops r rs c n = record {
  total_left = λ q. ground (arith, n);
  all_left = ground (arith, n);
  nonzero_left = ground (arith, n);
  marked_own = λ b m. ground (arith, c, m);
  marked_other = λ b q d. ground (arith, c, d);
}

pop_here :
    (r : Run) (rs : List Run)
    → r.can_pop ≡ true
    → pop_run (r ∷ rs) ≡ some (r.prop, if ltb 0 (r.count - 1) then less r ∷ rs else rs)
unfolding pop_run
pop_here r rs c =
    ap
      (λ b.
        if b
        then some (r.prop, if ltb 0 (r.count - 1) then less r ∷ rs else rs)
        else behind r (pop_run rs))
      c

pop_behind :
    (r : Run) (rs : List Run) → r.can_pop ≡ false → pop_run (r ∷ rs) ≡ behind r (pop_run rs)
unfolding pop_run
pop_behind r rs c =
    ap
      (λ b.
        if b
        then some (r.prop, if ltb 0 (r.count - 1) then less r ∷ rs else rs)
        else behind r (pop_run rs))
      c

behind-some :
    (r : Run) (o : Option (ℕ × List Run)) (p : ℕ) (left : List Run)
    → behind r o ≡ some (p, left)
    → (rest : List Run) × (o ≡ some (p, rest)) × (r ∷ rest ≡ left)
behind-some r none p left e = absurd (ground (arith, e))
behind-some r (some (q, rest)) p left e = (rest, ground (arith, e), ground (arith, e))

pub pop_run-Pops :
    (p : ℕ) (rs left : List Run) → nonzero rs ≡ true → pop_run rs ≡ some (p, left) → Pops p rs left
unfolding pop_run nonzero
pop_run-Pops p [] left n e = absurd (ground (arith, e))
pop_run-Pops p (r ∷ rs) left n e = elim (Bool-cases r.can_pop) [
  | inl c ↦
      let same = sym (pop_here r rs c) ∙ e in
      subst₂ (λ k xs. Pops k (r ∷ rs) xs) (ground (arith, same)) (ground (arith, same))
        (taken-Pops r rs c n)
  | inr c ↦
      let (rest, found, grown) = behind-some r (pop_run rs) p left (sym (pop_behind r rs c) ∙ e) in
      subst (Pops p (r ∷ rs)) grown
        (cons-Pops p r rs rest c n (pop_run-Pops p rs rest (ground (arith, n)) found))
]
  where
    subst₂ :
        (F : ℕ → List Run → Type 0) {k k' : ℕ} {xs ys : List Run}
        → k ≡ k'
        → xs ≡ ys
        → F k xs
        → F k' ys
    subst₂ F {k' = k'} {xs = xs} e i x = subst (F k') i (subst (λ k. F k xs) e x)

-- Where no run may be popped, none is marked as the one that may.
pub stuck-total :
    (rs : List Run) (q : ℕ)
    → nonzero rs ≡ true
    → pop_run rs ≡ none
    → marked true q rs ≡ true
    → total q rs ≡ 0
unfolding pop_run nonzero marked total
stuck-total [] q n e m = refl
stuck-total (r ∷ rs) q n e m = elim (Bool-cases r.can_pop) [
  | inl c ↦ absurd (ground (arith, sym (pop_here r rs c) ∙ e))
  | inr c ↦ ground (
    arith,
    c,
    m,
    n,
    stuck-total rs q (ground (arith, n)) (behind_none (pop_run rs) (sym (pop_behind r rs c) ∙ e)),
  )
]
  where
    behind_none : (o : Option (ℕ × List Run)) → behind r o ≡ none → o ≡ none
    behind_none none e = refl
    behind_none (some (p, rest)) e = absurd (ground (arith, e))

pub record Resets (p : ℕ) (rs more : List Run) : Type 0 where
  pub total_same : (q : ℕ) → total q more ≡ total q rs
  pub all_same : total_all more ≡ total_all rs
  pub nonzero_same : nonzero more ≡ nonzero rs
  pub marked_first : marked false p rs ≡ true → marked true p more ≡ true
  pub marked_rest : (b : Bool) (q : ℕ) → q ≢ p → marked b q more ≡ marked b q rs

pub reset_run-Resets : (p : ℕ) (rs : List Run) → Resets p rs (reset_run p rs)
unfolding reset_run total total_all nonzero marked
reset_run-Resets p [] = record {
  total_same = λ q. refl;
  all_same = refl;
  nonzero_same = refl;
  marked_first = λ m. refl;
  marked_rest = λ b q d. refl;
}
reset_run-Resets p (r ∷ rs) =
    let rest = reset_run-Resets p rs in
    record {
      total_same = λ q. ground (arith, rest.total_same q);
      all_same = ground (arith, rest.all_same);
      nonzero_same = ground (arith, rest.nonzero_same);
      marked_first = λ m. ground (arith, m, rest.marked_first);
      marked_rest = λ b q d. ground (arith, d, rest.marked_rest b q d, rest.marked_rest false q d);
    }
