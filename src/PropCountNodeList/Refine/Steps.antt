-- ===== src/PropCountNodeList/Refine/Steps.antt =====
-- The operations of the list do on its nodes what their counterparts do on its runs.
use btool.Common.{
  ℕ, ◌-◌, ◌<◌, ◌≡◌, ◌≢◌, refl, ap, ◌∙◌, subst, true, false, List, Option, none, some, ltb, length,
  arith, Bool-cases, inl, inr,
}
use native.Mathlib.Decide.{ℕ_discrete}
use btool.Common.Assoc.{count, remove}
use btool.PropCountNodeList.{PropCountNodeList, write, find_pop, unlink, pop_front}
use btool.PropCountNodeList.Links.{Holds}
use btool.PropCountNodeList.Push.{Alike, Alike-Holds}
use btool.PropCountNodeList.Take.{
  left, left_prop, left_can, left_count, reduced, unlink-Holds, not_y,
}
use btool.PropCountNodeList.Refine.{Run, runs_of, pop_run, Represents, Matches}
use btool.PropCountNodeList.Refine.Runs.{
  run_cong, runs_cong, first_can, count-first_can, first_can-pops, once_less, run_left,
  pop_run-runs_of, pop_run_stuck,
}
use btool.PropCountNodeList.Refine.Finds.{find_pop-first_can}

pop_front_stuck :
    (fuel : ℕ) (l : PropCountNodeList)
    → find_pop fuel l.begin_node l.nodes ≡ 0
    → pop_front fuel l ≡ none
unfolding pop_front
pop_front_stuck fuel l e = rw (e) refl

none-Matches :
    {o : Option (ℕ × PropCountNodeList)} {r : Option (ℕ × List Run)}
    → o ≡ none
    → r ≡ none
    → Matches o r
unfolding Matches
none-Matches {o = none} {r = none} e f = tt
none-Matches {o = some p} e f = absurd (ground (arith, e))
none-Matches {o = none} {r = some q} e f = absurd (ground (arith, f))

some-Matches :
    {o : Option (ℕ × PropCountNodeList)} {r : Option (ℕ × List Run)} (p : ℕ) (l : PropCountNodeList)
    (ids : List ℕ) (rs : List Run)
    → o ≡ some (p, l)
    → r ≡ some (p, rs)
    → Represents l ids rs
    → Matches o r
unfolding Matches
some-Matches p l ids rs e f x = rw (e, f) (refl, (ids, x))

module _ (y : ℕ) (l : PropCountNodeList) (ids : List ℕ) (h : Holds l ids) (inside : 0 < count y ids)
    (some_y : y ≢ 0) (pops : (l.nodes y).can_pop ≡ true) where
  pop_front_more :
      (fuel : ℕ)
      → find_pop fuel l.begin_node l.nodes ≡ y
      → ltb 0 ((l.nodes y).count - 1) ≡ true
      → pop_front fuel l
        ≡ some ((l.nodes y).prop, record l { nodes = write y (once_less y l.nodes) l.nodes })
  unfolding pop_front
  pop_front_more fuel e c = rw (e, c) ground (arith, some_y)

  pop_front_last :
      (fuel : ℕ)
      → find_pop fuel l.begin_node l.nodes ≡ y
      → ltb 0 ((l.nodes y).count - 1) ≡ false
      → pop_front fuel l ≡ some ((l.nodes y).prop, unlink y (reduced y l ids h inside some_y pops))
  unfolding pop_front
  pop_front_last fuel e c = rw (e, c) ground (arith, some_y)

  less_Alike : 0 < (l.nodes y).count - 1 → Alike l.nodes (write y (once_less y l.nodes) l.nodes) ids
  less_Alike c = record {
    next_alike = λ x. ground (arith, ap (λ k. (l.nodes k).next_list) {x = x} {y = y});
    pre_alike = λ x. ground (arith, ap (λ k. (l.nodes k).pre_list) {x = x} {y = y});
    same_alike = λ x. ground (arith, ap (λ k. (l.nodes k).next_same) {x = x} {y = y});
    prop_alike = λ x. ground (arith, ap (λ k. (l.nodes k).prop) {x = x} {y = y});
    pops_first = λ x m a. h.first_pops x m (ground (arith, a));
    still_counted = λ x m. ground (arith, h.counted x m, c);
  }

  unlinked_runs :
      runs_of (left y l ids h inside some_y pops) (remove y ids) ≡ runs_of l.nodes (remove y ids)
  unlinked_runs = runs_cong l.nodes (left y l ids h inside some_y pops) (remove y ids) (λ x m.
      run_cong (left_prop y l ids h inside some_y pops x)
        (left_count y l ids h inside some_y pops x (not_y y l ids h inside some_y pops x m))
        (left_can y l ids h inside some_y pops x (not_y y l ids h inside some_y pops x m)))

  found-Matches :
      (fuel : ℕ)
      → find_pop fuel l.begin_node l.nodes ≡ y
      → pop_run (runs_of l.nodes ids) ≡ some ((l.nodes y).prop, run_left y l.nodes ids)
      → Matches (pop_front fuel l) (pop_run (runs_of l.nodes ids))
  found-Matches fuel e r = elim (Bool-cases (ltb 0 ((l.nodes y).count - 1))) [
    | inl c ↦
        some-Matches (l.nodes y).prop (record l { nodes = write y (once_less y l.nodes) l.nodes })
          ids (run_left y l.nodes ids) (pop_front_more fuel e c) r
          (record {
            holds =
                Alike-Holds l (write y (once_less y l.nodes) l.nodes) ids h
                  (less_Alike (ground (arith, c)));
            viewed = ground (arith, c);
          })
    | inr c ↦
        some-Matches (l.nodes y).prop (unlink y (reduced y l ids h inside some_y pops))
          (remove y ids) (run_left y l.nodes ids) (pop_front_last fuel e c) r
          (record {
            holds = unlink-Holds y l ids h inside some_y pops;
            viewed = ground (arith, unlinked_runs, c);
          })
  ]

-- On fuel for one node more than there are, `pop_front` gives what `pop_run` gives on the runs that the list
-- represents, the property of the first run that may be popped, and leaves a list that represents the runs
-- that are left; it gives nothing only where no run may be popped.
pub pop_front-Matches :
    (fuel : ℕ) (l : PropCountNodeList) (ids : List ℕ) (rs : List Run)
    → Represents l ids rs
    → length ids < fuel
    → Matches (pop_front fuel l) (pop_run rs)
pop_front-Matches fuel l ids rs r room =
    subst (λ s. Matches (pop_front fuel l) (pop_run s)) r.viewed
      (elim (ℕ_discrete (first_can l.nodes ids) 0) [
        | yes e ↦
            none-Matches (pop_front_stuck fuel l (found ∙ e))
              (pop_run_stuck l.nodes ids r.holds.distinct.no_null e)
        | no n ↦
            found-Matches (first_can l.nodes ids) l ids r.holds (count-first_can l.nodes ids n) n
              (first_can-pops l.nodes ids n) fuel found
              (pop_run-runs_of (first_can l.nodes ids) l.nodes ids r.holds.distinct n refl)
      ])
  where
    found : find_pop fuel l.begin_node l.nodes ≡ first_can l.nodes ids
    found =
        ap (λ b. find_pop fuel b l.nodes) r.holds.begin_is
        ∙ find_pop-first_can fuel l.nodes ids r.holds.distinct r.holds.next_is room
