-- ===== src/PropCountNodeList/Refine/Resets.antt =====
-- `reset_prop` does on the nodes what `reset_run` does on the runs.
use btool.Common.{
  ℕ, ◌<◌, ◌≡◌, ◌≢◌, refl, sym, ap, ◌∙◌, subst, true, List, [], ◌∷◌, none, some, ◌==◌, arith,
  Bool-cases, inl, inr,
}
use native.Mathlib.Decide.{ℕ_discrete}
use btool.Common.Assoc.{count, lookup}
use btool.PropCountNodeList.{Node, PropCountNodeList, write, reset_prop, head_or}
use btool.PropCountNodeList.Order.{Distinct, tail-Distinct, head_absent}
use btool.PropCountNodeList.Links.{
  Holds, same, some_unless_nil, count-same, count-head_or, same-Distinct, count_first,
}
use btool.PropCountNodeList.Push.{Alike, Alike-Holds, subst₂}
use btool.PropCountNodeList.Refine.{Run, run_of, runs_of, reset_run, Represents}
use btool.PropCountNodeList.Refine.Runs.{runs-write}

abbrev ready : ℕ → (ℕ → Node) → ℕ → Node
ready first nodes = write first (record (nodes first) { can_pop = true }) nodes

reset_run_none :
    (p : ℕ) (nodes : ℕ → Node) (ids : List ℕ)
    → same p nodes ids ≡ []
    → reset_run p (runs_of nodes ids) ≡ runs_of nodes ids
unfolding reset_run runs_of same
reset_run_none p nodes [] e = refl
reset_run_none p nodes (x ∷ xs) e = elim (Bool-cases ((nodes x).prop == p)) [
  | inl c ↦ absurd (ground (arith, e, c))
  | inr c ↦
      ground (
        arith,
        c,
        ap (λ rs. run_of nodes x ∷ rs) (reset_run_none p nodes xs (ground (arith, e, c))),
      )
]

ready-behind :
    (x f : ℕ) (nodes : ℕ → Node) (xs : List ℕ)
    → x ≢ f
    → runs_of (ready f nodes) (x ∷ xs) ≡ run_of nodes x ∷ runs_of (ready f nodes) xs
unfolding runs_of
ready-behind x f nodes xs n = ground (arith, n)

ready-here :
    (x : ℕ) (nodes : ℕ → Node) (xs : List ℕ)
    → count x xs ≡ 0
    → runs_of (ready x nodes) (x ∷ xs)
      ≡ record (run_of nodes x) { can_pop = true } ∷ runs_of nodes xs
unfolding runs_of
ready-here x nodes xs h =
    ground (arith, runs-write x nodes xs h (record (nodes x) { can_pop = true }))

reset_run-first :
    (p f : ℕ) (nodes : ℕ → Node) (ids : List ℕ)
    → Distinct ids
    → head_or 0 (same p nodes ids) ≡ f
    → f ≢ 0
    → reset_run p (runs_of nodes ids) ≡ runs_of (ready f nodes) ids
unfolding reset_run runs_of same
reset_run-first p f nodes [] d e n = absurd (n (sym e))
reset_run-first p f nodes (x ∷ xs) d e n = elim (Bool-cases ((nodes x).prop == p)) [
  | inl c ↦
      ground (arith, c)
      ∙ sym (ready-here x nodes xs (head_absent d))
      ∙ ap (λ k. runs_of (ready k nodes) (x ∷ xs)) (ground (arith, e, c))
  | inr c ↦
      ground (arith, c)
      ∙ ap (λ rs. run_of nodes x ∷ rs)
          (reset_run-first p f nodes xs (tail-Distinct d) (ground (arith, e, c)) n)
      ∙ sym (ready-behind x f nodes xs (apart (ground (arith, e, c))))
]
  where
    apart : head_or 0 (same p nodes xs) ≡ f → x ≢ f
    apart g i = ground (
      arith,
      head_absent d,
      count-same p x nodes xs,
      ap (λ k. count k (same p nodes xs)) (g ∙ sym i),
      count-head_or (same p nodes xs),
      g,
      n,
    )

reset_some :
    (p f : ℕ) (l : PropCountNodeList) (fs : List ℕ)
    → lookup p l.all_nodes ≡ some (f ∷ fs)
    → reset_prop p l ≡ record l { nodes = ready f l.nodes }
unfolding reset_prop
reset_some p f l fs e = rw (reset_prop, e) refl

reset_none : (p : ℕ) (l : PropCountNodeList) → lookup p l.all_nodes ≡ none → reset_prop p l ≡ l
unfolding reset_prop
reset_none p l e = rw (reset_prop, e) refl

ready-Alike :
    (p f : ℕ) (l : PropCountNodeList) (ids : List ℕ)
    → Holds l ids
    → head_or 0 (same p l.nodes ids) ≡ f
    → (l.nodes f).prop ≡ p
    → Alike l.nodes (ready f l.nodes) ids
ready-Alike p f l ids h e q = record {
  next_alike = λ x. ground (arith, ap (λ k. (l.nodes k).next_list) {x = x} {y = f});
  pre_alike = λ x. ground (arith, ap (λ k. (l.nodes k).pre_list) {x = x} {y = f});
  same_alike = λ x. ground (arith, ap (λ k. (l.nodes k).next_same) {x = x} {y = f});
  prop_alike = λ x. ground (arith, ap (λ k. (l.nodes k).prop) {x = x} {y = f});
  pops_first = λ x m a. elim (ℕ_discrete x f) [
    | yes i ↦
        ap (λ k. head_or 0 (same k l.nodes ids)) (ap (λ k. (l.nodes k).prop) i ∙ q) ∙ e ∙ sym i
    | no n ↦ h.first_pops x m (ground (arith, a, n))
  ];
  still_counted = λ x m. ground (arith, h.counted x m, ap (λ k. (l.nodes k).count) {x = x} {y = f});
}

-- `reset_prop` does on the list what `reset_run` does on the runs that it represents: the first run of the
-- property may be popped.
pub reset_prop-Represents :
    (p : ℕ) (l : PropCountNodeList) (ids : List ℕ) (rs : List Run)
    → Represents l ids rs
    → Represents (reset_prop p l) ids (reset_run p rs)
reset_prop-Represents p l ids rs r = by_nodes (same p l.nodes ids) refl
  where
    by_nodes :
        (s : List ℕ) → same p l.nodes ids ≡ s → Represents (reset_prop p l) ids (reset_run p rs)
    by_nodes [] e =
        subst₂ (λ k s. Represents k ids s)
          (sym (reset_none p l (r.holds.named p ∙ ap some_unless_nil e)))
          (sym (sym (ap (reset_run p) r.viewed) ∙ reset_run_none p l.nodes ids e ∙ r.viewed)) r
    by_nodes (f ∷ fs) e =
        subst (λ k. Represents k ids (reset_run p rs))
          (sym (reset_some p f l fs (r.holds.named p ∙ ap some_unless_nil e)))
          (record {
            holds =
                Alike-Holds l (ready f l.nodes) ids r.holds
                  (ready-Alike p f l ids r.holds (ap (head_or 0) e) own);
            viewed =
                sym (reset_run-first p f l.nodes ids r.holds.distinct (ap (head_or 0) e) some_f)
                ∙ ap (reset_run p) r.viewed;
          })
      where
        inside : 0 < count f (same p l.nodes ids)
        inside = count_first f fs (same p l.nodes ids) e

        own : (l.nodes f).prop ≡ p
        own = ground (arith, inside, count-same p f l.nodes ids)

        some_f : f ≢ 0
        some_f i = ground (
          arith,
          inside,
          ap (λ k. count k (same p l.nodes ids)) i,
          (same-Distinct p l.nodes ids r.holds.distinct).no_null,
        )
