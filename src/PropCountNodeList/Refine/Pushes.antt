-- ===== src/PropCountNodeList/Refine/Pushes.antt =====
-- `push_back` does on the nodes what `push_run` does on the runs.
use btool.Common.{
  ℕ, suc, ◌<◌, ◌≡◌, ◌≢◌, refl, sym, ap, ap₂, ◌∙◌, subst, Bool, true, false, not, ◌&&◌, List, [],
  ◌∷◌, ◌++◌, none, some, ◌==◌, arith, Bool-cases, inl, inr,
}
use btool.Common.Assoc.{count, lookup}
use btool.PropCountNodeList.{Node, PropCountNodeList, write, push_back, can_unless, last_or}
use btool.PropCountNodeList.Order.{Distinct, count-last, tail-Distinct, head_absent}
use btool.PropCountNodeList.Links.{Holds, same, some_unless_nil}
use btool.PropCountNodeList.Push.{
  pushed, push_back-Holds, first_push, appended, push_first, push_joins, push_apart, pushed_first,
  pushed_joins, pushed_apart,
}
use btool.PropCountNodeList.Append.{built, built_prop, built_can, built_count}
use btool.PropCountNodeList.Refine.{
  Run, run_of, runs_of, push_run, more_at_end, has_run, Represents,
}
use btool.PropCountNodeList.Refine.Runs.{run, run_cong, runs_cong}

abbrev more : ℕ → (ℕ → Node) → ℕ → Node
more e nodes = write e (record (nodes e) { count = suc (nodes e).count }) nodes

more_at_end-joins :
    (p x : ℕ) (nodes : ℕ → Node) (xs : List ℕ)
    → Distinct (x ∷ xs)
    → (nodes (last_or x xs)).prop ≡ p
    → more_at_end p (runs_of nodes (x ∷ xs)) ≡ some (runs_of (more (last_or x xs) nodes) (x ∷ xs))
unfolding more_at_end runs_of
more_at_end-joins p x nodes [] d e = ground (arith, e)
more_at_end-joins p x nodes (y ∷ ys) d e =
    rw (more_at_end-joins p y nodes ys (tail-Distinct d) e)
      (ap (λ r. some (r ∷ runs_of (more (last_or y ys) nodes) (y ∷ ys))) (sym kept))
  where
    apart : x ≢ last_or y ys
    apart i = ground (arith, head_absent d, ap (λ k. count k (y ∷ ys)) i, count-last y ys)

    kept : run_of (more (last_or y ys) nodes) x ≡ run_of nodes x
    kept = ground (arith, apart)

more_at_end-apart :
    (p x : ℕ) (nodes : ℕ → Node) (xs : List ℕ)
    → (nodes (last_or x xs)).prop ≢ p
    → more_at_end p (runs_of nodes (x ∷ xs)) ≡ none
unfolding more_at_end runs_of
more_at_end-apart p x nodes [] n = ground (arith, n)
more_at_end-apart p x nodes (y ∷ ys) n = rw (more_at_end-apart p y nodes ys n) refl

runs_of-append :
    (nodes : ℕ → Node) (ids : List ℕ) (a : ℕ)
    → runs_of nodes (ids ++ a ∷ []) ≡ runs_of nodes ids ++ run_of nodes a ∷ []
unfolding runs_of
runs_of-append nodes [] a = refl
runs_of-append nodes (x ∷ xs) a = ap (λ rs. run_of nodes x ∷ rs) (runs_of-append nodes xs a)

has_run-same :
    (p : ℕ) (can : Bool) (nodes : ℕ → Node) (ids : List ℕ)
    → can_unless (some_unless_nil (same p nodes ids)) can
      ≡ can && not (has_run p (runs_of nodes ids))
unfolding has_run runs_of same
has_run-same p true nodes [] = refl
has_run-same p false nodes [] = refl
has_run-same p can nodes (x ∷ xs) = ground (arith, has_run-same p can nodes xs)

push_run_more :
    (p : ℕ) (can : Bool) (rs grown : List Run)
    → more_at_end p rs ≡ some grown
    → push_run p can rs ≡ grown
unfolding push_run
push_run_more p can rs grown e = rw (push_run, e) refl

push_run_new :
    (p : ℕ) (can : Bool) (rs : List Run)
    → more_at_end p rs ≡ none
    → push_run p can rs ≡ rs ++ run p 1 (can && not (has_run p rs)) ∷ []
unfolding push_run
push_run_new p can rs e = rw (push_run, e) refl

push_run_first :
    (p : ℕ) (can : Bool) (rs : List Run) → rs ≡ [] → rs ++ run p 1 can ∷ [] ≡ push_run p can rs
unfolding push_run more_at_end has_run
push_run_first p true [] e = refl
push_run_first p false [] e = refl
push_run_first p can (r ∷ rs) e = absurd (ground (arith, e))

module _ (a p : ℕ) (can : Bool) (l : PropCountNodeList) (ids : List ℕ) (h : Holds l ids)
    (fresh : count a ids ≡ 0) (some_node : a ≢ 0) where
  appended_runs :
      (c : Bool)
      → runs_of (appended a p can l ids h fresh some_node c).nodes (ids ++ a ∷ [])
        ≡ runs_of l.nodes ids ++ run p 1 c ∷ []
  appended_runs c =
      runs_of-append (built a p c l ids h fresh some_node) ids a
      ∙ ap₂ (λ rs r. rs ++ r ∷ []) old new
    where
      new : run_of (built a p c l ids h fresh some_node) a ≡ run p 1 c
      new =
          run_cong (ground (arith, built_prop a p c l ids h fresh some_node a))
            (ground (arith, built_count a p c l ids h fresh some_node a))
            (ground (arith, built_can a p c l ids h fresh some_node a))

      other : (x : ℕ) → 0 < count x ids → x ≢ a
      other x m e = ground (arith, m, fresh, ap (λ k. count k ids) e)

      old : runs_of (built a p c l ids h fresh some_node) ids ≡ runs_of l.nodes ids
      old = runs_cong l.nodes (built a p c l ids h fresh some_node) ids (λ x m.
          run_cong (ground (arith, built_prop a p c l ids h fresh some_node x, other x m))
            (ground (arith, built_count a p c l ids h fresh some_node x, other x m))
            (ground (arith, built_can a p c l ids h fresh some_node x, other x m)))

  new_pushed :
      more_at_end p (runs_of l.nodes ids) ≡ none
      → runs_of
          (appended a p can l ids h fresh some_node (can_unless (lookup p l.all_nodes) can)).nodes
          (ids ++ a ∷ [])
        ≡ push_run p can (runs_of l.nodes ids)
  new_pushed e =
      appended_runs (can_unless (lookup p l.all_nodes) can)
      ∙ ap (λ c. runs_of l.nodes ids ++ run p 1 c ∷ [])
          (ap (λ o. can_unless o can) (h.named p) ∙ has_run-same p can l.nodes ids)
      ∙ sym (push_run_new p can (runs_of l.nodes ids) e)

  last_joins :
      (l.end_node == 0) ≡ false
      → ((l.nodes l.end_node).prop == p) ≡ true
      → more_at_end p (runs_of l.nodes ids) ≡ some (runs_of (more l.end_node l.nodes) ids)
  last_joins e joins =
      subst (λ k. more_at_end p (runs_of l.nodes ids) ≡ some (runs_of (more k l.nodes) ids))
        (sym h.end_is)
        (with_last ids h.distinct (λ n. ground (arith, e, h.end_is, ap (last_or 0) n))
          (ap (λ k. (l.nodes k).prop) (sym h.end_is) ∙ ground (arith, joins)))
    where
      with_last :
          (ys : List ℕ)
          → Distinct ys
          → ys ≢ []
          → (l.nodes (last_or 0 ys)).prop ≡ p
          → more_at_end p (runs_of l.nodes ys) ≡ some (runs_of (more (last_or 0 ys) l.nodes) ys)
      with_last [] d n c = absurd (n refl)
      with_last (y ∷ ys) d n c = more_at_end-joins p y l.nodes ys d c

  last_apart : ((l.nodes l.end_node).prop == p) ≡ false → more_at_end p (runs_of l.nodes ids) ≡ none
  unfolding more_at_end runs_of
  last_apart apart =
      with_last ids (λ c. ground (arith, apart, ap (λ k. (l.nodes k).prop) h.end_is, c))
    where
      with_last :
          (ys : List ℕ)
          → (l.nodes (last_or 0 ys)).prop ≢ p
          → more_at_end p (runs_of l.nodes ys) ≡ none
      with_last [] n = refl
      with_last (y ∷ ys) n = more_at_end-apart p y l.nodes ys n

  no_runs : ids ≡ [] → runs_of l.nodes ids ≡ []
  unfolding runs_of
  no_runs e = ap (runs_of l.nodes) e

  -- Where the links of the list are in order and the address for a new node is not null and not that of one of
  -- its nodes, `push_back` keeps the links in order and does what `push_run` does on the runs: it makes the last run
  -- longer where it is of the property, and adds a run of one task otherwise, which may be popped where the
  -- caller says so and the property has no other run.
  pub push_back-Represents :
      Represents (push_back a p can l) (pushed a p l ids) (push_run p can (runs_of l.nodes ids))
  push_back-Represents = record {
    holds = push_back-Holds a p can l ids h fresh some_node;
    viewed = by_end;
  }
    where
      by_end :
          runs_of (push_back a p can l).nodes (pushed a p l ids)
          ≡ push_run p can (runs_of l.nodes ids)
      by_end = elim (Bool-cases (l.end_node == 0)) [
        | inl e ↦
            ap₂ (λ k xs. runs_of k.nodes xs)
              (push_first a p can l ids h fresh some_node (ground (arith, e)))
              (sym (pushed_first a p can l ids h fresh some_node e))
            ∙ appended_runs can
            ∙ push_run_first p can (runs_of l.nodes ids)
                (no_runs (first_push a p can l ids h fresh some_node (ground (arith, e))))
        | inr e ↦ elim (Bool-cases ((l.nodes l.end_node).prop == p)) [
          | inl joins ↦
              ap₂ (λ k xs. runs_of k.nodes xs) (push_joins a p can l ids h fresh some_node e joins)
                (sym (pushed_joins a p can l ids h fresh some_node e joins))
              ∙ sym (
                  push_run_more p can (runs_of l.nodes ids) (runs_of (more l.end_node l.nodes) ids)
                    (last_joins e joins))
          | inr apart ↦
              ap₂ (λ k xs. runs_of k.nodes xs) (push_apart a p can l ids h fresh some_node e apart)
                (sym (pushed_apart a p can l ids h fresh some_node apart))
              ∙ new_pushed (last_apart apart)
        ]
      ]
