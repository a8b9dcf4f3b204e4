-- ===== src/PropCountNodeList/Refine/Removes.antt =====
-- `remove_prop` does on the nodes what taking out the runs of a property does on the runs.
use btool.Common.{
  ℕ, ◌<◌, ◌≡◌, ◌≢◌, refl, sym, ap, ◌∙◌, subst, List, [], ◌∷◌, none, some, ◌==◌, if◌then◌else◌,
  arith,
}
use btool.Common.Assoc.{count, lookup, erase, lookup-erase}
use btool.PropCountNodeList.{Node, PropCountNodeList, head_or, remove_each, remove_prop, clear}
use btool.PropCountNodeList.Order.{after}
use btool.PropCountNodeList.Links.{same, some_unless_nil, Holds, same_cong}
use btool.PropCountNodeList.Remove.{Linked, is_of}
use btool.PropCountNodeList.Remove.Loop.{
  others, same-others, count-others, others_all, Removed, remove_each-Removed,
}
use btool.PropCountNodeList.Refine.{Run, run_of, runs_of, drop_runs, Represents}
use btool.PropCountNodeList.Refine.Runs.{run_cong, runs_cong}

drop_runs-runs_of :
    (p : ℕ) (nodes : ℕ → Node) (ids : List ℕ)
    → drop_runs p (runs_of nodes ids) ≡ runs_of nodes (others p nodes ids)
unfolding drop_runs runs_of others
drop_runs-runs_of p nodes [] = refl
drop_runs-runs_of p nodes (x ∷ xs) = ground (
  arith,
  drop_runs-runs_of p nodes xs,
  ap (λ rs. run_of nodes x ∷ rs) (drop_runs-runs_of p nodes xs),
)

module _ (p : ℕ) (l left : PropCountNodeList) (ids : List ℕ) (h : Holds l ids)
    (r : Removed p l left ids) where
  same_left :
      (q : ℕ)
      → same q left.nodes (others p l.nodes ids) ≡ (if p == q then [] else same q l.nodes ids)
  same_left q =
      same_cong q l.nodes left.nodes (others p l.nodes ids) (λ x m. r.relinked.prop_kept x)
      ∙ same-others q p l.nodes ids

  in_old : (x : ℕ) → 0 < count x (others p l.nodes ids) → 0 < count x ids
  in_old x m = ground (arith, m, count-others x p l.nodes ids)

  kept : (x : ℕ) → 0 < count x (others p l.nodes ids) → p ≢ (l.nodes x).prop
  kept x m e = ground (arith, m, count-others x p l.nodes ids, e)

  same_kept_at :
      (x : ℕ)
      → 0 < count x (others p l.nodes ids)
      → same (left.nodes x).prop left.nodes (others p l.nodes ids)
        ≡ same (l.nodes x).prop l.nodes ids
  same_kept_at x m =
      ap (λ q. same q left.nodes (others p l.nodes ids)) (r.relinked.prop_kept x)
      ∙ ground (arith, same_left (l.nodes x).prop, kept x m)

  others-Holds : Holds (record left { all_nodes = erase p l.all_nodes }) (others p l.nodes ids)
  others-Holds = record {
    distinct = r.linked.distinct;
    begin_is = r.linked.begin_is;
    end_is = r.linked.end_is;
    next_is = r.linked.next_is;
    pre_is = r.linked.pre_is;
    named = λ q.
        ground (arith, lookup-erase p q l.all_nodes, h.named q, ap some_unless_nil (same_left q));
    next_same_is = λ x m.
        r.relinked.same_kept x
        ∙ h.next_same_is x (in_old x m)
        ∙ ap (after x) (sym (same_kept_at x m));
    first_pops = λ x m c.
        ap (head_or 0) (same_kept_at x m)
        ∙ h.first_pops x (in_old x m) (sym (r.relinked.can_kept x) ∙ c);
    counted = λ x m. ground (arith, r.relinked.count_kept x, h.counted x (in_old x m));
  }

  others_runs : runs_of left.nodes (others p l.nodes ids) ≡ drop_runs p (runs_of l.nodes ids)
  others_runs =
      runs_cong l.nodes left.nodes (others p l.nodes ids)
        (λ x m. run_cong (r.relinked.prop_kept x) (r.relinked.count_kept x) (r.relinked.can_kept x))
      ∙ sym (drop_runs-runs_of p l.nodes ids)

remove_some :
    (p f : ℕ) (l : PropCountNodeList) (fs : List ℕ)
    → lookup p l.all_nodes ≡ some (f ∷ fs)
    → remove_prop p l
      ≡ record (remove_each p
          (f ∷ fs)
          (is_of p l.begin_node l.nodes, is_of p l.end_node l.nodes, l)) {
            all_nodes = erase p l.all_nodes;
          }
unfolding remove_prop
remove_some p f l fs e = rw (remove_prop, e) refl

remove_none : (p : ℕ) (l : PropCountNodeList) → lookup p l.all_nodes ≡ none → remove_prop p l ≡ l
unfolding remove_prop
remove_none p l e = rw (remove_prop, e) refl

-- `remove_prop` takes the runs of the property out of those that the list represents, and no other, whatever
-- their places in the queue.
pub remove_prop-Represents :
    (p : ℕ) (l : PropCountNodeList) (ids : List ℕ) (rs : List Run)
    → Represents l ids rs
    → Represents (remove_prop p l) (others p l.nodes ids) (drop_runs p rs)
remove_prop-Represents p l ids rs r = by_nodes (same p l.nodes ids) refl
  where
    linked : Linked l ids
    linked = record {
      distinct = r.holds.distinct;
      begin_is = r.holds.begin_is;
      end_is = r.holds.end_is;
      next_is = r.holds.next_is;
      pre_is = r.holds.pre_is;
    }

    by_nodes :
        (s : List ℕ)
        → same p l.nodes ids ≡ s
        → Represents (remove_prop p l) (others p l.nodes ids) (drop_runs p rs)
    by_nodes [] e =
        subst (λ k. Represents k (others p l.nodes ids) (drop_runs p rs))
          (sym (remove_none p l (r.holds.named p ∙ ap some_unless_nil e)))
          (record {
            holds = subst (Holds l) (sym (others_all p l.nodes ids e)) r.holds;
            viewed = sym (drop_runs-runs_of p l.nodes ids) ∙ ap (drop_runs p) r.viewed;
          })
    by_nodes (f ∷ fs) e =
        subst (λ k. Represents k (others p l.nodes ids) (drop_runs p rs))
          (sym (remove_some p f l fs (r.holds.named p ∙ ap some_unless_nil e)))
          (record {
            holds =
                others-Holds p l
                  (remove_each p (f ∷ fs)
                    (is_of p l.begin_node l.nodes, is_of p l.end_node l.nodes, l))
                  ids r.holds (remove_each-Removed p (f ∷ fs) l ids linked e);
            viewed =
                others_runs p l
                  (remove_each p (f ∷ fs)
                    (is_of p l.begin_node l.nodes, is_of p l.end_node l.nodes, l))
                  ids r.holds (remove_each-Removed p (f ∷ fs) l ids linked e)
                ∙ ap (drop_runs p) r.viewed;
          })

-- After `clear`, as in a new list, there is no run.
pub clear-Represents : (l : PropCountNodeList) → Represents (clear l) [] []
unfolding clear count runs_of same lookup
clear-Represents l = record {
  holds = record {
    distinct = record { once = λ x. ground arith; no_null = refl };
    begin_is = refl;
    end_is = refl;
    next_is = λ x m. absurd (ground (arith, m));
    pre_is = λ x m. absurd (ground (arith, m));
    named = λ p. refl;
    next_same_is = λ x m. absurd (ground (arith, m));
    first_pops = λ x m. absurd (ground (arith, m));
    counted = λ x m. absurd (ground (arith, m));
  };
  viewed = refl;
}
