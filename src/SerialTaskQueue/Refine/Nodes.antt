-- ===== src/SerialTaskQueue/Refine/Nodes.antt =====
-- `PropCountNodeList` as the list of a queue. The pool of nodes, which gives the address of a new node, is a
-- parameter; the search of `pop_front` has fuel for one node more than the list has.
use btool.Common.{
  ℕ, suc, ◌+◌, ◌<◌, ◌≤◌, ◌≡◌, ◌≢◌, refl, sym, ap, ◌∙◌, subst, Bool, List, [], ◌∷◌, Option, none,
  some, ◌==◌, if◌then◌else◌, length, arith, Bool-cases, inl, inr,
}
use btool.Common.Assoc.{count, lookup}
use btool.PropCountNodeList.{
  Node, PropCountNodeList, push_back, pop_front, reset_prop, remove_prop, clear,
}
use btool.PropCountNodeList.Links.{same, some_unless_nil, Holds}
use btool.PropCountNodeList.Remove.Loop.{others, same-others}
use btool.PropCountNodeList.Push.{pushed}
use btool.PropCountNodeList.Refine.{Run, push_run, pop_run, Represents, Matches}
use btool.PropCountNodeList.Refine.Steps.{pop_front-Matches}
use btool.PropCountNodeList.Refine.Pushes.{push_back-Represents}
use btool.PropCountNodeList.Refine.Resets.{reset_prop-Represents}
use btool.PropCountNodeList.Refine.Removes.{remove_prop-Represents, clear-Represents}
use btool.SerialTaskQueue.{PropList}
use btool.SerialTaskQueue.Runs.{run_list}
use btool.SerialTaskQueue.Refine.{Matched, Simulates}

-- The nodes of a list, by what `m_all_nodes` holds.
unfoldable pub node_count : List (ℕ × List ℕ) → ℕ
node_count [] = 0
node_count ((p, ps) ∷ entries) = length ps + node_count entries

length-others :
    (p : ℕ) (nodes : ℕ → Node) (ids : List ℕ)
    → length ids ≡ length (same p nodes ids) + length (others p nodes ids)
unfolding same others
length-others p nodes [] = refl
length-others p nodes (x ∷ xs) = ground (arith, length-others p nodes xs)

Named : (ℕ → Node) → List ℕ → List (ℕ × List ℕ) → Type 0
Named nodes ids entries =
    (q : ℕ) → same q nodes ids ≢ [] → lookup q entries ≡ some (same q nodes ids)

first_same : (nodes : ℕ → Node) (x : ℕ) (xs : List ℕ) → same (nodes x).prop nodes (x ∷ xs) ≢ []
unfolding same
first_same nodes x xs e = ground (arith, e)

others-Named :
    (p : ℕ) (ps : List ℕ) (nodes : ℕ → Node) (ids : List ℕ) (entries : List (ℕ × List ℕ))
    → Named nodes ids ((p, ps) ∷ entries)
    → Named nodes (others p nodes ids) entries
unfolding Named lookup
others-Named p ps nodes ids entries h q n = elim (Bool-cases (p == q)) [
  | inl c ↦ absurd (n (ground (arith, same-others q p nodes ids, c)))
  | inr c ↦ ground (
    arith,
    c,
    h q (λ e. n (ground (arith, same-others q p nodes ids, c, e))),
    ap some (same-others q p nodes ids),
  )
]

own-length :
    (p : ℕ) (ps : List ℕ) (nodes : ℕ → Node) (ids : List ℕ) (entries : List (ℕ × List ℕ))
    → Named nodes ids ((p, ps) ∷ entries)
    → length (same p nodes ids) ≤ length ps
unfolding Named lookup
own-length p ps nodes ids entries h = by_same (same p nodes ids) refl
  where
    by_same : (s : List ℕ) → same p nodes ids ≡ s → length s ≤ length ps
    by_same [] e = ground arith
    by_same (x ∷ xs) e =
        ground (arith, ap length (some_same (h p (λ i. cons_nil (sym e ∙ i)))), ap length e)
      where
        cons_nil : x ∷ xs ≢ []
        cons_nil i = ground (arith, i)

        some_same :
            (if p == p then some ps else lookup p entries) ≡ some (same p nodes ids)
            → ps ≡ same p nodes ids
        some_same i = ground (arith, i)

-- All the nodes of the queue stand in `m_all_nodes`.
length-node_count :
    (nodes : ℕ → Node) (ids : List ℕ) (entries : List (ℕ × List ℕ))
    → Named nodes ids entries
    → length ids ≤ node_count entries
unfolding Named node_count lookup
length-node_count nodes [] [] h = ground arith
length-node_count nodes (x ∷ xs) [] h = absurd (nothing (h (nodes x).prop (first_same nodes x xs)))
  where
    nothing : none ≡ some (same (nodes x).prop nodes (x ∷ xs)) → ⊥
    nothing e = ground (arith, e)
length-node_count nodes ids ((p, ps) ∷ entries) h = ground (
  arith,
  length-others p nodes ids,
  own-length p ps nodes ids entries h,
  length-node_count nodes (others p nodes ids) entries (others-Named p ps nodes ids entries h),
)

module _ (new_node : PropCountNodeList → ℕ) where
  abbrev pub node_list : PropList PropCountNodeList
  node_list = record {
    push_back = λ p c l. push_back (new_node l) p c l;
    pop_front = λ l. pop_front (suc (node_count l.all_nodes)) l;
    reset_prop = reset_prop;
    remove_prop = remove_prop;
    clear = clear;
  }

  -- The list represents the runs.
  unfoldable pub Shows : PropCountNodeList → List Run → Type 0
  Shows l rs = (ids : List ℕ) × Represents l ids rs

  -- What a pool does: a new node is not null and is not one that is in use.
  abbrev pub IsPool : Type 0
  IsPool =
      (l : PropCountNodeList) (ids : List ℕ)
      → Holds l ids
      → (new_node l ≢ 0) × (count (new_node l) ids ≡ 0)

  push-Shows :
      IsPool
      → (p : ℕ) (c : Bool) (l : PropCountNodeList) (rs : List Run) → Shows l rs
      → Shows (push_back (new_node l) p c l) (push_run p c rs)
  unfolding Shows
  push-Shows pool p c l rs (ids, r) =
      let (some_node, fresh) = pool l ids r.holds in
      (
        pushed (new_node l) p l ids,
        subst
            (λ xs.
              Represents (push_back (new_node l) p c l) (pushed (new_node l) p l ids)
                (push_run p c xs))
            r.viewed (push_back-Represents (new_node l) p c l ids r.holds fresh some_node),
      )

  enough :
      (l : PropCountNodeList) (ids : List ℕ)
      → Holds l ids
      → length ids < suc (node_count l.all_nodes)
  unfolding Named
  enough l ids h = ground (
    arith,
    length-node_count l.nodes ids l.all_nodes (λ q n. h.named q ∙ not_nil (same q l.nodes ids) n),
  )
    where
      not_nil : (s : List ℕ) → s ≢ [] → some_unless_nil s ≡ some s
      not_nil [] n = absurd (n refl)
      not_nil (x ∷ xs) n = refl

  pop-Shows :
      (l : PropCountNodeList) (rs : List Run)
      → Shows l rs
      → Matched Shows (pop_front (suc (node_count l.all_nodes)) l) (pop_run rs)
  unfolding Shows Matched Matches
  pop-Shows l rs (ids, r) =
      of_matches (pop_front (suc (node_count l.all_nodes)) l) (pop_run rs)
        (pop_front-Matches (suc (node_count l.all_nodes)) l ids rs r (enough l ids r.holds))
    where
      of_matches :
          (x : Option (ℕ × PropCountNodeList)) (y : Option (ℕ × List Run))
          → Matches x y
          → Matched Shows x y
      of_matches none none m = tt
      of_matches none (some y) m = m
      of_matches (some x) none m = m
      of_matches (some (p, k)) (some (q, ys)) m = m

  pub node_list-Simulates : IsPool → Simulates node_list run_list Shows
  unfolding Shows
  node_list-Simulates pool = record {
    pushes = push-Shows pool;
    pops_same = pop-Shows;
    resets = λ p l rs (ids, r). (ids, reset_prop-Represents p l ids rs r);
    drops = λ p l rs (ids, r). (others p l.nodes ids, remove_prop-Represents p l ids rs r);
    cleared = λ l rs s. ([], clear-Represents l);
  }
