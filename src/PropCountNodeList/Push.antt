-- ===== src/PropCountNodeList/Push.antt =====
-- `push_back` keeps the links in order: the node goes to the end, or the last one counts one more.
use btool.Common.{
  ℕ, suc, ◌<◌, ◌≡◌, ◌≢◌, refl, sym, ap, ◌∙◌, subst, Bool, true, false, not, ◌&&◌, List, [], ◌∷◌,
  ◌++◌, ◌==◌, if◌then◌else◌, arith, Bool-cases, inl, inr,
}
use btool.Common.Assoc.{count, lookup}
use btool.PropCountNodeList.{
  Node, PropCountNodeList, head_or, last_or, write, emplace_back, can_unless, push_back,
}
use btool.PropCountNodeList.Append.{built, append-Holds}
use btool.PropCountNodeList.Order.{after}
use btool.PropCountNodeList.Links.{
  same, some_unless_nil, Holds, same_cong, none_inside, nodes_named,
}

-- Nodes with the same links and properties.
pub record Alike (nodes nodes' : ℕ → Node) (ids : List ℕ) : Type 0 where
  pub next_alike : (x : ℕ) → (nodes' x).next_list ≡ (nodes x).next_list
  pub pre_alike : (x : ℕ) → (nodes' x).pre_list ≡ (nodes x).pre_list
  pub same_alike : (x : ℕ) → (nodes' x).next_same ≡ (nodes x).next_same
  pub prop_alike : (x : ℕ) → (nodes' x).prop ≡ (nodes x).prop
  pub pops_first :
      (x : ℕ)
      → 0 < count x ids
      → (nodes' x).can_pop ≡ true
      → head_or 0 (same (nodes x).prop nodes ids) ≡ x
  pub still_counted : (x : ℕ) → 0 < count x ids → 0 < (nodes' x).count

pub Alike-Holds :
    (l : PropCountNodeList) (nodes' : ℕ → Node) (ids : List ℕ)
    → Holds l ids
    → Alike l.nodes nodes' ids
    → Holds (record l { nodes = nodes' }) ids
Alike-Holds l nodes' ids h a = record {
  distinct = h.distinct;
  begin_is = h.begin_is;
  end_is = h.end_is;
  next_is = λ x m. a.next_alike x ∙ h.next_is x m;
  pre_is = λ x m. a.pre_alike x ∙ h.pre_is x m;
  named = λ p. h.named p ∙ ap some_unless_nil (sym (kept p));
  next_same_is = λ x m. a.same_alike x ∙ h.next_same_is x m ∙ ap (after x) (sym (kept_at x));
  first_pops = λ x m c. ap (head_or 0) (kept_at x) ∙ a.pops_first x m c;
  counted = a.still_counted;
}
  where
    kept : (p : ℕ) → same p nodes' ids ≡ same p l.nodes ids
    kept p = same_cong p l.nodes nodes' ids (λ x m. a.prop_alike x)

    kept_at : (x : ℕ) → same (nodes' x).prop nodes' ids ≡ same (l.nodes x).prop l.nodes ids
    kept_at x = ap (λ p. same p nodes' ids) (a.prop_alike x) ∙ kept (l.nodes x).prop

counts_more :
    (l : PropCountNodeList) (e : ℕ) (ids : List ℕ)
    → Holds l ids
    → Alike l.nodes (write e (record (l.nodes e) { count = suc (l.nodes e).count }) l.nodes) ids
counts_more l e ids h = record {
  next_alike = λ x. ground (arith, ap (λ k. (l.nodes k).next_list) {x = x} {y = e});
  pre_alike = λ x. ground (arith, ap (λ k. (l.nodes k).pre_list) {x = x} {y = e});
  same_alike = λ x. ground (arith, ap (λ k. (l.nodes k).next_same) {x = x} {y = e});
  prop_alike = λ x. ground (arith, ap (λ k. (l.nodes k).prop) {x = x} {y = e});
  pops_first =
      λ x m c. h.first_pops x m (ground (arith, ap (λ k. (l.nodes k).can_pop) {x = x} {y = e}));
  still_counted = λ x m. ground (arith, h.counted x m);
}

-- The addresses after `push_back`.
abbrev pub pushed : ℕ → ℕ → PropCountNodeList → List ℕ → List ℕ
pushed a prop l ids =
    if not (l.end_node == 0) && ((l.nodes l.end_node).prop == prop) then ids else ids ++ a ∷ []

pub subst₂ :
    {B : Type 0} (F : PropCountNodeList → B → Type 0) {k k' : PropCountNodeList} {xs ys : B}
    → k ≡ k'
    → xs ≡ ys
    → F k xs
    → F k' ys
subst₂ F {k' = k'} {xs = xs} e i x = subst (F k') i (subst (λ k. F k xs) e x)

module _ (a p : ℕ) (can : Bool) (l : PropCountNodeList) (ids : List ℕ) (h : Holds l ids)
    (fresh : count a ids ≡ 0) (some_node : a ≢ 0) where
  pub first_push : l.end_node ≡ 0 → ids ≡ []
  first_push e = none_inside ids h.distinct (sym h.end_is ∙ e)

  can_first : can_unless (lookup p l.all_nodes) can ≡ true → same p l.nodes ids ≡ []
  can_first e = when_none (same p l.nodes ids) (subst (λ o. can_unless o can ≡ true) (h.named p) e)
    where
      when_none : (ys : List ℕ) → can_unless (some_unless_nil ys) can ≡ true → ys ≡ []
      when_none [] e = refl
      when_none (y ∷ ys) e = absurd (ground (arith, e))

  abbrev pub appended : Bool → PropCountNodeList
  appended c = record {
    nodes = built a p c l ids h fresh some_node;
    begin_node = head_or 0 (ids ++ a ∷ []);
    end_node = a;
    all_nodes = emplace_back p a l.all_nodes;
  }

  pub push_first : l.end_node ≡ 0 → push_back a p can l ≡ appended can
  unfolding push_back same
  push_first e = rw (e, first_push e) refl

  none_of : ids ≡ [] → same p l.nodes ids ≡ []
  unfolding same
  none_of e = ap (same p l.nodes) e

  begin_kept : l.end_node ≢ 0 → l.begin_node ≡ head_or 0 (ids ++ a ∷ [])
  begin_kept n = h.begin_is ∙ still ids (λ e. n (h.end_is ∙ ap (last_or 0) e))
    where
      still : (ys : List ℕ) → ys ≢ [] → head_or 0 ys ≡ head_or 0 (ys ++ a ∷ [])
      still [] n = absurd (n refl)
      still (y ∷ ys) n = refl

  pub push_apart :
      (l.end_node == 0) ≡ false
      → ((l.nodes l.end_node).prop == p) ≡ false
      → push_back a p can l ≡ appended (can_unless (lookup p l.all_nodes) can)
  unfolding push_back
  push_apart e apart =
      rw
        (
          e,
          apart,
          nodes_named p l.all_nodes (same p l.nodes ids) (h.named p),
          sym (begin_kept (ground (arith, e))),
          sym h.end_is,
        )
        refl

  joined :
      Holds
        (record l {
          nodes =
              write l.end_node
                (record (l.nodes l.end_node) { count = suc (l.nodes l.end_node).count })
                l.nodes;
        })
        ids
  joined =
      Alike-Holds l
        (write l.end_node (record (l.nodes l.end_node) { count = suc (l.nodes l.end_node).count })
          l.nodes)
        ids h (counts_more l l.end_node ids h)

  pub push_joins :
      (l.end_node == 0) ≡ false
      → ((l.nodes l.end_node).prop == p) ≡ true
      → push_back a p can l ≡ record l {
        nodes =
            write l.end_node
              (record (l.nodes l.end_node) { count = suc (l.nodes l.end_node).count })
              l.nodes;
      }
  unfolding push_back
  push_joins e joins = rw (e, joins) refl

  pub pushed_joins :
      (l.end_node == 0) ≡ false → ((l.nodes l.end_node).prop == p) ≡ true → ids ≡ pushed a p l ids
  pushed_joins e joins = rw (e, joins) refl

  pub pushed_first : (l.end_node == 0) ≡ true → ids ++ a ∷ [] ≡ pushed a p l ids
  pushed_first e = rw (e) refl

  pub pushed_apart : ((l.nodes l.end_node).prop == p) ≡ false → ids ++ a ∷ [] ≡ pushed a p l ids
  pushed_apart e = ground (arith, e)

  -- `push_back` keeps what holds of the nodes, for a new node that is not in the list and not null.
  pub push_back-Holds : Holds (push_back a p can l) (pushed a p l ids)
  push_back-Holds = elim (Bool-cases (l.end_node == 0)) [
    | inl e ↦ subst₂ Holds (sym (push_first (ground (arith, e)))) (pushed_first e) (
        append-Holds a p can l ids h fresh some_node
          (λ c. none_of (first_push (ground (arith, e)))))
    | inr e ↦ elim (Bool-cases ((l.nodes l.end_node).prop == p)) [
      | inl joins ↦ subst₂ Holds (sym (push_joins e joins)) (pushed_joins e joins) joined
      | inr apart ↦ subst₂ Holds (sym (push_apart e apart)) (pushed_apart apart) (
          append-Holds a p (can_unless (lookup p l.all_nodes) can) l ids h fresh some_node
            can_first)
    ]
  ]
