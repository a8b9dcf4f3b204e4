-- ===== src/PropCountNodeList/Append.antt =====
-- `construct` at the end of the list, which `push_back` does with a node for another property than the last one.
use btool.Common.{
  ℕ, ◌<◌, ◌≡◌, ◌≢◌, refl, sym, ap, ◌∙◌, subst, Bool, true, List, [], ◌∷◌, ◌++◌, some, ◌==◌,
  if◌then◌else◌, arith,
}
use native.Mathlib.Decide.{ℕ_discrete}
use btool.Common.Assoc.{count, count-append, lookup, lookup-insert}
use btool.PropCountNodeList.{
  Node, PropCountNodeList, head_or, last_or, construct, nodes_of, emplace_back,
}
use btool.PropCountNodeList.Order.{
  after, after-append, before-append, after_end, append-Distinct, last-append,
}
use btool.PropCountNodeList.Links.{
  same, some_unless_nil, Holds, count-same, same-Distinct, same-append, same_cong, count-last_or,
  nodes_named, some-append,
}

-- The nodes of `construct` at the end of the list.
module _ (a p : ℕ) (can : Bool) (l : PropCountNodeList) (ids : List ℕ) (h : Holds l ids)
    (fresh : count a ids ≡ 0) (some_node : a ≢ 0) where
  abbrev pub built : ℕ → Node
  built = construct a p (last_or 0 (same p l.nodes ids)) (last_or 0 ids) can l.nodes

  last_same_old : last_or 0 (same p l.nodes ids) ≢ a
  last_same_old e = ground (
    arith,
    count-last_or (same p l.nodes ids),
    e,
    count-same p a l.nodes ids,
    ap (λ k. count k (same p l.nodes ids)) e,
    fresh,
    some_node,
  )

  last_old : last_or 0 ids ≢ a
  last_old e = ground (arith, count-last_or ids, e, ap (λ k. count k ids) e, fresh, some_node)

  pub built_prop : (x : ℕ) → (built x).prop ≡ (if x == a then p else (l.nodes x).prop)
  unfolding construct
  built_prop x = ground (
    arith,
    last_same_old,
    last_old,
    ap (λ k. (l.nodes k).prop) {x = x} {y = last_or 0 ids},
    ap (λ k. (l.nodes k).prop) {x = x} {y = last_or 0 (same p l.nodes ids)},
  )

  built_next :
      (x : ℕ)
      → x ≢ 0
      → (built x).next_list
        ≡ (if x == a then 0 else if x == last_or 0 ids then a else (l.nodes x).next_list)
  unfolding construct
  built_next x n = ground (
    arith,
    n,
    last_same_old,
    last_old,
    ap (λ k. (l.nodes k).next_list) {x = x} {y = last_or 0 (same p l.nodes ids)},
  )

  built_pre :
      (x : ℕ) → (built x).pre_list ≡ (if x == a then last_or 0 ids else (l.nodes x).pre_list)
  unfolding construct
  built_pre x = ground (
    arith,
    last_same_old,
    last_old,
    ap (λ k. (l.nodes k).pre_list) {x = x} {y = last_or 0 ids},
    ap (λ k. (l.nodes k).pre_list) {x = x} {y = last_or 0 (same p l.nodes ids)},
  )

  built_same :
      (x : ℕ)
      → x ≢ 0
      → (built x).next_same ≡ (
          if x == a
          then 0
          else if x == last_or 0 (same p l.nodes ids)
          then a
          else (l.nodes x).next_same)
  unfolding construct
  built_same x n = ground (
    arith,
    n,
    last_same_old,
    last_old,
    ap (λ k. (l.nodes k).next_same) {x = x} {y = last_or 0 ids},
  )

  pub built_can : (x : ℕ) → (built x).can_pop ≡ (if x == a then can else (l.nodes x).can_pop)
  unfolding construct
  built_can x = ground (
    arith,
    last_same_old,
    last_old,
    ap (λ k. (l.nodes k).can_pop) {x = x} {y = last_or 0 ids},
    ap (λ k. (l.nodes k).can_pop) {x = x} {y = last_or 0 (same p l.nodes ids)},
  )

  pub built_count : (x : ℕ) → (built x).count ≡ (if x == a then 1 else (l.nodes x).count)
  unfolding construct
  built_count x = ground (
    arith,
    last_same_old,
    last_old,
    ap (λ k. (l.nodes k).count) {x = x} {y = last_or 0 ids},
    ap (λ k. (l.nodes k).count) {x = x} {y = last_or 0 (same p l.nodes ids)},
  )

  -- The nodes of a property after the new one is there.
  same_built :
      (q : ℕ)
      → same q built (ids ++ a ∷ [])
        ≡ (if p == q then same q l.nodes ids ++ a ∷ [] else same q l.nodes ids)
  same_built q = ground (
    arith,
    same-append q a built ids,
    built_prop a,
    same_cong q l.nodes built ids
        (λ x m. ground (arith, built_prop x, m, fresh, ap (λ k. count k ids) {x = x} {y = a})),
  )

  pub in_old : (x : ℕ) → 0 < count x (ids ++ a ∷ []) → x ≢ a → 0 < count x ids
  unfolding count
  in_old x m n = ground (arith, m, n, count-append x ids (a ∷ []))

  not_null : (x : ℕ) → 0 < count x (ids ++ a ∷ []) → x ≢ 0
  not_null x m e = ground (
    arith,
    m,
    ap (λ k. count k (ids ++ a ∷ [])) e,
    (append-Distinct a ids h.distinct fresh some_node).no_null,
  )

  fresh_same : (q : ℕ) → count a (same q l.nodes ids) ≡ 0
  fresh_same q = ground (arith, count-same q a l.nodes ids, fresh)

  next_at_new : (q : ℕ) → q ≡ p → (built a).next_same ≡ after a (same q built (ids ++ a ∷ []))
  next_at_new q e = ground (
    arith,
    built_same a some_node,
    ap (after a) (same_built q),
    e,
    after_end a (same q l.nodes ids) (fresh_same q),
  )

  next_at_old :
      (x : ℕ)
      → 0 < count x ids
      → x ≢ a
      → x ≢ 0
      → (built x).next_same ≡ after x (same (l.nodes x).prop built (ids ++ a ∷ []))
  next_at_old x m n some_x = ground (
    arith,
    built_same x some_x,
    n,
    ap (after x) (same_built (l.nodes x).prop),
    h.next_same_is x m,
    after-append a x (same (l.nodes x).prop l.nodes ids)
        (same-Distinct (l.nodes x).prop l.nodes ids h.distinct) (fresh_same (l.nodes x).prop),
    count-same (l.nodes x).prop x l.nodes ids,
    count-same p x l.nodes ids,
    count-last_or (same p l.nodes ids),
    ap (λ k. count k (same p l.nodes ids)) {x = x} {y = last_or 0 (same p l.nodes ids)},
    ap (λ k. last_or 0 (same k l.nodes ids)) {x = p} {y = (l.nodes x).prop},
    m,
  )

  next_built :
      (x : ℕ)
      → 0 < count x (ids ++ a ∷ [])
      → (built x).next_same ≡ after x (same (built x).prop built (ids ++ a ∷ []))
  next_built x m = elim (ℕ_discrete x a) [
    | yes e ↦
        subst (λ k. (built k).next_same ≡ after k (same (built k).prop built (ids ++ a ∷ [])))
          (sym e) (next_at_new (built a).prop (ground (arith, built_prop a)))
    | no n ↦
        next_at_old x (in_old x m n) n (not_null x m)
        ∙ ap (λ q. after x (same q built (ids ++ a ∷ []))) (sym (ground (arith, built_prop x, n)))
  ]

  head-append : (ys : List ℕ) → ys ≢ [] → head_or 0 (ys ++ a ∷ []) ≡ head_or 0 ys
  head-append [] n = absurd (n refl)
  head-append (y ∷ ys) n = refl

  named_built :
      (q : ℕ)
      → lookup q (emplace_back p a l.all_nodes) ≡ some_unless_nil (same q built (ids ++ a ∷ []))
  named_built q = ground (
    arith,
    lookup-insert p q (nodes_of p l.all_nodes ++ a ∷ []) l.all_nodes,
    h.named q,
    ap some_unless_nil (same_built q),
    ap (λ s. some (s ++ a ∷ [])) (nodes_named p l.all_nodes (same p l.nodes ids) (h.named p)),
    some-append (same q l.nodes ids) a,
    ap (λ k. some (same k l.nodes ids ++ a ∷ [])) {x = p} {y = q},
  )

  first_new :
      (q : ℕ) → q ≡ p → same p l.nodes ids ≡ [] → head_or 0 (same q built (ids ++ a ∷ [])) ≡ a
  first_new q e none_yet = ground (
    arith,
    ap (head_or 0) (same_built q),
    e,
    ap (λ s. head_or 0 (s ++ a ∷ [])) none_yet,
    ap (λ k. head_or 0 (same k l.nodes ids ++ a ∷ [])) e,
  )

  first_old :
      (x : ℕ)
      → 0 < count x ids
      → (l.nodes x).can_pop ≡ true
      → head_or 0 (same (l.nodes x).prop built (ids ++ a ∷ [])) ≡ x
  unfolding count
  first_old x m c = ground (
    arith,
    ap (head_or 0) (same_built (l.nodes x).prop),
    head-append (same (l.nodes x).prop l.nodes ids)
        (λ e. ground (arith, ap (count x) e, count-same (l.nodes x).prop x l.nodes ids, m)),
    h.first_pops x m c,
  )

  first_built :
      (can ≡ true → same p l.nodes ids ≡ [])
      → (x : ℕ) → 0 < count x (ids ++ a ∷ [])
      → (built x).can_pop ≡ true
      → head_or 0 (same (built x).prop built (ids ++ a ∷ [])) ≡ x
  first_built first x m c = elim (ℕ_discrete x a) [
    | yes e ↦
        ap (λ k. head_or 0 (same (built k).prop built (ids ++ a ∷ []))) e
        ∙ first_new (built a).prop (ground (arith, built_prop a))
            (first (ground (arith, built_can x, e, c)))
        ∙ sym e
    | no n ↦
        ap (λ q. head_or 0 (same q built (ids ++ a ∷ []))) (ground (arith, built_prop x, n))
        ∙ first_old x (in_old x m n) (ground (arith, built_can x, n, c))
  ]

  pub append-Holds :
      (can ≡ true → same p l.nodes ids ≡ [])
      → Holds
          (record {
            nodes = built;
            begin_node = head_or 0 (ids ++ a ∷ []);
            end_node = a;
            all_nodes = emplace_back p a l.all_nodes;
          })
          (ids ++ a ∷ [])
  append-Holds first = record {
    distinct = append-Distinct a ids h.distinct fresh some_node;
    begin_is = refl;
    end_is = sym (last-append 0 a ids);
    next_is = λ x m. ground (
      arith,
      built_next x (not_null x m),
      after-append a x ids h.distinct fresh,
      in_old x m,
      h.next_is x,
      after_end a ids fresh,
    );
    pre_is =
        λ x m. ground (arith, built_pre x, before-append 0 a x ids fresh, in_old x m, h.pre_is x);
    named = named_built;
    next_same_is = next_built;
    first_pops = first_built first;
    counted = λ x m. ground (arith, built_count x, h.counted x, in_old x m);
  }
