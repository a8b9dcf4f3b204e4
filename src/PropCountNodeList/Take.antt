-- ===== src/PropCountNodeList/Take.antt =====
-- `unlink`, by which `pop_front` takes out a node that counts nothing more and stands first of its property.
use btool.Common.{
  ℕ, ◌<◌, ◌≡◌, ◌≢◌, sym, ap, ◌∙◌, subst, true, List, [], ◌∷◌, ◌==◌, if◌then◌else◌, arith, ◌-◌,
}
use native.Mathlib.Decide.{ℕ_discrete}
use btool.Common.Assoc.{count, remove, count-remove, lookup, insert, erase}
use btool.PropCountNodeList.{Node, PropCountNodeList, head_or, last_or, write, unlink, drop_first}
use btool.PropCountNodeList.Order.{
  Distinct, after, before, head-remove, after-remove, before-remove, last-remove, after_iff_before,
  remove_absent, after_absent, after_not_head, remove-Distinct,
}
use btool.PropCountNodeList.Links.{
  same, some_unless_nil, Holds, count-same, same-Distinct, same_cong, same-remove, nodes_named,
  drop_is, after_is, shorter_of,
}

module _ (y : ℕ) (l : PropCountNodeList) (ids : List ℕ) (h : Holds l ids) (inside : 0 < count y ids)
    (some_y : y ≢ 0) (pops : (l.nodes y).can_pop ≡ true) where
  abbrev pub spent : Node
  spent = record (l.nodes y) { count = (l.nodes y).count - 1 }

  abbrev pub reduced : PropCountNodeList
  reduced = record l { nodes = write y spent l.nodes }

  abbrev pub left : ℕ → Node
  left = (unlink y reduced).nodes

  abbrev next : ℕ
  next = after y ids

  abbrev pre : ℕ
  pre = before 0 y ids

  pub left_prop : (x : ℕ) → (left x).prop ≡ (l.nodes x).prop
  unfolding unlink
  left_prop x = ground (
    arith,
    ap (λ k. (l.nodes k).prop) {x = x} {y = y},
    ap (λ k. (l.nodes k).prop) {x = x} {y = (l.nodes y).pre_list},
    ap (λ k. (l.nodes k).prop) {x = x} {y = (l.nodes y).next_list},
    ap (λ k. (l.nodes k).prop) {x = x} {y = (l.nodes y).next_same},
  )

  left_next :
      (x : ℕ)
      → x ≢ 0
      → x ≢ y
      → (left x).next_list ≡ (if x == pre then next else (l.nodes x).next_list)
  unfolding unlink
  left_next x n ne = ground (
    arith,
    n,
    ne,
    h.next_is y inside,
    h.pre_is y inside,
    ap (λ k. (l.nodes k).next_list) {x = x} {y = (l.nodes y).next_list},
    ap (λ k. (l.nodes k).next_list) {x = x} {y = (l.nodes y).next_same},
  )

  left_back :
      (x : ℕ)
      → x ≢ 0
      → x ≢ y
      → (left x).pre_list ≡ (if x == next then pre else (l.nodes x).pre_list)
  unfolding unlink
  left_back x n ne = ground (
    arith,
    n,
    ne,
    h.next_is y inside,
    h.pre_is y inside,
    ap (λ k. (l.nodes k).pre_list) {x = x} {y = (l.nodes y).pre_list},
    ap (λ k. (l.nodes k).pre_list) {x = x} {y = (l.nodes y).next_same},
  )

  left_same : (x : ℕ) → x ≢ y → (left x).next_same ≡ (l.nodes x).next_same
  unfolding unlink
  left_same x ne = ground (
    arith,
    ne,
    ap (λ k. (l.nodes k).next_same) {x = x} {y = (l.nodes y).pre_list},
    ap (λ k. (l.nodes k).next_same) {x = x} {y = (l.nodes y).next_list},
    ap (λ k. (l.nodes k).next_same) {x = x} {y = (l.nodes y).next_same},
  )

  pub left_can : (x : ℕ) → x ≢ y → (left x).can_pop ≡ (l.nodes x).can_pop
  unfolding unlink
  left_can x ne = ground (
    arith,
    ne,
    ap (λ k. (l.nodes k).can_pop) {x = x} {y = (l.nodes y).pre_list},
    ap (λ k. (l.nodes k).can_pop) {x = x} {y = (l.nodes y).next_list},
    ap (λ k. (l.nodes k).can_pop) {x = x} {y = (l.nodes y).next_same},
  )

  pub left_count : (x : ℕ) → x ≢ y → (left x).count ≡ (l.nodes x).count
  unfolding unlink
  left_count x ne = ground (
    arith,
    ne,
    ap (λ k. (l.nodes k).count) {x = x} {y = (l.nodes y).pre_list},
    ap (λ k. (l.nodes k).count) {x = x} {y = (l.nodes y).next_list},
    ap (λ k. (l.nodes k).count) {x = x} {y = (l.nodes y).next_same},
  )

  same_left : (q : ℕ) → same q left (remove y ids) ≡ remove y (same q l.nodes ids)
  same_left q =
      same_cong q l.nodes left (remove y ids) (λ x m. left_prop x) ∙ same-remove q y l.nodes ids

  same_other : (q : ℕ) → q ≢ (l.nodes y).prop → same q left (remove y ids) ≡ same q l.nodes ids
  same_other q n =
      same_left q
      ∙ remove_absent y (same q l.nodes ids) (ground (arith, count-same q y l.nodes ids, n))

  in_old : (x : ℕ) → 0 < count x (remove y ids) → 0 < count x ids
  in_old x m = ground (arith, m, count-remove y x ids)

  pub not_y : (x : ℕ) → 0 < count x (remove y ids) → x ≢ y
  not_y x m e = ground (arith, m, e, count-remove y x ids)

  not_null : (x : ℕ) → 0 < count x (remove y ids) → x ≢ 0
  not_null x m e = ground (arith, in_old x m, ap (λ k. count k ids) e, h.distinct.no_null)

  next_left : (x : ℕ) → 0 < count x (remove y ids) → (left x).next_list ≡ after x (remove y ids)
  next_left x m = ground (
    arith,
    left_next x (not_null x m) (not_y x m),
    h.next_is x (in_old x m),
    after-remove x y ids h.distinct some_y (not_y x m),
    after_iff_before 0 x y ids h.distinct some_y h.distinct.no_null (in_old x m) inside,
  )

  pre_left : (x : ℕ) → 0 < count x (remove y ids) → (left x).pre_list ≡ before 0 x (remove y ids)
  pre_left x m = ground (
    arith,
    left_back x (not_null x m) (not_y x m),
    h.pre_is x (in_old x m),
    before-remove 0 x y ids h.distinct some_y (not_y x m),
    after_iff_before 0 y x ids h.distinct (not_null x m) h.distinct.no_null inside (in_old x m),
    some_y,
  )

  begin_left : (unlink y reduced).begin_node ≡ head_or 0 (remove y ids)
  unfolding unlink
  begin_left = ground (arith, head-remove y ids h.distinct some_y, h.begin_is, h.next_is y inside)

  end_left : (unlink y reduced).end_node ≡ last_or 0 (remove y ids)
  unfolding unlink
  end_left =
      ground (arith, last-remove 0 y ids h.distinct some_y, h.end_is, h.pre_is y inside, some_y)

  abbrev own : List ℕ
  own = same (l.nodes y).prop l.nodes ids

  own-Distinct : Distinct own
  own-Distinct = same-Distinct (l.nodes y).prop l.nodes ids h.distinct

  own_head : head_or 0 own ≡ y
  own_head = h.first_pops y inside pops

  own_rest : same (l.nodes y).prop left (remove y ids) ≡ drop_first own
  own_rest = same_left (l.nodes y).prop ∙ drop_is y own own-Distinct own_head

  all_left : (unlink y reduced).all_nodes ≡ (
      if head_or 0 (drop_first own) == 0
      then erase (l.nodes y).prop l.all_nodes
      else insert (l.nodes y).prop (drop_first own) l.all_nodes)
  unfolding unlink
  all_left = ground (
    arith,
    h.next_same_is y inside,
    after_is y own own_head some_y,
    ap (λ s. insert (l.nodes y).prop (drop_first s) l.all_nodes)
        (nodes_named (l.nodes y).prop l.all_nodes own (h.named (l.nodes y).prop)),
  )

  all_is :
      (q : ℕ)
      → lookup q (unlink y reduced).all_nodes
        ≡ (if (l.nodes y).prop == q then some_unless_nil (drop_first own) else lookup q l.all_nodes)
  all_is q =
      ap (lookup q) all_left ∙ shorter_of (l.nodes y).prop q (drop_first own) l.all_nodes no_null
    where
      no_null : count 0 (drop_first own) ≡ 0
      no_null =
          sym (ap (count 0) (drop_is y own own-Distinct own_head))
          ∙ (remove-Distinct y own own-Distinct).no_null

  named_left :
      (q : ℕ) → lookup q (unlink y reduced).all_nodes ≡ some_unless_nil (same q left (remove y ids))
  named_left q = elim (ℕ_discrete q (l.nodes y).prop) [
    | yes e ↦
        subst
          (λ k.
            lookup k (unlink y reduced).all_nodes ≡ some_unless_nil (same k left (remove y ids)))
          (sym e) (ground (arith, all_is (l.nodes y).prop, ap some_unless_nil own_rest))
    | no n ↦ ground (arith, all_is q, n, h.named q) ∙ ap some_unless_nil (sym (same_other q n))
  ]

  after_same :
      (x q : ℕ) → x ≢ y → after x (remove y (same q l.nodes ids)) ≡ after x (same q l.nodes ids)
  unfolding after
  after_same x q ne = ground (
    arith,
    after-remove x y (same q l.nodes ids) (same-Distinct q l.nodes ids h.distinct) some_y ne,
    never_after (same q l.nodes ids) (same-Distinct q l.nodes ids h.distinct) (
        ground (
          arith,
          count-same q y l.nodes ids,
          ap (λ k. head_or 0 (same k l.nodes ids)) {x = q} {y = (l.nodes y).prop},
          own_head,
        )),
  )
    where
      never_after : (s : List ℕ) → Distinct s → (count y s ≢ 0 → head_or 0 s ≡ y) → after x s ≢ y
      never_after [] d f e = some_y (sym e)
      never_after (z ∷ zs) d f e = elim (ℕ_discrete (count y (z ∷ zs)) 0) [
        | yes c ↦ after_absent x y (z ∷ zs) c some_y e
        | no c ↦ after_not_head x z zs d (λ n. some_y (sym (f c) ∙ n)) (e ∙ sym (f c))
      ]

  next_same_left :
      (x : ℕ)
      → 0 < count x (remove y ids)
      → (left x).next_same ≡ after x (same (left x).prop left (remove y ids))
  next_same_left x m =
      left_same x (not_y x m)
      ∙ h.next_same_is x (in_old x m)
      ∙ sym (after_same x (l.nodes x).prop (not_y x m))
      ∙ ap (after x) (sym (same_left (l.nodes x).prop))
      ∙ ap (λ q. after x (same q left (remove y ids))) (sym (left_prop x))

  first_left :
      (x : ℕ)
      → 0 < count x (remove y ids)
      → (left x).can_pop ≡ true
      → head_or 0 (same (left x).prop left (remove y ids)) ≡ x
  first_left x m c =
      ap (λ q. head_or 0 (same q left (remove y ids))) (left_prop x)
      ∙ ap (head_or 0) (same_other (l.nodes x).prop other)
      ∙ head_x
    where
      head_x : head_or 0 (same (l.nodes x).prop l.nodes ids) ≡ x
      head_x = h.first_pops x (in_old x m) (sym (left_can x (not_y x m)) ∙ c)

      other : (l.nodes x).prop ≢ (l.nodes y).prop
      other e = not_y x m (sym head_x ∙ ap (λ q. head_or 0 (same q l.nodes ids)) e ∙ own_head)

  -- Taking out the node that `pop_front` has found keeps what holds of the others.
  pub unlink-Holds : Holds (unlink y reduced) (remove y ids)
  unlink-Holds = record {
    distinct = remove-Distinct y ids h.distinct;
    begin_is = begin_left;
    end_is = end_left;
    next_is = next_left;
    pre_is = pre_left;
    named = named_left;
    next_same_is = next_same_left;
    first_pops = first_left;
    counted = λ x m. ground (arith, left_count x (not_y x m), h.counted x (in_old x m));
  }
