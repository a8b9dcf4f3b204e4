-- ===== src/PropCountNodeList/Remove.antt =====
-- `remove_prop`: each node of the property is taken out of the queue, the ends being compared while they are of it.
pub mod Loop
use btool.Common.{
  ℕ, zero, suc, ◌+◌, ◌<◌, ◌≤◌, ◌≡◌, ◌≢◌, refl, sym, ap, ◌∙◌, Bool, true, false, not, ◌&&◌, ◌||◌,
  List, [], ◌∷◌, ◌==◌, if◌then◌else◌, arith,
}
use btool.Common.Assoc.{count, remove, count-remove}
use btool.PropCountNodeList.{
  Node, PropCountNodeList, head_or, last_or, write, set_next_list, set_pre_list, remove_node,
}
use btool.PropCountNodeList.Order.{
  Distinct, after, before, count-last, head-remove, after-remove, before-remove, last-remove,
  after_iff_before, remove-Distinct, tail-Distinct, head_absent,
}

-- The queue of the nodes alone.
pub record Linked (l : PropCountNodeList) (ids : List ℕ) : Type 0 where
  pub distinct : Distinct ids
  pub begin_is : l.begin_node ≡ head_or 0 ids
  pub end_is : l.end_node ≡ last_or 0 ids
  pub next_is : (x : ℕ) → 0 < count x ids → (l.nodes x).next_list ≡ after x ids
  pub pre_is : (x : ℕ) → 0 < count x ids → (l.nodes x).pre_list ≡ before 0 x ids

after_last : (x y : ℕ) (ids : List ℕ) → Distinct ids → last_or 0 ids ≡ y → after y ids ≡ 0
unfolding after
after_last x y [] d e = refl
after_last x y (z ∷ []) d e = ground (arith, e)
after_last x y (z ∷ w ∷ ws) d e = ground (
  arith,
  after_last x y (w ∷ ws) (tail-Distinct d) e,
  last_inside w ws,
  ap (λ k. count k (w ∷ ws)) e,
  ap (λ k. count k (w ∷ ws)) {x = z} {y = y},
  head_absent d,
)
  where
    last_inside : (w : ℕ) (ws : List ℕ) → 0 < count (last_or w ws) (w ∷ ws)
    last_inside w ws = count-last w ws

before_head : (y : ℕ) (ids : List ℕ) → head_or 0 ids ≡ y → before 0 y ids ≡ 0
unfolding before
before_head y [] e = refl
before_head y (z ∷ zs) e = ground (arith, e)

abbrev pub is_of : ℕ → ℕ → (ℕ → Node) → Bool
is_of p x nodes = not (x == 0) && ((nodes x).prop == p)

-- Nodes that differ in their places in the queue only.
pub record Relinked (nodes nodes' : ℕ → Node) : Type 0 where
  pub prop_kept : (x : ℕ) → (nodes' x).prop ≡ (nodes x).prop
  pub same_kept : (x : ℕ) → (nodes' x).next_same ≡ (nodes x).next_same
  pub can_kept : (x : ℕ) → (nodes' x).can_pop ≡ (nodes x).can_pop
  pub count_kept : (x : ℕ) → (nodes' x).count ≡ (nodes x).count

pub refl-Relinked : (nodes : ℕ → Node) → Relinked nodes nodes
refl-Relinked nodes = record {
  prop_kept = λ x. refl;
  same_kept = λ x. refl;
  can_kept = λ x. refl;
  count_kept = λ x. refl;
}

pub trans-Relinked :
    {nodes nodes' nodes'' : ℕ → Node}
    → Relinked nodes nodes'
    → Relinked nodes' nodes''
    → Relinked nodes nodes''
trans-Relinked r s = record {
  prop_kept = λ x. s.prop_kept x ∙ r.prop_kept x;
  same_kept = λ x. s.same_kept x ∙ r.same_kept x;
  can_kept = λ x. s.can_kept x ∙ r.can_kept x;
  count_kept = λ x. s.count_kept x ∙ r.count_kept x;
}

set_next_list-Relinked : (q v : ℕ) (nodes : ℕ → Node) → Relinked nodes (set_next_list q v nodes)
set_next_list-Relinked q v nodes = record {
  prop_kept = λ x. ground (arith, ap (λ k. (nodes k).prop) {x = x} {y = q});
  same_kept = λ x. ground (arith, ap (λ k. (nodes k).next_same) {x = x} {y = q});
  can_kept = λ x. ground (arith, ap (λ k. (nodes k).can_pop) {x = x} {y = q});
  count_kept = λ x. ground (arith, ap (λ k. (nodes k).count) {x = x} {y = q});
}

set_pre_list-Relinked : (q v : ℕ) (nodes : ℕ → Node) → Relinked nodes (set_pre_list q v nodes)
set_pre_list-Relinked q v nodes = record {
  prop_kept = λ x. ground (arith, ap (λ k. (nodes k).prop) {x = x} {y = q});
  same_kept = λ x. ground (arith, ap (λ k. (nodes k).next_same) {x = x} {y = q});
  can_kept = λ x. ground (arith, ap (λ k. (nodes k).can_pop) {x = x} {y = q});
  count_kept = λ x. ground (arith, ap (λ k. (nodes k).count) {x = x} {y = q});
}

if-Relinked :
    {nodes left right : ℕ → Node} (b : Bool)
    → Relinked nodes left
    → Relinked nodes right
    → Relinked nodes (if b then left else right)
if-Relinked true r s = r
if-Relinked false r s = s

-- Taking one node out changes nothing but places.
pub remove_node-Relinked :
    (p y : ℕ) (b c : Bool) (l : PropCountNodeList)
    → Relinked l.nodes (remove_node p y (b, c, l)).2.nodes
unfolding remove_node
remove_node-Relinked p y b c l =
    let pre = (l.nodes y).pre_list in
    let next = (l.nodes y).next_list in
    let linked = set_pre_list next pre (set_next_list pre next l.nodes) in
    let at_begin = b && (y == l.begin_node) in
    let from_begin = if at_begin then set_pre_list next 0 linked else linked in
    let first : Relinked l.nodes linked =
      trans-Relinked (set_next_list-Relinked pre next l.nodes)
        (set_pre_list-Relinked next pre (set_next_list pre next l.nodes)) in
    let second : Relinked l.nodes from_begin =
      if-Relinked at_begin (trans-Relinked first (set_pre_list-Relinked next 0 linked)) first in
    if-Relinked (c && (y == l.end_node))
      (trans-Relinked second (set_next_list-Relinked pre 0 from_begin)) second

module _ (p y : ℕ) (l : PropCountNodeList) (ids : List ℕ) (h : Linked l ids)
    (inside : 0 < count y ids) (some_y : y ≢ 0) (own : (l.nodes y).prop ≡ p) where
  abbrev pub out : Bool × Bool × PropCountNodeList
  out = remove_node p y (is_of p l.begin_node l.nodes, is_of p l.end_node l.nodes, l)

  abbrev pub out_list : PropCountNodeList
  out_list = out.2

  abbrev next : ℕ
  next = after y ids

  abbrev pre : ℕ
  pre = before 0 y ids

  at_begin : (is_of p l.begin_node l.nodes && (y == l.begin_node)) ≡ (y == l.begin_node)
  at_begin = ground (arith, own, some_y, ap (λ k. (l.nodes k).prop) {x = y} {y = l.begin_node})

  at_end : (is_of p l.end_node l.nodes && (y == l.end_node)) ≡ (y == l.end_node)
  at_end = ground (arith, own, some_y, ap (λ k. (l.nodes k).prop) {x = y} {y = l.end_node})

  pub out-Relinked : Relinked l.nodes out_list.nodes
  out-Relinked =
      remove_node-Relinked p y (is_of p l.begin_node l.nodes) (is_of p l.end_node l.nodes) l

  out_prop : (x : ℕ) → (out_list.nodes x).prop ≡ (l.nodes x).prop
  out_prop x = out-Relinked.prop_kept x

  out_next :
      (x : ℕ)
      → x ≢ 0
      → x ≢ y
      → (out_list.nodes x).next_list ≡ (if x == pre then next else (l.nodes x).next_list)
  unfolding remove_node
  out_next x n ne = ground (
    arith,
    n,
    ne,
    at_end,
    at_begin,
    h.next_is y inside,
    h.pre_is y inside,
    h.end_is,
    after_last x y ids h.distinct,
    ap (λ k. (l.nodes k).next_list) {x = x} {y = (l.nodes y).next_list},
  )

  out_pre :
      (x : ℕ)
      → x ≢ 0
      → x ≢ y
      → (out_list.nodes x).pre_list ≡ (if x == next then pre else (l.nodes x).pre_list)
  unfolding remove_node
  out_pre x n ne = ground (
    arith,
    n,
    ne,
    at_end,
    at_begin,
    h.next_is y inside,
    h.pre_is y inside,
    h.begin_is,
    before_head y ids,
    ap (λ k. (l.nodes k).pre_list) {x = x} {y = (l.nodes y).pre_list},
  )

  out_begin : out_list.begin_node ≡ head_or 0 (remove y ids)
  unfolding remove_node
  out_begin =
      ground (arith, at_begin, head-remove y ids h.distinct some_y, h.begin_is, h.next_is y inside)

  out_end : out_list.end_node ≡ last_or 0 (remove y ids)
  unfolding remove_node
  out_end =
      ground
        (arith, at_end, last-remove 0 y ids h.distinct some_y, h.end_is, h.pre_is y inside, some_y)

  -- The ends are compared as long as they are of the property.
  pub begin_compared : out.0 ≡ is_of p out_list.begin_node out_list.nodes
  unfolding remove_node
  begin_compared = ground (arith, at_begin, out_prop (l.nodes y).next_list, out_prop l.begin_node)

  pub end_compared : out.1 ≡ is_of p out_list.end_node out_list.nodes
  unfolding remove_node
  end_compared = ground (arith, at_end, out_prop (l.nodes y).pre_list, out_prop l.end_node)

  in_old : (x : ℕ) → 0 < count x (remove y ids) → 0 < count x ids
  in_old x m = ground (arith, m, count-remove y x ids)

  not_y : (x : ℕ) → 0 < count x (remove y ids) → x ≢ y
  not_y x m e = ground (arith, m, e, count-remove y x ids)

  not_null : (x : ℕ) → 0 < count x (remove y ids) → x ≢ 0
  not_null x m e = ground (arith, in_old x m, ap (λ k. count k ids) e, h.distinct.no_null)

  -- Taking a node of the property out keeps the rest linked.
  pub remove_node-Linked : Linked out_list (remove y ids)
  remove_node-Linked = record {
    distinct = remove-Distinct y ids h.distinct;
    begin_is = out_begin;
    end_is = out_end;
    next_is = λ x m. ground (
      arith,
      out_next x (not_null x m) (not_y x m),
      h.next_is x (in_old x m),
      after-remove x y ids h.distinct some_y (not_y x m),
      after_iff_before 0 x y ids h.distinct some_y h.distinct.no_null (in_old x m) inside,
    );
    pre_is = λ x m. ground (
      arith,
      out_pre x (not_null x m) (not_y x m),
      h.pre_is x (in_old x m),
      before-remove 0 x y ids h.distinct some_y (not_y x m),
      after_iff_before 0 y x ids h.distinct (not_null x m) h.distinct.no_null inside (in_old x m),
      some_y,
    );
  }
