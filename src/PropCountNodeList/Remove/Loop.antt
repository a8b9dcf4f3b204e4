-- ===== src/PropCountNodeList/Remove/Loop.antt =====
-- The loop of `remove_prop` takes out each node of the property and no other.
use btool.Common.{
  ℕ, ◌<◌, ◌≡◌, ◌≢◌, refl, sym, ap, ap₂, ◌∙◌, subst, Bool, List, [], ◌∷◌, ◌==◌, if◌then◌else◌, arith,
  Bool-cases, inl, inr,
}
use btool.Common.Assoc.{count, remove}
use btool.PropCountNodeList.{Node, PropCountNodeList, remove_each}
use btool.PropCountNodeList.Order.{Distinct, remove_head}
use btool.PropCountNodeList.Links.{
  same, count-same, same-Distinct, same_cong, same-remove, count_first,
}
use btool.PropCountNodeList.Remove.{
  Linked, Relinked, refl-Relinked, trans-Relinked, is_of, out, out_list, out-Relinked,
  begin_compared, end_compared, remove_node-Linked,
}

-- The nodes of the other properties.
unfoldable pub others : ℕ → (ℕ → Node) → List ℕ → List ℕ
others p nodes [] = []
others p nodes (x ∷ xs) =
    let rest = others p nodes xs in if (nodes x).prop == p then rest else x ∷ rest

others-remove :
    (p y : ℕ) (nodes : ℕ → Node) (ids : List ℕ)
    → (nodes y).prop ≡ p
    → others p nodes (remove y ids) ≡ others p nodes ids
unfolding others remove
others-remove p y nodes [] e = refl
others-remove p y nodes (x ∷ xs) e =
    ground (arith, others-remove p y nodes xs e, e, ap (λ k. (nodes k).prop) {x = x} {y = y})

pub others_all :
    (p : ℕ) (nodes : ℕ → Node) (ids : List ℕ) → same p nodes ids ≡ [] → others p nodes ids ≡ ids
unfolding others same
others_all p nodes [] e = refl
others_all p nodes (x ∷ xs) e = elim (Bool-cases ((nodes x).prop == p)) [
  | inl c ↦ absurd (ground (arith, e, c))
  | inr c ↦ ground (arith, c, others_all p nodes xs (ground (arith, e, c)))
]

others_cong :
    (p : ℕ) (nodes nodes' : ℕ → Node) (ids : List ℕ)
    → ((x : ℕ) → (nodes' x).prop ≡ (nodes x).prop)
    → others p nodes' ids ≡ others p nodes ids
unfolding others
others_cong p nodes nodes' [] h = refl
others_cong p nodes nodes' (x ∷ xs) h = ground (arith, others_cong p nodes nodes' xs h, h x)

pub same-others :
    (q p : ℕ) (nodes : ℕ → Node) (ids : List ℕ)
    → same q nodes (others p nodes ids) ≡ (if p == q then [] else same q nodes ids)
unfolding others same
same-others q p nodes [] = ground arith
same-others q p nodes (x ∷ xs) = ground (arith, same-others q p nodes xs)

pub count-others :
    (x p : ℕ) (nodes : ℕ → Node) (ids : List ℕ)
    → count x (others p nodes ids) ≡ (if (nodes x).prop == p then 0 else count x ids)
unfolding others count
count-others x p nodes [] = ground arith
count-others x p nodes (y ∷ ys) =
    ground (arith, count-others x p nodes ys, ap (λ k. (nodes k).prop) {x = y} {y = x})

pub record Removed (p : ℕ) (l left : PropCountNodeList) (ids : List ℕ) : Type 0 where
  pub linked : Linked left (others p l.nodes ids)
  pub relinked : Relinked l.nodes left.nodes

pub remove_each-Removed :
    (p : ℕ) (ps : List ℕ) (l : PropCountNodeList) (ids : List ℕ)
    → Linked l ids
    → same p l.nodes ids ≡ ps
    → Removed p l
        (remove_each p ps (is_of p l.begin_node l.nodes, is_of p l.end_node l.nodes, l))
        ids
unfolding remove_each
remove_each-Removed p [] l ids h e = record {
  linked = subst (Linked l) (sym (others_all p l.nodes ids e)) h;
  relinked = refl-Relinked l.nodes;
}
remove_each-Removed p (y ∷ ps) l ids h e = with_rest (
    remove_each-Removed p ps left (remove y ids) (remove_node-Linked p y l ids h inside some_y own)
      same_left)
  where
    in_same : 0 < count y (same p l.nodes ids)
    in_same = count_first y ps (same p l.nodes ids) e

    inside : 0 < count y ids
    inside = ground (arith, in_same, count-same p y l.nodes ids)

    own : (l.nodes y).prop ≡ p
    own = ground (arith, in_same, count-same p y l.nodes ids)

    some_y : y ≢ 0
    some_y i = ground (arith, inside, ap (λ k. count k ids) i, h.distinct.no_null)

    left : PropCountNodeList
    left = out_list p y l ids h inside some_y own

    kept : Relinked l.nodes left.nodes
    kept = out-Relinked p y l ids h inside some_y own

    same_left : same p left.nodes (remove y ids) ≡ ps
    same_left =
        same_cong p l.nodes left.nodes (remove y ids) (λ x m. kept.prop_kept x)
        ∙ same-remove p y l.nodes ids
        ∙ ap (remove y) e
        ∙ remove_head y y ps (subst Distinct e (same-Distinct p l.nodes ids h.distinct)) refl

    compared : Bool × Bool × PropCountNodeList
    compared = (is_of p left.begin_node left.nodes, is_of p left.end_node left.nodes, left)

    as_compared : remove_each p ps (out p y l ids h inside some_y own) ≡ remove_each p ps compared
    as_compared =
        ap₂ (λ b c. remove_each p ps (b, c, left)) (begin_compared p y l ids h inside some_y own)
          (end_compared p y l ids h inside some_y own)

    with_rest :
        Removed p left (remove_each p ps compared) (remove y ids)
        → Removed p l (remove_each p ps (out p y l ids h inside some_y own)) ids
    with_rest rest =
        subst (λ r. Removed p l r ids) (sym as_compared)
          (record {
            linked =
                subst (Linked (remove_each p ps compared))
                  (others_cong p l.nodes left.nodes (remove y ids) kept.prop_kept
                    ∙ others-remove p y l.nodes ids own)
                  rest.linked;
            relinked = trans-Relinked kept rest.relinked;
          })
