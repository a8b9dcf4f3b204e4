-- ===== src/PropCountNodeList/Links.antt =====
-- What holds of the nodes in memory, as a list of their addresses in the order of the queue.
use btool.Common.{
  ℕ, ◌<◌, ◌≡◌, ◌≢◌, refl, sym, ap, ◌∙◌, false, true, List, [], ◌∷◌, ◌++◌, Option, none, some, ◌==◌,
  if◌then◌else◌, arith,
}
use btool.Common.Assoc.{count, remove, lookup, insert, erase, lookup-insert, lookup-erase}
use btool.PropCountNodeList.{Node, PropCountNodeList, head_or, last_or, nodes_of, drop_first}
use btool.PropCountNodeList.Order.{Distinct, after, before, remove_head, head-same}

-- The nodes of a property, in order: what `m_all_nodes` holds.
unfoldable pub same : ℕ → (ℕ → Node) → List ℕ → List ℕ
same prop nodes [] = []
same prop nodes (x ∷ xs) =
    let rest = same prop nodes xs in if (nodes x).prop == prop then x ∷ rest else rest

abbrev pub some_unless_nil : List ℕ → Option (List ℕ)
some_unless_nil [] = none
some_unless_nil (x ∷ xs) = some (x ∷ xs)

pub record Holds (l : PropCountNodeList) (ids : List ℕ) : Type 0 where
  pub distinct : Distinct ids
  pub begin_is : l.begin_node ≡ head_or 0 ids
  pub end_is : l.end_node ≡ last_or 0 ids
  pub next_is : (x : ℕ) → 0 < count x ids → (l.nodes x).next_list ≡ after x ids
  pub pre_is : (x : ℕ) → 0 < count x ids → (l.nodes x).pre_list ≡ before 0 x ids
  pub named : (p : ℕ) → lookup p l.all_nodes ≡ some_unless_nil (same p l.nodes ids)
  pub next_same_is :
      (x : ℕ)
      → 0 < count x ids
      → (l.nodes x).next_same ≡ after x (same (l.nodes x).prop l.nodes ids)
  pub first_pops :
      (x : ℕ)
      → 0 < count x ids
      → (l.nodes x).can_pop ≡ true
      → head_or 0 (same (l.nodes x).prop l.nodes ids) ≡ x
  pub counted : (x : ℕ) → 0 < count x ids → 0 < (l.nodes x).count

pub count-same :
    (p x : ℕ) (nodes : ℕ → Node) (ids : List ℕ)
    → count x (same p nodes ids) ≡ (if (nodes x).prop == p then count x ids else 0)
unfolding same count
count-same p x nodes [] = ground arith
count-same p x nodes (y ∷ ys) =
    ground (arith, count-same p x nodes ys, ap (λ k. (nodes k).prop) {x = y} {y = x})

pub same-Distinct :
    (p : ℕ) (nodes : ℕ → Node) (ids : List ℕ) → Distinct ids → Distinct (same p nodes ids)
same-Distinct p nodes ids d = record {
  once = λ x. ground (arith, count-same p x nodes ids, d.once x);
  no_null = ground (arith, count-same p 0 nodes ids, d.no_null);
}

pub same-append :
    (p a : ℕ) (nodes : ℕ → Node) (ids : List ℕ)
    → same p nodes (ids ++ a ∷ [])
      ≡ (if (nodes a).prop == p then same p nodes ids ++ a ∷ [] else same p nodes ids)
unfolding same
same-append p a nodes [] = refl
same-append p a nodes (y ∷ ys) = ground (arith, same-append p a nodes ys)

pub same_cong :
    (p : ℕ) (nodes nodes' : ℕ → Node) (ids : List ℕ)
    → ((x : ℕ) → 0 < count x ids → (nodes' x).prop ≡ (nodes x).prop)
    → same p nodes' ids ≡ same p nodes ids
unfolding same count
same_cong p nodes nodes' [] h = refl
same_cong p nodes nodes' (y ∷ ys) h =
    ground (arith, same_cong p nodes nodes' ys (λ x m. h x (ground (arith, m))), h y)

pub same-remove :
    (p y : ℕ) (nodes : ℕ → Node) (ids : List ℕ)
    → same p nodes (remove y ids) ≡ remove y (same p nodes ids)
unfolding same remove
same-remove p y nodes [] = refl
same-remove p y nodes (x ∷ xs) = ground (arith, same-remove p y nodes xs)

pub count-last_or : (ids : List ℕ) → last_or 0 ids ≢ 0 → 0 < count (last_or 0 ids) ids
unfolding count
count-last_or [] h = absurd (h refl)
count-last_or (x ∷ []) h = ground arith
count-last_or (x ∷ y ∷ ys) h = ground (arith, count-last_or (y ∷ ys), h)

pub count-head_or : (ids : List ℕ) → head_or 0 ids ≢ 0 → 0 < count (head_or 0 ids) ids
unfolding count
count-head_or [] h = absurd (h refl)
count-head_or (x ∷ xs) h = ground arith

pub none_inside : (ids : List ℕ) → Distinct ids → last_or 0 ids ≡ 0 → ids ≡ []
unfolding count
none_inside [] d h = refl
none_inside (x ∷ xs) d h =
    absurd (ground (arith, d.no_null, ap (λ k. count k (x ∷ xs)) h, last_inside x xs))
  where
    last_inside : (x : ℕ) (xs : List ℕ) → 0 < count (last_or x xs) (x ∷ xs)
    last_inside x [] = ground arith
    last_inside x (y ∷ ys) = ground (arith, last_inside y ys)

pub nodes_named :
    (p : ℕ) (all_nodes : List (ℕ × List ℕ)) (ids : List ℕ)
    → lookup p all_nodes ≡ some_unless_nil ids
    → nodes_of p all_nodes ≡ ids
unfolding nodes_of
nodes_named p all_nodes [] h = rw (nodes_of, h) refl
nodes_named p all_nodes (x ∷ xs) h = rw (nodes_of, h) refl

pub some-append : (ids : List ℕ) (a : ℕ) → some_unless_nil (ids ++ a ∷ []) ≡ some (ids ++ a ∷ [])
some-append [] a = refl
some-append (x ∷ xs) a = refl

pub count_first : (f : ℕ) (fs s : List ℕ) → s ≡ f ∷ fs → 0 < count f s
unfolding count
count_first f fs s e = rw (e) (ground arith)

pub drop_is : (y : ℕ) (s : List ℕ) → Distinct s → head_or 0 s ≡ y → remove y s ≡ drop_first s
unfolding remove
drop_is y [] d e = refl
drop_is y (z ∷ zs) d e = remove_head y z zs d e

pub after_is : (y : ℕ) (s : List ℕ) → head_or 0 s ≡ y → y ≢ 0 → after y s ≡ head_or 0 (drop_first s)
after_is y [] e n = absurd (n (sym e))
after_is y (z ∷ zs) e n = head-same y z zs (sym e)

-- What `m_all_nodes` holds for a property after one of its nodes is taken out, of which it has others or not.
pub shorter_of :
    (p q : ℕ) (t : List ℕ) (all_nodes : List (ℕ × List ℕ))
    → count 0 t ≡ 0
    → lookup q (if head_or 0 t == 0 then erase p all_nodes else insert p t all_nodes)
      ≡ (if p == q then some_unless_nil t else lookup q all_nodes)
unfolding count
shorter_of p q [] all_nodes d = lookup-erase p q all_nodes
shorter_of p q (z ∷ zs) all_nodes d =
    ap (λ b. lookup q (if b then erase p all_nodes else insert p (z ∷ zs) all_nodes))
      (null_inside z zs d)
    ∙ lookup-insert p q (z ∷ zs) all_nodes
  where
    null_inside : (z : ℕ) (zs : List ℕ) → count 0 (z ∷ zs) ≡ 0 → (z == 0) ≡ false
    null_inside z zs d = ground (arith, d)
