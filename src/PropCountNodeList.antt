-- ===== src/PropCountNodeList.antt =====
-- `PropCountNodeList`, the list in which `SerialTaskQueue` of task_queue.hpp keeps the order of its properties:
-- nodes in memory, doubly linked in the order of the queue and by property. A pointer is a number, 0 for null.
-- A new node stands at the address that the pool of nodes gives, which `push_back` takes as an argument; a
-- node given back to the pool is not read again. A count of tasks is a size_t, of which no queue fills 2 ^ 64,
-- and is at least 1 while the node is in the list, so it is not wrapped.
pub mod Order
pub mod Links
pub mod Append
pub mod Push
pub mod Take
pub mod Remove
pub mod Refine
mod Tests
use btool.Common.{
  ℕ, zero, suc, ◌+◌, ◌-◌, Bool, true, false, not, ◌&&◌, ◌||◌, List, [], ◌∷◌, ◌++◌, Option, none,
  some, ltb, ◌==◌, if◌then◌else◌,
}
use btool.Common.Assoc.{lookup, insert, erase}

pub record Node : Type 0 where
  pub pre_same : ℕ
  pub next_same : ℕ
  pub pre_list : ℕ
  pub next_list : ℕ
  pub count : ℕ
  pub can_pop : Bool
  pub prop : ℕ

pub record PropCountNodeList : Type 0 where
  pub nodes : ℕ → Node
  pub begin_node : ℕ
  pub end_node : ℕ
  pub all_nodes : List (ℕ × List ℕ)

abbrev pub write : ℕ → Node → (ℕ → Node) → ℕ → Node
write p node nodes other = if other == p then node else nodes other

-- `if (p) p->… = …;`
abbrev pub set_next_same : ℕ → ℕ → (ℕ → Node) → ℕ → Node
set_next_same p value nodes =
    if p == 0 then nodes else write p (record (nodes p) { next_same = value }) nodes

abbrev pub set_pre_same : ℕ → ℕ → (ℕ → Node) → ℕ → Node
set_pre_same p value nodes =
    if p == 0 then nodes else write p (record (nodes p) { pre_same = value }) nodes

abbrev pub set_next_list : ℕ → ℕ → (ℕ → Node) → ℕ → Node
set_next_list p value nodes =
    if p == 0 then nodes else write p (record (nodes p) { next_list = value }) nodes

abbrev pub set_pre_list : ℕ → ℕ → (ℕ → Node) → ℕ → Node
set_pre_list p value nodes =
    if p == 0 then nodes else write p (record (nodes p) { pre_list = value }) nodes

-- The constructor of `PropCountNode`, which links the nodes before it.
unfoldable pub construct : ℕ → ℕ → ℕ → ℕ → Bool → (ℕ → Node) → ℕ → Node
construct p prop pre_same pre_list can_immediately_pop nodes = set_next_list pre_list p (
    set_next_same pre_same p (
      write p
        (record {
          pre_same = pre_same;
          next_same = 0;
          pre_list = pre_list;
          next_list = 0;
          count = 1;
          can_pop = can_immediately_pop;
          prop = prop;
        })
        nodes))

abbrev pub last_or : ℕ → List ℕ → ℕ
last_or d [] = d
last_or d (x ∷ xs) = last_or x xs

abbrev pub head_or : ℕ → List ℕ → ℕ
head_or d [] = d
head_or d (x ∷ xs) = x

-- `m_all_nodes[prop]`
unfoldable pub nodes_of : ℕ → List (ℕ × List ℕ) → List ℕ
nodes_of prop all_nodes = elim (lookup prop all_nodes) [ none ↦ [] | some ps ↦ ps ]

abbrev pub emplace_back : ℕ → ℕ → List (ℕ × List ℕ) → List (ℕ × List ℕ)
emplace_back prop p all_nodes = insert prop (nodes_of prop all_nodes ++ p ∷ []) all_nodes

-- Only the first node of a property may be popped at once.
abbrev pub can_unless : Option (List ℕ) → Bool → Bool
can_unless none can_immediately_pop = can_immediately_pop
can_unless (some ps) can_immediately_pop = false

unfoldable pub push_back : ℕ → ℕ → Bool → PropCountNodeList → PropCountNodeList
push_back p prop can_immediately_pop l =
    let same = nodes_of prop l.all_nodes in
    let can_pop = can_unless (lookup prop l.all_nodes) can_immediately_pop in
    if l.end_node == 0
    then record {
      nodes = construct p prop 0 0 can_immediately_pop l.nodes;
      begin_node = p;
      end_node = p;
      all_nodes = emplace_back prop p l.all_nodes;
    }
    else if (l.nodes l.end_node).prop == prop
    then record l {
      nodes =
          write l.end_node (record (l.nodes l.end_node) { count = suc (l.nodes l.end_node).count })
            l.nodes;
    }
    else record l {
      nodes = construct p prop (last_or 0 same) l.end_node can_pop l.nodes;
      end_node = p;
      all_nodes = emplace_back prop p l.all_nodes;
    }

unfoldable pub reset_prop : ℕ → PropCountNodeList → PropCountNodeList
reset_prop prop l = elim (lookup prop l.all_nodes) [
  | none ↦ l
  | some ps ↦
      let first = head_or 0 ps in
      record l { nodes = write first (record (l.nodes first) { can_pop = true }) l.nodes }
]

-- The loop of `pop_front`, on fuel.
unfoldable pub find_pop : ℕ → ℕ → (ℕ → Node) → ℕ
find_pop zero p nodes = 0
find_pop (suc fuel) p nodes =
    let rest = find_pop fuel (nodes p).next_list nodes in
    if p == 0 then 0 else if (nodes p).can_pop then p else rest

abbrev pub drop_first : List ℕ → List ℕ
drop_first [] = []
drop_first (x ∷ xs) = xs

-- Taking a node out, with the node after it of its property.
unfoldable pub unlink : ℕ → PropCountNodeList → PropCountNodeList
unlink p l =
    let node = l.nodes p in
    record {
      nodes =
          set_next_list node.pre_list node.next_list
            (set_pre_list node.next_list node.pre_list (set_pre_same node.next_same 0 l.nodes));
      begin_node = if p == l.begin_node then node.next_list else l.begin_node;
      end_node = if p == l.end_node then node.pre_list else l.end_node;
      all_nodes =
          if node.next_same == 0
          then erase node.prop l.all_nodes
          else insert node.prop (drop_first (nodes_of node.prop l.all_nodes)) l.all_nodes;
    }

-- `pop_front` with so much fuel for its loop; `none` where no node can be popped, which is asserted not to be.
unfoldable pub pop_front : ℕ → PropCountNodeList → Option (ℕ × PropCountNodeList)
pop_front fuel l =
    let p = find_pop fuel l.begin_node l.nodes in
    let left = record (l.nodes p) { count = (l.nodes p).count - 1 } in
    let reduced = record l { nodes = write p left l.nodes } in
    if p == 0
    then none
    else if ltb 0 left.count
    then some (left.prop, record l { nodes = write p (record left { can_pop = false }) l.nodes })
    else some (left.prop, unlink p reduced)

-- One node of `remove_prop`, with whether the ends are still compared.
unfoldable pub remove_node :
    ℕ → ℕ → Bool × Bool × PropCountNodeList → Bool × Bool × PropCountNodeList
remove_node prop p (need_begin, need_end, l) =
    let pre = (l.nodes p).pre_list in
    let next = (l.nodes p).next_list in
    let linked = set_pre_list next pre (set_next_list pre next l.nodes) in
    let at_begin = need_begin && (p == l.begin_node) in
    let at_end = need_end && (p == l.end_node) in
    let from_begin = if at_begin then set_pre_list next 0 linked else linked in
    let nodes = if at_end then set_next_list pre 0 from_begin else from_begin in
    (
      need_begin && not (at_begin && ((next == 0) || not ((l.nodes next).prop == prop))),
      need_end && not (at_end && ((pre == 0) || not ((l.nodes pre).prop == prop))),
      record l {
        nodes = nodes;
        begin_node = if at_begin then next else l.begin_node;
        end_node = if at_end then pre else l.end_node;
      },
    )

unfoldable pub remove_each : ℕ → List ℕ → Bool × Bool × PropCountNodeList → PropCountNodeList
remove_each prop [] (need_begin, need_end, l) = l
remove_each prop (p ∷ ps) state = remove_each prop ps (remove_node prop p state)

unfoldable pub remove_prop : ℕ → PropCountNodeList → PropCountNodeList
remove_prop prop l =
    let need_begin = not (l.begin_node == 0) && ((l.nodes l.begin_node).prop == prop) in
    let need_end = not (l.end_node == 0) && ((l.nodes l.end_node).prop == prop) in
    elim (lookup prop l.all_nodes) [
      | none ↦ l
      | some ps ↦ record (remove_each prop ps (need_begin, need_end, l)) {
        all_nodes = erase prop l.all_nodes;
      }
    ]

-- The nodes themselves go back to the pool.
unfoldable pub clear : PropCountNodeList → PropCountNodeList
clear l = record l { begin_node = 0; end_node = 0; all_nodes = [] }

unfoldable pub empty : PropCountNodeList → Bool
empty l = l.begin_node == 0
