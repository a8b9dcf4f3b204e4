-- ===== src/PropCountNodeList/Tests.antt =====
-- Runs of the list, and the theorems at them.
use btool.Common.{ℕ, ◌≡◌, refl, true, false, [], ◌∷◌, Option, none, some, arith}
use btool.Common.Assoc.{lookup, insert, erase, count}
use btool.PropCountNodeList.{
  Node, PropCountNodeList, construct, nodes_of, push_back, reset_prop, find_pop, unlink, pop_front,
  remove_node, remove_each, remove_prop, clear, empty,
}
use btool.PropCountNodeList.Push.{pushed}
use btool.PropCountNodeList.Remove.Loop.{others}
use btool.PropCountNodeList.Refine.{runs_of, push_run, pop_run, drop_runs, Represents, Matches}
use btool.PropCountNodeList.Refine.Steps.{pop_front-Matches}
use btool.PropCountNodeList.Refine.Pushes.{push_back-Represents}
use btool.PropCountNodeList.Refine.Removes.{remove_prop-Represents, clear-Represents}

abbrev memory : ℕ → Node
memory x = record {
  pre_same = 0;
  next_same = 0;
  pre_list = 0;
  next_list = 0;
  count = 0;
  can_pop = false;
  prop = 0;
}

abbrev fresh_list : PropCountNodeList
fresh_list = clear (record { nodes = memory; begin_node = 0; end_node = 0; all_nodes = [] })

-- Two tasks of property 7, one of 8 and another of 7.
abbrev four_tasks : PropCountNodeList
four_tasks =
    push_back 3 7 true (push_back 2 8 true (push_back 9 7 true (push_back 1 7 true fresh_list)))

abbrev popped : Option (ℕ × PropCountNodeList) → Option ℕ
popped none = none
popped (some (prop, l)) = some prop

abbrev after_pop : Option (ℕ × PropCountNodeList) → PropCountNodeList
after_pop none = fresh_list
after_pop (some (prop, l)) = l

abbrev one_popped : PropCountNodeList
one_popped = after_pop (pop_front 4 four_tasks)

first_popped : popped (pop_front 4 four_tasks) ≡ some 7
unfolding push_back pop_front construct nodes_of find_pop unlink lookup insert erase clear
first_popped = refl

-- Property 7 runs, so that the next task is that of 8.
next_popped : popped (pop_front 4 one_popped) ≡ some 8
unfolding push_back pop_front construct nodes_of find_pop unlink lookup insert erase clear
next_popped = refl

nothing_ready : popped (pop_front 4 (after_pop (pop_front 4 one_popped))) ≡ none
unfolding push_back pop_front construct nodes_of find_pop unlink lookup insert erase clear
nothing_ready = refl

reset_popped : popped (pop_front 4 (reset_prop 7 (after_pop (pop_front 4 one_popped)))) ≡ some 7
unfolding push_back pop_front construct nodes_of find_pop unlink lookup insert erase clear
    reset_prop
reset_popped = refl

removed_popped : popped (pop_front 4 (remove_prop 7 four_tasks)) ≡ some 8
unfolding push_back pop_front construct nodes_of find_pop unlink lookup insert erase clear
    remove_prop remove_each remove_node
removed_popped = refl

all_removed : empty (remove_prop 8 (remove_prop 7 four_tasks)) ≡ true
unfolding push_back construct nodes_of lookup insert erase clear remove_prop remove_each remove_node
    empty
all_removed = refl

abbrev first_push : PropCountNodeList
first_push = push_back 1 7 true fresh_list

first_push-Represents :
    Represents first_push (pushed 1 7 fresh_list []) (push_run 7 true (runs_of memory []))
unfolding clear count
first_push-Represents =
    push_back-Represents 1 7 true fresh_list []
      (clear-Represents
        (record { nodes = memory; begin_node = 0; end_node = 0; all_nodes = [] })).holds
      refl (ground arith)

push_back-Represents_example :
    Represents
      (push_back 2 8 true first_push)
      (pushed 2 8 first_push (1 ∷ []))
      (push_run 8 true (runs_of first_push.nodes (1 ∷ [])))
unfolding clear count
push_back-Represents_example =
    push_back-Represents 2 8 true first_push (1 ∷ []) first_push-Represents.holds refl
      (ground arith)

pop_front-Matches_example :
    Matches (pop_front 2 first_push) (pop_run (push_run 7 true (runs_of memory [])))
unfolding clear
pop_front-Matches_example =
    pop_front-Matches 2 first_push (pushed 1 7 fresh_list []) (push_run 7 true (runs_of memory []))
      first_push-Represents (ground arith)

remove_prop-Represents_example :
    Represents
      (remove_prop 7 first_push)
      (others 7 first_push.nodes (pushed 1 7 fresh_list []))
      (drop_runs 7 (push_run 7 true (runs_of memory [])))
remove_prop-Represents_example =
    remove_prop-Represents 7 first_push (pushed 1 7 fresh_list [])
      (push_run 7 true (runs_of memory [])) first_push-Represents
