-- ===== src/SerialTaskQueue/Tests.antt =====
-- Courses of a queue, and the theorems at them.
use btool.Common.{
  length, ℕ, zero, suc, ◌+◌, ◌%◌, ◌^◌, ◌<◌, ◌≤◌, ◌≡◌, refl, ap, ◌∙◌, true, false, List, [], ◌∷◌,
  some, ◌==◌, arith, Bool-cases, inl, inr,
}
use btool.Common.Assoc.{count, contains, lookup, insert, erase, remove}
use btool.PropCountNodeList.{
  Node, PropCountNodeList, push_back, pop_front, reset_prop, clear, construct, nodes_of, find_pop,
  unlink,
}
use btool.PropCountNodeList.Links.{same, some_unless_nil, Holds, count-same}
use btool.PropCountNodeList.Refine.{
  Run, push_run, pop_run, reset_run, drop_runs, more_at_end, has_run,
}
use btool.LastTaskQueue.{extract}
use btool.SerialTaskQueue.{
  init, not_full, not_empty, clear_inner, stop, put_task, add_fast, add_slow, take_prop, pop_locked,
  take_found, finish_locked, remove_prop, tasks_of,
}
use btool.SerialTaskQueue.Threads.{
  System, Action, enters, misses, adds_fast, adds_slow, adds_restarted, pops, finishes, stops,
  removes, clears, boot, accept, accept_slow, enter, miss, go_fast, go_slow, go_restarted, hold,
  finish, step, run,
}
use btool.SerialTaskQueue.Runs.{run_list, total}
use btool.SerialTaskQueue.Removals.{ended, finish_loses}
use btool.SerialTaskQueue.Serial.Ready.{AllQuiet}
use btool.SerialTaskQueue.Refine.{over}
use btool.SerialTaskQueue.Refine.Nodes.{node_list, node_count, Shows, IsPool}
use btool.SerialTaskQueue.Refine.Course.{
  nodes_run, runs_run, IsOrdered, Takes, node_list_follows, tasks_in_order, pop_finds,
}

-- A pool that gives an address above all that are in use.
unfoldable sum : List ℕ → ℕ
sum [] = 0
sum (x ∷ xs) = x + sum xs

unfoldable above : List (ℕ × List ℕ) → ℕ
unfolding sum
above [] = 1
above ((p, ps) ∷ entries) = sum ps + above entries

abbrev new_node : PropCountNodeList → ℕ
new_node l = above l.all_nodes

count-sum : (x : ℕ) (xs : List ℕ) → 0 < count x xs → x ≤ sum xs
unfolding count sum
count-sum x [] m = absurd (omega (arith, m))
count-sum x (y ∷ ys) m = ground (arith, m, count-sum x ys)

above_positive : (entries : List (ℕ × List ℕ)) → 0 < above entries
unfolding above
above_positive [] = ground arith
above_positive ((p, ps) ∷ entries) = ground (arith, above_positive entries)

lookup-above :
    (p x : ℕ) (ps : List ℕ) (entries : List (ℕ × List ℕ))
    → lookup p entries ≡ some ps
    → 0 < count x ps
    → x < above entries
unfolding lookup above
lookup-above p x ps [] e m = absurd (ground (arith, e))
lookup-above p x ps ((q, qs) ∷ entries) e m = elim (Bool-cases (q == p)) [
  | inl c ↦ ground (arith, ap sum (same_list c), m, count-sum x ps, above_positive entries)
  | inr c ↦ ground (arith, lookup-above p x ps entries (rest c) m)
]
  where
    same_list : (q == p) ≡ true → qs ≡ ps
    same_list c = ground (arith, c, e)

    rest : (q == p) ≡ false → lookup p entries ≡ some ps
    rest c = ground (arith, c, e)

some_where : (x : ℕ) (s : List ℕ) → 0 < count x s → some_unless_nil s ≡ some s
unfolding count
some_where x [] m = absurd (omega (arith, m))
some_where x (y ∷ ys) m = refl

inside-above :
    (l : PropCountNodeList) (ids : List ℕ) (x : ℕ) → Holds l ids → 0 < count x ids → x < new_node l
inside-above l ids x h m =
    lookup-above (l.nodes x).prop x s l.all_nodes (h.named (l.nodes x).prop ∙ some_where x s here)
      here
  where
    s : List ℕ
    s = same (l.nodes x).prop l.nodes ids

    here : 0 < count x s
    here = ground (arith, m, count-same (l.nodes x).prop x l.nodes ids)

new_node-IsPool : IsPool new_node
new_node-IsPool l ids h =
    ((λ e. ground (arith, above_positive l.all_nodes, e)), none_above (count (new_node l) ids) refl)
  where
    none_above : (n : ℕ) → count (new_node l) ids ≡ n → n ≡ 0
    none_above zero e = refl
    none_above (suc n) e =
        absurd (ground (arith, inside-above l ids (new_node l) h (ground (arith, e))))

abbrev memory : ℕ → Node
memory x = record {
  pre_same = 0;
  next_same = 0;
  pre_list = 0;
  next_list = 0;
  count = 0;
  can_pop = false;
  prop = 0;
}

-- Two tasks of property 7 and one of 8, of which the first two that may are taken out, and the first of 7 ends.
abbrev course : List Action
course =
    enters 7 (some 1)
    ∷ adds_fast 0
    ∷ enters 7 (some 2)
    ∷ misses 0
    ∷ adds_slow 0
    ∷ enters 8 (some 3)
    ∷ adds_fast 0
    ∷ pops
    ∷ pops
    ∷ pops
    ∷ finishes 1
    ∷ []

node_list_follows_example :
    Shows new_node
      (nodes_run new_node memory 0 course).shared.wait_props
      (runs_run new_node memory 0 course).shared.wait_props
    × (over
          (nodes_run new_node memory 0 course)
          (runs_run new_node memory 0 course).shared.wait_props
        ≡ runs_run new_node memory 0 course)
node_list_follows_example = node_list_follows new_node memory 0 course new_node-IsPool

course-AllQuiet : AllQuiet course
course-AllQuiet = (tt, (tt, (tt, (tt, (tt, (tt, (tt, (tt, (tt, (tt, (tt, tt)))))))))))

tasks_in_order_example : IsOrdered 7 (nodes_run new_node memory 0 course)
tasks_in_order_example = tasks_in_order new_node memory 0 course new_node-IsPool course-AllQuiet 7

ready : not_empty (node_list new_node) (nodes_run new_node memory 0 course).shared ≡ true
unfolding run step boot init enter miss go_fast go_slow accept accept_slow add_fast add_slow
    not_full put_task hold pop_locked take_found not_empty take_prop finish finish_locked lookup
    insert erase remove contains extract push_back pop_front reset_prop clear construct nodes_of
    find_pop unlink above sum node_count
ready = refl

pop_finds_example : Takes (node_list new_node) (nodes_run new_node memory 0 course)
pop_finds_example = pop_finds new_node memory 0 course new_node-IsPool course-AllQuiet ready

finish_loses_example :
    (tasks_of 7 (ended 7 5 (run run_list (boot run_list 0 []) course).shared).wait_tasks ≡ [])
    × (total 7 (ended 7 5 (run run_list (boot run_list 0 []) course).shared).wait_props ≡ 1)
    × ((ended 7 5 (run run_list (boot run_list 0 []) course).shared).approx_size
        ≡ ((run run_list (boot run_list 0 []) course).shared.approx_size + 1) % 2 ^ 64)
finish_loses_example = finish_loses 7 5 (run run_list (boot run_list 0 []) course).shared

abbrev ran : ℕ → List Action → System (List Run)
ran limit actions = run run_list (boot run_list limit []) actions

-- The second task of 7 waits while the first runs.
one_of_each :
    (ran 0 (
      enters 7 (some 1)
      ∷ adds_fast 0
      ∷ enters 7 (some 2)
      ∷ adds_fast 0
      ∷ enters 8 (some 3)
      ∷ adds_fast 0
      ∷ pops
      ∷ pops
      ∷ pops
      ∷ [])).running
    ≡ (8, 3) ∷ (7, 1) ∷ []
unfolding run step boot init enter go_fast extract not_full accept add_fast put_task hold pop_locked
    take_found not_empty take_prop lookup insert contains push_run pop_run more_at_end has_run
one_of_each = refl

-- Two threads of the fast path that look before either adds pass a limit of 1. Another one then waits.
past_limit :
    let s = ran 1 (
      enters 7 (some 1)
      ∷ enters 7 (some 2)
      ∷ adds_fast 0
      ∷ adds_fast 0
      ∷ enters 8 (some 3)
      ∷ adds_slow 0
      ∷ []) in
    (s.shared.approx_size ≡ 2) × (length s.slow ≡ 1)
unfolding run step boot init enter go_fast go_slow extract accept accept_slow add_fast add_slow
    not_full put_task lookup insert contains push_run more_at_end has_run
past_limit = (refl, refl)

-- A slow thread whose wait ends by a `stop` that waits, with a `start` before its second look, passes the limit too.
past_restart :
    (ran 1 (
      enters 7 (some 1)
      ∷ adds_fast 0
      ∷ enters 8 (some 2)
      ∷ stops true
      ∷ adds_restarted 0
      ∷ [])).shared.approx_size
    ≡ 2
unfolding run step boot init enter go_fast go_slow go_restarted stop extract accept accept_slow
    add_fast add_slow not_full put_task lookup insert contains push_run more_at_end has_run
past_restart = refl

-- `clear` forgets which properties run, so that two tasks of one property run at once.
two_run :
    (ran 0 (
      enters 7 (some 1)
      ∷ adds_fast 0
      ∷ pops
      ∷ clears
      ∷ enters 7 (some 2)
      ∷ adds_fast 0
      ∷ pops
      ∷ [])).running
    ≡ (7, 2) ∷ (7, 1) ∷ []
unfolding run step boot init enter go_fast extract not_full accept add_fast put_task hold pop_locked
    take_found not_empty take_prop clear_inner lookup insert contains push_run pop_run more_at_end
    has_run
two_run = refl

-- After a removal and the end of the task that ran, the task added since is dropped, not run.
lost :
    (ran 0 (
      enters 7 (some 1)
      ∷ adds_fast 0
      ∷ pops
      ∷ removes 7
      ∷ enters 7 (some 2)
      ∷ adds_fast 0
      ∷ finishes 0
      ∷ enters 7 (some 3)
      ∷ adds_fast 0
      ∷ pops
      ∷ pops
      ∷ [])).running
    ≡ (7, 3) ∷ []
unfolding run step boot init enter go_fast extract not_full accept add_fast put_task hold pop_locked
    take_found not_empty take_prop remove_prop finish finish_locked lookup insert erase remove
    contains push_run pop_run reset_run drop_runs more_at_end has_run
lost = refl
