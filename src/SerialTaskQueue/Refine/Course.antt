-- ===== src/SerialTaskQueue/Refine/Course.antt =====
-- What holds of a `SerialTaskQueue` over the nodes of its list, from the start on.
use btool.Common.{
  ℕ, suc, ◌≤◌, ◌≡◌, refl, sym, ap, ◌∙◌, subst, true, false, List, [], ◌∷◌, ◌++◌, Option, none, some,
  arith, Option-cases, inl, inr,
}
use btool.Common.Assoc.{count, contains, keys}
use btool.PropCountNodeList.{Node, PropCountNodeList, clear, pop_front}
use btool.PropCountNodeList.Refine.{Run, pop_run}
use btool.PropCountNodeList.Refine.Removes.{clear-Represents}
use btool.LastTaskQueue.{TaskItem}
use btool.SerialTaskQueue.{PropList, takes, tasks_of, front, init, not_empty, take_prop, pop_locked}
use btool.SerialTaskQueue.Threads.{System, Action, boot, run}
use btool.SerialTaskQueue.Runs.{run_list}
use btool.SerialTaskQueue.Serial.{history, waiting, IsSerial}
use btool.SerialTaskQueue.Serial.Takes.{first_task, idle}
use btool.SerialTaskQueue.Serial.Stuck.{never_stuck}
use btool.SerialTaskQueue.Serial.Steps.{pop_takes}
use btool.SerialTaskQueue.Serial.Ready.{AllQuiet}
use btool.SerialTaskQueue.Serial.Course.{booted-IsSerial}
use btool.SerialTaskQueue.Refine.{Matched, Follows, over}
use btool.SerialTaskQueue.Refine.Steps.{run-Follows}
use btool.SerialTaskQueue.Refine.Nodes.{node_list, node_count, Shows, IsPool, node_list-Simulates}

abbrev pub new_list : (ℕ → Node) → PropCountNodeList
new_list memory = clear (record { nodes = memory; begin_node = 0; end_node = 0; all_nodes = [] })

abbrev pub IsOrdered : {S : Type 0} → ℕ → System S → Type 0
IsOrdered p s =
    (history p s.accepted ≡ history p s.taken ++ waiting p s.shared)
    × (count p (keys s.running) ≤ 1)
    × (s.failed ≡ false)

abbrev pub Takes : {S : Type 0} → PropList S → System S → Type 0
Takes {S = S} o s =
    (p : ℕ) × (t : ℕ) × (props : S) × (contains p s.shared.cur_props ≡ false)
    × (pop_locked o s.shared ≡ takes (take_prop o p props s.shared) p (some t))

module _ (new_node : PropCountNodeList → ℕ) (memory : ℕ → Node) (m : ℕ)
    (actions : List Action) where
  abbrev pub nodes_run : System PropCountNodeList
  nodes_run = run (node_list new_node) (boot (node_list new_node) m (new_list memory)) actions

  abbrev pub runs_run : System (List Run)
  runs_run = run run_list (boot run_list m []) actions

  -- For a pool that gives nodes not in use, every course of a queue over the nodes of its list is the same as
  -- that over runs, the replies, the tasks that run and those taken out included, and its list represents the
  -- runs.
  pub node_list_follows :
      IsPool new_node
      → Shows new_node nodes_run.shared.wait_props runs_run.shared.wait_props
        × (over nodes_run runs_run.shared.wait_props ≡ runs_run)
  unfolding Follows Shows boot init
  node_list_follows pool =
      run-Follows (node_list new_node) run_list (Shows new_node) (node_list-Simulates new_node pool)
        actions (boot (node_list new_node) m (new_list memory)) (boot run_list m [])
        (
          (
            [],
            clear-Represents
                (record { nodes = memory; begin_node = 0; end_node = 0; all_nodes = [] }),
          ),
          refl,
        )

  module _ (pool : IsPool new_node) (quiet : AllQuiet actions) where
    serial : IsSerial runs_run
    serial = booted-IsSerial m actions quiet

    same_as_runs : over nodes_run runs_run.shared.wait_props ≡ runs_run
    same_as_runs = (node_list_follows pool).1

    -- Where nothing is removed or cleared and no task is empty, under every interleaving over a pool that gives
    -- nodes not in use, the tasks of each property are taken out in the order in which they were accepted, and those
    -- not yet taken out wait in that order; at most one of them runs; and `pop_task` never fails an assertion.
    pub tasks_in_order : (p : ℕ) → IsOrdered p nodes_run
    tasks_in_order p =
        let at = serial.serial_at p in
        subst (IsOrdered p) (sym same_as_runs)
          (at.ordered, ground (arith, at.runs, at.once), serial.unfailed)

    Matched-some :
        (q : ℕ) (left : List Run) (x : Option (ℕ × PropCountNodeList)) (y : Option (ℕ × List Run))
        → Matched (Shows new_node) x y
        → y ≡ some (q, left)
        → (l : PropCountNodeList) × (x ≡ some (q, l))
    unfolding Matched
    Matched-some q left none none k e = absurd (ground (arith, e))
    Matched-some q left none (some y) k e = absurd k
    Matched-some q left (some x) none k e = absurd k
    Matched-some q left (some (p, l)) (some (r, rs)) (k, shows) e = (l, ground (arith, k, e))

    not_empty_runs :
        not_empty (node_list new_node) nodes_run.shared ≡ true
        → not_empty run_list runs_run.shared ≡ true
    unfolding not_empty
    not_empty_runs n =
        sym (ap (λ (u : System (List Run)). not_empty run_list u.shared) same_as_runs) ∙ n

    pop_of :
        (q t : ℕ) (fs : List TaskItem) (l : PropCountNodeList)
        → not_empty (node_list new_node) nodes_run.shared ≡ true
        → (node_list new_node).pop_front nodes_run.shared.wait_props ≡ some (q, l)
        → contains q nodes_run.shared.cur_props ≡ false
        → tasks_of q nodes_run.shared.wait_tasks ≡ some t ∷ fs
        → pop_locked (node_list new_node) nodes_run.shared
          ≡ takes (take_prop (node_list new_node) q l nodes_run.shared) q (some t)
    pop_of q t fs l n e free f =
        pop_takes (node_list new_node) nodes_run.shared q l n e free
        ∙ ap (λ ts. takes (take_prop (node_list new_node) q l nodes_run.shared) q (front ts)) f

    found-Takes :
        (q : ℕ) (left : List Run)
        → not_empty (node_list new_node) nodes_run.shared ≡ true
        → pop_run runs_run.shared.wait_props ≡ some (q, left)
        → Takes (node_list new_node) nodes_run
    found-Takes q left n e =
        let (t, fs, f) = first_task q left runs_run serial e in
        let (l, g) =
          Matched-some q left
            (pop_front (suc (node_count nodes_run.shared.wait_props.all_nodes))
              nodes_run.shared.wait_props)
            (pop_run runs_run.shared.wait_props)
            ((node_list-Simulates new_node pool).pops_same nodes_run.shared.wait_props
              runs_run.shared.wait_props (node_list_follows pool).0)
            e in
        let free : contains q nodes_run.shared.cur_props ≡ false =
          ap (λ (u : System (List Run)). contains q u.shared.cur_props) same_as_runs
          ∙ idle q left runs_run serial e in
        (
          q,
          t,
          l,
          free,
          pop_of q t fs l n g free
              (ap (λ (u : System (List Run)). tasks_of q u.shared.wait_tasks) same_as_runs ∙ f),
        )

    -- Where nothing is removed or cleared and no task is empty, after every interleaving over a pool that gives
    -- nodes not in use: once there are more properties with tasks than properties that run, `pop_task` takes a task
    -- that is not empty, of a property of which none runs.
    pub pop_finds :
        not_empty (node_list new_node) nodes_run.shared ≡ true
        → Takes (node_list new_node) nodes_run
    pop_finds n = elim (Option-cases (pop_run runs_run.shared.wait_props)) [
      | inl e ↦ absurd (never_stuck runs_run serial (not_empty_runs n) e)
      | inr ((q, left), e) ↦ found-Takes q left n e
    ]
