-- ===== src/SpmcSerialTaskQueue/Tasks.antt =====
-- One task of a property of an `SPMCSerialTaskQueue` runs at a time.
use btool.Common.{
  ℕ, zero, suc, ◌%◌, ◌^◌, ◌≤◌, ◌≡◌, refl, sym, ◌∙◌, subst, arith, Bool, true, false, not, ◌&&◌,
  ◌||◌, List, [], ◌∷◌, ◌++◌, Option, none, some, ltb, if◌then◌else◌, length, get_elem?,
  Option-cases, Bool-cases, inl, inr, append_assoc, append-nil,
}
use btool.ParallelTaskQueue.{ConcurrentQueue}
use btool.SpmcSerialTaskQueue.{
  SpmcSerialTaskQueue, Stage, takes, looks, zeroes, zeroes_single, decrements, decrements_single,
  runs, releases, Call, add_loads, add_guards, add_enqueues, add_looks, add_zeroes,
  add_zeroes_single, add_counts, add_counts_single, pop_loads_clear, pop_loads_size, pop_indexes,
  pop_claims, pop_holds, start_swaps, stop_swaps, clear_sets, clear_blocks, clear_drains,
  clear_counts, clear_index, clear_opens, clear_size, init, add_props, add_prop, reset_props,
  not_full, queue_of, dequeue, hold, held, claim, turn, drain, move,
}
use btool.SpmcSerialTaskQueue.Threads.{
  is_start, Action, begins, moves, System, extract, settle, take_step, step, run, boot,
}
use btool.SpmcSerialTaskQueue.Exclusion.{NeverClears, one_holder}
use btool.SpmcSerialTaskQueue.Places.{
  distinct, At, AllAt, AtLeft, Extracted, by_test, by_choice, running_of, extract-Extracted,
  start-At, placed, runs_there,
}

module _ {Q : Type 0} (ops : ConcurrentQueue Q) where
  -- A step leaves the properties, and a call that is at its place.
  record Placed (q : SpmcSerialTaskQueue Q) (r : SpmcSerialTaskQueue Q × Option Call) : Type 0 where
    props : r.0.all_props ≡ q.all_props
    at : AtLeft q.all_props r.1

  dequeue-all_props :
      (q : SpmcSerialTaskQueue Q) (prop : ℕ) (o : Option (ℕ × Q))
      → (dequeue ops q prop o).0.all_props ≡ q.all_props
  unfolding dequeue
  dequeue-all_props q prop none = refl
  dequeue-all_props q prop (some (task, rest)) = refl

  held-Placed :
      (place prop : ℕ) (q : SpmcSerialTaskQueue Q) (r : SpmcSerialTaskQueue Q × Option Stage)
      → r.0.all_props ≡ q.all_props
      → get_elem? q.all_props place ≡ some prop
      → Placed q (held ops place prop r)
  unfolding held
  held-Placed place prop q (q', none) same a = record { props = same; at = tt }
  held-Placed place prop q (q', some stage) same a = record { props = same; at = a }

  hold-Placed :
      (place prop : ℕ) (q : SpmcSerialTaskQueue Q) (stage : Stage)
      → get_elem? q.all_props place ≡ some prop
      → Placed q (held ops place prop (hold ops q place prop stage))
  unfolding hold
  hold-Placed place prop q takes a =
      held-Placed place prop q _ (dequeue-all_props q prop (ops.try_dequeue (queue_of ops q prop)))
        a
  hold-Placed place prop q (looks task) a = held-Placed place prop q _ refl a
  hold-Placed place prop q zeroes a = held-Placed place prop q _ refl a
  hold-Placed place prop q zeroes_single a = held-Placed place prop q _ refl a
  hold-Placed place prop q (decrements task) a = held-Placed place prop q _ refl a
  hold-Placed place prop q (decrements_single task) a = held-Placed place prop q _ refl a
  hold-Placed place prop q (runs task) a = held-Placed place prop q _ refl a
  hold-Placed place prop q releases a = held-Placed place prop q _ refl a

  claim-Placed :
      (q : SpmcSerialTaskQueue Q) (place prop : ℕ)
      → get_elem? q.all_props place ≡ some prop
      → Placed q (claim ops q place prop)
  unfolding claim
  claim-Placed q place prop a = elim (Bool-cases (q.can_pop place)) [
    | inl e ↦ rw (e, claim) (record { props = refl; at = a })
    | inr e ↦ rw (e, claim) (record { props = refl; at = tt })
  ]

  turn-Placed : (q : SpmcSerialTaskQueue Q) → Placed q (turn ops q)
  unfolding turn
  turn-Placed q =
      elim (Option-cases (get_elem? q.all_props (q.cur_props_index % length q.all_props))) [
        | inl e ↦ rw (e, turn) (record { props = refl; at = tt })
        | inr (prop, e) ↦ rw (e, turn) (record { props = refl; at = e })
      ]

  drain-Placed :
      (q : SpmcSerialTaskQueue Q) (prop : ℕ) (props : List ℕ) (o : Option (ℕ × Q))
      → Placed q (drain ops q prop props o)
  unfolding drain
  drain-Placed q prop props none = record { props = refl; at = tt }
  drain-Placed q prop props (some (task, rest)) = record { props = refl; at = tt }

  move-Placed : (q : SpmcSerialTaskQueue Q) (c : Call) → At q.all_props c → Placed q (move ops q c)
  unfolding move
  move-Placed q (pop_claims place prop) a = claim-Placed q place prop a
  move-Placed q (pop_holds place prop stage) a = hold-Placed place prop q stage a
  move-Placed q pop_indexes a = turn-Placed q
  move-Placed q (add_loads prop x) a = record {
    props = refl;
    at = by_test q.all_props q.stopped none (some (add_guards prop x)) tt tt;
  }
  move-Placed q (add_guards prop x) a = record {
    props = refl;
    at = by_test q.all_props (not (not_full ops q prop)) none (some (add_enqueues prop x)) tt tt;
  }
  move-Placed q (add_looks prop) a = record {
    props = refl;
    at = by_choice q.all_props q.clearing (add_zeroes prop) (add_counts prop) tt tt;
  }
  move-Placed q pop_loads_clear a = record {
    props = refl;
    at = by_test q.all_props q.clearing none (some pop_loads_size) tt tt;
  }
  move-Placed q pop_loads_size a = record {
    props = refl;
    at =
        by_test q.all_props (ltb 0 q.approx_size && ltb q.approx_size (2 ^ 31)) (some pop_indexes)
          none tt tt;
  }
  move-Placed q (stop_swaps bwait) a = record {
    props = refl;
    at = by_test q.all_props (q.stopped || bwait) none (some clear_sets) tt tt;
  }
  move-Placed q (clear_drains (prop ∷ props)) a =
      drain-Placed q prop props (ops.try_dequeue (queue_of ops q prop))
  move-Placed q (add_enqueues prop x) a = record { props = refl; at = tt }
  move-Placed q (add_zeroes prop) a = record { props = refl; at = tt }
  move-Placed q (add_zeroes_single prop) a = record { props = refl; at = tt }
  move-Placed q (add_counts prop) a = record { props = refl; at = tt }
  move-Placed q (add_counts_single prop) a = record { props = refl; at = tt }
  move-Placed q start_swaps a = record { props = refl; at = tt }
  move-Placed q clear_sets a = record { props = refl; at = tt }
  move-Placed q (clear_blocks place zero) a = record { props = refl; at = tt }
  move-Placed q (clear_blocks place (suc left)) a = record { props = refl; at = tt }
  move-Placed q (clear_drains []) a = record { props = refl; at = tt }
  move-Placed q (clear_counts []) a = record { props = refl; at = tt }
  move-Placed q (clear_counts (prop ∷ props)) a = record { props = refl; at = tt }
  move-Placed q clear_index a = record { props = refl; at = tt }
  move-Placed q (clear_opens place zero) a = record { props = refl; at = tt }
  move-Placed q (clear_opens place (suc left)) a = record { props = refl; at = tt }
  move-Placed q clear_size a = record { props = refl; at = tt }

  record IsPlaced (ps : List ℕ) (s : System Q) : Type 0 where
    registered : s.shared.all_props ≡ ps
    calls_at : AllAt ps s.calls

  settle-IsPlaced :
      (ps : List ℕ) (rest : List Call) (r : SpmcSerialTaskQueue Q × Option Call)
      → r.0.all_props ≡ ps
      → AtLeft ps r.1
      → AllAt ps rest
      → IsPlaced ps (settle ops rest r)
  unfolding settle
  settle-IsPlaced ps rest (q, none) e a all = record { registered = e; calls_at = all }
  settle-IsPlaced ps rest (q, some c) e a all = record { registered = e; calls_at = (a, all) }

  found-IsPlaced :
      (ps : List ℕ) (s : System Q) (o : Option (Call × List Call))
      → Extracted ps o
      → IsPlaced ps s
      → IsPlaced ps (take_step ops s o)
  unfolding take_step
  found-IsPlaced ps s none x h = h
  found-IsPlaced ps s (some (c, rest)) (a, all) h =
      let p = move-Placed s.shared c (subst (λ k. At k c) (sym h.registered) a) in
      settle-IsPlaced ps rest (move ops s.shared c) (p.props ∙ h.registered)
        (subst (λ k. AtLeft k (move ops s.shared c).1) h.registered p.at) all

  begin-IsPlaced :
      (ps : List ℕ) (s : System Q) (c : Call) (b : Bool)
      → is_start c ≡ b
      → IsPlaced ps s
      → IsPlaced ps (if b then record s { calls = c ∷ s.calls } else s)
  begin-IsPlaced ps s c true e h = record {
    registered = h.registered;
    calls_at = (start-At ps c e, h.calls_at);
  }
  begin-IsPlaced ps s c false e h = h

  run-IsPlaced :
      (ps : List ℕ) (s : System Q) (actions : List Action)
      → IsPlaced ps s
      → IsPlaced ps (run ops s actions)
  unfolding run step
  run-IsPlaced ps s [] h = h
  run-IsPlaced ps s (begins c ∷ actions) h =
      run-IsPlaced ps (step ops s (begins c)) actions (begin-IsPlaced ps s c (is_start c) refl h)
  run-IsPlaced ps s (moves n ∷ actions) h =
      run-IsPlaced ps (step ops s (moves n)) actions
        (found-IsPlaced ps s (extract n s.calls) (extract-Extracted ps n s.calls h.calls_at) h)

  add_props-all_props :
      (q : SpmcSerialTaskQueue Q) (props : List ℕ)
      → (add_props ops q props).all_props ≡ q.all_props ++ props
  unfolding add_props add_prop
  add_props-all_props q [] = sym (append-nil q.all_props)
  add_props-all_props q (prop ∷ props) =
      add_props-all_props (add_prop ops q prop) props ∙ append_assoc q.all_props (prop ∷ []) props

  boot-IsPlaced :
      (max_single_task_count : ℕ) (props : List ℕ)
      → IsPlaced props (boot ops max_single_task_count props)
  unfolding boot reset_props init
  boot-IsPlaced m props = record {
    registered = add_props-all_props (record (init ops m) { cur_props_index = 0 }) props;
    calls_at = tt;
  }

  -- Where the properties are registered once, each of them one time, and as long as nobody calls `clear`, nor `stop`
  -- without waiting: however the steps of the threads interleave, at most one task of a property runs at a time.
  pub one_task_runs :
      (prop max_single_task_count : ℕ) (props : List ℕ) (actions : List Action)
      → distinct props ≡ true
      → NeverClears actions
      → running_of prop (run ops (boot ops max_single_task_count props) actions).calls ≤ 1
  one_task_runs prop m props actions d never = elim (placed props prop calls all) [
    | inl e ↦ omega (arith, e)
    | inr (place, e) ↦ omega (
      arith,
      runs_there props prop place calls d e all,
      one_holder ops place m props actions never,
    )
  ]
    where
      calls : List Call
      calls = (run ops (boot ops m props) actions).calls

      all : AllAt props calls
      all = (run-IsPlaced props (boot ops m props) actions (boot-IsPlaced m props)).calls_at
