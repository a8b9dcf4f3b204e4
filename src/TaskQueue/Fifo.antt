-- ===== src/TaskQueue/Fifo.antt =====
-- Order of `TaskQueue`: what leaves is what came, in the order in which it came, under every interleaving of the
-- threads.
use mathlib.Core.List.{map-append}
use btool.Common.{
  ℕ, ◌≡◌, refl, ap, ◌⊎◌, inl, inr, Bool, List, [], ◌∷◌, ◌++◌, map, arith, append-nil, append_assoc,
  Option-cases,
}
use btool.TaskQueue.{
  TaskItem, TaskQueue, System, Action, enters, adds, adds_restarted, add_restarted, add_with_start,
  push_task, pops, starts, stops, clears, Departure, taken, dropped, boot, step, run, add, pop,
  discard, drop_all, add_thread, add_locked, pop_locked, start, stop, clear, extract,
}

abbrev pub item : Departure → TaskItem
item (taken t) = t
item (dropped t) = t

-- The accepted items are those that left, in the order in which they left, and then the queue.
abbrev pub InOrder : System → Type 0
InOrder s = s.accepted ≡ map item s.departed ++ s.shared.queue

map-drop_all : (ts : List TaskItem) → map item (drop_all ts) ≡ ts
unfolding drop_all
map-drop_all [] = refl
map-drop_all (t ∷ ts) = ap (λ us. t ∷ us) (map-drop_all ts)

add_thread-InOrder :
    (s : System) (f : TaskItem) (rest : List TaskItem)
    → InOrder s
    → InOrder (add_thread s f rest (add_locked s.shared f))
unfolding add_thread add_locked push_task
add_thread-InOrder s f rest h =
    ground (arith, append_assoc (map item s.departed) s.shared.queue (f ∷ []))

restarted_thread-InOrder :
    (s : System) (f : TaskItem) (rest : List TaskItem)
    → InOrder s
    → InOrder (add_thread s f rest (add_restarted s.shared f))
unfolding add_thread add_restarted add_locked push_task start
restarted_thread-InOrder s f rest h =
    ground (arith, append_assoc (map item s.departed) s.shared.queue (f ∷ []))

add-InOrder : (s : System) (i : ℕ) → InOrder s → InOrder (add s i)
unfolding add
add-InOrder s i h = elim (Option-cases (extract i s.adding)) [
  | inl e ↦ rw (e, add) h
  | inr ((f, rest), e) ↦ rw (e, add) (add_thread-InOrder s f rest h)
]

add_with_start-InOrder : (s : System) (i : ℕ) → InOrder s → InOrder (add_with_start s i)
unfolding add_with_start
add_with_start-InOrder s i h = elim (Option-cases (extract i s.adding)) [
  | inl e ↦ rw (e, add_with_start) h
  | inr ((f, rest), e) ↦ rw (e, add_with_start) (restarted_thread-InOrder s f rest h)
]

pop_front-InOrder :
    (s : System) (ts : List TaskItem) → s.shared.queue ≡ ts → InOrder s → InOrder (pop s)
unfolding pop pop_locked
pop_front-InOrder s [] e h = ground arith
pop_front-InOrder s (t ∷ ts) e h = ground (
  arith,
  map-append item s.departed (taken t ∷ []),
  append_assoc (map item s.departed) (t ∷ []) ts,
)

discard-InOrder :
    (s : System) (q : TaskQueue)
    → (q.queue ≡ []) ⊎ (q.queue ≡ s.shared.queue)
    → InOrder s
    → InOrder (discard s q)
unfolding discard
discard-InOrder s q k h = ground (
  arith,
  map-append item s.departed (drop_all s.shared.queue),
  map-drop_all s.shared.queue,
  append-nil (map item s.departed ++ s.shared.queue),
)

stop-keeps : (b : Bool) (q : TaskQueue) → ((stop b q).queue ≡ []) ⊎ ((stop b q).queue ≡ q.queue)
unfolding stop
stop-keeps b q = ground arith

step-InOrder : (s : System) (a : Action) → InOrder s → InOrder (step s a)
unfolding step
step-InOrder s (enters f) h = ground arith
step-InOrder s (adds i) h = add-InOrder s i h
step-InOrder s (adds_restarted i) h = add_with_start-InOrder s i h
step-InOrder s pops h = pop_front-InOrder s s.shared.queue refl h
step-InOrder s starts h = unfold start in ground arith
step-InOrder s (stops b) h = discard-InOrder s (stop b s.shared) (stop-keeps b s.shared) h
step-InOrder s clears h = unfold clear in discard-InOrder s (clear s.shared) (inl refl) h

run-InOrder : (actions : List Action) (s : System) → InOrder s → InOrder (run s actions)
unfolding run
run-InOrder [] s h = h
run-InOrder (a ∷ actions) s h = run-InOrder actions (step s a) (step-InOrder s a h)

-- Under every interleaving of producers, consumers, `start`, `stop` and `clear`, the accepted tasks
-- are those that left the queue, in the order in which they left, followed by those still in it.
pub fifo :
    (max_task_count : ℕ) (actions : List Action) → InOrder (run (boot max_task_count) actions)
unfolding boot
fifo max_task_count actions = run-InOrder actions (boot max_task_count) refl
