-- ===== src/TaskQueue/Stop.antt =====
-- Shutting a `TaskQueue` down: nobody stays blocked, and a stop that waits lets the consumers drain it.
use btool.Common.{
  ◌≡◌, refl, ap, ◌∙◌, Bool, true, false, List, [], ◌∷◌, ◌++◌, map, some, arith, length, replicate,
  append-nil, append_assoc, if◌then◌else◌, ◌||◌,
}
use btool.TaskQueue.{
  TaskItem, TaskQueue, System, pops, stops, taken, step, run, pop, discard, add_locked, pop_locked,
  stop, take_front, drop_all,
}

-- After `stop` no thread waits: a producer returns false and leaves the queue alone, a consumer takes
-- the front item or returns with none; and only a `stop` that does not wait, of a queue that runs,
-- throws the tasks away.
pub stop_releases :
    (b : Bool) (q : TaskQueue) (f : TaskItem)
    → (add_locked (stop b q) f ≡ some (stop b q, false))
      × (pop_locked (stop b q) ≡ some (take_front (stop b q) (stop b q).queue))
      × ((stop b q).queue ≡ (if b || q.stopped then q.queue else []))
unfolding stop add_locked pop_locked
stop_releases b q f = (ground arith, ground arith, ground arith)

-- One pop of a queue that is not empty, stopped or not.
pop_front :
    (s : System) (t : TaskItem) (ts : List TaskItem)
    → s.shared.queue ≡ t ∷ ts
    → ((pop s).shared.queue ≡ ts) × ((pop s).departed ≡ s.departed ++ (taken t ∷ []))
unfolding pop pop_locked
pop_front s t ts e = ground arith

pops_drain :
    (ts : List TaskItem) (s : System)
    → s.shared.queue ≡ ts
    → ((run s (replicate (length ts) pops)).shared.queue ≡ [])
      × ((run s (replicate (length ts) pops)).departed ≡ s.departed ++ map taken ts)
unfolding run step
pops_drain [] s e = (e, rw append-nil)
pops_drain (t ∷ ts) s e =
    let f = pop_front s t ts e in
    let h = pops_drain ts (pop s) f.0 in
    (
      h.0,
      h.1 ∙ ap (λ d. d ++ map taken ts) f.1 ∙ append_assoc s.departed (taken t ∷ []) (map taken ts),
    )

stop_wait_keeps :
    (s : System) (ts : List TaskItem)
    → s.shared.queue ≡ ts
    → ((step s (stops true)).shared.queue ≡ s.shared.queue)
      × ((step s (stops true)).departed ≡ s.departed)
unfolding step stop discard drop_all
stop_wait_keeps s [] e = ground (arith, append-nil s.departed)
stop_wait_keeps s (t ∷ ts) e = ground arith

-- A stop that waits loses nothing: as many pops as there are tasks take them all, in order, and leave
-- the queue empty.
pub stop_drains :
    (s : System)
    → let s' = run (step s (stops true)) (replicate (length s.shared.queue) pops) in
      (s'.shared.queue ≡ []) × (s'.departed ≡ s.departed ++ map taken s.shared.queue)
stop_drains s =
    let k = stop_wait_keeps s s.shared.queue refl in
    let h = pops_drain s.shared.queue (step s (stops true)) k.0 in
    (h.0, h.1 ∙ ap (λ d. d ++ map taken s.shared.queue) k.1)
