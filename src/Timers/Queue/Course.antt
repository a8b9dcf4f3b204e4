-- ===== src/Timers/Queue/Course.antt =====
-- A timer over any course of operations on its queue: how often it runs.
use btool.Common.{
  ℕ, suc, ◌≤◌, ◌≡◌, ◌↔◌, subst, Bool, true, not, ◌&&◌, List, [], ◌∷◌, Option, none, some, ◌==◌,
  arith, Option-cases, inl, inr,
}
use btool.Common.Int.{ℤ, pos}
use btool.Common.Assoc.{count}
use btool.Timers.Queue.{TimerQueue, insert, erase_timer, clear_point_timer, loop_point_timer}
use btool.Timers.Queue.WellFormed.{
  IsWell, new_task, insert-eq-some, insert-IsWell, erase_timer-IsWell,
}
use btool.Timers.Queue.Steps.{loop_point_timer-IsWell}
use btool.Timers.Queue.Front.{clear_point_timer-IsWell}
use btool.Timers.Queue.Rounds.{
  loop_point_timer-IsExact, clear_point_timer-IsExact, erase_timer-IsExact, put_in-IsExact,
  put_in_new,
}
use btool.Timers.Queue.Fires.{fires, IsExact}

-- The operations of a queue, but for `clear`, after which a timer is out of the queue with some of its loops still
-- to run.
pub data Operation : Type 0 where
  inserts : ℕ → ℤ → ℕ → ℕ → Operation
  erases clears loops : ℕ → Operation

abbrev pub or_else : Option TimerQueue → TimerQueue → TimerQueue
or_else none q = q
or_else (some r) q = r

abbrev pub apply : Operation → TimerQueue → TimerQueue
apply (inserts interval_ms loop_count id time_point) q =
    or_else (insert interval_ms loop_count id time_point q) q
apply (erases id) q = (erase_timer id q).1
apply (clears time_point) q = (clear_point_timer time_point q).1
apply (loops time_point) q = loop_point_timer time_point q

abbrev pub run : List Operation → TimerQueue → TimerQueue
run [] q = q
run (op ∷ ops) q = run ops (apply op q)

-- No operation inserts the id again.
abbrev pub other_id : ℕ → Operation → Bool
other_id j (inserts interval_ms loop_count id time_point) = not (id == j)
other_id j op = true

abbrev pub other_ids : ℕ → List Operation → Bool
other_ids j [] = true
other_ids j (op ∷ ops) = let rest = other_ids j ops in other_id j op && rest

pub apply-IsWell : (op : Operation) (q : TimerQueue) → IsWell q → IsWell (apply op q)
apply-IsWell (inserts interval_ms loop_count id time_point) q w =
    elim (Option-cases (insert interval_ms loop_count id time_point q)) [
      | inl e ↦ rw e w
      | inr (r, e) ↦ rw e (insert-IsWell interval_ms loop_count id time_point q r w e)
    ]
apply-IsWell (erases id) q w = erase_timer-IsWell id q w
apply-IsWell (clears time_point) q w = clear_point_timer-IsWell time_point q w
apply-IsWell (loops time_point) q w = loop_point_timer-IsWell time_point q w

apply-IsExact :
    (m j : ℕ) (op : Operation) (q : TimerQueue)
    → other_id j op ≡ true
    → IsWell q
    → IsExact m j q
    → IsExact m j (apply op q)
apply-IsExact m j (inserts interval_ms loop_count id time_point) q o w x =
    elim (Option-cases (insert interval_ms loop_count id time_point q)) [
      | inl e ↦ rw e x
      | inr (r, e) ↦
          let made = insert-eq-some interval_ms loop_count id time_point q r e in
          rw e (
            subst (IsExact m j) made.2 (
              put_in-IsExact m id j (new_task interval_ms loop_count time_point) q
                (λ same. absurd (ground (arith, o))) made.1 x))
    ]
apply-IsExact m j (erases id) q o w x = erase_timer-IsExact m id j q x
apply-IsExact m j (clears time_point) q o w x = clear_point_timer-IsExact m j time_point q x
apply-IsExact m j (loops time_point) q o w x = loop_point_timer-IsExact m j time_point q w x

run-IsExact :
    (m j : ℕ) (ops : List Operation) (q : TimerQueue)
    → other_ids j ops ≡ true
    → IsWell q
    → IsExact m j q
    → IsWell (run ops q) × IsExact m j (run ops q)
run-IsExact m j [] q o w x = (w, x)
run-IsExact m j (op ∷ ops) q o w x =
    run-IsExact m j ops (apply op q) (ground (arith, o)) (apply-IsWell op q w)
      (apply-IsExact m j op q (ground (arith, o)) w x)

-- A timer of `suc m` loops that never ran before goes into a well-formed queue, and then come any calls of `insert`,
-- `erase`, `clear_point_timer` and `loop_point_timer`, none inserting its id again, and no `clear` of the whole
-- queue. Unless it was cancelled by then, it ran at most that often, has run in full when it is no longer in the
-- queue, and not yet in full while it is.
pub runs_exactly :
    (m interval_ms id time_point : ℕ) (ops : List Operation) (q r : TimerQueue)
    → IsWell q
    → insert interval_ms (pos (suc m)) id time_point q ≡ some r
    → fires id q.pool ≡ 0
    → other_ids id ops ≡ true
    → ((run ops r).tasks id).loop_count ≡ pos (suc m)
    → (fires id (run ops r).pool ≤ suc m)
      × ((count id (run ops r).all_timers ≡ 0) ↔ (fires id (run ops r).pool ≡ suc m))
runs_exactly m interval_ms id time_point ops q r w e fresh o going =
    let made = insert-eq-some interval_ms (pos (suc m)) id time_point q r e in
    let ready =
      subst (IsExact m id) made.2 (put_in_new m id interval_ms time_point q made.1 fresh) in
    let x =
      (run-IsExact m id ops r o (insert-IsWell interval_ms (pos (suc m)) id time_point q r w e)
        ready).1 in
    ground (arith, x.ran_index going, x.index_to going, x.inside_is going)
