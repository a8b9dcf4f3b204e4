-- ===== src/Timers/Manager/Spin.antt =====
-- A `clear` followed by an `insert`, before the handler of the wait that the `clear` aborted has run: from then on
-- two waits abort each other.
use btool.Common.{
  ℕ, zero, suc, ◌+◌, ◌%◌, ◌^◌, ◌≡◌, ◌≢◌, refl, sym, ap, ◌∙◌, subst, true, false, [], ◌∷◌, ◌++◌, map,
  none, some, arith,
}
use btool.Common.Int.{ℤ}
use btool.AtomicSwitch
use btool.Timers.Queue
use btool.Timers.Queue.{
  TimerQueue, update, empty, front, is_nil, erase_timer, clear_point_timer, loop_point_timer,
}
use btool.Common.Assoc.{contains, count}
use btool.Timers.{TimerTask}
use btool.Timers.Sorted.{put_key}
use btool.Timers.Queue.WellFormed.{put_in, put_in-IsWell, new_task, IsWell}
use btool.Timers.Manager.{
  TimerManager, aborted, abort, new_wait, revise_interval, revise_time_point, start_task, settle,
  insert, insert_locked, clear, go_on, handler, handle,
}
use btool.Timers.Queue.Empty.{clear-IsWell}
use btool.Timers.Manager.Ready.{started_task}
use btool.Timers.Manager.Armed.{go_on-eq}

-- Two waits, of which the first was aborted, so that its handler is called at once.
pub record IsSpinning (m : TimerManager) : Type 0 where
  pub started : AtomicSwitch.has_started m.switch ≡ true
  pub well : IsWell m.queue
  pub some_timer : empty m.queue ≡ false
  pub first : ℕ × ℕ
  pub second : ℕ × ℕ
  pub waits_are :
      m.waits
      ≡ record (new_wait first.0 first.1) { state = aborted } ∷ new_wait second.0 second.1 ∷ []

-- Both handlers find nothing to do but to go on, which aborts the other wait and begins one more.
handle_first :
    (m : TimerManager) (p : IsSpinning m)
    → handle 0 m ≡ go_on (record m { waits = new_wait p.second.0 p.second.1 ∷ []; cur_task = none })
unfolding handle handler
handle_first m p = ap (λ ws. handle 0 (record m { waits = ws })) p.waits_are

after_first :
    (m : TimerManager) (b t id : ℕ)
    → AtomicSwitch.has_started m.switch ≡ true
    → IsWell m.queue
    → empty m.queue ≡ false
    → IsSpinning (record m {
      cur_task = some id;
      waits = map abort (new_wait b t ∷ []) ++ new_wait id (m.queue.tasks id).time_point ∷ [];
    })
after_first m b t id on w e = record {
  started = on;
  well = w;
  some_timer = e;
  first = (b, t);
  second = (id, (m.queue.tasks id).time_point);
  waits_are = refl;
}

handle-IsSpinning :
    (m : TimerManager) → IsSpinning m → IsSpinning (handle 0 m) × ((handle 0 m).queue ≡ m.queue)
handle-IsSpinning m p =
    let on =
      go_on-eq (record m { waits = new_wait p.second.0 p.second.1 ∷ []; cur_task = none })
        (record {
          well = p.well;
          free = refl;
          stopped = λ off. absurd (ground (arith, p.started, off));
        })
        p.some_timer in
    let eq = handle_first m p ∙ on.2 in
    (
      subst IsSpinning (sym eq)
          (after_first m p.second.0 p.second.1 on.0 p.started p.well p.some_timer),
      ap (λ r. r.queue) eq,
    )

-- The handler of the first wait, a number of times.
abbrev pub rounds : ℕ → TimerManager → TimerManager
rounds zero m = m
rounds (suc n) m = rounds n (handle 0 m)

rounds-IsSpinning :
    (n : ℕ) (m : TimerManager)
    → IsSpinning m
    → IsSpinning (rounds n m) × ((rounds n m).queue ≡ m.queue)
rounds-IsSpinning zero m p = (p, refl)
rounds-IsSpinning (suc n) m p =
    let once = handle-IsSpinning m p in
    let more = rounds-IsSpinning n (handle 0 m) once.0 in (more.0, more.1 ∙ once.1)

new_id : TimerManager → ℕ
new_id m = (m.next_id + 1) % 2 ^ 64

count_none : (id : ℕ) → count id [] ≡ 0
unfolding count
count_none id = refl

put_first : (id : ℕ) → is_nil (put_key id []) ≡ false
unfolding put_key
put_first id = refl

inserted_first :
    (interval_ms : ℕ) (loop_count : ℤ) (time_point : ℕ) (m : TimerManager) (id : ℕ)
    → id ≢ 0
    → (Queue.insert interval_ms loop_count id time_point (Queue.clear m.queue))
      ≡ some (put_in id (new_task interval_ms loop_count time_point) (Queue.clear m.queue))
unfolding Queue.insert contains
inserted_first interval_ms loop_count time_point m id h = ground arith

-- The manager that the `insert` leaves.
filled_with : ℕ → TimerTask → TimerManager → TimerManager
filled_with id task m = record (clear m) {
  next_id = id;
  cur_task = some id;
  queue = put_in id task (Queue.clear m.queue);
}

insert-settle :
    (interval_ms : ℕ) (loop_count : ℤ) (time_point : ℕ) (m : TimerManager) {q : TimerQueue}
    → AtomicSwitch.has_started m.switch ≡ true
    → Queue.insert
        (revise_interval m.space_millsecond interval_ms)
        loop_count
        (new_id m)
        (revise_time_point m.space_millsecond time_point)
        m.queue
      ≡ some q
    → (insert interval_ms loop_count time_point m).1
      ≡ settle (new_id m) (record m { next_id = new_id m; queue = q })
unfolding insert insert_locked new_id
insert-settle interval_ms loop_count time_point m on made =
    rw (on, made, insert, insert_locked) refl

settle-eq :
    (id : ℕ) (task : TimerTask) (m : TimerManager)
    → settle id (record (clear m) { next_id = id; queue = put_in id task (Queue.clear m.queue) })
      ≡ start_task id (filled_with id task m)
unfolding settle clear filled_with
settle-eq id task m = refl

filled_with-IsSpinning :
    (id : ℕ) (task : TimerTask) (a t : ℕ) (m : TimerManager)
    → AtomicSwitch.has_started m.switch ≡ true
    → m.waits ≡ new_wait a t ∷ []
    → IsSpinning (start_task id (filled_with id task m))
unfolding filled_with clear
filled_with-IsSpinning id task a t m on one =
    subst IsSpinning (sym (started_task id (filled_with id task m) on)) (record {
      started = on;
      well = put_in-IsWell id task (Queue.clear m.queue) (clear-IsWell m.queue) (count_none id);
      some_timer = put_first id;
      first = (a, t);
      second = (id, (update m.queue.tasks id task id).time_point);
      waits_are =
          ap
            (λ ws.
              map abort (map abort ws)
              ++ new_wait id (update m.queue.tasks id task id).time_point ∷ [])
            one;
    })

-- In a manager that was started, with one wait going on, a `clear` and then an `insert` of a timer leave two waits, of
-- which the first was aborted. However often the handler of the first wait is called, two waits are left,
-- the first one aborted, and nothing changes in the queue: the handlers go on without any time passing.
pub waits_spin :
    (interval_ms : ℕ) (loop_count : ℤ) (time_point n a t : ℕ) (m : TimerManager)
    → AtomicSwitch.has_started m.switch ≡ true
    → m.waits ≡ new_wait a t ∷ []
    → (m.next_id + 1) % 2 ^ 64 ≢ 0
    → IsSpinning (rounds n (insert interval_ms loop_count time_point (clear m)).1)
      × ((rounds n (insert interval_ms loop_count time_point (clear m)).1).queue
          ≡ (insert interval_ms loop_count time_point (clear m)).1.queue)
unfolding new_id clear
waits_spin interval_ms loop_count time_point n a t m on one h =
    rounds-IsSpinning n (insert interval_ms loop_count time_point (clear m)).1 (
      subst IsSpinning
        (sym (
          insert-settle interval_ms loop_count time_point (clear m) on (
            inserted_first (revise_interval m.space_millsecond interval_ms) loop_count
              (revise_time_point m.space_millsecond time_point) m (new_id m) h)
          ∙ settle-eq (new_id m) task m))
        (filled_with-IsSpinning (new_id m) task a t m on one))
  where
    task : TimerTask
    task =
        new_task (revise_interval m.space_millsecond interval_ms) loop_count
          (revise_time_point m.space_millsecond time_point)
