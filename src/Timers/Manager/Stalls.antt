-- ===== src/Timers/Manager/Stalls.antt =====
-- No course of events stalls a manager.
use btool.Common.{
  ℕ, zero, suc, ◌<◌, ◌≡◌, refl, Bool, true, false, List, [], ◌∷◌, arith, Option-cases, Bool-cases,
  length, get_elem?, inl, inr, Option, none, some, ap, ◌∙◌, ◌≢◌,
}
use btool.Common.Int.{ℤ}
use btool.AtomicSwitch
use btool.AtomicSwitch.{AtomicSwitch}
use btool.Timers.Queue
use btool.Timers.{TimerTask}
use btool.Timers.Queue.{
  TimerQueue, empty, front, is_nil, erase_timer, clear_point_timer, loop_point_timer,
}
use btool.Timers.Queue.WellFormed.{IsWell}
use btool.Timers.Manager.{
  TimerManager, expired, failed, init, returned, handle, start, stop, ends, step, Event, starts,
  stops, clears, inserts, erases, clears_point, expires, fails, handles,
}
use btool.Timers.Queue.Empty.{clear-IsWell}
use btool.LastTaskQueue.{extract}
use btool.Timers.Manager.Users.{
  Users, Action, looks, locks, does, new_users, look, lock, act, run, at_rest, may, apart,
}
use btool.Timers.Manager.Switch.{switch-insert_locked, switch-step, works_switch}
use btool.Timers.Manager.Ready.{IsReady, length-ends}
use btool.Timers.Manager.Events.{
  switch-IsReady, waits-IsReady, clear-IsReady, erase-IsReady, clear_point-IsReady,
}
use btool.Timers.Manager.Inserts.{insert-IsReady, insert_locked-IsReady, handled-IsReady}

abbrev flags : Bool → Bool → Bool → AtomicSwitch
flags i b p = record { binit = i; bstart = b; bstop = p }

-- Starting stops nothing that was started, and no more does a stop that is refused.
init_keeps :
    (i b p : Bool)
    → AtomicSwitch.has_started (AtomicSwitch.init (flags i b p)).0 ≡ false
    → AtomicSwitch.has_started (flags i b p) ≡ false
unfolding AtomicSwitch.init AtomicSwitch.finish AtomicSwitch.move AtomicSwitch.swap_init
    AtomicSwitch.swap_start AtomicSwitch.swap_stop AtomicSwitch.has_started AtomicSwitch.has_init
init_keeps i b p h = ground (arith, h)

start_keeps :
    (i b p : Bool)
    → AtomicSwitch.has_started (AtomicSwitch.start (AtomicSwitch.init (flags i b p)).0).0 ≡ false
    → AtomicSwitch.has_started (flags i b p) ≡ false
unfolding AtomicSwitch.init AtomicSwitch.start AtomicSwitch.finish AtomicSwitch.move
    AtomicSwitch.swap_init AtomicSwitch.swap_start AtomicSwitch.swap_stop AtomicSwitch.has_started
    AtomicSwitch.has_init
start_keeps true true true h = ground (arith, h)
start_keeps true true false h = ground (arith, h)
start_keeps true false true h = ground (arith, h)
start_keeps true false false h = ground (arith, h)
start_keeps false true true h = ground (arith, h)
start_keeps false true false h = ground (arith, h)
start_keeps false false true h = ground (arith, h)
start_keeps false false false h = ground (arith, h)

stop_keeps :
    (i b p : Bool)
    → returned (AtomicSwitch.stop (flags i b p)) ≡ false
    → AtomicSwitch.has_started (AtomicSwitch.stop (flags i b p)).0 ≡ false
    → AtomicSwitch.has_started (flags i b p) ≡ false
unfolding AtomicSwitch.stop AtomicSwitch.finish AtomicSwitch.move AtomicSwitch.swap_init
    AtomicSwitch.swap_start AtomicSwitch.swap_stop AtomicSwitch.has_started AtomicSwitch.has_init
stop_keeps true true true h = λ e. ground (arith, h, e)
stop_keeps true true false h = λ e. ground (arith, h, e)
stop_keeps true false true h = λ e. ground (arith, h, e)
stop_keeps true false false h = λ e. ground (arith, h, e)
stop_keeps false true true h = λ e. ground (arith, h, e)
stop_keeps false true false h = λ e. ground (arith, h, e)
stop_keeps false false true h = λ e. ground (arith, h, e)
stop_keeps false false false h = λ e. ground (arith, h, e)

start-IsReady : (m : TimerManager) → IsReady m → IsReady (start m)
unfolding start
start-IsReady m r = elim (Bool-cases (returned (AtomicSwitch.init m.switch))) [
  | inl e ↦
      rw (e, start)
        (switch-IsReady m _ r (start_keeps m.switch.binit m.switch.bstart m.switch.bstop))
  | inr e ↦
      rw (e, start)
        (switch-IsReady m _ r (init_keeps m.switch.binit m.switch.bstart m.switch.bstop))
]

stop-IsReady : (m : TimerManager) → IsReady m → IsReady (stop m)
unfolding stop
stop-IsReady m r = elim (Bool-cases (returned (AtomicSwitch.stop m.switch))) [
  | inl e ↦ rw (e, stop) (clear-IsReady m _)
  | inr e ↦
      rw (e, stop)
        (switch-IsReady m _ r (stop_keeps m.switch.binit m.switch.bstart m.switch.bstop e))
]

-- Every event keeps a manager ready.
pub step-IsReady : (e : Event) (m : TimerManager) → IsReady m → IsReady (step e m)
unfolding step handle
step-IsReady starts m r = start-IsReady m r
step-IsReady stops m r = stop-IsReady m r
step-IsReady clears m r = clear-IsReady m m.switch
step-IsReady (inserts interval_ms loop_count time_point) m r =
    insert-IsReady interval_ms loop_count time_point m r
step-IsReady (erases id) m r = erase-IsReady id m r
step-IsReady (clears_point t) m r = clear_point-IsReady t m r
step-IsReady (expires i) m r =
    waits-IsReady m (ends expired i m.waits) r (length-ends expired i m.waits)
step-IsReady (fails i) m r =
    waits-IsReady m (ends failed i m.waits) r (length-ends failed i m.waits)
step-IsReady (handles i) m r = handled-IsReady (get_elem? m.waits i) i m r

-- The manager is ready, and started while an `insert` is under way.
record AreReady (u : Users) : Type 0 where
  ready : IsReady u.manager
  started : at_rest u ≡ false → AtomicSwitch.has_started u.manager.switch ≡ true

look-AreReady :
    (interval_ms : ℕ) (loop_count : ℤ) (time_point : ℕ) (u : Users)
    → AreReady u
    → AreReady (look interval_ms loop_count time_point u)
unfolding look
look-AreReady interval_ms loop_count time_point u r =
    elim (Bool-cases (AtomicSwitch.has_started u.manager.switch)) [
      | inl on ↦ rw (on, look) (record { ready = r.ready; started = λ e. on })
      | inr off ↦ rw (off, look) r
    ]

extract-nil : (n : ℕ) → extract {A = ℕ × ℤ × ℕ} n [] ≡ none
unfolding extract
extract-nil zero = refl
extract-nil (suc n) = refl

is_found : {A : Type 0} {o : Option A} {a : A} → o ≡ some a → o ≢ none
is_found e n = absurd (ground arith)

-- Where `extract` finds a call there was one.
busy :
    (n : ℕ) (m : TimerManager) (calls rest : List (ℕ × ℤ × ℕ)) (call : ℕ × ℤ × ℕ)
    → extract n calls ≡ some (call, rest)
    → at_rest (record { manager = m; looked = calls }) ≡ false
busy n m [] rest call e = absurd (is_found e (extract-nil n))
busy n m (c ∷ calls) rest call e = refl

locked-AreReady :
    (found : Option ((ℕ × ℤ × ℕ) × List (ℕ × ℤ × ℕ))) (n : ℕ) (u : Users)
    → extract n u.looked ≡ found
    → AreReady u
    → AreReady (lock found u)
unfolding lock
locked-AreReady none n u e r = r
locked-AreReady (some ((interval_ms, loop_count, time_point), rest)) n u e r =
    let on = r.started (busy n u.manager u.looked rest (interval_ms, loop_count, time_point) e) in
    record {
      ready = insert_locked-IsReady interval_ms loop_count time_point u.manager r.ready on;
      started = λ busy.
          ap AtomicSwitch.has_started
            (switch-insert_locked interval_ms loop_count time_point u.manager)
          ∙ on;
    }

does-AreReady :
    (e : Event) (u : Users)
    → may (does e) u ≡ true
    → AreReady u
    → AreReady (record u { manager = step e u.manager })
does-AreReady e u free r = record {
  ready = step-IsReady e u.manager r.ready;
  started = λ busy. elim (Bool-cases (works_switch e)) [
    | inl works ↦ absurd (at_work e works free busy)
    | inr other ↦ ap AtomicSwitch.has_started (switch-step e u.manager other) ∙ r.started busy
  ];
}
  where
    at_work : (e : Event) → works_switch e ≡ true → may (does e) u ≡ true → at_rest u ≢ false
    at_work starts works free busy = absurd (ground (arith, free, busy))
    at_work stops works free busy = absurd (ground (arith, free, busy))
    at_work e works free busy = absurd (ground (arith, works))

act-AreReady : (a : Action) (u : Users) → may a u ≡ true → AreReady u → AreReady (act a u)
unfolding act
act-AreReady (looks interval_ms loop_count time_point) u free r =
    look-AreReady interval_ms loop_count time_point u r
act-AreReady (locks n) u free r = locked-AreReady (extract n u.looked) n u refl r
act-AreReady (does e) u free r = does-AreReady e u free r

run-AreReady :
    (actions : List Action) (u : Users)
    → apart actions u ≡ true
    → AreReady u
    → AreReady (run actions u)
run-AreReady [] u h r = r
run-AreReady (a ∷ actions) u h r =
    run-AreReady actions (act a u) (ground (arith, h)) (act-AreReady a u (ground (arith, h)) r)

init-IsReady : (space : ℕ) (tasks : ℕ → TimerTask) → IsReady (init space tasks)
init-IsReady space tasks = record {
  well = clear-IsWell (Queue.init tasks);
  current = λ id e. absurd (ground arith);
  idle = λ e. refl;
  stopped = λ e. refl;
}

-- In any course of actions from a new manager on, which are the looks at the switch and the locked parts of `insert`,
-- the other calls, and the ends and the handlers of waits: as long as no call of `start` or `stop` overlaps an
-- `insert` that is under way, another call or a handler, a manager with a timer in its queue has a wait outstanding,
-- and its queue is well-formed.
pub never_stalls :
    (space : ℕ) (tasks : ℕ → TimerTask) (actions : List Action)
    → apart actions (new_users space tasks) ≡ true
    → empty (run actions (new_users space tasks)).manager.queue ≡ false
    → (0 < length (run actions (new_users space tasks)).manager.waits)
      × IsWell (run actions (new_users space tasks)).manager.queue
never_stalls space tasks actions h some_timer =
    let all =
      run-AreReady actions (new_users space tasks) h
        (record { ready = init-IsReady space tasks; started = λ e. absurd (ground (arith, e)) }) in
    waits_on (run actions (new_users space tasks)).manager all.ready some_timer
  where
    waits_on :
        (m : TimerManager)
        → IsReady m
        → empty m.queue ≡ false
        → (0 < length m.waits) × IsWell m.queue
    waits_on m r e = (
      elim (Option-cases m.cur_task) [
        | inl none_current ↦ absurd (ground (arith, r.idle none_current, e))
        | inr (id, current) ↦ r.current id current
      ],
      r.well,
    )
