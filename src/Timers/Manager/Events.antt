-- ===== src/Timers/Manager/Events.antt =====
-- What takes timers out keeps a manager ready.
use btool.Common.{
  ℕ, ◌≡◌, refl, false, List, map, Option, none, some, if◌then◌else◌, arith, Bool-cases, length, inl,
  inr,
}
use btool.Common.Assoc.{contains}
use btool.AtomicSwitch
use btool.AtomicSwitch.{AtomicSwitch}
use btool.Timers.Queue.{TimerQueue, erase_timer, clear_point_timer}
use btool.Timers.Queue.WellFormed.{IsWell, erase_timer-IsWell}
use btool.Timers.Queue.Front.{clear_point_timer-IsWell}
use btool.Timers.Manager.{
  TimerManager, Wait, abort, cancel_waits, erase, clear, clear_point, is_task,
}
use btool.Timers.Queue.Empty.{
  Fewer, Fewer-empty, erase_timer-Fewer, clear_point_timer-Fewer, clear-IsWell,
}
use btool.Timers.Manager.Ready.{IsReady, IsFree, length-map}

-- Another switch, which does not stop what was started.
pub switch-IsReady :
    (m : TimerManager) (s : AtomicSwitch)
    → IsReady m
    → (AtomicSwitch.has_started s ≡ false → AtomicSwitch.has_started m.switch ≡ false)
    → IsReady (record m { switch = s })
switch-IsReady m s r h = record {
  well = r.well;
  current = r.current;
  idle = r.idle;
  stopped = λ e. r.stopped (h e);
}

-- As many waits, whatever became of them.
pub waits-IsReady :
    (m : TimerManager) (ws : List Wait)
    → IsReady m
    → length ws ≡ length m.waits
    → IsReady (record m { waits = ws })
waits-IsReady m ws r h = record {
  well = r.well;
  current = λ id e. omega (arith, h, r.current id e);
  idle = r.idle;
  stopped = r.stopped;
}

pub cancel_waits-IsReady : (m : TimerManager) → IsReady m → IsReady (cancel_waits m)
cancel_waits-IsReady m r = waits-IsReady m (map abort m.waits) r (length-map abort m.waits)

-- A queue with no new timer.
queue-IsReady :
    (m : TimerManager) (q : TimerQueue)
    → IsReady m
    → IsWell q
    → Fewer q m.queue
    → IsReady (record m { queue = q })
queue-IsReady m q r w few = record {
  well = w;
  current = r.current;
  idle = λ e. Fewer-empty q m.queue few (r.idle e);
  stopped = λ e. Fewer-empty q m.queue few (r.stopped e);
}

pub queue-IsFree :
    (m : TimerManager) (q : TimerQueue) (ws : List Wait)
    → IsReady m
    → IsWell q
    → Fewer q m.queue
    → IsFree (record m { waits = ws; cur_task = none; queue = q })
queue-IsFree m q ws r w few = record {
  well = w;
  free = refl;
  stopped = λ e. Fewer-empty q m.queue few (r.stopped e);
}

pub clear-IsReady :
    (m : TimerManager) (s : AtomicSwitch) → IsReady (record (clear m) { switch = s })
unfolding clear
clear-IsReady m s = record {
  well = clear-IsWell m.queue;
  current = λ id e. absurd (ground arith);
  idle = λ e. refl;
  stopped = λ e. refl;
}

erased-IsReady :
    (erased : Option ℕ) (m : TimerManager)
    → IsReady m
    → IsReady (elim erased [
      | none ↦ m
      | some task ↦ if is_task m.cur_task task then cancel_waits m else m
    ])
erased-IsReady none m r = r
erased-IsReady (some task) m r = elim (Bool-cases (is_task m.cur_task task)) [
  | inl e ↦ rw e (cancel_waits-IsReady m r)
  | inr e ↦ rw e r
]

pub erase-IsReady : (id : ℕ) (m : TimerManager) → IsReady m → IsReady (erase id m)
unfolding erase
erase-IsReady id m r =
    erased-IsReady (erase_timer id m.queue).0 (record m { queue = (erase_timer id m.queue).1 })
      (queue-IsReady m (erase_timer id m.queue).1 r (erase_timer-IsWell id m.queue r.well)
        (erase_timer-Fewer id m.queue))

pointed-IsReady :
    (cur : Option ℕ) (ids : List ℕ) (m : TimerManager)
    → IsReady m
    → IsReady (elim cur [ none ↦ m | some task ↦ if contains task ids then cancel_waits m else m ])
pointed-IsReady none ids m r = r
pointed-IsReady (some task) ids m r = elim (Bool-cases (contains task ids)) [
  | inl e ↦ rw e (cancel_waits-IsReady m r)
  | inr e ↦ rw e r
]

pub clear_point-IsReady : (t : ℕ) (m : TimerManager) → IsReady m → IsReady (clear_point t m)
unfolding clear_point
clear_point-IsReady t m r =
    pointed-IsReady m.cur_task (clear_point_timer t m.queue).0
      (record m { queue = (clear_point_timer t m.queue).1 })
      (queue-IsReady m (clear_point_timer t m.queue).1 r (clear_point_timer-IsWell t m.queue r.well)
        (clear_point_timer-Fewer t m.queue))
