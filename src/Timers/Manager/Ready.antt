-- ===== src/Timers/Manager/Ready.antt =====
-- A manager never stalls: as long as a timer is in its queue a wait is outstanding.
use btool.Common.{
  ℕ, zero, suc, ◌<◌, ◌≡◌, refl, sym, ap, subst, true, false, not, List, [], ◌∷◌, ◌++◌, map, none,
  some, if◌then◌else◌, arith, Bool-cases, length, length-append, inl, inr,
}
use btool.AtomicSwitch
use btool.Timers.Queue.{empty}
use btool.Timers.Queue.WellFormed.{IsWell}
use btool.Timers.Queue.Front.{front-IsNext}
use btool.Timers.Manager.{TimerManager, Wait, WaitState, abort, new_wait, start_task, go_on, ends}

pub record IsReady (m : TimerManager) : Type 0 where
  pub well : IsWell m.queue
  pub current : (id : ℕ) → m.cur_task ≡ some id → 0 < length m.waits
  pub idle : m.cur_task ≡ none → empty m.queue ≡ true
  pub stopped : AtomicSwitch.has_started m.switch ≡ false → empty m.queue ≡ true

pub length-map : {A B : Type 0} (f : A → B) (xs : List A) → length (map f xs) ≡ length xs
length-map f [] = refl
length-map f (x ∷ xs) = ap suc (length-map f xs)

pub length-ends : (s : WaitState) (i : ℕ) (ws : List Wait) → length (ends s i ws) ≡ length ws
length-ends s i [] = refl
length-ends s zero (w ∷ ws) = refl
length-ends s (suc i) (w ∷ ws) = ap suc (length-ends s i ws)

pub started_task :
    (id : ℕ) (m : TimerManager)
    → AtomicSwitch.has_started m.switch ≡ true
    → start_task id m
      ≡ record m { waits = map abort m.waits ++ new_wait id (m.queue.tasks id).time_point ∷ [] }
unfolding start_task AtomicSwitch.has_started AtomicSwitch.has_init
started_task id m h =
    ap
      (λ b. if not b then m else record m {
        waits = map abort m.waits ++ new_wait id (m.queue.tasks id).time_point ∷ [];
      })
      h

-- The waits outstanding are aborted and one more begins.
pub start_task-IsReady :
    (id : ℕ) (m : TimerManager)
    → IsWell m.queue
    → AtomicSwitch.has_started m.switch ≡ true
    → IsReady (start_task id (record m { cur_task = some id }))
start_task-IsReady id m w h =
    subst IsReady (sym (started_task id (record m { cur_task = some id }) h)) (record {
      well = w;
      current = λ j e. omega (
        arith,
        length-append (map abort m.waits) (new_wait id (m.queue.tasks id).time_point ∷ []),
      );
      idle = λ e. absurd (ground arith);
      stopped = λ e. absurd (ground (arith, h));
    })

-- What the end of the handler needs of the state before it.
pub record IsFree (m : TimerManager) : Type 0 where
  pub well : IsWell m.queue
  pub free : m.cur_task ≡ none
  pub stopped : AtomicSwitch.has_started m.switch ≡ false → empty m.queue ≡ true

pub go_on-IsReady : (m : TimerManager) → IsFree m → IsReady (go_on m)
unfolding go_on
go_on-IsReady m f = elim (Bool-cases (empty m.queue)) [
  | inl e ↦
      rw (e, go_on)
        (record {
          well = f.well;
          current = λ id c. absurd (ground (arith, f.free));
          idle = λ c. e;
          stopped = f.stopped;
        })
  | inr e ↦
      let next = front-IsNext m.queue f.well e in
      rw (e, next.1, go_on) (start_task-IsReady next.0 m f.well (is_started e))
]
  where
    is_started : empty m.queue ≡ false → AtomicSwitch.has_started m.switch ≡ true
    is_started e = ground (arith, f.stopped)
