-- ===== src/SerialTaskQueue/Serial/Ready.antt =====
-- The threads of `add_task` have tasks that are not empty, and keep the invariant.
use btool.Common.{
  ℕ, zero, suc, ◌≡◌, sym, subst, Bool, true, false, ◌||◌, List, [], ◌∷◌, none, some, Option,
  if◌then◌else◌, arith, Option-cases, inl, inr, ap, refl,
}
use btool.PropCountNodeList.Refine.{Run}
use btool.LastTaskQueue.{TaskItem, extract}
use btool.SerialTaskQueue.{SerialTaskQueue, not_full, add_fast, add_slow, start}
use btool.SerialTaskQueue.Threads.{
  System, Action, enters, misses, adds_fast, adds_slow, adds_restarted, pops, finishes, starts,
  stops, removes, clears, accept, accept_slow, enter, miss, go_fast, go_slow, go_restarted,
}
use btool.SerialTaskQueue.Runs.{run_list}
use btool.SerialTaskQueue.Serial.{IsSerial}
use btool.SerialTaskQueue.Serial.Steps.{threads-IsSerial, add-IsSerial, start-IsSerial}

abbrev pub AllReal : List (ℕ × TaskItem) → Type 0
AllReal [] = Unit
AllReal ((p, none) ∷ threads) = ⊥
AllReal ((p, some t) ∷ threads) = AllReal threads

pub record IsReady (s : System (List Run)) : Type 0 where
  pub serial : IsSerial s
  pub fast_real : AllReal s.fast
  pub slow_real : AllReal s.slow

-- Actions that take nothing away: no task is empty, and nothing is removed or cleared.
abbrev pub IsQuiet : Action → Type 0
IsQuiet (enters p none) = ⊥
IsQuiet (enters p (some t)) = Unit
IsQuiet (misses i) = Unit
IsQuiet (adds_fast i) = Unit
IsQuiet (adds_slow i) = Unit
IsQuiet (adds_restarted i) = Unit
IsQuiet pops = Unit
IsQuiet (finishes i) = Unit
IsQuiet starts = Unit
IsQuiet (stops true) = Unit
IsQuiet (stops false) = ⊥
IsQuiet (removes p) = ⊥
IsQuiet clears = ⊥

abbrev pub AllQuiet : List Action → Type 0
AllQuiet [] = Unit
AllQuiet (a ∷ actions) = IsQuiet a × AllQuiet actions

-- A thread taken out has a task that is not empty, as have the others.
extract-AllReal :
    (i : ℕ) (threads : List (ℕ × TaskItem)) (p : ℕ) (f : TaskItem) (rest : List (ℕ × TaskItem))
    → AllReal threads
    → extract i threads ≡ some ((p, f), rest)
    → (t : ℕ) × (f ≡ some t) × AllReal rest
unfolding extract
extract-AllReal i [] p f rest real e = absurd (ground (arith, e))
extract-AllReal zero ((q, none) ∷ threads) p f rest real e = absurd real
extract-AllReal zero ((q, some t) ∷ threads) p f rest real e =
    (t, ground (arith, e), subst AllReal {x = threads} {y = rest} (ground (arith, e)) real)
extract-AllReal (suc i) ((q, none) ∷ threads) p f rest real e = absurd real
extract-AllReal (suc i) ((q, some u) ∷ threads) p f rest real e =
    elim (Option-cases (extract i threads)) [
      | inl h ↦ absurd (ground (arith, e, h))
      | inr (((p', f'), others), h) ↦
          let (t, found, left) = extract-AllReal i threads p' f' others real h in
          (
            t,
            ground (arith, e, h, found),
            subst AllReal {x = (q, some u) ∷ others} {y = rest} (ground (arith, e, h)) left,
          )
    ]

reply-AllReal :
    (p : ℕ) (f : TaskItem) (r : SerialTaskQueue (List Run) × Bool) (s : System (List Run))
    → AllReal s.fast
    → AllReal s.slow
    → AllReal (accept run_list p f r s).fast × AllReal (accept run_list p f r s).slow
unfolding accept
reply-AllReal p f (q, true) s fast slow = (fast, slow)
reply-AllReal p f (q, false) s fast slow = (fast, slow)

pub accept-IsReady :
    (p t : ℕ) (s : System (List Run))
    → IsReady s
    → IsReady (accept run_list p (some t) (add_fast run_list p (some t) s.shared) s)
accept-IsReady p t s h =
    let (fast, slow) =
      reply-AllReal p (some t) (add_fast run_list p (some t) s.shared) s h.fast_real h.slow_real in
    record { serial = add-IsSerial s h.serial p t; fast_real = fast; slow_real = slow }

pub enter-IsReady :
    (p t : ℕ) (s : System (List Run)) → IsReady s → IsReady (enter run_list p (some t) s)
unfolding enter
enter-IsReady p t s h = by_test (not_full run_list s.shared)
  where
    by_test :
        (b : Bool)
        → IsReady (
            if b
            then record s { fast = (p, some t) ∷ s.fast }
            else record s { slow = (p, some t) ∷ s.slow })
    by_test true = record {
      serial = threads-IsSerial s h.serial ((p, some t) ∷ s.fast) s.slow;
      fast_real = h.fast_real;
      slow_real = h.slow_real;
    }
    by_test false = record {
      serial = threads-IsSerial s h.serial s.fast ((p, some t) ∷ s.slow);
      fast_real = h.fast_real;
      slow_real = h.slow_real;
    }

-- A thread on a path, with the others.
pub OnPath : List (ℕ × TaskItem) → Option ((ℕ × TaskItem) × List (ℕ × TaskItem)) → Type 0
OnPath threads none = Unit
OnPath threads (some ((p, f), rest)) = (t : ℕ) × (f ≡ some t) × AllReal rest

pub extract-OnPath :
    (i : ℕ) (threads : List (ℕ × TaskItem)) → AllReal threads → OnPath threads (extract i threads)
unfolding OnPath
extract-OnPath i threads real = elim (Option-cases (extract i threads)) [
  | inl e ↦ subst (OnPath threads) (sym e) tt
  | inr (((p, f), rest), e) ↦
      subst (OnPath threads) (sym e) (extract-AllReal i threads p f rest real e)
]

pub miss-IsReady :
    (s : System (List Run)) (x : Option ((ℕ × TaskItem) × List (ℕ × TaskItem)))
    → OnPath s.fast x
    → IsReady s
    → IsReady (miss run_list x s)
unfolding miss OnPath
miss-IsReady s none path h = h
miss-IsReady s (some ((p, none), rest)) (t, e, real) h = absurd (ground (arith, e))
miss-IsReady s (some ((p, some u), rest)) (t, e, real) h = record {
  serial = threads-IsSerial s h.serial rest ((p, some u) ∷ s.slow);
  fast_real = real;
  slow_real = h.slow_real;
}

pub go_fast-IsReady :
    (s : System (List Run)) (x : Option ((ℕ × TaskItem) × List (ℕ × TaskItem)))
    → OnPath s.fast x
    → IsReady s
    → IsReady (go_fast run_list x s)
unfolding go_fast OnPath
go_fast-IsReady s none path h = h
go_fast-IsReady s (some ((p, none), rest)) (t, e, real) h = absurd (ground (arith, e))
go_fast-IsReady s (some ((p, some u), rest)) (t, e, real) h =
    accept-IsReady p u (record s { fast = rest })
      (record {
        serial = threads-IsSerial s h.serial rest s.slow;
        fast_real = real;
        slow_real = h.slow_real;
      })

pub go_slow-IsReady :
    (s : System (List Run)) (x : Option ((ℕ × TaskItem) × List (ℕ × TaskItem)))
    → OnPath s.slow x
    → IsReady s
    → IsReady (go_slow run_list x s)
unfolding go_slow OnPath add_slow accept_slow
go_slow-IsReady s none path h = h
go_slow-IsReady s (some ((p, none), rest)) (t, e, real) h = absurd (ground (arith, e))
go_slow-IsReady s (some ((p, some u), rest)) (t, e, real) h =
    by_test (s.shared.stopped || not_full run_list s.shared)
  where
    by_test :
        (b : Bool)
        → IsReady (
            accept_slow run_list p
              (some u)
              rest
              (if b then some (add_fast run_list p (some u) s.shared) else none)
              s)
    by_test true =
        accept-IsReady p u (record s { slow = rest })
          (record {
            serial = threads-IsSerial s h.serial s.fast rest;
            fast_real = h.fast_real;
            slow_real = real;
          })
    by_test false = h

start_reopens :
    (q : SerialTaskQueue (List Run))
    → q.stopped ≡ true
    → start run_list q ≡ record q { stopped = false }
unfolding start
start_reopens q e = ap (λ b. if b then record q { stopped = false } else q) e

-- What `start` makes of a stopped queue.
reopened-IsSerial :
    (s : System (List Run))
    → IsSerial s
    → s.shared.stopped ≡ true
    → IsSerial (record s { shared = record s.shared { stopped = false } })
reopened-IsSerial s h e =
    subst (λ q. IsSerial (record s { shared = q })) (start_reopens s.shared e) (start-IsSerial s h)

pub go_restarted-IsReady :
    (s : System (List Run)) (x : Option ((ℕ × TaskItem) × List (ℕ × TaskItem)))
    → OnPath s.slow x
    → IsReady s
    → IsReady (go_restarted run_list x s)
unfolding go_restarted OnPath
go_restarted-IsReady s none path h = h
go_restarted-IsReady s (some ((p, none), rest)) (t, e, real) h = absurd (ground (arith, e))
go_restarted-IsReady s (some ((p, some u), rest)) (t, e, real) h = by_flag s.shared.stopped refl
  where
    restarted : System (List Run)
    restarted = record s { shared = record s.shared { stopped = false }; slow = rest }

    by_flag :
        (b : Bool)
        → s.shared.stopped ≡ b
        → IsReady (
            if b
            then accept run_list p
                (some u)
                (add_fast run_list p (some u) restarted.shared)
                restarted
            else go_slow run_list (some ((p, some u), rest)) s)
    by_flag true on = accept-IsReady p u restarted (record {
      serial =
          threads-IsSerial (record s { shared = record s.shared { stopped = false } })
            (reopened-IsSerial s h.serial on) s.fast rest;
      fast_real = h.fast_real;
      slow_real = real;
    })
    by_flag false off =
        go_slow-IsReady s (some ((p, some u), rest)) (unfold OnPath in (t, e, real)) h
