-- ===== src/SerialTaskQueue/Serial/Course.antt =====
-- From the start on the invariant holds, as long as nothing is taken away.
use btool.Common.{ℕ, refl, true, false, List, [], ◌∷◌, none, some, Option, arith}
use btool.Common.Assoc.{contains, count, lookup, keys}
use btool.PropCountNodeList.Refine.{Run}
use btool.LastTaskQueue.{extract}
use btool.SerialTaskQueue.{Popped, waits, leaves, asserts, takes, init, pop_locked}
use btool.SerialTaskQueue.Threads.{
  System, Action, enters, misses, adds_fast, adds_slow, adds_restarted, pops, finishes, starts,
  stops, removes, clears, boot, hold, finish, step, run,
}
use btool.SerialTaskQueue.Runs.{run_list, total, total_all, marked, nonzero}
use btool.SerialTaskQueue.Serial.{IsSerial, history, all_real}
use btool.SerialTaskQueue.Serial.Steps.{
  pop-IsSerial, finish-IsSerial, start-IsSerial, stop-IsSerial,
}
use btool.SerialTaskQueue.Serial.Ready.{
  AllReal, IsReady, enter-IsReady, miss-IsReady, go_fast-IsReady, go_slow-IsReady,
  go_restarted-IsReady, extract-OnPath, IsQuiet, AllQuiet,
}

hold-AllReal :
    (x : Popped (List Run)) (s : System (List Run))
    → AllReal s.fast
    → AllReal s.slow
    → AllReal (hold run_list x s).fast × AllReal (hold run_list x s).slow
unfolding hold
hold-AllReal waits s fast slow = (fast, slow)
hold-AllReal leaves s fast slow = (fast, slow)
hold-AllReal asserts s fast slow = (fast, slow)
hold-AllReal (takes q p f) s fast slow = (fast, slow)

finish-AllReal :
    (x : Option ((ℕ × ℕ) × List (ℕ × ℕ))) (s : System (List Run))
    → AllReal s.fast
    → AllReal s.slow
    → AllReal (finish run_list x s).fast × AllReal (finish run_list x s).slow
unfolding finish
finish-AllReal none s fast slow = (fast, slow)
finish-AllReal (some ((p, t), rest)) s fast slow = (fast, slow)

step-IsReady :
    (s : System (List Run)) (a : Action) → IsQuiet a → IsReady s → IsReady (step run_list s a)
unfolding step
step-IsReady s (enters p none) quiet h = absurd quiet
step-IsReady s (enters p (some t)) quiet h = enter-IsReady p t s h
step-IsReady s (misses i) quiet h =
    miss-IsReady s (extract i s.fast) (extract-OnPath i s.fast h.fast_real) h
step-IsReady s (adds_fast i) quiet h =
    go_fast-IsReady s (extract i s.fast) (extract-OnPath i s.fast h.fast_real) h
step-IsReady s (adds_slow i) quiet h =
    go_slow-IsReady s (extract i s.slow) (extract-OnPath i s.slow h.slow_real) h
step-IsReady s (adds_restarted i) quiet h =
    go_restarted-IsReady s (extract i s.slow) (extract-OnPath i s.slow h.slow_real) h
step-IsReady s pops quiet h =
    let (fast, slow) = hold-AllReal (pop_locked run_list s.shared) s h.fast_real h.slow_real in
    record { serial = pop-IsSerial s h.serial; fast_real = fast; slow_real = slow }
step-IsReady s (finishes i) quiet h =
    let (fast, slow) = finish-AllReal (extract i s.running) s h.fast_real h.slow_real in
    record { serial = finish-IsSerial s h.serial i; fast_real = fast; slow_real = slow }
step-IsReady s starts quiet h = record {
  serial = start-IsSerial s h.serial;
  fast_real = h.fast_real;
  slow_real = h.slow_real;
}
step-IsReady s (stops true) quiet h = record {
  serial = stop-IsSerial s h.serial;
  fast_real = h.fast_real;
  slow_real = h.slow_real;
}
step-IsReady s (stops false) quiet h = absurd quiet
step-IsReady s (removes p) quiet h = absurd quiet
step-IsReady s clears quiet h = absurd quiet

boot-IsSerial : (m : ℕ) → IsSerial (boot run_list m [])
unfolding boot init lookup keys count contains total total_all marked nonzero history all_real
boot-IsSerial m = record {
  serial_at = λ p. record {
    counted = refl;
    kept = refl;
    distinct = ground arith;
    marks = refl;
    runs = refl;
    once = ground arith;
    ordered = refl;
    real = refl;
  };
  full = refl;
  sized = refl;
  unfailed = refl;
}

boot-IsReady : (m : ℕ) → IsReady (boot run_list m [])
unfolding boot
boot-IsReady m = record { serial = boot-IsSerial m; fast_real = tt; slow_real = tt }

run-IsReady :
    (actions : List Action) (s : System (List Run))
    → AllQuiet actions
    → IsReady s
    → IsReady (run run_list s actions)
unfolding run
run-IsReady [] s quiet h = h
run-IsReady (a ∷ actions) s (quiet, rest) h =
    run-IsReady actions (step run_list s a) rest (step-IsReady s a quiet h)

pub booted-IsSerial :
    (m : ℕ) (actions : List Action)
    → AllQuiet actions
    → IsSerial (run run_list (boot run_list m []) actions)
booted-IsSerial m actions quiet =
    (run-IsReady actions (boot run_list m []) quiet (boot-IsReady m)).serial
