-- ===== src/SerialTaskQueue/Serial.antt =====
-- The invariant of a `SerialTaskQueue` from which nothing is removed, over the runs of its list.
pub mod Puts
pub mod Takes
pub mod Finishes
pub mod Stuck
pub mod Steps
pub mod Ready
pub mod Course
use btool.Common.{
  ℕ, suc, ◌+◌, ◌%◌, ◌^◌, ◌<◌, ◌≤◌, ◌≡◌, ◌≢◌, refl, sym, ap, ◌∙◌, Bool, true, false, not, ◌&&◌, List,
  [], ◌∷◌, ◌++◌, Option, none, some, ◌==◌, if◌then◌else◌, length, arith,
}
use btool.Common.Assoc.{contains, count, lookup, keys, insert, erase, lookup-insert, lookup-erase}
use btool.PropCountNodeList.Refine.{Run}
use btool.LastTaskQueue.{TaskItem}
use btool.SerialTaskQueue.{SerialTaskQueue, tasks_of, drop_front}
use btool.SerialTaskQueue.Threads.{System}
use btool.SerialTaskQueue.Runs.{total, total_all, marked, nonzero}

-- The tasks of a property in a history, in order.
unfoldable pub history : ℕ → List (ℕ × TaskItem) → List TaskItem
history p [] = []
history p ((q, f) ∷ fs) = let rest = history p fs in if q == p then f ∷ rest else rest

pub history-append :
    (p q : ℕ) (f : TaskItem) (fs : List (ℕ × TaskItem))
    → history p (fs ++ (q, f) ∷ []) ≡ (if q == p then history p fs ++ f ∷ [] else history p fs)
unfolding history
history-append p q f [] = ground arith
history-append p q f ((r, g) ∷ fs) = ground (arith, history-append p q f fs)

-- The tasks of a property that are not yet taken out: all but the first where that one runs.
abbrev pub waiting : {S : Type 0} → ℕ → SerialTaskQueue S → List TaskItem
waiting p q =
    if contains p q.cur_props then drop_front (tasks_of p q.wait_tasks) else tasks_of p q.wait_tasks

unfoldable pub all_real : List TaskItem → Bool
all_real [] = true
all_real (none ∷ fs) = false
all_real (some t ∷ fs) = all_real fs

pub all_real-append : (fs : List TaskItem) (t : ℕ) → all_real (fs ++ some t ∷ []) ≡ all_real fs
unfolding all_real
all_real-append [] t = refl
all_real-append (none ∷ fs) t = refl
all_real-append (some u ∷ fs) t = all_real-append fs t

abbrev pub unless_empty : List TaskItem → Option (List TaskItem)
unless_empty [] = none
unless_empty (f ∷ fs) = some (f ∷ fs)

pub tasks_of-insert :
    (p q : ℕ) (tasks : List TaskItem) (entries : List (ℕ × List TaskItem))
    → tasks_of q (insert p tasks entries) ≡ (if p == q then tasks else tasks_of q entries)
tasks_of-insert p q tasks entries = ground (arith, lookup-insert p q tasks entries)

pub tasks_of-erase :
    (p q : ℕ) (entries : List (ℕ × List TaskItem))
    → tasks_of q (erase p entries) ≡ (if p == q then [] else tasks_of q entries)
tasks_of-erase p q entries = ground (arith, lookup-erase p q entries)

pub record IsSerialAt (p : ℕ) (s : System (List Run)) : Type 0 where
  pub counted :
      length (tasks_of p s.shared.wait_tasks)
      ≡ total p s.shared.wait_props + count p s.shared.cur_props
  pub kept : lookup p s.shared.wait_tasks ≡ unless_empty (tasks_of p s.shared.wait_tasks)
  pub distinct : count p (keys s.shared.wait_tasks) ≤ 1
  pub marks : marked (not (contains p s.shared.cur_props)) p s.shared.wait_props ≡ true
  pub runs : count p (keys s.running) ≡ count p s.shared.cur_props
  pub once : count p s.shared.cur_props ≤ 1
  pub ordered : history p s.accepted ≡ history p s.taken ++ waiting p s.shared
  pub real : all_real (waiting p s.shared) ≡ true

pub record IsSerial (s : System (List Run)) : Type 0 where
  pub serial_at : (p : ℕ) → IsSerialAt p s
  pub full : nonzero s.shared.wait_props ≡ true
  pub sized : s.shared.approx_size ≡ total_all s.shared.wait_props % 2 ^ 64
  pub unfailed : s.failed ≡ false
