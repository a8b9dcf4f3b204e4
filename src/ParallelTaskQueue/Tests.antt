-- ===== src/ParallelTaskQueue/Tests.antt =====
-- The theorems about `ParallelTaskQueue` over a list as its queue.
use btool.Common.{ℕ, ◌+◌, ◌≡◌, refl, arith, List, [], ◌∷◌, ◌++◌, Option, none, some, length}
use btool.Common.Assoc.{count}
use btool.ParallelTaskQueue.{
  ConcurrentQueue, add_loads, pop_loads, Action, begins, moves, boot, run, step, extract, put_back,
  take_step, settle, move, init, is_start, not_full, not_empty, dequeued,
}
use btool.ParallelTaskQueue.Conserve.{one, IsBag, conserved}

abbrev first : List ℕ → Option (ℕ × List ℕ)
first [] = none
first (x ∷ xs) = some (x, xs)

abbrev list_queue : ConcurrentQueue (List ℕ)
list_queue = record {
  no_items = [];
  enqueue = λ q x. q ++ (x ∷ []);
  try_dequeue = first;
  size_approx = length;
  items = λ q. q;
}

count-last : (k x : ℕ) (q : List ℕ) → count k (q ++ (x ∷ [])) ≡ count k q + one k x
unfolding count
count-last k x [] = ground arith
count-last k x (y ∷ q) = ground (arith, count-last k x q)

count-first :
    (k x : ℕ) (q rest : List ℕ) → first q ≡ some (x, rest) → count k q ≡ count k rest + one k x
unfolding count
count-first k x [] rest e = absurd (ground arith)
count-first k x (y ∷ q) rest e = ground (arith, e)

list-IsBag : IsBag list_queue
list-IsBag = record {
  starts_empty = refl;
  enqueues = λ k x q. count-last k x q;
  dequeues = λ k x q rest e. count-first k x q rest e;
}

-- With a limit of 1, two threads pass the wait before either has put its task in.
abbrev crowd : List Action
crowd =
    begins (add_loads 5)
    ∷ begins (add_loads 6)
    ∷ moves 0
    ∷ moves 1
    ∷ moves 0
    ∷ moves 1
    ∷ moves 0
    ∷ moves 1
    ∷ moves 0
    ∷ moves 0
    ∷ begins pop_loads
    ∷ moves 0
    ∷ moves 0
    ∷ moves 0
    ∷ moves 0
    ∷ []

abbrev two_added : List Action
two_added =
    begins (add_loads 5)
    ∷ begins (add_loads 6)
    ∷ moves 0
    ∷ moves 1
    ∷ moves 0
    ∷ moves 1
    ∷ moves 0
    ∷ moves 1
    ∷ moves 0
    ∷ moves 0
    ∷ []

overshoot_test : length (run list_queue 2 (boot list_queue 1) two_added).shared.queue ≡ 2
unfolding run boot init step extract put_back take_step settle move is_start not_full
overshoot_test = refl

taken_test : length (run list_queue 2 (boot list_queue 1) crowd).taken ≡ 1
unfolding run boot init step extract put_back take_step settle move is_start not_full not_empty
    dequeued
taken_test = refl

conserved_example :
    count 5 (run list_queue 2 (boot list_queue 1) crowd).accepted
    ≡ count 5 (run list_queue 2 (boot list_queue 1) crowd).taken
      + count 5 (run list_queue 2 (boot list_queue 1) crowd).shared.queue
conserved_example = conserved list_queue 5 2 1 crowd list-IsBag (refl, (refl, (refl, tt)))
