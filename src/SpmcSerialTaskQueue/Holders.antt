-- ===== src/SpmcSerialTaskQueue/Holders.antt =====
-- The threads that hold a property of an `SPMCSerialTaskQueue`, and its flag.
use native.Mathlib.Decide.{ℕ_discrete}
use btool.Common.{
  ℕ, ◌+◌, ◌%◌, ◌^◌, ◌≤◌, ◌≡◌, refl, ap, arith, Bool, true, false, not, ◌&&◌, ◌||◌, Option, none,
  some, ltb, ◌==◌, if◌then◌else◌, length, get_elem?, Option-cases, inl, inr,
}
use btool.ParallelTaskQueue.{ConcurrentQueue}
use btool.SpmcSerialTaskQueue.{
  SpmcSerialTaskQueue, Stage, takes, looks, zeroes, zeroes_single, decrements, decrements_single,
  runs, releases, Call, add_loads, add_guards, add_enqueues, add_looks, add_zeroes,
  add_zeroes_single, add_counts, add_counts_single, pop_loads_clear, pop_loads_size, pop_indexes,
  pop_claims, pop_holds, start_swaps, stop_swaps, clear_sets, clear_blocks, clear_drains,
  clear_counts, clear_index, clear_opens, clear_size, set_flag, not_full, queue_of, dequeue, hold,
  held, claim, turn, move,
}

abbrev pub weight : ℕ → Call → ℕ
weight place (pop_holds other prop stage) = if other == place then 1 else 0
weight place c = 0

abbrev pub clears : Call → Bool
clears (stop_swaps bwait) = not bwait
clears clear_sets = true
clears (clear_blocks place left) = true
clears (clear_drains props) = true
clears (clear_counts props) = true
clears clear_index = true
clears (clear_opens place left) = true
clears clear_size = true
clears c = false

abbrev pub flag : Bool → ℕ
flag true = 1
flag false = 0

abbrev pub weight_left : ℕ → Option Call → ℕ
weight_left place none = 0
weight_left place (some c) = weight place c

abbrev pub clears_left : Option Call → Bool
clears_left none = false
clears_left (some c) = clears c

claim_weighs :
    (place other : ℕ) (flags : ℕ → Bool)
    → flags other ≡ true
    → (if other == place then 1 else 0) + flag (set_flag flags other false place)
      ≤ 0 + flag (flags place)
claim_weighs place other flags e = elim (ℕ_discrete other place) [
  | yes same ↦ ground (arith, ap (λ k. flag (flags k)) same, ap flag e)
  | no apart ↦ ground arith
]

module _ {Q : Type 0} (ops : ConcurrentQueue Q) where
  -- A step gives no more holders and open flags of a place than it finds, and does not begin to clear.
  pub record Steady (place : ℕ) (q : SpmcSerialTaskQueue Q) (w : ℕ)
      (r : SpmcSerialTaskQueue Q × Option Call) : Type 0 where
    pub holders : weight_left place r.1 + flag (r.0.can_pop place) ≤ w + flag (q.can_pop place)
    pub lasting : clears_left r.1 ≡ false

  -- A step that leaves the flags and holds nothing.
  still :
      (place : ℕ) (q q' : SpmcSerialTaskQueue Q) (w : ℕ) (o : Option Call)
      → q'.can_pop ≡ q.can_pop
      → weight_left place o ≡ 0
      → clears_left o ≡ false
      → Steady place q w (q', o)
  still place q q' w o same light once = record {
    holders = omega (arith, ap (λ f. flag (f place)) same);
    lasting = once;
  }

  still_if :
      (place : ℕ) (q : SpmcSerialTaskQueue Q) (b : Bool) (c : Call)
      → weight place c ≡ 0
      → clears c ≡ false
      → Steady place q 0 (q, if b then none else some c)
  still_if place q true c light once = still place q q 0 none refl refl refl
  still_if place q false c light once = still place q q 0 (some c) refl light once

  still_then :
      (place : ℕ) (q : SpmcSerialTaskQueue Q) (b : Bool) (c : Call)
      → weight place c ≡ 0
      → clears c ≡ false
      → Steady place q 0 (q, if b then some c else none)
  still_then place q true c light once = still place q q 0 (some c) refl light once
  still_then place q false c light once = still place q q 0 none refl refl refl

  still_choice :
      (place : ℕ) (q : SpmcSerialTaskQueue Q) (b : Bool) (c d : Call)
      → weight place c ≡ 0
      → clears c ≡ false
      → weight place d ≡ 0
      → clears d ≡ false
      → Steady place q 0 (q, some (if b then c else d))
  still_choice place q true c d light once l o = still place q q 0 (some c) refl light once
  still_choice place q false c d light once l o = still place q q 0 (some d) refl l o

  still_or :
      (place : ℕ) (q q' : SpmcSerialTaskQueue Q) (b : Bool) (c : Call)
      → q'.can_pop ≡ q.can_pop
      → Steady place q 0 (q', if b || true then none else some c)
  still_or place q q' true c same = still place q q' 0 none same refl refl
  still_or place q q' false c same = still place q q' 0 none same refl refl

  held-Steady :
      (place other prop : ℕ) (q : SpmcSerialTaskQueue Q) (r : SpmcSerialTaskQueue Q × Option Stage)
      → r.0.can_pop ≡ q.can_pop
      → Steady place q (weight place (pop_holds other prop takes)) (held ops other prop r)
  unfolding held
  held-Steady place other prop q (q', none) same = record {
    holders = omega (arith, ap (λ f. flag (f place)) same);
    lasting = refl;
  }
  held-Steady place other prop q (q', some stage) same = record {
    holders = omega (arith, ap (λ f. flag (f place)) same);
    lasting = refl;
  }

  dequeue-can_pop :
      (q : SpmcSerialTaskQueue Q) (prop : ℕ) (o : Option (ℕ × Q))
      → (dequeue ops q prop o).0.can_pop ≡ q.can_pop
  unfolding dequeue
  dequeue-can_pop q prop none = refl
  dequeue-can_pop q prop (some (x, rest)) = refl

  release-Steady :
      (place other : ℕ) (q : SpmcSerialTaskQueue Q)
      → Steady place q
          (if other == place then 1 else 0)
          (record q { can_pop = set_flag q.can_pop other true }, none)
  release-Steady place other q = record { holders = ground arith; lasting = refl }

  hold-Steady :
      (place other prop : ℕ) (q : SpmcSerialTaskQueue Q) (stage : Stage)
      → Steady place q
          (weight place (pop_holds other prop stage))
          (held ops other prop (hold ops q other prop stage))
  unfolding hold
  hold-Steady place other prop q takes =
      held-Steady place other prop q _
        (dequeue-can_pop q prop (ops.try_dequeue (queue_of ops q prop)))
  hold-Steady place other prop q (looks task) = held-Steady place other prop q _ refl
  hold-Steady place other prop q zeroes = held-Steady place other prop q _ refl
  hold-Steady place other prop q zeroes_single = held-Steady place other prop q _ refl
  hold-Steady place other prop q (decrements task) = held-Steady place other prop q _ refl
  hold-Steady place other prop q (decrements_single task) = held-Steady place other prop q _ refl
  hold-Steady place other prop q (runs task) = held-Steady place other prop q _ refl
  hold-Steady place other prop q releases = unfold held in release-Steady place other q

  claim_if :
      (place other prop : ℕ) (q : SpmcSerialTaskQueue Q) (b : Bool)
      → q.can_pop other ≡ b
      → Steady place q 0 (
          if b
          then (
            record q { can_pop = set_flag q.can_pop other false },
            some (pop_holds other prop takes),
          )
          else (q, none))
  claim_if place other prop q true e = record {
    holders = claim_weighs place other q.can_pop e;
    lasting = refl;
  }
  claim_if place other prop q false e = still place q q 0 none refl refl refl

  claim-Steady :
      (place other prop : ℕ) (q : SpmcSerialTaskQueue Q) → Steady place q 0 (claim ops q other prop)
  unfolding claim
  claim-Steady place other prop q = claim_if place other prop q (q.can_pop other) refl

  turn-Steady : (place : ℕ) (q : SpmcSerialTaskQueue Q) → Steady place q 0 (turn ops q)
  unfolding turn
  turn-Steady place q =
      elim (Option-cases (get_elem? q.all_props (q.cur_props_index % length q.all_props))) [
        | inl e ↦ rw (e, turn) (still place q q 0 none refl refl refl)
        | inr (prop, e) ↦ rw (e, turn) (still place q _ 0 _ refl refl refl)
      ]

  -- Each step of a call that does not clear is steady.
  pub move-Steady :
      (place : ℕ) (q : SpmcSerialTaskQueue Q) (c : Call)
      → clears c ≡ false
      → Steady place q (weight place c) (move ops q c)
  unfolding move
  move-Steady place q (add_loads prop x) once =
      still_if place q q.stopped (add_guards prop x) refl refl
  move-Steady place q (add_guards prop x) once =
      still_if place q (not (not_full ops q prop)) (add_enqueues prop x) refl refl
  move-Steady place q (add_enqueues prop x) once = still place q _ 0 _ refl refl refl
  move-Steady place q (add_looks prop) once =
      still_choice place q q.clearing (add_zeroes prop) (add_counts prop) refl refl refl refl
  move-Steady place q (add_zeroes prop) once = still place q _ 0 _ refl refl refl
  move-Steady place q (add_zeroes_single prop) once = still place q _ 0 _ refl refl refl
  move-Steady place q (add_counts prop) once = still place q _ 0 _ refl refl refl
  move-Steady place q (add_counts_single prop) once = still place q _ 0 _ refl refl refl
  move-Steady place q pop_loads_clear once = still_if place q q.clearing pop_loads_size refl refl
  move-Steady place q pop_loads_size once =
      still_then place q (ltb 0 q.approx_size && ltb q.approx_size (2 ^ 31)) pop_indexes refl refl
  move-Steady place q pop_indexes once = turn-Steady place q
  move-Steady place q (pop_claims other prop) once = claim-Steady place other prop q
  move-Steady place q (pop_holds other prop stage) once = hold-Steady place other prop q stage
  move-Steady place q start_swaps once = still place q _ 0 _ refl refl refl
  move-Steady place q (stop_swaps true) once = still_or place q _ q.stopped clear_sets refl
  move-Steady place q (stop_swaps false) once = absurd (ground arith)
  move-Steady place q clear_sets once = absurd (ground arith)
  move-Steady place q (clear_blocks other left) once = absurd (ground arith)
  move-Steady place q (clear_drains props) once = absurd (ground arith)
  move-Steady place q (clear_counts props) once = absurd (ground arith)
  move-Steady place q clear_index once = absurd (ground arith)
  move-Steady place q (clear_opens other left) once = absurd (ground arith)
  move-Steady place q clear_size once = absurd (ground arith)
