-- ===== src/SnowFlake/Calls.antt =====
-- What one call of `get_id` gives.
use native.Mathlib.Decide.{dec_lt}
use btool.Common.{
  ℕ, suc, ◌+◌, ◌-◌, ◌*◌, ◌%◌, ◌^◌, ◌<◌, ◌≤◌, ◌≡◌, ◌≢◌, subst, refl, sym, ap, ◌∙◌, arith, List, [],
  ◌∷◌, Option, none, some, ltb, ◌==◌, ◌⊎◌, inl, inr, true, false,
}
use btool.SnowFlake.{SnowFlake, twepoch, make_id, til_next_millis, issue, issue_again, get_id}
use btool.SnowFlake.Ids.{IsTimely, make_id_sum}

abbrev pub AllTimely : List ℕ → Type 0
AllTimely [] = Unit {0}
AllTimely (t ∷ ts) = IsTimely t × AllTimely ts

pub record IsReady (s : SnowFlake) : Type 0 where
  pub worker : s.worker_id < 1024
  pub within : s.sequence < 4096

-- The id of the state's last time and sequence.
abbrev pub last_id : SnowFlake → ℕ
last_id s = ((s.last_timestamp - twepoch) * 1024 + s.worker_id) * 4096 + s.sequence

ltb-true : (a b : ℕ) → a < b → ltb a b ≡ true
ltb-true a b h = ground arith

ltb-false : (a b : ℕ) → b ≤ a → ltb a b ≡ false
ltb-false a b h = ground arith

eq_true : (a b : ℕ) → a ≡ b → (a == b) ≡ true
eq_true a b e = ground arith

eq_false : (a b : ℕ) → a ≢ b → (a == b) ≡ false
eq_false a b e = ground arith

-- Times and sequences in order give ids in order.
sum_rises :
    (last t worker old new : ℕ)
    → worker < 1024
    → old < 4096
    → twepoch < t
    → (last < t) ⊎ ((last ≡ t) × (old < new))
    → ((last - twepoch) * 1024 + worker) * 4096 + old < ((t - twepoch) * 1024 + worker) * 4096 + new
sum_rises last t worker old new w o after (inl later) = omega arith
sum_rises last t worker old new w o after (inr (same, more)) = omega arith

pub til_next_step :
    (r : ℕ) (readings : List ℕ) (last : ℕ)
    → r ≤ last
    → til_next_millis (r ∷ readings) last ≡ til_next_millis readings last
unfolding til_next_millis
til_next_step r readings last h = ground arith

pub til_next_ends :
    (r : ℕ) (readings : List ℕ) (last : ℕ)
    → last < r
    → til_next_millis (r ∷ readings) last ≡ some (r, readings)
unfolding til_next_millis
til_next_ends r readings last h = ground arith

pub til_next_none : (last : ℕ) → til_next_millis [] last ≡ none
unfolding til_next_millis
til_next_none last = refl

til_next_cases :
    (readings : List ℕ) (last : ℕ)
    → AllTimely readings
    → (til_next_millis readings last ≡ none)
      ⊎ ((t : ℕ) × (rest : List ℕ) × (til_next_millis readings last ≡ some (t, rest))
          × (last < t)
          × IsTimely t
          × AllTimely rest)
til_next_cases [] last all = inl (til_next_none last)
til_next_cases (r ∷ readings) last (timely, all) = elim (dec_lt last r) [
  | yes later ↦ inr (r, readings, til_next_ends r readings last later, later, timely, all)
  | no early ↦
      let step = til_next_step r readings last (omega arith) in
      elim (til_next_cases readings last all) [
        | inl e ↦ inl (step ∙ e)
        | inr (t, rest, e, found, timely, left) ↦ inr (t, rest, step ∙ e, found, timely, left)
      ]
]

-- A call that returns: no id and the state as it was, or an id above the last one.
pub record Gives (s : SnowFlake) (readings : List ℕ) : Type 0 where
  pub id : ℕ
  pub after : SnowFlake
  pub rest : List ℕ
  pub gives : get_id s readings ≡ some (id, after, rest)
  pub ready : IsReady after
  pub timely : AllTimely rest
  pub rises : ((id ≡ 0) × (last_id after ≡ last_id s)) ⊎ ((last_id s < id) × (id ≡ last_id after))

issue_rises :
    (s : SnowFlake) (readings : List ℕ) (t sequence : ℕ) (rest : List ℕ)
    → IsReady s
    → IsTimely t
    → AllTimely rest
    → sequence < 4096
    → (s.last_timestamp < t) ⊎ ((s.last_timestamp ≡ t) × (s.sequence < sequence))
    → get_id s readings ≡ some (issue s t sequence rest)
    → Gives s readings
unfolding issue
issue_rises s readings t sequence rest r timely all less later e =
    let sum = make_id_sum t s.worker_id sequence timely r.worker less in
    record {
      id = make_id t s.worker_id sequence;
      after = record s { sequence = sequence; last_timestamp = t };
      rest = rest;
      gives = e;
      ready = record { worker = r.worker; within = less };
      timely = all;
      rises = inr (
        subst (λ id. last_id s < id) (sym sum)
            (sum_rises s.last_timestamp t s.worker_id s.sequence sequence r.worker r.within
              timely.after later),
        sum,
      );
    }

pub get_id_back :
    (s : SnowFlake) (t : ℕ) (readings : List ℕ)
    → t < s.last_timestamp
    → get_id s (t ∷ readings) ≡ some (0, s, readings)
unfolding get_id
get_id_back s t readings h = rw (ltb-true t s.last_timestamp h) refl

pub get_id_next :
    (s : SnowFlake) (t : ℕ) (readings : List ℕ)
    → s.last_timestamp < t
    → get_id s (t ∷ readings) ≡ some (issue s t 0 readings)
unfolding get_id
get_id_next s t readings h =
    rw (ltb-false t s.last_timestamp (omega arith), eq_false s.last_timestamp t (omega arith)) refl

pub get_id_same :
    (s : SnowFlake) (t : ℕ) (readings : List ℕ)
    → s.last_timestamp ≡ t
    → s.sequence < 4095
    → get_id s (t ∷ readings) ≡ some (issue s t (suc s.sequence) readings)
unfolding get_id issue_again
get_id_same s t readings e h =
    rw
      (
        ltb-false t s.last_timestamp (omega arith),
        eq_true s.last_timestamp t e,
        next,
        eq_false (suc s.sequence) 0 (omega arith),
      )
      refl
  where
    next : (s.sequence + 1) % 2 ^ 32 % 4096 ≡ suc s.sequence
    next = omega arith

abbrev pub over : SnowFlake → Option (ℕ × List ℕ) → Option (ℕ × SnowFlake × List ℕ)
over s none = none
over s (some (later, rest)) = some (issue s later 0 rest)

issue_again-over :
    (s : SnowFlake) (t sequence : ℕ) (readings : List ℕ)
    → sequence ≡ 0
    → issue_again s t sequence readings ≡ over s (til_next_millis readings s.last_timestamp)
unfolding issue_again
issue_again-over s t sequence readings e =
    subst (λ k. issue_again s t k readings ≡ over s (til_next_millis readings s.last_timestamp))
      (sym e) refl

pub get_id-over :
    (s : SnowFlake) (t : ℕ) (readings : List ℕ)
    → s.last_timestamp ≡ t
    → s.sequence ≡ 4095
    → get_id s (t ∷ readings) ≡ over s (til_next_millis readings s.last_timestamp)
unfolding get_id
get_id-over s t readings e h =
    rw (ltb-false t s.last_timestamp (omega arith), eq_true s.last_timestamp t e)
      (issue_again-over s t ((s.sequence + 1) % 2 ^ 32 % 4096) readings (omega arith))

get_id_waits : (s : SnowFlake) → get_id s [] ≡ none
unfolding get_id
get_id_waits s = refl

pub get_id_cases :
    (s : SnowFlake) (readings : List ℕ)
    → IsReady s
    → AllTimely readings
    → (get_id s readings ≡ none) ⊎ Gives s readings
get_id_cases s [] r all = inl (get_id_waits s)
get_id_cases s (t ∷ readings) r (timely, all) = elim (dec_lt t s.last_timestamp) [
  | yes back ↦ inr (record {
    id = 0;
    after = s;
    rest = readings;
    gives = get_id_back s t readings back;
    ready = r;
    timely = all;
    rises = inl (refl, refl);
  })
  | no on ↦ elim (dec_lt s.last_timestamp t) [
    | yes next ↦ inr (
        issue_rises s (t ∷ readings) t 0 readings r timely all (omega arith) (inl next)
          (get_id_next s t readings next))
    | no same ↦ elim (dec_lt s.sequence 4095) [
      | yes room ↦ inr (
          issue_rises s (t ∷ readings) t (suc s.sequence) readings r timely all (omega arith)
            (inr (omega arith, omega arith)) (get_id_same s t readings (omega arith) room))
      | no full ↦
          let same_time : s.last_timestamp ≡ t = omega arith in
          let waits = get_id-over s t readings same_time (omega (arith, r.within)) in
          elim (til_next_cases readings s.last_timestamp all) [
            | inl e ↦ inl (waits ∙ ap (over s) e)
            | inr (later, rest, e, more, timely, left) ↦ inr (
                issue_rises s (t ∷ readings) later 0 rest r timely left (omega arith) (inl more)
                  (waits ∙ ap (over s) e))
          ]
    ]
  ]
]
