-- ===== src/SnowFlake/Order.antt =====
-- The ids of one `SnowFlakeID` rise, and a call returns once the clock has moved on.
use native.Mathlib.Decide.{dec_lt}
use btool.Common.{
  ℕ, zero, suc, ◌<◌, ◌≤◌, ◌≡◌, ◌≢◌, ◌↔◌, subst, refl, sym, ap, ◌∙◌, arith, List, [], ◌∷◌, Option,
  none, some, ◌⊎◌, inl, inr,
}
use btool.SnowFlake.{SnowFlake, init, set_worker_id, til_next_millis, get_id, get_ids}
use btool.SnowFlake.Calls.{
  AllTimely, IsReady, last_id, get_id_back, get_id_next, get_id_same, over, get_id-over,
  get_id_cases, til_next_step, til_next_ends, til_next_none,
}

-- Each id but 0, which stands for no id, is above those before it and above a bound.
abbrev pub Ascending : ℕ → List ℕ → Type 0
Ascending low [] = Unit {0}
Ascending low (zero ∷ ids) = Ascending low ids
Ascending low (suc id ∷ ids) = (low < suc id) × Ascending (suc id) ids

Ascending-weaken :
    (low high : ℕ) (ids : List ℕ) → low ≤ high → Ascending high ids → Ascending low ids
Ascending-weaken low high [] h a = a
Ascending-weaken low high (zero ∷ ids) h a = Ascending-weaken low high ids h a
Ascending-weaken low high (suc id ∷ ids) h (above, rest) = (omega arith, rest)

Ascending-next :
    (low high id : ℕ) (ids : List ℕ)
    → ((id ≡ 0) × (high ≡ low)) ⊎ ((low < id) × (id ≡ high))
    → Ascending high ids
    → Ascending low (id ∷ ids)
Ascending-next low high zero ids (inl (e, same)) a = Ascending-weaken low high ids (omega arith) a
Ascending-next low high (suc id) ids (inl (e, same)) a = absurd (omega arith)
Ascending-next low high zero ids (inr (above, e)) a = absurd (omega arith)
Ascending-next low high (suc id) ids (inr (above, e)) a =
    (above, subst (λ k. Ascending k ids) (sym e) a)

get_ids-none :
    (calls : ℕ) (s : SnowFlake) (readings : List ℕ)
    → get_id s readings ≡ none
    → get_ids (suc calls) s readings ≡ []
unfolding get_ids
get_ids-none calls s readings e = rw (e, get_ids) refl

get_ids-some :
    (calls : ℕ) (s : SnowFlake) (readings : List ℕ) (id : ℕ) (after : SnowFlake) (rest : List ℕ)
    → get_id s readings ≡ some (id, after, rest)
    → get_ids (suc calls) s readings ≡ id ∷ get_ids calls after rest
unfolding get_ids
get_ids-some calls s readings id after rest e = rw (e, get_ids) refl

get_ids-Ascending :
    (calls : ℕ) (s : SnowFlake) (readings : List ℕ)
    → IsReady s
    → AllTimely readings
    → Ascending (last_id s) (get_ids calls s readings)
unfolding get_ids
get_ids-Ascending zero s readings r all = tt
get_ids-Ascending (suc calls) s readings r all = elim (get_id_cases s readings r all) [
  | inl e ↦ subst (Ascending (last_id s)) (sym (get_ids-none calls s readings e)) tt
  | inr g ↦
      subst (Ascending (last_id s))
        (sym (get_ids-some calls s readings g.id g.after g.rest g.gives))
        (Ascending-next (last_id s) (last_id g.after) g.id (get_ids calls g.after g.rest) g.rises
          (get_ids-Ascending calls g.after g.rest g.ready g.timely))
]

-- However often the clock stands, runs on or goes back within the range of the ids, the ids of any number
-- of calls rise strictly, 0 apart, which stands for a call that found the clock gone back.
pub ids_increase :
    (calls worker_id : ℕ) (readings : List ℕ)
    → AllTimely readings
    → Ascending 0 (get_ids calls (set_worker_id init worker_id) readings)
unfolding set_worker_id init
ids_increase calls worker_id readings all =
    Ascending-weaken 0 (last_id (set_worker_id init worker_id))
      (get_ids calls (set_worker_id init worker_id) readings) (omega arith)
      (get_ids-Ascending calls (set_worker_id init worker_id) readings
        (record { worker = omega arith; within = omega arith }) all)

-- No reading is later.
abbrev pub NoneLater : ℕ → List ℕ → Type 0
NoneLater last [] = Unit {0}
NoneLater last (t ∷ ts) = (t ≤ last) × NoneLater last ts

til_next-NoneLater :
    (readings : List ℕ) (last : ℕ)
    → (til_next_millis readings last ≡ none) ↔ NoneLater last readings
til_next-NoneLater [] last = (λ e. tt, λ h. til_next_none last)
til_next-NoneLater (t ∷ ts) last = elim (dec_lt last t) [
  | yes later ↦ (
    λ e. absurd (is_some_time (til_next_ends t ts last later) e),
    λ h. absurd (omega (arith, h.0)),
  )
  | no early ↦
      let step = til_next_step t ts last (omega arith) in
      let rest = til_next-NoneLater ts last in
      (λ e. (omega arith, rest.0 (sym step ∙ e)), λ h. step ∙ rest.1 h.1)
]
  where
    is_some_time : {o : Option (ℕ × List ℕ)} {r : ℕ × List ℕ} → o ≡ some r → o ≢ none
    is_some_time e n = absurd (ground arith)

is_some : {o : Option (ℕ × SnowFlake × List ℕ)} {r : ℕ × SnowFlake × List ℕ} → o ≡ some r → o ≢ none
is_some e n = absurd (ground arith)

over-none : (s : SnowFlake) (o : Option (ℕ × List ℕ)) → over s o ≡ none → o ≡ none
over-none s none e = refl
over-none s (some (t, rest)) e = absurd (ground (arith, e))

-- A call that has a first reading of the clock waits for good in one case only: that reading is the millisecond of the
-- last id, the 4096 ids of that are used up, and no reading to come is later. In all other cases it returns.
pub get_id_returns :
    (s : SnowFlake) (now : ℕ) (readings : List ℕ)
    → s.sequence < 4096
    → (get_id s (now ∷ readings) ≡ none)
      ↔ ((s.last_timestamp ≡ now) × (s.sequence ≡ 4095) × NoneLater s.last_timestamp readings)
get_id_returns s now readings within = (
  λ e. elim (dec_lt now s.last_timestamp) [
    | yes back ↦ absurd (is_some (get_id_back s now readings back) e)
    | no on ↦ elim (dec_lt s.last_timestamp now) [
      | yes next ↦ absurd (is_some (get_id_next s now readings next) e)
      | no same ↦ elim (dec_lt s.sequence 4095) [
        | yes room ↦ absurd (is_some (get_id_same s now readings (omega arith) room) e)
        | no full ↦
            let waits = get_id-over s now readings (omega arith) (omega arith) in
            (
              omega arith,
              omega arith,
              (til_next-NoneLater readings s.last_timestamp).0
                  (over-none s (til_next_millis readings s.last_timestamp) (sym waits ∙ e)),
            )
      ]
    ]
  ],
  λ (same, full, h).
      get_id-over s now readings same full
      ∙ ap (over s) ((til_next-NoneLater readings s.last_timestamp).1 h),
)
