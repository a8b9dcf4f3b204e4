-- ===== src/ScrollWindow/Vector/Keep.antt =====
-- A `ScrollWindowVector` keeps the newest values of all that were pushed, and no more than its multiple.
use native.Mathlib.Decide.{dec_lt, ℕ_discrete}
use native.Mathlib.Nat.{mul-suc}
use btool.Common.{
  ℕ, zero, suc, ◌+◌, ◌-◌, ◌*◌, ◌^◌, ◌≤◌, ◌<◌, ◌≡◌, ◌≢◌, refl, sym, ap, ap₂, ◌∙◌, subst, true, false,
  List, [], ◌∷◌, ◌++◌, some, arith, min, length, drop, append_assoc, append-nil, drop-drop, drop_at,
}
use btool.ScrollWindow.Vector.{
  Vector, init, set_fix_length, push, surplus, is_full, shift, emplace_back, emplace_all, latest,
}
use btool.ScrollWindow.Vector.History.{
  Holds, IsFixed, surplus_of, is_full_of, pushed, pushed-Holds, emplaced_of, set_single,
}

module _ {A : Type 0} where
  emplace_push :
      (v : Vector A) (x : A)
      → is_full v ≡ false
      → v.fix_length ≢ 0
      → v.fix_length ≢ 1
      → emplace_back v x ≡ some (pushed v 0 x)
  unfolding emplace_back push pushed
  emplace_push v x e some_fix one = ground arith

  emplace_first :
      (v : Vector A) (x : A)
      → v.fix_length ≡ 1
      → length v.datas ≡ 0
      → emplace_back v x ≡ some (pushed v 0 x)
  unfolding emplace_back push pushed
  emplace_first v x one e = ground arith

  emplace_single :
      (v : Vector A) (x : A)
      → v.fix_length ≡ 1
      → length v.datas ≡ 1
      → emplace_back v x ≡ some (pushed v 1 x)
  unfolding emplace_back push pushed
  emplace_single v x one e = ground (arith, set_single v.datas x e)

  emplace_shift :
      (v : Vector A) (x : A)
      → is_full v ≡ true
      → surplus v ≤ length v.datas
      → v.fix_length ≢ 0
      → v.fix_length ≢ 1
      → emplace_back v x ≡ some (pushed v (surplus v) x)
  unfolding emplace_back shift push pushed
  emplace_shift v x e inside some_fix one = ground arith

  product_of : (f k : ℕ) (v : Vector A) → IsFixed f k v → v.fix_length * v.multiple ≡ f * k + f
  product_of f k v s = ap₂ (λ a b. a * b) s.fixed s.times ∙ mul-suc f k

  emplace_back-Holds :
      (f k : ℕ) (h : List A) (v : Vector A) (x : A)
      → 0 < f
      → f * suc k < 2 ^ 64
      → IsFixed f k v
      → Holds h v
      → (v' : Vector A) × (emplace_back v x ≡ some v') × IsFixed f k v' × Holds (h ++ (x ∷ [])) v'
  emplace_back-Holds f k h v x pos small s holds =
      let all : v.fix_length * v.multiple ≡ f * k + f = product_of f k v s in
      let fixed : v.fix_length ≡ f = s.fixed in
      elim (ℕ_discrete f 1) [
        | yes one ↦ elim (ℕ_discrete (length v.datas) 0) [
          | yes e ↦ emplaced_of f k h v 0 x s (emplace_first v x (s.fixed ∙ one) e) (
              pushed-Holds h v 0 x holds (omega arith) (ground arith) (omega arith)
                (λ h. omega arith))
          | no some_data ↦
              let e : length v.datas ≡ 1 = omega (arith, holds.single (s.fixed ∙ one)) in
              emplaced_of f k h v 1 x s (emplace_single v x (s.fixed ∙ one) e) (
                pushed-Holds h v 1 x holds (omega arith) (ground arith) (omega arith)
                  (λ h. omega arith))
        ]
        | no many ↦ elim (dec_lt (length v.datas) (f * suc k)) [
          | yes room ↦
              emplaced_of f k h v 0 x s
                (emplace_push v x (is_full_of f k v s small ∙ ground arith)
                  (λ e. absurd (omega arith)) (λ e. many (sym s.fixed ∙ e)))
                (pushed-Holds h v 0 x holds (omega arith) (ground (arith, holds.kept))
                  (omega (arith, mul-suc f k)) (λ h. absurd (many (sym s.fixed ∙ h))))
          | no full ↦
              let gone : surplus v ≡ suc (f * k) = surplus_of f k v s (omega arith) small in
              let inside : surplus v ≤ length v.datas = omega (arith, mul-suc f k) in
              emplaced_of f k h v (surplus v) x s
                (emplace_shift v x (is_full_of f k v s small ∙ ground arith) inside
                  (λ e. absurd (omega arith)) (λ e. many (sym s.fixed ∙ e)))
                (pushed-Holds h v (surplus v) x holds inside (ground (arith, mul-suc f k))
                  (omega (arith, mul-suc f k, holds.bounded))
                  (λ h. absurd (many (sym s.fixed ∙ h))))
        ]
      ]

  set-IsFixed :
      (fix_length k : ℕ)
      → IsFixed fix_length k (set_fix_length {A = A} fix_length (suc k) (init []))
  unfolding set_fix_length init
  set-IsFixed fix_length k = record { fixed = refl; times = refl }

  set-Holds : (fix_length m : ℕ) → Holds [] (set_fix_length {A = A} fix_length m (init []))
  unfolding set_fix_length init
  set-Holds fix_length m = record {
    suffix = refl;
    past = omega arith;
    kept = ground arith;
    bounded = omega arith;
    single = λ e. omega arith;
  }

  emplace_all-Holds :
      (f k : ℕ) (h : List A) (v : Vector A) (xs : List A)
      → 0 < f
      → f * suc k < 2 ^ 64
      → IsFixed f k v
      → Holds h v
      → (v' : Vector A) × (emplace_all v xs ≡ some v') × IsFixed f k v' × Holds (h ++ xs) v'
  unfolding emplace_all
  emplace_all-Holds f k h v [] pos small s holds =
      (v, refl, s, subst (λ ys. Holds ys v) (sym (append-nil h)) holds)
  emplace_all-Holds f k h v (x ∷ xs) pos small s holds =
      let (v', runs, s', holds') = emplace_back-Holds f k h v x pos small s holds in
      let (w, rest, t, all) = emplace_all-Holds f k (h ++ (x ∷ [])) v' xs pos small s' holds' in
      (w, rw (runs) rest, t, subst (λ ys. Holds ys w) (append_assoc h (x ∷ []) xs) all)

  latest_at :
      (history : List A) (v : Vector A) (need start real_size : ℕ)
      → Holds history v
      → latest v need ≡ (start, real_size)
      → start + real_size ≡ length v.datas
      → real_size ≡ min need (length history)
      → let (start, real_size) = latest v need in
        (real_size ≡ min need (length history))
        × (drop start v.datas ≡ drop (length history - real_size) history)
  latest_at history v need start real_size holds e sum least = rw (e) (
    least,
    ap (drop start) holds.suffix
        ∙ drop-drop start (length history - length v.datas) history
        ∙ drop_at {m = length history - length v.datas + start} {n = length history - real_size}
            history (omega (arith, holds.past)),
  )

  latest_of :
      (history : List A) (v : Vector A) (need : ℕ)
      → Holds history v
      → 0 < need
      → need ≤ v.fix_length
      → let (start, real_size) = latest v need in
        (real_size ≡ min need (length history))
        × (drop start v.datas ≡ drop (length history - real_size) history)
  unfolding latest
  latest_of history v need holds pos small = elim (dec_lt need (length v.datas)) [
    | yes less ↦
        latest_at history v need (length v.datas - need) need holds (ground arith) (omega arith)
          (ground (arith, holds.past))
    | no all ↦
        latest_at history v need 0 (length v.datas) holds (ground arith) (omega arith)
          (ground (arith, holds.past, holds.kept))
  ]

  -- A vector with a length above 0 and a multiple above 0, whose product fits a `size_t`, takes every value,
  -- never holds more than length * multiple values, and `latest` of a count above 0 and up to the length
  -- gives the newest values of all that were ever pushed, as many as the count, or all if there are fewer.
  pub keeps_latest :
      (fix_length multiple need : ℕ) (values : List A)
      → 0 < fix_length
      → 0 < multiple
      → fix_length * multiple < 2 ^ 64
      → 0 < need
      → need ≤ fix_length
      → (v : Vector A) × (emplace_all (set_fix_length fix_length multiple (init [])) values
          ≡ some v)
        × (length v.datas ≤ fix_length * multiple)
        × (let (start, real_size) = latest v need in
            (real_size ≡ min need (length values))
            × (drop start v.datas ≡ drop (length values - real_size) values))
  keeps_latest fix_length zero need values pos some_multiple small some_need less =
      absurd (omega arith)
  keeps_latest fix_length (suc k) need values pos some_multiple small some_need less =
      let (v, runs, s, holds) =
        emplace_all-Holds fix_length k [] (set_fix_length fix_length (suc k) (init [])) values pos
          small (set-IsFixed fix_length k) (set-Holds fix_length (suc k)) in
      (
        v,
        runs,
        omega (arith, holds.bounded, product_of fix_length k v s, mul-suc fix_length k),
        latest_of values v need holds some_need (omega (arith, s.fixed)),
      )
