-- ===== src/ScrollWindow/Vector/History.antt =====
-- A `ScrollWindowVector` as the end of the history of what was pushed.
use native.Mathlib.Nat.{mul-suc, suc-mul, mod-eq_of_lt}
use btool.Common.{
  ℕ, zero, suc, ◌+◌, ◌-◌, ◌*◌, ◌^◌, ◌≤◌, ◌<◌, ◌≡◌, refl, sym, ap, ◌∙◌, List, [], ◌∷◌, ◌++◌, some,
  arith, min, leb, length, set, drop, drop-drop, drop-append, drop_at, length-drop, length-append,
}
use btool.ScrollWindow.Vector.{Vector, surplus, is_full, emplace_back}

factor_small : (f k : ℕ) → 0 < f → f * suc k < 2 ^ 64 → k < 2 ^ 64 - 1
factor_small zero k pos h = absurd (omega arith)
factor_small (suc f) k pos h = omega (arith, mul-suc (suc f) k, suc-mul f k)

module _ {A : Type 0} where
  -- The vector is the end of a history, with all that its length asks for, and is not too long.
  pub record Holds (history : List A) (v : Vector A) : Type 0 where
    pub suffix : v.datas ≡ drop (length history - length v.datas) history
    pub past : length v.datas ≤ length history
    pub kept : min v.fix_length (length history) ≤ length v.datas
    pub bounded : length v.datas ≤ v.fix_length * v.multiple
    pub single : v.fix_length ≡ 1 → length v.datas ≤ 1

  pub record IsFixed (fix_length k : ℕ) (v : Vector A) : Type 0 where
    pub fixed : v.fix_length ≡ fix_length
    pub times : v.multiple ≡ suc k

  drop_pushed :
      (n : ℕ) (xs : List A) (x : A)
      → n ≤ length xs
      → drop n (xs ++ (x ∷ [])) ≡ drop n xs ++ (x ∷ [])
  drop_pushed n xs x h =
      drop-append n xs (x ∷ [])
      ∙ ap (λ ys. drop n xs ++ ys) (drop_at {m = n - length xs} {n = 0} (x ∷ []) (omega arith))

  length-push : (xs : List A) (x : A) → length (xs ++ (x ∷ [])) ≡ suc (length xs)
  length-push xs x = omega (arith, length-append xs (x ∷ []))

  pub surplus_of :
      (f k : ℕ) (v : Vector A)
      → IsFixed f k v
      → 1 < f
      → f * suc k < 2 ^ 64
      → surplus v ≡ suc (f * k)
  unfolding surplus
  surplus_of f k v s many small =
      let less = factor_small f k (omega arith) small in
      ground (
        arith,
        s.fixed,
        s.times,
        mul-suc f k,
        mod-eq_of_lt {n = k} {m = 2 ^ 64},
        mod-eq_of_lt {n = f * k + 1} {m = 2 ^ 64},
      )

  pub is_full_of :
      (f k : ℕ) (v : Vector A)
      → IsFixed f k v
      → f * suc k < 2 ^ 64
      → is_full v ≡ leb (f * suc k) (length v.datas)
  unfolding is_full
  is_full_of f k v s small =
      ground (arith, s.fixed, s.times, mod-eq_of_lt {n = f * suc k} {m = 2 ^ 64})

  -- The vector after the first `n` values went and a new one came.
  unfoldable pub pushed : Vector A → ℕ → A → Vector A
  pushed v n x = record v { datas = drop n v.datas ++ (x ∷ []) }

  length-pushed :
      (v : Vector A) (n : ℕ) (x : A)
      → length (drop n v.datas ++ (x ∷ [])) ≡ suc (length v.datas - n)
  length-pushed v n x = length-push (drop n v.datas) x ∙ ap suc (length-drop n v.datas)

  pushed-suffix :
      (h : List A) (v : Vector A) (n : ℕ) (x : A)
      → Holds h v
      → n ≤ length v.datas
      → drop n v.datas ++ (x ∷ [])
        ≡ drop (length (h ++ (x ∷ [])) - length (drop n v.datas ++ (x ∷ []))) (h ++ (x ∷ []))
  pushed-suffix h v n x holds inside =
      ap (λ xs. drop n xs ++ (x ∷ [])) holds.suffix
      ∙ ap (λ xs. xs ++ (x ∷ [])) (drop-drop n (length h - length v.datas) h)
      ∙ sym (drop_pushed (length h - length v.datas + n) h x (omega (arith, holds.past)))
      ∙ drop_at {m = length h - length v.datas + n}
          {n = length (h ++ (x ∷ [])) - length (drop n v.datas ++ (x ∷ []))} (h ++ (x ∷ []))
          (omega (arith, holds.past, length-push h x, length-pushed v n x))

  pub pushed-Holds :
      (h : List A) (v : Vector A) (n : ℕ) (x : A)
      → Holds h v
      → n ≤ length v.datas
      → min v.fix_length (suc (length h)) ≤ suc (length v.datas - n)
      → suc (length v.datas - n) ≤ v.fix_length * v.multiple
      → (v.fix_length ≡ 1 → length v.datas ≤ n)
      → Holds (h ++ (x ∷ [])) (pushed v n x)
  unfolding pushed
  pushed-Holds h v n x holds inside left room one = record {
    suffix = pushed-suffix h v n x holds inside;
    past = omega (arith, holds.past, length-push h x, length-pushed v n x);
    kept = ground (arith, length-push h x, length-pushed v n x);
    bounded = ground (arith, length-pushed v n x);
    single = λ e. ground (arith, length-pushed v n x, one e);
  }

  pub emplaced_of :
      (f k : ℕ) (h : List A) (v : Vector A) (n : ℕ) (x : A)
      → IsFixed f k v
      → emplace_back v x ≡ some (pushed v n x)
      → Holds (h ++ (x ∷ [])) (pushed v n x)
      → (v' : Vector A) × (emplace_back v x ≡ some v') × IsFixed f k v' × Holds (h ++ (x ∷ [])) v'
  unfolding pushed
  emplaced_of f k h v n x s e holds =
      (pushed v n x, e, record { fixed = s.fixed; times = s.times }, holds)

  pub set_single : (xs : List A) (x : A) → length xs ≡ 1 → set xs 0 x ≡ drop 1 xs ++ (x ∷ [])
  set_single [] x e = absurd (omega arith)
  set_single (y ∷ []) x e = refl
  set_single (y ∷ z ∷ ys) x e = absurd (omega arith)
