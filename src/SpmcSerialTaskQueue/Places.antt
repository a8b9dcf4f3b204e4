-- ===== src/SpmcSerialTaskQueue/Places.antt =====
-- The properties of an `SPMCSerialTaskQueue` and their places: a thread that holds a property holds its place.
use btool.Common.{
  ℕ, zero, suc, ◌+◌, ◌≤◌, ◌≡◌, refl, ap, ◌∙◌, arith, Bool, true, false, not, ◌&&◌, List, [], ◌∷◌,
  Option, none, some, ◌==◌, if◌then◌else◌, get_elem?, Bool-cases, ◌⊎◌, inl, inr,
}
use btool.Common.Assoc.{contains}
use btool.SpmcSerialTaskQueue.{runs, Call, pop_claims, pop_holds}
use btool.SpmcSerialTaskQueue.Threads.{is_start, put_back, extract}
use btool.SpmcSerialTaskQueue.Exclusion.{running}

-- No property is registered twice.
abbrev pub distinct : List ℕ → Bool
distinct [] = true
distinct (p ∷ ps) = let rest = distinct ps in not (contains p ps) && rest

get_elem?-contains : (ps : List ℕ) (i p : ℕ) → get_elem? ps i ≡ some p → contains p ps ≡ true
unfolding contains
get_elem?-contains [] i p e = absurd (ground (arith, e))
get_elem?-contains (r ∷ ps) zero p e = ground (arith, e)
get_elem?-contains (r ∷ ps) (suc i) p e = ground (arith, get_elem?-contains ps i p e)

same_place :
    (ps : List ℕ) (i j p : ℕ)
    → distinct ps ≡ true
    → get_elem? ps i ≡ some p
    → get_elem? ps j ≡ some p
    → i ≡ j
same_place [] i j p d e f = absurd (ground (arith, e))
same_place (r ∷ ps) zero zero p d e f = refl
same_place (r ∷ ps) zero (suc j) p d e f =
    absurd (ground (arith, d, e, get_elem?-contains ps j p f))
same_place (r ∷ ps) (suc i) zero p d e f =
    absurd (ground (arith, d, f, get_elem?-contains ps i p e))
same_place (r ∷ ps) (suc i) (suc j) p d e f = ap suc (same_place ps i j p (ground (arith, d)) e f)

-- A call that goes for a property, or holds it, does so at a place of that property.
abbrev pub At : List ℕ → Call → Type 0
At ps (pop_claims place prop) = get_elem? ps place ≡ some prop
At ps (pop_holds place prop stage) = get_elem? ps place ≡ some prop
At ps c = Unit {0}

abbrev pub AllAt : List ℕ → List Call → Type 0
AllAt ps [] = Unit {0}
AllAt ps (c ∷ cs) = At ps c × AllAt ps cs

abbrev pub AtLeft : List ℕ → Option Call → Type 0
AtLeft ps none = Unit {0}
AtLeft ps (some c) = At ps c

pub by_test :
    (ps : List ℕ) (b : Bool) (x y : Option Call)
    → AtLeft ps x
    → AtLeft ps y
    → AtLeft ps (if b then x else y)
by_test ps true x y h k = h
by_test ps false x y h k = k

pub by_choice :
    (ps : List ℕ) (b : Bool) (c d : Call) → At ps c → At ps d → At ps (if b then c else d)
by_choice ps true c d h k = h
by_choice ps false c d h k = k

-- How many threads run a task of a property, at whatever place.
abbrev runs_of : ℕ → Call → ℕ
runs_of prop (pop_holds place other (runs task)) = if other == prop then 1 else 0
runs_of prop c = 0

abbrev pub running_of : ℕ → List Call → ℕ
running_of prop [] = 0
running_of prop (c ∷ cs) = runs_of prop c + running_of prop cs

abbrev pub Extracted : List ℕ → Option (Call × List Call) → Type 0
Extracted ps none = Unit {0}
Extracted ps (some (c, rest)) = At ps c × AllAt ps rest

put_back-Extracted :
    (ps : List ℕ) (c : Call) (o : Option (Call × List Call))
    → At ps c
    → Extracted ps o
    → Extracted ps (put_back c o)
unfolding put_back
put_back-Extracted ps c none a x = tt
put_back-Extracted ps c (some (d, ds)) a (b, all) = (b, (a, all))

pub extract-Extracted :
    (ps : List ℕ) (n : ℕ) (cs : List Call) → AllAt ps cs → Extracted ps (extract n cs)
unfolding extract
extract-Extracted ps n [] all = tt
extract-Extracted ps zero (c ∷ cs) all = all
extract-Extracted ps (suc n) (c ∷ cs) (a, all) =
    put_back-Extracted ps c (extract n cs) a (extract-Extracted ps n cs all)

pub start-At : (ps : List ℕ) (c : Call) → is_start c ≡ true → At ps c
unfolding is_start
start-At ps (pop_claims place prop) e = absurd (ground arith)
start-At ps (pop_holds place prop stage) e = absurd (ground arith)
start-At ps c e = tt

-- Where a task of the property runs, the property has a place.
pub placed :
    (ps : List ℕ) (prop : ℕ) (cs : List Call)
    → AllAt ps cs
    → (running_of prop cs ≡ 0) ⊎ ((place : ℕ) × (get_elem? ps place ≡ some prop))
placed ps prop [] all = inl refl
placed ps prop (pop_holds place other (runs task) ∷ cs) (a, all) =
    elim (Bool-cases (other == prop)) [
      | inl same ↦ inr (place, a ∙ ap some (ground (arith, same)))
      | inr apart ↦ elim (placed ps prop cs all) [
        | inl e ↦ inl (ground (arith, e, apart))
        | inr found ↦ inr found
      ]
    ]
placed ps prop (c ∷ cs) (a, all) = elim (placed ps prop cs all) [
  | inl e ↦ inl (omega (arith, e))
  | inr found ↦ inr found
]

-- At the only place of a property all its tasks run.
pub runs_there :
    (ps : List ℕ) (prop place : ℕ) (cs : List Call)
    → distinct ps ≡ true
    → get_elem? ps place ≡ some prop
    → AllAt ps cs
    → running_of prop cs ≤ running place cs
runs_there ps prop place [] d e all = omega arith
runs_there ps prop place (pop_holds other p (runs task) ∷ cs) d e (a, all) =
    elim (Bool-cases (p == prop)) [
      | inl same ↦
          let there : other ≡ place =
            same_place ps other place prop d (a ∙ ap some (ground (arith, same))) e in
          ground (arith, there, same, runs_there ps prop place cs d e all)
      | inr apart ↦ ground (arith, apart, runs_there ps prop place cs d e all)
    ]
runs_there ps prop place (c ∷ cs) d e (a, all) = omega (arith, runs_there ps prop place cs d e all)
