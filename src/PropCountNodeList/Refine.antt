-- ===== src/PropCountNodeList/Refine.antt =====
-- The list as its caller sees it: the properties in the order of the queue, each with how many of its tasks
-- stand there in a row and whether one may be popped.
pub mod Runs
pub mod Finds
pub mod Steps
pub mod Pushes
pub mod Resets
pub mod Removes
use btool.Common.{
  ℕ, zero, suc, ◌+◌, ◌-◌, ◌≡◌, Bool, true, false, not, ◌&&◌, List, [], ◌∷◌, ◌++◌, Option, none,
  some, ltb, ◌==◌, if◌then◌else◌, map,
}
use btool.PropCountNodeList.{Node, PropCountNodeList}
use btool.PropCountNodeList.Links.{Holds}

pub record Run : Type 0 where
  pub prop : ℕ
  pub count : ℕ
  pub can_pop : Bool

abbrev pub run_of : (ℕ → Node) → ℕ → Run
run_of nodes x = record {
  prop = (nodes x).prop;
  count = (nodes x).count;
  can_pop = (nodes x).can_pop;
}

unfoldable pub runs_of : (ℕ → Node) → List ℕ → List Run
runs_of nodes [] = []
runs_of nodes (x ∷ xs) = run_of nodes x ∷ runs_of nodes xs

unfoldable pub has_run : ℕ → List Run → Bool
has_run prop [] = false
has_run prop (r ∷ rs) = let rest = has_run prop rs in if r.prop == prop then true else rest

-- `none` where the last run is not of the property.
unfoldable pub more_at_end : ℕ → List Run → Option (List Run)
more_at_end prop [] = none
more_at_end prop (r ∷ []) =
    if r.prop == prop then some (record r { count = suc r.count } ∷ []) else none
more_at_end prop (r ∷ s ∷ rs) = elim (more_at_end prop (s ∷ rs)) [
  | none ↦ none
  | some more ↦ some (r ∷ more)
]

unfoldable pub push_run : ℕ → Bool → List Run → List Run
unfolding more_at_end has_run
push_run prop can rs = elim (more_at_end prop rs) [
  | none ↦ rs ++ record { prop = prop; count = 1; can_pop = can && not (has_run prop rs) } ∷ []
  | some more ↦ more
]

unfoldable pub reset_run : ℕ → List Run → List Run
reset_run prop [] = []
reset_run prop (r ∷ rs) =
    let rest = reset_run prop rs in
    if r.prop == prop then record r { can_pop = true } ∷ rs else r ∷ rest

abbrev pub behind : Run → Option (ℕ × List Run) → Option (ℕ × List Run)
behind r none = none
behind r (some (prop, rs)) = some (prop, r ∷ rs)

unfoldable pub pop_run : List Run → Option (ℕ × List Run)
pop_run [] = none
pop_run (r ∷ rs) =
    let rest = pop_run rs in
    if r.can_pop
    then some (
      r.prop,
      if ltb 0 (r.count - 1) then record r { count = r.count - 1; can_pop = false } ∷ rs else rs,
    )
    else behind r rest

pub record Represents (l : PropCountNodeList) (ids : List ℕ) (rs : List Run) : Type 0 where
  pub holds : Holds l ids
  pub viewed : runs_of l.nodes ids ≡ rs

-- A result of `pop_front` is one of `pop_run`.
unfoldable pub Matches : Option (ℕ × PropCountNodeList) → Option (ℕ × List Run) → Type 0
Matches none none = Unit
Matches none (some right) = ⊥
Matches (some left) none = ⊥
Matches (some (prop, l)) (some (other, rs)) =
    (prop ≡ other) × ((ids : List ℕ) × Represents l ids rs)

unfoldable pub drop_runs : ℕ → List Run → List Run
drop_runs prop [] = []
drop_runs prop (r ∷ rs) = let rest = drop_runs prop rs in if r.prop == prop then rest else r ∷ rest
