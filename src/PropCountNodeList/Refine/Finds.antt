-- ===== src/PropCountNodeList/Refine/Finds.antt =====
-- The loop of `pop_front` finds the first node that may be popped.
use btool.Common.{ℕ, zero, suc, ◌<◌, ◌≡◌, ap, ◌∙◌, List, [], ◌∷◌, length, arith}
use btool.Common.Assoc.{count}
use btool.PropCountNodeList.{Node, head_or, find_pop}
use btool.PropCountNodeList.Order.{Distinct, after, tail-Distinct, head_absent}
use btool.PropCountNodeList.Refine.Runs.{first_can}

pub find_pop-first_can :
    (fuel : ℕ) (nodes : ℕ → Node) (ids : List ℕ)
    → Distinct ids
    → ((x : ℕ) → 0 < count x ids → (nodes x).next_list ≡ after x ids)
    → length ids < fuel
    → find_pop fuel (head_or 0 ids) nodes ≡ first_can nodes ids
unfolding find_pop first_can count after
find_pop-first_can zero nodes ids d next room = absurd (omega arith)
find_pop-first_can (suc fuel) nodes [] d next room = ground arith
find_pop-first_can (suc fuel) nodes (x ∷ xs) d next room = ground (
  arith,
  ap (λ p. find_pop fuel p nodes) (next_head (next x (ground arith)))
      ∙ find_pop-first_can fuel nodes xs (tail-Distinct d) next_tail (ground (arith, room)),
  d.no_null,
  ap (λ k. count 0 (k ∷ xs)) {x = x} {y = 0},
)
  where
    next_head : (nodes x).next_list ≡ after x (x ∷ xs) → (nodes x).next_list ≡ head_or 0 xs
    next_head e = ground (arith, e)

    next_tail : (y : ℕ) → 0 < count y xs → (nodes y).next_list ≡ after y xs
    next_tail y m = ground (arith, next y, m, head_absent d, ap (λ k. count k xs) {x = x} {y = y})
