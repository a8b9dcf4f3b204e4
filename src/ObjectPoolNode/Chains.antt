-- ===== src/ObjectPoolNode/Chains.antt =====
-- Lists of slots that are linked through their first words.
use btool.Common.{
  ℕ, zero, suc, ◌+◌, ◌≤◌, ◌<◌, ◌≡◌, ◌≢◌, refl, sym, ◌∙◌, subst, arith, List, [], ◌∷◌, ◌++◌,
}
use btool.Common.Assoc.{count}
use btool.ObjectPoolNode.{write, link_slots}

-- From a slot on, the links go through this list, to the null pointer.
abbrev pub Chain : (ℕ → ℕ) → ℕ → List ℕ → Type 0
Chain next slot [] = slot ≡ 0
Chain next slot (x ∷ xs) = (slot ≡ x) × Chain next (next x) xs

abbrev pub AllInside : ℕ → List ℕ → Type 0
AllInside bound [] = Unit {0}
AllInside bound (x ∷ xs) = (0 < x) × (x < bound) × AllInside bound xs

-- So many slots from one on.
abbrev pub slots : ℕ → ℕ → List ℕ
slots first zero = []
slots first (suc k) = first ∷ slots (suc first) k

pub write_other :
    (next : ℕ → ℕ) (slot word other : ℕ) → other ≢ slot → write next slot word other ≡ next other
unfolding write
write_other next slot word other h = ground arith

pub write_same : (next : ℕ → ℕ) (slot word : ℕ) → write next slot word slot ≡ word
unfolding write
write_same next slot word = ground arith

-- A write to a slot that is not in the list.
pub Chain-write :
    (next : ℕ → ℕ) (slot word first : ℕ) (xs : List ℕ)
    → count slot xs ≡ 0
    → Chain next first xs
    → Chain (write next slot word) first xs
unfolding count
Chain-write next slot word first [] out h = h
Chain-write next slot word first (x ∷ xs) out (e, h) = (
  e,
  subst (λ j. Chain (write next slot word) j xs) (sym (write_other next slot word x (ground arith)))
      (Chain-write next slot word (next x) xs (ground arith) h),
)

link_keeps :
    (k current old : ℕ) (next : ℕ → ℕ) (slot : ℕ)
    → slot < current
    → link_slots k current old next slot ≡ next slot
unfolding link_slots
link_keeps zero current old next slot h = write_other next current old slot (omega arith)
link_keeps (suc k) current old next slot h =
    link_keeps k (suc current) old (write next current (suc current)) slot (omega arith)
    ∙ write_other next current (suc current) slot (omega arith)

pub inside-count :
    (bound slot : ℕ) (xs : List ℕ) → AllInside bound xs → bound ≤ slot → count slot xs ≡ 0
unfolding count
inside-count bound slot [] h le = refl
inside-count bound slot (x ∷ xs) (pos, less, h) le = ground (arith, inside-count bound slot xs h le)

pub AllInside-more :
    (bound more : ℕ) (xs : List ℕ) → bound ≤ more → AllInside bound xs → AllInside more xs
AllInside-more bound more [] le h = tt
AllInside-more bound more (x ∷ xs) le (pos, less, h) =
    (pos, omega arith, AllInside-more bound more xs le h)

-- A new chunk in front of the old list.
pub Chain-link :
    (k current old : ℕ) (next : ℕ → ℕ) (xs : List ℕ)
    → AllInside current xs
    → Chain next old xs
    → Chain (link_slots k current old next) current (slots current (suc k) ++ xs)
unfolding link_slots
Chain-link zero current old next xs inside h = (
  refl,
  subst (λ j. Chain (write next current old) j xs) (sym (write_same next current old))
      (Chain-write next current old old xs (inside-count current current xs inside (omega arith))
        h),
)
Chain-link (suc k) current old next xs inside h =
    let written = write next current (suc current) in
    (
      refl,
      subst
          (λ j.
            Chain (link_slots k (suc current) old written) j (slots (suc current) (suc k) ++ xs))
          (sym (
            link_keeps k (suc current) old written current (omega arith)
            ∙ write_same next current (suc current)))
          (Chain-link k (suc current) old written xs
            (AllInside-more current (suc current) xs (omega arith) inside)
            (Chain-write next current (suc current) old xs
              (inside-count current current xs inside (omega arith)) h)),
    )

pub slots-AllInside :
    (first k bound : ℕ) → 0 < first → first + k ≤ bound → AllInside bound (slots first k)
slots-AllInside first zero bound pos le = tt
slots-AllInside first (suc k) bound pos le =
    (pos, omega arith, slots-AllInside (suc first) k bound (omega arith) (omega arith))

pub append-AllInside :
    (bound : ℕ) (xs ys : List ℕ)
    → AllInside bound xs
    → AllInside bound ys
    → AllInside bound (xs ++ ys)
append-AllInside bound [] ys h k = k
append-AllInside bound (x ∷ xs) ys (pos, less, h) k = (pos, less, append-AllInside bound xs ys h k)

-- Each slot of a chunk once, and no other.
pub count-slots-before : (first k slot : ℕ) → slot < first → count slot (slots first k) ≡ 0
unfolding count
count-slots-before first zero slot h = refl
count-slots-before first (suc k) slot h =
    ground (arith, count-slots-before (suc first) k slot (omega arith))

pub count-slots : (first k slot : ℕ) → count slot (slots first k) ≤ 1
unfolding count
count-slots first zero slot = omega arith
count-slots first (suc k) slot =
    ground (arith, count-slots (suc first) k slot, count-slots-before (suc first) k slot)
