-- ===== src/ObjectPoolNode/Slots.antt =====
-- An `ObjectPoolNode` never hands out a slot that is in use.
use native.Mathlib.Decide.{dec_lt}
use btool.Common.{
  ℕ, zero, suc, ◌+◌, ◌-◌, ◌≤◌, ◌<◌, ◌≡◌, ◌≢◌, refl, sym, ap, ◌∙◌, subst, arith, true, false, List,
  [], ◌∷◌, ◌++◌, ◌==◌, Option, some, ◌>>=◌, append-nil,
}
use btool.Common.Assoc.{count, count-append}
use btool.ObjectPoolNode.{
  ObjectPoolNode, write, link_slots, allocate_new_chunk, create, take_head, allocate, deallocate,
}
use btool.ObjectPoolNode.Chains.{
  Chain, AllInside, slots, write_same, Chain-write, Chain-link, inside-count, AllInside-more,
  slots-AllInside, append-AllInside, count-slots-before, count-slots,
}

-- The free list is this one, these slots are in use, and each slot is in one of the two at most once.
pub record IsPool (p : ObjectPoolNode) (free used : List ℕ) : Type 0 where
  pub chain : Chain p.next p.free_list free
  pub free_inside : AllInside p.unused free
  pub used_inside : AllInside p.unused used
  pub apart : (slot : ℕ) → count slot free + count slot used ≤ 1
  pub first : 0 < p.unused

grown : ObjectPoolNode → ℕ → ObjectPoolNode
grown p k = record p {
  next = link_slots k p.unused p.free_list p.next;
  free_list = p.unused;
  unused = p.unused + suc k;
  capacity = p.capacity + suc k;
  blocks = p.blocks ++ (p.unused ∷ []);
}

grown_runs : (p : ObjectPoolNode) (k : ℕ) → allocate_new_chunk p (suc k) ≡ some (grown p k)
unfolding allocate_new_chunk grown
grown_runs p k = refl

chunk_apart :
    (first n slot : ℕ) (free used : List ℕ)
    → ((slot : ℕ) → count slot free + count slot used ≤ 1)
    → AllInside first free
    → AllInside first used
    → count slot (slots first n ++ free) + count slot used ≤ 1
chunk_apart first n slot free used apart f u = elim (dec_lt slot first) [
  | yes old ↦ omega (
    arith,
    count-append slot (slots first n) free,
    count-slots-before first n slot old,
    apart slot,
  )
  | no new ↦ omega (
    arith,
    count-append slot (slots first n) free,
    count-slots first n slot,
    inside-count first slot free f (omega arith),
    inside-count first slot used u (omega arith),
  )
]

grown-IsPool :
    (p : ObjectPoolNode) (k : ℕ) (free used : List ℕ)
    → IsPool p free used
    → IsPool (grown p k) (slots p.unused (suc k) ++ free) used
unfolding grown
grown-IsPool p k free used pool = record {
  chain = Chain-link k p.unused p.free_list p.next free pool.free_inside pool.chain;
  free_inside =
      append-AllInside (p.unused + suc k) (slots p.unused (suc k)) free
        (slots-AllInside p.unused (suc k) (p.unused + suc k) pool.first (omega arith))
        (AllInside-more p.unused (p.unused + suc k) free (omega arith) pool.free_inside);
  used_inside = AllInside-more p.unused (p.unused + suc k) used (omega arith) pool.used_inside;
  apart = λ slot.
      chunk_apart p.unused (suc k) slot free used pool.apart pool.free_inside pool.used_inside;
  first = omega (arith, pool.first);
}

head_taken : ObjectPoolNode → ℕ → ObjectPoolNode
head_taken p word = record p {
  free_list = p.next p.free_list;
  next = write p.next p.free_list word;
}

take_head_runs :
    (p : ObjectPoolNode) (word : ℕ)
    → p.free_list ≢ 0
    → take_head p word ≡ some (p.free_list, head_taken p word)
unfolding take_head head_taken
take_head_runs p word some_free = ground arith

-- What a call of `allocate` gives: a slot that was not in use, and is now.
pub record Fresh (used : List ℕ) (o : Option (ℕ × ObjectPoolNode)) : Type 0 where
  pub slot : ℕ
  pub after : ObjectPoolNode
  pub free : List ℕ
  pub gives : o ≡ some (slot, after)
  pub is_new : count slot used ≡ 0
  pub not_null : 0 < slot
  pub pool : IsPool after free (slot ∷ used)

Fresh-by :
    {used : List ℕ} {o o' : Option (ℕ × ObjectPoolNode)} → o ≡ o' → Fresh used o' → Fresh used o
Fresh-by e fresh = record {
  slot = fresh.slot;
  after = fresh.after;
  free = fresh.free;
  gives = e ∙ fresh.gives;
  is_new = fresh.is_new;
  not_null = fresh.not_null;
  pool = fresh.pool;
}

take_head-Fresh :
    (p : ObjectPoolNode) (word a : ℕ) (free used : List ℕ)
    → IsPool p (a ∷ free) used
    → Fresh used (take_head p word)
unfolding head_taken count
take_head-Fresh p word a free used pool =
    let (e, links) = pool.chain in
    let (pos, less, inside) = pool.free_inside in
    record {
      slot = p.free_list;
      after = head_taken p word;
      free = free;
      gives = take_head_runs p word (omega arith);
      is_new = ground (arith, pool.apart p.free_list);
      not_null = omega arith;
      pool = record {
        chain =
            Chain-write p.next p.free_list word (p.next p.free_list) free
              (ground (arith, pool.apart p.free_list))
              (subst (λ j. Chain p.next (p.next j) free) (sym e) links);
        free_inside = inside;
        used_inside = (omega arith, omega arith, pool.used_inside);
        apart = λ slot. ground (arith, pool.apart slot);
        first = pool.first;
      };
    }

allocate_takes :
    (p : ObjectPoolNode) (word : ℕ) → p.free_list ≢ 0 → allocate p word ≡ take_head p word
unfolding allocate
allocate_takes p word some_free = rw (not_null) refl
  where
    not_null : (p.free_list == 0) ≡ false
    not_null = ground arith

allocate_grows :
    (p : ObjectPoolNode) (word k : ℕ)
    → p.free_list ≡ 0
    → p.chunk_size ≡ suc k
    → allocate p word ≡ take_head (grown p k) word
unfolding allocate
allocate_grows p word k none_free chunk =
    rw (is_null)
      (ap (λ o. o >>= (λ p. take_head p word)) (ap (allocate_new_chunk p) chunk ∙ grown_runs p k))
  where
    is_null : (p.free_list == 0) ≡ true
    is_null = ground arith

returned : ObjectPoolNode → ℕ → ObjectPoolNode
returned p slot = record p { next = write p.next slot p.free_list; free_list = slot }

deallocate_runs : (p : ObjectPoolNode) (slot : ℕ) → 0 < slot → deallocate p slot ≡ returned p slot
unfolding deallocate returned
deallocate_runs p slot pos = rw (not_null) refl
  where
    not_null : (slot == 0) ≡ false
    not_null = ground arith

returned-IsPool :
    (p : ObjectPoolNode) (slot : ℕ) (free used : List ℕ)
    → IsPool p free (slot ∷ used)
    → IsPool (returned p slot) (slot ∷ free) used
unfolding returned count
returned-IsPool p slot free used pool =
    let (pos, less, inside) = pool.used_inside in
    record {
      chain = (
        refl,
        subst (λ j. Chain (write p.next slot p.free_list) j free)
            (sym (write_same p.next slot p.free_list))
            (Chain-write p.next slot p.free_list p.free_list free (ground (arith, pool.apart slot))
              pool.chain),
      );
      free_inside = (pos, less, pool.free_inside);
      used_inside = inside;
      apart = λ other. ground (arith, pool.apart other);
      first = pool.first;
    }

-- In a pool whose chunks have slots, `allocate` always gives a slot, which is not null and not in use,
-- whether it takes one from the free list or cuts a new chunk, and leaves a pool in which each slot is
-- free or in use at most once; what the object writes over the link does no harm.
pub allocate-Fresh :
    (p : ObjectPoolNode) (word : ℕ) (free used : List ℕ)
    → 0 < p.chunk_size
    → IsPool p free used
    → Fresh used (allocate p word)
allocate-Fresh p word [] used some_chunk pool =
    let k = p.chunk_size - 1 in
    Fresh-by (allocate_grows p word k pool.chain (omega arith)) (
      take_head-Fresh (grown p k) word p.unused (slots (suc p.unused) k ++ []) used
        (grown-IsPool p k [] used pool))
allocate-Fresh p word (a ∷ free) used some_chunk pool =
    let (e, links) = pool.chain in
    let (pos, less, inside) = pool.free_inside in
    Fresh-by (allocate_takes p word (omega arith)) (take_head-Fresh p word a free used pool)

-- `deallocate` of a slot in use puts it in front of the free list.
pub deallocate_returns :
    (p : ObjectPoolNode) (slot : ℕ) (free used : List ℕ)
    → IsPool p free (slot ∷ used)
    → IsPool (deallocate p slot) (slot ∷ free) used
deallocate_returns p slot free used pool =
    subst (λ q. IsPool q (slot ∷ free) used) (sym (deallocate_runs p slot pool.used_inside.0))
      (returned-IsPool p slot free used pool)

fresh_start : ℕ → ℕ → ObjectPoolNode
fresh_start preallocate chunk_size = record {
  free_list = 0;
  next = λ slot. 0;
  unused = 1;
  chunk_size = chunk_size;
  capacity = preallocate;
  blocks = [];
}

start-IsPool : (preallocate chunk_size : ℕ) → IsPool (fresh_start preallocate chunk_size) [] []
unfolding fresh_start count
start-IsPool preallocate chunk_size = record {
  chain = refl;
  free_inside = tt;
  used_inside = tt;
  apart = λ slot. omega arith;
  first = omega arith;
}

created :
    (preallocate chunk_size k : ℕ)
    → preallocate ≡ suc k
    → create preallocate chunk_size ≡ some (grown (fresh_start preallocate chunk_size) k)
unfolding create fresh_start
created preallocate chunk_size k e =
    ap (allocate_new_chunk (fresh_start preallocate chunk_size)) e
    ∙ grown_runs (fresh_start preallocate chunk_size) k

-- The constructor of a pool of some slots gives them all free, in order, and counts them twice.
pub create_counts_twice :
    (preallocate chunk_size : ℕ)
    → 0 < preallocate
    → (p : ObjectPoolNode) × (create preallocate chunk_size ≡ some p)
      × IsPool p (slots 1 preallocate) []
      × (p.capacity ≡ preallocate + preallocate)
unfolding fresh_start grown
create_counts_twice zero chunk_size pos = absurd (omega arith)
create_counts_twice (suc k) chunk_size pos = (
  grown (fresh_start (suc k) chunk_size) k,
  created (suc k) chunk_size k refl,
  subst (λ xs. IsPool (grown (fresh_start (suc k) chunk_size) k) xs [])
      (append-nil (slots 1 (suc k)))
      (grown-IsPool (fresh_start (suc k) chunk_size) k [] [] (start-IsPool (suc k) chunk_size)),
  refl,
)
