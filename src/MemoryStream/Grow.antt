-- ===== src/MemoryStream/Grow.antt =====
-- How a `MemoryStream` gets room: `reset_capacity`, and the doubling loop of `append`, which ends.
use native.Mathlib.Nat.{mul_comm, mul_assoc, pow-suc}
use native.Mathlib.Decide.{dec_lt}
use btool.Common.{
  ℕ, zero, suc, ◌+◌, ◌-◌, ◌*◌, ◌%◌, ◌^◌, ◌≤◌, ◌<◌, ◌≡◌, refl, sym, ap, ◌∙◌, inl, inr, true, List,
  ◌++◌, none, some, arith, ltb, length, replicate, length-append, length-replicate, append-nil,
  append_assoc, Bool-cases, ◌==◌, if◌then◌else◌,
}
use btool.MemoryStream.Block.{
  Cell, resize, read_at_block, write_at_fresh, resize_grows, replicate-append,
}
use btool.MemoryStream.{MemoryStream, block, reset_capacity, grow, grow_fuel}

-- The capacity is the length of the block.
abbrev pub IsBlock : MemoryStream → Type 0
IsBlock s = length (block s.buffer) ≡ s.capacity

-- What growing does: the old bytes, and then bytes that nothing has written.
pub record Grown (s s' : MemoryStream) : Type 0 where
  pub same_size : s'.size ≡ s.size
  pub same_offset : s'.offset ≡ s.offset
  pub larger : s.capacity ≤ s'.capacity
  pub bytes : block s'.buffer ≡ block s.buffer ++ replicate (s'.capacity - s.capacity) none

pub Grown-IsBlock : (s s' : MemoryStream) → IsBlock s → Grown s s' → IsBlock s'
Grown-IsBlock s s' v g = omega (
  arith,
  ap length g.bytes,
  length-append (block s.buffer) (replicate (s'.capacity - s.capacity) none),
  length-replicate {A = Cell} (s'.capacity - s.capacity) none,
  g.larger,
)

pad_eq :
    (cells : List Cell) {m n : ℕ} → m ≡ n → cells ++ replicate m none ≡ cells ++ replicate n none
pad_eq cells e = ap (λ k. cells ++ replicate k none) e

Grown-refl : (s : MemoryStream) → Grown s s
Grown-refl s = record {
  same_size = refl;
  same_offset = refl;
  larger = omega arith;
  bytes =
      sym (append-nil (block s.buffer))
      ∙ pad_eq (block s.buffer) {m = 0} {n = s.capacity - s.capacity} (omega arith);
}

Grown-trans : (s t u : MemoryStream) → Grown s t → Grown t u → Grown s u
Grown-trans s t u g h = record {
  same_size = h.same_size ∙ g.same_size;
  same_offset = h.same_offset ∙ g.same_offset;
  larger = omega arith;
  bytes =
      h.bytes
      ∙ ap (λ cells. cells ++ replicate (u.capacity - t.capacity) none) g.bytes
      ∙ append_assoc (block s.buffer) (replicate (t.capacity - s.capacity) none) _
      ∙ ap (λ cells. block s.buffer ++ cells) (replicate-append _ _ none)
      ∙ pad_eq (block s.buffer) {m = t.capacity - s.capacity + (u.capacity - t.capacity)}
          {n = u.capacity - s.capacity} (omega arith);
}

-- `reset_capacity` to no less than the capacity succeeds, with just that capacity, whether the stream
-- owns its block or not.
pub reset_capacity_grows :
    (s : MemoryStream) (len : ℕ)
    → IsBlock s
    → s.capacity ≤ len
    → (s' : MemoryStream) × (reset_capacity s len ≡ some s')
      × (s'.capacity ≡ len)
      × (s'.auto_delete ≡ true)
      × Grown s s'
unfolding reset_capacity
reset_capacity_grows s len v h = elim (Bool-cases s.auto_delete) [
  | inl owned ↦ elim (Bool-cases (ltb s.capacity len)) [
    | inl less ↦ (
      record s { buffer = some (resize (block s.buffer) len); capacity = len },
      rw (owned, less) refl,
      refl,
      owned,
      record {
        same_size = refl;
        same_offset = refl;
        larger = h;
        bytes =
            resize_grows (block s.buffer) len (omega arith)
            ∙ pad_eq (block s.buffer) {m = len - length (block s.buffer)} {n = len - s.capacity}
                (omega arith);
      },
    )
    | inr same ↦ (s, rw (owned, same) refl, ground arith, owned, Grown-refl s)
  ]
  | inr borrowed ↦ (
    record s {
      buffer = some (block s.buffer ++ replicate (len - length (block s.buffer)) none);
      auto_delete = true;
      capacity = len;
    },
    rw
        (
          borrowed,
          read_at_block (block s.buffer) s.capacity v,
          write_at_fresh len (block s.buffer) (omega arith),
        )
        refl,
    refl,
    refl,
    record {
      same_size = refl;
      same_offset = refl;
      larger = h;
      bytes =
          pad_eq (block s.buffer) {m = len - length (block s.buffer)} {n = len - s.capacity}
            (omega arith);
    },
  )
]

grow_stop :
    (fuel : ℕ) (s : MemoryStream) (need : ℕ) → need ≤ s.capacity → grow (suc fuel) s need ≡ some s
unfolding grow
grow_stop fuel s need h = ground arith

grow_next :
    (fuel : ℕ) (s t : MemoryStream) (need next : ℕ)
    → s.capacity < need
    → next ≡ (if s.capacity == 0 then need else (s.capacity * 2) % 2 ^ 64)
    → reset_capacity s next ≡ some t
    → grow (suc fuel) s need ≡ grow fuel t need
unfolding grow
grow_next fuel s t need next h e r = ground arith

Room : ℕ → MemoryStream → ℕ → Type 0
Room fuel s need =
    (s' : MemoryStream) × (grow fuel s need ≡ some s') × (need ≤ s'.capacity) × Grown s s'

-- From a capacity other than 0 the doublings that reach the need, and one look more, are enough.
grow_doubles :
    (fuel : ℕ) (s : MemoryStream) (need : ℕ)
    → IsBlock s
    → 0 < s.capacity
    → need ≤ s.capacity * 2 ^ fuel
    → need ≤ 2 ^ 63
    → Room (suc fuel) s need
unfolding Room
grow_doubles zero s need v pos reach small =
    (s, grow_stop 0 s need (omega arith), omega arith, Grown-refl s)
grow_doubles (suc fuel) s need v pos reach small = elim (dec_lt s.capacity need) [
  | no enough ↦ (s, grow_stop (suc fuel) s need (omega arith), omega arith, Grown-refl s)
  | yes less ↦
      let (t, done, cap, owns, g) = reset_capacity_grows s (s.capacity * 2) v (omega arith) in
      let step = grow_next (suc fuel) s t need (s.capacity * 2) less (doubled less) done in
      let (u, rest, room, g') =
        grow_doubles fuel t need (Grown-IsBlock s t v g) (omega arith) (reaches t cap) small in
      (u, step ∙ rest, room, Grown-trans s t u g g')
]
  where
    doubled :
        s.capacity < need
        → s.capacity * 2 ≡ (if s.capacity == 0 then need else (s.capacity * 2) % 2 ^ 64)
    doubled less = ground arith

    reaches : (t : MemoryStream) → t.capacity ≡ s.capacity * 2 → need ≤ t.capacity * 2 ^ fuel
    reaches t cap =
        rw (cap, mul_assoc s.capacity 2 (2 ^ fuel))
          (rw (pow-suc 2 fuel, mul_comm (2 ^ fuel) 2) at reach)

-- The loop of `append` ends with room for any need up to 2 ^ 63 bytes: 66 rounds are enough. The old
-- bytes stay in front, and the length and position stay.
pub grow_ends :
    (s : MemoryStream) (need : ℕ)
    → IsBlock s
    → need ≤ 2 ^ 63
    → (s' : MemoryStream) × (grow grow_fuel s need ≡ some s')
      × (need ≤ s'.capacity)
      × (length (block s'.buffer) ≡ s'.capacity)
      × Grown s s'
unfolding Room
grow_ends s need v small = elim (dec_lt 0 s.capacity) [
  | yes pos ↦
      let (u, done, room, g) = grow_doubles 65 s need v pos (omega arith) small in
      (u, done, room, Grown-IsBlock s u v g, g)
  | no zero_cap ↦ elim (dec_lt 0 need) [
    | no nothing ↦ (s, grow_stop 65 s need (omega arith), omega arith, v, Grown-refl s)
    | yes some_need ↦
        let (t, done, cap, owns, g) = reset_capacity_grows s need v (omega arith) in
        (
          t,
          grow_next 65 s t need need (omega arith) (first zero_cap) done
              ∙ grow_stop 64 t need (omega arith),
          omega arith,
          Grown-IsBlock s t v g,
          g,
        )
  ]
]
  where
    first :
        ¬ (0 < s.capacity) → need ≡ (if s.capacity == 0 then need else (s.capacity * 2) % 2 ^ 64)
    first z = ground arith
