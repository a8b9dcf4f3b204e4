-- ===== src/MemoryStream/Append.antt =====
-- `append`, `load` and `read` of `MemoryStream` on streams whose length and capacity fit their block.
use native.Mathlib.Decide.{dec_lt}
use btool.Common.{
  ℕ, zero, suc, ◌+◌, ◌^◌, ◌≤◌, ◌<◌, max, ◌≡◌, refl, sym, ap, ◌∙◌, ◌⊎◌, inl, inr, true, false, List,
  [], ◌∷◌, ◌++◌, none, some, arith, length, take, append-nil, ◌==◌,
}
use btool.MemoryStream.Block.{
  Cell, write_at, write_at_fits, malloc, length-malloc, write_at_overruns, read_at_block,
}
use btool.MemoryStream.{
  MemoryStream, block, add_size, reset_capacity, grow, grow_fuel, append, load, load_with,
}
use btool.MemoryStream.Grow.{IsBlock, Grown, Grown-IsBlock, grow_ends, reset_capacity_grows}

-- The bytes that the stream counts as its own.
abbrev pub contents : MemoryStream → List Cell
contents s = take s.size (block s.buffer)

pub record IsValid (s : MemoryStream) : Type 0 where
  pub full : length (block s.buffer) ≡ s.capacity
  pub within : s.size ≤ s.capacity

-- A stream that is being written: the position is at the end.
pub record IsWriting (s : MemoryStream) : Type 0 where
  pub valid : IsValid s
  pub at_end : s.offset ≡ s.size

take_append_le : (n : ℕ) (xs ys : List Cell) → n ≤ length xs → take n (xs ++ ys) ≡ take n xs
take_append_le zero xs ys h = refl
take_append_le (suc n) [] ys h = absurd (omega arith)
take_append_le (suc n) (x ∷ xs) ys h = ap (λ t. x ∷ t) (take_append_le n xs ys (omega arith))

take-Grown :
    (s s' : MemoryStream) (n : ℕ)
    → IsBlock s
    → n ≤ s.capacity
    → Grown s s'
    → take n (block s'.buffer) ≡ take n (block s.buffer)
take-Grown s s' n v h g = ap (take n) g.bytes ∙ take_append_le n (block s.buffer) _ (omega arith)

append_writes :
    (s t : MemoryStream) (c : Cell) (cs cells : List Cell)
    → s.offset + length (c ∷ cs) ≤ 2 ^ 63
    → grow grow_fuel s (s.offset + length (c ∷ cs)) ≡ some t
    → write_at (block t.buffer) t.offset (c ∷ cs) ≡ some cells
    → append s (c ∷ cs)
      ≡ some (record t {
        buffer = some cells;
        offset = add_size t.offset (length (c ∷ cs));
        size = add_size t.size (length (c ∷ cs));
      })
unfolding append
append_writes s t c cs cells small grows writes = rw (not_nil, no_wrap, grows, writes) refl
  where
    no_wrap : add_size s.offset (length (c ∷ cs)) ≡ s.offset + length (c ∷ cs)
    no_wrap = omega arith

    not_nil : (length (c ∷ cs) == 0) ≡ false
    not_nil = ground arith

take_front :
    (s t : MemoryStream) (n : ℕ) (source cells : List Cell)
    → IsBlock s
    → s.offset ≤ s.capacity
    → Grown s t
    → n ≡ t.offset + length source
    → take (t.offset + length source) cells ≡ take t.offset (block t.buffer) ++ source
    → take n cells ≡ take s.offset (block s.buffer) ++ source
take_front s t n source cells v inside g e front =
    ap (λ k. take k cells) e
    ∙ front
    ∙ ap (λ k. take k (block t.buffer) ++ source) g.same_offset
    ∙ ap (λ k. k ++ source) (take-Grown s t s.offset v inside g)

-- Appending at any position inside the block, with what it does to the bytes up to the new position:
-- those before the old position stay, and the source follows them.
pub append_at_position :
    (s : MemoryStream) (source : List Cell)
    → length (block s.buffer) ≡ s.capacity
    → s.offset ≤ s.capacity
    → s.offset + length source ≤ 2 ^ 63
    → s.size + length source ≤ 2 ^ 63
    → (s' : MemoryStream) × (append s source ≡ some s')
      × (s'.offset ≡ s.offset + length source)
      × (s'.size ≡ s.size + length source)
      × (length (block s'.buffer) ≡ s'.capacity)
      × (s.capacity ≤ s'.capacity)
      × (s'.offset ≤ s'.capacity)
      × (take s'.offset (block s'.buffer) ≡ take s.offset (block s.buffer) ++ source)
append_at_position s [] v inside small short = (
  s,
  unfold append in refl,
  omega arith,
  omega arith,
  v,
  omega arith,
  inside,
  sym (append-nil (take s.offset (block s.buffer))),
)
append_at_position s (c ∷ cs) v inside small short =
    let (t, grows, room, full, g) = grow_ends s (s.offset + length (c ∷ cs)) v small in
    let fits : t.offset + length (c ∷ cs) ≤ length (block t.buffer) =
      omega (arith, g.same_offset) in
    let (cells, writes, same, front, back) =
      write_at_fits (block t.buffer) (c ∷ cs) t.offset fits in
    (
      record t {
        buffer = some cells;
        offset = add_size t.offset (length (c ∷ cs));
        size = add_size t.size (length (c ∷ cs));
      },
      append_writes s t c cs cells small grows writes,
      omega (arith, g.same_offset),
      omega (arith, g.same_size),
      omega (arith, same, full),
      g.larger,
      omega (arith, g.same_offset, room),
      take_front s t (add_size t.offset (length (c ∷ cs))) (c ∷ cs) cells v inside g
          (omega (arith, g.same_offset)) front,
    )

-- `append` to a stream that is being written puts the bytes behind its contents, grows the block as
-- needed, and leaves a stream that is being written.
pub append_extends :
    (s : MemoryStream) (source : List Cell)
    → IsWriting s
    → s.size + length source ≤ 2 ^ 63
    → (s' : MemoryStream) × (append s source ≡ some s')
      × (contents s' ≡ contents s ++ source)
      × (s'.size ≡ s.size + length source)
      × IsWriting s'
append_extends s source w small =
    let (s', runs, offset, size, full, larger, inside, front) =
      append_at_position s source w.valid.full (omega (arith, w.at_end, w.valid.within))
        (omega (arith, w.at_end)) small in
    let at_end : s'.offset ≡ s'.size = omega (arith, w.at_end) in
    (
      s',
      runs,
      ap (λ k. take k (block s'.buffer)) (sym at_end)
          ∙ front
          ∙ ap (λ k. take k (block s.buffer) ++ source) w.at_end,
      size,
      record { valid = record { full = full; within = omega arith }; at_end = at_end },
    )

reset_capacity_keeps :
    (s : MemoryStream) (len : ℕ)
    → s.auto_delete ≡ true
    → len ≤ s.capacity
    → reset_capacity s len ≡ some s
unfolding reset_capacity
reset_capacity_keeps s len owned h = ground arith

-- Room for a load, in a stream that owns its block or whose block is not longer than the source.
load_room :
    (s : MemoryStream) (len : ℕ)
    → length (block s.buffer) ≡ s.capacity
    → (s.auto_delete ≡ true) ⊎ (s.capacity ≤ len)
    → (s' : MemoryStream) × (reset_capacity s len ≡ some s')
      × (len ≤ s'.capacity)
      × (length (block s'.buffer) ≡ s'.capacity)
      × (s'.auto_delete ≡ true)
load_room s len v (inr less) =
    let (s', runs, cap, owns, g) = reset_capacity_grows s len v less in
    (s', runs, omega arith, Grown-IsBlock s s' v g, owns)
load_room s len v (inl owned) = elim (dec_lt s.capacity len) [
  | yes less ↦
      let (s', runs, cap, owns, g) = reset_capacity_grows s len v (omega arith) in
      (s', runs, omega arith, Grown-IsBlock s s' v g, owns)
  | no enough ↦ (s, reset_capacity_keeps s len owned (omega arith), omega arith, v, owned)
]

load_writes :
    (s t : MemoryStream) (source cells : List Cell)
    → reset_capacity s (length source) ≡ some t
    → write_at (block t.buffer) 0 source ≡ some cells
    → load s source ≡ some (record t { buffer = some cells; size = length source; offset = 0 })
unfolding load
load_writes s t source cells r w = rw (r, w) refl

load_with_writes :
    (s t : MemoryStream) (source cells : List Cell) (capacity : ℕ)
    → reset_capacity s (max capacity (length source)) ≡ some t
    → write_at (block t.buffer) 0 source ≡ some cells
    → load_with s source capacity
      ≡ some (record t { buffer = some cells; size = length source; offset = 0 })
unfolding load_with
load_with_writes s t source cells capacity r w = rw (r, w) refl

-- A stream just loaded with the source: it owns its block, and the position is at its start.
pub record IsLoaded (s : MemoryStream) (source : List Cell) : Type 0 where
  pub bytes : contents s ≡ source
  pub sized : s.size ≡ length source
  pub at_start : s.offset ≡ 0
  pub owned : s.auto_delete ≡ true
  pub valid : IsValid s

loaded :
    (t : MemoryStream) (source : List Cell)
    → length source ≤ t.capacity
    → length (block t.buffer) ≡ t.capacity
    → t.auto_delete ≡ true
    → (cells : List Cell) × (write_at (block t.buffer) 0 source ≡ some cells)
      × IsLoaded (record t { buffer = some cells; size = length source; offset = 0 }) source
loaded t source enough full owned =
    let fits : 0 + length source ≤ length (block t.buffer) = omega arith in
    let (cells, writes, same, front, back) = write_at_fits (block t.buffer) source 0 fits in
    let at_zero : length source ≡ 0 + length source = omega arith in
    (
      cells,
      writes,
      record {
        bytes = ap (λ k. take k cells) at_zero ∙ front;
        sized = refl;
        at_start = refl;
        owned = owned;
        valid = record { full = omega (arith, same, full); within = enough };
      },
    )

-- `load` into a stream that owns its block, or whose block is not longer than the source, gives just
-- the source, with the position at its start, in a block that the stream owns.
pub load_gives :
    (s : MemoryStream) (source : List Cell)
    → length (block s.buffer) ≡ s.capacity
    → (s.auto_delete ≡ true) ⊎ (s.capacity ≤ length source)
    → (s' : MemoryStream) × (load s source ≡ some s') × IsLoaded s' source
load_gives s source v room =
    let (t, runs, enough, full, owned) = load_room s (length source) v room in
    let (cells, writes, done) = loaded t source enough full owned in
    (
      record t { buffer = some cells; size = length source; offset = 0 },
      load_writes s t source cells runs writes,
      done,
    )

-- The same for the form of `load` that asks for a least capacity, in a stream that owns its block.
pub load_with_gives :
    (s : MemoryStream) (source : List Cell) (capacity : ℕ)
    → length (block s.buffer) ≡ s.capacity
    → s.auto_delete ≡ true
    → (s' : MemoryStream) × (load_with s source capacity ≡ some s') × IsLoaded s' source
load_with_gives s source capacity v own =
    let (t, runs, enough, full, owned) = load_room s (max capacity (length source)) v (inl own) in
    let (cells, writes, done) = loaded t source (omega arith) full owned in
    (
      record t { buffer = some cells; size = length source; offset = 0 },
      load_with_writes s t source cells capacity runs writes,
      done,
    )

-- `load` of fewer bytes than the block of a stream that does not own it copies the whole old block into
-- a block of the new length, which it overruns.
pub load_overruns :
    (s : MemoryStream) (source : List Cell)
    → length (block s.buffer) ≡ s.capacity
    → s.auto_delete ≡ false
    → length source < s.capacity
    → load s source ≡ none
unfolding load reset_capacity
load_overruns s source v view less = rw (
  view,
  read_at_block (block s.buffer) s.capacity v,
  write_at_overruns (malloc (length source)) (block s.buffer) 0
      (omega (arith, length-malloc (length source))),
)
