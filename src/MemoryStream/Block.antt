-- ===== src/MemoryStream/Block.antt =====
-- Blocks of memory: `malloc`, `realloc` and `memcpy`, with the bounds of the block.
use btool.Common.{
  ℕ, zero, suc, ◌+◌, ◌-◌, ◌≤◌, ◌<◌, ◌≡◌, ap, ◌∙◌, List, ◌∷◌, ◌++◌, Option, none, some, arith, leb,
  if◌then◌else◌, length, take, drop, replicate, length-append, length-take, length-drop,
  length-replicate, append_assoc, take_all, take_append_all, drop_append_all,
}

-- `none` is a byte that nothing has written.
abbrev pub Cell : Type 0
Cell = Option ℕ

unfoldable pub malloc : ℕ → List Cell
malloc n = replicate n none

unfoldable pub resize : List Cell → ℕ → List Cell
resize cells n = take n cells ++ replicate (n - length cells) none

-- `memcpy` into a block at an offset.
unfoldable pub write_at : List Cell → ℕ → List Cell → Option (List Cell)
write_at target offset source =
    if leb (offset + length source) (length target)
    then some (take offset target ++ (source ++ drop (offset + length source) target))
    else none

-- `memcpy` out of a block at an offset.
unfoldable pub read_at : List Cell → ℕ → ℕ → Option (List Cell)
read_at source offset len =
    if leb (offset + len) (length source) then some (take len (drop offset source)) else none

pub length-malloc : (n : ℕ) → length (malloc n) ≡ n
unfolding malloc
length-malloc n = length-replicate n none

replicate_eq : {m n : ℕ} (c : Cell) → m ≡ n → replicate m c ≡ replicate n c
replicate_eq c e = ap (λ k. replicate k c) e

pub replicate-append : (m n : ℕ) (c : Cell) → replicate m c ++ replicate n c ≡ replicate (m + n) c
replicate-append zero n c = replicate_eq {m = n} {n = zero + n} c (omega arith)
replicate-append (suc m) n c =
    ap (λ cs. c ∷ cs) (replicate-append m n c)
    ∙ replicate_eq {m = suc (m + n)} {n = suc m + n} c (omega arith)

-- Growing keeps the old bytes in front.
pub resize_grows :
    (cells : List Cell) (n : ℕ)
    → length cells ≤ n
    → resize cells n ≡ cells ++ replicate (n - length cells) none
unfolding resize
resize_grows cells n h = ap (λ t. t ++ replicate (n - length cells) none) (take_all n cells h)

-- A read of a whole block.
pub read_at_all : (cells : List Cell) → read_at cells 0 (length cells) ≡ some cells
unfolding read_at
read_at_all cells = ground (arith, take_all (length cells) cells)

drop-replicate : (m n : ℕ) (c : Cell) → drop m (replicate n c) ≡ replicate (n - m) c
drop-replicate zero n c = replicate_eq {m = n} {n = n - zero} c (omega arith)
drop-replicate (suc m) zero c = replicate_eq {m = zero} {n = zero - suc m} c (omega arith)
drop-replicate (suc m) (suc n) c =
    drop-replicate m n c ∙ replicate_eq {m = n - m} {n = suc n - suc m} c (omega arith)

pub take_append_at : (n : ℕ) (xs ys : List Cell) → n ≡ length xs → take n (xs ++ ys) ≡ xs
take_append_at n xs ys e = rw e (take_append_all xs ys)

pub drop_append_at : (n : ℕ) (xs ys : List Cell) → n ≡ length xs → drop n (xs ++ ys) ≡ ys
drop_append_at n xs ys e = rw e (drop_append_all xs ys)

-- A copy to the front of a fresh block.
pub write_at_fresh :
    (n : ℕ) (source : List Cell)
    → length source ≤ n
    → write_at (malloc n) 0 source ≡ some (source ++ replicate (n - length source) none)
unfolding write_at malloc
write_at_fresh n source h =
    ground (arith, length-replicate {A = Cell} n none, drop-replicate (length source) n none)

-- A write that fits succeeds, and keeps the length of the block.
pub write_at_fits :
    (target source : List Cell) (offset : ℕ)
    → offset + length source ≤ length target
    → (target' : List Cell) × (write_at target offset source ≡ some target')
      × (length target' ≡ length target)
      × (take (offset + length source) target' ≡ take offset target ++ source)
      × (drop (offset + length source) target' ≡ drop (offset + length source) target)
unfolding write_at
write_at_fits target source offset h = (
  take offset target ++ (source ++ drop (offset + length source) target),
  ground arith,
  omega (
    arith,
    length-append (take offset target) (source ++ drop (offset + length source) target),
    length-append source (drop (offset + length source) target),
    length-take offset target,
    length-drop (offset + length source) target,
  ),
  rw (← append_assoc (take offset target) source (drop (offset + length source) target)) (
      take_append_at _ (take offset target ++ source) (drop (offset + length source) target)
        written),
  rw (← append_assoc (take offset target) source (drop (offset + length source) target)) (
      drop_append_at _ (take offset target ++ source) (drop (offset + length source) target)
        written),
)
  where
    written : offset + length source ≡ length (take offset target ++ source)
    written = omega (arith, length-append (take offset target) source, length-take offset target)

-- A write that does not fit is a fault.
pub write_at_overruns :
    (target source : List Cell) (offset : ℕ)
    → length target < offset + length source
    → write_at target offset source ≡ none
unfolding write_at
write_at_overruns target source offset h = ground arith

pub read_at_block : (cells : List Cell) (n : ℕ) → length cells ≡ n → read_at cells 0 n ≡ some cells
read_at_block cells n e = rw (← e) (read_at_all cells)

-- A read of what stands between two parts of a block.
pub read_at_middle :
    (before source after : List Cell) (offset n : ℕ)
    → offset ≡ length before
    → n ≡ length source
    → read_at (before ++ (source ++ after)) offset n ≡ some source
unfolding read_at
read_at_middle before source after offset n e f = ground (
  arith,
  length-append before (source ++ after),
  length-append source after,
  drop_append_at offset before (source ++ after) e,
  take_append_at n source after f,
)
