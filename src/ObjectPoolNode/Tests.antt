-- ===== src/ObjectPoolNode/Tests.antt =====
-- The theorems about `ObjectPoolNode` at a concrete pool.
use btool.Common.{refl, [], ◌∷◌, arith, ◌==◌, if◌then◌else◌}
use btool.Common.Assoc.{count}
use btool.ObjectPoolNode.{ObjectPoolNode, allocate}
use btool.ObjectPoolNode.Slots.{IsPool, Fresh, allocate-Fresh}

-- Slot 2 is free and slot 1 in use, with 9 written over its link.
abbrev half : ObjectPoolNode
half = record {
  free_list = 2;
  next = λ slot. if slot == 1 then 9 else 0;
  unused = 3;
  chunk_size = 2;
  capacity = 4;
  blocks = 1 ∷ [];
}

half-IsPool : IsPool half (2 ∷ []) (1 ∷ [])
unfolding count
half-IsPool = record {
  chain = (refl, refl);
  free_inside = (omega arith, omega arith, tt);
  used_inside = (omega arith, omega arith, tt);
  apart = λ slot. ground arith;
  first = omega arith;
}

allocate-Fresh_example : Fresh (1 ∷ []) (allocate half 7)
allocate-Fresh_example = allocate-Fresh half 7 (2 ∷ []) (1 ∷ []) (omega arith) half-IsPool
