-- ===== src/ObjectPoolNode.antt =====
-- `ObjectPoolNode` of object_pool.hpp: slots for objects of one type, cut from chunks of memory, the free
-- ones linked through their own first word. A slot is its number, in the order in which `malloc` gave it;
-- 0 is the null pointer. A slot is taken to be at least as large as a pointer, so that the links of two slots do not
-- overlap, which the code does not check. `malloc` gives new memory and does not fail; `none` is a write outside a chunk,
-- or through the null pointer.
pub mod Chains
pub mod Slots
mod Tests
use btool.Common.{
  ℕ, zero, suc, ◌+◌, List, [], ◌∷◌, ◌++◌, Option, none, some, ◌>>=◌, ◌==◌, if◌then◌else◌,
}

pub record ObjectPoolNode : Type 0 where
  -- m_free_list
  pub free_list : ℕ
  -- The first word of each slot, which is `FreeNode::next` in a free one.
  pub next : ℕ → ℕ
  -- The slots from here on are not allocated yet.
  pub unused : ℕ
  pub chunk_size : ℕ
  pub capacity : ℕ
  -- m_blocks, by their first slots
  pub blocks : List ℕ

pub write : (ℕ → ℕ) → ℕ → ℕ → ℕ → ℕ
write next slot word other = if other == slot then word else next other

-- The loop of `allocate_new_chunk` from a slot on, with so many slots behind it, and the link of the last
-- one to the old list.
pub link_slots : ℕ → ℕ → ℕ → (ℕ → ℕ) → ℕ → ℕ
unfolding write
link_slots zero current old next = write next current old
link_slots (suc k) current old next =
    link_slots k (suc current) old (write next current (suc current))

-- A chunk of no slots writes outside its memory.
pub allocate_new_chunk : ObjectPoolNode → ℕ → Option ObjectPoolNode
unfolding link_slots
allocate_new_chunk p zero = none
allocate_new_chunk p (suc k) = some (record p {
  next = link_slots k p.unused p.free_list p.next;
  free_list = p.unused;
  unused = p.unused + suc k;
  capacity = p.capacity + suc k;
  blocks = p.blocks ++ (p.unused ∷ []);
})

-- The constructor counts the first chunk twice.
pub create : ℕ → ℕ → Option ObjectPoolNode
unfolding allocate_new_chunk
create preallocate chunk_size =
    allocate_new_chunk
      (record {
        free_list = 0;
        next = λ slot. 0;
        unused = 1;
        chunk_size = chunk_size;
        capacity = preallocate;
        blocks = [];
      })
      preallocate

-- The head of the list, whose first word the new object then overwrites.
pub take_head : ObjectPoolNode → ℕ → Option (ℕ × ObjectPoolNode)
unfolding write
take_head p word =
    if p.free_list == 0
    then none
    else some (
      p.free_list,
      record p { free_list = p.next p.free_list; next = write p.next p.free_list word },
    )

pub allocate : ObjectPoolNode → ℕ → Option (ℕ × ObjectPoolNode)
unfolding allocate_new_chunk take_head
allocate p word =
    if p.free_list == 0
    then (do grown ← allocate_new_chunk p p.chunk_size; take_head grown word)
    else take_head p word

pub deallocate : ObjectPoolNode → ℕ → ObjectPoolNode
unfolding write
deallocate p obj =
    if obj == 0 then p else record p { next = write p.next obj p.free_list; free_list = obj }
