-- ===== src/WriteBuffer/Tail.antt =====
-- `append_tail` of `WriteBuffer`: it appends at the position of the last item, which for an item made by
-- `append` is its start.
use btool.Common.{
  ℕ, ◌+◌, ◌^◌, ◌≤◌, ◌<◌, ◌≡◌, ◌≢◌, refl, ap, ◌∙◌, true, List, [], ◌∷◌, ◌++◌, some, arith, length,
  take,
}
use btool.MemoryStream.Block.{Cell}
use btool.MemoryStream
use btool.MemoryStream.{MemoryStream, block, add_size}
use btool.MemoryStream.Append.{IsLoaded, append_at_position}
use btool.WriteBuffer.{WriteBuffer, append_tail, last, set_last}
use btool.WriteBuffer.Accounting.{IsAccounted, total_size}

total_size-set_last :
    (ss : List MemoryStream) (s t : MemoryStream) (n : ℕ)
    → last ss ≡ some s
    → t.size ≡ s.size + n
    → total_size (set_last ss t) ≡ total_size ss + n
unfolding last set_last
total_size-set_last [] s t n e h = absurd (ground arith)
total_size-set_last (x ∷ []) s t n e h = ground arith
total_size-set_last (x ∷ y ∷ ss) s t n e h = omega (arith, total_size-set_last (y ∷ ss) s t n e h)

last-set_last :
    (ss : List MemoryStream) (s t : MemoryStream) → last ss ≡ some s → last (set_last ss t) ≡ some t
unfolding last set_last
last-set_last [] s t e = ground arith
last-set_last (x ∷ []) s t e = refl
last-set_last (x ∷ y ∷ []) s t e = refl
last-set_last (x ∷ y ∷ z ∷ ss) s t e = last-set_last (y ∷ z ∷ ss) s t e

append_tail_merges :
    (default_size : ℕ) (w : WriteBuffer) (item item' : MemoryStream) (msg : List Cell)
    → last w.send_items ≡ some item
    → MemoryStream.append item msg ≡ some item'
    → append_tail default_size w msg 0
      ≡ some (true, record w { send_items = set_last w.send_items item' })
unfolding append_tail
append_tail_merges default_size w item item' msg l e = rw (l, append_tail) (rw e)

-- A last item made by `append` is overwritten from its start by `append_tail` with no package limit: the
-- call succeeds, the item's length grows by that of the message while its first bytes are the message
-- and no longer those queued before, and the buffer's counter stays, so the account is lost.
pub append_tail_overwrites :
    (default_size : ℕ) (w : WriteBuffer) (item : MemoryStream) (old msg : List Cell)
    → IsAccounted w
    → last w.send_items ≡ some item
    → IsLoaded item old
    → 0 < length msg
    → length old + length msg ≤ 2 ^ 63
    → (w' : WriteBuffer) × (item' : MemoryStream) × (append_tail default_size w msg 0
        ≡ some (true, w'))
      × (last w'.send_items ≡ some item')
      × (item'.size ≡ length old + length msg)
      × (take (length msg) (block item'.buffer) ≡ msg)
      × (w'.all_len ≡ w.all_len)
      × (w'.all_len ≢ total_size w'.send_items)
append_tail_overwrites default_size w item old msg h l e some_bytes small =
    let (t, runs, offset, size, full, larger, inside, front) =
      append_at_position item msg e.valid.full (omega (arith, e.at_start))
        (omega (arith, e.at_start)) (omega (arith, e.sized)) in
    (
      record w { send_items = set_last w.send_items t },
      t,
      append_tail_merges default_size w item t msg l runs,
      last-set_last w.send_items item t l,
      omega (arith, size, e.sized),
      ap (λ k. take k (block t.buffer)) (moved offset e.at_start)
          ∙ front
          ∙ ap (λ k. take k (block item.buffer) ++ msg) e.at_start,
      refl,
      omega (arith, h.total, total_size-set_last w.send_items item t (length msg) l size),
    )
  where
    moved : {n k : ℕ} → n ≡ k + length msg → k ≡ 0 → length msg ≡ n
    moved p q = omega arith
