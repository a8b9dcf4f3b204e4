-- ===== src/WriteBuffer/Accounting.antt =====
-- The length that `WriteBuffer` reports is that of its items, and the items leave as they came.
use mathlib.Core.List.{map-append}
use native.Mathlib.Decide.{dec_lt}
use btool.Common.{
  ◌⊎◌, inl, inr, subst, ℕ, zero, suc, ◌+◌, ◌-◌, ◌%◌, ◌^◌, ◌<◌, ◌≡◌, refl, ap, ◌∙◌, true, List, [],
  ◌∷◌, ◌++◌, map, none, some, arith, length, take, replicate,
}
use btool.MemoryStream.Block.{Cell, length-malloc}
use btool.MemoryStream
use btool.MemoryStream.{MemoryStream, block, add_size}
use btool.MemoryStream.Append.{contents, IsValid, IsLoaded, load_gives, load_with_gives}
use btool.WriteBuffer.{
  WriteBuffer, init, take_stream, acquire, append_stream, append, take_front, pop_front, clear,
}

-- A stream that owns a block of its capacity, and counts no more bytes than that.
pub record IsReady (s : MemoryStream) : Type 0 where
  pub owned : s.auto_delete ≡ true
  pub valid : IsValid s

abbrev pub AllReady : List MemoryStream → Type 0
AllReady [] = Unit {0}
AllReady (s ∷ ss) = IsReady s × AllReady ss

abbrev pub total_size : List MemoryStream → ℕ
total_size [] = 0
total_size (s ∷ ss) = s.size + total_size ss

-- The counter is the sum of the items' sizes, and every stream at hand is usable.
pub record IsAccounted (w : WriteBuffer) : Type 0 where
  pub total : w.all_len ≡ total_size w.send_items
  pub pool : AllReady w.free_pool
  pub items : AllReady w.send_items

abbrev pub messages : WriteBuffer → List (List Cell)
messages w = map contents w.send_items

pub total_size-append :
    (xs ys : List MemoryStream) → total_size (xs ++ ys) ≡ total_size xs + total_size ys
total_size-append [] ys = omega arith
total_size-append (x ∷ xs) ys = omega (arith, total_size-append xs ys)

pub AllReady-append : (xs ys : List MemoryStream) → AllReady xs → AllReady ys → AllReady (xs ++ ys)
AllReady-append [] ys h k = k
AllReady-append (x ∷ xs) ys h k = (h.0, AllReady-append xs ys h.1 k)

size-clear : (s : MemoryStream) → IsReady s → (MemoryStream.clear s).size ≡ 0
unfolding MemoryStream.clear
size-clear s r = ground arith

cleared :
    (s : MemoryStream) (msg : List Cell)
    → IsReady s
    → length msg ≡ 0
    → IsLoaded (MemoryStream.clear s) msg
unfolding MemoryStream.clear
cleared s (c ∷ cs) r e = absurd (omega arith)
cleared s [] r e = record {
  bytes = ap (λ k. take k (block s.buffer)) (size-clear s r);
  sized = size-clear s r;
  at_start = refl;
  owned = r.owned;
  valid = record { full = r.valid.full; within = omega (arith, size-clear s r) };
}

take_stream_loads :
    (default_size : ℕ) (obj s : MemoryStream) (pool : List MemoryStream) (msg : List Cell)
    → 0 < length msg
    → MemoryStream.load obj msg ≡ some s
    → take_stream default_size (obj ∷ pool) msg ≡ some (s, pool)
unfolding take_stream
take_stream_loads default_size obj s pool msg h e = ground arith

take_stream_clears :
    (default_size : ℕ) (obj : MemoryStream) (pool : List MemoryStream) (msg : List Cell)
    → length msg ≡ 0
    → take_stream default_size (obj ∷ pool) msg ≡ some (MemoryStream.clear obj, pool)
unfolding take_stream
take_stream_clears default_size obj pool msg h = ground arith

-- A stream for a message is there, whether the pool has one or not.
take_stream_gives :
    (default_size : ℕ) (pool : List MemoryStream) (msg : List Cell)
    → AllReady pool
    → (s : MemoryStream) × (pool' : List MemoryStream) × (take_stream default_size pool msg
        ≡ some (s, pool'))
      × IsLoaded s msg
      × AllReady pool'
unfolding take_stream MemoryStream.empty
take_stream_gives default_size [] msg r =
    let (s, loads, done) = load_with_gives MemoryStream.empty msg default_size refl refl in
    (s, [], rw loads, done, tt)
take_stream_gives default_size (obj ∷ pool) msg r = elim (dec_lt 0 (length msg)) [
  | yes some_bytes ↦
      let (s, loads, done) = load_gives obj msg r.0.valid.full (inl r.0.owned) in
      (s, pool, take_stream_loads default_size obj s pool msg some_bytes loads, done, r.1)
  | no nothing ↦ (
    MemoryStream.clear obj,
    pool,
    take_stream_clears default_size obj pool msg (omega arith),
    cleared obj msg r.0 (omega arith),
    r.1,
  )
]

IsLoaded-IsReady : (s : MemoryStream) (msg : List Cell) → IsLoaded s msg → IsReady s
IsLoaded-IsReady s msg h = record { owned = h.owned; valid = h.valid }

queued :
    (w : WriteBuffer) (s : MemoryStream) (pool : List MemoryStream) (msg : List Cell)
    → IsAccounted w
    → IsLoaded s msg
    → AllReady pool
    → w.all_len + length msg < 2 ^ 64
    → let w' = (append_stream (record w { free_pool = pool }) (some s)).1 in
      IsAccounted w' × (messages w' ≡ messages w ++ (msg ∷ []))
unfolding append_stream
queued w s pool msg h l r small = (
  record {
    total = omega (arith, h.total, l.sized, total_size-append w.send_items (s ∷ []));
    pool = r;
    items = AllReady-append w.send_items (s ∷ []) h.items (IsLoaded-IsReady s msg l, tt);
  },
  map-append contents w.send_items (s ∷ []) ∙ ap (λ k. messages w ++ (k ∷ [])) l.bytes,
)

-- `append` of a message succeeds, puts it behind the others, and keeps the account, as long as the length of all stays
-- below 2 ^ 64; the item that holds it comes last and has its position at the start.
pub append_queues :
    (default_size : ℕ) (w : WriteBuffer) (msg : List Cell)
    → IsAccounted w
    → w.all_len + length msg < 2 ^ 64
    → (w' : WriteBuffer) × (append default_size w msg ≡ some (true, w'))
      × (messages w' ≡ messages w ++ (msg ∷ []))
      × (w'.all_len ≡ w.all_len + length msg)
      × IsAccounted w'
      × ((s : MemoryStream) × (w'.send_items ≡ w.send_items ++ (s ∷ []))
          × (contents s ≡ msg)
          × (s.offset ≡ 0))
unfolding append acquire
append_queues default_size w msg h small =
    let (s, pool, takes, l, r) = take_stream_gives default_size w.free_pool msg h.pool in
    let (h', order) = queued w s pool msg h l r small in
    (
      (append_stream (record w { free_pool = pool }) (some s)).1,
      rw takes (unfold append_stream in refl),
      order,
      unfold append_stream in omega (arith, l.sized),
      h',
      (s, unfold append_stream in refl, l.bytes, l.at_start),
    )

front_pops :
    (w : WriteBuffer) (ss : List MemoryStream)
    → w.send_items ≡ ss
    → IsAccounted w
    → w.all_len < 2 ^ 64
    → ((ss ≡ []) × (pop_front w ≡ none))
      ⊎ ((s : MemoryStream) × (w' : WriteBuffer) × (pop_front w ≡ some (s, w'))
          × (messages w ≡ contents s ∷ messages w')
          × (w'.all_len + s.size ≡ w.all_len)
          × IsAccounted w')
unfolding pop_front
front_pops w [] e h small = inl (refl, rw (e, take_front))
front_pops w (s ∷ ss) e h small = inr (
  s,
  record w { send_items = ss; all_len = (2 ^ 64 + w.all_len - s.size) % 2 ^ 64 },
  rw (e, take_front),
  ap (λ k. map contents k) e,
  omega (arith, h.total, ap total_size e),
  record {
    total = omega (arith, h.total, ap total_size e);
    pool = h.pool;
    items = (subst AllReady e h.items).1;
  },
)

-- `pop_front` faults on a buffer with no items only; otherwise it gives the oldest message and takes
-- its length off the counter, which does not wrap.
pub pop_front_first :
    (w : WriteBuffer)
    → IsAccounted w
    → w.all_len < 2 ^ 64
    → ((w.send_items ≡ []) × (pop_front w ≡ none))
      ⊎ ((s : MemoryStream) × (w' : WriteBuffer) × (pop_front w ≡ some (s, w'))
          × (messages w ≡ contents s ∷ messages w')
          × (w'.all_len + s.size ≡ w.all_len)
          × IsAccounted w')
pop_front_first w h small = front_pops w w.send_items refl h small

-- Clearing and giving streams back keep the account.
pub clear-IsAccounted : (w : WriteBuffer) → IsAccounted w → IsAccounted (clear w)
unfolding clear
clear-IsAccounted w h = record {
  total = refl;
  pool = AllReady-append w.free_pool w.send_items h.pool h.items;
  items = tt;
}

AllReady-replicate : (n : ℕ) (s : MemoryStream) → IsReady s → AllReady (replicate n s)
AllReady-replicate zero s r = tt
AllReady-replicate (suc n) s r = (r, AllReady-replicate n s r)

pub init-IsAccounted : (default_size pool_size : ℕ) → IsAccounted (init default_size pool_size)
unfolding init MemoryStream.with_capacity
init-IsAccounted default_size pool_size = record {
  total = refl;
  pool = AllReady-replicate pool_size _ (record {
    owned = refl;
    valid = record { full = length-malloc default_size; within = omega arith };
  });
  items = tt;
}
