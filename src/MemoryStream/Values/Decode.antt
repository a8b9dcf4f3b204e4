-- ===== src/MemoryStream/Values/Decode.antt =====
-- Reading one value, and a sequence of values, where their bytes stand.
use btool.Common.{
  ℕ, ◌+◌, ◌^◌, ◌≤◌, ◌<◌, ◌≡◌, refl, sym, ap, ◌∙◌, true, false, List, [], ◌∷◌, ◌++◌, map, some,
  arith, length, length-append, append_assoc, ◌==◌, subst,
}
use btool.MemoryStream.Block.{Cell, read_at, read_at_middle}
use btool.MemoryStream.{MemoryStream, block, add_size, read}
use btool.MemoryStream.Values.{
  Value, scalar, text, cells_of, word_bytes, read_length, read_value, read_members,
}
use btool.MemoryStream.Values.Encode.{
  type_of, IsShort, AllShort, value_bytes, encode, written-cells_of, length-cells_of,
  cells_of-append, word_of-word_bytes, length-word_bytes,
}

-- The stream stands in front of the bytes, which others may surround.
pub record IsAt (s : MemoryStream) (bytes : List ℕ) : Type 0 where
  pub before : List Cell
  pub after : List Cell
  pub bytes_at : block s.buffer ≡ before ++ (cells_of bytes ++ after)
  pub place : s.offset ≡ length before
  pub inside : length before + length bytes ≤ 2 ^ 63

regroup :
    (before after : List Cell) (xs ys : List ℕ)
    → before ++ (cells_of (xs ++ ys) ++ after) ≡ before ++ (cells_of xs ++ (cells_of ys ++ after))
regroup before after xs ys = simp (cells_of-append, append_assoc)

-- Past a first part of the bytes.
pub IsAt-move :
    (s : MemoryStream) (xs ys : List ℕ)
    → IsAt s (xs ++ ys)
    → IsAt (record s { offset = add_size s.offset (length xs) }) ys
IsAt-move s xs ys h = record {
  before = h.before ++ cells_of xs;
  after = h.after;
  bytes_at =
      h.bytes_at
      ∙ regroup h.before h.after xs ys
      ∙ sym (append_assoc h.before (cells_of xs) (cells_of ys ++ h.after));
  place = omega (
    arith,
    h.place,
    h.inside,
    length-append h.before (cells_of xs),
    length-cells_of xs,
    length-append xs ys,
  );
  inside = omega (
    arith,
    h.inside,
    length-append h.before (cells_of xs),
    length-cells_of xs,
    length-append xs ys,
  );
}

pub read_at-IsAt :
    (s : MemoryStream) (xs ys : List ℕ)
    → IsAt s (xs ++ ys)
    → read_at (block s.buffer) s.offset (length xs) ≡ some (cells_of xs)
read_at-IsAt s xs ys h =
    ap (λ k. read_at k s.offset (length xs)) (h.bytes_at ∙ regroup h.before h.after xs ys)
    ∙ read_at_middle h.before (cells_of xs) (cells_of ys ++ h.after) s.offset (length xs) h.place
        (sym (length-cells_of xs))

read-IsAt :
    (s : MemoryStream) (xs ys : List ℕ)
    → IsAt s (xs ++ ys)
    → read s (length xs) true
      ≡ some (cells_of xs, record s { offset = add_size s.offset (length xs) })
unfolding read
read-IsAt s [] ys h =
    unfold cells_of in
    ap (λ k. some ([], record s { offset = k })) (omega (arith, h.place, h.inside))
read-IsAt s (x ∷ xs) ys h = rw (not_nil, read_at-IsAt s (x ∷ xs) ys h)
  where
    not_nil : (length (x ∷ xs) == 0) ≡ false
    not_nil = ground arith

unfoldable pub after_bytes : MemoryStream → List ℕ → MemoryStream
after_bytes s xs = record s { offset = add_size s.offset (length xs) }

pub read_length-IsAt :
    (s : MemoryStream) (n : ℕ) (ys : List ℕ)
    → n < 2 ^ 32
    → IsAt s (word_bytes n ++ ys)
    → read_length s ≡ some (n, after_bytes s (word_bytes n))
unfolding read_length after_bytes
read_length-IsAt s n ys small h =
    rw (← length-word_bytes n, read-IsAt s (word_bytes n) ys h)
      (rw (written-cells_of (word_bytes n))
        (ap (λ k. some (k, after_bytes s (word_bytes n))) (word_of-word_bytes n small)))

after_bytes-append :
    (s : MemoryStream) (xs ys : List ℕ)
    → after_bytes (after_bytes s xs) ys ≡ after_bytes s (xs ++ ys)
unfolding after_bytes
after_bytes-append s xs ys = ap (λ k. record s { offset = k }) (omega (arith, length-append xs ys))

pub read_value-IsAt :
    (s : MemoryStream) (v : Value) (ys : List ℕ)
    → IsShort v
    → IsAt s (value_bytes v ++ ys)
    → read_value s (type_of v) true ≡ some (v, after_bytes s (value_bytes v))
unfolding read_value
read_value-IsAt s (scalar bytes) ys short h =
    rw (read-IsAt s bytes ys h) (rw (written-cells_of bytes) (unfold after_bytes in refl))
read_value-IsAt s (text bytes) ys short h =
    let h' = subst (IsAt s) (append_assoc (word_bytes (length bytes)) bytes ys) h in
    let behind : IsAt (after_bytes s (word_bytes (length bytes))) (bytes ++ ys) =
      unfold after_bytes in IsAt-move s (word_bytes (length bytes)) (bytes ++ ys) h' in
    rw
      (
        read_length-IsAt s (length bytes) (bytes ++ ys) short h',
        read_at-IsAt (after_bytes s (word_bytes (length bytes))) bytes ys behind,
      )
      (rw (written-cells_of bytes) (
        unfold after_bytes in
        ap (λ k. some (text bytes, k)) (after_bytes-append s (word_bytes (length bytes)) bytes)))

pub read_members-IsAt :
    (vs : List Value) (s : MemoryStream) (ys : List ℕ)
    → AllShort vs
    → IsAt s (encode vs ++ ys)
    → read_members s (map type_of vs) ≡ some (vs, after_bytes s (encode vs))
unfolding read_members
read_members-IsAt [] s ys short h =
    unfold after_bytes in
    ap (λ k. some ([], record s { offset = k })) (omega (arith, h.place, h.inside))
read_members-IsAt (v ∷ vs) s ys short h =
    let h' = subst (IsAt s) (append_assoc (value_bytes v) (encode vs) ys) h in
    let behind : IsAt (after_bytes s (value_bytes v)) (encode vs ++ ys) =
      unfold after_bytes in IsAt-move s (value_bytes v) (encode vs ++ ys) h' in
    rw
      (
        read_value-IsAt s v (encode vs ++ ys) short.0 h',
        read_members-IsAt vs (after_bytes s (value_bytes v)) ys short.1 behind,
      )
      (ap (λ k. some (v ∷ vs, k)) (after_bytes-append s (value_bytes v) (encode vs)))
