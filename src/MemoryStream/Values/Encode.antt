-- ===== src/MemoryStream/Values/Encode.antt =====
-- What `append_args` writes: the bytes of each value, one after another.
use mathlib.Core.List.{map-append}
use btool.Common.{
  ℕ, suc, ◌+◌, ◌%◌, ◌^◌, ◌≤◌, ◌<◌, ◌≡◌, refl, sym, ap, ◌∙◌, List, [], ◌∷◌, ◌++◌, Option, some,
  arith, ◌>>=◌, length, length-append, append-nil, append_assoc,
}
use btool.MemoryStream.{MemoryStream, append}
use btool.MemoryStream.Append.{IsWriting, contents, append_extends}
use btool.MemoryStream.Values.{
  Value, scalar, text, ValueType, scalar_type, text_type, cells_of, written, word_bytes, word_of,
  append_value, append_args, get_args_length,
}

abbrev pub type_of : Value → ValueType
type_of (scalar bytes) = scalar_type (length bytes)
type_of (text bytes) = text_type

-- A string's length is one that a `uint32_t` holds.
abbrev pub IsShort : Value → Type 0
IsShort (scalar bytes) = Unit {0}
IsShort (text bytes) = length bytes < 2 ^ 32

abbrev pub AllShort : List Value → Type 0
AllShort [] = Unit {0}
AllShort (v ∷ vs) = IsShort v × AllShort vs

abbrev pub value_bytes : Value → List ℕ
value_bytes (scalar bytes) = bytes
value_bytes (text bytes) = word_bytes (length bytes) ++ bytes

-- The bytes of a sequence of values.
abbrev pub encode : List Value → List ℕ
encode [] = []
encode (v ∷ vs) = value_bytes v ++ encode vs

pub written-cells_of : (bytes : List ℕ) → written (cells_of bytes) ≡ some bytes
unfolding written cells_of
written-cells_of [] = refl
written-cells_of (b ∷ bs) = rw (written-cells_of bs)

pub length-cells_of : (bytes : List ℕ) → length (cells_of bytes) ≡ length bytes
unfolding cells_of
length-cells_of [] = refl
length-cells_of (b ∷ bs) = ap suc (length-cells_of bs)

pub cells_of-append : (xs ys : List ℕ) → cells_of (xs ++ ys) ≡ cells_of xs ++ cells_of ys
unfolding cells_of
cells_of-append xs ys = map-append some xs ys

pub word_of-word_bytes : (n : ℕ) → n < 2 ^ 32 → word_of (word_bytes n) ≡ n
unfolding word_of word_bytes
word_of-word_bytes n h = omega arith

pub length-word_bytes : (n : ℕ) → length (word_bytes n) ≡ 4
unfolding word_bytes
length-word_bytes n = refl

-- The length of the encoding is what `get_args_length` says.
pub length-encode : (vs : List Value) → length (encode vs) ≡ get_args_length vs
unfolding get_args_length
length-encode [] = refl
length-encode (scalar bytes ∷ vs) = omega (arith, length-append bytes (encode vs), length-encode vs)
length-encode (text bytes ∷ vs) = omega (
  arith,
  length-append (word_bytes (length bytes) ++ bytes) (encode vs),
  length-append (word_bytes (length bytes)) bytes,
  length-word_bytes (length bytes),
  length-encode vs,
)

Wrote : MemoryStream → Option MemoryStream → List ℕ → Type 0
Wrote s r bytes =
    (s' : MemoryStream) × (r ≡ some s')
    × (contents s' ≡ contents s ++ cells_of bytes)
    × (s'.size ≡ s.size + length bytes)
    × IsWriting s'

append-Wrote :
    (s : MemoryStream) (bytes : List ℕ)
    → IsWriting s
    → s.size + length bytes ≤ 2 ^ 63
    → Wrote s (append s (cells_of bytes)) bytes
unfolding Wrote
append-Wrote s bytes w small =
    let (s', runs, bytes_in, size, w') =
      append_extends s (cells_of bytes) w (omega (arith, length-cells_of bytes)) in
    (s', runs, bytes_in, omega (arith, length-cells_of bytes, size), w')

-- One write after another.
then-Wrote :
    (s : MemoryStream) (r : Option MemoryStream) (f : MemoryStream → Option MemoryStream)
    (xs ys : List ℕ)
    → Wrote s r xs
    → ((s' : MemoryStream) → IsWriting s' → s'.size ≡ s.size + length xs → Wrote s' (f s') ys)
    → Wrote s (r >>= f) (xs ++ ys)
unfolding Wrote
then-Wrote s r f xs ys (t, runs, bytes, size, w) next =
    let (u, runs', bytes', size', w') = next t w size in
    (
      u,
      rw runs runs',
      bytes'
          ∙ ap (λ k. k ++ cells_of ys) bytes
          ∙ append_assoc (contents s) (cells_of xs) (cells_of ys)
          ∙ ap (λ k. contents s ++ k) (sym (cells_of-append xs ys)),
      omega (arith, length-append xs ys),
      w',
    )

word_fits : (n : ℕ) → n < 2 ^ 32 → n % 2 ^ 32 ≡ n
word_fits n h = omega arith

append_value-Wrote :
    (s : MemoryStream) (v : Value)
    → IsWriting s
    → IsShort v
    → s.size + length (value_bytes v) ≤ 2 ^ 63
    → Wrote s (append_value s v) (value_bytes v)
unfolding append_value
append_value-Wrote s (scalar bytes) w short small = append-Wrote s bytes w small
append_value-Wrote s (text bytes) w short small = rw (word_fits (length bytes) short) (
    then-Wrote s _ (λ s'. append s' (cells_of bytes)) (word_bytes (length bytes)) bytes
      (append-Wrote s (word_bytes (length bytes)) w (omega (arith, total)))
      (λ s' w' size. append-Wrote s' bytes w' (omega (arith, total))))
  where
    total :
        length (word_bytes (length bytes) ++ bytes)
        ≡ length (word_bytes (length bytes)) + length bytes
    total = length-append (word_bytes (length bytes)) bytes

append_args-Wrote :
    (vs : List Value) (s : MemoryStream)
    → IsWriting s
    → AllShort vs
    → s.size + length (encode vs) ≤ 2 ^ 63
    → Wrote s (append_args s vs) (encode vs)
unfolding append_args
append_args-Wrote [] s w short small =
    unfold Wrote cells_of in (s, refl, sym (append-nil (contents s)), omega arith, w)
append_args-Wrote (v ∷ vs) s w short small =
    then-Wrote s (append_value s v) (λ s'. append_args s' vs) (value_bytes v) (encode vs)
      (append_value-Wrote s v w short.0 (omega (arith, length-append (value_bytes v) (encode vs))))
      (λ s' w' size.
        append_args-Wrote vs s' w' short.1
          (omega (arith, length-append (value_bytes v) (encode vs))))

-- `append_args` to a stream that is being written puts the encoding of the values behind its contents,
-- as long as `get_args_length` says.
pub append_args_encodes :
    (s : MemoryStream) (vs : List Value)
    → IsWriting s
    → AllShort vs
    → s.size + get_args_length vs ≤ 2 ^ 63
    → (s' : MemoryStream) × (append_args s vs ≡ some s')
      × (contents s' ≡ contents s ++ cells_of (encode vs))
      × (s'.size ≡ s.size + get_args_length vs)
      × IsWriting s'
unfolding Wrote
append_args_encodes s vs w short small =
    let (s', runs, bytes, size, w') =
      append_args-Wrote vs s w short (omega (arith, length-encode vs)) in
    (s', runs, bytes, omega (arith, length-encode vs, size), w')
