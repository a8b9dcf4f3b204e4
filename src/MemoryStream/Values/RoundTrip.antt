-- ===== src/MemoryStream/Values/RoundTrip.antt =====
-- What `append_args` writes, `read_args` reads back.
use btool.Common.{
  ℕ, ◌+◌, ◌^◌, ◌≤◌, ◌≡◌, sym, ap, ◌∙◌, Bool, true, false, List, [], ◌++◌, map, some, arith,
  if◌then◌else◌, length, length-append, append-nil, append_assoc, drop, take-append-drop,
  length-take,
}
use btool.MemoryStream.{MemoryStream, block, reset_offset_to}
use btool.MemoryStream.Append.{IsWriting, contents}
use btool.MemoryStream.Values.{Value, cells_of, append_args, read_args, get_args_length}
use btool.MemoryStream.Values.Encode.{type_of, AllShort, encode, length-encode, append_args_encodes}
use btool.MemoryStream.Values.Decode.{IsAt, after_bytes, read_members-IsAt}

written-IsAt :
    (s s' : MemoryStream) (bytes : List ℕ)
    → IsWriting s
    → IsWriting s'
    → contents s' ≡ contents s ++ cells_of bytes
    → s.size + length bytes ≤ 2 ^ 63
    → IsAt (record s' { offset = s.size }) (bytes ++ [])
written-IsAt s s' bytes w w' e small = record {
  before = contents s;
  after = drop s'.size (block s'.buffer);
  bytes_at =
      sym (take-append-drop s'.size (block s'.buffer))
      ∙ ap (λ k. k ++ drop s'.size (block s'.buffer)) e
      ∙ append_assoc (contents s) (cells_of bytes) (drop s'.size (block s'.buffer))
      ∙ ap (λ k. contents s ++ (cells_of k ++ drop s'.size (block s'.buffer)))
          (sym (append-nil bytes));
  place = omega (arith, length-take s.size (block s.buffer), w.valid.full, w.valid.within);
  inside = omega (
    arith,
    length-take s.size (block s.buffer),
    w.valid.full,
    w.valid.within,
    length-append bytes [],
  );
}

ends_at :
    (s' : MemoryStream) (start : ℕ) (bytes : List ℕ)
    → s'.size ≡ start + length bytes
    → s'.size ≤ 2 ^ 63
    → s'.offset ≡ s'.size
    → after_bytes (record s' { offset = start }) bytes ≡ s'
unfolding after_bytes
ends_at s' start bytes e small at_end = ap (λ k. record s' { offset = k }) (omega arith)

read_back :
    (s' : MemoryStream) (start : ℕ) (vs : List Value) (offset_flag : Bool)
    → AllShort vs
    → IsAt (record s' { offset = start }) (encode vs ++ [])
    → after_bytes (record s' { offset = start }) (encode vs) ≡ s'
    → read_args (reset_offset_to s' start) (map type_of vs) offset_flag
      ≡ some (vs, (if offset_flag then s' else reset_offset_to s' start))
unfolding read_args reset_offset_to
read_back s' start vs true short at ends =
    rw (read_members-IsAt vs (record s' { offset = start }) [] short at)
      (ap (λ k. some (vs, k)) ends)
read_back s' start vs false short at ends =
    rw (read_members-IsAt vs (record s' { offset = start }) [] short at)
      (ap (λ k. some (vs, record k { offset = start })) ends)

-- Values of plain types and strings, streams as arguments left out, that `append_args` puts behind the contents of a
-- stream are read back by `read_args` from where they begin, as long as each string is shorter than its word for the
-- length allows and the whole is up to 2 ^ 63 bytes. The position ends where it was after writing, or, if it is not
-- to move, where the reading began.
pub round_trip :
    (s : MemoryStream) (vs : List Value) (offset_flag : Bool)
    → IsWriting s
    → AllShort vs
    → s.size + get_args_length vs ≤ 2 ^ 63
    → (s' : MemoryStream) × (append_args s vs ≡ some s')
      × (read_args (reset_offset_to s' s.size) (map type_of vs) offset_flag
          ≡ some (vs, (if offset_flag then s' else reset_offset_to s' s.size)))
round_trip s vs offset_flag w short small =
    let (s', runs, bytes, size, w') = append_args_encodes s vs w short small in
    let at = written-IsAt s s' (encode vs) w w' bytes (omega (arith, length-encode vs)) in
    let ends =
      ends_at s' s.size (encode vs) (omega (arith, size, length-encode vs)) (omega (arith, size))
        w'.at_end in
    (s', runs, read_back s' s.size vs offset_flag short at ends)
