-- ===== src/MemoryStream/Values/Streams.antt =====
-- `read` of a `MemoryStream` out of a `MemoryStream`, beside `read` of a string.
use btool.Common.{
  inl, ℕ, ◌+◌, ◌^◌, ◌<◌, ◌≡◌, refl, sym, true, List, ◌++◌, some, arith, length, length-append,
  append_assoc, subst,
}
use btool.MemoryStream.{MemoryStream, load, empty}
use btool.MemoryStream.Append.{contents}
use btool.MemoryStream.Values.{text, text_type, cells_of, word_bytes, read_value, read_stream}
use btool.MemoryStream.Append.{load_gives}
use btool.MemoryStream.Values.Encode.{length-word_bytes}
use btool.MemoryStream.Values.Decode.{
  IsAt, IsAt-move, after_bytes, read_length-IsAt, read_at-IsAt, read_value-IsAt,
}

read_stream-IsAt :
    (s d : MemoryStream) (bytes ys : List ℕ)
    → length bytes < 2 ^ 32
    → IsAt s (word_bytes (length bytes) ++ (bytes ++ ys))
    → load empty (cells_of bytes) ≡ some d
    → read_stream s true ≡ some (d, after_bytes s (word_bytes (length bytes)))
unfolding read_stream
read_stream-IsAt s d bytes ys short h loads =
    let behind : IsAt (after_bytes s (word_bytes (length bytes))) (bytes ++ ys) =
      unfold after_bytes in IsAt-move s (word_bytes (length bytes)) (bytes ++ ys) h in
    rw (
      read_length-IsAt s (length bytes) (bytes ++ ys) short h,
      read_at-IsAt (after_bytes s (word_bytes (length bytes))) bytes ys behind,
      loads,
    )

-- Where a body stands behind its length, reading it as a stream and as a string gives the same bytes;
-- but the string moves the position past the body, and the stream, told to move it too, leaves the
-- position in front of the body.
pub read_stream_stays :
    (s : MemoryStream) (bytes ys : List ℕ)
    → length bytes < 2 ^ 32
    → IsAt s (word_bytes (length bytes) ++ (bytes ++ ys))
    → (d : MemoryStream) × (s' : MemoryStream) × (s'' : MemoryStream) × (read_stream s true
        ≡ some (d, s'))
      × (contents d ≡ cells_of bytes)
      × (s'.offset ≡ s.offset + 4)
      × (read_value s text_type true ≡ some (text bytes, s''))
      × (s''.offset ≡ s.offset + 4 + length bytes)
unfolding after_bytes empty
read_stream_stays s bytes ys short h =
    let (d, loads, done) = load_gives empty (cells_of bytes) refl (inl refl) in
    let joined = subst (IsAt s) (sym (append_assoc (word_bytes (length bytes)) bytes ys)) h in
    (
      d,
      after_bytes s (word_bytes (length bytes)),
      after_bytes s (word_bytes (length bytes) ++ bytes),
      read_stream-IsAt s d bytes ys short h loads,
      done.bytes,
      omega (arith, h.place, h.inside, length-word_bytes (length bytes), total),
      read_value-IsAt s (text bytes) ys short joined,
      omega (arith, h.place, h.inside, length-word_bytes (length bytes), total, joined_total),
    )
  where
    total :
        length (word_bytes (length bytes) ++ (bytes ++ ys))
        ≡ length (word_bytes (length bytes)) + length (bytes ++ ys)
    total = length-append (word_bytes (length bytes)) (bytes ++ ys)

    joined_total :
        (length (word_bytes (length bytes) ++ bytes)
          ≡ length (word_bytes (length bytes)) + length bytes)
        × (length (bytes ++ ys) ≡ length bytes + length ys)
    joined_total = (length-append (word_bytes (length bytes)) bytes, length-append bytes ys)
