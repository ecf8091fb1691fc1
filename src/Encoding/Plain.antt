-- ===== src/Encoding/Plain.antt =====
-- encoding/plain/plain.go: byte arrays in the PLAIN encoding, each behind its length in four bytes.
pub mod RoundTrip
mod Examples
use parquet_go.Prelude.{
  ℕ, zero, suc, ◌+◌, ◌-◌, ◌*◌, ◌%◌, ◌^◌, ◌||◌, List, [], ◌∷◌, ◌++◌, length, take, drop,
  if◌then◌else◌, ltb, le_bytes, of_le_bytes,
}
use parquet_go.Encoding.Result.{Result, ok, err, panic, stuck, unexpected_eof, too_many, ◌>>=◌}

abbrev pub byte_array_length_size : ℕ
byte_array_length_size = 4

abbrev pub max_byte_array_length : ℕ
max_byte_array_length = 2 ^ 31 - 1

-- `AppendByteArray`, with `PutByteArrayLength`: what it appends.
unfoldable pub byte_array : List ℕ → List ℕ
byte_array v = le_bytes byte_array_length_size (length v % 2 ^ 32) ++ v

-- The loop of `EncodeByteArray` over `offsets[1:]`. A slice expression out of range panics. `src` are the bytes up
-- to its capacity, which alone bounds the slices; the code does not ask for its length.
unfoldable pub encode_loop : List ℕ → ℕ → List ℕ → Result (List ℕ)
unfolding byte_array
encode_loop src base [] = ok []
encode_loop src base (end ∷ offsets) = do
  let more = encode_loop src end offsets
  v ← if ltb end base || ltb (length src) end then panic else ok (take (end - base) (drop base src))
  rest ← more
  ok (byte_array v ++ rest)

unfoldable pub encode_byte_array : List ℕ → List ℕ → Result (List ℕ)
unfolding encode_loop
encode_byte_array src [] = ok []
encode_byte_array src (base ∷ offsets) = encode_loop src base offsets

-- The loop of `DecodeByteArray` over an input of length `total`, with `rest` behind index `i` and `at`
-- bytes in `dst`: what it appends to `dst` and to `offsets`. The code tests the length of a value against that of the
-- whole input only; the slice `src[i : i+n]` panics only past the capacity of `src`, behind whose length lie the
-- bytes `spare`.
unfoldable pub decode_loop : ℕ → List ℕ → ℕ → List ℕ → ℕ → Result (List ℕ × List ℕ)
decode_loop total spare fuel [] at = ok ([], at % 2 ^ 32 ∷ [])
decode_loop total spare zero (c ∷ cs) at = stuck
decode_loop total spare (suc fuel) (c ∷ cs) at =
    let n = of_le_bytes (take byte_array_length_size (c ∷ cs)) in
    let body = drop byte_array_length_size (c ∷ cs) in
    let more = decode_loop total spare fuel (drop n body) (at + n) >>= λ (bytes, offsets).
    ok (take n (body ++ spare) ++ bytes, at % 2 ^ 32 ∷ offsets) in
    if ltb (length (c ∷ cs)) byte_array_length_size
    then err unexpected_eof
    else if ltb (total - byte_array_length_size) n
    then err unexpected_eof
    else if ltb (length body + length spare) n
    then panic
    else more

-- `DecodeByteArray` of an input behind which the bytes `spare` of its capacity lie; each round takes four bytes at
-- least.
unfoldable pub decode_byte_array : List ℕ → List ℕ → Result (List ℕ × List ℕ)
unfolding decode_loop
decode_byte_array spare src = decode_loop (length src) spare (length src) src 0

-- `NextByteArray`: the value, and the input behind it.
unfoldable pub next_byte_array : List ℕ → Result (List ℕ × List ℕ)
next_byte_array b =
    let n = of_le_bytes (take byte_array_length_size b) in
    let body = drop byte_array_length_size b in
    if ltb (length b) byte_array_length_size
    then err unexpected_eof
    else if ltb (length b - byte_array_length_size) n
    then err unexpected_eof
    else if ltb max_byte_array_length n
    then err too_many
    else ok (take n body, drop n body)

-- `RangeByteArray` with a function that collects the values.
unfoldable pub range_loop : ℕ → List ℕ → Result (List (List ℕ))
unfolding next_byte_array
range_loop fuel [] = ok []
range_loop zero (c ∷ cs) = stuck
range_loop (suc fuel) (c ∷ cs) =
    next_byte_array (c ∷ cs) >>= λ (v, rest). range_loop fuel rest >>= λ vs. ok (v ∷ vs)

unfoldable pub range_byte_array : List ℕ → Result (List (List ℕ))
unfolding range_loop
range_byte_array b = range_loop (length b) b
