-- ===== src/Encoding/Delta/Arrays.antt =====
-- encoding/delta/byte_array.go: the lengths that the values share with the ones before them, the lengths of
-- what is left of them, both as DELTA_BINARY_PACKED, and what is left of them.
pub mod Prefix
pub mod Stored
pub mod RoundTrip
pub mod Fixed
use Prim.Native.Nat.{bit_xor}
use parquet_go.Prelude.{
  ℕ, zero, suc, ◌+◌, ◌-◌, ◌*◌, ◌/◌, ◌%◌, ◌^◌, ◌||◌, List, [], ◌∷◌, ◌++◌, if◌then◌else◌, ltb, leb,
  ◌==◌, length, take, drop, replicate, map, min, not, of_le_bytes,
}
use parquet_go.Encoding.Result.{
  Result, ok, err, panic, stuck, invalid_length, invalid_argument, ◌>>=◌,
}
use parquet_go.Encoding.Bitpack.{Bitpack}
use parquet_go.Encoding.Delta.Integers.{sub}
use parquet_go.Encoding.Delta.Encode.{encode_int32}
use parquet_go.Encoding.Delta.Decode.{decode_int32}

-- `linearSearchPrefixLength`
unfoldable pub linear_search_prefix_length : List ℕ → List ℕ → ℕ
linear_search_prefix_length [] value = 0
linear_search_prefix_length (b ∷ base) [] = 0
linear_search_prefix_length (b ∷ base) (d ∷ value) =
    let n = linear_search_prefix_length base value in if b == d then suc n else 0

-- `bits.TrailingZeros64`, with one round for each of the 64 bits.
unfoldable pub trailing_zeros : ℕ → ℕ → ℕ
trailing_zeros zero x = 0
trailing_zeros (suc n) x = let more = trailing_zeros n (x / 2) in if x % 2 == 1 then 0 else suc more

-- The loop over the last bytes, from index `i` on.
unfoldable pub byte_loop : ℕ → List ℕ → List ℕ → ℕ
byte_loop i [] value = i
byte_loop i (b ∷ base) [] = i
byte_loop i (b ∷ base) (d ∷ value) =
    let more = byte_loop (i + 1) base value in if b == d then more else i

-- The loop over the words, little-endian, of which `nw` are left from word `i` on.
unfoldable pub word_loop : ℕ → ℕ → List ℕ → List ℕ → ℕ
unfolding byte_loop trailing_zeros
word_loop zero i base value = byte_loop (i * 8) base value
word_loop (suc nw) i base value =
    let x = bit_xor (of_le_bytes (take 8 base)) (of_le_bytes (take 8 value)) in
    let more = word_loop nw (i + 1) (drop 8 base) (drop 8 value) in
    if x == 0 then more else i * 8 + trailing_zeros 64 x / 8

-- `wordSearchPrefixLength`, which `searchPrefixLength` is.
unfoldable pub word_search_prefix_length : List ℕ → List ℕ → ℕ
unfolding word_loop
word_search_prefix_length base value = word_loop (min (length base) (length value) / 8) 0 base value

-- The first loop of `EncodeByteArray` over `offsets[1:]`: the lengths of the prefixes and of what is left, and the
-- sum of the latter. A slice expression out of range panics. `src` are
-- the bytes up to its capacity, which alone bounds the slices.
unfoldable pub prefix_loop : List ℕ → List ℕ → ℕ → List ℕ → Result (List ℕ × List ℕ × ℕ)
unfolding word_search_prefix_length
prefix_loop src last base [] = ok ([], [], 0)
prefix_loop src last base (end ∷ offsets) = do
  let v = take (end - base) (drop base src)
  let n = sub 32 end base
  let p = word_search_prefix_length last v
  let more = prefix_loop src v end offsets
  _ ← if ltb end base || ltb (length src) end then panic else ok (tt {0})
  (prefix, rest, total) ← more
  ok (p % 2 ^ 32 ∷ prefix, (n - p) % 2 ^ 32 ∷ rest, n - p + total)

-- An index `i` that an int32 is added to: below 0 the index panics where it is used.
unfoldable pub moved : ℕ → ℕ → Result ℕ
moved i p =
    if ltb p (2 ^ 31)
    then ok (i + p)
    else if ltb (i + p) (2 ^ 32)
    then panic
    else ok (i + p - 2 ^ 32)

-- The second loop: the bytes behind the prefixes of the values from index `i` on.
unfoldable pub suffix_loop : List ℕ → ℕ → List ℕ → List ℕ → Result (List ℕ)
unfolding moved
suffix_loop src i [] lengths = ok []
suffix_loop src i (p ∷ prefix) [] = panic
suffix_loop src i (p ∷ prefix) (l ∷ lengths) = moved i p >>= λ from.
    moved i ((p + l) % 2 ^ 32) >>= λ to.
    (if ltb to from || ltb (length src) to then panic else ok (take (to - from) (drop from src)))
    >>= λ part. suffix_loop src to prefix lengths >>= λ more. ok (part ++ more)

-- `EncodeByteArray`. The second loop copies into as many bytes as the first one has counted, which are 0.
unfoldable pub encode_byte_array : List ℕ → List ℕ → Result (List ℕ)
unfolding prefix_loop suffix_loop
encode_byte_array src [] = ok (encode_int32 [] ++ encode_int32 [])
encode_byte_array src (base ∷ offsets) = do
  (prefix, lengths, total) ← prefix_loop src [] base offsets
  suffix ← suffix_loop src base prefix lengths
  ok (encode_int32 prefix ++ (encode_int32 lengths ++ take total (suffix ++ replicate total 0)))

abbrev pub max_fixed_len_byte_array_size : ℕ
max_fixed_len_byte_array_size = 32767

-- The loops of `EncodeFixedLenByteArray` over the values of `src`, `count` of them.
unfoldable pub fixed_prefix_loop : ℕ → ℕ → List ℕ → List ℕ → List ℕ
unfolding word_search_prefix_length
fixed_prefix_loop zero size last src = []
fixed_prefix_loop (suc count) size last src =
    let v = take size src in
    word_search_prefix_length last v ∷ fixed_prefix_loop count size v (drop size src)

unfoldable pub fixed_suffix_loop : ℕ → List ℕ → List ℕ → List ℕ
fixed_suffix_loop size src [] = []
fixed_suffix_loop size src (p ∷ prefix) =
    take (size - p) (drop p src) ++ fixed_suffix_loop size (drop size src) prefix

-- `EncodeFixedLenByteArray`, for a size that is not negative. The remainder by the size 0 panics.
unfoldable pub encode_fixed_len_byte_array : List ℕ → ℕ → Result (List ℕ)
unfolding fixed_prefix_loop fixed_suffix_loop
encode_fixed_len_byte_array src size =
    let prefix = fixed_prefix_loop (length src / size) size [] src in
    let lengths = map (λ p. size - p) prefix in
    if ltb max_fixed_len_byte_array_size size
    then err invalid_argument
    else if size == 0
    then panic
    else if not (length src % size == 0)
    then err invalid_argument
    else ok (encode_int32 prefix ++ (encode_int32 lengths ++ fixed_suffix_loop size src prefix))

-- The tests of a round of `decodeByteArray` and `decodeFixedLenByteArray`, in their order: the value, if they hold.
unfoldable pub next_value : List ℕ → List ℕ → ℕ → ℕ → Result (List ℕ)
next_value src last p n =
    if leb (2 ^ 31) n
    then err invalid_length
    else if ltb (length src) n
    then err invalid_length
    else if leb (2 ^ 31) p
    then err invalid_length
    else if ltb (length last) p
    then err invalid_length
    else ok (take p last ++ take n src)

-- `decodeByteArray` with `at` bytes in `dst`: what it appends to `dst` and to `offsets`. Its arguments `prefix` and
-- `suffix` have the same length.
unfoldable pub decode_loop : List ℕ → List ℕ → List ℕ → List ℕ → ℕ → Result (List ℕ × List ℕ)
unfolding next_value
decode_loop src [] suffix last at = ok ([], at % 2 ^ 32 ∷ [])
decode_loop src (p ∷ prefix) [] last at = panic
decode_loop src (p ∷ prefix) (n ∷ suffix) last at = next_value src last p n >>= λ v.
    decode_loop (drop n src) prefix suffix v (at + length v) >>= λ (bytes, offsets).
    ok (v ++ bytes, at % 2 ^ 32 ∷ offsets)

-- `decodeFixedLenByteArray`, which does not read its size.
unfoldable pub decode_fixed_loop : List ℕ → List ℕ → List ℕ → List ℕ → Result (List ℕ)
unfolding next_value
decode_fixed_loop src [] suffix last = ok []
decode_fixed_loop src (p ∷ prefix) [] last = panic
decode_fixed_loop src (p ∷ prefix) (n ∷ suffix) last = next_value src last p n >>= λ v.
    decode_fixed_loop (drop n src) prefix suffix v >>= λ bytes. ok (v ++ bytes)

-- `DecodeByteArray`: the bytes of the values, and their offsets.
unfoldable pub decode_byte_array : Bitpack → List ℕ → Result (List ℕ × List ℕ)
unfolding decode_loop
decode_byte_array b src = do
  (prefix, src1) ← decode_int32 b src
  (suffix, src2) ← decode_int32 b src1
  if length prefix == length suffix then decode_loop src2 prefix suffix [] 0 else err invalid_length

-- `DecodeFixedLenByteArray`, for a size that is not negative.
unfoldable pub decode_fixed_len_byte_array : Bitpack → List ℕ → ℕ → Result (List ℕ)
unfolding decode_fixed_loop
decode_fixed_len_byte_array b src size =
    if ltb max_fixed_len_byte_array_size size
    then err invalid_argument
    else (decode_int32 b src >>= λ (prefix, src1). decode_int32 b src1 >>= λ (suffix, src2).
        if length prefix == length suffix
        then decode_fixed_loop src2 prefix suffix []
        else err invalid_length)
