-- ===== src/Encoding/ByteStreamSplit.antt =====
-- encoding/bytestreamsplit: the first bytes of all values, then the second bytes, and so on. A float or an integer
-- is its bit pattern.
pub mod Streams
pub mod RoundTrip
mod Examples
use Prim.Native.Nat.{bit_or}
use parquet_go.Prelude.{
  ℕ, zero, suc, ◌+◌, ◌*◌, ◌/◌, ◌%◌, ◌^◌, ◌||◌, List, [], ◌∷◌, map, flat, get_or, length, take, drop,
  if◌then◌else◌, ltb, ◌==◌,
}
use parquet_go.Encoding.Result.{Result, ok, err, panic, stuck, invalid_argument}

-- What a loop `for i := range n` computes for each `i`, from `i` on.
unfoldable pub tabulate {ℓ} : {A : Type ℓ} → ℕ → ℕ → (ℕ → A) → List A
tabulate zero i f = []
tabulate (suc n) i f = f i ∷ tabulate n (i + 1) f

-- `encodeFloat` and `encodeDouble`, for values of `k` bytes: stream `s` holds byte `s` of every value.
unfoldable pub encode_words : ℕ → List ℕ → List ℕ
unfolding tabulate
encode_words k src = flat (tabulate k 0 (λ s. map (λ v. v / 2 ^ (8 * s) % 256) src))

-- Stream `s` of `n` bytes.
abbrev pub stream : List ℕ → ℕ → ℕ → List ℕ
stream src n s = take n (drop (s * n) src)

-- The bytes of a value put together by shifts, from byte `s` on.
unfoldable pub or_bytes : ℕ → ℕ → List ℕ → ℕ
or_bytes acc s [] = acc
or_bytes acc s (b ∷ bs) = or_bytes (bit_or acc (b * 2 ^ (8 * s))) (s + 1) bs

-- `decodeFloat` and `decodeDouble`
unfoldable pub decode_words : ℕ → List ℕ → List ℕ
unfolding tabulate or_bytes
decode_words k src =
    let n = length src / k in
    tabulate n 0 (λ i. or_bytes 0 0 (tabulate k 0 (λ s. get_or (stream src n s) i 0)))

-- `EncodeFloat`, and `EncodeInt32`, which does the same.
unfoldable pub encode_float : List ℕ → List ℕ
unfolding encode_words
encode_float src = encode_words 4 src

unfoldable pub encode_double : List ℕ → List ℕ
unfolding encode_words
encode_double src = encode_words 8 src

unfoldable pub decode_float : List ℕ → Result (List ℕ)
unfolding decode_words
decode_float src = if length src % 4 == 0 then ok (decode_words 4 src) else err invalid_argument

unfoldable pub decode_double : List ℕ → Result (List ℕ)
unfolding decode_words
decode_double src = if length src % 8 == 0 then ok (decode_words 8 src) else err invalid_argument

abbrev pub max_fixed_len_byte_array_size : ℕ
max_fixed_len_byte_array_size = 32767

-- `encodeFixedLenByteArray`
unfoldable pub encode_fixed : List ℕ → ℕ → List ℕ
unfolding tabulate
encode_fixed src size =
    flat (tabulate size 0 (λ s. tabulate (length src / size) 0 (λ i. get_or src (i * size + s) 0)))

-- `decodeFixedLenByteArray`, whose loops write each place `i * size + s` of `dst` once.
unfoldable pub decode_fixed : List ℕ → ℕ → List ℕ
unfolding tabulate
decode_fixed src size =
    let n = length src / size in
    flat (tabulate n 0 (λ i. tabulate size 0 (λ s. get_or (stream src n s) i 0)))

-- `EncodeFixedLenByteArray` and `DecodeFixedLenByteArray`, for a size that is not negative.
unfoldable pub encode_fixed_len_byte_array : List ℕ → ℕ → Result (List ℕ)
unfolding encode_fixed
encode_fixed_len_byte_array src size =
    if size == 0 || ltb max_fixed_len_byte_array_size size
    then err invalid_argument
    else if length src % size == 0
    then ok (encode_fixed src size)
    else err invalid_argument

unfoldable pub decode_fixed_len_byte_array : List ℕ → ℕ → Result (List ℕ)
unfolding decode_fixed
decode_fixed_len_byte_array src size =
    if size == 0 || ltb max_fixed_len_byte_array_size size
    then err invalid_argument
    else if length src % size == 0
    then ok (decode_fixed src size)
    else err invalid_argument
