-- ===== src/Encoding/Delta/Lengths.antt =====
-- encoding/delta/length_byte_array.go: the lengths of the values as DELTA_BINARY_PACKED, and their bytes
-- behind them.
pub mod RoundTrip
use parquet_go.Prelude.{
  ℕ, ◌+◌, ◌%◌, ◌^◌, List, [], ◌∷◌, ◌++◌, if◌then◌else◌, ltb, leb, length, take,
}
use parquet_go.Encoding.Result.{Result, ok, err, panic, stuck, invalid_length, ◌>>=◌}
use parquet_go.Encoding.Bitpack.{Bitpack}
use parquet_go.Encoding.Delta.Integers.{sub}
use parquet_go.Encoding.Delta.Encode.{encode_int32}
use parquet_go.Encoding.Delta.Decode.{decode_int32}

-- `encodeByteArrayLengths`, for offsets that are not empty.
unfoldable pub encode_byte_array_lengths : List ℕ → List ℕ
encode_byte_array_lengths [] = []
encode_byte_array_lengths (offset ∷ []) = []
encode_byte_array_lengths (offset ∷ next ∷ offsets) =
    sub 32 next offset ∷ encode_byte_array_lengths (next ∷ offsets)

-- `EncodeByteArray`, which copies `src` as it is.
unfoldable pub encode_byte_array : List ℕ → List ℕ → List ℕ
unfolding encode_byte_array_lengths
encode_byte_array src [] = []
encode_byte_array src (base ∷ offsets) =
    encode_int32 (encode_byte_array_lengths (base ∷ offsets)) ++ src

-- `decodeByteArrayLengths` from `last_offset` on: the offsets, and the last of them. A negative length is
-- an error.
unfoldable pub decode_byte_array_lengths : List ℕ → ℕ → Result (List ℕ × ℕ)
decode_byte_array_lengths [] last_offset = ok (last_offset ∷ [], last_offset)
decode_byte_array_lengths (n ∷ lengths) last_offset =
    let more = decode_byte_array_lengths lengths ((last_offset + n) % 2 ^ 32) in
    if leb (2 ^ 31) n
    then err invalid_length
    else (more >>= λ (offsets, end). ok (last_offset ∷ offsets, end))

-- `DecodeByteArray`: the bytes of the values, and their offsets.
unfoldable pub decode_byte_array : Bitpack → List ℕ → Result (List ℕ × List ℕ)
unfolding decode_byte_array_lengths
decode_byte_array b src = do
  (lengths, rest) ← decode_int32 b src
  (offsets, last_offset) ← decode_byte_array_lengths lengths 0
  if ltb (length rest) last_offset then err invalid_length else ok (take last_offset rest, offsets)
