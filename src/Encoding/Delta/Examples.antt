-- ===== src/Encoding/Delta/Examples.antt =====
-- Runs of the delta encoding.
use parquet_go.Prelude.{
  ℕ, ◌+◌, ◌/◌, ◌≡◌, refl, List, [], ◌∷◌, ◌++◌, arith, flat, take, replicate, length-replicate,
}
use parquet_go.Encoding.Result.{ok, ◌>>=◌}
use parquet_go.Encoding.Bitpack.{Bitpack, IsUnpack}
use parquet_go.Encoding.Varint.{put_uvarint, uvarint}
use parquet_go.Encoding.Bitpack.Sample.{sample, sample-UnpacksFields}
use parquet_go.Encoding.Plain.RoundTrip.{offsets_of}
use parquet_go.Encoding.Delta.Decode.Encoded.{decode_int32-encode_int32}
use parquet_go.Encoding.Delta.Lengths
use parquet_go.Encoding.Delta.Lengths.RoundTrip.{decode_byte_array-encode_byte_array_lengths}
use parquet_go.Encoding.Delta.Arrays
use parquet_go.Encoding.Delta.Arrays.{
  word_search_prefix_length, linear_search_prefix_length, encode_fixed_len_byte_array,
  decode_fixed_len_byte_array,
}
use parquet_go.Encoding.Delta.Arrays.Prefix.{
  word_search_prefix_length-eq-linear_search_prefix_length,
}
use parquet_go.Encoding.Delta.Arrays.RoundTrip.{decode_byte_array-encode_byte_array_prefixes}
use parquet_go.Encoding.Delta.Arrays.Fixed.{decode_fixed_len_byte_array-encode_fixed_len_byte_array}
use parquet_go.Encoding.Delta.Integers.{zigzag, unzigzag, bit_length}
use parquet_go.Encoding.Delta.Encode.{header, encode_int32, encode_int64}
use parquet_go.Encoding.Delta.Decode.{Header, decode_int32, decode_int64, check_header}
use parquet_go.Encoding.Delta.Decode.RoundTrip.{decode_header-header}
use parquet_go.Encoding.Delta.Decode.Count.{Holds, decode-Counts}

-- An unpacking that yields nothing but 0.
abbrev zeros : Bitpack
zeros = record {
  byte_count = λ bits. (bits + 7) / 8;
  pack = λ w values. [];
  unpack = λ w n src. replicate n 0;
}

zeros-IsUnpack : IsUnpack zeros
zeros-IsUnpack = record { length-unpack = λ w n src. length-replicate n 0 }

-- From the greatest int32 to the least.
abbrev extremes : List ℕ
extremes = 2147483647 ∷ 2147483648 ∷ 5 ∷ []

decode_int32-encode_int32_example :
    (decode_int32 sample (encode_int32 extremes ++ 7 ∷ []) ≡ ok (extremes, 7 ∷ []))
    × (decode_int64 sample
          (encode_int64 (18446744073709551615 ∷ 9223372036854775808 ∷ []) ++ 7 ∷ [])
        ≡ ok (18446744073709551615 ∷ 9223372036854775808 ∷ [], 7 ∷ []))
decode_int32-encode_int32_example =
    decode_int32-encode_int32 sample sample-UnpacksFields extremes
      (18446744073709551615 ∷ 9223372036854775808 ∷ []) (7 ∷ [])
      (omega arith, (omega arith, (omega arith, tt))) (omega arith, (omega arith, tt)) (omega arith)
      (omega arith)

-- The byte arrays "ab", "abc" and "".
abbrev words : List (List ℕ)
words = (97 ∷ 98 ∷ []) ∷ (97 ∷ 98 ∷ 99 ∷ []) ∷ [] ∷ []

decode_byte_array-encode_byte_array_lengths_example :
    (Lengths.decode_byte_array sample (Lengths.encode_byte_array (flat words) (offsets_of 0 words))
      ≡ ok (flat words, offsets_of 0 words))
    × (Lengths.decode_byte_array sample
          (Lengths.encode_byte_array (1 ∷ 2 ∷ flat words) (offsets_of 2 words))
        ≡ ok (1 ∷ 2 ∷ 97 ∷ 98 ∷ 97 ∷ [], offsets_of 0 words))
decode_byte_array-encode_byte_array_lengths_example =
    decode_byte_array-encode_byte_array_lengths sample sample-UnpacksFields (1 ∷ 2 ∷ []) words
      (omega arith) (omega arith)

word_search_prefix_length-eq-linear_search_prefix_length_example :
    word_search_prefix_length
      (1 ∷ 2 ∷ 3 ∷ 4 ∷ 5 ∷ 6 ∷ 7 ∷ 8 ∷ [])
      (1 ∷ 2 ∷ 3 ∷ 4 ∷ 5 ∷ 9 ∷ 7 ∷ 8 ∷ [])
    ≡ linear_search_prefix_length
        (1 ∷ 2 ∷ 3 ∷ 4 ∷ 5 ∷ 6 ∷ 7 ∷ 8 ∷ [])
        (1 ∷ 2 ∷ 3 ∷ 4 ∷ 5 ∷ 9 ∷ 7 ∷ 8 ∷ [])
word_search_prefix_length-eq-linear_search_prefix_length_example =
    word_search_prefix_length-eq-linear_search_prefix_length (1 ∷ 2 ∷ 3 ∷ 4 ∷ 5 ∷ 6 ∷ 7 ∷ 8 ∷ [])
      (1 ∷ 2 ∷ 3 ∷ 4 ∷ 5 ∷ 9 ∷ 7 ∷ 8 ∷ [])
      (
        omega arith,
        (
          omega arith,
          (
            omega arith,
            (omega arith, (omega arith, (omega arith, (omega arith, (omega arith, tt))))),
          ),
        ),
      )
      (
        omega arith,
        (
          omega arith,
          (
            omega arith,
            (omega arith, (omega arith, (omega arith, (omega arith, (omega arith, tt))))),
          ),
        ),
      )

decode_byte_array-encode_byte_array_prefixes_example :
    (Arrays.encode_byte_array (9 ∷ flat words) (offsets_of 1 words)
      >>= Arrays.decode_byte_array sample)
    ≡ ok (flat words, offsets_of 0 words)
decode_byte_array-encode_byte_array_prefixes_example =
    decode_byte_array-encode_byte_array_prefixes sample sample-UnpacksFields (9 ∷ []) words
      (omega arith) (omega arith)
      (
        (omega arith, (omega arith, (omega arith, tt))),
        ((omega arith, (omega arith, (omega arith, (omega arith, tt)))), ((omega arith, tt), tt)),
      )

-- The pairs "ab" and "ac".
abbrev pairs : List (List ℕ)
pairs = (97 ∷ 98 ∷ []) ∷ (97 ∷ 99 ∷ []) ∷ []

decode_fixed_len_byte_array-encode_fixed_len_byte_array_example :
    (encode_fixed_len_byte_array (flat pairs) 2 >>= λ bytes.
    decode_fixed_len_byte_array sample bytes 2)
    ≡ ok (flat pairs)
decode_fixed_len_byte_array-encode_fixed_len_byte_array_example =
    decode_fixed_len_byte_array-encode_fixed_len_byte_array sample sample-UnpacksFields 2 pairs
      (omega arith) (omega arith) (omega arith)
      ((refl, (omega arith, (omega arith, tt))), ((refl, (omega arith, (omega arith, tt))), tt))

-- Two values after the first: a block whose only mini-block has width 0.
abbrev stepped : List ℕ
stepped = 2 ∷ (0 ∷ 0 ∷ 0 ∷ 0 ∷ [])

abbrev three : Header
three = record { block_size = 128; num_mini_blocks = 4; total_values = 3; first_value = 10 }

decode-Counts_example :
    Holds 3 (decode_int32 zeros (header 128 4 3 10 ++ stepped))
    × Holds 3 (decode_int64 zeros (header 128 4 3 10 ++ stepped))
decode-Counts_example =
    decode-Counts zeros zeros-IsUnpack (header 128 4 3 10 ++ stepped) three stepped (
      decode_header-header 128 4 3 10 stepped (omega arith) (omega arith) (omega arith)
        (omega arith) (unfold check_header in refl))

decoded_three : decode_int32 zeros (128 ∷ 1 ∷ 4 ∷ 3 ∷ 20 ∷ stepped) ≡ ok (10 ∷ 11 ∷ 12 ∷ [], [])
unfolding decode_int32 uvarint unzigzag
decoded_three = refl

-- The zeros that fill up the block count as values: the least delta is that from 12 to 0.
encoded_three :
    take 12 (encode_int32 (10 ∷ 11 ∷ 12 ∷ []))
    ≡ 128 ∷ 1 ∷ 4 ∷ 3 ∷ 20 ∷ 23 ∷ 4 ∷ 0 ∷ 0 ∷ 0 ∷ 221 ∷ 0 ∷ []
unfolding encode_int32 put_uvarint zigzag bit_length
encoded_three = refl
