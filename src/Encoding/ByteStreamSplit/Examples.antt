-- ===== src/Encoding/ByteStreamSplit/Examples.antt =====
-- Runs of the streams.
use parquet_go.Prelude.{◌≡◌, refl, [], ◌∷◌, arith}
use parquet_go.Encoding.Result.{ok, err, ◌>>=◌, invalid_argument}
use parquet_go.Encoding.ByteStreamSplit.{
  encode_float, decode_float, encode_double, decode_double, encode_fixed_len_byte_array,
  decode_fixed_len_byte_array,
}
use parquet_go.Encoding.ByteStreamSplit.RoundTrip.{decode_float-encode_float_streams}

decode_float-encode_float_streams_example :
    (decode_float (encode_float (1 ∷ 4294967295 ∷ [])) ≡ ok (1 ∷ 4294967295 ∷ []))
    × (decode_double (encode_double (18446744073709551615 ∷ [])) ≡ ok (18446744073709551615 ∷ []))
    × ((encode_fixed_len_byte_array (1 ∷ 2 ∷ 3 ∷ 4 ∷ 5 ∷ 6 ∷ []) 3 >>= λ streams.
          decode_fixed_len_byte_array streams 3)
        ≡ ok (1 ∷ 2 ∷ 3 ∷ 4 ∷ 5 ∷ 6 ∷ []))
decode_float-encode_float_streams_example =
    decode_float-encode_float_streams (1 ∷ 4294967295 ∷ []) (18446744073709551615 ∷ [])
      (1 ∷ 2 ∷ 3 ∷ 4 ∷ 5 ∷ 6 ∷ []) 3 2 (omega arith, (omega arith, tt)) (omega arith, tt)
      (omega arith) (omega arith) (omega arith)

-- The first bytes of both values stand in front.
split_in_columns :
    encode_fixed_len_byte_array (1 ∷ 2 ∷ 3 ∷ 4 ∷ 5 ∷ 6 ∷ []) 3 ≡ ok (1 ∷ 4 ∷ 2 ∷ 5 ∷ 3 ∷ 6 ∷ [])
unfolding encode_fixed_len_byte_array
split_in_columns = refl

part_of_a_float : decode_float (1 ∷ 2 ∷ 3 ∷ []) ≡ err invalid_argument
unfolding decode_float
part_of_a_float = refl

no_size : decode_fixed_len_byte_array (1 ∷ 2 ∷ []) 0 ≡ err invalid_argument
unfolding decode_fixed_len_byte_array
no_size = refl
