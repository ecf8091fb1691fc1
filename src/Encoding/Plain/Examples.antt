-- ===== src/Encoding/Plain/Examples.antt =====
-- Runs of the PLAIN encoding of byte arrays, and its theorems at concrete inputs.
use parquet_go.Prelude.{ℕ, ◌≡◌, refl, List, [], ◌∷◌, ◌++◌, flat, le_bytes, arith}
use parquet_go.Encoding.Result.{ok, err, panic, unexpected_eof}
use parquet_go.Encoding.Plain.{
  byte_array, encode_byte_array, decode_byte_array, next_byte_array, range_byte_array,
}
use parquet_go.Encoding.Plain.RoundTrip.{
  offsets_of, encoded, decode_byte_array-encode_byte_array, range_byte_array-encoded,
  decode_byte_array_overrun,
}

abbrev words : List (List ℕ)
words = (7 ∷ 8 ∷ []) ∷ [] ∷ (9 ∷ []) ∷ []

encoded_words :
    encode_byte_array (7 ∷ 8 ∷ 9 ∷ []) (0 ∷ 2 ∷ 2 ∷ 3 ∷ [])
    ≡ ok (2 ∷ 0 ∷ 0 ∷ 0 ∷ 7 ∷ 8 ∷ 0 ∷ 0 ∷ 0 ∷ 0 ∷ 1 ∷ 0 ∷ 0 ∷ 0 ∷ 9 ∷ [])
unfolding encode_byte_array
encoded_words = refl

decode_byte_array-encode_byte_array_example :
    (enc : List ℕ) × (encode_byte_array (flat words) (offsets_of 0 words) ≡ ok enc)
    × (decode_byte_array (5 ∷ []) enc ≡ ok (flat words, offsets_of 0 words))
decode_byte_array-encode_byte_array_example =
    decode_byte_array-encode_byte_array words (5 ∷ []) (omega arith)

words_ranged : range_byte_array (encoded words) ≡ ok words
words_ranged = range_byte_array-encoded words (omega arith, (omega arith, (omega arith, tt)))

-- The capacity ends before the second value does.
past_capacity :
    decode_byte_array (2 ∷ []) (byte_array (7 ∷ 8 ∷ []) ++ (le_bytes 4 5 ++ 1 ∷ [])) ≡ panic
unfolding decode_byte_array byte_array
past_capacity = refl

decode_byte_array_overrun_example :
    (decode_byte_array
        (2 ∷ 3 ∷ 4 ∷ 5 ∷ 6 ∷ [])
        (byte_array (7 ∷ 8 ∷ []) ++ (le_bytes 4 5 ++ 1 ∷ []))
      ≡ ok (7 ∷ 8 ∷ 1 ∷ 2 ∷ 3 ∷ 4 ∷ 5 ∷ [], 0 ∷ 2 ∷ 7 ∷ []))
    × (next_byte_array (le_bytes 4 5 ++ 1 ∷ []) ≡ err unexpected_eof)
decode_byte_array_overrun_example =
    decode_byte_array_overrun (7 ∷ 8 ∷ []) (1 ∷ []) (2 ∷ 3 ∷ 4 ∷ 5 ∷ 6 ∷ []) 5 (omega arith)
      (omega arith) (omega arith) (omega arith)
