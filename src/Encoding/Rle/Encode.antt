-- ===== src/Encoding/Rle/Encode.antt =====
-- encodeBytes and encodeInt32.
use parquet_go.Prelude.{
  ℕ, zero, suc, ◌*◌, ◌/◌, List, [], ◌∷◌, ◌++◌, length, take, drop, if◌then◌else◌, ltb, ◌==◌,
  head_or, le_bytes, flat,
}
use parquet_go.Encoding.Result.{Result, ok, err, stuck, invalid_bit_width, ◌>>=◌}
use parquet_go.Encoding.Varint.{put_uvarint}
use parquet_go.Encoding.Bitpack.{Bitpack}
use parquet_go.Encoding.Rle.{
  all_are, leading, run_header, packed_header, run_length_bytes, words_of, broadcast, leading_words,
  mixed_words_bytes, mixed_words_int32,
}
use parquet_go.Encoding.Rle.Codec.{pack_words}

-- What the two loops do not share: `run` writes a run of a value, `packed` a block of words, and
-- `mixed` counts the words that join a block.
pub record Writer : Type 0 where
  pub run : ℕ → ℕ → List ℕ
  pub packed : List (List ℕ) → List ℕ
  pub mixed : List ℕ → List (List ℕ) → ℕ

module _ (writer : Writer) where
  -- The loop over the words.
  unfoldable pub words_loop : ℕ → List (List ℕ) → Result (List ℕ)
  words_loop fuel [] = ok []
  words_loop zero (w ∷ ws) = stuck
  words_loop (suc fuel) (w ∷ ws) = do
    let j = leading_words (broadcast w) (w ∷ ws)
    let m = suc (writer.mixed w ws)
    let n = if ltb 0 j then j else m
    let block =
        if ltb 0 j then writer.run (8 * j) (head_or w 0) else writer.packed (take m (w ∷ ws))
    more ← words_loop fuel (drop n (w ∷ ws))
    ok (block ++ more)

  -- The loop over the values behind the words.
  unfoldable pub tail_loop : ℕ → List ℕ → Result (List ℕ)
  tail_loop fuel [] = ok []
  tail_loop zero (b ∷ rest) = stuck
  tail_loop (suc fuel) (b ∷ rest) = do
    let j = suc (leading b rest)
    more ← tail_loop fuel (drop j (b ∷ rest))
    ok (writer.run j b ++ more)

  unfoldable pub encode_values : List ℕ → Result (List ℕ)
  unfolding words_loop tail_loop
  encode_values src = do
    let n = length src / 8
    front ← words_loop n (words_of n src)
    back ← tail_loop (length src) (drop (8 * n) src)
    ok (front ++ back)

-- `appendRunLengthBytes` and `appendBitPackedBytes`
unfoldable pub bytes_writer : ℕ → Writer
unfolding run_length_bytes pack_words mixed_words_bytes
bytes_writer w = record {
  run = run_length_bytes;
  packed = λ words. put_uvarint (packed_header (length words)) ++ pack_words w words;
  mixed = mixed_words_bytes;
}

unfoldable pub encode_bytes : ℕ → List ℕ → Result (List ℕ)
unfolding encode_values bytes_writer
encode_bytes w src =
    if ltb 8 w
    then err invalid_bit_width
    else if w == 0
    then (if all_are 0 src
        then ok (put_uvarint (run_header (length src)))
        else err invalid_bit_width)
    else encode_values (bytes_writer w) src

-- `appendRunLengthInt32` and `appendBitPackedInt32`, whose `encodeInt32BitpackDefault` calls `Pack` and
-- counts its bytes by `ByteCount`.
unfoldable pub int32_writer : Bitpack → ℕ → Writer
unfolding mixed_words_int32
int32_writer b w = record {
  run = λ count value. put_uvarint (run_header count) ++ take (b.byte_count w) (le_bytes 4 value);
  packed = λ words.
      put_uvarint (packed_header (length words))
      ++ take (b.byte_count (length words * 8 * w)) (b.pack w (flat words));
  mixed = mixed_words_int32;
}

unfoldable pub encode_int32 : Bitpack → ℕ → List ℕ → Result (List ℕ)
unfolding encode_values int32_writer
encode_int32 b w src =
    if ltb 32 w
    then err invalid_bit_width
    else if w == 0
    then (if all_are 0 src
        then ok (put_uvarint (run_header (length src)))
        else err invalid_bit_width)
    else encode_values (int32_writer b w) src
