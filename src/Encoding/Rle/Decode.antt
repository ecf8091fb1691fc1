-- ===== src/Encoding/Rle/Decode.antt =====
-- decodeBits, decodeBytes and decodeInt32. (With an error, Go returns the values decoded before it too.)
use parquet_go.Prelude.{
  ℕ, zero, suc, ◌+◌, ◌*◌, ◌/◌, ◌%◌, ◌^◌, Bool, true, false, List, [], ◌∷◌, ◌++◌, length, take, drop,
  replicate, if◌then◌else◌, ltb, ◌==◌, head_or, of_le_bytes, le_bytes,
}
use parquet_go.Encoding.Result.{
  Result, ok, err, panic, stuck, unexpected_eof, overflow, too_many, invalid_bit_width, ◌>>=◌,
}
use parquet_go.Encoding.Varint.{uvarint, number, short, too_big}
use parquet_go.Encoding.Bitpack.{Bitpack}
use parquet_go.Encoding.Rle.{max_supported_value_count, encode_bits}
use parquet_go.Encoding.Rle.Codec.{unpack_words}

-- How a decoder reads the body of a block: whether it is bit-packed, its count, and the input; the
-- values of the block, and the input behind it.
abbrev pub Reader : Type 0
Reader = Bool → ℕ → List ℕ → Result (List ℕ × List ℕ)

-- The loop of the three decoders, with the input from index `i` on.
unfoldable pub decode_loop : Reader → ℕ → List ℕ → List ℕ → Result (List ℕ)
decode_loop read fuel [] dst = ok dst
decode_loop read zero (b ∷ rest) dst = stuck
decode_loop read (suc fuel) (b ∷ rest) dst = elim (uvarint (b ∷ rest)) [
  | short ↦ err unexpected_eof
  | too_big ↦ err overflow
  | number u body ↦
      let count = u / 2 in
      let skip = decode_loop read fuel body dst in
      let block = read (u % 2 == 1) count body >>= λ (values, next).
      decode_loop read fuel next (dst ++ values) in
      if count == 0
      then skip
      else if ltb max_supported_value_count count
      then err too_many
      else block
]

-- A block takes a byte of the input at least.
unfoldable pub decode_blocks : Reader → List ℕ → Result (List ℕ)
unfolding decode_loop
decode_blocks read src = decode_loop read (length src) src []

module _ (b : Bitpack) where
  unfoldable pub read_bits : Reader
  read_bits true count src =
      if ltb (length src) count then err unexpected_eof else ok (take count src, drop count src)
  read_bits false count src = ok (replicate (b.byte_count count) (head_or src 0), drop 1 src)

  unfoldable pub decode_bits : List ℕ → Result (List ℕ)
  unfolding decode_blocks read_bits
  decode_bits src = decode_blocks read_bits src

  -- A block of `count` words holds 8 * count values.
  unfoldable pub read_bytes : ℕ → Reader
  unfolding unpack_words
  read_bytes w true count src =
      let n = b.byte_count (count * 8 * w) in
      if ltb (length src) n
      then err unexpected_eof
      else ok (unpack_words w (b.byte_count (8 * w)) count (take n src), drop n src)
  read_bytes w false count src =
      if w == 0
      then ok (replicate count 0, src)
      else if length src == 0
      then err unexpected_eof
      else ok (replicate count (head_or src 0), drop 1 src)

  unfoldable pub decode_bytes : ℕ → List ℕ → Result (List ℕ)
  unfolding decode_blocks read_bytes
  decode_bytes w src = if ltb 8 w then err invalid_bit_width else decode_blocks (read_bytes w) src

  -- The slice `src[i : i+length]` of a bit-packed block is taken without a test: it panics only past the capacity of
  -- `src`, behind whose length lie the bytes `spare`. `Unpack` is given the bytes with padding behind them.
  unfoldable pub read_int32 : List ℕ → ℕ → Reader
  read_int32 spare w true count src =
      let n = count * w in
      if ltb (length src + length spare) n
      then panic
      else ok (b.unpack w (8 * count) (take n (src ++ spare)), drop n src)
  read_int32 spare w false count src =
      let n = b.byte_count w in
      if ltb (length src) n
      then err unexpected_eof
      else ok (replicate count (of_le_bytes (take n src)), drop n src)

  unfoldable pub decode_int32 : List ℕ → ℕ → List ℕ → Result (List ℕ)
  unfolding decode_blocks read_int32
  decode_int32 spare w src =
      if ltb 32 w then err invalid_bit_width else decode_blocks (read_int32 spare w) src

  -- `Encoding.DecodeBoolean`: the length of the data stands in front of it.
  unfoldable pub decode_boolean : List ℕ → Result (List ℕ)
  unfolding decode_bits
  decode_boolean src =
      let n = of_le_bytes (take 4 src) in
      let body = drop 4 src in
      if length src == 4
      then ok []
      else if ltb (length src) 4
      then err unexpected_eof
      else if ltb (length body) n
      then err unexpected_eof
      else decode_bits (take n body)

-- `Encoding.EncodeBoolean`
unfoldable pub encode_boolean : List ℕ → Result (List ℕ)
encode_boolean src = do bits ← encode_bits src; ok (le_bytes 4 (length bits % 2 ^ 32) ++ bits)
