-- ===== src/Encoding/Delta/Decode/Encoded.antt =====
-- The decoders give back what the encoders were given.
use parquet_go.Prelude.{
  ==_iff, false, ℕ, ◌-◌, ◌%◌, ◌^◌, ◌<◌, ◌≤◌, ◌≡◌, refl, ap, ◌∙◌, List, [], ◌∷◌, ◌++◌, All, arith,
  length, drop, ◌==◌, ltb, if◌then◌else◌, head_or, append_assoc, length-append, two_pow_pos,
}
use parquet_go.Encoding.Result.{ok}
use parquet_go.Encoding.Bitpack.{Bitpack, UnpacksFields}
use parquet_go.Encoding.Delta.Integers.{extend}
use parquet_go.Encoding.Delta.Encode.{header, encode, encode_int32, encode_int64}
use parquet_go.Encoding.Delta.Encode as Encode
use parquet_go.Encoding.Delta.Encode.Blocks.{IsWidth, int32_width, int64_width}
use parquet_go.Encoding.Delta.Encode.Deltas.{extend-cut}
use parquet_go.Encoding.Delta.Decode.{
  Header, check_header, decode_header, decode_values, decode_int32, decode_int64, block_loop,
}
use parquet_go.Encoding.Delta.Decode.RoundTrip.{decode_header-header}
use parquet_go.Encoding.Delta.Decode.BlockLoop.{block_loop-block_loop}

-- The header that the encoder writes.
abbrev header_of : ℕ → List ℕ → Header
header_of w src = record {
  block_size = 128;
  num_mini_blocks = 4;
  total_values = length src;
  first_value = extend w (head_or src 0);
}

-- The bytes that the encoder writes behind the header.
abbrev blocks_of : ℕ → List ℕ → List ℕ
blocks_of w src =
    if ltb (length src) 2 then [] else Encode.block_loop w (length src) (drop 1 src) (head_or src 0)

head-Small : (w : ℕ) (src : List ℕ) → All (λ v. v < 2 ^ w) src → head_or src 0 < 2 ^ w
head-Small w [] h = two_pow_pos w
head-Small w (v ∷ vs) (h, hs) = h

accepted : (n : ℕ) → n ≤ 2 ^ 31 - 1 → check_header 128 4 n ≡ ok tt
unfolding check_header
accepted n h = ground arith

header_read :
    (w : ℕ) (src rest : List ℕ)
    → IsWidth w
    → All (λ v. v < 2 ^ w) src
    → length src ≤ 2 ^ 31 - 1
    → decode_header (encode w src ++ rest) ≡ ok (header_of w src, blocks_of w src ++ rest)
unfolding encode
header_read w src rest i small len =
    let first = extend w (head_or src 0) in
    ap decode_header (append_assoc (header 128 4 (length src) first) (blocks_of w src) rest)
    ∙ decode_header-header 128 4 (length src) first (blocks_of w src ++ rest) (omega arith)
        (omega arith) (omega arith) ((extend-cut w (head_or src 0) i (head-Small w src small)).1)
        (accepted (length src) len)

module _ (b : Bitpack) (laws : UnpacksFields b) where
  values_read :
      (w : ℕ) (src rest : List ℕ)
      → IsWidth w
      → All (λ v. v < 2 ^ w) src
      → decode_values b w (header_of w src) (blocks_of w src ++ rest) ≡ ok (src, rest)
  unfolding decode_values
  values_read w [] rest i small = refl
  values_read w (v ∷ []) rest i (h, hs) = unfold block_loop in rw ((extend-cut w v i h).0) refl
  values_read w (v ∷ u ∷ us) rest i (h, hs) =
      let src = v ∷ u ∷ us in
      let cut = extend-cut w v i h in
      let blocks = Encode.block_loop w (length src) (u ∷ us) v in
      let more : ltb (length src) 2 ≡ false = ground arith in
      let some : (length src == 0) ≡ false = ground arith in
      let left : length src - 1 ≡ length (u ∷ us) = omega arith in
      let room : length blocks ≤ length (blocks ++ rest) =
        omega (arith, length-append blocks rest) in
      let read =
        block_loop-block_loop b laws w i (length src) (length (blocks ++ rest)) (u ∷ us) rest v
          (omega arith) room hs h in
      rw (more, some, left, cut.0, read) refl

  pub int32_back :
      (src rest : List ℕ)
      → All (λ v. v < 2 ^ 32) src
      → length src ≤ 2 ^ 31 - 1
      → decode_int32 b (encode_int32 src ++ rest) ≡ ok (src, rest)
  unfolding decode_int32 encode_int32
  int32_back [] rest small len = rw (header_read 32 [] rest int32_width small len) refl
  int32_back (v ∷ vs) rest (h, hs) len =
      let some : (length (v ∷ vs) == 0) ≡ false = ground arith in
      let cut = extend-cut 32 v int32_width h in
      let fits =
        (==_iff (extend 32 (extend 32 v % 2 ^ 32)) (extend 32 v)).1 (ap (extend 32) (cut.0)) in
      let read = values_read 32 (v ∷ vs) rest int32_width (h, hs) in
      rw (header_read 32 (v ∷ vs) rest int32_width (h, hs) len, fits, read, some) refl

  int64_back :
      (src rest : List ℕ)
      → All (λ v. v < 2 ^ 64) src
      → length src ≤ 2 ^ 31 - 1
      → decode_int64 b (encode_int64 src ++ rest) ≡ ok (src, rest)
  unfolding decode_int64 encode_int64
  int64_back src rest small len =
      rw (header_read 64 src rest int64_width small len) (values_read 64 src rest int64_width small)

  -- If the bit-packing module unpacks the fields that its input holds, a list of fewer than 2 ^ 31 int32
  -- values that is encoded as DELTA_BINARY_PACKED is decoded to itself, and so is such a list of int64 values;
  -- the input behind them is left.
  pub decode_int32-encode_int32 :
      (src wide rest : List ℕ)
      → All (λ v. v < 2 ^ 32) src
      → All (λ v. v < 2 ^ 64) wide
      → length src ≤ 2 ^ 31 - 1
      → length wide ≤ 2 ^ 31 - 1
      → (decode_int32 b (encode_int32 src ++ rest) ≡ ok (src, rest))
        × (decode_int64 b (encode_int64 wide ++ rest) ≡ ok (wide, rest))
  decode_int32-encode_int32 src wide rest small small' len len' =
      (int32_back src rest small len, int64_back wide rest small' len')
