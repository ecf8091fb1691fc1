-- ===== src/Encoding/Delta/Encode.antt =====
-- binary_packed.go and binary_packed_purego.go: the encoder. It returns what it appends to `dst`, whose new
-- bytes `resize` has set to 0.
pub mod Blocks
pub mod Packing
pub mod Joined
pub mod MiniBlock
pub mod Deltas
use Prim.Native.Nat.{bit_and, bit_or}
use parquet_go.Prelude.{
  ℕ, zero, suc, ◌+◌, ◌-◌, ◌*◌, ◌/◌, ◌%◌, ◌^◌, Bool, List, [], ◌∷◌, ◌++◌, if◌then◌else◌, ltb, ◌==◌,
  length, take, drop, replicate, map, get_or, set, le_bytes, flat, head_or,
}
use parquet_go.Encoding.Varint.{put_uvarint}
use parquet_go.Encoding.Delta.Integers.{add, sub, signed_lt, extend, zigzag, bit_length}

abbrev pub block_size : ℕ
block_size = 128

abbrev pub num_mini_blocks : ℕ
num_mini_blocks = 4

abbrev pub mini_block_size : ℕ
mini_block_size = 32

-- `binary.PutVarint` of the int64 with the pattern `x`.
abbrev pub put_varint : ℕ → List ℕ
put_varint x = put_uvarint (zigzag x)

-- `encodeBinaryPackedHeader`
unfoldable pub header : ℕ → ℕ → ℕ → ℕ → List ℕ
header size minis total first =
    put_uvarint size ++ (put_uvarint minis ++ (put_uvarint total ++ put_varint first))

-- `encodeBlockHeader`
unfoldable pub block_header : ℕ → List ℕ → List ℕ
block_header min_delta bit_widths = put_varint min_delta ++ bit_widths

module _ (w : ℕ) where
  -- `blockDeltaInt32` and `blockDeltaInt64`: each value less the one before it, and the last value.
  unfoldable pub block_delta : List ℕ → ℕ → List ℕ × ℕ
  block_delta [] last = ([], last)
  block_delta (v ∷ vs) last =
      let (deltas, last') = block_delta vs v in (sub w v last ∷ deltas, last')

  -- `blockMinInt32` and `blockMinInt64`: the loop, from `min` on.
  unfoldable pub min_loop : ℕ → List ℕ → ℕ
  min_loop min [] = min
  min_loop min (v ∷ vs) = min_loop (if signed_lt w v min then v else min) vs

  unfoldable pub block_min : List ℕ → ℕ
  unfolding min_loop
  block_min [] = 0
  block_min (v ∷ vs) = min_loop v vs

  -- `blockSubInt32` and `blockSubInt64`
  unfoldable pub block_sub : List ℕ → ℕ → List ℕ
  block_sub [] value = []
  block_sub (v ∷ vs) value = sub w v value ∷ block_sub vs value

-- `blockClearInt32` and `blockClearInt64`: the values behind the block's length are 0.
unfoldable pub block_clear : ℕ → List ℕ → List ℕ
block_clear n [] = []
block_clear zero (v ∷ vs) = 0 ∷ block_clear zero vs
block_clear (suc n) (v ∷ vs) = v ∷ block_clear n vs

-- The greatest bit length of a mini-block.
unfoldable pub bit_width_loop : ℕ → ℕ → List ℕ → ℕ
bit_width_loop w width [] = width
bit_width_loop w width (v ∷ vs) =
    let n = bit_length w v in bit_width_loop w (if ltb width n then n else width) vs

-- The mini-blocks of a block, `k` of them.
unfoldable pub mini_blocks : ℕ → List ℕ → List (List ℕ)
mini_blocks zero block = []
mini_blocks (suc k) block = take mini_block_size block ∷ mini_blocks k (drop mini_block_size block)

-- `blockBitWidthsInt32` and `blockBitWidthsInt64`
unfoldable pub block_bit_widths : ℕ → List ℕ → List ℕ
unfolding bit_width_loop mini_blocks
block_bit_widths w block = map (bit_width_loop w 0) (mini_blocks num_mini_blocks block)

-- The loop of `encodeMiniBlockInt32` and `encodeMiniBlockInt64` over the little-endian words of `dst`, each of
-- `w` bits; a shift by all `w` bits gives 0.
unfoldable pub mini_block_loop : ℕ → ℕ → List ℕ → ℕ → List ℕ → List ℕ
mini_block_loop w width [] offset words = words
mini_block_loop w width (v ∷ vs) offset words =
    let i = offset / w in
    let j = offset % w in
    let lo = bit_or (get_or words i 0) (bit_and v (2 ^ width - 1) * 2 ^ j % 2 ^ w) in
    let hi = bit_or (get_or words (i + 1) 0) (v / 2 ^ (w - j)) in
    mini_block_loop w width vs (offset + width) (set (set words i lo) (i + 1) hi)

-- The bytes by which `n` grows, of the words that the loop writes, one word more than they fill.
unfoldable pub mini_block : ℕ → List ℕ → ℕ → List ℕ
unfolding mini_block_loop
mini_block w values width =
    let words = mini_block_loop w width values 0 (replicate (mini_block_size * width / w + 2) 0) in
    take (mini_block_size * width / 8) (flat (map (le_bytes (w / 8)) words))

-- The loop over the mini-blocks, which passes over those of width 0.
unfoldable pub put_mini_blocks : ℕ → List (List ℕ) → List ℕ → List ℕ
unfolding mini_block
put_mini_blocks w [] widths = []
put_mini_blocks w (values ∷ more) [] = []
put_mini_blocks w (values ∷ more) (width ∷ widths) =
    let rest = put_mini_blocks w more widths in
    if width == 0 then rest else mini_block w values width ++ rest

-- One round of the loop of `encodeInt32Default` and `encodeInt64Default`: the bytes of the block that begins
-- with the values `src`, and its last value. The block is filled up with 0.
unfoldable pub encode_block : ℕ → List ℕ → ℕ → List ℕ × ℕ
unfolding block_delta block_min block_sub block_clear block_bit_widths block_header put_mini_blocks
encode_block w src last =
    let n = length (take block_size src) in
    let block = take block_size src ++ replicate (block_size - n) 0 in
    let (deltas, last') = block_delta w block last in
    let min_delta = block_min w deltas in
    let cleared = block_clear n (block_sub w deltas min_delta) in
    let widths = block_bit_widths w cleared in
    (
      block_header (extend w min_delta) widths
          ++ put_mini_blocks w (mini_blocks num_mini_blocks cleared) widths,
      last',
    )

unfoldable pub block_loop : ℕ → ℕ → List ℕ → ℕ → List ℕ
unfolding encode_block
block_loop w fuel [] last = []
block_loop w zero (v ∷ vs) last = []
block_loop w (suc fuel) (v ∷ vs) last =
    let (bytes, last') = encode_block w (v ∷ vs) last in
    bytes ++ block_loop w fuel (drop block_size (v ∷ vs)) last'

-- A round takes a value at least, so the rounds suffice.
unfoldable pub encode : ℕ → List ℕ → List ℕ
unfolding header block_loop
encode w src =
    header block_size num_mini_blocks (length src) (extend w (head_or src 0))
    ++ (if ltb (length src) 2 then [] else block_loop w (length src) (drop 1 src) (head_or src 0))

unfoldable pub encode_int32 : List ℕ → List ℕ
unfolding encode
encode_int32 src = encode 32 src

unfoldable pub encode_int64 : List ℕ → List ℕ
unfolding encode
encode_int64 src = encode 64 src
