-- ===== src/Encoding/Delta/Decode.antt =====
-- binary_packed.go: the decoder. (With an error, Go returns the values decoded before it too.)
pub mod Count
pub mod RoundTrip
pub mod MiniBlocks
pub mod Blocks
pub mod BlockLoop
pub mod Encoded
use parquet_go.Prelude.{
  ℕ, zero, suc, ◌+◌, ◌-◌, ◌*◌, ◌/◌, ◌%◌, ◌^◌, ◌||◌, Bool, List, [], ◌∷◌, ◌++◌, if◌then◌else◌, ltb,
  leb, ◌==◌, length, take, drop, replicate, min, not,
}
use parquet_go.Encoding.Result.{
  Result, ok, err, panic, stuck, Error, unexpected_eof, overflow, too_many, invalid_argument,
  invalid_length, ◌>>=◌,
}
use parquet_go.Encoding.Varint.{uvarint, number, short, too_big}
use parquet_go.Encoding.Bitpack.{Bitpack}
use parquet_go.Encoding.Delta.Integers.{add, sub, extend, unzigzag}

-- `decodeUvarint`: the number, and the input behind it.
unfoldable pub decode_uvarint : List ℕ → Result (ℕ × List ℕ)
decode_uvarint src = elim (uvarint src) [
  | number u rest ↦ ok (u, rest)
  | short ↦ err unexpected_eof
  | too_big ↦ err overflow
]

-- `decodeVarint`
unfoldable pub decode_varint : List ℕ → Result (ℕ × List ℕ)
unfolding decode_uvarint
decode_varint src = do (u, rest) ← decode_uvarint src; ok (unzigzag u, rest)

pub record Header : Type 0 where
  pub block_size : ℕ
  pub num_mini_blocks : ℕ
  pub total_values : ℕ
  pub first_value : ℕ

abbrev pub max_supported_block_size : ℕ
max_supported_block_size = 65536

-- The tests at the end of `decodeBinaryPackedHeader`, in their order. The numbers are the uint64s read; as
-- an int one of 2 ^ 63 or more is negative, so that `blockSize <= 0` covers it, and the remainder of
-- a negative size is 0 where that of its pattern is.
unfoldable pub check_header : ℕ → ℕ → ℕ → Result (Unit {0})
check_header size minis total =
    if minis == 0
    then err invalid_argument
    else if size == 0 || leb (2 ^ 63) size || not (size % 128 == 0)
    then err invalid_argument
    else if ltb max_supported_block_size size
    then err too_many
    else if leb (2 ^ 63) minis || not (size / minis % 32 == 0)
    then err invalid_argument
    else if leb (2 ^ 63) total
    then err invalid_argument
    else if ltb (2 ^ 31 - 1) total
    then err too_many
    else ok tt

-- `decodeBinaryPackedHeader`
unfoldable pub decode_header : List ℕ → Result (Header × List ℕ)
unfolding decode_uvarint decode_varint check_header
decode_header src = do
  (size, src1) ← decode_uvarint src
  (minis, src2) ← decode_uvarint src1
  (total, src3) ← decode_uvarint src2
  (first, src4) ← decode_varint src3
  _ ← check_header size minis total
  ok (
    record {
      block_size = size;
      num_mini_blocks = minis;
      total_values = total;
      first_value = first;
    },
    src4,
  )

-- `decodeBinaryPackedBlock`: the least delta, the bit widths and the input behind them. Too few widths are
-- taken as they are.
unfoldable pub decode_block_header : List ℕ → ℕ → Result (ℕ × List ℕ × List ℕ)
unfolding decode_varint
decode_block_header src minis = do
  (min_delta, rest) ← decode_varint src
  ok (min_delta, take minis rest, drop minis rest)

-- `decodeBlockInt32` and `decodeBlockInt64`: the values, and the last of them.
unfoldable pub decode_block : ℕ → List ℕ → ℕ → ℕ → List ℕ × ℕ
decode_block w [] min_delta last = ([], last)
decode_block w (d ∷ ds) min_delta last =
    let v = add w (add w d min_delta) last in
    let (vs, last') = decode_block w ds min_delta v in (v ∷ vs, last')

-- The bytes of a mini-block that the input holds. Where the input ends within it, the code hands `Unpack` whatever
-- lies behind them in the input's array or in its buffer; what it makes of that is left to the parameter.
unfoldable pub mini_block_data : ℕ → List ℕ → List ℕ
mini_block_data size src = take size src

-- The deltas of a mini-block; `out` is 0 where a mini-block of width 0 leaves it.
unfoldable pub mini_values : Bitpack → ℕ → ℕ → ℕ → List ℕ → List ℕ
unfolding mini_block_data
mini_values b minis width n src =
    if width == 0 then replicate n 0 else b.unpack width n (mini_block_data (minis * width / 8) src)

-- The input behind a mini-block.
abbrev pub mini_rest : ℕ → ℕ → List ℕ → List ℕ
mini_rest minis width src = if width == 0 then src else drop (minis * width / 8) src

-- The loop over the bit widths of a block: the deltas found, how many values are still missing, and the
-- input behind them. `minis` is the number of values in a mini-block.
unfoldable pub mini_loop : Bitpack → ℕ → List ℕ → ℕ → List ℕ → List ℕ × ℕ × List ℕ
unfolding mini_values
mini_loop b minis [] total src = ([], total, src)
mini_loop b minis (width ∷ widths) total src =
    let n = min minis total in
    let values = mini_values b minis width n src in
    let src' = mini_rest minis width src in
    let (more, total', rest) = mini_loop b minis widths (total - n) src' in
    if total - n == 0 then (values, 0, src') else (values ++ more, total', rest)

-- The loop over the blocks, with `total` values to come.
unfoldable pub block_loop : Bitpack → ℕ → ℕ → ℕ → ℕ → ℕ → List ℕ → ℕ → Result (List ℕ × List ℕ)
unfolding decode_block_header mini_loop decode_block
block_loop b w minis per_mini fuel zero src last = ok ([], src)
block_loop b w minis per_mini fuel (suc total) [] last = err unexpected_eof
block_loop b w minis per_mini zero (suc total) (c ∷ src) last = stuck
block_loop b w minis per_mini (suc fuel) (suc total) (c ∷ src) last =
    decode_block_header (c ∷ src) minis >>= λ (min_delta, widths, next).
    let (deltas, total', rest) = mini_loop b per_mini widths (suc total) next in
    let (values, last') = decode_block w deltas (min_delta % 2 ^ w) last in
    block_loop b w minis per_mini fuel total' rest last' >>= λ (more, end). ok (values ++ more, end)

-- What both decoders do behind the header.
unfoldable pub decode_values : Bitpack → ℕ → Header → List ℕ → Result (List ℕ × List ℕ)
unfolding block_loop
decode_values b w h src =
    let first = h.first_value % 2 ^ w in
    if h.total_values == 0
    then ok ([], src)
    else (block_loop b w h.num_mini_blocks (h.block_size / h.num_mini_blocks) (length src)
          (h.total_values - 1) src first
        >>= λ (values, rest). ok (first ∷ values, rest))

-- `decodeInt32`: the values, and the input behind them. The first value must be an int32.
unfoldable pub decode_int32 : Bitpack → List ℕ → Result (List ℕ × List ℕ)
unfolding decode_header decode_values
decode_int32 b src = do
  (h, rest) ← decode_header src
  if h.total_values == 0
      then ok ([], rest)
      else if extend 32 (h.first_value % 2 ^ 32) == h.first_value
      then decode_values b 32 h rest
      else err invalid_argument

-- `decodeInt64`
unfoldable pub decode_int64 : Bitpack → List ℕ → Result (List ℕ × List ℕ)
unfolding decode_header decode_values
decode_int64 b src = do (h, rest) ← decode_header src; decode_values b 64 h rest
