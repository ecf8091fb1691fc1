-- ===== src/Encoding/Rle.antt =====
-- encoding/rle/rle.go: the hybrid of run-length encoding and bit packing. A slice is the list of its
-- elements and the index of a loop is the rest of its list, so `src[i:]` is the list itself. An int32
-- is its bit pattern, a number below 2 ^ 32, and the encoders return what they append to `dst`.
pub mod Codec
pub mod Encode
pub mod Decode
pub mod Blocks
pub mod Bits
mod Examples
use parquet_go.Prelude.{
  ℕ, zero, suc, ◌+◌, ◌-◌, ◌*◌, ◌/◌, ◌%◌, ◌^◌, Bool, true, false, ◌&&◌, ◌||◌, not, List, [], ◌∷◌,
  ◌++◌, length, take, drop, replicate, if◌then◌else◌, ltb, leb, ◌==◌, head_or, le_bytes,
  of_le_bytes,
}
use parquet_go.Encoding.Result.{
  Result, ok, err, panic, stuck, Error, unexpected_eof, overflow, too_many, invalid_bit_width,
  ◌>>=◌,
}
use parquet_go.Encoding.Varint.{put_uvarint, uvarint, Decoded, number, short, too_big}

abbrev pub max_supported_value_count : ℕ
max_supported_value_count = 2 ^ 31 - 1

-- `bytealg.Count(data, b) == len(data)`: `isZero` and `isOnes`.
abbrev pub all_are : ℕ → List ℕ → Bool
all_are b [] = true
all_are b (x ∷ xs) = x == b && all_are b xs

-- The number of leading elements equal to `b`: the inner loops `for j < len(src) && src[i] == src[j]`.
abbrev pub leading : ℕ → List ℕ → ℕ
leading b [] = 0
leading b (x ∷ xs) = if x == b then suc (leading b xs) else 0

-- `uint64(n)<<1` and `uint64(n<<1)|1`, the headers of the two kinds of blocks.
abbrev pub run_header : ℕ → ℕ
run_header n = n * 2 % 2 ^ 64

abbrev pub packed_header : ℕ → ℕ
packed_header n = n * 2 % 2 ^ 64 + 1

-- `appendRunLengthBytes` and `appendRunLengthBits`
unfoldable pub run_length_bytes : ℕ → ℕ → List ℕ
run_length_bytes count value = put_uvarint (run_header count) ++ value ∷ []

-- `appendBitPackedBits`
unfoldable pub bit_packed_bits : List ℕ → List ℕ
bit_packed_bits words = put_uvarint (packed_header (length words)) ++ words

-- The second inner loop of `encodeBits`, from behind `prev`. (The test `src[j] != 0 && src[j] == 0xFF`
-- is `src[j] == 0xFF`.)
pub mixed : ℕ → List ℕ → ℕ
mixed prev [] = 0
mixed prev (x ∷ xs) = if not (prev == x) || (not (x == 0) && x == 0xff) then suc (mixed x xs) else 0

-- One round of the loop of `encodeBits`: the block, and how many bytes it takes off the front.
unfoldable pub bits_block : ℕ → List ℕ → List ℕ × ℕ
unfolding run_length_bytes bit_packed_bits mixed
bits_block b rest =
    let run = suc (leading b rest) in
    let j = suc (mixed b rest) in
    let n = if ltb 1 j && ltb j (suc (length rest)) then j - 1 else j in
    if (b == 0 || b == 0xff) && ltb 1 run
    then (run_length_bytes (8 * run) b, run)
    else (bit_packed_bits (take n (b ∷ rest)), n)

unfoldable pub bits_loop : ℕ → List ℕ → Result (List ℕ)
unfolding bits_block
bits_loop fuel [] = ok []
bits_loop zero (b ∷ rest) = stuck
bits_loop (suc fuel) (b ∷ rest) = do
  let (block, n) = bits_block b rest
  more ← bits_loop fuel (drop n (b ∷ rest))
  ok (block ++ more)

-- `encodeBits`; each round takes a byte at least.
unfoldable pub encode_bits : List ℕ → Result (List ℕ)
unfolding bits_loop
encode_bits src =
    let loop = bits_loop (length src) src in
    if length src == 0 || all_are 0 src || all_are 0xff src
    then ok (put_uvarint (run_header (8 * length src)) ++ take 1 src)
    else loop

-- The words of eight values that `encodeBytes` and `encodeInt32` go through, and the values behind them.
unfoldable pub words_of : ℕ → List ℕ → List (List ℕ)
words_of zero src = []
words_of (suc n) src = take 8 src ∷ words_of n (drop 8 src)

abbrev pub same : List ℕ → List ℕ → Bool
same [] [] = true
same [] (b ∷ bs) = false
same (a ∷ xs) [] = false
same (a ∷ xs) (b ∷ bs) = a == b && same xs bs

-- `broadcast8x1` and `broadcast8x4` of the first value of a word.
abbrev pub broadcast : List ℕ → List ℕ
broadcast word = replicate 8 (head_or word 0)

-- The number of leading words equal to the pattern.
abbrev pub leading_words : List ℕ → List (List ℕ) → ℕ
leading_words pattern [] = 0
leading_words pattern (w ∷ ws) = if same w pattern then suc (leading_words pattern ws) else 0

-- The number of words, behind the first one, that go into the same bit-packed block: in `encodeBytes`
-- up to a word that repeats the lowest byte of the word before it, and in `encodeInt32`
-- (`encodeInt32IndexEqual8ContiguousDefault`) up to a word of one value.
unfoldable pub mixed_words_bytes : List ℕ → List (List ℕ) → ℕ
mixed_words_bytes prev [] = 0
mixed_words_bytes prev (w ∷ ws) =
    if not (same w (broadcast prev)) then suc (mixed_words_bytes w ws) else 0

unfoldable pub mixed_words_int32 : List ℕ → List (List ℕ) → ℕ
mixed_words_int32 prev [] = 0
mixed_words_int32 prev (w ∷ ws) =
    if not (same w (broadcast w)) then suc (mixed_words_int32 w ws) else 0
