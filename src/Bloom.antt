-- ===== src/Bloom.antt =====
-- The package bloom: split block filters, in the portable version and in the reference version.
pub mod Words
pub mod Reference
pub mod Laws
pub mod Bytes
mod Examples
use Prim.Native.Nat.{bit_and, bit_or}
use parquet_go.Prelude.{
  ℕ, zero, suc, ◌+◌, ◌-◌, ◌*◌, ◌/◌, ◌%◌, ◌^◌, Bool, true, false, ◌&&◌, not, List, [], ◌∷◌, ◌++◌,
  Option, some, none, if◌then◌else◌, ltb, ◌==◌, length, get_elem?, set, map, flat, take, drop,
  replicate, le_bytes, of_le_bytes,
}
use parquet_go.Encoding.Delta.Integers.{extend}

-- A block is a list of eight words of 32 bits, `Word`.
abbrev pub Block : Type 0
Block = List ℕ

-- `BlockSize`
abbrev pub block_size : ℕ
block_size = 32

-- `salt0` to `salt7`
abbrev pub salts : List ℕ
salts =
    1203114875 ∷ 1150766481 ∷ 2284105051 ∷ 2729912477 ∷ 1884591559 ∷ 770785867 ∷ 2667333959
    ∷ 1550580529 ∷ []

-- The number of the bit that `x` has in a word.
abbrev pub bit_of : ℕ → ℕ → ℕ
bit_of x salt = x * salt % 2 ^ 32 / 2 ^ 27

-- `Block.Insert`: each word of the block with the salt of its index.
unfoldable pub insert_words : ℕ → List ℕ → Block → Block
insert_words x [] b = b
insert_words x (salt ∷ more) [] = []
insert_words x (salt ∷ more) (word ∷ b) = bit_or word (2 ^ bit_of x salt) ∷ insert_words x more b

unfoldable pub insert : Block → ℕ → Block
unfolding insert_words
insert b x = insert_words x salts b

-- `Block.Check`
unfoldable pub check_words : ℕ → List ℕ → Block → Bool
check_words x [] b = true
check_words x (salt ∷ more) [] = false
check_words x (salt ∷ more) (word ∷ b) =
    not (bit_and word (2 ^ bit_of x salt) == 0) && check_words x more b

unfoldable pub check : Block → ℕ → Bool
unfolding check_words
check b x = check_words x salts b

-- `Word.set` and `Word.has` of the reference version.
unfoldable pub set_bit : ℕ → ℕ → ℕ
set_bit w i = bit_or w (2 ^ i % 2 ^ 32)

unfoldable pub has : ℕ → ℕ → Bool
has w i = not (bit_and (w / 2 ^ i) 1 == 0)

-- `mask`
unfoldable pub mask : ℕ → Block
unfolding set_bit
mask x = map (λ salt. set_bit 0 (bit_of x salt)) salts

-- The inner loop of the reference version of `Insert`, with `n` bits left from bit `j` on, and its outer loop.
unfoldable pub insert_bits : ℕ → ℕ → ℕ → ℕ → ℕ
unfolding set_bit has
insert_bits zero j masked word = word
insert_bits (suc n) j masked word =
    insert_bits n (j + 1) masked (if has masked j then set_bit word j else word)

unfoldable pub insert_masked : Block → Block → Block
unfolding insert_bits
insert_masked [] b = b
insert_masked (m ∷ masked) [] = []
insert_masked (m ∷ masked) (word ∷ b) = insert_bits 32 0 m word ∷ insert_masked masked b

unfoldable pub reference_insert : Block → ℕ → Block
unfolding mask insert_masked
reference_insert b x = insert_masked (mask x) b

-- The same of `Check`.
unfoldable pub check_bits : ℕ → ℕ → ℕ → ℕ → Bool
unfolding has
check_bits zero j masked word = true
check_bits (suc n) j masked word =
    let more = check_bits n (j + 1) masked word in
    if has masked j then (if not (has word j) then false else more) else more

unfoldable pub check_masked : Block → Block → Bool
unfolding check_bits
check_masked [] b = true
check_masked (m ∷ masked) [] = false
check_masked (m ∷ masked) (word ∷ b) = check_bits 32 0 m word && check_masked masked b

unfoldable pub reference_check : Block → ℕ → Bool
unfolding mask check_masked
reference_check b x = check_masked (mask x) b

-- `fasthash1x64`
unfoldable pub fasthash1x64 : ℕ → ℕ → ℕ
fasthash1x64 value scale = value / 2 ^ 32 * extend 32 scale % 2 ^ 64 / 2 ^ 32

-- A filter is a list of blocks; an index out of range panics, which is `none`.
abbrev pub SplitBlockFilter : Type 0
SplitBlockFilter = List Block

-- The index of the block of a value; `int32(len(f))` cuts the length.
unfoldable pub block_index : SplitBlockFilter → ℕ → ℕ
unfolding fasthash1x64
block_index f x = fasthash1x64 x (length f % 2 ^ 32)

-- `filterInsert`
unfoldable pub filter_insert : SplitBlockFilter → ℕ → Option SplitBlockFilter
unfolding block_index insert
filter_insert f x = elim (get_elem? f (block_index f x)) [
  | none ↦ none
  | some b ↦ some (set f (block_index f x) (insert b (x % 2 ^ 32)))
]

-- `filterInsertBulk`
unfoldable pub filter_insert_bulk : SplitBlockFilter → List ℕ → Option SplitBlockFilter
unfolding filter_insert
filter_insert_bulk f [] = some f
filter_insert_bulk f (x ∷ xs) = elim (filter_insert f x) [
  | none ↦ none
  | some f' ↦ filter_insert_bulk f' xs
]

-- `filterCheck`
unfoldable pub filter_check : SplitBlockFilter → ℕ → Option Bool
unfolding block_index check
filter_check f x = elim (get_elem? f (block_index f x)) [
  | none ↦ none
  | some b ↦ some (check b (x % 2 ^ 32))
]

-- `Reset`
unfoldable pub reset : SplitBlockFilter → SplitBlockFilter
reset f = map (λ b. replicate 8 0) f

-- `NumSplitBlocksOf`, in uints, whose product and sums wrap around.
unfoldable pub num_split_blocks_of : ℕ → ℕ → ℕ
num_split_blocks_of num_values bits_per_value =
    let num_bytes = (num_values * bits_per_value + 7) % 2 ^ 64 / 8 in
    (num_bytes + (block_size - 1)) % 2 ^ 64 / block_size

-- `Bytes` of a block and of a filter, on a little-endian machine.
unfoldable pub block_bytes : Block → List ℕ
block_bytes b = flat (map (le_bytes 4) b)

unfoldable pub filter_bytes : SplitBlockFilter → List ℕ
unfolding block_bytes
filter_bytes f = flat (map block_bytes f)

-- The words of a block's bytes.
unfoldable pub block_of_bytes : ℕ → List ℕ → Block
block_of_bytes zero bytes = []
block_of_bytes (suc n) bytes = of_le_bytes (take 4 bytes) ∷ block_of_bytes n (drop 4 bytes)

-- `CheckSplitBlock`, over the `ReadAt` of its reader, which answers the bytes of the length at the offset. The
-- error that it answers is handed on, and left out here.
unfoldable pub check_split_block : (ℕ → ℕ → List ℕ) → ℕ → ℕ → Bool
unfolding fasthash1x64 check block_of_bytes
check_split_block read_at n x =
    let offset = block_size * fasthash1x64 x (n / block_size % 2 ^ 32) in
    check (block_of_bytes 8 (read_at offset block_size)) (x % 2 ^ 32)
