-- ===== src/Bloom/Bytes.antt =====
-- A filter that is read from its bytes answers as the filter does.
use parquet_go.Prelude.{
  ℕ, zero, suc, ◌+◌, ◌*◌, ◌/◌, ◌%◌, ◌^◌, ◌≤◌, ◌<◌, ◌≡◌, refl, ap, ap₂, sym, ◌∙◌, List, [], ◌∷◌,
  ◌++◌, some, none, length, take, drop, drop-drop, take-append_length, drop-append_length,
  length-append, of_le_bytes-le_bytes, get_elem?, All, arith,
}
use parquet_go.Bloom.{
  Block, SplitBlockFilter, block_bytes, filter_bytes, block_of_bytes, check, check_split_block,
  filter_check, block_index, fasthash1x64,
}
use parquet_go.Bloom.Laws.{block_index-lt, get_elem?-some, get_elem?-All}

-- `ReadAt` of a reader that holds the bytes.
pub record ReadsAt (bytes : List ℕ) (read_at : ℕ → ℕ → List ℕ) : Type 0 where
  pub read_at_lem :
      (offset n : ℕ) → offset + n ≤ length bytes → read_at offset n ≡ take n (drop offset bytes)

-- A block of eight words of 32 bits.
abbrev pub IsBlock : Block → Type 0
IsBlock b = (length b ≡ 8) × All (λ w. w < 2 ^ 32) b

length-block_bytes : (b : Block) → length (block_bytes b) ≡ 4 * length b
unfolding block_bytes
length-block_bytes [] = omega arith
length-block_bytes (w ∷ b) = omega (arith, length-block_bytes b)

length-filter_bytes :
    (f : SplitBlockFilter) → All IsBlock f → length (filter_bytes f) ≡ 32 * length f
unfolding filter_bytes
length-filter_bytes [] h = omega arith
length-filter_bytes (b ∷ f) ((e, words), h) =
    length-append (block_bytes b) (filter_bytes f)
    ∙ omega (arith, length-filter_bytes f h, length-block_bytes b)

bytes_at :
    (f : SplitBlockFilter) (i : ℕ) (b : Block)
    → All IsBlock f
    → get_elem? f i ≡ some b
    → take 32 (drop (32 * i) (filter_bytes f)) ≡ block_bytes b
unfolding filter_bytes
bytes_at [] i b h e = absurd (none_some e)
  where
    none_some : none ≡ some b → ⊥
    none_some e = cc
bytes_at (a ∷ f) zero b ((len, words), h) e =
    let same : a ≡ b = cc in
    let size : 32 ≡ length (block_bytes a) = omega (arith, length-block_bytes a) in
    ap (λ n. take n (block_bytes a ++ filter_bytes f)) size
    ∙ take-append_length (block_bytes a) (filter_bytes f)
    ∙ ap block_bytes same
bytes_at (a ∷ f) (suc i) b ((len, words), h) e =
    let past : 32 * suc i ≡ length (block_bytes a) + 32 * i = omega (arith, length-block_bytes a) in
    let all = block_bytes a ++ filter_bytes f in
    ap (λ n. take 32 (drop n all)) past
    ∙ ap (take 32) (
        sym (drop-drop (length (block_bytes a)) (32 * i) all)
        ∙ ap (drop (32 * i)) (drop-append_length (block_bytes a) (filter_bytes f)))
    ∙ bytes_at f i b h e

block_of_bytes-block_bytes :
    (b : Block) → All (λ w. w < 2 ^ 32) b → block_of_bytes (length b) (block_bytes b) ≡ b
unfolding block_of_bytes block_bytes
block_of_bytes-block_bytes [] h = refl
block_of_bytes-block_bytes (w ∷ b) (h, hs) =
    ap₂ (λ v l. v ∷ l) (of_le_bytes-le_bytes 4 w (omega arith)) (block_of_bytes-block_bytes b hs)

filter_check-found :
    (f : SplitBlockFilter) (x : ℕ) (b : Block)
    → get_elem? f (block_index f x) ≡ some b
    → filter_check f x ≡ some (check b (x % 2 ^ 32))
unfolding filter_check
filter_check-found f x b found = rw (found, filter_check) refl

-- Of a filter of whole blocks, fewer than 2 ^ 31 of them and not none, CheckSplitBlock over a reader that holds
-- the filter's bytes answers for every 64-bit value what Check of the filter answers.
pub check_split_block-filter_check :
    (f : SplitBlockFilter) (read_at : ℕ → ℕ → List ℕ) (x : ℕ)
    → 0 < length f
    → length f < 2 ^ 31
    → All IsBlock f
    → x < 2 ^ 64
    → ReadsAt (filter_bytes f) read_at
    → filter_check f x ≡ some (check_split_block read_at (length (filter_bytes f)) x)
unfolding check_split_block
check_split_block-filter_check f read_at x has int blocks small reads =
    let i = block_index f x in
    let within = block_index-lt f x small has int in
    let (b, found) = get_elem?-some f i within in
    let (eight, words) = get_elem?-All IsBlock f i b blocks found in
    let size = length-filter_bytes f blocks in
    let count : length (filter_bytes f) / 32 ≡ length f = omega (arith, size) in
    let index : fasthash1x64 x (length f % 2 ^ 32) ≡ i = unfold block_index in refl in
    let room : 32 * i + 32 ≤ length (filter_bytes f) = omega (arith, size, within) in
    let read = reads.read_at_lem (32 * i) 32 room ∙ bytes_at f i b blocks found in
    let whole =
      ap (λ n. block_of_bytes n (block_bytes b)) (sym eight) ∙ block_of_bytes-block_bytes b words in
    let answer = λ (bytes : List ℕ). some (check (block_of_bytes 8 bytes) (x % 2 ^ 32)) in
    let at = λ (n : ℕ). answer (read_at (32 * fasthash1x64 x (n % 2 ^ 32)) 32) in
    filter_check-found f x b found
    ∙ sym (
        ap at count
        ∙ ap (λ j. answer (read_at (32 * j) 32)) index
        ∙ ap answer read
        ∙ ap (λ c. some (check c (x % 2 ^ 32))) whole)
