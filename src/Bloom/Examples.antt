-- ===== src/Bloom/Examples.antt =====
-- Runs of a filter of two blocks.
use parquet_go.Prelude.{
  ◌≡◌, refl, true, false, [], ◌∷◌, ◌++◌, some, replicate, arith, take, drop, length,
}
use parquet_go.Bloom.{
  SplitBlockFilter, insert, check, reference_insert, reference_check, filter_insert_bulk,
  filter_check, filter_bytes, check_split_block, reset, num_split_blocks_of,
}
use parquet_go.Bloom.Words.{IsLong}
use parquet_go.Bloom.Reference.{insert-eq-reference_insert}
use parquet_go.Bloom.Laws.{IsFilter, check_of, filter_insert_bulk-filter_check}
use parquet_go.Bloom.Bytes.{check_split_block-filter_check}

abbrev empty : SplitBlockFilter
empty = replicate 2 (replicate 8 0)

empty-IsFilter : IsFilter empty
unfolding IsLong
empty-IsFilter = record {
  some_blocks = omega arith;
  int32_blocks = omega arith;
  long_blocks = (tt, (tt, tt));
}

filter_insert_bulk-filter_check_example :
    check_of
      (filter_insert_bulk empty ((1 ∷ []) ++ 18446744073709551615 ∷ 7 ∷ []))
      18446744073709551615
    ≡ some true
filter_insert_bulk-filter_check_example =
    filter_insert_bulk-filter_check empty (1 ∷ []) 18446744073709551615 (7 ∷ []) empty-IsFilter
      (omega arith, (omega arith, (omega arith, tt)))

insert-eq-reference_insert_example :
    (reference_insert (replicate 8 0) 12345 ≡ insert (replicate 8 0) 12345)
    × (reference_check (replicate 8 0) 12345 ≡ check (replicate 8 0) 12345)
insert-eq-reference_insert_example = insert-eq-reference_insert (replicate 8 0) 12345

check_split_block-filter_check_example :
    filter_check empty 5
    ≡ some (
        check_split_block
          (λ offset n. take n (drop offset (filter_bytes empty)))
          (length (filter_bytes empty))
          5)
check_split_block-filter_check_example =
    check_split_block-filter_check empty (λ offset n. take n (drop offset (filter_bytes empty))) 5
      (omega arith) (omega arith)
      (
        (
          refl,
          (
            omega arith,
            (
              omega arith,
              (
                omega arith,
                (omega arith, (omega arith, (omega arith, (omega arith, (omega arith, tt))))),
              ),
            ),
          ),
        ),
        (
          (
            refl,
            (
              omega arith,
              (
                omega arith,
                (
                  omega arith,
                  (omega arith, (omega arith, (omega arith, (omega arith, (omega arith, tt))))),
                ),
              ),
            ),
          ),
          tt,
        ),
      )
      (omega arith) (record { read_at_lem = λ offset n room. refl })

-- A value that was not inserted may be told apart, and a filter that is reset holds none.
told_apart : check_of (filter_insert_bulk empty (1 ∷ [])) 2 ≡ some false
unfolding filter_insert_bulk filter_check
told_apart = refl

forgotten : filter_check (reset (replicate 2 (insert (replicate 8 0) 1))) 1 ≡ some false
unfolding filter_check reset insert
forgotten = refl

-- 1000 values at 10 bits each take 40 blocks of 32 bytes.
sized : num_split_blocks_of 1000 10 ≡ 40
unfolding num_split_blocks_of
sized = refl
