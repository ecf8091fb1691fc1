-- ===== src/Limits/Range.antt =====
-- The checks accept exactly their ranges, and the conversions behind them lose nothing.
use parquet_go.Prelude.{ℕ, ◌^◌, ◌≤◌, ◌<◌, ◌≡◌, Option, none, some, arith}
use parquet_go.Prelude.Int.{ℤ, pos, negsuc, pos_part, neg_part}
use parquet_go.Limits.{
  make_repetition_level, make_definition_level, make_column_index, make_num_values,
  max_repetition_level, max_definition_level, max_column_index, max_int32,
}

-- The values of a 64-bit int.
abbrev pub IsInt : ℤ → Type 0
IsInt i = (pos_part i < 2 ^ 63) × (neg_part i ≤ 2 ^ 63)

-- Inside [0, max] a check returns the number itself, and outside it fails.
abbrev pub Checks : (ℤ → Option ℕ) → ℕ → ℤ → Type 0
Checks make max (pos n) = (n ≤ max → make (pos n) ≡ some n) × (max < n → make (pos n) ≡ none)
Checks make max (negsuc n) = make (negsuc n) ≡ none

-- For every 64-bit int the four checks accept the numbers from 0 to their limit and no other, so that
-- a negative level or index is never taken for a large one, nor a large one cut to its low bits.
pub make-Checks :
    (i : ℤ)
    → IsInt i
    → Checks make_repetition_level max_repetition_level i
      × Checks make_definition_level max_definition_level i
      × Checks make_column_index max_column_index i
      × Checks make_num_values max_int32 i
unfolding make_repetition_level make_definition_level make_column_index make_num_values
make-Checks (pos n) h = (
  (λ k. ground arith, λ k. ground arith),
  (λ k. ground arith, λ k. ground arith),
  (λ k. ground arith, λ k. ground arith),
  (λ k. ground arith, λ k. ground arith),
)
make-Checks (negsuc n) h = (ground arith, ground arith, ground arith, ground arith)
