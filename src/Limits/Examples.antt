-- ===== src/Limits/Examples.antt =====
-- The checks at a concrete input.
use parquet_go.Prelude.{arith}
use parquet_go.Prelude.Int.{negsuc}
use parquet_go.Limits.{
  make_repetition_level, make_definition_level, make_column_index, make_num_values,
  max_repetition_level, max_definition_level, max_column_index, max_int32,
}
use parquet_go.Limits.Range.{Checks, make-Checks}

make-Checks_example :
    Checks make_repetition_level max_repetition_level (negsuc 0)
    × Checks make_definition_level max_definition_level (negsuc 0)
    × Checks make_column_index max_column_index (negsuc 0)
    × Checks make_num_values max_int32 (negsuc 0)
make-Checks_example = make-Checks (negsuc 0) (omega arith)
