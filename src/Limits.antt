-- ===== src/Limits.antt =====
-- limits.go: the range checks on levels, column indexes and value counts.
pub mod Range
mod Examples
use parquet_go.Prelude.{ℕ, ◌+◌, ◌-◌, ◌^◌, ◌%◌, Option, none, some, if◌then◌else◌, ltb}
use parquet_go.Prelude.Int.{ℤ, pos, negsuc}

abbrev pub max_column_depth : ℕ
max_column_depth = 255

abbrev pub max_column_index : ℕ
max_column_index = 65534

abbrev pub max_repetition_level : ℕ
max_repetition_level = 255

abbrev pub max_definition_level : ℕ
max_definition_level = 255

abbrev pub max_int32 : ℕ
max_int32 = 2 ^ 31 - 1

-- The conversion `uint(i)` of a 64-bit int.
pub to_uint : ℤ → ℕ
to_uint (pos n) = n
to_uint (negsuc n) = 2 ^ 64 - (n + 1)

-- A panic is `none`; the conversions of the result are `byte`, `uint16` and `int32`.
pub make_repetition_level : ℤ → Option ℕ
unfolding to_uint
make_repetition_level i =
    if ltb max_repetition_level (to_uint i) then none else some (to_uint i % 2 ^ 8)

pub make_definition_level : ℤ → Option ℕ
unfolding to_uint
make_definition_level i =
    if ltb max_definition_level (to_uint i) then none else some (to_uint i % 2 ^ 8)

pub make_column_index : ℤ → Option ℕ
unfolding to_uint
make_column_index i = if ltb max_column_index (to_uint i) then none else some (to_uint i % 2 ^ 16)

pub make_num_values : ℤ → Option ℕ
unfolding to_uint
make_num_values i = if ltb max_int32 (to_uint i) then none else some (to_uint i % 2 ^ 32)
