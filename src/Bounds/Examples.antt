-- ===== src/Bounds/Examples.antt =====
-- The theorems about bounds at concrete inputs.
use parquet_go.Prelude.{
  ℕ, ◌+◌, ◌≡◌, refl, inr, true, List, [], ◌∷◌, none, some, is_le, is_lt, compare, arith,
  compare-IsOrder,
}
use parquet_go.Bounds.Bytes.{compare_bytes}
use parquet_go.Bounds.Truncate.{truncate_max, truncate_max-ge, truncate_max_ones}
use parquet_go.Bounds.Order.{order_of, order_of_values, boundary_order_of}
use parquet_go.Bounds.Order.Sorted.{
  Describes, order_of_values-eq-order_of, boundary_order_of-Describes,
}
use parquet_go.Bounds.Indexer.{
  PageBounds, Indexer, reset, index_page, index_page_be128, column_index, num_pages, min_value,
  max_value, found, panic,
}
use parquet_go.Bounds.Indexer.Pages.{index_pages, index_page-read, index_page_be128-panics}

truncate_max-ge_example :
    is_le (compare_bytes (7 ∷ 0xff ∷ 9 ∷ []) (truncate_max (7 ∷ 0xff ∷ 9 ∷ []) 2)) ≡ true
truncate_max-ge_example = truncate_max-ge (7 ∷ 0xff ∷ 9 ∷ []) 2 (omega arith) (inr refl)

truncate_max_ones_example :
    (truncate_max (0xff ∷ 0xff ∷ 9 ∷ []) 2 ≡ 0xff ∷ 0xff ∷ [])
    × (is_lt (compare_bytes (truncate_max (0xff ∷ 0xff ∷ 9 ∷ []) 2) (0xff ∷ 0xff ∷ 9 ∷ [])) ≡ true)
truncate_max_ones_example =
    truncate_max_ones (0xff ∷ 0xff ∷ 9 ∷ []) 2 (omega arith) (omega arith) refl

order_of_values-eq-order_of_example :
    order_of_values compare (3 ∷ 3 ∷ 5 ∷ []) ≡ order_of compare (3 ∷ 3 ∷ 5 ∷ [])
order_of_values-eq-order_of_example = order_of_values-eq-order_of compare-IsOrder (3 ∷ 3 ∷ 5 ∷ [])

boundary_order_of-Describes_example :
    Describes compare-IsOrder
      (boundary_order_of (order_of compare (1 ∷ 2 ∷ [])) (order_of compare (4 ∷ 4 ∷ [])))
      (1 ∷ 2 ∷ [])
      (4 ∷ 4 ∷ [])
    × Describes compare-IsOrder
        (boundary_order_of
          (order_of_values compare (1 ∷ 2 ∷ []))
          (order_of_values compare (4 ∷ 4 ∷ [])))
        (1 ∷ 2 ∷ [])
        (4 ∷ 4 ∷ [])
boundary_order_of-Describes_example =
    boundary_order_of-Describes compare-IsOrder (1 ∷ 2 ∷ []) (4 ∷ 4 ∷ [])

abbrev nulls : PageBounds ℕ
nulls = record { num_values = 4; num_nulls = 4; min = none; max = none }

abbrev values : PageBounds ℕ
values = record { num_values = 4; num_nulls = 1; min = some 5; max = some 8 }

abbrev used : Indexer ℕ
used = record {
  null_pages = true ∷ [];
  null_counts = 3 ∷ [];
  min_values = 9 ∷ [];
  max_values = 9 ∷ [];
}

abbrev byte_of : ℕ → List ℕ
byte_of b = b ∷ []

index_page-read_example :
    let f =
      column_index byte_of
        (order_of compare)
        (index_pages (index_page 0) (reset used) (nulls ∷ values ∷ [])) in
    (num_pages f ≡ 2)
    × (min_value f 1 ≡ found (some (5 ∷ [])))
    × (max_value f 1 ≡ found (some (8 ∷ [])))
index_page-read_example =
    index_page-read byte_of (order_of compare) 0 used (nulls ∷ values ∷ []) 1 values refl

index_page_be128-panics_example :
    let f =
      column_index byte_of
        (order_of compare)
        (index_pages index_page_be128 (reset used) (nulls ∷ values ∷ [])) in
    (num_pages f ≡ 1 + 1) × (min_value f 1 ≡ panic)
index_page_be128-panics_example =
    index_page_be128-panics byte_of (order_of compare) used (nulls ∷ []) values (omega arith) refl
