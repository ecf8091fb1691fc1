-- ===== src/Rows/Sorting/Examples.antt =====
-- The sorting columns of three row groups, whose names are numbers here.
use parquet_go.Prelude.{ℕ, ◌≡◌, refl, Bool, true, false, List, [], ◌∷◌, ◌==◌, arith}
use parquet_go.Rows.Sorting.{SortingColumn, equal_sorting_column, merge_sorting_columns}
use parquet_go.Rows.Sorting.Prefix.{DecidesNames, IsLongest, merge_sorting_columns-IsLongest}

same_number : ℕ → ℕ → Bool
same_number a b = a == b

same_number-DecidesNames : DecidesNames same_number
unfolding same_number
same_number-DecidesNames = record { sound = λ a b h. ground arith; complete = λ a. ground arith }

abbrev up_on : ℕ → SortingColumn ℕ
up_on name = record { path = name ∷ []; descending = false; nulls_first = false }

abbrev down_on : ℕ → SortingColumn ℕ
down_on name = record { path = name ∷ []; descending = true; nulls_first = false }

abbrev first : List (SortingColumn ℕ)
first = up_on 1 ∷ up_on 2 ∷ down_on 3 ∷ []

abbrev others : List (List (SortingColumn ℕ))
others = (up_on 1 ∷ up_on 2 ∷ up_on 3 ∷ []) ∷ (up_on 1 ∷ up_on 2 ∷ down_on 3 ∷ up_on 4 ∷ []) ∷ []

merged_two : merge_sorting_columns same_number (first ∷ others) ≡ up_on 1 ∷ up_on 2 ∷ []
unfolding merge_sorting_columns same_number equal_sorting_column
merged_two = refl

merge_sorting_columns-IsLongest_example :
    IsLongest same_number same_number-DecidesNames first others
      (merge_sorting_columns same_number (first ∷ others))
merge_sorting_columns-IsLongest_example =
    merge_sorting_columns-IsLongest same_number same_number-DecidesNames first others
