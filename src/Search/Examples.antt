-- ===== src/Search/Examples.antt =====
-- Runs of the search, and its theorems at concrete inputs.
use parquet_go.Prelude.{
  ℕ, ◌+◌, ◌*◌, ◌≡◌, refl, true, some, compare, arith, compare-IsOrder, get_or, [], ◌∷◌,
}
use parquet_go.Search.{ColumnIndex, find, linear_search, binary_search}
use parquet_go.Search.Linear.{IsFirst, linear_search-IsFirst}
use parquet_go.Search.Binary.{IsAscending, find-eq-linear_search, binary_search_null_page}

-- Pages [10 i, 10 i + 12]: neighbours overlap.
abbrev tens : ColumnIndex ℕ
tens = record {
  num_pages = 5;
  min_value = λ i. 10 * i;
  max_value = λ i. 10 * i + 12;
  is_ascending = true;
}

tens-IsAscending : IsAscending compare tens
tens-IsAscending = record { mins = λ i j p q. ground arith; maxs = λ i j p q. ground arith }

find_overlap : find compare tens 21 ≡ some 1
unfolding find
find_overlap = refl

find-eq-linear_search_example : find compare tens 21 ≡ some (linear_search compare tens 21)
find-eq-linear_search_example =
    find-eq-linear_search compare-IsOrder tens (λ _. tens-IsAscending) 21

linear_search-IsFirst_example : IsFirst compare tens 60 (linear_search compare tens 60)
linear_search-IsFirst_example = linear_search-IsFirst compare tens 60

-- The value 99 stands for null, behind all values of the column.
abbrev null_first : ColumnIndex ℕ
null_first = record {
  num_pages = 2;
  min_value = λ i. get_or (99 ∷ 1 ∷ []) i 0;
  max_value = λ i. get_or (99 ∷ 8 ∷ []) i 0;
  is_ascending = true;
}

binary_search_null_page_example :
    (binary_search compare null_first 5 ≡ some 2) × (linear_search compare null_first 5 ≡ 1)
binary_search_null_page_example =
    binary_search_null_page compare-IsOrder null_first 5 refl refl refl
