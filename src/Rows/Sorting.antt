-- ===== src/Rows/Sorting.antt =====
-- merge.go and sorting.go: the sorting columns that merged row groups share.
pub mod Prefix
mod Examples
use parquet_go.Prelude.{Bool, true, false, ◌&&◌, List, [], ◌∷◌, if◌then◌else◌}

-- `SortingColumn`; a path is the list of its names.
pub record SortingColumn {ℓ} (N : Type ℓ) : Type ℓ where
  pub path : List N
  pub descending : Bool
  pub nulls_first : Bool

abbrev pub same_bool : Bool → Bool → Bool
same_bool true b = b
same_bool false true = false
same_bool false false = true

module _ {ℓ} {N : Type ℓ} (same_name : N → N → Bool) where
  -- `slices.Equal`
  abbrev pub same_path : List N → List N → Bool
  same_path [] [] = true
  same_path [] (b ∷ bs) = false
  same_path (a ∷ xs) [] = false
  same_path (a ∷ xs) (b ∷ bs) = same_name a b && same_path xs bs

  pub equal_sorting_column : SortingColumn N → SortingColumn N → Bool
  equal_sorting_column a b =
      same_path a.path b.path
      && same_bool a.descending b.descending
      && same_bool a.nulls_first b.nulls_first

  pub common_sorting_prefix :
      List (SortingColumn N) → List (SortingColumn N) → List (SortingColumn N)
  common_sorting_prefix [] b = []
  common_sorting_prefix (a ∷ xs) [] = []
  common_sorting_prefix (a ∷ xs) (b ∷ bs) =
      if equal_sorting_column a b then a ∷ common_sorting_prefix xs bs else []

  -- The loop of `MergeSortingColumns`.
  pub merge_loop : List (SortingColumn N) → List (List (SortingColumn N)) → List (SortingColumn N)
  unfolding common_sorting_prefix
  merge_loop merged [] = merged
  merge_loop merged (columns ∷ more) = merge_loop (common_sorting_prefix merged columns) more

  pub merge_sorting_columns : List (List (SortingColumn N)) → List (SortingColumn N)
  unfolding merge_loop
  merge_sorting_columns [] = []
  merge_sorting_columns (first ∷ more) = merge_loop first more
