-- ===== src/Rows/Merge/Reader/Examples.antt =====
-- The merge of two concrete readers.
use mathlib.Core.List.{Perm}
use parquet_go.Prelude.{
  ℕ, ◌≡◌, refl, List, [], ◌∷◌, ◌++◌, some, none, compare, compare-IsOrder, arith,
}
use parquet_go.Rows.Stream.{Error, Read}
use parquet_go.Rows.Merge.{run_length}
use parquet_go.Rows.Merge.Run.{SortedRows}
use parquet_go.Rows.Merge.Two.{merge_loop}
use parquet_go.Rows.Merge.Emits.{Emits}
use parquet_go.Rows.Merge.Buffered.{to_come}
use parquet_go.Rows.Merge.Reader.{new_reader, read_all}
use parquet_go.Rows.Merge.Reader.Whole.{read_all-new_reader}

abbrev batch : List ℕ → Read ℕ
batch rows = record { rows = rows; error = none }

abbrev end : Read ℕ
end = record { rows = []; error = some Error.eof }

-- The rows of the last batch come with the end, which is reported again.
abbrev ones : List (Read ℕ)
ones =
    batch (1 ∷ 2 ∷ 3 ∷ 4 ∷ [])
    ∷ batch (5 ∷ 7 ∷ [])
    ∷ record { rows = 9 ∷ []; error = some Error.eof }
    ∷ end
    ∷ []

abbrev evens : List (Read ℕ)
evens = batch (4 ∷ 6 ∷ []) ∷ batch (8 ∷ []) ∷ end ∷ []

abbrev rooms : List ℕ
rooms = 1 ∷ 5 ∷ 5 ∷ 5 ∷ 5 ∷ 5 ∷ 5 ∷ 5 ∷ 5 ∷ 5 ∷ 5 ∷ []

merged_calls :
    read_all compare rooms (new_reader ones evens)
    ≡ some (1 ∷ 2 ∷ 3 ∷ 4 ∷ 4 ∷ 5 ∷ 6 ∷ 7 ∷ 8 ∷ 9 ∷ [], Error.eof)
unfolding read_all merge_loop run_length
merged_calls = refl

-- A reader that fails at the start.
failing_start :
    read_all compare rooms (new_reader (record { rows = []; error = some Error.failed } ∷ []) evens)
    ≡ some ([], Error.failed)
unfolding read_all
failing_start = refl

read_all-new_reader_example :
    (rows : List ℕ) × (read_all compare rooms (new_reader ones evens) ≡ some (rows, Error.eof))
    × SortedRows compare rows
    × Perm rows (to_come ones ++ to_come evens)
    × Emits compare (to_come ones) (to_come evens) rows [] []
read_all-new_reader_example =
    read_all-new_reader compare compare-IsOrder ones evens rooms tt tt
      (
        (refl, (refl, (refl, (refl, (refl, (refl, tt)))))),
        (
          (refl, (refl, (refl, (refl, (refl, tt))))),
          (
            (refl, (refl, (refl, (refl, tt)))),
            ((refl, (refl, (refl, tt))), ((refl, (refl, tt)), ((refl, tt), (tt, tt)))),
          ),
        ),
      )
      ((refl, (refl, tt)), ((refl, tt), (tt, tt)))
      (
        omega arith,
        (
          omega arith,
          (
            omega arith,
            (
              omega arith,
              (
                omega arith,
                (
                  omega arith,
                  (omega arith, (omega arith, (omega arith, (omega arith, (omega arith, tt))))),
                ),
              ),
            ),
          ),
        ),
      )
      (omega arith)
