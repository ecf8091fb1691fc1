-- ===== src/Rows/Concat/Examples.antt =====
-- The theorem about the concatenated readers at a concrete input.
use parquet_go.Prelude.{ℕ, ◌≡◌, refl, List, [], ◌∷◌, none, some}
use parquet_go.Rows.Stream.{eof, Read}
use parquet_go.Rows.Concat.{read_rows}
use parquet_go.Rows.Concat.Laws.{all_rows, outcome, read_rows-all_rows}

-- The first reader ends with a row, the second one at once.
abbrev readers : List (List (Read ℕ))
readers =
    (record { rows = 3 ∷ []; error = some eof } ∷ [])
    ∷ (record { rows = []; error = some eof } ∷ [])
    ∷ (record { rows = 4 ∷ 5 ∷ []; error = none } ∷ record { rows = []; error = some eof } ∷ [])
    ∷ []

delivers_all : all_rows readers ≡ 3 ∷ 4 ∷ 5 ∷ []
delivers_all = refl

read_rows-all_rows_example : all_rows readers ≡ outcome (read_rows readers)
read_rows-all_rows_example = read_rows-all_rows readers
