-- ===== src/Rows/Scan/Examples.antt =====
-- The theorem about the scanning reader at a concrete input.
use parquet_go.Prelude.{ℕ, ◌+◌, ◌≡◌, Bool, List, [], ◌∷◌, none, some, ltb}
use parquet_go.Rows.Stream.{eof, Read, delivered}
use parquet_go.Rows.Scan.{read_calls}
use parquet_go.Rows.Scan.Laws.{prefix_from, read_calls-prefix}

abbrev calls : List (Read ℕ)
calls =
    record { rows = 3 ∷ 4 ∷ []; error = none }
    ∷ record { rows = 40 ∷ 5 ∷ []; error = some eof }
    ∷ []

abbrev short : ℕ → ℕ → Bool
short row i = ltb (row + i) 20

read_calls-prefix_example :
    prefix_from short 0 (delivered calls) ≡ delivered (read_calls short (some 0) calls)
read_calls-prefix_example = read_calls-prefix short 0 calls
