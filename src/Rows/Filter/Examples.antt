-- ===== src/Rows/Filter/Examples.antt =====
-- Runs of the filter, and its theorems at concrete inputs.
use parquet_go.Prelude.{ℕ, ◌≡◌, refl, Bool, List, [], ◌∷◌, none, some, ltb, arith}
use parquet_go.Rows.Stream.{eof, failed, Read, delivered}
use parquet_go.Rows.Filter.{keep, read_rows, write_rows}
use parquet_go.Rows.Filter.Laws.{
  Accounts, Swallows, read_rows-Accounts, write_rows-keep, write_rows-Swallows,
}

abbrev big : ℕ → Bool
big n = ltb 10 n

abbrev calls : List (Read ℕ)
calls =
    record { rows = 3 ∷ 12 ∷ []; error = none }
    ∷ record { rows = 40 ∷ 5 ∷ []; error = some eof }
    ∷ []

read_rows-Accounts_example : Accounts big (keep big (delivered calls)) (read_rows big 2 calls)
read_rows-Accounts_example = read_rows-Accounts big 2 calls

write_rows-keep_example :
    write_rows big 2 (λ s b. none) (3 ∷ 12 ∷ 40 ∷ [])
    ≡ some (record { sink = 12 ∷ 40 ∷ []; count = 3; error = none })
write_rows-keep_example =
    write_rows-keep big 2 (omega arith) (λ s b. none) (λ s b. refl) (3 ∷ 12 ∷ 40 ∷ [])

write_rows-Swallows_example :
    Swallows big 2
      (omega arith)
      []
      0
      (3 ∷ 12 ∷ 40 ∷ [])
      (write_rows big 2 (λ s b. some failed) (3 ∷ 12 ∷ 40 ∷ []))
write_rows-Swallows_example =
    write_rows-Swallows big 2 (omega arith) (λ s b. some failed) failed (λ s b. refl)
      (3 ∷ 12 ∷ 40 ∷ [])
