-- ===== src/Rows/Seek/Examples.antt =====
-- A seek over a reader of a list, and the theorem at it.
use parquet_go.Prelude.{ℕ, ◌<◌, ◌≡◌, refl, List, [], ◌∷◌, Option, none, some}
use parquet_go.Prelude.Int.{pos}
use parquet_go.Rows.Stream.{Error, failed}
use parquet_go.Rows.Seek.{Wrapper, seek_to_row}
use parquet_go.Rows.Seek.Sample.{list_source, list_source-IsSource}
use parquet_go.Rows.Seek.Laws.{Sought, seek_to_row-Sought}

abbrev start : Wrapper (List ℕ)
start = record { reader = 7 ∷ 8 ∷ 9 ∷ []; row_index = 4 }

seek_two :
    seek_to_row list_source (pos 6) start ≡ some (none, record { reader = 9 ∷ []; row_index = 6 })
unfolding seek_to_row
seek_two = refl

seek_to_row-Sought_example :
    (error : Option Error) × (v : Wrapper (List ℕ)) × (seek_to_row list_source (pos 6) start
      ≡ some (error, v))
    × Sought list_source 6 start error v
    × (6 < 4 → (error ≡ some failed) × (v ≡ start))
seek_to_row-Sought_example = seek_to_row-Sought list_source list_source-IsSource 6 start
