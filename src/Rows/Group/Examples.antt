-- ===== src/Rows/Group/Examples.antt =====
-- Seeks in the rows of a merged row group over a reader of a list, and the theorems at them.
use parquet_go.Prelude.{ℕ, ◌≡◌, refl, List, [], ◌∷◌, none, some, arith}
use parquet_go.Prelude.Int.{pos, negsuc}
use parquet_go.Rows.Stream.{eof, failed}
use parquet_go.Rows.Seek.Sample.{list_source, list_source-IsSource}
use parquet_go.Rows.Group.{GroupRows, seek_to_row, close, read_rows}
use parquet_go.Rows.Group.Laws.{IsSteady, Skipped, read_rows-none, read_rows-Skipped}

list_source-IsSteady : IsSteady list_source
list_source-IsSteady n [] h = absurd (omega arith)
list_source-IsSteady n (r ∷ rs) h = refl

abbrev group : GroupRows (List ℕ)
group = record { reader = 7 ∷ 8 ∷ 9 ∷ 10 ∷ []; row_index = pos 4; seek_to = 4 }

-- Of the three rows written, the first one was to be skipped; two are counted.
read_behind :
    read_rows list_source 9 3 (seek_to_row (pos 5) group).1
    ≡ some (record {
      written = 7 ∷ 8 ∷ 9 ∷ [];
      count = 2;
      error = none;
      state = record { reader = 10 ∷ []; row_index = pos 7; seek_to = 5 };
    })
unfolding read_rows
read_behind = refl

read_closed :
    read_rows list_source 9 3 (close (none ∷ some failed ∷ none ∷ []) group).1
    ≡ some (record {
      written = [];
      count = 0;
      error = some eof;
      state = record { reader = 7 ∷ 8 ∷ 9 ∷ 10 ∷ []; row_index = negsuc 0; seek_to = 0 };
    })
unfolding read_rows
read_closed = refl

read_rows-none_example :
    read_rows list_source 100 2
      (seek_to_row
        (pos 7)
        (record { reader = 7 ∷ 8 ∷ 9 ∷ 10 ∷ []; row_index = pos 4; seek_to = 4 })).1
    ≡ none
read_rows-none_example =
    read_rows-none list_source list_source-IsSource list_source-IsSteady 100 2 4 7 4
      (7 ∷ 8 ∷ 9 ∷ 10 ∷ []) (omega arith) (omega arith)

read_rows-Skipped_example : Skipped list_source 1 5 [] (7 ∷ 8 ∷ 9 ∷ 10 ∷ []) (
    read_rows list_source 2 3
      (seek_to_row
        (pos 5)
        (record { reader = 7 ∷ 8 ∷ 9 ∷ 10 ∷ []; row_index = pos 4; seek_to = 4 })).1)
read_rows-Skipped_example =
    read_rows-Skipped list_source list_source-IsSource list_source-IsSteady 3 4 5 4
      (7 ∷ 8 ∷ 9 ∷ 10 ∷ []) (omega arith) (omega arith) (omega arith)
