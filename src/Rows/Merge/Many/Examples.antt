-- ===== src/Rows/Merge/Many/Examples.antt =====
-- The merge of three concrete readers; in the second merge one of them is at its end from the start.
use mathlib.Core.List.{Perm}
use parquet_go.Prelude.{
  ℕ, zero, suc, ◌<◌, ◌≡◌, refl, List, [], ◌∷◌, Option, none, some, All, compare, compare-IsOrder,
  arith,
}
use parquet_go.Rows.Stream.{Error, Read}
use parquet_go.Rows.Merge.{run_length}
use parquet_go.Rows.Merge.Run.{SortedRows}
use parquet_go.Rows.Merge.Buffered.{Ends, to_come}
use parquet_go.Rows.Merge.Tree.{play_games, replay_games, run_bound}
use parquet_go.Rows.Merge.Many.{Call, new_reader}
use parquet_go.Rows.Merge.Many.Reading.{read_rows, read_all, merge_loop}
use parquet_go.Rows.Merge.Many.Draws.{Draws, AllSorted, gather}
use parquet_go.Rows.Merge.Many.Whole.{read_all-sources}

abbrev batch : List ℕ → Read ℕ
batch rows = record { rows = rows; error = none }

abbrev end : Read ℕ
end = record { rows = []; error = some Error.eof }

-- The rows of the last batch of the first reader come with the end, which is reported again.
abbrev sources : ℕ → List (Read ℕ)
sources zero =
    batch (1 ∷ 2 ∷ 3 ∷ 4 ∷ 5 ∷ 6 ∷ 9 ∷ [])
    ∷ record { rows = 9 ∷ []; error = some Error.eof }
    ∷ end
    ∷ []
sources (suc zero) = batch (5 ∷ 7 ∷ []) ∷ batch (8 ∷ []) ∷ end ∷ []
sources (suc (suc i)) = batch (2 ∷ []) ∷ end ∷ []

abbrev rooms : List ℕ
rooms = 2 ∷ 7 ∷ 7 ∷ 7 ∷ 7 ∷ 7 ∷ 7 ∷ 7 ∷ 7 ∷ 7 ∷ 7 ∷ 7 ∷ 7 ∷ []

rooms_positive : All (λ room. 0 < room) rooms
rooms_positive = (
  omega arith,
  (
    omega arith,
    (
      omega arith,
      (
        omega arith,
        (
          omega arith,
          (
            omega arith,
            (
              omega arith,
              (
                omega arith,
                (omega arith, (omega arith, (omega arith, (omega arith, (omega arith, tt))))),
              ),
            ),
          ),
        ),
      ),
    ),
  ),
)

merged_three :
    read_all compare (λ _. 0) rooms (new_reader 3 sources)
    ≡ some (1 ∷ 2 ∷ 2 ∷ 3 ∷ 4 ∷ 5 ∷ 5 ∷ 6 ∷ 7 ∷ 8 ∷ 9 ∷ 9 ∷ [], Error.eof)
unfolding read_all merge_loop run_length play_games replay_games run_bound
merged_three = refl

abbrev some_ended : ℕ → List (Read ℕ)
some_ended zero = end ∷ []
some_ended (suc i) = sources i

merged_ended :
    read_all compare (λ _. 0) rooms (new_reader 3 some_ended)
    ≡ some (1 ∷ 2 ∷ 3 ∷ 4 ∷ 5 ∷ 5 ∷ 6 ∷ 7 ∷ 8 ∷ 9 ∷ 9 ∷ [], Error.eof)
unfolding read_all merge_loop run_length play_games replay_games run_bound
merged_ended = refl

-- The run of the first reader empties its buffer: the call returns its rows and keeps the streak.
abbrev apart : ℕ → List (Read ℕ)
apart zero = batch (1 ∷ 2 ∷ 3 ∷ 4 ∷ 5 ∷ 6 ∷ 7 ∷ []) ∷ end ∷ []
apart (suc i) = batch (9 ∷ []) ∷ end ∷ []

abbrev rows_and_streak : Option (Call ℕ) → Option (List ℕ × ℕ)
rows_and_streak none = none
rows_and_streak (some c) = some (c.rows, c.reader.streak)

run_keeps_streak :
    rows_and_streak (read_rows compare (λ _. 0) 10 (new_reader 3 apart))
    ≡ some (1 ∷ 2 ∷ 3 ∷ 4 ∷ 5 ∷ 6 ∷ 7 ∷ [], 3)
unfolding read_rows merge_loop run_length play_games replay_games run_bound
run_keeps_streak = refl

-- A run that the room cuts short does not.
run_resets_streak :
    rows_and_streak (read_rows compare (λ _. 0) 6 (new_reader 3 apart))
    ≡ some (1 ∷ 2 ∷ 3 ∷ 4 ∷ 5 ∷ 6 ∷ [], 0)
unfolding read_rows merge_loop run_length play_games replay_games run_bound
run_resets_streak = refl

sources-Ends : (i : ℕ) → i < 3 → Ends (sources i)
sources-Ends zero h = tt
sources-Ends (suc zero) h = tt
sources-Ends (suc (suc i)) h = tt

sources-AllSorted : AllSorted compare 3 (λ i. to_come (sources i))
sources-AllSorted zero h = (
  (refl, (refl, (refl, (refl, (refl, (refl, (refl, tt))))))),
  (
    (refl, (refl, (refl, (refl, (refl, (refl, tt)))))),
    (
      (refl, (refl, (refl, (refl, (refl, tt))))),
      (
        (refl, (refl, (refl, (refl, tt)))),
        ((refl, (refl, (refl, tt))), ((refl, (refl, tt)), ((refl, tt), (tt, tt)))),
      ),
    ),
  ),
)
sources-AllSorted (suc zero) h = ((refl, (refl, tt)), ((refl, tt), (tt, tt)))
sources-AllSorted (suc (suc i)) h = (tt, tt)

read_all-sources_example :
    (rows : List ℕ) × (left : ℕ → List ℕ) × (read_all compare (λ _. 0) rooms (new_reader 3 sources)
      ≡ some (rows, Error.eof))
    × SortedRows compare rows
    × Perm rows (gather 3 (λ i. to_come (sources i)))
    × Draws compare 3 (λ i. to_come (sources i)) rows left
    × ((i : ℕ) → i < 3 → left i ≡ [])
read_all-sources_example =
    read_all-sources compare (λ _. 0) compare-IsOrder 3 sources rooms sources-Ends sources-AllSorted
      rooms_positive (omega arith)
