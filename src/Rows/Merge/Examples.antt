-- ===== src/Rows/Merge/Examples.antt =====
-- The search for a run at a concrete window, and the merging of two readers.
use parquet_go.Prelude.{
  Ordering, ℕ, ◌≡◌, refl, true, false, List, [], ◌∷◌, some, compare, compare-IsOrder,
}
use parquet_go.Rows.Merge.{run_length, within_bound}
use parquet_go.Rows.Merge.Run.{IsRun, SortedRows, run_length-IsRun}
use parquet_go.Rows.Merge.Two.{merge_loop}

abbrev window : List ℕ
window = 1 ∷ 3 ∷ 5 ∷ 5 ∷ 9 ∷ []

window-SortedRows : SortedRows compare window
window-SortedRows = (
  (refl, (refl, (refl, (refl, tt)))),
  ((refl, (refl, (refl, tt))), ((refl, (refl, tt)), ((refl, tt), (tt, tt)))),
)

with_ties : run_length compare true window 5 ≡ some 4
unfolding run_length
with_ties = refl

without_ties : run_length compare false window 5 ≡ some 2
unfolding run_length
without_ties = refl

run_length-IsRun_example :
    (n : ℕ) × (run_length compare true window 5 ≡ some n)
    × IsRun (within_bound compare true window 5) 5 n
run_length-IsRun_example = run_length-IsRun compare-IsOrder true window 5 window-SortedRows

-- The streak of the left reader is emitted as a run, and the tie in pairs.
merged_rows :
    merge_loop compare 9 9 (1 ∷ 2 ∷ 3 ∷ 4 ∷ 5 ∷ 6 ∷ 9 ∷ []) (6 ∷ 7 ∷ []) Ordering.eq 0
    ≡ some (record {
      rows = 1 ∷ 2 ∷ 3 ∷ 4 ∷ 5 ∷ 6 ∷ 6 ∷ 7 ∷ [];
      left = 9 ∷ [];
      right = [];
      prev = Ordering.gt;
      streak = 0;
    })
unfolding merge_loop run_length
merged_rows = refl
