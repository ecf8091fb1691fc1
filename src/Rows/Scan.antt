-- ===== src/Rows/Scan.antt =====
-- scan.go: a reader that ends at the first row that fails a predicate.
pub mod Laws
mod Examples
use parquet_go.Prelude.{ℕ, ◌+◌, Bool, List, [], ◌∷◌, Option, none, some, if◌then◌else◌}
use parquet_go.Rows.Stream.{Error, eof, Read}

module _ {ℓ} {R : Type ℓ} (predicate : R → ℕ → Bool) where
  -- The loop over the rows read: those in front of the first failing row, and the new `rowIndex`;
  -- `none` stands for -1, which `rowIndex` is once a row has failed.
  pub scan_loop : List R → ℕ → List R × Option ℕ
  scan_loop [] i = ([], some i)
  scan_loop (row ∷ rows) i =
      let (taken, next) = scan_loop rows (i + 1) in
      if predicate row i then (row ∷ taken, next) else ([], none)

  -- What is returned after the loop: its own end of file where a row failed.
  abbrev scan_result : Option Error → List R × Option ℕ → Read R × Option ℕ
  scan_result error (taken, none) = (record { rows = taken; error = some eof }, none)
  scan_result error (taken, some i) = (record { rows = taken; error = error }, some i)

  -- `scanRowReader.ReadRows`; `call` is the result of the call to its reader, which is made only
  -- while `rowIndex` is not negative.
  pub read_rows : Option ℕ → Read R → Read R × Option ℕ
  unfolding scan_loop
  read_rows none call = (record { rows = []; error = some eof }, none)
  read_rows (some i) call = scan_result call.error (scan_loop call.rows i)

  -- One call after the other.
  pub read_calls : Option ℕ → List (Read R) → List (Read R)
  unfolding read_rows
  read_calls i [] = []
  read_calls i (call ∷ calls) =
      let (result, next) = read_rows i call in result ∷ read_calls next calls
