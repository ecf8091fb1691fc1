-- ===== src/Rows/Filter.antt =====
-- filter.go: rows that fail a predicate are left out.
pub mod Laws
mod Examples
use parquet_go.Prelude.{
  ℕ, zero, suc, ◌+◌, Bool, true, false, List, [], ◌∷◌, ◌++◌, length, take, drop, Option, none, some,
  if◌then◌else◌, ltb, min,
}
use parquet_go.Rows.Stream.{Error, Read}

-- What `filterRowWriter.WriteRows` leaves: the rows that its writer has taken, the count and the
-- error that it returns.
pub record Written {ℓ} (R : Type ℓ) : Type ℓ where
  pub sink : List R
  pub count : ℕ
  pub error : Option Error

module _ {ℓ} {R : Type ℓ} (predicate : R → Bool) where
  -- `for i := range r { if f.predicate(f.rows[i]) { … } }`
  abbrev pub keep : List R → List R
  keep [] = []
  keep (r ∷ rs) = if predicate r then r ∷ keep rs else keep rs

  -- `filterRowReader.ReadRows` into a buffer of `cap` rows, over the results of its calls: `out` is
  -- what the buffer holds. `none` means that the given calls did not fill it and another is made.
  pub read_loop : ℕ → List R → List (Read R) → Option (Read R × List (Read R))
  read_loop cap out [] =
      if ltb (length out) cap then none else some (record { rows = out; error = none }, [])
  read_loop cap out (r ∷ rs) =
      let out' : List R = out ++ keep r.rows in
      let more = read_loop cap out' rs in
      let full : Read R = record { rows = out; error = none } in
      let stopped : Read R = record { rows = out'; error = r.error } in
      if ltb (length out) cap
      then elim r.error [ some e ↦ some (stopped, rs) | none ↦ more ]
      else some (full, r ∷ rs)

  pub read_rows : ℕ → List (Read R) → Option (Read R × List (Read R))
  unfolding read_loop
  read_rows cap calls = read_loop cap [] calls

  -- `defaultRowBufferSize`, the length of `f.rows`, is `size`. The writer answers a batch by an error
  -- that may depend on the rows it took before. `rows` is `rows[n:]`; the `err` of the inner
  -- assignment is another variable than the result, which stays nil.
  pub write_loop :
      ℕ → (List R → List R → Option Error) → ℕ → List R → List R → ℕ → Option (Written R)
  write_loop size write zero sink rows n = none
  write_loop size write (suc fuel) sink [] n =
      some (record { sink = sink; count = n; error = none })
  write_loop size write (suc fuel) sink (r ∷ rs) n =
      let rows : List R = r ∷ rs in
      let j = min (length rows) size in
      let batch = keep (take j rows) in
      let skipped = write_loop size write fuel sink (drop j rows) (n + j) in
      let taken = write_loop size write fuel (sink ++ batch) (drop j rows) (n + j) in
      let broken : Written R = record { sink = sink; count = n; error = none } in
      if ltb 0 (length batch)
      then elim (write sink batch) [ some e ↦ some broken | none ↦ taken ]
      else skipped

  -- Each round takes a row at least.
  pub write_rows : ℕ → (List R → List R → Option Error) → List R → Option (Written R)
  unfolding write_loop
  write_rows size write rows = write_loop size write (length rows + 1) [] rows 0
