-- ===== src/Rows/Concat/Laws.antt =====
-- The concatenated rows are those of the readers, in their order.
use parquet_go.Prelude.{◌≡◌, refl, List, [], ◌∷◌, ◌++◌, Option, none, some, arith}
use parquet_go.Rows.Stream.{Error, eof, failed, Read}
use parquet_go.Rows.Concat.{read_rows}

module _ {ℓ} {R : Type ℓ} where
  -- The rows that a reader delivers, and behind its end of file those of `next`.
  abbrev pub up_to_end : List (Read R) → List R → List R
  up_to_end [] next = []
  up_to_end (call ∷ calls) next = call.rows ++ elim call.error [
    | none ↦ up_to_end calls next
    | some e ↦ elim e [ eof ↦ next | failed ↦ [] ]
  ]

  -- The rows of all readers, up to the first error other than an end of file.
  abbrev pub all_rows : List (List (Read R)) → List R
  all_rows [] = []
  all_rows (calls ∷ readers) = up_to_end calls (all_rows readers)

  -- What a call returns, with what the later calls have to deliver; behind an error nothing is.
  abbrev pub outcome : Option (Read R × List (List (Read R))) → List R
  outcome none = []
  outcome (some (r, readers)) = r.rows ++ elim r.error [ none ↦ all_rows readers | some e ↦ [] ]

  -- A call of the first reader that has the given result.
  first_call :
      (rows : List R) (error : Option Error) (calls : List (Read R))
      (readers : List (List (Read R)))
      → all_rows readers ≡ outcome (read_rows readers)
      → all_rows ((record { rows = rows; error = error } ∷ calls) ∷ readers)
        ≡ outcome (read_rows ((record { rows = rows; error = error } ∷ calls) ∷ readers))
  unfolding read_rows
  first_call rows none calls readers ih = refl
  first_call rows (some failed) calls readers ih = refl
  first_call [] (some eof) calls readers ih = ih
  first_call (r ∷ rs) (some eof) calls readers ih = ground arith

  -- A call returns the next of the rows of all readers, and leaves the others to later calls: no row
  -- is lost where one reader ends, also if its last rows come with the end of file.
  pub read_rows-all_rows :
      (readers : List (List (Read R))) → all_rows readers ≡ outcome (read_rows readers)
  unfolding read_rows
  read_rows-all_rows [] = refl
  read_rows-all_rows ([] ∷ readers) = refl
  read_rows-all_rows ((call ∷ calls) ∷ readers) =
      first_call call.rows call.error calls readers (read_rows-all_rows readers)
