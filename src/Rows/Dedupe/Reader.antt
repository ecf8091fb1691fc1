-- ===== src/Rows/Dedupe/Reader.antt =====
-- The deduplicating reader and writer over their sources.
use parquet_go.Prelude.{
  ℕ, ◌≡◌, refl, ◌∙◌, sym, false, List, [], ◌∷◌, ◌++◌, length, take, inl, inr, Ordering, arith,
  Bool-cases, Option, none, some, ltb,
}
use parquet_go.Rows.Stream.{Error, Read, delivered}
use parquet_go.Rows.Dedupe.{Dedupe, deduplicate, Written, read_rows, write_result, write_rows}
use parquet_go.Rows.Dedupe.Laws.{distinct, last_of, deduplicate-distinct, distinct-append}

module _ {ℓ} {V : Type ℓ} (compare : List V → List V → Ordering) where
  abbrev batch : Dedupe V → List (List V) → List (List V)
  batch d rows = take (deduplicate compare d rows).count (deduplicate compare d rows).rows

  -- What a call returned, and what all later calls have to deliver.
  abbrev pub later : Read (List V) → Dedupe V → List (Read (List V)) → List (List V)
  later result d rest =
      result.rows
      ++ elim result.error [ none ↦ distinct compare d.last_row (delivered rest) | some e ↦ [] ]

  distinct-batch :
      (d : Dedupe V) (rows more : List (List V))
      → distinct compare d.last_row (rows ++ more)
        ≡ batch d rows ++ distinct compare (deduplicate compare d rows).state.last_row more
  distinct-batch d rows more =
      let (u, l) = deduplicate-distinct compare d rows in
      rw (u, l) (distinct-append compare d.last_row rows more)

  count_zero :
      (d : Dedupe V) (rows : List (List V))
      → ltb 0 (deduplicate compare d rows).count ≡ false
      → batch d rows ≡ []
  count_zero d rows h = let z : (deduplicate compare d rows).count ≡ 0 = ground arith in rw z

  -- The rows of a call, then those that the later calls have to deliver. A reader whose source
  -- makes no more calls has nothing to deliver.
  abbrev pub outcome : Option (Read (List V) × Dedupe V × List (Read (List V))) → List (List V)
  outcome none = []
  outcome (some (result, d, rest)) = later result d rest

  read_rows-step :
      (d : Dedupe V) (rows : List (List V)) (error : Option Error) (rs : List (Read (List V)))
      → ((d' : Dedupe V)
          → distinct compare d'.last_row (delivered rs) ≡ outcome (read_rows compare d' rs))
      → distinct compare d.last_row (delivered (record { rows = rows; error = error } ∷ rs))
        ≡ outcome (read_rows compare d (record { rows = rows; error = error } ∷ rs))
  unfolding read_rows
  read_rows-step d rows (some x) rs ih = distinct-batch d rows []
  read_rows-step d rows none rs ih = elim (Bool-cases (ltb 0 (deduplicate compare d rows).count)) [
    | inl p ↦ rw (p, read_rows) (distinct-batch d rows (delivered rs))
    | inr p ↦
        rw (p, read_rows)
          (distinct-batch d rows (delivered rs)
            ∙ rw (count_zero d rows p) (ih (deduplicate compare d rows).state))
  ]

  -- Whatever the calls to the source return, the rows of a call of the reader, with those left to
  -- its later calls, are those that it still had to deliver: the rows of its source up to the first
  -- error, less those equal to the row kept before them.
  pub read_rows-distinct :
      (d : Dedupe V) (calls : List (Read (List V)))
      → distinct compare d.last_row (delivered calls) ≡ outcome (read_rows compare d calls)
  unfolding read_rows
  read_rows-distinct d [] = refl
  read_rows-distinct d (r ∷ rs) =
      read_rows-step d r.rows r.error rs (λ d'. read_rows-distinct d' rs)

  -- What a call of `WriteRows` on the batch leaves.
  pub record WritesDistinct (d : Dedupe V) (rows : List (List V)) (w : Written V) : Type ℓ where
    pub handed_on : w.handed_on ≡ distinct compare d.last_row rows
    pub count : w.error ≡ none → w.count ≡ length rows
    pub last : w.state.last_row ≡ last_of compare d.last_row rows

  write_result-WritesDistinct :
      (d : Dedupe V) (rows : List (List V)) (r : ℕ × Option Error)
      → WritesDistinct d rows
          (write_result (batch d rows) (length rows) (deduplicate compare d rows).state r)
  unfolding write_result
  write_result-WritesDistinct d rows (w, some e) =
      let (u, l) = deduplicate-distinct compare d rows in
      record { handed_on = u; count = λ h. cc; last = l }
  write_result-WritesDistinct d rows (w, none) =
      let (u, l) = deduplicate-distinct compare d rows in
      record { handed_on = u; count = λ _. refl; last = l }

  -- Whatever its writer answers, `WriteRows` hands on the distinct rows of the batch, answers the
  -- count of all of its rows where there is no error, and remembers the last distinct row.
  pub write_rows-WritesDistinct :
      (write : List (List V) → ℕ × Option Error) (d : Dedupe V) (rows : List (List V))
      → WritesDistinct d rows (write_rows compare write d rows)
  unfolding write_rows
  write_rows-WritesDistinct write d rows =
      let (u, l) = deduplicate-distinct compare d rows in
      elim (Bool-cases (ltb 0 (deduplicate compare d rows).count)) [
        | inl p ↦ rw p (write_result-WritesDistinct d rows (write (batch d rows)))
        | inr p ↦
            rw p (record { handed_on = sym (count_zero d rows p) ∙ u; count = λ _. refl; last = l })
      ]
