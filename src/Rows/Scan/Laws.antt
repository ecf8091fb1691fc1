-- ===== src/Rows/Scan/Laws.antt =====
-- The scanning reader against the longest prefix that satisfies the predicate.
use parquet_go.Prelude.{
  ℕ, ◌+◌, ◌≡◌, refl, ap, ◌∙◌, Bool, List, [], ◌∷◌, ◌++◌, Option, none, some, inl, inr,
  if◌then◌else◌, Bool-cases,
}
use parquet_go.Rows.Stream.{Error, Read, delivered}
use parquet_go.Rows.Scan.{scan_loop, scan_result, read_calls}

module _ {ℓ} {R : Type ℓ} (predicate : R → ℕ → Bool) where
  -- The rows in front of the first one that fails; the predicate is given the row's number.
  abbrev pub prefix_from : ℕ → List R → List R
  prefix_from i [] = []
  prefix_from i (row ∷ rows) = if predicate row i then row ∷ prefix_from (i + 1) rows else []

  prefix_of_end : (calls : List (Read R)) → delivered (read_calls predicate none calls) ≡ []
  unfolding read_calls
  prefix_of_end [] = refl
  prefix_of_end (call ∷ calls) = refl

  -- What one call contributes, in front of what the later ones do.
  scan_step :
      (rows more : List R) (i : ℕ) (later : ℕ → List R)
      → ((j : ℕ) → prefix_from j more ≡ later j)
      → prefix_from i (rows ++ more)
        ≡ (scan_loop predicate rows i).0
          ++ elim ((scan_loop predicate rows i).1) [ none ↦ [] | some j ↦ later j ]
  unfolding scan_loop
  scan_step [] more i later h = h i
  scan_step (row ∷ rows) more i later h = elim (Bool-cases (predicate row i)) [
    | inl p ↦ rw p (ap (λ l. row ∷ l) (scan_step rows more (i + 1) later h))
    | inr p ↦ rw p refl
  ]

  abbrev rest_of : Option Error → List (Read R) → ℕ → List R
  rest_of error calls j = elim error [
    | none ↦ delivered (read_calls predicate (some j) calls)
    | some e ↦ []
  ]

  call_result :
      (error : Option Error) (t : List R × Option ℕ) (calls : List (Read R))
      → t.0 ++ elim t.1 [ none ↦ [] | some j ↦ rest_of error calls j ]
        ≡ delivered (
            (scan_result predicate error t).0
            ∷ read_calls predicate (scan_result predicate error t).1 calls)
  call_result error (taken, none) calls = refl
  call_result none (taken, some j) calls = refl
  call_result (some e) (taken, some j) calls = refl

  rest_prefix :
      (error : Option Error) (calls : List (Read R))
      → ((j : ℕ)
          → prefix_from j (delivered calls) ≡ delivered (read_calls predicate (some j) calls))
      → (j : ℕ)
      → prefix_from j (elim error [ none ↦ delivered calls | some e ↦ [] ]) ≡ rest_of error calls j
  rest_prefix none calls ih j = ih j
  rest_prefix (some e) calls ih j = refl

  -- Whatever the calls to its reader return, the calls of the scanning reader deliver the rows of
  -- that reader, up to the first error, in front of the first row that fails the predicate.
  pub read_calls-prefix :
      (i : ℕ) (calls : List (Read R))
      → prefix_from i (delivered calls) ≡ delivered (read_calls predicate (some i) calls)
  unfolding read_calls
  read_calls-prefix i [] = refl
  read_calls-prefix i (call ∷ calls) =
      scan_step call.rows _ i (rest_of call.error calls)
        (rest_prefix call.error calls (λ j. read_calls-prefix j calls))
      ∙ call_result call.error (scan_loop predicate call.rows i) calls
