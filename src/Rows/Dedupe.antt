-- ===== src/Rows/Dedupe.antt =====
-- dedupe.go: rows equal to the row before them are dropped.
pub mod Laws
pub mod Reader
mod Examples
use parquet_go.Prelude.{
  ℕ, Bool, true, false, ◌&&◌, List, [], ◌∷◌, ◌++◌, length, take, Option, none, some, Ordering,
  is_eq, if◌then◌else◌, ltb,
}
use parquet_go.Rows.Stream.{Error, Read}

-- `len(row) != 0`.
abbrev pub non_empty {ℓ} : {V : Type ℓ} → List V → Bool
non_empty [] = false
non_empty (v ∷ vs) = true

-- A row is its list of values. `lastRow` is empty before the first row; `uniq` and `dupe` are empty
-- between the calls of `deduplicate`, which builds and clears them.
pub record Dedupe {ℓ} (V : Type ℓ) : Type ℓ where
  pub last_row : List V

pub record Split {ℓ} (V : Type ℓ) : Type ℓ where
  pub last : List V
  pub uniq : List (List V)
  pub dupe : List (List V)

-- The slice `rows` when `deduplicate` returns, its result, and the new state.
pub record Deduped {ℓ} (V : Type ℓ) : Type ℓ where
  pub rows : List (List V)
  pub count : ℕ
  pub state : Dedupe V

pub reset {ℓ} : {V : Type ℓ} → Dedupe V → Dedupe V
reset d = record { last_row = [] }

-- The rows that `WriteRows` hands on to its writer, its results, and the new state.
pub record Written {ℓ} (V : Type ℓ) : Type ℓ where
  pub handed_on : List (List V)
  pub count : ℕ
  pub error : Option Error
  pub state : Dedupe V

-- What `WriteRows` returns once its writer has returned.
pub write_result {ℓ} : {V : Type ℓ} → List (List V) → ℕ → Dedupe V → ℕ × Option Error → Written V
write_result uniq total d (w, some e) = record {
  handed_on = uniq;
  count = w;
  error = some e;
  state = d;
}
write_result uniq total d (w, none) = record {
  handed_on = uniq;
  count = total;
  error = none;
  state = d;
}

module _ {ℓ} {V : Type ℓ} (compare : List V → List V → Ordering) where
  -- `len(lastRow) != 0 && compare(row, lastRow) == 0`
  abbrev pub repeats : List V → List V → Bool
  repeats last row = non_empty last && is_eq (compare row last)

  pub split_loop : Split V → List (List V) → Split V
  split_loop s [] = s
  split_loop s (row ∷ rows) =
      split_loop
        (if repeats s.last row
          then record s { dupe = s.dupe ++ row ∷ [] }
          else record s { last = row; uniq = s.uniq ++ row ∷ [] })
        rows

  pub deduplicate : Dedupe V → List (List V) → Deduped V
  unfolding split_loop
  deduplicate d rows =
      let s = split_loop (record { last = d.last_row; uniq = []; dupe = [] }) rows in
      record {
        rows = s.uniq ++ s.dupe;
        count = length s.uniq;
        state = record { last_row = s.last };
      }

  -- `dedupeRowReader.ReadRows`, over the results of the calls that it makes to its reader. The
  -- result is what it returns, its state and the calls not made; `none` means that the given calls
  -- all came to nothing and another one is made.
  pub read_rows :
      Dedupe V → List (Read (List V)) → Option (Read (List V) × Dedupe V × List (Read (List V)))
  unfolding deduplicate
  read_rows d [] = none
  read_rows d (r ∷ rs) =
      let u = deduplicate d r.rows in
      let result : Read (List V) = record { rows = take u.count u.rows; error = r.error } in
      let again = read_rows u.state rs in
      elim r.error [
        | some e ↦ some (result, u.state, rs)
        | none ↦ if ltb 0 u.count then some (result, u.state, rs) else again
      ]

  -- `dedupeRowWriter.WriteRows` over its writer. The deferred loop clears the copy of the rows.
  pub write_rows : (List (List V) → ℕ × Option Error) → Dedupe V → List (List V) → Written V
  unfolding deduplicate write_result
  write_rows write d rows =
      let u = deduplicate d rows in
      let uniq = take u.count u.rows in
      if ltb 0 u.count
      then write_result uniq (length rows) u.state (write uniq)
      else record { handed_on = []; count = length rows; error = none; state = u.state }
