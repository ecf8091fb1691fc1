-- ===== src/Rows/Concat.antt =====
-- merge.go: the rows of a sequence of readers, one after the other.
pub mod Laws
mod Examples
use parquet_go.Prelude.{
  ℕ, zero, suc, ◌+◌, ◌-◌, Bool, List, [], ◌∷◌, ◌++◌, length, Option, none, some, if◌then◌else◌, ltb,
  leb, min,
}
use parquet_go.Prelude.Int.{ℤ, pos, negsuc}
use parquet_go.Rows.Stream.{Error, eof, failed, Read}

module _ {ℓ} {R : Type ℓ} where
  -- `concatenatingRows.ReadRows` over the results of the calls of each reader from `index` on. The result
  -- is what it returns, and the readers with the calls not made; `none` means that a reader whose given
  -- calls are used up is called again.
  pub read_rows : List (List (Read R)) → Option (Read R × List (List (Read R)))
  read_rows [] = some (record { rows = []; error = some eof }, [])
  read_rows ([] ∷ readers) = none
  read_rows ((call ∷ calls) ∷ readers) =
      let further = read_rows readers in
      let last : Read R = record { rows = call.rows; error = none } in
      elim call.error [
        | none ↦ some (call, calls ∷ readers)
        | some e ↦ elim e [
          | eof ↦ if ltb 0 (length call.rows) then some (last, readers) else further
          | failed ↦ some (call, calls ∷ readers)
        ]
      ]
